-- ===== src/Client/Appends.antt =====
-- `record_append` of client/gfs_client.py, down to the chunkservers.
use google_file_system.Bytes.{Byte}
use google_file_system.Chunkserver.{
  Cluster, AppendRequest, AppendResponse, append_chunk, padding, max_chunk_size, max_message,
}
use google_file_system.Chunkserver.Appends.{append_chunk-Agree}
use google_file_system.Chunkserver.Records.{Holds, append_reply}
use google_file_system.Client.{
  World, max_append_size, append_offset, send_append, with_primary, record_append, call_master,
  call_server,
}
use google_file_system.Locations.{ChunkLocResponse, Readings, get_chunk_locations}
use google_file_system.Metadata.{Time, Address}
use google_file_system.Prelude.{
  ℕ, ◌+◌, ◌≤◌, ◌≡◌, refl, sym, ap, subst, String, true, false, List, ◌∷◌, negsuc, pos, ℤ, ◌++◌,
  if◌then◌else◌, length, ltb, ◌==◌, contains, IsDistinct, Exec, Outcome, returned, arith, nat_eq,
  string_eq,
}
use google_file_system.State.{Master}

abbrev pub sent_request : ChunkLocResponse → List Byte → AppendRequest
sent_request loc bytes = record {
  chunk_handle = loc.chunk_handle;
  payload = bytes;
  chunk_version = loc.chunk_version;
}

-- The answer to the client, and what the servers then hold; of the rest, only the master may have
-- changed, by the lookup.
pub record IsRecorded (loc : ChunkLocResponse) (bytes file : List Byte) (w : World) (n : Master)
    (result : Outcome ℤ × World) : Type 0 where
  pub answer :
      result.0
      ≡ returned
          (if ltb max_chunk_size (length file + length bytes) then negsuc 0 else pos (length file))
  pub holds :
      (b : Address)
      → contains (loc.primary_address ∷ loc.secondary_addresses) b ≡ true
      → Holds result.1.cluster loc.chunk_handle
          (if ltb max_chunk_size (length file + length bytes)
            then file ++ padding (length file)
            else file ++ bytes)
          b
  pub rest : result.1 ≡ record w { master = n; cluster = result.1.cluster }

module _ (loc : ChunkLocResponse) (bytes file : List Byte) (w : World)
    (d : IsDistinct (loc.primary_address ∷ loc.secondary_addresses))
    (holds : (b : Address)
      → contains (loc.primary_address ∷ loc.secondary_addresses) b ≡ true
      → Holds w.cluster loc.chunk_handle file b)
    (l : length file ≤ max_chunk_size) (small : length bytes + 1024 ≤ max_message) where
  fits : ltb max_message (length bytes) ≡ false
  fits = ground arith

  sent : Outcome AppendResponse × Cluster
  sent = append_chunk loc.primary_address loc.secondary_addresses (sent_request loc bytes) w.cluster

  send_append-done : send_append loc bytes w ≡ (
    returned (append_offset (append_reply (sent_request loc bytes) file)),
    record w { cluster = sent.1 },
  )
  unfolding send_append sent
  send_append-done =
      rw (fits, send_append)
        (rw
          (
            (append_chunk-Agree loc.primary_address loc.secondary_addresses (sent_request loc bytes)
                w.cluster file d holds l).0,
            send_append,
            call_server,
          )
          refl)

  send_append-IsRecorded :
      (before : World)
      → w ≡ record before { master = w.master; cluster = w.cluster }
      → IsRecorded loc bytes file before w.master (send_append loc bytes w)
  unfolding sent
  send_append-IsRecorded before same =
      let agree =
        append_chunk-Agree loc.primary_address loc.secondary_addresses (sent_request loc bytes)
          w.cluster file d holds l in
      subst (λ (r : Outcome ℤ × World). IsRecorded loc bytes file before w.master r)
        (sym send_append-done)
        (record {
          answer = ground arith;
          holds = agree.1;
          rest = ap (λ (v : World). record v { cluster = sent.1 }) same;
        })

module _ (sample : Time → List Address → ℕ → List Address) where
  -- What the master answers to an append.
  abbrev pub append_location : String → Readings → Exec Master ChunkLocResponse
  append_location filename times =
      get_chunk_locations sample
        (record { filename = filename; chunk_index = negsuc 0; create_if_missing = true }) times

  record_append-located :
      (filename : String) (bytes : List Byte) (times : Readings) (w : World)
      (loc : ChunkLocResponse)
      → ltb max_append_size (length bytes) ≡ false
      → (append_location filename times w.master).0 ≡ returned loc
      → (loc.primary_address == "") ≡ false
      → record_append sample filename bytes times w
        ≡ send_append loc bytes (record w { master = (append_location filename times w.master).1 })
  unfolding record_append
  record_append-located filename bytes times w loc small found named =
      rw (small, record_append)
        (rw (found, record_append, call_master) (rw (named, with_primary) refl))

  -- If at most 4 MB less 1 KB are to be appended, so that they fit in a message of 4 MB, and the servers of the location that the master gives, of
  -- which the primary is not the empty address, are all different, are running and hold the same
  -- bytes of the chunk, at most 64 MB, then record_append returns the length of what they held as
  -- offset, if the record fits behind it, and -1 if not; they all hold the record behind it, or
  -- zeros up to 64 MB; and the cache and the counter of serial numbers stay as they were.
  pub record_append-IsRecorded :
      (filename : String) (bytes file : List Byte) (times : Readings) (w : World)
      (loc : ChunkLocResponse)
      → length bytes + 1024 ≤ max_message
      → (append_location filename times w.master).0 ≡ returned loc
      → (loc.primary_address == "") ≡ false
      → IsDistinct (loc.primary_address ∷ loc.secondary_addresses)
      → ((b : Address)
          → contains (loc.primary_address ∷ loc.secondary_addresses) b ≡ true
          → Holds w.cluster loc.chunk_handle file b)
      → length file ≤ max_chunk_size
      → IsRecorded loc bytes file w
          (append_location filename times w.master).1
          (record_append sample filename bytes times w)
  record_append-IsRecorded filename bytes file times w loc small found named d holds l =
      let n = (append_location filename times w.master).1 in
      subst (λ (r : Outcome ℤ × World). IsRecorded loc bytes file w n r)
        (sym (record_append-located filename bytes times w loc (ground arith) found named))
        (send_append-IsRecorded loc bytes file (record w { master = n }) d holds l small w refl)
