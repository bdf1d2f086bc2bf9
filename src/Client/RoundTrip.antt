-- ===== src/Client/RoundTrip.antt =====
-- A write of client/pipeline.py, read back by `read` of client/gfs_client.py.
use google_file_system.Prelude.{
  ℕ, zero, suc, ◌+◌, ◌-◌, ◌/◌, ◌%◌, ◌≤◌, ◌<◌, ◌≡◌, refl, sym, ap, ◌∙◌, subst, String, true, false,
  none, List, [], ◌∷◌, ◌++◌, pos, length, arith, Exec, Outcome, returned, continue_with, IsDistinct,
  ◌==◌, string_eq, nat_eq, int_eq, pair_eq,
}
use google_file_system.Bytes.{Byte}
use google_file_system.Cache
use google_file_system.Chunkserver.{read_chunk, max_chunk_size}
use google_file_system.Chunkserver.ReadBack.{read_chunk-push_and_commit}
use google_file_system.Chunkserver.Writes.{push_and_commit}
use google_file_system.Client.{
  World, LookupTimes, push_request, write, read, read_loop, read_piece, find_location,
  fetch_location, entry_of, ask_location, try_replicas, piece_length, call_master,
}
use google_file_system.Client.Writes.{Sent, SentTo, write-SentTo, write_location}
use google_file_system.Dict
use google_file_system.Locations.{ChunkLocResponse, Readings, get_chunk_locations}
use google_file_system.Metadata.{Time, Address}
use google_file_system.Lease.{has_valid_lease}
use google_file_system.State.{Master}
use google_file_system.System.Lookups.{get_chunk_locations-repeated}
use google_file_system.System.Ownership.{chunks_of}

-- A block whose first part returned.
continue_returned :
    {A B : Type 0} (f : A → Exec World B) (r : Outcome A × World) (a : A)
    → r.0 ≡ returned a
    → continue_with f r ≡ f a r.1
continue_returned f r a e = ap (λ o. continue_with f (o, r.1)) e

get_missing :
    (now : ℕ) (key : Cache.Key) (c : Cache.Cache)
    → Dict.get c key ≡ none
    → (Cache.get now key c).0 ≡ none
unfolding Cache.get
get_missing now key c e = ground arith

at_location :
    (offset : ℕ) (bytes : List Byte) (w : World) (loc : ChunkLocResponse)
    (r : Outcome ChunkLocResponse × Master) (v : World)
    → SentTo offset bytes w r v
    → r.0 ≡ returned loc
    → ((loc.primary_address == "") ≡ false)
      × Sent loc (offset % max_chunk_size) bytes (record w { master = r.1 }) v
at_location offset bytes w loc r v (sent, e, named, done) f =
    subst
      (λ (l : ChunkLocResponse).
        ((l.primary_address == "") ≡ false)
        × Sent l (offset % max_chunk_size) bytes (record w { master = r.1 }) v)
      (ground arith) (named, done)

module _ (sample : Time → List Address → ℕ → List Address) where
  -- What the master answers to a read.
  abbrev pub read_location : String → ℕ → Readings → Exec Master ChunkLocResponse
  read_location filename offset times =
      get_chunk_locations sample
        (record {
          filename = filename;
          chunk_index = pos (offset / max_chunk_size);
          create_if_missing = false;
        })
        times

  -- A piece whose location is not in the cache, at a primary that answers.
  module _ (filename : String) (index offset count : ℕ) (times : LookupTimes) (w : World)
      (loc : ChunkLocResponse) (bytes : List Byte) where
    find_location-missing :
        Dict.get w.cache (filename, pos index) ≡ none
        → (get_chunk_locations sample
            (record { filename = filename; chunk_index = pos index; create_if_missing = false })
            times.master_at
            w.master).0
          ≡ returned loc
        → ((find_location sample filename index times w).0
            ≡ returned (entry_of loc times.entered_at))
          × ((find_location sample filename index times w).1.cluster ≡ w.cluster)
    unfolding find_location fetch_location
    find_location-missing n a =
        rw (get_missing times.looked_at (filename, pos index) w.cache n, find_location)
          (rw (a, fetch_location, ask_location, call_master) (refl, refl))

    read_piece-missing :
        Dict.get w.cache (filename, pos index) ≡ none
        → (get_chunk_locations sample
            (record { filename = filename; chunk_index = pos index; create_if_missing = false })
            times.master_at
            w.master).0
          ≡ returned loc
        → (loc.primary_address == "") ≡ false
        → read_chunk loc.primary_address loc.chunk_handle offset count w.cluster ≡ returned bytes
        → (read_piece sample filename index offset count times w).0 ≡ returned bytes
    unfolding read_piece try_replicas Cache.new_entry
    read_piece-missing n a named answered =
        let (found, cluster) = find_location-missing n a in
        ap (λ (r : Outcome (List Byte) × World). r.0)
          (continue_returned _ (find_location sample filename index times w)
            (entry_of loc times.entered_at) found)
        ∙ rw (named, try_replicas)
            (rw
              (
                ap (read_chunk loc.primary_address loc.chunk_handle offset count) cluster
                    ∙ answered,
                try_replicas,
              )
              refl)

  read_loop-done :
      (fuel : ℕ) (filename : String) (offset : ℕ) (result : List Byte) (clock : ℕ → LookupTimes)
      (w : World)
      → (read_loop sample fuel filename offset 0 result clock w).0 ≡ returned result
  unfolding read_loop
  read_loop-done zero filename offset result clock w = refl
  read_loop-done (suc fuel) filename offset result clock w = refl

  -- A read that is one piece.
  read-piece :
      (filename : String) (offset : ℕ) (clock : ℕ → LookupTimes) (w : World) (bytes : List Byte)
      → 0 < length bytes
      → offset % max_chunk_size + length bytes ≤ max_chunk_size
      → (read_piece sample filename
          (offset / max_chunk_size)
          (offset % max_chunk_size)
          (length bytes)
          (clock 0)
          w).0
        ≡ returned bytes
      → (read sample filename offset (length bytes) clock w).0 ≡ returned bytes
  unfolding read read_loop
  read-piece filename offset clock w [] l b e = absurd (omega arith)
  read-piece filename offset clock w (x ∷ rest) l b e =
      ap
        (λ count.
          (continue_with
            (λ piece.
              read_loop sample (length rest) filename (offset + count) (length (x ∷ rest) - count)
                ([] ++ piece) (λ round. clock (suc round)))
            (read_piece sample filename (offset / max_chunk_size) (offset % max_chunk_size) count
              (clock 0) w)).0)
        {x = piece_length offset (length (x ∷ rest))} {y = length (x ∷ rest)} (omega arith)
      ∙ ap (λ (r : Outcome (List Byte) × World). r.0)
          (continue_returned _
            (read_piece sample filename (offset / max_chunk_size) (offset % max_chunk_size)
              (length (x ∷ rest)) (clock 0) w)
            (x ∷ rest) e)
      ∙ ap
          (λ left.
            (read_loop sample (length rest) filename (offset + length (x ∷ rest)) left (x ∷ rest)
              (λ round. clock (suc round))
              (read_piece sample filename (offset / max_chunk_size) (offset % max_chunk_size)
                (length (x ∷ rest)) (clock 0) w).1).0)
          {x = length (x ∷ rest) - length (x ∷ rest)} {y = 0} (omega arith)
      ∙ read_loop-done (length rest) filename (offset + length (x ∷ rest)) (x ∷ rest)
          (λ round. clock (suc round))
          (read_piece sample filename (offset / max_chunk_size) (offset % max_chunk_size)
            (length (x ∷ rest)) (clock 0) w).1

  -- If the master answers the read with the location that it gave for the write.
  read-write_located :
      (filename : String) (offset : ℕ) (bytes : List Byte) (times : Readings)
      (clock : ℕ → LookupTimes) (w : World) (loc : ChunkLocResponse)
      → (write sample filename offset bytes times w).0 ≡ returned tt
      → 0 < length bytes
      → offset % max_chunk_size + length bytes ≤ max_chunk_size
      → Dict.get w.cache (filename, pos (offset / max_chunk_size)) ≡ none
      → (write_location sample filename offset times w.master).0 ≡ returned loc
      → IsDistinct (loc.primary_address ∷ loc.secondary_addresses)
      → (read_location filename offset
          (clock 0).master_at
          (write_location sample filename offset times w.master).1).0
        ≡ returned loc
      → (read sample filename offset
          (length bytes)
          clock
          (write sample filename offset bytes times w).1).0
        ≡ returned bytes
  read-write_located filename offset bytes times clock w loc e l b n found d again =
      let (named, sent) =
        at_location offset bytes w loc (write_location sample filename offset times w.master)
          (write sample filename offset bytes times w).1
          (write-SentTo sample filename offset bytes times w e) found in
      subst (λ (v : World). (read sample filename offset (length bytes) clock v).0 ≡ returned bytes)
        (sym sent.1)
        (read-piece filename offset clock
          (record w {
            master = (write_location sample filename offset times w.master).1;
            cluster =
                (push_and_commit loc.primary_address loc.secondary_addresses
                  (push_request loc (offset % max_chunk_size) bytes w.serial_counter) w.cluster).1;
            serial_counter = w.serial_counter + 1;
          })
          bytes l b
          (read_piece-missing filename (offset / max_chunk_size) (offset % max_chunk_size)
            (length bytes) (clock 0) _ loc bytes n again named
            (read_chunk-push_and_commit loc.primary_address loc.secondary_addresses
              (push_request loc (offset % max_chunk_size) bytes w.serial_counter) w.cluster
              loc.primary_address d sent.0 (ground arith) l)))

  -- After a write that returned, of at least one byte and within one chunk, a read of as many bytes
  -- at its offset returns its bytes. This holds if the offset lies in a chunk of the file or in the
  -- one behind the last, its location was not in the cache, the servers of the location that the
  -- master gave for the write are all different, nothing else was called in between, and the
  -- chunk's lease is valid when the read has it tested.
  pub read-write :
      (filename : String) (offset : ℕ) (bytes : List Byte) (times : Readings)
      (clock : ℕ → LookupTimes) (w : World) (loc : ChunkLocResponse)
      → (write sample filename offset bytes times w).0 ≡ returned tt
      → 0 < length bytes
      → offset % max_chunk_size + length bytes ≤ max_chunk_size
      → offset / max_chunk_size ≤ length (chunks_of w.master.store filename)
      → Dict.get w.cache (filename, pos (offset / max_chunk_size)) ≡ none
      → (write_location sample filename offset times w.master).0 ≡ returned loc
      → IsDistinct (loc.primary_address ∷ loc.secondary_addresses)
      → has_valid_lease loc.chunk_handle
          (clock 0).master_at.tested_at
          (write_location sample filename offset times w.master).1
        ≡ true
      → (read sample filename offset
          (length bytes)
          clock
          (write sample filename offset bytes times w).1).0
        ≡ returned bytes
  read-write filename offset bytes times clock w loc e l b i n found d v =
      read-write_located filename offset bytes times clock w loc e l b n found d (
        get_chunk_locations-repeated sample filename (offset / max_chunk_size) true false times
          (clock 0).master_at w.master loc i found v)
