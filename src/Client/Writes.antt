-- ===== src/Client/Writes.antt =====
-- `write` of client/pipeline.py: what has happened once it returns.
use google_file_system.Prelude.{
  ℕ, ◌+◌, ◌/◌, ◌%◌, ◌≡◌, ◌≢◌, refl, sym, ap, ◌∙◌, String, ◌<>◌, true, false, List, [], ◌∷◌, inl,
  inr, pos, arith, subst, Exec, Outcome, returned, raised, continue_with, Bool-cases, ◌==◌,
  string_eq, nat_eq,
}
use google_file_system.Bytes.{Byte}
use google_file_system.Chunkserver.{
  ChunkServer, Cluster, WriteRequest, WriteResponse, written, write_failed, at_server,
  forward_write, write_chunk, commit, commit_each, apply_write, max_chunk_size,
}
use google_file_system.Chunkserver.Writes.{push_and_commit}
use google_file_system.Client.{
  World, push_request, send_write, write, check_written, with_primary, rpc_outcome,
}
use google_file_system.Locations.{ChunkLocResponse, Readings, get_chunk_locations}
use google_file_system.Metadata.{Time, Address}
use google_file_system.State.{Master}

-- A commit does not look at the data of its request.
commit-payload :
    (req : WriteRequest) (bytes : List Byte) (s : ChunkServer)
    → commit (record req { payload = bytes }) s ≡ commit req s
unfolding commit apply_write
commit-payload req bytes s = refl

commit_each-payload :
    (xs : List Address) (req : WriteRequest) (bytes : List Byte) (c : Cluster)
    → commit_each xs (record req { payload = bytes }) c ≡ commit_each xs req c
unfolding commit_each commit apply_write
commit_each-payload [] req bytes c = refl
commit_each-payload (x ∷ xs) req bytes c =
    ap after_first (λ i d. commit_each-payload xs req bytes d i)
  where
    after_first : Exec Cluster WriteResponse → Outcome WriteResponse × Cluster
    after_first rest =
        let (result, after) = at_server x (commit req) c in
        elim result [
          | returned written ↦ rest after
          | _ ↦ (returned (write_failed ("Secondary commit failed: " <> x)), after)
        ]

write_chunk-payload :
    (a : Address) (xs : List Address) (req : WriteRequest) (bytes : List Byte) (c : Cluster)
    → write_chunk a xs (record req { payload = bytes }) c ≡ write_chunk a xs req c
unfolding write_chunk commit apply_write
write_chunk-payload a xs req bytes c =
    ap after_primary (λ i d. commit_each-payload xs req bytes d i)
  where
    after_primary : Exec Cluster WriteResponse → Outcome WriteResponse × Cluster
    after_primary rest =
        let (result, after) = at_server a (commit req) c in
        elim result [ returned written ↦ rest after | other ↦ (other, after) ]

-- What a write that returned has done: the push and the commit were acknowledged.
abbrev pub Sent : ChunkLocResponse → ℕ → List Byte → World → World → Type 0
Sent loc offset bytes w v =
    let result =
      push_and_commit loc.primary_address loc.secondary_addresses
        (push_request loc offset bytes w.serial_counter) w.cluster in
    (result.0 ≡ returned written)
    × (v ≡ record w { cluster = result.1; serial_counter = w.serial_counter + 1 })

-- The commit, with what it came to.
finish_commit : World → Outcome WriteResponse × Cluster → Outcome (Unit {0}) × World
finish_commit w (result, c) =
    continue_with check_written (rpc_outcome result, record w { cluster = c })

commit_written :
    (w : World) (q : Outcome WriteResponse × Cluster)
    → (finish_commit w q).0 ≡ returned tt
    → (q.0 ≡ returned written) × ((finish_commit w q).1 ≡ record w { cluster = q.1 })
unfolding finish_commit
commit_written w (returned written, d) e = (refl, refl)
commit_written w (returned (write_failed text), d) e = absurd (ground arith)
commit_written w (raised x, d) e = absurd (ground arith)

-- The commit after a push that came to this.
finish_push :
    (Cluster → Outcome WriteResponse × Cluster)
    → World
    → Outcome WriteResponse × Cluster
    → Outcome (Unit {0}) × World
finish_push commits w (result, c) =
    continue_with (λ _ v. finish_commit v (commits v.cluster))
      (rpc_outcome result, record w { cluster = c })

push_written :
    (commits : Cluster → Outcome WriteResponse × Cluster) (w : World)
    (p : Outcome WriteResponse × Cluster)
    → (finish_push commits w p).0 ≡ returned tt
    → ((commits p.1).0 ≡ returned written)
      × ((finish_push commits w p).1 ≡ record w { cluster = (commits p.1).1 })
unfolding finish_push
push_written commits w (returned _, c) e = commit_written (record w { cluster = c }) (commits c) e
push_written commits w (raised x, c) e = absurd (ground arith)

send_write-Sent :
    (loc : ChunkLocResponse) (offset : ℕ) (bytes : List Byte) (w : World)
    → (send_write loc offset bytes w).0 ≡ returned tt
    → Sent loc offset bytes w (send_write loc offset bytes w).1
unfolding send_write finish_push finish_commit
send_write-Sent loc offset bytes w e =
    subst
      (λ (r : Outcome WriteResponse × Cluster).
        (r.0 ≡ returned written)
        × ((send_write loc offset bytes w).1
            ≡ record w { cluster = r.1; serial_counter = w.serial_counter + 1 }))
      (write_chunk-payload a xs (push_request loc offset bytes w.serial_counter) [] pushed.1)
      (push_written (write_chunk a xs (push_request loc offset [] w.serial_counter))
        (record w { serial_counter = w.serial_counter + 1 }) pushed e)
  where
    a : Address
    a = loc.primary_address

    xs : List Address
    xs = loc.secondary_addresses

    pushed : Outcome WriteResponse × Cluster
    pushed = forward_write a xs (push_request loc offset bytes w.serial_counter) w.cluster

-- The rest of a write, with what the master answered.
finish_write :
    ℕ → List Byte → World → Outcome ChunkLocResponse × Master → Outcome (Unit {0}) × World
finish_write offset bytes w (result, m) =
    continue_with
      (λ loc.
        with_primary "No primary lease holder available" loc
          (send_write loc (offset % max_chunk_size) bytes))
      (rpc_outcome result, record w { master = m })

with_primary-named :
    (loc : ChunkLocResponse) (body : Exec World (Unit {0}))
    → (loc.primary_address == "") ≡ false
    → with_primary "No primary lease holder available" loc body ≡ body
with_primary-named loc body n = ground arith

with_primary-unnamed :
    (loc : ChunkLocResponse) (body : Exec World (Unit {0})) (w : World)
    → (loc.primary_address == "") ≡ true
    → (with_primary "No primary lease holder available" loc body w).0 ≢ returned tt
with_primary-unnamed loc body w n e = ground arith

-- A write that returned was sent to the servers of a location, which has a primary.
abbrev pub SentTo : ℕ → List Byte → World → Outcome ChunkLocResponse × Master → World → Type 0
SentTo offset bytes w r v =
    (loc : ChunkLocResponse) × (r.0 ≡ returned loc)
    × ((loc.primary_address == "") ≡ false)
    × Sent loc (offset % max_chunk_size) bytes (record w { master = r.1 }) v

finish_write-SentTo :
    (offset : ℕ) (bytes : List Byte) (w : World) (r : Outcome ChunkLocResponse × Master)
    → (finish_write offset bytes w r).0 ≡ returned tt
    → SentTo offset bytes w r (finish_write offset bytes w r).1
unfolding finish_write
finish_write-SentTo offset bytes w (raised x, m) e = absurd (ground arith)
finish_write-SentTo offset bytes w (returned loc, m) e =
    let body = send_write loc (offset % max_chunk_size) bytes in
    let v : World = record w { master = m } in
    elim (Bool-cases (loc.primary_address == "")) [
      | inl n ↦ absurd (with_primary-unnamed loc body v n e)
      | inr n ↦
          let same = with_primary-named loc body n in
          (
            loc,
            refl,
            n,
            subst
                (λ (f : Exec World (Unit {0})). Sent loc (offset % max_chunk_size) bytes v (f v).1)
                (sym same)
                (send_write-Sent loc (offset % max_chunk_size) bytes v
                  (ap (λ (f : Exec World (Unit {0})). (f v).0) (sym same) ∙ e)),
          )
    ]

module _ (sample : Time → List Address → ℕ → List Address) where
  -- The location that a write has asked the master for.
  abbrev pub write_location : String → ℕ → Readings → Exec Master ChunkLocResponse
  write_location filename offset times =
      get_chunk_locations sample
        (record {
          filename = filename;
          chunk_index = pos (offset / max_chunk_size);
          create_if_missing = true;
        })
        times

  pub write-SentTo :
      (filename : String) (offset : ℕ) (bytes : List Byte) (times : Readings) (w : World)
      → (write sample filename offset bytes times w).0 ≡ returned tt
      → SentTo offset bytes w
          (write_location filename offset times w.master)
          (write sample filename offset bytes times w).1
  unfolding write finish_write
  write-SentTo filename offset bytes times w e =
      finish_write-SentTo offset bytes w (write_location filename offset times w.master) e
