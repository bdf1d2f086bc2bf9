-- ===== src/System/Collection/Step.antt =====
-- Over whole histories, the garbage collector collects nothing.
use google_file_system.Prelude.{
  ℕ, String, ◌≡◌, false, List, [], ◌∷◌, ℤ, pos, ◌-◌, inl, inr, Bool-cases, bind-keeps, length, min,
  nat_eq, string_eq, returned, refl, ap, ◌∙◌,
}
use google_file_system.Dict
use google_file_system.Dict.{has, get-empty}
use google_file_system.Heartbeat.{handle_heartbeat}
use google_file_system.Locations.{
  ChunkLocRequest, Readings, respond, allocate_on, allocate_missing, locate, get_chunk_locations,
  find_handle, is_past, resolve_index, heartbeat_handler,
}
use google_file_system.Metadata.{Time, Address, Handle, FileMetadata, empty_store}
use google_file_system.Oplog.{fresh_log}
use google_file_system.Startup.{start}
use google_file_system.State.{Master, with_locks}
use google_file_system.System.{
  Event, creates, deletes, locates, beats, checks_servers, scans, copies, repairs, step, run, finds,
  tests, grants, takes_job, copy_answered, takes_repair, repair_answered,
}
use google_file_system.System.Collection.{
  IsUncollected, is_trash, IsOrdinary, AllOrdinary, KeepsFiles-IsUncollected, create-IsUncollected,
  delete-IsUncollected, place_sampled-IsUncollected, allocate_chunk-IsUncollected,
  scan_and_collect-IsUncollected,
}
use google_file_system.System.Frame.{
  grant_lease-KeepsFiles, handle_heartbeat-IsQuiet, check_dead_servers-IsQuiet, worker-IsQuiet,
  stale_worker-IsQuiet,
}
use google_file_system.System.Invariant.{
  find_handle-state, respond-state, renew_lease-KeepsFiles, end_copy-IsQuiet, end_repair-IsQuiet,
  next_job-IsQuiet, next_repair-IsQuiet,
}
use google_file_system.System.Ownership.{chunks_of}

respond-IsUncollected :
    (h : Handle) (t : Readings) (m : Master)
    → IsUncollected m.store
    → IsUncollected (respond h t m).1.store
respond-IsUncollected h t m v =
    rw (respond-state h t m) (KeepsFiles-IsUncollected (renew_lease-KeepsFiles h t m) v)

find_handle-IsUncollected :
    (p : String) (i : ℤ) (m : Master)
    → IsUncollected m.store
    → IsUncollected (find_handle p i m).1.store
find_handle-IsUncollected p i m v = rw (find_handle-state p i m) v

pub start-IsUncollected : IsUncollected (start fresh_log).store
unfolding start fresh_log empty_store
start-IsUncollected = record {
  in_trash = λ p f e. cc (e, get-empty {K = String} {V = FileMetadata} p);
  no_chunks = λ p t. get-empty p;
  pending = refl;
}

module _ (sample : Time → List Address → ℕ → List Address) where
  allocate_on-IsUncollected :
      (xs : List Address) (p : String) (t : Time) (m : Master)
      → is_trash p ≡ false
      → IsUncollected m.store
      → IsUncollected (allocate_on sample xs p t m).1.store
  unfolding allocate_on
  allocate_on-IsUncollected [] p t m n v = v
  allocate_on-IsUncollected (x ∷ xs) p t m n v =
      place_sampled-IsUncollected p m.next_handle t (sample t (x ∷ xs) (min 3 (length (x ∷ xs)))) _
        (allocate_chunk-IsUncollected p m.store n v)

  allocate_missing-IsUncollected :
      (r : ChunkLocRequest) (t : Time) (m : Master)
      → is_trash r.filename ≡ false
      → IsUncollected m.store
      → IsUncollected (allocate_missing sample r t m).1.store
  unfolding allocate_missing
  allocate_missing-IsUncollected r t m n v = elim (Bool-cases r.create_if_missing) [
    | inl e ↦
        rw (e, allocate_missing)
          (allocate_on-IsUncollected (Dict.keys m.last_seen) r.filename t m n v)
    | inr e ↦ rw (e, allocate_missing) v
  ]

  locate-IsUncollected :
      (r : ChunkLocRequest) (t : Time) (m : Master)
      → is_trash r.filename ≡ false
      → IsUncollected m.store
      → IsUncollected (locate sample r t m).1.store
  unfolding locate
  locate-IsUncollected r t m n v =
      let count = length (chunks_of m.store r.filename) in
      elim (Bool-cases (is_past (resolve_index r.chunk_index count) count)) [
        | inl e ↦
            rw (e, locate)
              (bind-keeps (λ o. IsUncollected o.store) (allocate_missing sample r t) _ m
                (allocate_missing-IsUncollected r t m n v)
                (λ _ o w.
                  find_handle-IsUncollected r.filename
                    (pos (length (chunks_of o.store r.filename) - 1)) o w))
        | inr e ↦
            rw (e, locate)
              (find_handle-IsUncollected r.filename (resolve_index r.chunk_index count) m v)
      ]

  get_chunk_locations-IsUncollected :
      (r : ChunkLocRequest) (t : Readings) (m : Master)
      → is_trash r.filename ≡ false
      → IsUncollected m.store
      → IsUncollected (get_chunk_locations sample r t m).1.store
  unfolding get_chunk_locations
  get_chunk_locations-IsUncollected r t m n v = elim (Bool-cases (has m.namespace r.filename)) [
    | inl e ↦
        rw (e, get_chunk_locations)
          (bind-keeps (λ o. IsUncollected o.store)
            (with_locks r.filename (locate sample r t.allocated_at)) _ m
            (unfold with_locks in
              locate-IsUncollected r t.allocated_at (record m { locks = _ }) n v)
            (λ h o w. respond-IsUncollected h t o w))
    | inr e ↦ rw (e, get_chunk_locations) v
  ]

  pub step-IsUncollected :
      (e : Event) (m : Master)
      → IsOrdinary e
      → IsUncollected m.store
      → IsUncollected (step sample e m).store
  unfolding step heartbeat_handler
  step-IsUncollected (creates p t u) m n v = create-IsUncollected p t u m v
  step-IsUncollected (deletes p t u w) m n v = delete-IsUncollected p t u w m v
  step-IsUncollected (locates r t) m n v = get_chunk_locations-IsUncollected r t m n v
  step-IsUncollected (beats t a hs vs) m n v =
      KeepsFiles-IsUncollected (handle_heartbeat-IsQuiet t a hs vs m).files v
  step-IsUncollected (checks_servers t) m n v =
      KeepsFiles-IsUncollected (check_dead_servers-IsQuiet t m).files v
  step-IsUncollected (scans t) m n v = scan_and_collect-IsUncollected t m.store v
  step-IsUncollected (copies r) m n v = KeepsFiles-IsUncollected (worker-IsQuiet r m).files v
  step-IsUncollected (repairs r) m n v = KeepsFiles-IsUncollected (stale_worker-IsQuiet r m).files v
  step-IsUncollected (finds r t) m n v =
      unfold with_locks in locate-IsUncollected r t (record m { locks = _ }) n v
  step-IsUncollected (tests h t) m n v = v
  step-IsUncollected (grants h t u) m n v =
      KeepsFiles-IsUncollected (grant_lease-KeepsFiles h t u m) v
  step-IsUncollected takes_job m n v = KeepsFiles-IsUncollected (next_job-IsQuiet m).files v
  step-IsUncollected (copy_answered p h c r) m n v =
      KeepsFiles-IsUncollected (end_copy-IsQuiet p h c r m).files v
  step-IsUncollected takes_repair m n v = KeepsFiles-IsUncollected (next_repair-IsQuiet m).files v
  step-IsUncollected (repair_answered h a r) m n v =
      KeepsFiles-IsUncollected (end_repair-IsQuiet h a r m).files v

  run-IsUncollected :
      (es : List Event) (m : Master)
      → AllOrdinary es
      → IsUncollected m.store
      → IsUncollected (run sample es m).store
  unfolding run
  run-IsUncollected [] m o v = v
  run-IsUncollected (e ∷ es) m o v =
      run-IsUncollected es (step sample e m) o.1 (step-IsUncollected e m o.0 v)

  pub reachable-IsUncollected :
      (es : List Event) → AllOrdinary es → IsUncollected (run sample es (start fresh_log)).store
  reachable-IsUncollected es o = run-IsUncollected es (start fresh_log) o start-IsUncollected

  -- In no history, deletions and scans at any time included, is a chunkserver ever told to delete a
  -- chunk, as long as no chunk is asked for under a name in the trash.
  pub heartbeat-never_collects :
      (es : List Event) (now : Time) (a : Address) (hs : List Handle) (vs : List ℕ)
      → AllOrdinary es
      → (heartbeat_handler now a hs vs (run sample es (start fresh_log))).0 ≡ returned []
  unfolding heartbeat_handler handle_heartbeat
  heartbeat-never_collects es now a hs vs o =
      let m = run sample es (start fresh_log) in
      ap returned (
        (handle_heartbeat-IsQuiet now a hs vs m).files.gc_pending
        ∙ (reachable-IsUncollected es o).pending)
