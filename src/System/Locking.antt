-- ===== src/System/Locking.antt =====
-- Over whole histories, every lock that a handler takes is given back.
use google_file_system.Prelude.{
  ℕ, ◌-◌, ◌≡◌, refl, ap, ◌∙◌, String, pos, List, [], ◌∷◌, inl, inr, Exec, Option-cases, Bool-cases,
  List-cases, bind-keeps, length, min, get_or, arith, nat_eq, string_eq,
}
use google_file_system.Dict
use google_file_system.Dict.{has, get-empty}
use google_file_system.Files.{
  create_file_handler, create_locked, delete_file_handler, delete_locked,
}
use google_file_system.GarbageCollection.{soft_delete}
use google_file_system.Heartbeat.{
  report, report_stale, report_each, handle_heartbeat, forget_server, enqueue_each, handle_failure,
  fail_each, is_short, is_silent, check_dead_servers,
}
use google_file_system.Lease.{grant_lease, grant_first, has_valid_lease}
use google_file_system.Locations.{
  ChunkLocRequest, Readings, renew_lease, respond, place_sampled, allocate_on, allocate_missing,
  locate, get_chunk_locations, is_past, resolve_index, heartbeat_handler,
}
use google_file_system.Locks.{held, LockTable, acquire_all, lock_keys}
use google_file_system.Locks.Balance.{held-release_all}
use google_file_system.Metadata.{Time, Address, Handle}
use google_file_system.Oplog.{fresh_log}
use google_file_system.Replication.{
  CopyCall, CopyReply, worker, rereplicate, finish_copy, stale_worker, repair_stale_replica,
  finish_repair, enqueue, high,
}
use google_file_system.Startup.{start}
use google_file_system.State.{Master, with_locks, healthy_replicas}
use google_file_system.System.{
  Event, creates, deletes, locates, beats, checks_servers, scans, copies, repairs, step, run, finds,
  tests, grants, takes_job, copy_answered, takes_repair, repair_answered, end_copy, end_repair,
}
use google_file_system.System.Invariant.{find_handle-state, respond-state}
use google_file_system.System.Ownership.{chunks_of}

-- A handler that leaves the locks alone, between taking and releasing its own.
with_locks-held :
    {A : Type 0} (p k : String) (body : Exec Master A) (m : Master)
    → ((t : LockTable) → (body (record m { locks = t })).1.locks ≡ t)
    → held (with_locks p body m).1.locks k ≡ held m.locks k
unfolding with_locks
with_locks-held p k body m h =
    rw (h (acquire_all (lock_keys p) m.locks)) (held-release_all (lock_keys p) k m.locks)

enqueue_each-locks : (hs : List Handle) (m : Master) → (enqueue_each hs m).locks ≡ m.locks
unfolding enqueue_each
enqueue_each-locks [] m = refl
enqueue_each-locks (h ∷ hs) m = enqueue_each-locks hs (enqueue h high m)

fail_each-locks : (addrs : List Address) (m : Master) → (fail_each addrs m).locks ≡ m.locks
unfolding fail_each handle_failure forget_server
fail_each-locks [] m = refl
fail_each-locks (a ∷ addrs) m =
    fail_each-locks addrs (handle_failure a m)
    ∙ enqueue_each-locks (Dict.keys_where is_short (forget_server a m).chunk_map)
        (forget_server a m)

report-locks : (a : Address) (h : Handle) (v : ℕ) (m : Master) → (report a h v m).locks ≡ m.locks
unfolding report report_stale
report-locks a h v m = ground arith

report_each-locks :
    (a : Address) (hs : List Handle) (vs : List ℕ) (m : Master)
    → (report_each a hs vs m).locks ≡ m.locks
unfolding report_each
report_each-locks a [] vs m = refl
report_each-locks a (h ∷ hs) [] m = refl
report_each-locks a (h ∷ hs) (v ∷ vs) m =
    report_each-locks a hs vs (report a h v m) ∙ report-locks a h v m

worker-locks : (r : CopyReply) (m : Master) → (worker r m).locks ≡ m.locks
unfolding worker rereplicate finish_copy
worker-locks r m = ground arith

stale_worker-locks : (r : CopyReply) (m : Master) → (stale_worker r m).locks ≡ m.locks
unfolding stale_worker repair_stale_replica finish_repair
stale_worker-locks r m = ground arith

end_copy-locks :
    (p : ℕ) (h : Handle) (call : CopyCall) (r : CopyReply) (m : Master)
    → (end_copy p h call r m).locks ≡ m.locks
unfolding end_copy finish_copy
end_copy-locks p h call r m = ground arith

end_repair-locks :
    (h : Handle) (a : Address) (r : CopyReply) (m : Master) → (end_repair h a r m).locks ≡ m.locks
unfolding end_repair finish_repair
end_repair-locks h a r m = ground arith

soft_delete-locks :
    (p : String) (t u w : Time) (m : Master) → (soft_delete p t u w m).locks ≡ m.locks
unfolding soft_delete
soft_delete-locks p t u w m = elim (Option-cases (Dict.get m.namespace p)) [
  | inl e ↦ rw (e, soft_delete)
  | inr (f, e) ↦ rw (e, soft_delete)
]

create_locked-locks :
    (p : String) (t u : Time) (m : Master) → (create_locked p t u m).1.locks ≡ m.locks
unfolding create_locked
create_locked-locks p t u m = ground arith

delete_locked-locks :
    (p : String) (t u w : Time) (m : Master) → (delete_locked p t u w m).1.locks ≡ m.locks
unfolding delete_locked
delete_locked-locks p t u w m = ground (arith, soft_delete-locks p t u w m)

grant_lease-locks : (h : Handle) (t u : Time) (m : Master) → (grant_lease h t u m).1.locks ≡ m.locks
unfolding grant_lease
grant_lease-locks h t u m = elim (Option-cases (Dict.get m.chunk_map h)) [
  | inl e ↦ rw (e, grant_lease)
  | inr (c, e) ↦ elim (List-cases (healthy_replicas c)) [
    | inl f ↦ rw (e, grant_lease) (rw (f, grant_first))
    | inr (p, rest, f) ↦ rw (e, grant_lease) (rw (f, grant_first))
  ]
]

respond-locks : (h : Handle) (t : Readings) (m : Master) → (respond h t m).1.locks ≡ m.locks
unfolding renew_lease
respond-locks h t m =
    rw (respond-state h t m) (elim (Bool-cases (has_valid_lease h t.tested_at m)) [
      | inl e ↦ rw (e, renew_lease)
      | inr e ↦
          rw (e, renew_lease)
            (bind-keeps (λ n. n.locks ≡ m.locks) (grant_lease h t.logged_at t.granted_at) _ m
              (grant_lease-locks h t.logged_at t.granted_at m) (λ _ n w. w))
    ])

place_sampled-locks :
    (p : String) (h : Handle) (t : Time) (chosen : List Address) (m : Master)
    → (place_sampled p h t chosen m).1.locks ≡ m.locks
unfolding place_sampled
place_sampled-locks p h t [] m = refl
place_sampled-locks p h t (a ∷ rest) m = refl

module _ (sample : Time → List Address → ℕ → List Address) where
  allocate_on-locks :
      (xs : List Address) (p : String) (t : Time) (m : Master)
      → (allocate_on sample xs p t m).1.locks ≡ m.locks
  unfolding allocate_on
  allocate_on-locks [] p t m = refl
  allocate_on-locks (x ∷ xs) p t m =
      place_sampled-locks p m.next_handle t (sample t (x ∷ xs) (min 3 (length (x ∷ xs)))) _

  allocate_missing-locks :
      (r : ChunkLocRequest) (t : Time) (m : Master)
      → (allocate_missing sample r t m).1.locks ≡ m.locks
  unfolding allocate_missing
  allocate_missing-locks r t m = elim (Bool-cases r.create_if_missing) [
    | inl e ↦ rw (e, allocate_missing) (allocate_on-locks (Dict.keys m.last_seen) r.filename t m)
    | inr e ↦ rw (e, allocate_missing)
  ]

  locate-locks :
      (r : ChunkLocRequest) (t : Time) (m : Master) → (locate sample r t m).1.locks ≡ m.locks
  unfolding locate
  locate-locks r t m =
      let count = length (chunks_of m.store r.filename) in
      elim (Bool-cases (is_past (resolve_index r.chunk_index count) count)) [
        | inl e ↦
            rw (e, locate)
              (bind-keeps (λ n. n.locks ≡ m.locks) (allocate_missing sample r t) _ m
                (allocate_missing-locks r t m)
                (λ _ n w.
                  ap (λ o. o.locks)
                    (find_handle-state r.filename (pos (length (chunks_of n.store r.filename) - 1))
                      n)
                  ∙ w))
        | inr e ↦
            rw (e, locate)
              (ap (λ o. o.locks)
                (find_handle-state r.filename (resolve_index r.chunk_index count) m))
      ]

  get_chunk_locations-held :
      (r : ChunkLocRequest) (t : Readings) (k : String) (m : Master)
      → held (get_chunk_locations sample r t m).1.locks k ≡ held m.locks k
  unfolding get_chunk_locations
  get_chunk_locations-held r t k m = elim (Bool-cases (has m.namespace r.filename)) [
    | inl e ↦
        rw (e, get_chunk_locations)
          (bind-keeps (λ n. held n.locks k ≡ held m.locks k)
            (with_locks r.filename (locate sample r t.allocated_at)) _ m
            (with_locks-held r.filename k (locate sample r t.allocated_at) m
              (λ locks. locate-locks r t.allocated_at (record m { locks = locks })))
            (λ h n w. ap (λ locks. held locks k) (respond-locks h t n) ∙ w))
    | inr e ↦ rw (e, get_chunk_locations)
  ]

  step-held :
      (e : Event) (k : String) (m : Master) → held (step sample e m).locks k ≡ held m.locks k
  unfolding step heartbeat_handler handle_heartbeat create_file_handler delete_file_handler
      check_dead_servers
  step-held (creates p t u) k m =
      with_locks-held p k (create_locked p t u) m
        (λ l. create_locked-locks p t u (record m { locks = l }))
  step-held (deletes p t u w) k m =
      with_locks-held p k (delete_locked p t u w) m
        (λ l. delete_locked-locks p t u w (record m { locks = l }))
  step-held (locates r t) k m = get_chunk_locations-held r t k m
  step-held (beats t a hs vs) k m = ap (λ l. held l k) (report_each-locks a hs vs _)
  step-held (checks_servers t) k m =
      ap (λ l. held l k) (fail_each-locks (Dict.keys_where (is_silent t) m.last_seen) m)
  step-held (scans t) k m = refl
  step-held (copies r) k m = ap (λ l. held l k) (worker-locks r m)
  step-held (repairs r) k m = ap (λ l. held l k) (stale_worker-locks r m)
  step-held (finds r t) k m =
      with_locks-held r.filename k (locate sample r t) m
        (λ locks. locate-locks r t (record m { locks = locks }))
  step-held (tests h t) k m = refl
  step-held (grants h t u) k m = ap (λ l. held l k) (grant_lease-locks h t u m)
  step-held takes_job k m = refl
  step-held (copy_answered p h c r) k m = ap (λ l. held l k) (end_copy-locks p h c r m)
  step-held takes_repair k m = refl
  step-held (repair_answered h a r) k m = ap (λ l. held l k) (end_repair-locks h a r m)

  run-held :
      (es : List Event) (k : String) (m : Master) → held (run sample es m).locks k ≡ held m.locks k
  unfolding run
  run-held [] k m = refl
  run-held (e ∷ es) k m = run-held es k (step sample e m) ∙ step-held e k m

  -- After any history from the first start on, whichever of its requests raised, no lock is held.
  pub reachable-held :
      (es : List Event) (k : String) → held (run sample es (start fresh_log)).locks k ≡ 0
  unfolding start
  reachable-held es k = run-held es k (start fresh_log) ∙ ap (λ n. get_or n 0) (get-empty {V = ℕ} k)
