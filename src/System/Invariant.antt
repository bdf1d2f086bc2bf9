-- ===== src/System/Invariant.antt =====
-- Every step of the master keeps every chunk in one file, and known while a file has it.
use google_file_system.Prelude.{
  ℕ, String, ◌≡◌, Bool-cases, List, [], ◌∷◌, ℤ, some, inl, inr, Option-cases, bind-keeps,
  bind-state, length, nat_eq, string_eq, arith, pos, ◌-◌,
}
use google_file_system.Dict
use google_file_system.Dict.{has, get-put}
use google_file_system.Files.{create_file_handler, delete_file_handler}
use google_file_system.GarbageCollection.{soft_delete}
use google_file_system.Lease.{grant_lease, has_valid_lease}
use google_file_system.Locations.{
  ChunkLocRequest, Readings, find_handle, renew_lease, respond, place_sampled, allocate_on,
  allocate_missing, locate, get_chunk_locations, heartbeat_handler, is_past, resolve_index,
}
use google_file_system.Metadata.{
  Time, FileMetadata, Address, Handle, ChunkMetadata, MetadataStore, allocate_chunk, new_chunk,
}
use google_file_system.Oplog.{fresh_log}
use google_file_system.Replication.{CopyCall, CopyReply}
use google_file_system.Startup.{start}
use google_file_system.State.{Master, with_locks}
use google_file_system.System.{
  next_job, next_repair, Event, creates, deletes, locates, beats, checks_servers, scans, copies,
  repairs, step, run, finds, tests, grants, takes_job, copy_answered, takes_repair, repair_answered,
  end_copy, end_repair,
}
use google_file_system.System.Frame.{
  KeepsFiles, KeepsFiles-refl, IsQuiet, IsQuiet-requeue, finish_copy-IsQuiet, finish_repair-IsQuiet,
  or_retry-IsQuiet, handle_heartbeat-IsQuiet, check_dead_servers-IsQuiet, worker-IsQuiet,
  stale_worker-IsQuiet, grant_lease-KeepsFiles, set_chunk-KeepsFiles,
}
use google_file_system.System.Ownership.{
  IsOwned, empty-IsOwned, chunks_of, KeepsFiles-IsOwned, allocate_chunk-IsOwned,
  scan_and_collect-IsOwned,
}

pub end_copy-IsQuiet :
    (p : ℕ) (h : Handle) (call : CopyCall) (r : CopyReply) (m : Master)
    → IsQuiet m (end_copy p h call r m)
unfolding end_copy
end_copy-IsQuiet p h call r m =
    or_retry-IsQuiet _ m _ (λ n. IsQuiet-requeue n _ _ _) (finish_copy-IsQuiet h call r m)

pub end_repair-IsQuiet :
    (h : Handle) (a : Address) (r : CopyReply) (m : Master) → IsQuiet m (end_repair h a r m)
unfolding end_repair
end_repair-IsQuiet h a r m =
    or_retry-IsQuiet _ m _ (λ n. IsQuiet-requeue n _ _ _) (finish_repair-IsQuiet h a r m)

pub next_job-IsQuiet : (m : Master) → IsQuiet m (next_job m)
next_job-IsQuiet m = IsQuiet-requeue m m.last_seen (next_job m).queue m.stale_queue

pub next_repair-IsQuiet : (m : Master) → IsQuiet m (next_repair m)
next_repair-IsQuiet m = IsQuiet-requeue m m.last_seen m.queue (next_repair m).stale_queue

-- Only the namespace changes.
namespace-IsOwned :
    (s : MetadataStore) (d : Dict.Dict String FileMetadata)
    → IsOwned s
    → IsOwned (record s { namespace = d })
namespace-IsOwned s d v = record {
  fresh = v.fresh;
  known = v.known;
  distinct = v.distinct;
  unique = v.unique;
}

create-IsOwned :
    (p : String) (t u : Time) (m : Master)
    → IsOwned m.store
    → IsOwned (create_file_handler p t u m).1.store
unfolding create_file_handler
create-IsOwned p t u m v = elim (Bool-cases (has m.namespace p)) [
  | inl e ↦ rw (e, create_file_handler) v
  | inr e ↦ rw (e, create_file_handler) (namespace-IsOwned m.store _ v)
]

soft_delete-IsOwned :
    (p : String) (t u w : Time) (m : Master)
    → IsOwned m.store
    → IsOwned (soft_delete p t u w m).store
unfolding soft_delete
soft_delete-IsOwned p t u w m v = elim (Option-cases (Dict.get m.namespace p)) [
  | inl e ↦ rw (e, soft_delete) v
  | inr (f, e) ↦ rw (e, soft_delete) (namespace-IsOwned m.store _ v)
]

delete-IsOwned :
    (p : String) (t u w : Time) (m : Master)
    → IsOwned m.store
    → IsOwned (delete_file_handler p t u w m).1.store
unfolding delete_file_handler
delete-IsOwned p t u w m v = elim (Bool-cases (has m.namespace p)) [
  | inl e ↦ rw (e, delete_file_handler) (soft_delete-IsOwned p t u w _ v)
  | inr e ↦ rw (e, delete_file_handler) v
]

pub find_handle-state : (p : String) (i : ℤ) (m : Master) → (find_handle p i m).1 ≡ m
unfolding find_handle
find_handle-state p i m = ground arith

find_handle-IsOwned :
    (p : String) (i : ℤ) (m : Master) → IsOwned m.store → IsOwned (find_handle p i m).1.store
find_handle-IsOwned p i m v = rw (find_handle-state p i m) v

pub renew_lease-KeepsFiles :
    (h : Handle) (t : Readings) (m : Master) → KeepsFiles m (renew_lease h t m).1
unfolding renew_lease
renew_lease-KeepsFiles h t m = elim (Bool-cases (has_valid_lease h t.tested_at m)) [
  | inl e ↦ rw (e, renew_lease) (KeepsFiles-refl m)
  | inr e ↦
      rw (e, renew_lease)
        (bind-keeps (KeepsFiles m) (grant_lease h t.logged_at t.granted_at) _ m
          (grant_lease-KeepsFiles h t.logged_at t.granted_at m) (λ _ n k. k))
]

pub respond-state :
    (h : Handle) (t : Readings) (m : Master) → (respond h t m).1 ≡ (renew_lease h t m).1
unfolding respond
respond-state h t m = bind-state (renew_lease h t) _ m (λ _ n. ground arith)

pub respond-IsOwned :
    (h : Handle) (t : Readings) (m : Master) → IsOwned m.store → IsOwned (respond h t m).1.store
respond-IsOwned h t m v =
    rw (respond-state h t m) (KeepsFiles-IsOwned (renew_lease-KeepsFiles h t m) v)

place_sampled-IsOwned :
    (p : String) (h : Handle) (t : Time) (chosen : List Address) (c : ChunkMetadata) (m : Master)
    → Dict.get m.chunk_map h ≡ some c
    → IsOwned m.store
    → IsOwned (place_sampled p h t chosen m).1.store
unfolding place_sampled
place_sampled-IsOwned p h t [] c m e v = v
place_sampled-IsOwned p h t (a ∷ rest) c m e v =
    KeepsFiles-IsOwned (set_chunk-KeepsFiles m h c _ e) v

get-allocate :
    (p : String) (s : MetadataStore)
    → Dict.get (allocate_chunk p s).1.chunk_map s.next_handle ≡ some (new_chunk s.next_handle)
unfolding allocate_chunk
get-allocate p s = rw get-put (ground arith)

module _ (sample : Time → List Address → ℕ → List Address) where
  allocate_on-IsOwned :
      (xs : List Address) (p : String) (t : Time) (m : Master)
      → IsOwned m.store
      → IsOwned (allocate_on sample xs p t m).1.store
  unfolding allocate_on
  allocate_on-IsOwned [] p t m v = v
  allocate_on-IsOwned (x ∷ xs) p t m v =
      place_sampled-IsOwned p m.next_handle t _ (new_chunk m.next_handle) _ (get-allocate p m.store)
        (allocate_chunk-IsOwned m.store v p)

  allocate_missing-IsOwned :
      (r : ChunkLocRequest) (t : Time) (m : Master)
      → IsOwned m.store
      → IsOwned (allocate_missing sample r t m).1.store
  unfolding allocate_missing
  allocate_missing-IsOwned r t m v = elim (Bool-cases r.create_if_missing) [
    | inl e ↦
        rw (e, allocate_missing) (allocate_on-IsOwned (Dict.keys m.last_seen) r.filename t m v)
    | inr e ↦ rw (e, allocate_missing) v
  ]

  pub locate-IsOwned :
      (r : ChunkLocRequest) (t : Time) (m : Master)
      → IsOwned m.store
      → IsOwned (locate sample r t m).1.store
  unfolding locate
  locate-IsOwned r t m v =
      let count = length (chunks_of m.store r.filename) in
      elim (Bool-cases (is_past (resolve_index r.chunk_index count) count)) [
        | inl e ↦
            rw (e, locate)
              (bind-keeps (λ n. IsOwned n.store) (allocate_missing sample r t) _ m
                (allocate_missing-IsOwned r t m v)
                (λ _ n w.
                  find_handle-IsOwned r.filename (pos (length (chunks_of n.store r.filename) - 1)) n
                    w))
        | inr e ↦
            rw (e, locate) (find_handle-IsOwned r.filename (resolve_index r.chunk_index count) m v)
      ]

  get_chunk_locations-IsOwned :
      (r : ChunkLocRequest) (t : Readings) (m : Master)
      → IsOwned m.store
      → IsOwned (get_chunk_locations sample r t m).1.store
  unfolding get_chunk_locations
  get_chunk_locations-IsOwned r t m v = elim (Bool-cases (has m.namespace r.filename)) [
    | inl e ↦
        rw (e, get_chunk_locations)
          (bind-keeps (λ n. IsOwned n.store)
            (with_locks r.filename (locate sample r t.allocated_at)) _ m
            (unfold with_locks in locate-IsOwned r t.allocated_at _ v)
            (λ h n w. respond-IsOwned h t n w))
    | inr e ↦ rw (e, get_chunk_locations) v
  ]

  -- Every step of the master, also one that raises, keeps each chunk in one place.
  pub step-IsOwned : (e : Event) (m : Master) → IsOwned m.store → IsOwned (step sample e m).store
  unfolding step heartbeat_handler
  step-IsOwned (creates p t u) m v = create-IsOwned p t u m v
  step-IsOwned (deletes p t u w) m v = delete-IsOwned p t u w m v
  step-IsOwned (locates r t) m v = get_chunk_locations-IsOwned r t m v
  step-IsOwned (beats t a hs vs) m v =
      KeepsFiles-IsOwned (handle_heartbeat-IsQuiet t a hs vs m).files v
  step-IsOwned (checks_servers t) m v = KeepsFiles-IsOwned (check_dead_servers-IsQuiet t m).files v
  step-IsOwned (scans t) m v = scan_and_collect-IsOwned t m.store v
  step-IsOwned (copies r) m v = KeepsFiles-IsOwned (worker-IsQuiet r m).files v
  step-IsOwned (finds r t) m v = unfold with_locks in locate-IsOwned r t (record m { locks = _ }) v
  step-IsOwned (tests h t) m v = v
  step-IsOwned (grants h t u) m v = KeepsFiles-IsOwned (grant_lease-KeepsFiles h t u m) v
  step-IsOwned takes_job m v = KeepsFiles-IsOwned (next_job-IsQuiet m).files v
  step-IsOwned (copy_answered p h c r) m v = KeepsFiles-IsOwned (end_copy-IsQuiet p h c r m).files v
  step-IsOwned takes_repair m v = KeepsFiles-IsOwned (next_repair-IsQuiet m).files v
  step-IsOwned (repair_answered h a r) m v = KeepsFiles-IsOwned (end_repair-IsQuiet h a r m).files v
  step-IsOwned (repairs r) m v = KeepsFiles-IsOwned (stale_worker-IsQuiet r m).files v

  pub run-IsOwned :
      (es : List Event) (m : Master) → IsOwned m.store → IsOwned (run sample es m).store
  unfolding run
  run-IsOwned [] m v = v
  run-IsOwned (e ∷ es) m v = run-IsOwned es (step sample e m) (step-IsOwned e m v)

  -- From the first start on, whatever requests and rounds of the background threads follow, raising
  -- or not: every chunk of a file is in `chunk_map`, no chunk stands twice in a file or in two
  -- files, and the next handle is above every handle in use.
  pub reachable-IsOwned : (es : List Event) → IsOwned (run sample es (start fresh_log)).store
  unfolding start fresh_log
  reachable-IsOwned es = run-IsOwned es (start fresh_log) empty-IsOwned
