-- ===== src/System/Tidy/Step.antt =====
-- The replica lists, as to repetition, over every step of the master and over histories.
use google_file_system.Prelude.{
  ℕ, ◌≡◌, sym, ap, ◌∙◌, Bool, false, Option, some, none, contains, String, List, [], ◌∷◌, inl, inr,
  Bool-cases, Option-cases, IsDistinct, nat_eq, string_eq, length, min, pos, ◌-◌, bind-keeps, ℤ,
}
use google_file_system.Dict
use google_file_system.Dict.{has, keys-IsDistinct, get-empty}
use google_file_system.Files.{create_file_handler, delete_file_handler}
use google_file_system.GarbageCollection.{soft_delete}
use google_file_system.Locations.{
  ChunkLocRequest, Readings, respond, place_sampled, allocate_on, allocate_missing, locate,
  get_chunk_locations, find_handle, is_past, resolve_index, heartbeat_handler,
}
use google_file_system.Metadata.{
  Time, Address, Handle, ChunkMetadata, empty_store, allocate_chunk, new_chunk,
}
use google_file_system.Oplog.{fresh_log}
use google_file_system.Replication.{CopyCall, CopyReply, worker, stale_worker}
use google_file_system.Startup.{start}
use google_file_system.State.{Master, with_locks}
use google_file_system.System.{
  IsSampler, Event, creates, deletes, locates, beats, checks_servers, scans, copies, repairs, step,
  run, finds, tests, grants, takes_job, copy_answered, takes_repair, repair_answered, end_copy,
  end_repair,
}
use google_file_system.System.Invariant.{find_handle-state, respond-state}
use google_file_system.System.Ownership.{chunks_of}
use google_file_system.System.Replicas.{
  AllTidy, Tidy, put-AllTidy, handle_heartbeat-Tidy, check_dead_servers-Tidy,
}
use google_file_system.System.Tidy.{
  renew_lease-Tidy, grant_lease-Tidy, finish_copy-Tidy, finish_repair-Tidy, or_retry-Tidy,
  worker-Tidy, stale_worker-Tidy, scan_and_collect-Tidy,
}

create-Tidy : (p : String) (t u : Time) (m : Master) → Tidy m → Tidy (create_file_handler p t u m).1
unfolding create_file_handler
create-Tidy p t u m v = elim (Bool-cases (has m.namespace p)) [
  | inl e ↦ rw (e, create_file_handler) v
  | inr e ↦ rw (e, create_file_handler) v
]

soft_delete-Tidy : (p : String) (t u w : Time) (m : Master) → Tidy m → Tidy (soft_delete p t u w m)
unfolding soft_delete
soft_delete-Tidy p t u w m v = elim (Option-cases (Dict.get m.namespace p)) [
  | inl e ↦ rw (e, soft_delete) v
  | inr (f, e) ↦ rw (e, soft_delete) v
]

delete-Tidy :
    (p : String) (t u w : Time) (m : Master) → Tidy m → Tidy (delete_file_handler p t u w m).1
unfolding delete_file_handler
delete-Tidy p t u w m v = elim (Bool-cases (has m.namespace p)) [
  | inl e ↦ rw (e, delete_file_handler) (soft_delete-Tidy p t u w _ v)
  | inr e ↦ rw (e, delete_file_handler) v
]

respond-Tidy : (h : Handle) (t : Readings) (m : Master) → Tidy m → Tidy (respond h t m).1
respond-Tidy h t m v = rw (respond-state h t m) (renew_lease-Tidy h t m v)

find_handle-Tidy : (p : String) (i : ℤ) (m : Master) → Tidy m → Tidy (find_handle p i m).1
find_handle-Tidy p i m v = rw (find_handle-state p i m) v

place_sampled-Tidy :
    (p : String) (h : Handle) (t : Time) (chosen : List Address) (m : Master)
    → IsDistinct chosen
    → Tidy m
    → Tidy (place_sampled p h t chosen m).1
unfolding place_sampled
place_sampled-Tidy p h t [] m d v = v
place_sampled-Tidy p h t (a ∷ rest) m d v =
    put-AllTidy m.chunk_map h _ (record { replicas = d; stale_replicas = tt }) v

allocate_chunk-AllTidy :
    (p : String) (m : Master) → Tidy m → AllTidy (allocate_chunk p m.store).1.chunk_map
unfolding allocate_chunk
allocate_chunk-AllTidy p m v =
    put-AllTidy m.chunk_map m.next_handle (new_chunk m.next_handle)
      (record { replicas = tt; stale_replicas = tt }) v

-- A chunk that is known lists the server as a replica.
abbrev lists : Address → Option ChunkMetadata → Bool
lists a none = false
lists a (some c) = contains c.replicas a

-- When the reply of a copy is worked on, the target is no replica of the chunk yet.
abbrev pub IsApart : Event → Master → Type 0
IsApart (copy_answered p h call reply) m = lists call.target (Dict.get m.chunk_map h) ≡ false
IsApart _ m = Unit

abbrev pub AllApart : (Time → List Address → ℕ → List Address) → List Event → Master → Type 0
AllApart sample [] m = Unit
AllApart sample (e ∷ es) m = IsApart e m × AllApart sample es (step sample e m)

end_copy-Tidy :
    (p : ℕ) (h : Handle) (call : CopyCall) (reply : CopyReply) (m : Master)
    → lists call.target (Dict.get m.chunk_map h) ≡ false
    → Tidy m
    → Tidy (end_copy p h call reply m)
unfolding end_copy
end_copy-Tidy p h call reply m new v =
    or_retry-Tidy _ _ (λ n u. u)
      (finish_copy-Tidy h call reply m (λ c e. sym (ap (lists call.target) e) ∙ new) v)

end_repair-Tidy :
    (h : Handle) (a : Address) (reply : CopyReply) (m : Master)
    → Tidy m
    → Tidy (end_repair h a reply m)
unfolding end_repair
end_repair-Tidy h a reply m v = or_retry-Tidy _ _ (λ n u. u) (finish_repair-Tidy h a reply m v)

module _ (sample : Time → List Address → ℕ → List Address) (law : IsSampler sample) where
  allocate_on-Tidy :
      (xs : List Address) (p : String) (t : Time) (m : Master)
      → IsDistinct xs
      → Tidy m
      → Tidy (allocate_on sample xs p t m).1
  unfolding allocate_on
  allocate_on-Tidy [] p t m d v = v
  allocate_on-Tidy (x ∷ xs) p t m d v =
      place_sampled-Tidy p m.next_handle t (sample t (x ∷ xs) (min 3 (length (x ∷ xs)))) _
        (law.distinct t (x ∷ xs) _ d) (allocate_chunk-AllTidy p m v)

  allocate_missing-Tidy :
      (r : ChunkLocRequest) (t : Time) (m : Master)
      → Tidy m
      → Tidy (allocate_missing sample r t m).1
  unfolding allocate_missing
  allocate_missing-Tidy r t m v = elim (Bool-cases r.create_if_missing) [
    | inl e ↦
        rw (e, allocate_missing)
          (allocate_on-Tidy (Dict.keys m.last_seen) r.filename t m (keys-IsDistinct m.last_seen) v)
    | inr e ↦ rw (e, allocate_missing) v
  ]

  locate-Tidy :
      (r : ChunkLocRequest) (t : Time) (m : Master) → Tidy m → Tidy (locate sample r t m).1
  unfolding locate
  locate-Tidy r t m v =
      let count = length (chunks_of m.store r.filename) in
      elim (Bool-cases (is_past (resolve_index r.chunk_index count) count)) [
        | inl e ↦
            rw (e, locate)
              (bind-keeps Tidy (allocate_missing sample r t) _ m (allocate_missing-Tidy r t m v)
                (λ _ n w.
                  find_handle-Tidy r.filename (pos (length (chunks_of n.store r.filename) - 1)) n
                    w))
        | inr e ↦
            rw (e, locate) (find_handle-Tidy r.filename (resolve_index r.chunk_index count) m v)
      ]

  get_chunk_locations-Tidy :
      (r : ChunkLocRequest) (t : Readings) (m : Master)
      → Tidy m
      → Tidy (get_chunk_locations sample r t m).1
  unfolding get_chunk_locations
  get_chunk_locations-Tidy r t m v = elim (Bool-cases (has m.namespace r.filename)) [
    | inl e ↦
        rw (e, get_chunk_locations)
          (bind-keeps Tidy (with_locks r.filename (locate sample r t.allocated_at)) _ m
            (unfold with_locks in locate-Tidy r t.allocated_at _ v) (λ h n w. respond-Tidy h t n w))
    | inr e ↦ rw (e, get_chunk_locations) v
  ]

  pub step-Tidy : (e : Event) (m : Master) → IsApart e m → Tidy m → Tidy (step sample e m)
  unfolding step heartbeat_handler
  step-Tidy (creates p t u) m o v = create-Tidy p t u m v
  step-Tidy (deletes p t u w) m o v = delete-Tidy p t u w m v
  step-Tidy (locates r t) m o v = get_chunk_locations-Tidy r t m v
  step-Tidy (beats t a hs vs) m o v = handle_heartbeat-Tidy t a hs vs m v
  step-Tidy (checks_servers t) m o v = check_dead_servers-Tidy t m v
  step-Tidy (scans t) m o v = scan_and_collect-Tidy t m.store v
  step-Tidy (copies r) m o v = unfold worker in worker-Tidy r m.queue m v
  step-Tidy (repairs r) m o v = unfold stale_worker in stale_worker-Tidy r m.stale_queue m v
  step-Tidy (finds r t) m o v = unfold with_locks in locate-Tidy r t _ v
  step-Tidy (tests h t) m o v = v
  step-Tidy (grants h t u) m o v = grant_lease-Tidy h t u m v
  step-Tidy takes_job m o v = v
  step-Tidy (copy_answered p h call r) m o v = end_copy-Tidy p h call r m o v
  step-Tidy takes_repair m o v = v
  step-Tidy (repair_answered h a r) m o v = end_repair-Tidy h a r m v

  run-Tidy : (es : List Event) (m : Master) → AllApart sample es m → Tidy m → Tidy (run sample es m)
  unfolding run
  run-Tidy [] m o v = v
  run-Tidy (e ∷ es) m o v = run-Tidy es (step sample e m) o.1 (step-Tidy e m o.0 v)

  -- From the first start on, whatever requests and rounds of the background threads follow, other
  -- requests served while a worker waits for a copy included, no server is listed twice as a replica
  -- of a chunk, or twice as a stale replica of it, if `random.sample` is as documented, and if no
  -- server is listed as a replica of a chunk already when the reply of a copy of that chunk to it is
  -- worked on.
  pub reachable-Tidy :
      (es : List Event)
      → AllApart sample es (start fresh_log)
      → Tidy (run sample es (start fresh_log))
  unfolding start fresh_log empty_store
  reachable-Tidy es o =
      run-Tidy es (start fresh_log) o
        (record { at = λ h c e. cc (e, get-empty {K = Handle} {V = ChunkMetadata} h) })
