-- ===== src/System/Recovery/Step.antt =====
-- Recovery over every step of the master.
use google_file_system.Prelude.{
  ℕ, ◌+◌, ◌-◌, ◌≡◌, refl, ap, ◌∙◌, String, ℤ, pos, List, [], ◌∷◌, inl, inr, Option-cases,
  Bool-cases, List-cases, bind-keeps, arith, nat_eq, string_eq, length, min,
}
use google_file_system.Dict
use google_file_system.Dict.{has, get-put, get-empty}
use google_file_system.Files.{create_file_handler, delete_file_handler}
use google_file_system.GarbageCollection.{soft_delete, hidden_name}
use google_file_system.Lease.{grant_lease, grant_first, has_valid_lease}
use google_file_system.Lease.Grants.{grant_lease_outcomes}
use google_file_system.Locations.{
  ChunkLocRequest, Readings, renew_lease, respond, place_sampled, allocate_on, allocate_missing,
  locate, get_chunk_locations, find_handle, is_past, resolve_index,
}
use google_file_system.Locks.{LockTable}
use google_file_system.Metadata.{Time, Address, Handle, allocate_chunk, version_of}
use google_file_system.Oplog.{
  append, create_file, delete_file, allocate_chunk as allocate_chunk_op,
  grant_lease as grant_lease_op,
}
use google_file_system.State.{Master, with_locks, healthy_replicas}
use google_file_system.System.{IsSampler}
use google_file_system.System.Frame.{grant_lease-KeepsFiles}
use google_file_system.System.Invariant.{
  locate-IsOwned, respond-IsOwned, find_handle-state, respond-state,
}
use google_file_system.System.Ownership.{IsOwned, chunks_of}
use google_file_system.System.Recovery.{
  Recovers, restored, logged-Recovers, create-Agrees, delete-Agrees, allocate-Agrees, grant-Agrees,
}

-- The locks are not a part of it.
pub locks-Recovers : (m : Master) (t : LockTable) → Recovers m → Recovers (record m { locks = t })
locks-Recovers m t v = record {
  agrees = v.agrees;
  no_checkpoint = v.no_checkpoint;
  unversioned = v.unversioned;
}

pub create-Recovers :
    (p : String) (t u : Time) (m : Master) → Recovers m → Recovers (create_file_handler p t u m).1
unfolding create_file_handler append
create-Recovers p t u m v = elim (Bool-cases (has m.namespace p)) [
  | inl e ↦ rw (e, create_file_handler) (locks-Recovers m _ v)
  | inr e ↦
      rw (e, create_file_handler)
        (logged-Recovers m _ (record { ts = u; op = create_file p }) refl refl
          (create-Agrees m.store (restored m) v.agrees p t u) v.unversioned v)
]

soft_delete-Recovers :
    (p : String) (t u w : Time) (m : Master) → Recovers m → Recovers (soft_delete p t u w m)
unfolding soft_delete append
soft_delete-Recovers p t u w m v = elim (Option-cases (Dict.get m.namespace p)) [
  | inl e ↦ rw (e, soft_delete) v
  | inr (f, e) ↦
      rw (e, soft_delete)
        (logged-Recovers m _ (record { ts = w; op = delete_file p (hidden_name p t) }) refl refl
          (delete-Agrees m.store (restored m) p (hidden_name p t) u w f v.agrees e) v.unversioned v)
]

pub delete-Recovers :
    (p : String) (t u w : Time) (m : Master)
    → Recovers m
    → Recovers (delete_file_handler p t u w m).1
unfolding delete_file_handler
delete-Recovers p t u w m v = elim (Bool-cases (has m.namespace p)) [
  | inl e ↦
      rw (e, delete_file_handler)
        (locks-Recovers (soft_delete p t u w _) _
          (soft_delete-Recovers p t u w _ (locks-Recovers m _ v)))
  | inr e ↦ rw (e, delete_file_handler) (locks-Recovers m _ v)
]

grant_lease-checkpoint :
    (h : Handle) (t u : Time) (m : Master)
    → (grant_lease h t u m).1.oplog.checkpoint ≡ m.oplog.checkpoint
unfolding grant_lease append
grant_lease-checkpoint h t u m = elim (Option-cases (Dict.get m.chunk_map h)) [
  | inl e ↦ rw (e, grant_lease)
  | inr (c, e) ↦ elim (List-cases (healthy_replicas c)) [
    | inl f ↦ rw (e, grant_lease) (rw (f, grant_first))
    | inr (p, rest, f) ↦ rw (e, grant_lease) (rw (f, grant_first))
  ]
]

pub grant_lease-Recovers :
    (h : Handle) (t u : Time) (m : Master)
    → IsOwned m.store
    → Recovers m
    → Recovers (grant_lease h t u m).1
grant_lease-Recovers h t u m o v = elim (grant_lease_outcomes h t u m) [
  | inl (e, f) ↦ rw f v
  | inr (inl (c, e, n, f)) ↦ rw f v
  | inr (inr (c, p, rest, e, f, r, g)) ↦
      let kept = grant_lease-KeepsFiles h t u m in
      logged-Recovers m (grant_lease h t u m).1
        (record { ts = t; op = grant_lease_op h (version_of m.store h + 1) }) g.logged
        (grant_lease-checkpoint h t u m)
        (grant-Agrees m.store (grant_lease h t u m).1.store (restored m) h t
          (version_of m.store h + 1) v.agrees kept.namespace kept.file_chunks g.next_version
          g.other_versions)
        (λ k b.
          let above = rw kept.next_handle at b in
          let below = o.fresh h (ground arith) in
          g.other_versions k (λ q. absurd (omega (arith, q, above, below))) ∙ v.unversioned k above)
        v
]

renew_lease-Recovers :
    (h : Handle) (t : Readings) (m : Master)
    → IsOwned m.store
    → Recovers m
    → Recovers (renew_lease h t m).1
unfolding renew_lease
renew_lease-Recovers h t m o v = elim (Bool-cases (has_valid_lease h t.tested_at m)) [
  | inl e ↦ rw (e, renew_lease) v
  | inr e ↦
      rw (e, renew_lease)
        (bind-keeps Recovers (grant_lease h t.logged_at t.granted_at) _ m
          (grant_lease-Recovers h t.logged_at t.granted_at m o v) (λ _ n w. w))
]

respond-Recovers :
    (h : Handle) (t : Readings) (m : Master)
    → IsOwned m.store
    → Recovers m
    → Recovers (respond h t m).1
respond-Recovers h t m o v = rw (respond-state h t m) (renew_lease-Recovers h t m o v)

find_handle-Recovers :
    (p : String) (i : ℤ) (m : Master) → Recovers m → Recovers (find_handle p i m).1
find_handle-Recovers p i m v = rw (find_handle-state p i m) v

-- The chunk is allocated and logged, given that a server was chosen for it.
place_chunk-Recovers :
    (p : String) (t : Time) (a : Address) (rest : List Address) (m : Master)
    → Recovers m
    → Recovers
        (place_sampled p m.next_handle t
          (a ∷ rest)
          (record m { store = (allocate_chunk p m.store).1 })).1
unfolding place_sampled append allocate_chunk
place_chunk-Recovers p t a rest m v =
    let a =
      allocate-Agrees m.store (restored m) p t v.agrees
        (v.unversioned m.next_handle (omega arith)) in
    logged-Recovers m _ (record { ts = t; op = allocate_chunk_op p m.next_handle }) refl refl
      (record { live = a.live; named = a.named; chunks = a.chunks; versions = a.versions })
      (λ h b. ground (arith, get-put m.chunk_versions m.next_handle h 0, v.unversioned h)) v

module _ (sample : Time → List Address → ℕ → List Address) (sampler : IsSampler sample) where
  allocate_on-Recovers :
      (xs : List Address) (p : String) (t : Time) (m : Master)
      → Recovers m
      → Recovers (allocate_on sample xs p t m).1
  unfolding allocate_on
  allocate_on-Recovers [] p t m v = v
  allocate_on-Recovers (x ∷ xs) p t m v =
      let count = min 3 (length (x ∷ xs)) in
      elim (List-cases (sample t (x ∷ xs) count)) [
        | inl e ↦ absurd (omega (arith, sampler.size t (x ∷ xs) count (omega arith), ap length e))
        | inr (a, rest, e) ↦ rw e (place_chunk-Recovers p t a rest m v)
      ]

  allocate_missing-Recovers :
      (r : ChunkLocRequest) (t : Time) (m : Master)
      → Recovers m
      → Recovers (allocate_missing sample r t m).1
  unfolding allocate_missing
  allocate_missing-Recovers r t m v = elim (Bool-cases r.create_if_missing) [
    | inl e ↦
        rw (e, allocate_missing) (allocate_on-Recovers (Dict.keys m.last_seen) r.filename t m v)
    | inr e ↦ rw (e, allocate_missing) v
  ]

  pub locate-Recovers :
      (r : ChunkLocRequest) (t : Time) (m : Master) → Recovers m → Recovers (locate sample r t m).1
  unfolding locate
  locate-Recovers r t m v =
      let count = length (chunks_of m.store r.filename) in
      elim (Bool-cases (is_past (resolve_index r.chunk_index count) count)) [
        | inl e ↦
            rw (e, locate)
              (bind-keeps Recovers (allocate_missing sample r t) _ m
                (allocate_missing-Recovers r t m v)
                (λ _ n w.
                  find_handle-Recovers r.filename (pos (length (chunks_of n.store r.filename) - 1))
                    n w))
        | inr e ↦
            rw (e, locate) (find_handle-Recovers r.filename (resolve_index r.chunk_index count) m v)
      ]

  pub get_chunk_locations-Recovers :
      (r : ChunkLocRequest) (t : Readings) (m : Master)
      → IsOwned m.store
      → Recovers m
      → Recovers (get_chunk_locations sample r t m).1
  unfolding get_chunk_locations
  get_chunk_locations-Recovers r t m o v = elim (Bool-cases (has m.namespace r.filename)) [
    | inl e ↦
        rw (e, get_chunk_locations)
          (bind-keeps (λ n. IsOwned n.store × Recovers n)
            (with_locks r.filename (locate sample r t.allocated_at)) _ m
            (unfold with_locks in
              (
                locate-IsOwned sample r t.allocated_at (record m { locks = _ }) o,
                locks-Recovers _ _ (
                    locate-Recovers r t.allocated_at (record m { locks = _ })
                      (locks-Recovers m _ v)),
              ))
            (λ h n w. (respond-IsOwned h t n w.0, respond-Recovers h t n w.0 w.1))).1
    | inr e ↦ rw (e, get_chunk_locations) v
  ]
