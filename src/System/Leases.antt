-- ===== src/System/Leases.antt =====
-- A chunk's primary, the end of its lease and its version while the lease runs: grants and lookups.
pub mod Step
pub mod Histories
use google_file_system.Prelude.{
  ℕ, String, ◌<◌, ◌+◌, ◌≡◌, ◌≢◌, refl, ap, ◌∙◌, ◌⊎◌, Bool, true, false, List, [], ◌∷◌, ◌++◌, ℤ, pos,
  ◌-◌, some, none, inl, inr, Option, Option-cases, Bool-cases, Outcome, returned, raised,
  bind-keeps, get_or, test_cases, contains, length, min, arith, nat_eq, string_eq, ltb, ◌==◌, not,
  ◌||◌, ◌&&◌,
}
use google_file_system.Dict
use google_file_system.Dict.{has, get-put, get-remove_key}
use google_file_system.Files.{create_file_handler, delete_file_handler}
use google_file_system.GarbageCollection.{
  soft_delete, erase_expired, drop_orphans, is_expired, scan_and_collect, finish_scan, erase_file,
  add_pending,
}
use google_file_system.Lease.{grant_lease, has_valid_lease}
use google_file_system.Lease.Grants.{IsGranted, grant_lease_outcomes}
use google_file_system.Locations.{
  ChunkLocRequest, Readings, renew_lease, respond, place_sampled, allocate_on, allocate_missing,
  locate, get_chunk_locations, find_handle, is_past, resolve_index, heartbeat_handler,
}
use google_file_system.Metadata.{
  Time, Address, Handle, FileMetadata, ChunkMetadata, MetadataStore, version_of, allocate_chunk,
  new_chunk,
}
use google_file_system.State.{Master, with_locks, set_chunk}
use google_file_system.System.{
  Event, creates, deletes, locates, beats, checks_servers, scans, copies, repairs, tests, grants,
  step, run,
}
use google_file_system.System.Frame.{
  IsQuiet, lease_of, handle_heartbeat-IsQuiet, check_dead_servers-IsQuiet, worker-IsQuiet,
  stale_worker-IsQuiet,
}
use google_file_system.System.Invariant.{find_handle-state, respond-state}
use google_file_system.System.Ownership.{IsOwned, chunks_of}

-- A chunk has the same primary, the same end of its lease and the same version.
pub record KeepsLease (h : Handle) (s t : MetadataStore) : Type 0 where
  pub lease : lease_of (Dict.get t.chunk_map h) ≡ lease_of (Dict.get s.chunk_map h)
  pub version : version_of t h ≡ version_of s h

pub KeepsLease-refl : (h : Handle) (s : MetadataStore) → KeepsLease h s s
KeepsLease-refl h s = record { lease = refl; version = refl }

pub KeepsLease-trans :
    {h : Handle} {s t u : MetadataStore} → KeepsLease h s t → KeepsLease h t u → KeepsLease h s u
KeepsLease-trans f g = record { lease = g.lease ∙ f.lease; version = g.version ∙ f.version }

pub IsQuiet-KeepsLease : (h : Handle) {m n : Master} → IsQuiet m n → KeepsLease h m.store n.store
IsQuiet-KeepsLease h q = record {
  lease = q.leases h;
  version = ap (λ d. get_or (Dict.get d h) 0) q.chunk_versions;
}

-- The chunk is gone, or its lease is as before.
abbrev pub GoneOrKept : Handle → MetadataStore → MetadataStore → Type 0
GoneOrKept h s t = (has t.chunk_map h ≡ false) ⊎ KeepsLease h s t

drop_orphans-GoneOrKept :
    (h : Handle) (hs : List Handle) (s : MetadataStore) → GoneOrKept h s (drop_orphans hs s)
unfolding drop_orphans
drop_orphans-GoneOrKept h [] s = inr (KeepsLease-refl h s)
drop_orphans-GoneOrKept h (k ∷ hs) s = ground (
  arith,
  drop_orphans-GoneOrKept h hs (record s {
    chunk_map = Dict.remove_key s.chunk_map k;
    chunk_versions = Dict.remove_key s.chunk_versions k;
    gc_pending = add_pending k s.gc_pending;
  }),
  get-remove_key s.chunk_map k h,
  get-remove_key s.chunk_versions k h,
)

erase_expired-KeepsLease :
    (h : Handle) (now : Time) (files : List (String × FileMetadata)) (hs : List Handle)
    (s : MetadataStore)
    → KeepsLease h s (erase_expired now files hs s).1
unfolding erase_expired
erase_expired-KeepsLease h now [] hs s = KeepsLease-refl h s
erase_expired-KeepsLease h now ((p, f) ∷ files) hs s =
    let skipped = erase_expired-KeepsLease h now files hs s in
    let erased = erase_expired-KeepsLease h now files (hs ++ chunks_of s p) (erase_file p s) in
    elim (test_cases (is_expired now f)) [
      | inl (x, e) ↦ rw (e, erase_expired) (KeepsLease-refl h s)
      | inr (inl e) ↦
          rw (e, erase_expired) (record { lease = erased.lease; version = erased.version })
      | inr (inr e) ↦ rw (e, erase_expired) skipped
    ]

pub scan_and_collect-GoneOrKept :
    (h : Handle) (now : Time) (s : MetadataStore) → GoneOrKept h s (scan_and_collect now s).1
unfolding scan_and_collect
scan_and_collect-GoneOrKept h now s =
    go (erase_expired now (Dict.items s.namespace) [] s)
      (erase_expired-KeepsLease h now (Dict.items s.namespace) [] s)
  where
    go :
        (r : Outcome (List Handle) × MetadataStore)
        → KeepsLease h s r.1
        → GoneOrKept h s (finish_scan r).1
    go (raised x, t) k = inr k
    go (returned hs, t) k = elim (drop_orphans-GoneOrKept h hs t) [
      | inl gone ↦ inl gone
      | inr kept ↦ inr (KeepsLease-trans k kept)
    ]

-- A grant to another chunk.
pub grant_lease-KeepsLease :
    (h k : Handle) (t u : Time) (m : Master)
    → h ≢ k
    → KeepsLease h m.store (grant_lease k t u m).1.store
grant_lease-KeepsLease h k t u m n = elim (grant_lease_outcomes k t u m) [
  | inl (e, f) ↦ rw f (KeepsLease-refl h m.store)
  | inr (inl (c, e, g, f)) ↦ rw f (KeepsLease-refl h m.store)
  | inr (inr (c, p, rest, e, f, s, g)) ↦ record {
    lease = ap lease_of (g.other_chunks h n);
    version = g.other_versions h n;
  }
]

-- A lease that a primary holds up to a time.
abbrev pub IsHeld : Handle → Address → Time → MetadataStore → Type 0
IsHeld h p expiry s = lease_of (Dict.get s.chunk_map h) ≡ some (some p, expiry)

has_valid_lease-IsHeld :
    (h : Handle) (p : Address) (expiry now : Time) (m : Master)
    → IsHeld h p expiry m.store
    → now < expiry
    → has_valid_lease h now m ≡ true
unfolding has_valid_lease
has_valid_lease-IsHeld h p expiry now m held early = ground arith

pub IsHeld-has :
    (h : Handle) (p : Address) (expiry : Time) (s : MetadataStore)
    → IsHeld h p expiry s
    → has s.chunk_map h ≡ true
IsHeld-has h p expiry s held = ground arith

renew_lease-KeepsLease :
    (h k : Handle) (p : Address) (expiry : Time) (t : Readings) (m : Master)
    → IsHeld h p expiry m.store
    → t.tested_at < expiry
    → KeepsLease h m.store (renew_lease k t m).1.store
unfolding renew_lease
renew_lease-KeepsLease h k p expiry t m held early = elim (nat_eq.dec h k) [
  | yes same ↦ rw (← same) (
      rw (has_valid_lease-IsHeld h p expiry t.tested_at m held early, renew_lease)
        (KeepsLease-refl h m.store))
  | no differ ↦ elim (Bool-cases (has_valid_lease k t.tested_at m)) [
    | inl e ↦ rw (e, renew_lease) (KeepsLease-refl h m.store)
    | inr e ↦
        rw (e, renew_lease)
          (bind-keeps (λ n. KeepsLease h m.store n.store) (grant_lease k t.logged_at t.granted_at) _
            m (grant_lease-KeepsLease h k t.logged_at t.granted_at m differ) (λ _ n kept. kept))
  ]
]

pub respond-KeepsLease :
    (h k : Handle) (p : Address) (expiry : Time) (t : Readings) (m : Master)
    → IsHeld h p expiry m.store
    → t.tested_at < expiry
    → KeepsLease h m.store (respond k t m).1.store
respond-KeepsLease h k p expiry t m held early =
    rw (respond-state k t m) (renew_lease-KeepsLease h k p expiry t m held early)

place_sampled-KeepsLease :
    (h : Handle) (p : String) (k : Handle) (t : Time) (chosen : List Address) (m : Master)
    → h ≢ k
    → KeepsLease h m.store (place_sampled p k t chosen m).1.store
unfolding place_sampled
place_sampled-KeepsLease h p k t [] m n = KeepsLease-refl h m.store
place_sampled-KeepsLease h p k t (a ∷ rest) m n = record {
  lease = rw get-put (ground arith);
  version = refl;
}

allocate_chunk-KeepsLease :
    (h : Handle) (p : String) (s : MetadataStore)
    → h ≢ s.next_handle
    → KeepsLease h s (allocate_chunk p s).1
unfolding allocate_chunk
allocate_chunk-KeepsLease h p s n = record {
  lease = rw get-put (ground arith);
  version = rw get-put (ground arith);
}

-- A clock that is read before the lease ends, at a test of a lease.
abbrev pub ReadsBefore : Time → Event → Type 0
ReadsBefore expiry (locates r t) = t.tested_at < expiry
ReadsBefore expiry (tests k t) = t < expiry
ReadsBefore expiry _ = Unit

-- Whether a request whose test found no lease on the chunk has its grant before it.
abbrev pub still_waiting : Handle → Event → Master → Bool → Bool
still_waiting h (tests k t) m waiting = waiting || (k == h && not (has_valid_lease h t m))
still_waiting h _ m waiting = waiting

-- A grant on the chunk belongs to such a request.
abbrev pub IsTested : Handle → Bool → Event → Type 0
IsTested h waiting (grants k t u) = (not (k == h) || waiting) ≡ true
IsTested h waiting _ = Unit

pub still_waiting-IsHeld :
    (h : Handle) (p : Address) (expiry : Time) (e : Event) (m : Master)
    → IsHeld h p expiry m.store
    → ReadsBefore expiry e
    → still_waiting h e m false ≡ false
still_waiting-IsHeld h p expiry (tests k t) m held early =
    let valid = has_valid_lease-IsHeld h p expiry t m held early in ground arith
still_waiting-IsHeld h p expiry _ m held early = refl

module _ (sample : Time → List Address → ℕ → List Address) (h : Handle) where
  allocate_missing-KeepsLease :
      (r : ChunkLocRequest) (t : Time) (m : Master)
      → h ≢ m.next_handle
      → KeepsLease h m.store (allocate_missing sample r t m).1.store
  unfolding allocate_missing allocate_on
  allocate_missing-KeepsLease r t m n = elim (Bool-cases r.create_if_missing) [
    | inl e ↦ rw (e, allocate_missing) (go (Dict.keys m.last_seen))
    | inr e ↦ rw (e, allocate_missing) (KeepsLease-refl h m.store)
  ]
    where
      go : (xs : List Address) → KeepsLease h m.store (allocate_on sample xs r.filename t m).1.store
      go [] = KeepsLease-refl h m.store
      go (x ∷ xs) = KeepsLease-trans (allocate_chunk-KeepsLease h r.filename m.store n) (
          place_sampled-KeepsLease h r.filename m.next_handle t
            (sample t (x ∷ xs) (min 3 (length (x ∷ xs)))) _ n)

  find_handle-KeepsLease :
      (s : MetadataStore) (p : String) (i : ℤ) (m : Master)
      → KeepsLease h s m.store
      → KeepsLease h s (find_handle p i m).1.store
  find_handle-KeepsLease s p i m k = rw (find_handle-state p i m) k

  pub locate-KeepsLease :
      (r : ChunkLocRequest) (t : Time) (m : Master)
      → h ≢ m.next_handle
      → KeepsLease h m.store (locate sample r t m).1.store
  unfolding locate
  locate-KeepsLease r t m n =
      let count = length (chunks_of m.store r.filename) in
      elim (Bool-cases (is_past (resolve_index r.chunk_index count) count)) [
        | inl e ↦
            rw (e, locate)
              (bind-keeps (λ o. KeepsLease h m.store o.store) (allocate_missing sample r t) _ m
                (allocate_missing-KeepsLease r t m n)
                (λ _ o w.
                  find_handle-KeepsLease m.store r.filename
                    (pos (length (chunks_of o.store r.filename) - 1)) o w))
        | inr e ↦
            rw (e, locate)
              (find_handle-KeepsLease m.store r.filename (resolve_index r.chunk_index count) m
                (KeepsLease-refl h m.store))
      ]
