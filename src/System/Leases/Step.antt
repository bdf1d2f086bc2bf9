-- ===== src/System/Leases/Step.antt =====
-- The lease of a chunk over every step of the master.
use google_file_system.Prelude.{
  ℕ, String, ◌<◌, ◌≢◌, false, refl, ◌∙◌, inl, inr, List, Bool-cases, Option-cases, bind-keeps,
  arith, nat_eq, string_eq, ◌≡◌, ◌⊎◌,
}
use google_file_system.Dict
use google_file_system.Dict.{has}
use google_file_system.Files.{create_file_handler, delete_file_handler}
use google_file_system.GarbageCollection.{soft_delete}
use google_file_system.Locations.{
  ChunkLocRequest, Readings, locate, get_chunk_locations, heartbeat_handler,
}
use google_file_system.Metadata.{Time, Address, Handle}
use google_file_system.State.{Master, with_locks}
use google_file_system.System.{
  Event, creates, deletes, locates, beats, checks_servers, scans, copies, repairs, step, finds,
  tests, grants, takes_job, copy_answered, takes_repair, repair_answered,
}
use google_file_system.System.Frame.{
  handle_heartbeat-IsQuiet, check_dead_servers-IsQuiet, worker-IsQuiet, stale_worker-IsQuiet,
}
use google_file_system.System.Leases.{
  KeepsLease, KeepsLease-refl, KeepsLease-trans, IsQuiet-KeepsLease, GoneOrKept, IsHeld, IsHeld-has,
  ReadsBefore, IsTested, grant_lease-KeepsLease, scan_and_collect-GoneOrKept, respond-KeepsLease,
  locate-KeepsLease,
}
use google_file_system.System.Invariant.{end_copy-IsQuiet, end_repair-IsQuiet}
use google_file_system.System.Ownership.{IsOwned}

create-KeepsLease :
    (h : Handle) (p : String) (t u : Time) (m : Master)
    → KeepsLease h m.store (create_file_handler p t u m).1.store
unfolding create_file_handler
create-KeepsLease h p t u m = elim (Bool-cases (has m.namespace p)) [
  | inl e ↦ rw (e, create_file_handler) (KeepsLease-refl h m.store)
  | inr e ↦ rw (e, create_file_handler) (record { lease = refl; version = refl })
]

soft_delete-KeepsLease :
    (h : Handle) (p : String) (t u w : Time) (m : Master)
    → KeepsLease h m.store (soft_delete p t u w m).store
unfolding soft_delete
soft_delete-KeepsLease h p t u w m = elim (Option-cases (Dict.get m.namespace p)) [
  | inl e ↦ rw (e, soft_delete) (KeepsLease-refl h m.store)
  | inr (f, e) ↦ rw (e, soft_delete) (record { lease = refl; version = refl })
]

delete-KeepsLease :
    (h : Handle) (p : String) (t u w : Time) (m : Master)
    → KeepsLease h m.store (delete_file_handler p t u w m).1.store
unfolding delete_file_handler
delete-KeepsLease h p t u w m = elim (Bool-cases (has m.namespace p)) [
  | inl e ↦
      rw (e, delete_file_handler)
        (record {
          lease = (soft_delete-KeepsLease h p t u w _).lease;
          version = (soft_delete-KeepsLease h p t u w _).version;
        })
  | inr e ↦ rw (e, delete_file_handler) (KeepsLease-refl h m.store)
]

module _ (sample : Time → List Address → ℕ → List Address) (h : Handle) (p : Address)
    (expiry : Time) where
  get_chunk_locations-KeepsLease :
      (r : ChunkLocRequest) (t : Readings) (m : Master)
      → h ≢ m.next_handle
      → IsHeld h p expiry m.store
      → t.tested_at < expiry
      → KeepsLease h m.store (get_chunk_locations sample r t m).1.store
  unfolding get_chunk_locations
  get_chunk_locations-KeepsLease r t m n held early =
      elim (Bool-cases (has m.namespace r.filename)) [
        | inl e ↦
            rw (e, get_chunk_locations)
              (bind-keeps (λ o. KeepsLease h m.store o.store)
                (with_locks r.filename (locate sample r t.allocated_at)) _ m
                (unfold with_locks in
                  locate-KeepsLease sample h r t.allocated_at (record m { locks = _ }) n)
                (λ k o kept.
                  KeepsLease-trans kept
                    (respond-KeepsLease h k p expiry t o (kept.lease ∙ held) early)))
        | inr e ↦ rw (e, get_chunk_locations) (KeepsLease-refl h m.store)
      ]

  -- A step but a scan, while the lease runs.
  pub step-ScansOrKeeps :
      (e : Event) (m : Master)
      → IsOwned m.store
      → IsHeld h p expiry m.store
      → ReadsBefore expiry e
      → IsTested h false e
      → ((t : Time) × (e ≡ scans t)) ⊎ KeepsLease h m.store (step sample e m).store
  unfolding step heartbeat_handler
  step-ScansOrKeeps (creates f t u) m v held early tested = inr (create-KeepsLease h f t u m)
  step-ScansOrKeeps (deletes f t u w) m v held early tested = inr (delete-KeepsLease h f t u w m)
  step-ScansOrKeeps (locates r t) m v held early tested =
      inr (get_chunk_locations-KeepsLease r t m unused held early)
    where
      unused : h ≢ m.next_handle
      unused e = absurd (omega (arith, v.fresh h (IsHeld-has h p expiry m.store held)))
  step-ScansOrKeeps (beats t a hs vs) m v held early tested =
      inr (IsQuiet-KeepsLease h (handle_heartbeat-IsQuiet t a hs vs m))
  step-ScansOrKeeps (checks_servers t) m v held early tested =
      inr (IsQuiet-KeepsLease h (check_dead_servers-IsQuiet t m))
  step-ScansOrKeeps (scans t) m v held early tested = inl (t, refl)
  step-ScansOrKeeps (copies r) m v held early tested =
      inr (IsQuiet-KeepsLease h (worker-IsQuiet r m))
  step-ScansOrKeeps (repairs r) m v held early tested =
      inr (IsQuiet-KeepsLease h (stale_worker-IsQuiet r m))
  step-ScansOrKeeps (finds r t) m v held early tested =
      inr (unfold with_locks in locate-KeepsLease sample h r t (record m { locks = _ }) unused)
    where
      unused : h ≢ m.next_handle
      unused e = absurd (omega (arith, v.fresh h (IsHeld-has h p expiry m.store held)))
  step-ScansOrKeeps (tests k t) m v held early tested = inr (KeepsLease-refl h m.store)
  step-ScansOrKeeps (grants k t u) m v held early tested =
      inr (grant_lease-KeepsLease h k t u m (λ e. absurd (ground arith)))
  step-ScansOrKeeps takes_job m v held early tested = inr (KeepsLease-refl h m.store)
  step-ScansOrKeeps (copy_answered q k c r) m v held early tested =
      inr (IsQuiet-KeepsLease h (end_copy-IsQuiet q k c r m))
  step-ScansOrKeeps takes_repair m v held early tested = inr (KeepsLease-refl h m.store)
  step-ScansOrKeeps (repair_answered k a r) m v held early tested =
      inr (IsQuiet-KeepsLease h (end_repair-IsQuiet k a r m))

  -- In a state in which each chunk is in one place, and while the clock reads before the end of a
  -- chunk's lease, a step of the
  -- master that is no grant on the chunk leaves the primary, the lease's end and the version as
  -- they are, unless it drops the chunk.
  pub step-KeepsLease :
      (e : Event) (m : Master)
      → IsOwned m.store
      → IsHeld h p expiry m.store
      → ReadsBefore expiry e
      → IsTested h false e
      → GoneOrKept h m.store (step sample e m).store
  unfolding step
  step-KeepsLease e m v held early tested = elim (step-ScansOrKeeps e m v held early tested) [
    | inl (t, q) ↦ rw q (scan_and_collect-GoneOrKept h t m.store)
    | inr kept ↦ inr kept
  ]
