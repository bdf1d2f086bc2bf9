-- ===== src/System/Leases/Histories.antt =====
-- The lease of a chunk over whole histories.
use google_file_system.Prelude.{
  ℕ, Bool, false, subst, ap, ◌∙◌, List, [], ◌∷◌, inl, inr, get_or, nat_eq, string_eq,
}
use google_file_system.Dict
use google_file_system.Dict.{has}
use google_file_system.Metadata.{Time, Address, Handle}
use google_file_system.Oplog.{fresh_log}
use google_file_system.Startup.{start}
use google_file_system.State.{Master}
use google_file_system.System.{Event, step, run}
use google_file_system.System.Collection.{
  IsUncollected, IsOrdinary, AllOrdinary, scan_and_collect-chunks,
}
use google_file_system.System.Collection.Step.{step-IsUncollected, reachable-IsUncollected}
use google_file_system.System.Frame.{lease_of}
use google_file_system.System.Invariant.{step-IsOwned, reachable-IsOwned}
use google_file_system.System.Leases.{
  KeepsLease, KeepsLease-refl, KeepsLease-trans, IsHeld, ReadsBefore, IsTested, still_waiting,
  still_waiting-IsHeld,
}
use google_file_system.System.Leases.Step.{step-ScansOrKeeps}
use google_file_system.System.Ownership.{IsOwned}

abbrev pub AllReadBefore : Time → List Event → Type 0
AllReadBefore expiry [] = Unit
AllReadBefore expiry (e ∷ es) = ReadsBefore expiry e × AllReadBefore expiry es

-- Each grant on the chunk comes after a test of its lease, by the same or another request, that found
-- none; at first such a request waits or not.
abbrev pub AllTested :
    (Time → List Address → ℕ → List Address) → Handle → Bool → List Event → Master → Type 0
AllTested sample h waiting [] m = Unit
AllTested sample h waiting (e ∷ es) m =
    IsTested h waiting e × AllTested sample h (still_waiting h e m waiting) es (step sample e m)

module _ (sample : Time → List Address → ℕ → List Address) (h : Handle) (p : Address)
    (expiry : Time) where
  ordinary_step-KeepsLease :
      (e : Event) (m : Master)
      → IsOrdinary e
      → IsOwned m.store
      → IsUncollected m.store
      → IsHeld h p expiry m.store
      → ReadsBefore expiry e
      → IsTested h false e
      → KeepsLease h m.store (step sample e m).store
  unfolding step
  ordinary_step-KeepsLease e m o v u held early tested =
      elim (step-ScansOrKeeps sample h p expiry e m v held early tested) [
        | inl (t, q) ↦
            let (chunks, versions) = scan_and_collect-chunks t m.store u in
            rw q (record {
              lease = ap (λ d. lease_of (Dict.get d h)) chunks;
              version = ap (λ d. get_or (Dict.get d h) 0) versions;
            })
        | inr kept ↦ kept
      ]

  run-KeepsLease :
      (es : List Event) (m : Master)
      → AllOrdinary es
      → IsOwned m.store
      → IsUncollected m.store
      → IsHeld h p expiry m.store
      → AllReadBefore expiry es
      → AllTested sample h false es m
      → KeepsLease h m.store (run sample es m).store
  unfolding run
  run-KeepsLease [] m o v u held early tested = KeepsLease-refl h m.store
  run-KeepsLease (e ∷ es) m o v u held early tested =
      let one = ordinary_step-KeepsLease e m o.0 v u held early.0 tested.0 in
      KeepsLease-trans one (
        run-KeepsLease es (step sample e m) o.1 (step-IsOwned sample e m v)
          (step-IsUncollected sample e m o.0 u) (one.lease ∙ held) early.1
          (subst (λ w. AllTested sample h w es (step sample e m))
            (still_waiting-IsHeld h p expiry e m held early.0) tested.1))

  -- After any history that leaves a chunk under a lease, and through any history that follows, in
  -- which lookups and copies may run in parts between other requests, the primary, the lease's end and
  -- the version stay as they are, while leases are tested before the lease's end, if each grant on
  -- the chunk follows a test of its lease that was made in the second history and found none, and if
  -- no chunk is asked for under a name in the trash.
  pub reachable-KeepsLease :
      (before after : List Event)
      → AllOrdinary before
      → AllOrdinary after
      → IsHeld h p expiry (run sample before (start fresh_log)).store
      → AllReadBefore expiry after
      → AllTested sample h false after (run sample before (start fresh_log))
      → KeepsLease h
          (run sample before (start fresh_log)).store
          (run sample after (run sample before (start fresh_log))).store
  reachable-KeepsLease before after o q held early tested =
      run-KeepsLease after (run sample before (start fresh_log)) q (reachable-IsOwned sample before)
        (reachable-IsUncollected sample before o) held early tested
