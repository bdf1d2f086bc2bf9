-- ===== src/Locks/Threads/Progress.antt =====
-- The threads block neither each other nor, in the body, run twice under one lock.
use Prim.Native.String.{count as chars}
use google_file_system.Prelude.{
  ℕ, zero, suc, ◌+◌, ◌≤◌, ◌<◌, ◌≡◌, ◌≢◌, refl, sym, ap, subst, String, true, none, List, [], ◌∷◌,
  inl, inr, Option-cases, contains, arith, nat_eq, string_eq, ℕ_discrete,
}
use google_file_system.Locks.{lock_keys}
use google_file_system.Locks.Threads.{
  Held, take_lock, Thread, entering, leaving, Move, acquires, works, releases, Running, set_thread,
  Step, pick, Reach, continues,
}
use google_file_system.Locks.Threads.Invariant.{
  top, IsOrdered, IsFor, taken_by, once, IsLocked, Falling-contains,
}
use google_file_system.Locks.Threads.Preserved.{Reach-IsLocked}
use google_file_system.Locks.Threads.Work.{work, total, steps, total-≤, Reach-left}

abbrev pub CanStep : ℕ → Running → Type 0
CanStep n s = (t : Running) × Step n s t

able :
    {n : ℕ} {s : Running} {i : ℕ} {before after : Thread} {held : Held}
    → i < n
    → s.threads i ≡ before
    → Move i s.held before held after
    → CanStep n s
able {s = s} {i} {before} {after} {held} below here move = (
  record { held = held; threads = set_thread s.threads i after },
  pick i below (subst (λ t. Move i s.held t held after) (sym here) move),
)

-- The lengths of the keys that a thread still has to take.
ahead : List String → ℕ
ahead [] = 0
ahead (key ∷ keys) = chars key + ahead keys

waits : Thread → ℕ
unfolding ahead
waits (entering keys taken) = ahead keys
waits (leaving taken) = 0

taken-low :
    (t : Thread) (key : String)
    → IsOrdered t
    → contains (taken_by t) key ≡ true
    → chars key ≤ top (taken_by t)
taken-low (entering keys taken) key o h = Falling-contains taken key o.1 h
taken-low (leaving taken) key o h = Falling-contains taken key o h

taken-busy : (t : Thread) (key : String) → contains (taken_by t) key ≡ true → 0 < work t
taken-busy (entering keys taken) key h = omega arith
taken-busy (leaving []) key h = absurd cc
taken-busy (leaving (k ∷ taken)) key h = omega arith

-- A thread that waits is held up by one that waits for a longer key, or that can go on.
chase :
    {n : ℕ} {paths : ℕ → String} {s : Running}
    → IsLocked n paths s
    → (fuel i : ℕ) (t : Thread) → i < n
    → s.threads i ≡ t
    → 0 < work t
    → (key : String) → chars key ≤ top (taken_by t)
    → total (λ j. waits (s.threads j)) n ≤ chars key + fuel
    → CanStep n s
unfolding waits ahead
chase inv fuel i (leaving []) below here busy key low enough = absurd (omega arith)
chase inv fuel i (leaving (k ∷ taken)) below here busy key low enough = able below here releases
chase inv fuel i (entering [] taken) below here busy key low enough = able below here works
chase {n} {s = s} inv zero i (entering (k ∷ keys) taken) below here busy key low enough =
    let ((above, _), _) = subst IsOrdered here (inv.ordered i) in
    let mine = total-≤ (λ j. waits (s.threads j)) n i below in
    absurd (omega (arith, ap waits here, mine))
chase {n} {s = s} inv (suc fuel) i (entering (k ∷ keys) taken) below here busy key low enough =
    let ((above, _), _) = subst IsOrdered here (inv.ordered i) in
    elim (Option-cases (s.held k)) [
      | inl free ↦ able below here (acquires {hold = once i} (ap (take_lock i) free))
      | inr (hold, e) ↦
          let (small, _, has) = inv.owner k hold e in
          let next = s.threads hold.owner in
          let near = taken-low next k (inv.ordered hold.owner) has in
          chase inv fuel hold.owner next small refl (taken-busy next k has) k near
            (omega (arith, low, enough))
    ]

some-left : (f : ℕ → ℕ) (n : ℕ) → 0 < total f n → (i : ℕ) × (i < n) × (0 < f i)
some-left f zero h = absurd (omega arith)
some-left f (suc n) h = elim (ℕ_discrete (f n) 0) [
  | yes e ↦ let (i, below, positive) = some-left f n (omega arith) in (i, omega arith, positive)
  | no ne ↦ (n, omega arith, omega arith)
]

-- The handlers do not block each other: where `n` of them, each with any path, have taken fewer
-- steps together than all their locks and bodies need, one of them can go on.
pub no_deadlock :
    {n : ℕ} {paths : ℕ → String} {k : ℕ} {s : Running}
    → Reach n paths k s
    → k < steps n paths
    → CanStep n s
unfolding waits ahead
no_deadlock {n} {s = s} r more =
    let (i, below, busy) = some-left (λ j. work (s.threads j)) n (omega (arith, Reach-left r)) in
    let fuel = total (λ j. waits (s.threads j)) n in
    chase (Reach-IsLocked r) fuel i (s.threads i) below refl busy "" (omega arith) (omega arith)

-- While a handler runs its body, no other handler that needs one of its locks is in its own body.
pub mutual_exclusion :
    {n : ℕ} {paths : ℕ → String} {k : ℕ} {s : Running} {mine : List String} (i j : ℕ) (key : String)
    (yours : List String)
    → Reach n paths k s
    → i ≢ j
    → s.threads i ≡ entering [] mine
    → contains (lock_keys (paths i)) key ≡ true
    → contains (lock_keys (paths j)) key ≡ true
    → s.threads j ≢ entering [] yours
mutual_exclusion {paths = paths} {s = s} i j key yours r differ here first second there =
    let inv = Reach-IsLocked r in
    let all = subst (IsFor (lock_keys (paths i))) here (inv.keys i) in
    let rest = subst (IsFor (lock_keys (paths j))) there (inv.keys j) in
    grind (
      arith,
      all key,
      rest key,
      inv.owned i key,
      inv.owned j key,
      ap taken_by here,
      ap taken_by there,
    )

-- How a run ends.
pub record IsFinished (n : ℕ) (s : Running) : Type 0 where
  pub done : (i : ℕ) → i < n → s.threads i ≡ leaving []
  pub free : (key : String) → s.held key ≡ none
  pub last : (t : Running) → ¬ Step n s t

no-work : (t : Thread) → work t ≡ 0 → t ≡ leaving []
no-work (entering keys taken) h = absurd (omega arith)
no-work (leaving []) h = refl
no-work (leaving (key ∷ taken)) h = absurd (omega arith)

not-more : {n k : ℕ} {paths : ℕ → String} {s : Running} → Reach n paths k s → k ≤ steps n paths
not-more r = omega (arith, Reach-left r)

-- However the handlers run, once they have taken as many steps as all their locks and bodies need,
-- each of them has returned, every lock is free and nothing more can happen.
pub run-IsFinished :
    {n : ℕ} {paths : ℕ → String} {s : Running} → Reach n paths (steps n paths) s → IsFinished n s
run-IsFinished {n} {s = s} r =
    let inv = Reach-IsLocked r in
    let done : (i : ℕ) → i < n → s.threads i ≡ leaving [] = λ i b.
      no-work (s.threads i)
        (omega (arith, Reach-left r, total-≤ (λ j. work (s.threads j)) n i b)) in
    record {
      done = done;
      free = λ key. elim (Option-cases (s.held key)) [
        | inl e ↦ e
        | inr (hold, e) ↦
            let (small, _, has) = inv.owner key hold e in
            absurd (cc (ap taken_by (done hold.owner small), has))
      ];
      last = λ t step. absurd (omega (arith, not-more (continues r step)));
    }
