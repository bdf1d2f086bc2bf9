-- ===== src/Locks/Threads/Preserved.antt =====
-- Every step keeps what holds of the locks and the threads.
use google_file_system.Prelude.{
  ℕ, ◌<◌, ◌≡◌, refl, sym, ap, ◌∙◌, subst, String, none, some, List, [], ◌∷◌, arith, nat_eq,
  string_eq, ℕ_discrete,
}
use google_file_system.Locks.{lock_keys}
use google_file_system.Locks.Threads.{
  Held, give_back, Thread, entering, leaving, assign, Move, acquires, works, releases, Running,
  set_thread, pick, Reach, begins, continues,
}
use google_file_system.Locks.Threads.Invariant.{
  IsOrdered, taken_by, IsFor, once, IsLocked, was-free, not-again, init-IsLocked,
}

set_thread-all :
    (P : ℕ → Thread → Type 0) (threads : ℕ → Thread) (i : ℕ) (t : Thread)
    → P i t
    → ((j : ℕ) → P j (threads j))
    → (j : ℕ) → P j (set_thread threads i t j)
set_thread-all P threads i t new old j = elim (ℕ_discrete j i) [
  | yes e ↦
      let moved : t ≡ set_thread threads i t j = ground arith in
      subst (P j) moved (subst (λ k. P k t) (sym e) new)
  | no n ↦
      let same : threads j ≡ set_thread threads i t j = ground arith in subst (P j) same (old j)
]

acquires-IsLocked :
    {n : ℕ} {paths : ℕ → String} {s : Running} (i : ℕ) (key : String) (keys taken : List String)
    → i < n
    → IsLocked n paths s
    → s.threads i ≡ entering (key ∷ keys) taken
    → s.held key ≡ none
    → IsLocked n paths (record {
      held = assign s.held key (some (once i));
      threads = set_thread s.threads i (entering keys (key ∷ taken));
    })
acquires-IsLocked {paths = paths} {s = s} i key keys taken below inv here free =
    let ((above, rising), falling) = subst IsOrdered here (inv.ordered i) in
    let for = subst (IsFor (lock_keys (paths i))) here (inv.keys i) in
    record {
      ordered =
          set_thread-all (λ j. IsOrdered) s.threads i (entering keys (key ∷ taken))
            (rising, (above, falling)) inv.ordered;
      keys =
          set_thread-all (λ j. IsFor (lock_keys (paths j))) s.threads i
            (entering keys (key ∷ taken)) (λ k. grind (arith, for k)) inv.keys;
      owned = λ j k h. grind (arith, inv.owned j k);
      owner = λ k hold h. grind (arith, inv.owner k hold);
    }

works-IsLocked :
    {n : ℕ} {paths : ℕ → String} {s : Running} (i : ℕ) (taken : List String)
    → IsLocked n paths s
    → s.threads i ≡ entering [] taken
    → IsLocked n paths (record { held = s.held; threads = set_thread s.threads i (leaving taken) })
works-IsLocked {paths = paths} {s = s} i taken inv here =
    let falling = (subst IsOrdered here (inv.ordered i)).1 in
    record {
      ordered = set_thread-all (λ j. IsOrdered) s.threads i (leaving taken) falling inv.ordered;
      keys =
          set_thread-all (λ j. IsFor (lock_keys (paths j))) s.threads i (leaving taken) tt inv.keys;
      owned = λ j k h. grind (arith, inv.owned j k, ap taken_by here);
      owner = λ k hold h. grind (arith, inv.owner k hold, ap taken_by here);
    }

releases-IsLocked :
    {n : ℕ} {paths : ℕ → String} {s : Running} (i : ℕ) (key : String) (taken : List String)
    → IsLocked n paths s
    → s.threads i ≡ leaving (key ∷ taken)
    → IsLocked n paths (record {
      held = assign s.held key (give_back (s.held key));
      threads = set_thread s.threads i (leaving taken);
    })
releases-IsLocked {paths = paths} {s = s} i key taken inv here =
    let (above, falling) = subst IsOrdered here (inv.ordered i) in
    let all = ap taken_by here in
    let mine : s.held key ≡ some (once i) = inv.owned i key (grind arith) in
    let free : give_back (s.held key) ≡ none = ap give_back mine ∙ ground arith in
    let once_only = not-again key taken (above, falling) in
    record {
      ordered = set_thread-all (λ j. IsOrdered) s.threads i (leaving taken) falling inv.ordered;
      keys =
          set_thread-all (λ j. IsFor (lock_keys (paths j))) s.threads i (leaving taken) tt inv.keys;
      owned = λ j k h. grind (arith, inv.owned j k, all);
      owner = λ k hold h. grind (arith, inv.owner k hold, all);
    }

Move-IsLocked :
    {n : ℕ} {paths : ℕ → String} {s : Running} (i : ℕ) {before after : Thread} {held : Held}
    → i < n
    → IsLocked n paths s
    → s.threads i ≡ before
    → Move i s.held before held after
    → IsLocked n paths (record { held = held; threads = set_thread s.threads i after })
Move-IsLocked {n} {paths} {s} i below inv here (acquires {key} {keys} {taken} {hold} got) =
    let (free, mine) = was-free i key keys taken hold inv here got in
    subst
      (λ h. IsLocked n paths (record {
        held = assign s.held key (some h);
        threads = set_thread s.threads i (entering keys (key ∷ taken));
      }))
      (sym mine) (acquires-IsLocked i key keys taken below inv here free)
Move-IsLocked i below inv here (works {taken}) = works-IsLocked i taken inv here
Move-IsLocked i below inv here (releases {key} {taken}) = releases-IsLocked i key taken inv here

pub Reach-IsLocked :
    {n : ℕ} {paths : ℕ → String} {k : ℕ} {s : Running} → Reach n paths k s → IsLocked n paths s
Reach-IsLocked {n} {paths} begins = init-IsLocked n paths
Reach-IsLocked (continues r (pick i below move)) =
    Move-IsLocked i below (Reach-IsLocked r) refl move
