-- ===== src/Locks/Threads/Work.antt =====
-- How many steps the threads still have before them.
use google_file_system.Prelude.{
  ℕ, zero, suc, ◌+◌, ◌*◌, ◌≤◌, ◌<◌, ◌≡◌, ◌≢◌, refl, ap, String, [], length, arith, nat_eq,
  ℕ_discrete,
}
use google_file_system.Locks.{lock_keys}
use google_file_system.Locks.Threads.{
  Held, Thread, entering, leaving, acquires, works, releases, Move, Running, set_thread, pick,
  Reach, begins, continues,
}

-- The steps of a thread: it takes each key, runs its body, and releases each key that it took.
abbrev pub work : Thread → ℕ
work (entering keys taken) = 2 * length keys + length taken + 1
work (leaving taken) = length taken

-- `f 0 + … + f (n - 1)`
abbrev pub total : (ℕ → ℕ) → ℕ → ℕ
total f zero = 0
total f (suc n) = f n + total f n

abbrev pub left : ℕ → Running → ℕ
left n s = total (λ i. work (s.threads i)) n

-- The steps of a whole run: for each request twice the number of its locks, and its body.
abbrev pub steps : ℕ → (ℕ → String) → ℕ
steps n paths = total (λ i. 2 * length (lock_keys (paths i)) + 1) n

pub total-≤ : (f : ℕ → ℕ) (n i : ℕ) → i < n → f i ≤ total f n
total-≤ f zero i h = absurd (omega arith)
total-≤ f (suc n) i h = elim (ℕ_discrete i n) [
  | yes e ↦ omega (arith, ap f e)
  | no ne ↦ omega (arith, total-≤ f n i (omega arith))
]

pub total-same : (f g : ℕ → ℕ) (n : ℕ) → ((i : ℕ) → i < n → f i ≡ g i) → total f n ≡ total g n
total-same f g zero h = refl
total-same f g (suc n) h =
    omega (arith, h n (omega arith), total-same f g n (λ i b. h i (omega arith)))

unmoved :
    (threads : ℕ → Thread) (i j : ℕ) (t : Thread) → j ≢ i → set_thread threads i t j ≡ threads j
unmoved threads i j t ne = ground arith

total-set_thread :
    (threads : ℕ → Thread) (i : ℕ) (t : Thread) (n : ℕ)
    → i < n
    → total (λ j. work (set_thread threads i t j)) n + work (threads i)
      ≡ total (λ j. work (threads j)) n + work t
total-set_thread threads i t zero h = absurd (omega arith)
total-set_thread threads i t (suc n) h = elim (ℕ_discrete n i) [
  | yes e ↦
      let others =
        total-same (λ j. work (set_thread threads i t j)) (λ j. work (threads j)) n
          (λ j b. ap work (unmoved threads i j t (omega arith))) in
      grind (arith, others, ap threads e)
  | no ne ↦ grind (arith, total-set_thread threads i t n (omega arith))
]

Move-work :
    {i : ℕ} {held : Held} {before after : Thread} {now : Held}
    → Move i held before now after
    → work before ≡ suc (work after)
Move-work (acquires got) = omega arith
Move-work works = omega arith
Move-work releases = omega arith

pub Reach-left :
    {n : ℕ} {paths : ℕ → String} {k : ℕ} {s : Running}
    → Reach n paths k s
    → k + left n s ≡ steps n paths
Reach-left {n} {paths} begins =
    let same =
      total-same (λ i. work (entering (lock_keys (paths i)) []))
        (λ i. 2 * length (lock_keys (paths i)) + 1) n (λ i b. omega arith) in
    omega (arith, same)
Reach-left {n} (continues {s = s} r (pick i {t = t} below move)) =
    omega (arith, Reach-left r, total-set_thread s.threads i t n below, Move-work move)
