-- ===== src/Locks/Balance.antt =====
-- What is acquired is released.
use mathlib.Core.List.{reverse, reverse-cons}
use google_file_system.Prelude.{
  ℕ, ◌+◌, ◌-◌, ◌≡◌, refl, String, List, [], ◌∷◌, ◌++◌, ◌==◌, string_eq, arith, if◌then◌else◌,
  Option-cases, inl, inr,
}
use google_file_system.Dict
use google_file_system.Dict.{get-put}
use google_file_system.Locks.{
  LockTable, held, get_lock, acquire, acquire_all, release, release_each, release_all,
}

occurrences : List String → String → ℕ
occurrences [] k = 0
occurrences (x ∷ xs) k = (if k == x then 1 else 0) + occurrences xs k

occurrences-append :
    (xs ys : List String) (k : String)
    → occurrences (xs ++ ys) k ≡ occurrences xs k + occurrences ys k
unfolding occurrences
occurrences-append [] ys k = omega arith
occurrences-append (x ∷ xs) ys k = omega (arith, occurrences-append xs ys k)

occurrences-reverse :
    (xs : List String) (k : String) → occurrences (reverse xs) k ≡ occurrences xs k
unfolding occurrences
occurrences-reverse [] k = refl
occurrences-reverse (x ∷ xs) k =
    rw (reverse-cons x xs)
      (omega (arith, occurrences-append (reverse xs) (x ∷ []) k, occurrences-reverse xs k))

held-get_lock : (x k : String) (t : LockTable) → held (get_lock x t) k ≡ held t k
unfolding get_lock
held-get_lock x k t = elim (Option-cases (Dict.get t x)) [
  | inl e ↦ rw (e, get_lock) (ground (arith, get-put t x k 0))
  | inr (n, e) ↦ rw (e, get_lock)
]

held-acquire :
    (x k : String) (t : LockTable)
    → held (acquire x (get_lock x t)) k ≡ held t k + (if k == x then 1 else 0)
unfolding acquire
held-acquire x k t =
    ground (arith, get-put (get_lock x t) x k (held (get_lock x t) x + 1), held-get_lock x k t)

held-acquire_all :
    (xs : List String) (k : String) (t : LockTable)
    → held (acquire_all xs t) k ≡ held t k + occurrences xs k
unfolding acquire_all occurrences
held-acquire_all [] k t = omega arith
held-acquire_all (x ∷ xs) k t =
    omega (arith, held-acquire_all xs k (acquire x (get_lock x t)), held-acquire x k t)

held-release :
    (x k : String) (t : LockTable) → held (release x t) k ≡ held t k - (if k == x then 1 else 0)
unfolding release
held-release x k t = ground (arith, get-put t x k (held t x - 1))

held-release_each :
    (xs : List String) (k : String) (t : LockTable)
    → held (release_each xs t) k ≡ held t k - occurrences xs k
unfolding release_each occurrences
held-release_each [] k t = omega arith
held-release_each (x ∷ xs) k t =
    omega (arith, held-release_each xs k (release x t), held-release x k t)

pub held-release_all :
    (xs : List String) (k : String) (t : LockTable)
    → held (release_all xs (acquire_all xs t)) k ≡ held t k
unfolding release_all
held-release_all xs k t = omega (
  arith,
  held-release_each (reverse xs) k (acquire_all xs t),
  held-acquire_all xs k t,
  occurrences-reverse xs k,
)
