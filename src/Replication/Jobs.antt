-- ===== src/Replication/Jobs.antt =====
-- The priority queue: `put` keeps it in the order of the tuples, and adds the job and no other.
use mathlib.Core.List.Perm
use mathlib.Core.List.{Perm}
use google_file_system.Prelude.{
  ℕ, ◌≤◌, ◌<◌, ◌≡◌, ◌⊎◌, true, false, List, [], ◌∷◌, inl, inr, Bool-cases, arith, nat_eq,
}
use google_file_system.Metadata.{Handle}
use google_file_system.Replication.{put_job, tuple_le}

abbrev pub Job : Type 0
Job = ℕ × Handle

-- The order of the tuples, as numbers.
abbrev pub ComesFirst : Job → Job → Type 0
ComesFirst (p, h) (q, k) = (p < q) ⊎ ((p ≡ q) × (h ≤ k))

-- Each job comes before all that follow it.
abbrev pub IsOrdered : List Job → Type 0
IsOrdered [] = Unit
IsOrdered (j ∷ []) = Unit
IsOrdered (j ∷ k ∷ js) = ComesFirst j k × IsOrdered (k ∷ js)

tuple_le-ComesFirst : (j k : Job) → tuple_le j k ≡ true → ComesFirst j k
tuple_le-ComesFirst (p, h) (q, k) e = ground arith

ComesFirst-of_not : (j k : Job) → tuple_le j k ≡ false → ComesFirst k j
ComesFirst-of_not (p, h) (q, k) e = ground arith

-- A queue in order is in order after a `put`, and holds the job that was put and those that it
-- held, each as often as before.
pub put_job-IsOrdered :
    (j : Job) (q : List Job) → IsOrdered q → IsOrdered (put_job j q) × Perm (put_job j q) (j ∷ q)
unfolding put_job
put_job-IsOrdered j [] o = (tt, Perm.refl (j ∷ []))
put_job-IsOrdered j (k ∷ []) o = elim (Bool-cases (tuple_le j k)) [
  | inl e ↦ rw e ((tuple_le-ComesFirst j k e, tt), Perm.refl (j ∷ k ∷ []))
  | inr e ↦ rw e ((ComesFirst-of_not j k e, tt), Perm.swap j k [])
]
put_job-IsOrdered j (k ∷ l ∷ q) o =
    let (later, same) = put_job-IsOrdered j (l ∷ q) o.1 in
    let rest = Perm.trans (Perm.cons k same) (Perm.swap j k (l ∷ q)) in
    elim (Bool-cases (tuple_le j k)) [
      | inl e ↦ rw e ((tuple_le-ComesFirst j k e, o), Perm.refl (j ∷ k ∷ l ∷ q))
      | inr e ↦ rw e (elim (Bool-cases (tuple_le j l)) [
        | inl f ↦ rw f ((ComesFirst-of_not j k e, (tuple_le-ComesFirst j l f, o.1)), rw f at rest)
        | inr f ↦ rw f ((o.0, rw f at later), rw f at rest)
      ])
    ]
