-- ===== src/Prelude/Lists.antt =====
-- Python lists: measured by native numbers, filtered by Boolean tests, with `remove` and `in`.
use Prim.Native.Nat.{ℕ, zero, suc, ◌+◌}
use mathlib.Core.Path.{◌≡◌, refl}
use mathlib.Core.Logic.{◌≢◌, ◌⊎◌, inl, inr}
use mathlib.Core.Bool.{Bool, false, ◌||◌, ◌&&◌}
use mathlib.Core.List.{List, [], ◌∷◌, ◌++◌}
use mathlib.Core.Option.{Option, none, some}
use native.Mathlib.Omega.{arith}
use google_file_system.Prelude.Equality.{Eq, ◌==◌, contains, if◌then◌else◌}

module _ {ℓ} {A : Type ℓ} where
  abbrev pub length : List A → ℕ
  length [] = 0
  length (x ∷ xs) = suc (length xs)

  abbrev pub get_elem? : List A → ℕ → Option A
  get_elem? [] i = none
  get_elem? (x ∷ xs) zero = some x
  get_elem? (x ∷ xs) (suc i) = get_elem? xs i

  abbrev pub get_or : Option A → A → A
  get_or none d = d
  get_or (some a) d = a

  -- `[x for x in xs if p(x)]`
  abbrev pub keep : (A → Bool) → List A → List A
  keep p [] = []
  keep p (x ∷ xs) = let rest = keep p xs in if p x then x ∷ rest else rest

  pub length-append : (xs ys : List A) → length (xs ++ ys) ≡ length xs + length ys
  length-append [] ys = omega arith
  length-append (x ∷ xs) ys = omega (arith, length-append xs ys)

  pub get_elem?-append_last : (xs : List A) (x : A) → get_elem? (xs ++ x ∷ []) (length xs) ≡ some x
  get_elem?-append_last [] x = refl
  get_elem?-append_last (y ∷ xs) x = get_elem?-append_last xs x

module _ {ℓ} {A : Type ℓ} ⦃e : Eq A⦄ where
  -- `xs.remove(a)`: the first occurrence goes. Every call in the program stands under `a in xs`.
  abbrev pub remove : A → List A → List A
  remove a [] = []
  remove a (x ∷ xs) = if a == x then xs else x ∷ remove a xs

  -- No element stands twice.
  abbrev pub IsDistinct : List A → Type 0
  IsDistinct [] = Unit
  IsDistinct (x ∷ xs) = (contains xs x ≡ false) × IsDistinct xs

  pub contains-append :
      (xs ys : List A) (a : A) → contains (xs ++ ys) a ≡ (contains xs a || contains ys a)
  contains-append [] ys a = refl
  contains-append (x ∷ xs) ys a = ground (arith, contains-append xs ys a)

  pub contains-keep :
      (p : A → Bool) (xs : List A) (a : A) → contains (keep p xs) a ≡ (contains xs a && p a)
  contains-keep p [] a = refl
  contains-keep p (x ∷ xs) a = ground (arith, contains-keep p xs a)

  pub contains-remove_ne :
      (a b : A) (xs : List A) → a ≢ b → contains (remove a xs) b ≡ contains xs b
  contains-remove_ne a b [] h = refl
  contains-remove_ne a b (x ∷ xs) h = ground (arith, contains-remove_ne a b xs h)

  pub contains-remove_self :
      (a : A) (xs : List A) → IsDistinct xs → contains (remove a xs) a ≡ false
  contains-remove_self a [] h = refl
  contains-remove_self a (x ∷ xs) h = ground (arith, contains-remove_self a xs h.1)

  contains-remove_mono :
      (a b : A) (xs : List A) → contains xs b ≡ false → contains (remove a xs) b ≡ false
  contains-remove_mono a b [] h = refl
  contains-remove_mono a b (x ∷ xs) h = ground (arith, contains-remove_mono a b xs)

  pub remove-IsDistinct : (a : A) (xs : List A) → IsDistinct xs → IsDistinct (remove a xs)
  remove-IsDistinct a [] h = tt
  remove-IsDistinct a (x ∷ xs) h =
      ground (arith, remove-IsDistinct a xs h.1, contains-remove_mono a x xs)

  pub append-IsDistinct :
      (a : A) (xs : List A) → contains xs a ≡ false → IsDistinct xs → IsDistinct (xs ++ a ∷ [])
  append-IsDistinct a [] n h = (refl, tt)
  append-IsDistinct a (x ∷ xs) n h =
      ground (arith, append-IsDistinct a xs, contains-append xs (a ∷ []) x)

pub List-cases {ℓ} :
    {A : Type ℓ} (xs : List A) → (xs ≡ []) ⊎ ((x : A) × (rest : List A) × (xs ≡ x ∷ rest))
List-cases [] = inl refl
List-cases (x ∷ rest) = inr (x, rest, refl)
