-- ===== src/Dict/Assoc.antt =====
-- The entries behind a dict: an association list in insertion order, a key at most once.
use mathlib.Core.Option
use google_file_system.Prelude.{
  ◌≡◌, refl, ap, Bool, true, false, ◌||◌, Option, none, some, List, [], ◌∷◌, arith, Eq, ◌==◌,
  contains, IsDistinct, if◌then◌else◌,
}

-- Whether a value is there and passes a test.
abbrev pub passes {ℓ} : {V : Type ℓ} → (V → Bool) → Option V → Bool
passes p none = false
passes p (some v) = p v

abbrev pub Entries {ℓ κ} : Type ℓ → Type κ → Type (ℓ ⊔ κ)
Entries K V = List (K × V)

-- Every entry of the list meets the predicate.
abbrev pub All {ℓ κ} : {A : Type ℓ} → (A → Type κ) → List A → Type κ
All P [] = Unit
All P (x ∷ xs) = P x × All P xs

pub All-map {ℓ κ ι} :
    {A : Type ℓ} {P : A → Type κ} {Q : A → Type ι} (xs : List A)
    → ((a : A) → P a → Q a)
    → All P xs
    → All Q xs
All-map [] f h = tt
All-map (x ∷ xs) f h = (f x h.0, All-map xs f h.1)

module _ {ℓ κ} {K : Type ℓ} {V : Type κ} where
  abbrev pub keys : Entries K V → List K
  keys [] = []
  keys ((k, v) ∷ es) = k ∷ keys es

  -- The keys of the entries whose values pass a test, in order.
  abbrev pub keys_where : (V → Bool) → Entries K V → List K
  keys_where p [] = []
  keys_where p ((k, v) ∷ es) = let rest = keys_where p es in if p v then k ∷ rest else rest

  abbrev pub map_values : (V → V) → Entries K V → Entries K V
  map_values f [] = []
  map_values f ((k, v) ∷ es) = (k, f v) ∷ map_values f es

  pub keys-map_values : (f : V → V) (es : Entries K V) → keys (map_values f es) ≡ keys es
  keys-map_values f [] = refl
  keys-map_values f (e ∷ es) = ap (◌∷◌ e.0) (keys-map_values f es)

module _ {ℓ κ} {K : Type ℓ} {V : Type κ} ⦃e : Eq K⦄ where
  abbrev pub lookup : K → Entries K V → Option V
  lookup k [] = none
  lookup k ((j, v) ∷ es) = if k == j then some v else lookup k es

  abbrev pub put : K → V → Entries K V → Entries K V
  put k v [] = (k, v) ∷ []
  put k v ((j, w) ∷ es) = if k == j then (k, v) ∷ es else (j, w) ∷ put k v es

  abbrev pub without : K → Entries K V → Entries K V
  without k [] = []
  without k ((j, w) ∷ es) = let rest = without k es in if k == j then rest else (j, w) ∷ rest

  pub lookup-put :
      (j k : K) (v : V) (es : Entries K V)
      → lookup j (put k v es) ≡ (if j == k then some v else lookup j es)
  lookup-put j k v [] = refl
  lookup-put j k v (x ∷ es) = ground (arith, lookup-put j k v es)

  pub lookup-without :
      (j k : K) (es : Entries K V)
      → lookup j (without k es) ≡ (if j == k then none else lookup j es)
  lookup-without j k [] = ground arith
  lookup-without j k (x ∷ es) = ground (arith, lookup-without j k es)

  pub lookup-map_values :
      (f : V → V) (k : K) (es : Entries K V)
      → lookup k (map_values f es) ≡ Option.map f (lookup k es)
  lookup-map_values f k [] = refl
  lookup-map_values f k (x ∷ es) = ground (arith, lookup-map_values f k es)

  keys-put_ne :
      (j k : K) (v : V) (es : Entries K V)
      → contains (keys (put k v es)) j ≡ (contains (keys es) j || j == k)
  keys-put_ne j k v [] = ground arith
  keys-put_ne j k v (x ∷ es) = ground (arith, keys-put_ne j k v es)

  keys-without :
      (j k : K) (es : Entries K V)
      → contains (keys es) j ≡ false
      → contains (keys (without k es)) j ≡ false
  keys-without j k [] h = refl
  keys-without j k (x ∷ es) h = ground (arith, keys-without j k es)

  pub put-IsDistinct :
      (k : K) (v : V) (es : Entries K V) → IsDistinct (keys es) → IsDistinct (keys (put k v es))
  put-IsDistinct k v [] h = (refl, tt)
  put-IsDistinct k v (x ∷ es) h = ground (arith, put-IsDistinct k v es h.1, keys-put_ne x.0 k v es)

  pub without-IsDistinct :
      (k : K) (es : Entries K V) → IsDistinct (keys es) → IsDistinct (keys (without k es))
  without-IsDistinct k [] h = tt
  without-IsDistinct k (x ∷ es) h =
      ground (arith, without-IsDistinct k es h.1, keys-without x.0 k es)

  lookup-none_of_keys :
      (k : K) (es : Entries K V) → contains (keys es) k ≡ false → lookup k es ≡ none
  lookup-none_of_keys k [] h = refl
  lookup-none_of_keys k (x ∷ es) h = ground (arith, lookup-none_of_keys k es)

  pub contains-keys_where :
      (p : V → Bool) (k : K) (es : Entries K V)
      → IsDistinct (keys es)
      → contains (keys_where p es) k ≡ passes p (lookup k es)
  contains-keys_where p k [] h = refl
  contains-keys_where p k (x ∷ es) h =
      ground (arith, contains-keys_where p k es h.1, lookup-none_of_keys x.0 es h.0)

  keys_where_mono :
      (p : V → Bool) (k : K) (es : Entries K V)
      → contains (keys es) k ≡ false
      → contains (keys_where p es) k ≡ false
  keys_where_mono p k [] h = refl
  keys_where_mono p k (x ∷ es) h = ground (arith, keys_where_mono p k es)

  pub keys_where-IsDistinct :
      (p : V → Bool) (es : Entries K V) → IsDistinct (keys es) → IsDistinct (keys_where p es)
  keys_where-IsDistinct p [] h = tt
  keys_where-IsDistinct p (x ∷ es) h =
      ground (arith, keys_where-IsDistinct p es h.1, keys_where_mono p x.0 es h.0)

  pub contains-keys :
      (k : K) (es : Entries K V) → contains (keys es) k ≡ passes (λ v. true) (lookup k es)
  contains-keys k [] = refl
  contains-keys k (x ∷ es) = ground (arith, contains-keys k es)

  -- Adding one more entry in front does not disturb what the others look up.
  lookup_behind :
      (j : K) (w : V) (ds : Entries K V) (es : Entries K V)
      → contains (keys es) j ≡ false
      → All (λ x. lookup x.0 ds ≡ some x.1) es
      → All (λ x. lookup x.0 ((j, w) ∷ ds) ≡ some x.1) es
  lookup_behind j w ds [] n h = tt
  lookup_behind j w ds (x ∷ es) n h = (ground arith, lookup_behind j w ds es (ground arith) h.1)

  -- Each entry is what its key looks up.
  pub entries-lookup :
      (es : Entries K V) → IsDistinct (keys es) → All (λ x. lookup x.0 es ≡ some x.1) es
  entries-lookup [] h = tt
  entries-lookup (x ∷ es) h =
      (ground arith, lookup_behind x.0 x.1 es es h.0 (entries-lookup es h.1))
