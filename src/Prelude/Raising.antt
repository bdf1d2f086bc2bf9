-- ===== src/Prelude/Raising.antt =====
-- Methods that change an object and may raise. What was written before a raise stays written, so
-- the state comes back beside the exception too.
use Prim.Native.String.{String}
use mathlib.Core.Bool.{Bool, true, false}
use mathlib.Core.Logic.{◌⊎◌, inl, inr}
use mathlib.Core.Option.{Option, none, some}
use mathlib.Core.Path.{◌≡◌, refl}

-- The exceptions of the program: a gRPC abort with its status, and Python's own; and a loop of a
-- model that has run out of fuel.
pub data Fault : Type 0 where
  not_found unavailable : String → Fault
  key_error index_error attribute_error type_error : Fault
  rpc_error out_of_fuel : Fault
  failure : String → Fault

pub data Outcome {ℓ} (A : Type ℓ) : Type ℓ where
  returned : A → Outcome A
  raised : Fault → Outcome A

abbrev pub Exec {ℓ} : Type ℓ → Type ℓ → Type ℓ
Exec S A = S → Outcome A × S

module _ {ℓ} {S A B : Type ℓ} where
  -- The rest of a block after a part that ended in this way.
  abbrev pub continue_with : (A → Exec S B) → Outcome A × S → Outcome B × S
  continue_with f (returned a, s) = f a s
  continue_with f (raised x, s) = (raised x, s)

  infixl 10 ◌>>=◌ ◌>>◌
  abbrev pub ◌>>=◌ : Exec S A → (A → Exec S B) → Exec S B
  ◌>>=◌ m f s = continue_with f (m s)

  abbrev pub ◌>>◌ : Exec S A → Exec S B → Exec S B
  m >> n = m >>= λ _. n

module _ {ℓ} {S A : Type ℓ} where
  abbrev pub pure : A → Exec S A
  pure a s = (returned a, s)

  abbrev pub raise : Fault → Exec S A
  raise x s = (raised x, s)

  abbrev pub gets : (S → A) → Exec S A
  gets f s = (returned (f s), s)

  -- `d[k]`: the value, or the exception when it is missing.
  abbrev pub or_raise : Option A → Fault → Exec S A
  or_raise none x = raise x
  or_raise (some a) x = pure a

-- The ways in which a test that may raise can end.
pub test_cases :
    (r : Outcome Bool)
    → ((x : Fault) × (r ≡ raised x)) ⊎ ((r ≡ returned true) ⊎ (r ≡ returned false))
test_cases (raised x) = inl (x, refl)
test_cases (returned true) = inr (inl refl)
test_cases (returned false) = inr (inr refl)

-- What a block leaves behind: a property of the state that each part keeps.
pub bind-keeps {ℓ κ} :
    {S A B : Type ℓ} (P : S → Type κ) (m : Exec S A) (f : A → Exec S B) (s : S)
    → P (m s).1
    → ((a : A) (t : S) → P t → P (f a t).1)
    → P ((m >>= f) s).1
bind-keeps {S} {A} P m f s h k = go (m s) h
  where
    go : (r : Outcome A × S) → P r.1 → P (continue_with f r).1
    go (returned a, t) p = k a t p
    go (raised x, t) p = p

-- A block whose later part only reads.
pub bind-state {ℓ} :
    {S A B : Type ℓ} (m : Exec S A) (f : A → Exec S B) (s : S)
    → ((a : A) (t : S) → (f a t).1 ≡ t)
    → ((m >>= f) s).1 ≡ (m s).1
bind-state {S} {A} m f s k = go (m s)
  where
    go : (r : Outcome A × S) → (continue_with f r).1 ≡ r.1
    go (returned a, t) = k a t
    go (raised x, t) = refl
