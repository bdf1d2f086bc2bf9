-- ===== src/Prelude/Int.antt =====
-- Signed integers over the native numbers: the chunk index of a request, and Python's indexing.
use Prim.Native.Nat.{ℕ, suc, ◌-◌}
use mathlib.Core.List.{List}
use mathlib.Core.Option.{Option, none}
use mathlib.Core.Path.{ap}
use mathlib.Core.Logic.{dite}
use native.Mathlib.Decide.{ℕ_discrete}
use google_file_system.Prelude.Equality.{ltb, Eq, if◌then◌else◌}
use google_file_system.Prelude.Lists.{length, get_elem?}

-- `negsuc n` is -(n + 1).
pub data ℤ : Type 0 where
  pos : ℕ → ℤ
  negsuc : ℕ → ℤ

-- `xs[i]`: a negative index counts from the end. `none` stands for an IndexError.
abbrev pub index_list {ℓ} : {A : Type ℓ} → List A → ℤ → Option A
index_list xs (pos i) = get_elem? xs i
index_list xs (negsuc n) = if ltb n (length xs) then get_elem? xs (length xs - suc n) else none

abbrev magnitude : ℤ → ℕ
magnitude (pos a) = a
magnitude (negsuc a) = a

int_dec : Discrete ℤ
int_dec (pos a) (pos b) =
    dite (ℕ_discrete a b) (λ p. yes (ap pos p)) (λ n. no (λ q. n (ap magnitude q)))
int_dec (negsuc a) (negsuc b) =
    dite (ℕ_discrete a b) (λ p. yes (ap negsuc p)) (λ n. no (λ q. n (ap magnitude q)))
int_dec (pos a) (negsuc b) = no (λ q. cc)
int_dec (negsuc a) (pos b) = no (λ q. cc)

instance unfoldable pub int_eq : Eq ℤ
unfolding int_dec
int_eq = record { dec = int_dec }
