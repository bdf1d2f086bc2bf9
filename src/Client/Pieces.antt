-- ===== src/Client/Pieces.antt =====
-- The bytes of a file that lie in its chunks, for `read` of client/gfs_client.py.
use google_file_system.Prelude.{
  Bool-cases, inl, inr, ◌⊎◌, ltb, ℕ, zero, suc, ◌+◌, ◌-◌, ◌*◌, ◌/◌, ◌%◌, ◌≤◌, ◌<◌, ◌≡◌, sym, ap,
  ◌∙◌, List, [], ◌∷◌, ◌++◌, length, length-append, arith,
}
use mathlib.Core.List.{append-nil}
use google_file_system.Bytes.{
  Byte, take, drop, read_at, length-drop, take-append, drop-append, drop-append_le, drop-drop,
}
use google_file_system.Chunkserver.{max_chunk_size}

-- The chunks of a file, one behind the other.
abbrev pub joined : (ℕ → List Byte) → ℕ → List Byte
joined chunk zero = []
joined chunk (suc count) = chunk 0 ++ joined (λ i. chunk (suc i)) count

-- Each chunk but the last is full.
abbrev pub FullBefore : (ℕ → List Byte) → ℕ → Type 0
FullBefore chunk count = (i : ℕ) → suc i < count → length (chunk i) ≡ max_chunk_size

-- An offset lies in the first chunk or behind it.
abbrev IsSmall : ℕ → Type 0
IsSmall o = (o < max_chunk_size) × (o / max_chunk_size ≡ 0) × (o % max_chunk_size ≡ o)

abbrev IsLarge : ℕ → Type 0
IsLarge o =
    (max_chunk_size ≤ o)
    × (o / max_chunk_size ≡ suc ((o - max_chunk_size) / max_chunk_size))
    × (o % max_chunk_size ≡ (o - max_chunk_size) % max_chunk_size)

chunk_cases : (o : ℕ) → IsSmall o ⊎ IsLarge o
chunk_cases o = elim (Bool-cases (ltb o max_chunk_size)) [
  | inl e ↦ inl (ground arith, ground arith, ground arith)
  | inr e ↦ inr (ground arith, ground arith, ground arith)
]

within_first :
    (chunk : ℕ → List Byte) (o m : ℕ)
    → o / max_chunk_size ≡ 0
    → o % max_chunk_size ≡ o
    → read_at o m (chunk 0) ≡ read_at (o % max_chunk_size) m (chunk (o / max_chunk_size))
within_first chunk o m i j =
    sym (ap (λ k. read_at k m (chunk (o / max_chunk_size))) j ∙ ap (λ k. read_at o m (chunk k)) i)

take_split :
    {A : Type 0} (m n : ℕ) (xs : List A)
    → m ≤ n
    → m ≤ length xs
    → take n xs ≡ take m xs ++ take (n - m) (drop m xs)
take_split zero n xs h g = ap (λ k. take k xs) {x = n} {y = n - 0} (omega arith)
take_split (suc m) n [] h g = absurd (omega arith)
take_split (suc m) zero (x ∷ xs) h g = absurd (omega arith)
take_split (suc m) (suc n) (x ∷ xs) h g = ap (◌∷◌ x) (
    take_split m n xs (omega arith) (omega arith)
    ∙ ap (λ k. take m xs ++ take k (drop m xs)) {x = n - m} {y = suc n - suc m} (omega arith))

-- Bytes within one chunk.
pub read_at-joined :
    (chunk : ℕ → List Byte) (count o m : ℕ)
    → FullBefore chunk count
    → o / max_chunk_size < count
    → o % max_chunk_size + m ≤ max_chunk_size
    → read_at o m (joined chunk count) ≡ read_at (o % max_chunk_size) m (chunk (o / max_chunk_size))
read_at-joined chunk zero o m full h g = absurd (omega arith)
read_at-joined chunk (suc zero) o m full h g = elim (chunk_cases o) [
  | inl (_, i, j) ↦ ap (read_at o m) (append-nil (chunk 0)) ∙ within_first chunk o m i j
  | inr (_, i, _) ↦ absurd (omega arith)
]
read_at-joined chunk (suc (suc count)) o m full h g = elim (chunk_cases o) [
  | inl (s, i, j) ↦
      ap (take m) (drop-append_le (chunk 0) rest o (omega (arith, full 0)))
      ∙ take-append (drop o (chunk 0)) rest m (omega (arith, full 0, length-drop o (chunk 0)))
      ∙ within_first chunk o m i j
  | inr (l, i, j) ↦
      let o' = o - max_chunk_size in
      ap (take m) (
        drop-append (chunk 0) rest o (omega (arith, full 0))
        ∙ ap (λ k. drop (o - k) rest) (full 0 (omega arith)))
      ∙ read_at-joined (λ k. chunk (suc k)) (suc count) o' m (λ k b. full (suc k) (omega arith))
          (omega arith) (omega arith)
      ∙ ap (λ k. read_at k m (chunk (suc (o' / max_chunk_size)))) (sym j)
      ∙ ap (λ k. read_at (o % max_chunk_size) m (chunk k)) (sym i)
]
  where
    rest : List Byte
    rest = joined (λ k. chunk (suc k)) (suc count)

-- Bytes, and those behind them, if there are any.
pub read_at_split :
    (o m n : ℕ) (file : List Byte)
    → m ≤ n
    → (m ≡ n) ⊎ (o + m ≤ length file)
    → read_at o n file ≡ read_at o m file ++ read_at (o + m) (n - m) file
read_at_split o m n file h (inl e) =
    ap (λ k. read_at o k file) (sym e)
    ∙ sym (append-nil (read_at o m file))
    ∙ ap (λ k. read_at o m file ++ take k (drop (o + m) file)) {x = 0} {y = n - m} (omega arith)
read_at_split o m n file h (inr g) =
    take_split m n (drop o file) h (omega (arith, length-drop o file))
    ∙ ap (λ t. read_at o m file ++ take (n - m) t) (drop-drop m o file)

-- All chunks but the last one.
pub length-joined :
    (chunk : ℕ → List Byte) (count : ℕ)
    → FullBefore chunk (suc count)
    → count * max_chunk_size ≤ length (joined chunk (suc count))
length-joined chunk zero full = omega arith
length-joined chunk (suc count) full = omega (
  arith,
  full 0,
  length-append (chunk 0) (joined (λ i. chunk (suc i)) (suc count)),
  length-joined (λ i. chunk (suc i)) count (λ i b. full (suc i) (omega arith)),
)
