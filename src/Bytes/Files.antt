-- ===== src/Bytes/Files.antt =====
-- What is read back from a file that was written.
use mathlib.Core.List.{append-nil}
use google_file_system.Prelude.{
  ℕ, ◌+◌, ◌-◌, ◌≤◌, ◌≡◌, ap, ◌∙◌, List, ◌∷◌, ◌++◌, length, length-append, arith,
}
use google_file_system.Bytes.{
  Byte, take, drop, replicate, read_at, write_at, extended, length-take, length-drop,
  length-replicate, take-append, take_all, drop-append, drop_all, drop-append_le, drop-drop,
  drop-take, take-take,
}

length-extended : (offset : ℕ) (file : List Byte) → length (extended offset file) ≡ offset
length-extended offset file = omega (
  arith,
  length-take offset (file ++ replicate (offset - length file) 0),
  length-append file (replicate (offset - length file) 0),
  length-replicate {A = Byte} (offset - length file) 0,
)

module _ (offset : ℕ) (b : Byte) (rest : List Byte) (file : List Byte) where
  abbrev bytes : List Byte
  bytes = b ∷ rest

  abbrev tail : List Byte
  tail = drop (offset + length bytes) file

  drop-write_at :
      (o : ℕ) → offset ≤ o → drop o (write_at offset bytes file) ≡ drop (o - offset) (bytes ++ tail)
  unfolding write_at
  drop-write_at o h =
      drop-append (extended offset file) (bytes ++ tail) o
        (omega (arith, length-extended offset file))
      ∙ ap (λ k. drop (o - k) (bytes ++ tail)) (length-extended offset file)

  -- What was written is read back.
  pub read_at-write_at_self : read_at offset (length bytes) (write_at offset bytes file) ≡ bytes
  read_at-write_at_self =
      ap (take (length bytes)) (drop-write_at offset (omega arith))
      ∙ ap (λ k. take (length bytes) (drop k (bytes ++ tail))) {x = offset - offset} {y = 0}
          (omega arith)
      ∙ take-append bytes tail (length bytes) (omega arith)
      ∙ take_all bytes (length bytes) (omega arith)

  -- Bytes behind those that were written stay.
  pub read_at-write_at_behind :
      (o n : ℕ)
      → offset + length bytes ≤ o
      → read_at o n (write_at offset bytes file) ≡ read_at o n file
  read_at-write_at_behind o n h = ap (take n) (
      drop-write_at o (omega arith)
      ∙ drop-append bytes tail (o - offset) (omega arith)
      ∙ drop-drop (o - offset - length bytes) (offset + length bytes) file
      ∙ ap (λ k. drop k file) {x = offset + length bytes + (o - offset - length bytes)} {y = o}
          (omega arith))

  -- Bytes of the file in front of them stay.
  pub read_at-write_at_before :
      (o n : ℕ)
      → o + n ≤ offset
      → o + n ≤ length file
      → read_at o n (write_at offset bytes file) ≡ read_at o n file
  unfolding write_at
  read_at-write_at_before o n h g =
      ap (take n) (
        drop-append_le (extended offset file) (bytes ++ tail) o
          (omega (arith, length-extended offset file)))
      ∙ take-append (drop o (extended offset file)) (bytes ++ tail) n
          (omega (arith, length-drop o (extended offset file), length-extended offset file))
      ∙ ap (take n) (drop-take o offset zeroed)
      ∙ take-take n (offset - o) (drop o zeroed) (omega arith)
      ∙ ap (take n) (drop-append_le file (replicate (offset - length file) 0) o (omega arith))
      ∙ take-append (drop o file) (replicate (offset - length file) 0) n
          (omega (arith, length-drop o file))
    where
      zeroed : List Byte
      zeroed = file ++ replicate (offset - length file) 0

  pub length-write_at :
      length (write_at offset bytes file)
      ≡ offset + length bytes + (length file - (offset + length bytes))
  unfolding write_at
  length-write_at = omega (
    arith,
    length-append (extended offset file) (bytes ++ tail),
    length-append bytes tail,
    length-extended offset file,
    length-drop (offset + length bytes) file,
  )

  pub write_at-append : length file ≡ offset → write_at offset bytes file ≡ file ++ bytes
  unfolding write_at
  write_at-append h =
      ap (λ e. e ++ (bytes ++ tail))
        (take-append file (replicate (offset - length file) 0) offset (omega arith)
          ∙ take_all file offset (omega arith))
      ∙ ap (λ t. file ++ (bytes ++ t)) (drop_all file (offset + length bytes) (omega arith))
      ∙ ap (λ t. file ++ t) (append-nil bytes)
