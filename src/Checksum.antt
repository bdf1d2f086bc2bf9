-- ===== src/Checksum.antt =====
-- chunkserver/checksum.cpp: the CRC-32 of a block, and the checksums of each chunk, in memory and in
-- a file. A file of 32-bit words is the list of them. A block index is not negative.
pub mod Laws
use Prim.Native.Nat.{bit_and, bit_xor, ◌^◌}
use google_file_system.Prelude.{
  ℕ, zero, suc, ◌+◌, ◌-◌, ◌/◌, ◌%◌, ◌≡◌, refl, Bool, true, false, List, [], ◌∷◌, ◌++◌, Option, none,
  some, length, get_elem?, get_or, leb, ltb, ◌==◌, nat_eq, if◌then◌else◌,
}
use google_file_system.Bytes.{Byte, replicate}
use google_file_system.Dict
use google_file_system.Dict.{Dict}
use google_file_system.Metadata.{Handle}

-- `(crc >> 1) ^ (0xEDB88320 & (-(crc & 1)))` on `uint32_t`
crc_bit : ℕ → ℕ
crc_bit crc = bit_xor (crc / 2) (bit_and 0xedb88320 ((2 ^ 32 - bit_and crc 1) % 2 ^ 32))

-- The inner loop, for so many rounds.
crc_bits : ℕ → ℕ → ℕ
crc_bits zero crc = crc
crc_bits (suc rounds) crc = crc_bits rounds (crc_bit crc)

crc_bytes : List Byte → ℕ → ℕ
crc_bytes [] crc = crc
crc_bytes (byte ∷ rest) crc = crc_bytes rest (crc_bits 8 (bit_xor crc byte))

unfoldable pub compute : List Byte → ℕ
unfolding crc_bytes crc_bits crc_bit
compute bytes = 2 ^ 32 - 1 - crc_bytes bytes 0xffffffff

pub record ChecksumStore : Type 0 where
  pub disk : Dict Handle (List ℕ)
  pub cache : Dict Handle (List ℕ)

-- An empty entry if there is no file either.
unfoldable pub load_from_disk_if_needed : Handle → ChecksumStore → ChecksumStore
load_from_disk_if_needed handle s =
    if Dict.has s.cache handle
    then s
    else record s { cache = Dict.put s.cache handle (get_or (Dict.get s.disk handle) []) }

abbrev pub cached : ChecksumStore → Handle → List ℕ
cached s handle = get_or (Dict.get s.cache handle) []

-- `resize(count, 0)`, to no smaller size.
abbrev pub resized : ℕ → List ℕ → List ℕ
resized count xs = xs ++ replicate (count - length xs) 0

-- `xs[i] = x`
abbrev pub set : List ℕ → ℕ → ℕ → List ℕ
set [] i x = []
set (y ∷ ys) zero x = x ∷ ys
set (y ∷ ys) (suc i) x = y ∷ set ys i x

unfoldable pub save_to_disk : Handle → ChecksumStore → ChecksumStore
save_to_disk handle s = record s { disk = Dict.put s.disk handle (cached s handle) }

unfoldable pub update : Handle → ℕ → ℕ → ChecksumStore → ChecksumStore
unfolding load_from_disk_if_needed save_to_disk
update handle block_index checksum s =
    let loaded = load_from_disk_if_needed handle s in
    save_to_disk handle (record loaded {
      cache =
          Dict.put loaded.cache handle
            (set (resized (block_index + 1) (cached loaded handle)) block_index checksum);
    })

-- The test comes back beside the state, whose cache may be filled by it.
unfoldable pub verify : Handle → ℕ → List Byte → ChecksumStore → Bool × ChecksumStore
unfolding load_from_disk_if_needed
verify handle block_index block s =
    let loaded = load_from_disk_if_needed handle s in
    (
      elim (get_elem? (cached loaded handle) block_index) [
        | none ↦ false
        | some stored ↦ stored == compute block
      ],
      loaded,
    )

-- The check value of CRC-32: of the digits 1 to 9.
compute_example :
    compute (0x31 ∷ 0x32 ∷ 0x33 ∷ 0x34 ∷ 0x35 ∷ 0x36 ∷ 0x37 ∷ 0x38 ∷ 0x39 ∷ []) ≡ 0xcbf43926
unfolding compute
compute_example = refl
