-- ===== src/Storage/Laws.antt =====
-- What a chunk holds after it was written.
use google_file_system.Prelude.{
  ℕ, ◌<◌, ◌≡◌, List, [], ◌∷◌, true, returned, Option-cases, inl, inr, ap, get_or, length, arith,
  nat_eq, ◌==◌, if◌then◌else◌,
}
use google_file_system.Bytes.{Byte, write_at}
use google_file_system.Bytes.Files.{read_at-write_at_self}
use google_file_system.Dict
use google_file_system.Dict.{has, get-put}
use google_file_system.Metadata.{Handle}
use google_file_system.Storage.{ChunkStorage, contents, read, write, set_version}

pub contents-write :
    (h k : Handle) (offset : ℕ) (bytes : List Byte) (s : ChunkStorage)
    → contents (write h offset bytes s) k
      ≡ (if k == h then write_at offset bytes (contents s h) else contents s k)
unfolding write
contents-write h k offset bytes s =
    ground (arith, get-put s.files h k (write_at offset bytes (contents s h)))

-- What was written is what is read there.
pub read-write :
    (h : Handle) (offset version : ℕ) (bytes : List Byte) (s : ChunkStorage)
    → 0 < length bytes
    → read h offset (length bytes) (set_version h version (write h offset bytes s)) ≡ returned bytes
unfolding read write set_version
read-write h offset version [] s l = absurd (omega arith)
read-write h offset version (b ∷ rest) s l = ground (
  arith,
  get-put s.files h h (write_at offset (b ∷ rest) (contents s h)),
  read_at-write_at_self offset b rest (contents s h),
)

-- A file that holds a byte is there.
pub has-contents :
    (h : Handle) (s : ChunkStorage) → 0 < length (contents s h) → has s.files h ≡ true
has-contents h s l = elim (Option-cases (Dict.get s.files h)) [
  | inl e ↦ absurd (omega (arith, ap (λ o. length (get_or o [])) e))
  | inr (file, e) ↦ ground arith
]
