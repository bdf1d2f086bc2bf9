-- ===== src/Storage.antt =====
-- chunkserver/storage.cpp: the chunk files of a data directory, and the versions that the process
-- remembers. A file is the bytes that it holds, under the handle that its name spells. Files stay
-- below 2 GB, where `static_cast<int32_t>` keeps the size.
pub mod Laws
use google_file_system.Prelude.{
  ℕ, List, [], ◌++◌, Option, none, some, Outcome, returned, raised, failure, length, get_or, nat_eq,
}
use google_file_system.Bytes.{Byte, read_at, write_at}
use google_file_system.Dict
use google_file_system.Dict.{Dict}
use google_file_system.Metadata.{Handle}

pub record ChunkStorage : Type 0 where
  pub files : Dict Handle (List Byte)
  pub versions : Dict Handle ℕ

-- What a file holds; a file that is not there is empty.
abbrev pub contents : ChunkStorage → Handle → List Byte
contents s handle = get_or (Dict.get s.files handle) []

unfoldable pub read : Handle → ℕ → ℕ → ChunkStorage → Outcome (List Byte)
read handle offset count s = elim (Dict.get s.files handle) [
  | none ↦ raised (failure "Chunk not found")
  | some file ↦ returned (read_at offset count file)
]

-- The file is made if it is not there.
unfoldable pub write : Handle → ℕ → List Byte → ChunkStorage → ChunkStorage
write handle offset bytes s = record s {
  files = Dict.put s.files handle (write_at offset bytes (contents s handle));
}

unfoldable pub get_size : Handle → ChunkStorage → ℕ
get_size handle s = length (contents s handle)

-- The offset of the new bytes comes back beside the state.
unfoldable pub append : Handle → List Byte → ChunkStorage → ℕ × ChunkStorage
unfolding get_size
append handle bytes s =
    (get_size handle s, record s { files = Dict.put s.files handle (contents s handle ++ bytes) })

unfoldable pub remove : Handle → ChunkStorage → ChunkStorage
remove handle s = record s {
  files = Dict.remove_key s.files handle;
  versions = Dict.remove_key s.versions handle;
}

-- The directory's order is that of the dict.
unfoldable pub list_all : ChunkStorage → List Handle
list_all s = Dict.keys s.files

unfoldable pub set_version : Handle → ℕ → ChunkStorage → ChunkStorage
set_version handle version s = record s { versions = Dict.put s.versions handle version }

unfoldable pub get_version : Handle → ChunkStorage → ℕ
get_version handle s = get_or (Dict.get s.versions handle) 0
