-- ===== src/Chunkserver/Replicas.antt =====
-- What the servers of a chain hold after a write that was acknowledged (`ForwardWrite` and
-- `WriteChunk` of chunkserver/main.cpp).
use google_file_system.Bytes.{Byte, take, drop, replicate, write_at}
use google_file_system.Chunkserver.{
  ChunkServer, Cluster, WriteRequest, written, push, commit, apply_write,
}
use google_file_system.Chunkserver.ReadBack.{commit-push, contents-commit}
use google_file_system.Chunkserver.Copies.{get_version-commit}
use google_file_system.Chunkserver.Writes.{push_and_commit, push_and_commit-Replicated}
use google_file_system.Dict
use google_file_system.Dict.{get-put}
use google_file_system.Metadata.{Address, Handle}
use google_file_system.Prelude.{
  ◌+◌, ◌-◌, ◌≡◌, ◌≢◌, refl, ◌∙◌, true, false, some, List, [], ◌∷◌, ◌++◌, contains, IsDistinct,
  returned, length, arith, nat_eq, string_eq, ℕ,
}
use google_file_system.Storage
use google_file_system.Storage.{contents, get_version, set_version}

-- A file with bytes put in at an offset: a gap behind its end is zeros, and what lies behind the
-- bytes stays.
abbrev pub overwritten : ℕ → List Byte → List Byte → List Byte
overwritten offset [] file = file
overwritten offset (b ∷ bytes) file =
    take offset (file ++ replicate (offset - length file) 0)
    ++ ((b ∷ bytes) ++ drop (offset + length (b ∷ bytes)) file)

write_at-overwritten :
    (offset : ℕ) (bytes file : List Byte)
    → write_at offset bytes file ≡ overwritten offset bytes file
unfolding write_at
write_at-overwritten offset [] file = refl
write_at-overwritten offset (b ∷ bytes) file = refl

contents-commit_ne :
    (req : WriteRequest) (s : ChunkServer) (k : Handle)
    → k ≢ req.chunk_handle
    → contents (commit req (push req s)).1.storage k ≡ contents s.storage k
unfolding apply_write push set_version Storage.write
contents-commit_ne req s k n = rw (commit-push req s) (
    ground (
      arith,
      get-put s.storage.files req.chunk_handle k
          (write_at req.offset req.payload (contents s.storage req.chunk_handle)),
    ))

-- A server that made a write: the chunk holds the bytes at the offset, at the version of the
-- request, and no other chunk changed.
pub record IsWritten (req : WriteRequest) (s t : ChunkServer) : Type 0 where
  pub file :
      contents t.storage req.chunk_handle
      ≡ overwritten req.offset req.payload (contents s.storage req.chunk_handle)
  pub version : get_version req.chunk_handle t.storage ≡ req.chunk_version
  pub other_chunks :
      (k : Handle) → k ≢ req.chunk_handle → contents t.storage k ≡ contents s.storage k

-- Every server of a list made the write, and no other changed.
pub record AllWritten (xs : List Address) (req : WriteRequest) (c d : Cluster) : Type 0 where
  pub at :
      (b : Address)
      → contains xs b ≡ true
      → (s t : ChunkServer) × (Dict.get c b ≡ some s) × (Dict.get d b ≡ some t) × IsWritten req s t
  pub elsewhere : (b : Address) → contains xs b ≡ false → Dict.get d b ≡ Dict.get c b

commit-IsWritten :
    (req : WriteRequest) (s : ChunkServer) → IsWritten req s (commit req (push req s)).1
commit-IsWritten req s = record {
  file =
      contents-commit req s
      ∙ write_at-overwritten req.offset req.payload (contents s.storage req.chunk_handle);
  version = get_version-commit req s;
  other_chunks = contents-commit_ne req s;
}

-- If a primary and its secondaries are all different, then a write that is acknowledged was made,
-- with the data that was pushed, by the primary and every secondary: each holds the data at the
-- offset, with zeros for a gap before it and the rest of its file behind it, at the version of the
-- request; its other chunks hold what they held; and no other server changed.
pub push_and_commit-AllWritten :
    (a : Address) (xs : List Address) (req : WriteRequest) (c : Cluster)
    → IsDistinct (a ∷ xs)
    → (push_and_commit a xs req c).0 ≡ returned written
    → AllWritten (a ∷ xs) req c (push_and_commit a xs req c).1
push_and_commit-AllWritten a xs req c d w =
    let made = push_and_commit-Replicated a xs req c d w in
    record {
      at = λ b m.
          let (s, there, after) = made.at b m in
          (s, (commit req (push req s)).1, there, after, commit-IsWritten req s);
      elsewhere = made.elsewhere;
    }
