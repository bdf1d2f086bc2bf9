-- ===== src/Chunkserver/Boundary.antt =====
-- A write across the end of a chunk (chunkserver/main.cpp), which client/pipeline.py does not split.
use google_file_system.Prelude.{
  ℕ, ◌+◌, ◌≤◌, ◌<◌, ◌≡◌, refl, ap, ◌∙◌, true, List, [], ◌∷◌, returned, raised, rpc_error,
  IsDistinct, contains, length, arith, nat_eq, string_eq,
}
use google_file_system.Bytes.{Byte, write_at}
use google_file_system.Bytes.Files.{length-write_at}
use google_file_system.Chunkserver.{
  ChunkServer, Cluster, WriteRequest, AppendRequest, written, push, commit, append_local,
  append_chunk, max_chunk_size,
}
use google_file_system.Chunkserver.ReadBack.{contents-commit}
use google_file_system.Chunkserver.Writes.{push_and_commit, push_and_commit-Replicated}
use google_file_system.Metadata.{Address}
use google_file_system.Storage.{contents, get_size}

append_local-raised :
    (req : AppendRequest) (s : ChunkServer)
    → max_chunk_size < length (contents s.storage req.chunk_handle)
    → append_local req s ≡ (raised rpc_error, s)
unfolding append_local get_size
append_local-raised req s l = ground arith

length-write_at_bound :
    (offset : ℕ) (bytes file : List Byte)
    → 0 < length bytes
    → offset + length bytes ≤ length (write_at offset bytes file)
length-write_at_bound offset [] file l = absurd (omega arith)
length-write_at_bound offset (b ∷ rest) file l = omega (arith, length-write_at offset b rest file)

-- After an acknowledged write of at least one byte that ends behind 64 MB, by a primary and
-- secondaries that are all different, each append to the chunk fails, at every server that made the
-- write.
pub append_chunk-push_and_commit :
    (a : Address) (xs : List Address) (req : WriteRequest) (c : Cluster) (b : Address)
    (ys : List Address) (later : AppendRequest)
    → IsDistinct (a ∷ xs)
    → (push_and_commit a xs req c).0 ≡ returned written
    → contains (a ∷ xs) b ≡ true
    → 0 < length req.payload
    → max_chunk_size < req.offset + length req.payload
    → later.chunk_handle ≡ req.chunk_handle
    → (append_chunk b ys later (push_and_commit a xs req c).1).0 ≡ raised rpc_error
unfolding append_chunk
append_chunk-push_and_commit a xs req c b ys later d w m l over same =
    let (s, there, made) = (push_and_commit-Replicated a xs req c d w).at b m in
    rw (made, append_chunk)
      (rw
        (
          append_local-raised later (commit req (push req s)).1 (
              large (commit req (push req s)).1 (contents-commit req s) (
                length-write_at_bound req.offset req.payload (contents s.storage req.chunk_handle)
                  l)),
          append_chunk,
        )
        refl)
  where
    large :
        (t : ChunkServer) {file : List Byte}
        → contents t.storage req.chunk_handle ≡ file
        → req.offset + length req.payload ≤ length file
        → max_chunk_size < length (contents t.storage later.chunk_handle)
    large t e h = omega (arith, ap (λ (u : List Byte). length u) (ap (contents t.storage) same ∙ e))
