-- ===== src/Chunkserver/ReadBack.antt =====
-- A write is read back from every server that made it.
use google_file_system.Prelude.{
  String, ◌<◌, ◌≡◌, ap, true, List, ◌∷◌, returned, contains, IsDistinct, length, arith, nat_eq,
  string_eq,
}
use google_file_system.Buffer
use google_file_system.Buffer.{WriteBuffer, buffer_key}
use google_file_system.Bytes.{Byte, write_at}
use google_file_system.Chunkserver.{
  ChunkServer, Cluster, WriteRequest, written, push, commit, commit_taken, apply_write, read_chunk,
}
use google_file_system.Chunkserver.Writes.{push_and_commit, push_and_commit-Replicated}
use google_file_system.Dict
use google_file_system.Dict.{get-put}
use google_file_system.Metadata.{Address, Handle}
use google_file_system.Storage
use google_file_system.Storage.{contents, set_version}
use google_file_system.Storage.Laws.{read-write}

pub take-put :
    (key : String) (h : Handle) (bytes : List Byte) (b : WriteBuffer)
    → Buffer.take key (Buffer.put key h bytes b)
      ≡ (returned bytes, Dict.remove_key (Buffer.put key h bytes b) key)
unfolding Buffer.put Buffer.take
take-put key h bytes b =
    ground (arith, get-put b key key (record { chunk_handle = h; payload = bytes }))

-- The commit takes what the push has left in the buffer.
pub commit-push :
    (req : WriteRequest) (s : ChunkServer)
    → commit req (push req s) ≡ (
      returned written,
      apply_write req req.payload (record (push req s) {
        buffer =
            Dict.remove_key (push req s).buffer (buffer_key req.chunk_handle req.serial_number);
      }),
    )
unfolding commit push
commit-push req s =
    ap (commit_taken req (push req s)) (
      take-put (buffer_key req.chunk_handle req.serial_number) req.chunk_handle req.payload
        s.buffer)

-- What a server holds of the chunk after a push and its commit.
pub contents-commit :
    (req : WriteRequest) (s : ChunkServer)
    → contents (commit req (push req s)).1.storage req.chunk_handle
      ≡ write_at req.offset req.payload (contents s.storage req.chunk_handle)
unfolding apply_write push set_version Storage.write
contents-commit req s = rw (commit-push req s) (
    ground (
      arith,
      get-put s.storage.files req.chunk_handle req.chunk_handle
          (write_at req.offset req.payload (contents s.storage req.chunk_handle)),
    ))

-- After a write that is acknowledged, reading as many bytes at its offset gives its data, at the
-- primary and at every secondary.
pub read_chunk-push_and_commit :
    (a : Address) (xs : List Address) (req : WriteRequest) (c : Cluster) (b : Address)
    → IsDistinct (a ∷ xs)
    → (push_and_commit a xs req c).0 ≡ returned written
    → contains (a ∷ xs) b ≡ true
    → 0 < length req.payload
    → read_chunk b req.chunk_handle req.offset (length req.payload) (push_and_commit a xs req c).1
      ≡ returned req.payload
unfolding read_chunk apply_write
read_chunk-push_and_commit a xs req c b d w m l =
    let (s, there, made) = (push_and_commit-Replicated a xs req c d w).at b m in
    rw (made, read_chunk)
      (rw (commit-push req s) (
        rw (
          read-write req.chunk_handle req.offset req.chunk_version req.payload (push req s).storage
            l)))
