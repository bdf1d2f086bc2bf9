-- ===== src/Chunkserver/Copies.antt =====
-- `CopyChunkTo` of chunkserver/main.cpp: what the target holds after a copy.
use google_file_system.Prelude.{
  ℕ, ◌+◌, ◌<◌, ◌≤◌, ltb, ◌≡◌, refl, sym, ap, ◌∙◌, false, some, List, [], ◌∷◌, ◌++◌, Outcome,
  returned, length, ◌==◌, arith, subst, nat_eq, string_eq,
}
use google_file_system.Bytes.{Byte, drop, write_at}
use google_file_system.Chunkserver.{
  ChunkServer, Cluster, WriteRequest, written, push, at_server, forward_write, commit, commit_each,
  write_chunk, apply_write, copy_request, commit_copy, copy_chunk_to, max_message,
}
use google_file_system.Chunkserver.ReadBack.{commit-push, contents-commit}
use google_file_system.Dict
use google_file_system.Dict.{get-put}
use google_file_system.Metadata.{Address, Handle}
use google_file_system.Replication.{CopyReply, copied}
use google_file_system.Storage
use google_file_system.Storage.{contents, get_size, get_version, set_version}

write_at_start :
    (bytes file : List Byte)
    → 0 < length bytes
    → write_at 0 bytes file ≡ bytes ++ drop (length bytes) file
unfolding write_at
write_at_start [] file l = absurd (omega arith)
write_at_start (b ∷ rest) file l =
    ap (λ k. (b ∷ rest) ++ drop k file) {x = 0 + length (b ∷ rest)} {y = length (b ∷ rest)}
      (omega arith)

pub get_version-commit :
    (req : WriteRequest) (s : ChunkServer)
    → get_version req.chunk_handle (commit req (push req s)).1.storage ≡ req.chunk_version
unfolding apply_write push set_version get_version Storage.write
get_version-commit req s = rw (commit-push req s) (
    ground (
      arith,
      get-put (Dict.put s.storage.versions req.chunk_handle req.chunk_version) req.chunk_handle
          req.chunk_handle req.chunk_version,
    ))

-- A push and its commit at one running server.
module _ (target : Address) (req : WriteRequest) (c : Cluster) (t : ChunkServer) where
  forward_write-one :
      Dict.get c target ≡ some t
      → forward_write target [] req c ≡ (returned written, Dict.put c target (push req t))
  unfolding forward_write
  forward_write-one e = rw (e, forward_write, at_server) refl

  write_chunk-one :
      (u : ChunkServer)
      → Dict.get c target ≡ some t
      → commit req t ≡ (returned written, u)
      → write_chunk target [] req c ≡ (returned written, Dict.put c target u)
  unfolding write_chunk commit_each
  write_chunk-one u e k = ground arith

acknowledged :
    (req : WriteRequest) (t : ChunkServer)
    → commit req (push req t) ≡ (returned written, (commit req (push req t)).1)
acknowledged req t = ap (λ r. (r, (commit req (push req t)).1)) (ap (λ r. r.0) (commit-push req t))

get-put_self : (c : Cluster) (x : Address) (s : ChunkServer) → Dict.get (Dict.put c x s) x ≡ some s
get-put_self c x s = ground (arith, get-put c x x s)

commit_copy-one :
    (target : Address) (req : WriteRequest) (c : Cluster) (t : ChunkServer)
    → Dict.get c target ≡ some t
    → commit_copy target req (forward_write target [] req c) ≡ (
      returned copied,
      Dict.put (Dict.put c target (push req t)) target (commit req (push req t)).1,
    )
unfolding commit_copy
commit_copy-one target req c t e =
    ap (commit_copy target req) (forward_write-one target req c t e)
    ∙ ground (
      arith,
      write_chunk-one target req (Dict.put c target (push req t)) (push req t)
          (commit req (push req t)).1 (get-put_self c target (push req t)) (acknowledged req t),
    )

-- The target holds a copy, with the rest of a longer file of its own behind it; no other server
-- changed.
pub record IsCopied (c d : Cluster) (target : Address) (h : Handle) (version : ℕ)
    (source old : List Byte) : Type 0 where
  pub server : ChunkServer
  pub running : Dict.get d target ≡ some server
  pub file : contents server.storage h ≡ source ++ drop (length source) old
  pub versioned : get_version h server.storage ≡ version
  pub elsewhere : (b : Address) → (b == target) ≡ false → Dict.get d b ≡ Dict.get c b

-- If a running server holds at least one byte of a chunk, and the target is running, then
-- CopyChunkTo succeeds on a chunk that fits in a message: the target then has the chunk at the version that was asked for, with the
-- bytes of the server, and behind them what the target held of the chunk from there on; no other
-- server changes.
pub copy_chunk_to-IsCopied :
    (a : Address) (h : Handle) (target : Address) (version : ℕ) (c : Cluster) (s t : ChunkServer)
    → Dict.get c a ≡ some s
    → 0 < length (contents s.storage h)
    → length (contents s.storage h) + 1024 ≤ max_message
    → Dict.get c target ≡ some t
    → ((copy_chunk_to a h target version c).0 ≡ returned copied)
      × IsCopied c
          (copy_chunk_to a h target version c).1
          target
          h
          version
          (contents s.storage h)
          (contents t.storage h)
unfolding copy_chunk_to get_size copy_request
copy_chunk_to-IsCopied a h target version c s t e l small g =
    subst
      (λ (r : Outcome CopyReply × Cluster).
        (r.0 ≡ returned copied)
        × IsCopied c r.1 target h version (contents s.storage h) (contents t.storage h))
      (sym done)
      (
        refl,
        record {
          server = (commit req (push req t)).1;
          running = ground (
            arith,
            get-put (Dict.put c target (push req t)) target target (commit req (push req t)).1,
          );
          file =
              contents-commit req t
              ∙ write_at_start (contents s.storage h) (contents t.storage h) l;
          versioned = get_version-commit req t;
          elsewhere = λ b n. ground (
            arith,
            get-put (Dict.put c target (push req t)) target b (commit req (push req t)).1,
            get-put c target b (push req t),
          );
        },
      )
  where
    req : WriteRequest
    req = copy_request h version (contents s.storage h)

    filled : (length (contents s.storage h) == 0) ≡ false
    filled = ground arith

    delivered : ltb max_message (length (contents s.storage h)) ≡ false
    delivered = ground arith

    done : copy_chunk_to a h target version c ≡ (
      returned copied,
      Dict.put (Dict.put c target (push req t)) target (commit req (push req t)).1,
    )
    done =
        rw (e, copy_chunk_to)
          (rw (filled, copy_chunk_to)
            (rw (delivered, copy_chunk_to) (commit_copy-one target req c t g)))
