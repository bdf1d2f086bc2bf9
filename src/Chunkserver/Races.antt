-- ===== src/Chunkserver/Races.antt =====
-- Two clients that push to one chunk under the same serial number (chunkserver/main.cpp and
-- buffer.cpp): each client counts its serial numbers from 1 (client/pipeline.py).
use google_file_system.Prelude.{
  String, ℕ, ◌≡◌, refl, sym, ap, ◌∙◌, List, Outcome, returned, raised, failure, arith, subst,
  nat_eq, string_eq,
}
use google_file_system.Buffer
use google_file_system.Buffer.{WriteBuffer, buffer_key}
use google_file_system.Bytes.{Byte, write_at}
use google_file_system.Chunkserver.{
  ChunkServer, WriteRequest, WriteResponse, written, write_failed, push, commit, commit_taken,
  apply_write,
}
use google_file_system.Chunkserver.ReadBack.{take-put}
use google_file_system.Dict
use google_file_system.Dict.{get-put, get-remove_key}
use google_file_system.Storage
use google_file_system.Storage.{contents, set_version}

-- The same chunk and serial number, with other data for another place.
abbrev pub colliding : WriteRequest → ℕ → List Byte → WriteRequest
colliding req offset bytes = record req { offset = offset; payload = bytes }

-- The buffer behind the commit.
left : WriteRequest → ChunkServer → WriteBuffer
left req s = Dict.remove_key (push req s).buffer (buffer_key req.chunk_handle req.serial_number)

commit-collides :
    (req : WriteRequest) (offset : ℕ) (bytes : List Byte) (s : ChunkServer)
    → commit req (push (colliding req offset bytes) s) ≡ (
      returned written,
      apply_write req bytes (record (push (colliding req offset bytes) s) {
        buffer = left (colliding req offset bytes) s;
      }),
    )
unfolding commit push left
commit-collides req offset bytes s =
    ap (commit_taken req (push (colliding req offset bytes) s))
      (take-put (buffer_key req.chunk_handle req.serial_number) req.chunk_handle bytes s.buffer)

take-removed :
    (key : String) (b : WriteBuffer)
    → (Buffer.take key (Dict.remove_key b key)) ≡ (
      raised (failure "Data not found in buffer (it may have expired or was never pushed)"),
      Dict.remove_key b key,
    )
unfolding Buffer.take
take-removed key b = ground (arith, get-remove_key b key key)

commit-removed :
    (req : WriteRequest) (b : WriteBuffer) (s : ChunkServer)
    → s.buffer ≡ Dict.remove_key b (buffer_key req.chunk_handle req.serial_number)
    → commit req s ≡ (
      returned (write_failed "Data not found in buffer for commit"),
      record s { buffer = Dict.remove_key b (buffer_key req.chunk_handle req.serial_number) },
    )
unfolding commit
commit-removed req b s e = ap (commit_taken req s) (ap (Buffer.take key) e ∙ take-removed key b)
  where
    key : String
    key = buffer_key req.chunk_handle req.serial_number

-- What comes of two pushes, one behind the other, and their two commits.
abbrev pub MixesUp : WriteRequest → WriteRequest → ChunkServer → Type 0
MixesUp first second s =
    let (r, t) = commit first (push second (push first s)) in
    let (q, u) = commit second t in
    (r ≡ returned written)
    × (q ≡ returned (write_failed "Data not found in buffer for commit"))
    × (contents u.storage first.chunk_handle
        ≡ write_at first.offset second.payload (contents s.storage first.chunk_handle))

-- If two writes to one chunk under one serial number are both pushed to a server before they are
-- committed, then the commit of the one that was pushed first is acknowledged, and writes the data
-- of the other at its own place; the other commit then fails, so that the data of the first is
-- nowhere.
pub commit-MixesUp :
    (req : WriteRequest) (offset : ℕ) (bytes : List Byte) (s : ChunkServer)
    → MixesUp req (colliding req offset bytes) s
unfolding apply_write left push set_version Storage.write
commit-MixesUp req offset bytes s =
    subst
      (λ (r : Outcome WriteResponse × ChunkServer).
        (r.0 ≡ returned written)
        × ((commit other r.1).0 ≡ returned (write_failed "Data not found in buffer for commit"))
        × (contents (commit other r.1).1.storage req.chunk_handle
            ≡ write_at req.offset bytes (contents s.storage req.chunk_handle)))
      (sym (commit-collides req offset bytes (push req s)))
      (
        refl,
        ap (λ r. r.0) fails,
        ap (λ (r : Outcome WriteResponse × ChunkServer). contents r.1.storage req.chunk_handle)
              fails
            ∙ ground (
              arith,
              get-put s.storage.files req.chunk_handle req.chunk_handle
                  (write_at req.offset bytes (contents s.storage req.chunk_handle)),
            ),
      )
  where
    other : WriteRequest
    other = colliding req offset bytes

    after : ChunkServer
    after =
        apply_write req bytes
          (record (push other (push req s)) { buffer = left other (push req s) })

    fails : commit other after ≡ (
      returned (write_failed "Data not found in buffer for commit"),
      record after { buffer = left other (push req s) },
    )
    fails = commit-removed other (push other (push req s)).buffer after refl
