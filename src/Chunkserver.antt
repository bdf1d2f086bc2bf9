-- ===== src/Chunkserver.antt =====
-- chunkserver/main.cpp: the calls that a chunkserver answers, over the servers that are running. A
-- call of a server that is not among them fails as UNAVAILABLE. A handler is named with the address
-- that it runs at.
pub mod Writes
pub mod ReadBack
pub mod Replicas
pub mod Records
pub mod Appends
pub mod Boundary
pub mod Copies
pub mod Races
pub mod AppendRuns
use google_file_system.Prelude.{
  ℕ, ◌+◌, ◌-◌, ◌*◌, ◌/◌, String, ◌<>◌, Bool, true, false, not, Option, none, some, List, [], ◌∷◌,
  Exec, Outcome, returned, raised, unavailable, rpc_error, length, ltb, ◌==◌, ◌||◌, nat_eq,
  string_eq, if◌then◌else◌,
}
use google_file_system.Buffer
use google_file_system.Buffer.{WriteBuffer, buffer_key}
use google_file_system.Bytes.{Byte, replicate}
use google_file_system.Checksum
use google_file_system.Checksum.{ChecksumStore, compute}
use google_file_system.Dict
use google_file_system.Dict.{Dict}
use google_file_system.Metadata.{Address, Handle}
use google_file_system.Storage
use google_file_system.Replication.{CopyReply, copied, refused}
use google_file_system.Storage.{ChunkStorage, contents, get_size, set_version}

pub record ChunkServer : Type 0 where
  pub storage : ChunkStorage
  pub checksum : ChecksumStore
  pub buffer : WriteBuffer

-- The servers that are running.
abbrev pub Cluster : Type 0
Cluster = Dict Address ChunkServer

-- `WriteRequest` without `forward_to`, which the handlers take beside it.
pub record WriteRequest : Type 0 where
  pub chunk_handle : Handle
  pub offset : ℕ
  pub payload : List Byte
  pub serial_number : ℕ
  pub chunk_version : ℕ

-- `WriteResponse`, its `success` set or not.
pub data WriteResponse : Type 0 where
  written : WriteResponse
  write_failed : (error_message : String) → WriteResponse

-- `AppendRequest` without `forward_to`.
pub record AppendRequest : Type 0 where
  pub chunk_handle : Handle
  pub payload : List Byte
  pub chunk_version : ℕ

-- `AppendResponse`: the offset, or `retry_on_next_chunk`.
pub data AppendResponse : Type 0 where
  offset_written : ℕ → AppendResponse
  retry_on_next_chunk : AppendResponse

abbrev pub max_chunk_size : ℕ
max_chunk_size = 64 * 1024 * 1024

abbrev pub block_size : ℕ
block_size = 64 * 1024

-- A call of the server at an address, which may change it.
abbrev pub at_server {ℓ} :
    {A : Type ℓ} → Address → (ChunkServer → Outcome A × ChunkServer) → Cluster → Outcome A × Cluster
at_server address handler c = elim (Dict.get c address) [
  | none ↦ (raised (unavailable "failed to connect"), c)
  | some server ↦ let (result, after) = handler server in (result, Dict.put c address after)
]

-- `ReadChunk`: `checksum_ok` is always set, since no block is verified. A missing file is INTERNAL.
-- This is the handler's answer, of any size: that the caller's channel refuses more than 4 MB is not
-- part of it.
unfoldable pub read_chunk : Address → Handle → ℕ → ℕ → Cluster → Outcome (List Byte)
read_chunk address handle offset count c = elim (Dict.get c address) [
  | none ↦ raised (unavailable "failed to connect")
  | some server ↦ elim (Storage.read handle offset count server.storage) [
    | returned bytes ↦ returned bytes
    | raised _ ↦ raised rpc_error
  ]
]

-- The part of `ForwardWrite` on the server itself.
unfoldable pub push : WriteRequest → ChunkServer → ChunkServer
push req server = record server {
  buffer =
      Buffer.put (buffer_key req.chunk_handle req.serial_number) req.chunk_handle req.payload
        server.buffer;
  storage = set_version req.chunk_handle req.chunk_version server.storage;
}

-- `ForwardWrite`: what becomes of the next servers of the chain is only printed.
unfoldable pub forward_write : Address → List Address → WriteRequest → Exec Cluster WriteResponse
forward_write address [] req c = at_server address (λ server. (returned written, push req server)) c
forward_write address (next ∷ rest) req c = elim (Dict.get c address) [
  | none ↦ (raised (unavailable "failed to connect"), c)
  | some server ↦
      (returned written, (forward_write next rest req (Dict.put c address (push req server))).1)
]

-- The data goes to the disk, with its checksum and the version.
unfoldable pub apply_write : WriteRequest → List Byte → ChunkServer → ChunkServer
apply_write req bytes server = record server {
  storage =
      set_version req.chunk_handle req.chunk_version
        (Storage.write req.chunk_handle req.offset bytes server.storage);
  checksum =
      Checksum.update req.chunk_handle (req.offset / block_size) (compute bytes) server.checksum;
}

-- With what `buffer_.take` gave, and the buffer that it left.
abbrev pub commit_taken :
    WriteRequest
    → ChunkServer
    → Outcome (List Byte) × WriteBuffer
    → Outcome WriteResponse × ChunkServer
commit_taken req server (raised _, buffer) = (
  returned (write_failed "Data not found in buffer for commit"),
  record server { buffer = buffer },
)
commit_taken req server (returned bytes, buffer) =
    (returned written, apply_write req bytes (record server { buffer = buffer }))

-- The part of `WriteChunk` on the server itself.
unfoldable pub commit : WriteRequest → ChunkServer → Outcome WriteResponse × ChunkServer
commit req server =
    commit_taken req server
      (Buffer.take (buffer_key req.chunk_handle req.serial_number) server.buffer)

-- The loop over the secondaries, each of which gets the commit with no one to forward it to.
unfoldable pub commit_each : List Address → WriteRequest → Exec Cluster WriteResponse
commit_each [] req c = (returned written, c)
commit_each (secondary ∷ rest) req c =
    let (result, after) = at_server secondary (commit req) c in
    elim result [
      | returned written ↦ commit_each rest req after
      | _ ↦ (returned (write_failed ("Secondary commit failed: " <> secondary)), after)
    ]

-- `WriteChunk`
unfoldable pub write_chunk : Address → List Address → WriteRequest → Exec Cluster WriteResponse
write_chunk address forward_to req c =
    let (result, after) = at_server address (commit req) c in
    elim result [ returned written ↦ commit_each forward_to req after | other ↦ (other, after) ]

-- The zeros that fill a chunk up.
unfoldable pub padding : ℕ → List Byte
padding size = replicate (max_chunk_size - size) 0

-- The part of `AppendChunk` on the server itself. A vector of a negative size raises, and gRPC
-- answers UNKNOWN.
unfoldable pub append_local : AppendRequest → ChunkServer → Outcome AppendResponse × ChunkServer
append_local req server =
    let size = get_size req.chunk_handle server.storage in
    if ltb max_chunk_size (size + length req.payload)
    then (if ltb max_chunk_size size then (raised rpc_error, server) else (
      returned retry_on_next_chunk,
      record server { storage = Storage.write req.chunk_handle size (padding size) server.storage },
    ))
    else (let (offset, storage) = Storage.append req.chunk_handle req.payload server.storage in
        (
          returned (offset_written offset),
          record server {
            storage = set_version req.chunk_handle req.chunk_version storage;
            checksum =
                Checksum.update req.chunk_handle (offset / block_size) (compute req.payload)
                  server.checksum;
          },
        ))

-- The calls of the secondaries, whose answers are not looked at.
unfoldable pub append_each : List Address → AppendRequest → Cluster → Cluster
append_each [] req c = c
append_each (secondary ∷ rest) req c =
    append_each rest req (at_server secondary (append_local req) c).1

-- The padding that the secondaries are sent: an append of zeros, its version not set.
abbrev pub pad_request : Handle → ℕ → AppendRequest
pad_request handle size = record {
  chunk_handle = handle;
  payload = padding size;
  chunk_version = 0;
}

-- `AppendChunk`
unfoldable pub append_chunk : Address → List Address → AppendRequest → Exec Cluster AppendResponse
append_chunk address forward_to req c = elim (Dict.get c address) [
  | none ↦ (raised (unavailable "failed to connect"), c)
  | some server ↦
      let (result, after) = append_local req server in
      let c' : Cluster = Dict.put c address after in
      elim result [
        | raised x ↦ (raised x, c')
        | returned (offset_written offset) ↦
            (returned (offset_written offset), append_each forward_to req c')
        | returned retry_on_next_chunk ↦ (
          returned retry_on_next_chunk,
          append_each forward_to
              (pad_request req.chunk_handle (get_size req.chunk_handle server.storage)) c',
        )
      ]
]

-- `DeleteChunk`
unfoldable pub delete_chunk : Address → Handle → Exec Cluster (Unit {0})
delete_chunk address handle c =
    at_server address
      (λ server. (returned tt, record server { storage = Storage.remove handle server.storage })) c

-- `CopyChunkTo`: the data goes by the target's buffer, under a serial number for copies.
unfoldable pub copy_request : Handle → ℕ → List Byte → WriteRequest
copy_request handle version bytes = record {
  chunk_handle = handle;
  offset = 0;
  payload = bytes;
  serial_number = 999999;
  chunk_version = version;
}

-- The commit on the target, if the push got through.
unfoldable pub commit_copy :
    Address → WriteRequest → Outcome WriteResponse × Cluster → Outcome CopyReply × Cluster
commit_copy target req (raised _, c) = (returned (refused "Failed to forward data to target"), c)
commit_copy target req (returned _, c) =
    let (result, after) = write_chunk target [] req c in
    elim result [
      | returned written ↦ (returned copied, after)
      | _ ↦ (returned (refused "Failed to commit on target"), after)
    ]

-- gRPC refuses to receive a message of more than 4 MB where nothing else is set. Data of more
-- than that is refused here; a message has up to 1 KB of other fields.
abbrev pub max_message : ℕ
max_message = 4 * 1024 * 1024

unfoldable pub copy_chunk_to : Address → Handle → Address → ℕ → Exec Cluster CopyReply
copy_chunk_to address handle target version c = elim (Dict.get c address) [
  | none ↦ (raised (unavailable "failed to connect"), c)
  | some server ↦
      if get_size handle server.storage == 0
      then (returned (refused "Local chunk is empty or missing"), c)
      else if ltb max_message (length (contents server.storage handle))
      then (returned (refused "Failed to forward data to target"), c)
      else (let req = copy_request handle version (contents server.storage handle) in
          commit_copy target req (forward_write target [] req c))
]
