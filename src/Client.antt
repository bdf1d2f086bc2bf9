-- ===== src/Client.antt =====
-- client/gfs_client.py and client/pipeline.py: one client, over the master and the chunkservers that
-- are running. The stubs that it keeps for each address hold no state of the program. Offsets and
-- lengths are not negative, and are sent as they are.
pub mod Writes
pub mod RoundTrip
pub mod Loops
pub mod Pieces
pub mod Reads
pub mod Appends
use google_file_system.Prelude.{
  ℕ, zero, suc, ◌+◌, ◌-◌, ◌*◌, ◌/◌, ◌%◌, String, ◌<>◌, Bool, true, false, Option, none, some, List,
  [], ◌∷◌, ◌++◌, ℤ, pos, negsuc, min, length, ltb, ◌==◌, nat_eq, string_eq, int_eq, pair_eq,
  if◌then◌else◌, Exec, Outcome, Fault, returned, raised, ◌>>=◌, ◌>>◌, pure, raise, gets, failure,
  rpc_error, out_of_fuel, not_found, unavailable,
}
use google_file_system.Bytes.{Byte}
use google_file_system.Cache
use google_file_system.Cache.{Cache, CacheEntry, new_entry}
use google_file_system.Chunkserver.{
  Cluster, WriteRequest, WriteResponse, written, write_failed, AppendRequest, AppendResponse,
  offset_written, retry_on_next_chunk, read_chunk, forward_write, write_chunk, append_chunk,
  max_chunk_size, max_message,
}
use google_file_system.Dict
use google_file_system.Files.{Reply, success, error, create_file_handler}
use google_file_system.Locations.{ChunkLocRequest, ChunkLocResponse, Readings, get_chunk_locations}
use google_file_system.Metadata.{Time, Address, Handle}
use google_file_system.State.{Master}
use google_file_system.Text.{decimal}

pub record World : Type 0 where
  pub master : Master
  pub cluster : Cluster
  pub cache : Cache
  pub serial_counter : ℕ

-- A new client: an empty cache, and the counter at 1.
abbrev pub new_client : Master → Cluster → World
new_client master cluster = record {
  master = master;
  cluster = cluster;
  cache = Dict.empty;
  serial_counter = 1;
}

-- An exception in a handler that is no `context.abort` reaches the client as UNKNOWN.
abbrev pub rpc_fault : Fault → Fault
rpc_fault (not_found text) = not_found text
rpc_fault (unavailable text) = unavailable text
rpc_fault _ = rpc_error

abbrev pub rpc_outcome : {A : Type 0} → Outcome A → Outcome A
rpc_outcome (returned a) = returned a
rpc_outcome (raised x) = raised (rpc_fault x)

abbrev pub call_master : {A : Type 0} → Exec Master A → Exec World A
call_master handler w =
    let (result, after) = handler w.master in (rpc_outcome result, record w { master = after })

abbrev pub call_server : {A : Type 0} → Exec Cluster A → Exec World A
call_server handler w =
    let (result, after) = handler w.cluster in (rpc_outcome result, record w { cluster = after })

abbrev check_created : Reply → Exec World (Unit {0})
check_created success = pure tt
check_created (error text) = raise (failure ("Failed to create file: " <> text))

-- `create_file`
unfoldable pub create_file : String → Time → Time → Exec World (Unit {0})
create_file filename created_at logged_at = do
  reply ← call_master (create_file_handler filename created_at logged_at)
  check_created reply

-- `_next_serial`
unfoldable pub next_serial : Exec World ℕ
next_serial w = (returned w.serial_counter, record w { serial_counter = w.serial_counter + 1 })

abbrev pub push_request : ChunkLocResponse → ℕ → List Byte → ℕ → WriteRequest
push_request loc offset bytes serial = record {
  chunk_handle = loc.chunk_handle;
  offset = offset;
  payload = bytes;
  serial_number = serial;
  chunk_version = loc.chunk_version;
}

abbrev pub check_written : WriteResponse → Exec World (Unit {0})
check_written written = pure tt
check_written (write_failed text) = raise (failure ("Write failed: " <> text))

-- The push to the primary, which passes it on, and the commit, which carries no data.
unfoldable pub send_write : ChunkLocResponse → ℕ → List Byte → Exec World (Unit {0})
unfolding next_serial
send_write loc offset bytes = do
  serial ← next_serial
  call_server (
      forward_write loc.primary_address loc.secondary_addresses
        (push_request loc offset bytes serial))
  response ←
      call_server (
        write_chunk loc.primary_address loc.secondary_addresses (push_request loc offset [] serial))
  check_written response

-- A location without a primary is an `IOError`.
abbrev pub with_primary : {A : Type 0} → String → ChunkLocResponse → Exec World A → Exec World A
with_primary text loc body = if loc.primary_address == "" then raise (failure text) else body

-- `len(data) > MAX_APPEND_SIZE`
abbrev pub max_append_size : ℕ
max_append_size = 16 * 1024 * 1024

-- The offset, or -1 if the chunk was full.
abbrev pub append_offset : AppendResponse → ℤ
append_offset (offset_written offset) = pos offset
append_offset retry_on_next_chunk = negsuc 0

-- gRPC refuses data of more than 4 MB.
abbrev pub check_message : List Byte → Exec World (Unit {0})
check_message bytes = if ltb max_message (length bytes) then raise rpc_error else pure tt

unfoldable pub send_append : ChunkLocResponse → List Byte → Exec World ℤ
send_append loc bytes = do
  check_message bytes
  response ← call_server (
      append_chunk loc.primary_address loc.secondary_addresses (record {
        chunk_handle = loc.chunk_handle;
        payload = bytes;
        chunk_version = loc.chunk_version;
      }))
  pure (append_offset response)

-- The clock readings of a lookup in `read`: of the cache, of the master, and of the new entry.
pub record LookupTimes : Type 0 where
  pub looked_at : Time
  pub master_at : Readings
  pub entered_at : Time

-- `cache.get`
abbrev pub get_cached : Time → Cache.Key → Exec World (Option CacheEntry)
get_cached now key w =
    let (found, cache) = Cache.get now key w.cache in (returned found, record w { cache = cache })

abbrev pub change_cache : (Cache → Cache) → Exec World (Unit {0})
change_cache f w = (returned tt, record w { cache = f w.cache })

abbrev pub entry_of : ChunkLocResponse → Time → CacheEntry
entry_of raw now =
    new_entry raw.chunk_handle raw.primary_address raw.secondary_addresses raw.chunk_version now

-- The replicas in turn: an answer, or none when every call failed. A replica that is the empty
-- string is passed over, and a call that fails drops the location from the cache. `checksum_ok` is
-- always set.
unfoldable pub try_replicas :
    Cache.Key → Handle → ℕ → ℕ → List Address → Exec World (Option (List Byte))
try_replicas key handle offset count [] w = (returned none, w)
try_replicas key handle offset count (address ∷ rest) w =
    if address == ""
    then try_replicas key handle offset count rest w
    else elim (read_chunk address handle offset count w.cluster) [
      | returned bytes ↦ (returned (some bytes), w)
      | raised _ ↦
          try_replicas key handle offset count rest
            (record w { cache = Cache.invalidate key w.cache })
    ]

abbrev pub or_all_failed : Handle → Option (List Byte) → Exec World (List Byte)
or_all_failed handle (some bytes) = pure bytes
or_all_failed handle none = raise (failure ("All replicas failed for chunk " <> decimal handle))

-- `min(remaining, chunk_size - chunk_offset)`
abbrev pub piece_length : ℕ → ℕ → ℕ
piece_length offset remaining = min remaining (max_chunk_size - offset % max_chunk_size)

abbrev pub enter_location : Cache.Key → CacheEntry → Exec World CacheEntry
enter_location key loc = change_cache (Cache.put key loc) >> pure loc

module _ (sample : Time → List Address → ℕ → List Address) where
  -- `WritePipeline.write`: all data goes to the chunk in which the offset lies.
  unfoldable pub write : String → ℕ → List Byte → Readings → Exec World (Unit {0})
  write filename offset bytes times = do
    loc ← call_master (
        get_chunk_locations sample
          (record {
            filename = filename;
            chunk_index = pos (offset / max_chunk_size);
            create_if_missing = true;
          })
          times)
    with_primary "No primary lease holder available" loc
        (send_write loc (offset % max_chunk_size) bytes)

  unfoldable pub record_append : String → List Byte → Readings → Exec World ℤ
  record_append filename bytes times =
      if ltb max_append_size (length bytes)
      then raise (failure "Append data exceeds max size (16777216 bytes)")
      else (do
        loc ← call_master (
            get_chunk_locations sample
              (record { filename = filename; chunk_index = negsuc 0; create_if_missing = true })
              times)
        with_primary "No primary lease holder available for append" loc (send_append loc bytes))

  abbrev pub ask_location : String → ℕ → LookupTimes → Exec World ChunkLocResponse
  ask_location filename index times = call_master (
      get_chunk_locations sample
        (record { filename = filename; chunk_index = pos index; create_if_missing = false })
        times.master_at)

  -- The location of a chunk that is not in the cache, which is then put there.
  unfoldable pub fetch_location : String → ℕ → LookupTimes → Exec World CacheEntry
  fetch_location filename index times = ask_location filename index times >>= λ raw.
      enter_location (filename, pos index) (entry_of raw times.entered_at)

  unfoldable pub find_location : String → ℕ → LookupTimes → Exec World CacheEntry
  find_location filename index times = do
    cached ← get_cached times.looked_at (filename, pos index)
    elim cached [ some loc ↦ pure loc | none ↦ fetch_location filename index times ]

  -- One round of the loop in `read`: so many bytes of a chunk.
  unfoldable pub read_piece : String → ℕ → ℕ → ℕ → LookupTimes → Exec World (List Byte)
  read_piece filename index offset count times = do
    loc ← find_location filename index times
    found ←
        try_replicas (filename, pos index) loc.chunk_handle offset count
          (loc.primary ∷ loc.replicas)
    or_all_failed loc.chunk_handle found

  -- The loop, on fuel: the bytes read so far, and the readings of the rounds to come.
  unfoldable pub read_loop :
      (fuel : ℕ) → String → ℕ → ℕ → List Byte → (ℕ → LookupTimes) → Exec World (List Byte)
  read_loop fuel filename offset zero result clock = pure result
  read_loop zero filename offset (suc more) result clock = raise out_of_fuel
  read_loop (suc fuel) filename offset (suc more) result clock =
      let count = piece_length offset (suc more) in
      read_piece filename (offset / max_chunk_size) (offset % max_chunk_size) count (clock 0)
      >>= λ piece.
          read_loop fuel filename (offset + count) (suc more - count) (result ++ piece)
            (λ round. clock (suc round))

  -- `read`: each round reads a byte at least, so that there are no more rounds than bytes.
  unfoldable pub read : String → ℕ → ℕ → (ℕ → LookupTimes) → Exec World (List Byte)
  read filename offset count clock = read_loop count filename offset count [] clock
