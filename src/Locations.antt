-- ===== src/Locations.antt =====
-- `GetChunkLocations` and `HeartBeat` of master/server.py. `random.sample` and the readings of the
-- clock are arguments.
use google_file_system.Prelude.{
  ℕ, ◌-◌, String, Bool, some, List, [], ◌∷◌, ℤ, pos, negsuc, index_list, false, Exec, returned,
  raised, ◌>>=◌, ◌>>◌, pure, gets, or_raise, not_found, unavailable, key_error, index_error, ltb,
  leb, length, min, keep, not, get_or, ◌==◌, nat_eq, string_eq, if◌then◌else◌,
}
use google_file_system.Dict
use google_file_system.Heartbeat.{handle_heartbeat}
use google_file_system.Lease.{grant_lease, has_valid_lease}
use google_file_system.Metadata.{
  Time, Address, Handle, ChunkMetadata, MetadataStore, allocate_chunk, version_of,
}
use google_file_system.Oplog.{allocate_chunk as allocate_chunk_op}
use google_file_system.State.{Master, log_operation, set_chunk, healthy_replicas, with_locks}

pub record ChunkLocRequest : Type 0 where
  pub filename : String
  pub chunk_index : ℤ
  pub create_if_missing : Bool

pub record ChunkLocResponse : Type 0 where
  pub chunk_handle : Handle
  pub primary_address : Address
  pub secondary_addresses : List Address
  pub chunk_version : ℕ

-- The clock: when an allocation is logged, when the lease is tested, when a grant is logged and
-- when its expiry is set.
pub record Readings : Type 0 where
  pub allocated_at : Time
  pub tested_at : Time
  pub logged_at : Time
  pub granted_at : Time

-- -1 is the last chunk, or the first of an empty file.
abbrev pub resolve_index : ℤ → ℕ → ℤ
resolve_index (negsuc n) count =
    if n == 0 then (if ltb 0 count then pos (count - 1) else pos 0) else negsuc n
resolve_index (pos i) count = pos i

-- `chunk_index >= len(file_chunks)`
abbrev pub is_past : ℤ → ℕ → Bool
is_past (pos i) count = leb count i
is_past (negsuc n) count = false

-- The new chunk gets its replicas, the first of them as primary, and its record in the log.
abbrev pub place_chunk : String → Handle → List Address → Address → Time → Master → Master
place_chunk filepath handle chosen primary allocated_at m =
    log_operation allocated_at (allocate_chunk_op filepath handle) (
      set_chunk handle
        (record {
          handle = handle;
          replicas = chosen;
          stale_replicas = [];
          primary = some primary;
          lease_expiry = 0;
        })
        m)

-- With the servers that `random.sample` chose; `chosen[0]` is read.
unfoldable pub place_sampled : String → Handle → Time → List Address → Exec Master (Unit {0})
unfolding log_operation
place_sampled filepath handle allocated_at [] m = (raised index_error, m)
place_sampled filepath handle allocated_at (primary ∷ rest) m =
    (returned tt, place_chunk filepath handle (primary ∷ rest) primary allocated_at m)

-- The handle that the index means, once the chunk is there: `file_chunks[filepath][chunk_index]`,
-- whose metadata must be in `chunk_map`.
unfoldable pub find_handle : String → ℤ → Exec Master Handle
find_handle filepath index = do
  chunks ← λ m. or_raise (Dict.get m.file_chunks filepath) key_error m
  handle ← or_raise (index_list chunks index) index_error
  (λ m. or_raise (Dict.get m.chunk_map handle) key_error m)
  pure handle

-- The rest, after the locks were released: the lease, and the response.
unfoldable pub renew_lease : Handle → Readings → Exec Master (Unit {0})
unfolding has_valid_lease grant_lease
renew_lease handle times m =
    if has_valid_lease handle times.tested_at m
    then (returned tt, m)
    else (grant_lease handle times.logged_at times.granted_at >> pure tt) m

abbrev pub response_of : Handle → ChunkMetadata → MetadataStore → ChunkLocResponse
response_of handle chunk s =
    let primary = get_or chunk.primary "" in
    record {
      chunk_handle = handle;
      primary_address = primary;
      secondary_addresses = keep (λ r. not (r == primary)) (healthy_replicas chunk);
      chunk_version = version_of s handle;
    }

-- The response, from the metadata as it is read again.
abbrev pub answer : Handle → Exec Master ChunkLocResponse
answer handle = do
  chunk ← λ m. or_raise (Dict.get m.chunk_map handle) key_error m
  gets (λ m. response_of handle chunk m.store)

unfoldable pub respond : Handle → Readings → Exec Master ChunkLocResponse
unfolding renew_lease
respond handle times = do renew_lease handle times; answer handle

module _ (sample : Time → List Address → ℕ → List Address) where
  -- `active_servers` is the list of the servers that were heard of.
  unfoldable pub allocate_on : List Address → String → Time → Exec Master (Unit {0})
  unfolding allocate_chunk place_sampled
  allocate_on [] filepath allocated_at m = (raised (unavailable "No active servers"), m)
  allocate_on (server ∷ servers) filepath allocated_at m =
      let (handle, store) = allocate_chunk filepath m.store in
      let active = server ∷ servers in
      place_sampled filepath handle allocated_at
        (sample allocated_at active (min 3 (length active))) (record m { store = store })

  unfoldable pub allocate_missing : ChunkLocRequest → Time → Exec Master (Unit {0})
  unfolding allocate_on
  allocate_missing request allocated_at m =
      if not request.create_if_missing
      then (raised (not_found "Chunk not found"), m)
      else allocate_on (Dict.keys m.last_seen) request.filename allocated_at m

  -- The part of `GetChunkLocations` under the locks.
  unfoldable pub locate : ChunkLocRequest → Time → Exec Master Handle
  unfolding allocate_missing find_handle
  locate request allocated_at m =
      let count = length (get_or (Dict.get m.file_chunks request.filename) []) in
      let index = resolve_index request.chunk_index count in
      if is_past index count
      then (allocate_missing request allocated_at >> λ s.
            find_handle request.filename
              (pos (length (get_or (Dict.get s.file_chunks request.filename) []) - 1)) s)
          m
      else find_handle request.filename index m

  unfoldable pub get_chunk_locations : ChunkLocRequest → Readings → Exec Master ChunkLocResponse
  unfolding with_locks locate respond
  get_chunk_locations request times m =
      if Dict.has m.namespace request.filename
      then (do
        handle ← with_locks request.filename (locate request times.allocated_at)
        respond handle times)
          m
      else (raised (not_found "File not found"), m)

-- `HeartBeat`
unfoldable pub heartbeat_handler : Time → Address → List Handle → List ℕ → Exec Master (List Handle)
unfolding handle_heartbeat
heartbeat_handler now address handles versions m =
    let (pending, after) = handle_heartbeat now address handles versions m in
    (returned pending, after)
