-- ===== src/Heartbeat.antt =====
-- master/heartbeat.py, with the failure handler that `MasterServicer.__init__` puts in place of its
-- `_handle_chunkserver_failure`.
pub mod Reports
pub mod Sweep
use google_file_system.Prelude.{
  ℕ, ◌-◌, Bool, none, some, List, [], ◌∷◌, ◌++◌, ltb, length, contains, remove, ◌==◌, nat_eq,
  string_eq, if◌then◌else◌,
}
use google_file_system.Dict
use google_file_system.Metadata.{Time, Address, Handle, ChunkMetadata, seconds, version_of}
use google_file_system.Replication.{enqueue, enqueue_stale_repair, high}
use google_file_system.State.{Master, set_chunk}

abbrev pub heartbeat_timeout : Time
heartbeat_timeout = seconds 15

-- A report with another version than the master's: the replica is stale.
unfoldable pub mark_stale : Address → ChunkMetadata → ChunkMetadata
mark_stale address chunk = record chunk {
  replicas =
      if contains chunk.replicas address then remove address chunk.replicas else chunk.replicas;
  stale_replicas =
      if contains chunk.stale_replicas address
      then chunk.stale_replicas
      else chunk.stale_replicas ++ address ∷ [];
}

-- A report with the master's version: the replica is up to date.
unfoldable pub mark_current : Address → ChunkMetadata → ChunkMetadata
mark_current address chunk = record chunk {
  replicas =
      if contains chunk.replicas address then chunk.replicas else chunk.replicas ++ address ∷ [];
  stale_replicas =
      if contains chunk.stale_replicas address
      then remove address chunk.stale_replicas
      else chunk.stale_replicas;
}

-- The repair is asked for when the replica was not yet known to be stale.
unfoldable pub report_stale : Address → Handle → ChunkMetadata → Master → Master
unfolding enqueue_stale_repair
report_stale address handle chunk m =
    let marked = set_chunk handle (mark_stale address chunk) m in
    if contains chunk.stale_replicas address
    then marked
    else enqueue_stale_repair handle address marked

-- The body of the loop over the reported chunks.
unfoldable pub report : Address → Handle → ℕ → Master → Master
unfolding report_stale
report address handle version m = elim (Dict.get m.chunk_map handle) [
  | none ↦ m
  | some chunk ↦
      if version == version_of m.store handle
      then set_chunk handle (mark_current address chunk) m
      else report_stale address handle chunk m
]

-- `for handle, version in zip(...)`: the longer list's rest is not read.
unfoldable pub report_each : Address → List Handle → List ℕ → Master → Master
unfolding report
report_each address (handle ∷ handles) (version ∷ versions) m =
    report_each address handles versions (report address handle version m)
report_each address _ _ m = m

-- The chunks that the server is told to delete come back beside the state.
unfoldable pub handle_heartbeat :
    Time → Address → List Handle → List ℕ → Master → List Handle × Master
unfolding report_each
handle_heartbeat now address handles versions m =
    let seen : Master = record m { last_seen = Dict.put m.last_seen address now } in
    let reported = report_each address handles versions seen in (reported.gc_pending, reported)

unfoldable pub drop_replica : Address → ChunkMetadata → ChunkMetadata
drop_replica address chunk = record chunk {
  replicas =
      if contains chunk.replicas address then remove address chunk.replicas else chunk.replicas;
}

-- `_handle_chunkserver_failure`
unfoldable pub forget_server : Address → Master → Master
forget_server address m = record m {
  store = record m.store { chunk_map = Dict.map_values (drop_replica address) m.chunk_map };
  last_seen = Dict.remove_key m.last_seen address;
}

abbrev pub is_short : ChunkMetadata → Bool
is_short chunk = ltb (length chunk.replicas) 3

unfoldable pub enqueue_each : List Handle → Master → Master
unfolding enqueue
enqueue_each [] m = m
enqueue_each (handle ∷ handles) m = enqueue_each handles (enqueue handle high m)

-- `new_handle_failure` of master/server.py
unfoldable pub handle_failure : Address → Master → Master
unfolding forget_server enqueue_each
handle_failure address m =
    let forgotten = forget_server address m in
    enqueue_each (Dict.keys_where is_short forgotten.chunk_map) forgotten

-- `now - last > HEARTBEAT_TIMEOUT`
abbrev pub is_silent : Time → Time → Bool
is_silent now last = ltb heartbeat_timeout (now - last)

unfoldable pub fail_each : List Address → Master → Master
unfolding handle_failure
fail_each [] m = m
fail_each (address ∷ addresses) m = fail_each addresses (handle_failure address m)

-- One round of `check_dead_servers`, over the servers that were known when it began.
unfoldable pub check_dead_servers : Time → Master → Master
unfolding fail_each
check_dead_servers now m = fail_each (Dict.keys_where (is_silent now) m.last_seen) m
