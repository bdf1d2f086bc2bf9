-- ===== src/Startup.antt =====
-- Start-up in master/server.py: the checkpoint, and the replay of the log that follows it.
use google_file_system.Prelude.{none, some, List, [], ◌∷◌, get_or, nat_eq, string_eq}
use google_file_system.Dict
use google_file_system.GarbageCollection.{move_to_trash}
use google_file_system.Metadata.{Time, MetadataStore, new_file, append_chunk}
use google_file_system.Oplog.{
  LogRecord, Operation, OperationLog, create_file, allocate_chunk, grant_lease, delete_file, replay,
  load_checkpoint,
}
use google_file_system.State.{Master, boot}

-- A record of the log, done again at start-up.
unfoldable pub replay_operation : Time → Operation → MetadataStore → MetadataStore
replay_operation ts (create_file filename) s = record s {
  namespace = Dict.put s.namespace filename (new_file filename ts);
}
replay_operation ts (allocate_chunk filename handle) s = record s {
  file_chunks = append_chunk filename handle s.file_chunks;
}
replay_operation ts (grant_lease handle version) s = record s {
  chunk_versions = Dict.put s.chunk_versions handle version;
}
replay_operation ts (delete_file path hidden) s = elim (Dict.get s.namespace path) [
  | none ↦ s
  | some file ↦ move_to_trash path hidden ts file s
]

unfoldable pub replay_records : List LogRecord → MetadataStore → MetadataStore
unfolding replay_operation
replay_records [] s = s
replay_records (r ∷ rs) s = replay_records rs (replay_operation r.ts r.op s)

unfoldable pub restore_state : Master → Master
unfolding replay_records load_checkpoint replay
restore_state m = record m {
  store = replay_records (replay m.oplog) (get_or (load_checkpoint m.oplog) m.store);
}

-- `MasterServicer()`, over the log that is on the disk.
unfoldable pub start : OperationLog → Master
unfolding boot restore_state
start log = restore_state (boot log)
