-- ===== src/Files.antt =====
-- `CreateFile` and `DeleteFile` of master/server.py. A handler runs as one step; the readings of the
-- clock that it makes are arguments.
pub mod Outcomes
use google_file_system.Prelude.{String, Exec, returned, string_eq, if◌then◌else◌}
use google_file_system.Dict
use google_file_system.GarbageCollection.{soft_delete}
use google_file_system.Metadata.{Time, new_file}
use google_file_system.Oplog.{create_file}
use google_file_system.State.{Master, log_operation, with_locks}

pub data Reply : Type 0 where
  success : Reply
  error : (error_message : String) → Reply

unfoldable pub create_locked : String → Time → Time → Exec Master Reply
unfolding log_operation
create_locked filepath created_at logged_at m =
    if Dict.has m.namespace filepath then (returned (error "File already exists"), m) else (
      returned success,
      log_operation logged_at (create_file filepath) (record m {
        store = record m.store {
          namespace = Dict.put m.namespace filepath (new_file filepath created_at);
        };
      }),
    )

unfoldable pub create_file_handler : String → Time → Time → Exec Master Reply
unfolding with_locks create_locked
create_file_handler filepath created_at logged_at =
    with_locks filepath (create_locked filepath created_at logged_at)

unfoldable pub delete_locked : String → Time → Time → Time → Exec Master Reply
unfolding soft_delete
delete_locked filename named_at deleted_at logged_at m =
    if Dict.has m.namespace filename
    then (returned success, soft_delete filename named_at deleted_at logged_at m)
    else (returned (error "File not found"), m)

unfoldable pub delete_file_handler : String → Time → Time → Time → Exec Master Reply
unfolding with_locks delete_locked
delete_file_handler filename named_at deleted_at logged_at =
    with_locks filename (delete_locked filename named_at deleted_at logged_at)
