-- ===== src/Oplog.antt =====
-- master/oplog.py: the write-ahead log and its checkpoint. The files are the lists that they hold:
-- a line of JSON is its record, and a pickle is the state that went into it.
use google_file_system.Prelude.{ℕ, String, Option, none, some, List, [], ◌∷◌, ◌++◌}
use google_file_system.Metadata.{Time, Handle, MetadataStore}

-- What is logged of an operation: `op` and its payload.
pub data Operation : Type 0 where
  create_file : (filename : String) → Operation
  allocate_chunk : (filename : String) (chunk_handle : Handle) → Operation
  grant_lease : (chunk_handle : Handle) (version : ℕ) → Operation
  delete_file : (path hidden : String) → Operation

pub record LogRecord : Type 0 where
  pub ts : Time
  pub op : Operation

-- `gfs.log` and `gfs.log.checkpoint`
pub record OperationLog : Type 0 where
  pub lines : List LogRecord
  pub checkpoint : Option MetadataStore

-- Both files are missing, or the log is empty, when a cluster is first started.
unfoldable pub fresh_log : OperationLog
fresh_log = record { lines = []; checkpoint = none }

unfoldable pub append : Time → Operation → OperationLog → OperationLog
append ts op log = record log { lines = log.lines ++ record { ts = ts; op = op } ∷ [] }

unfoldable pub replay : OperationLog → List LogRecord
replay log = log.lines

-- The checkpoint is written beside the old one and renamed over it ...
unfoldable pub publish_checkpoint : MetadataStore → OperationLog → OperationLog
publish_checkpoint store log = record log { checkpoint = some store }

-- ... and only then the log is emptied.
unfoldable pub truncate : OperationLog → OperationLog
truncate log = record log { lines = [] }

unfoldable pub write_checkpoint : MetadataStore → OperationLog → OperationLog
unfolding publish_checkpoint truncate
write_checkpoint store log = truncate (publish_checkpoint store log)

unfoldable pub load_checkpoint : OperationLog → Option MetadataStore
load_checkpoint log = log.checkpoint
