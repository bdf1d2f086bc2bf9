-- ===== src/State.antt =====
-- The state of the master process: what `MasterServicer` and its managers share by reference.
use google_file_system.Prelude.{
  ℕ, String, List, [], Outcome, nat_eq, string_eq, keep, not, contains,
}
use google_file_system.Dict
use google_file_system.Dict.{Dict}
use google_file_system.Metadata.{Time, Address, Handle, ChunkMetadata, MetadataStore, empty_store}
use google_file_system.Oplog
use google_file_system.Oplog.{OperationLog, Operation}
use google_file_system.Locks.{LockTable, acquire_for_operation, release_all}

-- `queue` is the heap of `(priority, handle)` pairs, in the order in which it gives them out.
pub record Master : Type 0 where
  pub store : MetadataStore
  pub open store use *
  pub oplog : OperationLog
  pub locks : LockTable
  pub last_seen : Dict Address Time
  pub queue : List (ℕ × Handle)
  pub stale_queue : List (Handle × Address)

-- The objects that `__init__` makes, over a log that is on the disk.
unfoldable pub boot : OperationLog → Master
boot log = record {
  store = empty_store;
  oplog = log;
  locks = Dict.empty;
  last_seen = Dict.empty;
  queue = [];
  stale_queue = [];
}

-- `self.oplog.append(...)`
unfoldable pub log_operation : Time → Operation → Master → Master
log_operation ts op m = record m { oplog = Oplog.append ts op m.oplog }

-- Writing to the object that `chunk_map[handle]` refers to.
abbrev pub set_chunk : Handle → ChunkMetadata → Master → Master
set_chunk handle chunk m = record m {
  store = record m.store { chunk_map = Dict.put m.chunk_map handle chunk };
}

-- `[r for r in chunk.replicas if r not in chunk.stale_replicas]`
abbrev pub healthy_replicas : ChunkMetadata → List Address
healthy_replicas chunk = keep (λ r. not (contains chunk.stale_replicas r)) chunk.replicas

-- `locks = acquire_for_operation(...)`, the body under `try`, and the releases under `finally`.
unfoldable pub with_locks {ℓ} :
    {A : Type ℓ} → String → (Master → Outcome A × Master) → Master → Outcome A × Master
unfolding acquire_for_operation release_all
with_locks filepath body m =
    let (acquired, locked) = acquire_for_operation filepath m.locks in
    let (result, after) = body (record m { locks = locked }) in
    (result, record after { locks = release_all acquired after.locks })
