-- ===== src/Replication.antt =====
-- master/replication.py: the two queues and their workers. What the call CopyChunkTo of a chunkserver
-- comes back with is an argument; the cached connections (`_chunk_stubs`) are not modelled.
pub mod Plans
pub mod Rounds
pub mod Jobs
use google_file_system.Prelude.{
  ℕ, String, Bool, Option, none, some, List, [], ◌∷◌, ◌++◌, ◌||◌, ◌&&◌, not, Exec, Outcome,
  returned, raised, rpc_error, failure, Fault, ltb, leb, length, keep, contains, remove, ◌==◌,
  nat_eq, string_eq, if◌then◌else◌,
}
use google_file_system.Dict
use google_file_system.Metadata.{Address, Handle, ChunkMetadata, version_of}
use google_file_system.State.{Master, set_chunk, healthy_replicas}

pub data Priority : Type 0 where
  high normal : Priority

-- The order of Python's tuples.
abbrev pub tuple_le : ℕ × Handle → ℕ × Handle → Bool
tuple_le (p, h) (q, k) = ltb p q || (p == q && leb h k)

-- `PriorityQueue.put`: `get` takes the smallest tuple, so the queue is kept in order.
unfoldable pub put_job : ℕ × Handle → List (ℕ × Handle) → List (ℕ × Handle)
put_job job [] = job ∷ []
put_job job (j ∷ js) = if tuple_le job j then job ∷ j ∷ js else j ∷ put_job job js

abbrev pub priority_value : Priority → ℕ
priority_value high = 0
priority_value normal = 1

unfoldable pub enqueue : Handle → Priority → Master → Master
unfolding put_job
enqueue handle priority m = record m { queue = put_job (priority_value priority, handle) m.queue }

unfoldable pub enqueue_stale_repair : Handle → Address → Master → Master
enqueue_stale_repair handle stale_address m = record m {
  stale_queue = m.stale_queue ++ (handle, stale_address) ∷ [];
}

-- A call `CopyChunkTo` that is to be made: who copies to whom, and at which version.
pub record CopyCall : Type 0 where
  pub source : Address
  pub target : Address
  pub version : ℕ

pub data CopyReply : Type 0 where
  copied : CopyReply
  refused : (error_message : String) → CopyReply
  unreachable : CopyReply

-- The exception that a reply leads to, `resp.success` being false or the call itself failing.
abbrev pub reply_fault : CopyReply → Option Fault
reply_fault copied = none
reply_fault (refused error_message) = some (failure error_message)
reply_fault unreachable = some rpc_error

-- `not source`: no replica, or an empty address.
abbrev pub first_source : List Address → Option Address
first_source [] = none
first_source (r ∷ _) = if r == "" then none else some r

-- `[s for s in all_servers if s not in chunk.replicas]`
abbrev pub targets : ChunkMetadata → Master → List Address
targets chunk m = keep (λ s. not (contains chunk.replicas s)) (Dict.keys m.last_seen)

-- The first target, if there is one.
unfoldable pub call_to : Address → ℕ → List Address → Option CopyCall
call_to source version [] = none
call_to source version (target ∷ _) =
    some (record { source = source; target = target; version = version })

-- `_rereplicate` up to the call.
unfoldable pub plan_copy : Handle → Master → Option CopyCall
unfolding call_to
plan_copy handle m = elim (Dict.get m.chunk_map handle) [
  | none ↦ none
  | some chunk ↦
      if leb 3 (length chunk.replicas) then none else (elim (first_source chunk.replicas) [
        | none ↦ none
        | some source ↦ call_to source (version_of m.store handle) (targets chunk m)
      ])
]

-- `_rereplicate` from the reply on. The chunk is the object that was read before the call: if it
-- left the map meanwhile, what is written to it is lost.
unfoldable pub finish_copy : Handle → CopyCall → CopyReply → Exec Master (Unit {0})
finish_copy handle call reply m = elim (reply_fault reply) [
  | some x ↦ (raised x, m)
  | none ↦ elim (Dict.get m.chunk_map handle) [
    | none ↦ (returned tt, m)
    | some chunk ↦ (
      returned tt,
      set_chunk handle (record chunk { replicas = chunk.replicas ++ call.target ∷ [] }) m,
    )
  ]
]

unfoldable pub rereplicate : Handle → CopyReply → Exec Master (Unit {0})
unfolding plan_copy finish_copy
rereplicate handle reply m = elim (plan_copy handle m) [
  | none ↦ (returned tt, m)
  | some call ↦ finish_copy handle call reply m
]

-- `chunk.primary if chunk.primary in healthy_replicas else healthy_replicas[0]`
abbrev pub repair_source : Option Address → Address → List Address → Address
repair_source none first healthy = first
repair_source (some primary) first healthy = if contains healthy primary then primary else first

unfoldable pub plan_repair : Handle → Address → Master → Option CopyCall
plan_repair handle stale_address m = elim (Dict.get m.chunk_map handle) [
  | none ↦ none
  | some chunk ↦ elim (healthy_replicas chunk) [
    | [] ↦ none
    | first ∷ rest ↦ some (record {
      source = repair_source chunk.primary first (first ∷ rest);
      target = stale_address;
      version = version_of m.store handle;
    })
  ]
]

-- The chunk's lists after a repaired replica was moved from one to the other.
unfoldable pub mark_repaired : Address → ChunkMetadata → ChunkMetadata
mark_repaired address chunk = record chunk {
  stale_replicas =
      if contains chunk.stale_replicas address
      then remove address chunk.stale_replicas
      else chunk.stale_replicas;
  replicas =
      if contains chunk.replicas address then chunk.replicas else chunk.replicas ++ address ∷ [];
}

unfoldable pub finish_repair : Handle → Address → CopyReply → Exec Master (Unit {0})
finish_repair handle stale_address reply m = elim (reply_fault reply) [
  | some x ↦ (raised x, m)
  | none ↦ elim (Dict.get m.chunk_map handle) [
    | none ↦ (returned tt, m)
    | some chunk ↦ (returned tt, set_chunk handle (mark_repaired stale_address chunk) m)
  ]
]

unfoldable pub repair_stale_replica : Handle → Address → CopyReply → Exec Master (Unit {0})
unfolding plan_repair finish_repair
repair_stale_replica handle stale_address reply m = elim (plan_repair handle stale_address m) [
  | none ↦ (returned tt, m)
  | some _ ↦ finish_repair handle stale_address reply m
]

-- `except Exception: ... self._queue.put(...)`
abbrev pub or_retry : (Master → Master) → Outcome (Unit {0}) × Master → Master
or_retry retry (returned _, m) = m
or_retry retry (raised _, m) = retry m

-- `self._queue.get()` and the job; with an empty queue the worker waits.
unfoldable pub run_job : CopyReply → List (ℕ × Handle) → Master → Master
unfolding rereplicate put_job
run_job reply [] m = m
run_job reply ((priority, handle) ∷ jobs) m =
    or_retry (λ s. record s { queue = put_job (priority, handle) s.queue })
      (rereplicate handle reply (record m { queue = jobs }))

-- One round of `_worker`
unfoldable pub worker : CopyReply → Master → Master
unfolding run_job
worker reply m = run_job reply m.queue m

unfoldable pub run_repair : CopyReply → List (Handle × Address) → Master → Master
unfolding repair_stale_replica
run_repair reply [] m = m
run_repair reply ((handle, stale_address) ∷ jobs) m =
    or_retry (λ s. record s { stale_queue = s.stale_queue ++ (handle, stale_address) ∷ [] })
      (repair_stale_replica handle stale_address reply (record m { stale_queue = jobs }))

-- One round of `_stale_worker`
unfoldable pub stale_worker : CopyReply → Master → Master
unfolding run_repair
stale_worker reply m = run_repair reply m.stale_queue m
