-- ===== src/System/Healing.antt =====
-- The rounds of master/replication.py together with the chunkservers that they call.
pub mod Rounds
use google_file_system.Chunkserver.{Cluster, copy_chunk_to}
use google_file_system.Metadata.{Address, Handle}
use google_file_system.Prelude.{ℕ, none, some, List, [], ◌∷◌, ◌++◌, Outcome, returned, raised}
use google_file_system.Replication.{
  CopyCall, CopyReply, unreachable, plan_copy, finish_copy, plan_repair, finish_repair, or_retry,
  put_job,
}
use google_file_system.State.{Master}

-- What the stub's call comes to: the reply, or an RPC error.
abbrev pub reply_of : Outcome CopyReply → CopyReply
reply_of (returned reply) = reply
reply_of (raised _) = unreachable

abbrev pub call_copy : Handle → CopyCall → Cluster → CopyReply × Cluster
call_copy handle call c =
    let (outcome, after) = copy_chunk_to call.source handle call.target call.version c in
    (reply_of outcome, after)

-- `_rereplicate`, the call of the source included.
unfoldable pub rereplicate_at : Handle → Master → Cluster → (Outcome (Unit {0}) × Master) × Cluster
rereplicate_at handle m c = elim (plan_copy handle m) [
  | none ↦ ((returned tt, m), c)
  | some call ↦
      let (reply, after) = call_copy handle call c in (finish_copy handle call reply m, after)
]

unfoldable pub repair_at :
    Handle → Address → Master → Cluster → (Outcome (Unit {0}) × Master) × Cluster
repair_at handle stale_address m c = elim (plan_repair handle stale_address m) [
  | none ↦ ((returned tt, m), c)
  | some call ↦
      let (reply, after) = call_copy handle call c in
      (finish_repair handle stale_address reply m, after)
]

-- One round of `_worker`
unfoldable pub worker_at : List (ℕ × Handle) → Master → Cluster → Master × Cluster
worker_at [] m c = (m, c)
worker_at ((priority, handle) ∷ jobs) m c =
    let (result, after) = rereplicate_at handle (record m { queue = jobs }) c in
    (or_retry (λ s. record s { queue = put_job (priority, handle) s.queue }) result, after)

-- One round of `_stale_worker`
unfoldable pub stale_worker_at : List (Handle × Address) → Master → Cluster → Master × Cluster
stale_worker_at [] m c = (m, c)
stale_worker_at ((handle, stale_address) ∷ jobs) m c =
    let (result, after) = repair_at handle stale_address (record m { stale_queue = jobs }) c in
    (
      or_retry (λ s. record s { stale_queue = s.stale_queue ++ (handle, stale_address) ∷ [] })
          result,
      after,
    )
