-- ===== src/System.antt =====
-- The master as a state machine: the requests that it serves and the rounds of its background
-- threads, in any order; `random.sample` is a parameter. A lookup and a worker's round are there
-- both as one step and in the parts between which other requests are served: `finds` (under the
-- locks), `tests` and `grants` for the lookup, `takes_job` and `copy_answered`, or `takes_repair` and
-- `repair_answered`, for a worker, which waits for the copy between the two.
pub mod Frame
pub mod Ownership
pub mod Invariant
pub mod Replicas
pub mod Tidy
pub mod Leases
pub mod Races
pub mod Collection
pub mod Recovery
pub mod Locking
pub mod Placement
pub mod Indexing
pub mod Lookups
pub mod Renewals
pub mod Healing
pub mod Regrants
pub mod Padding
pub mod Deletions
use google_file_system.Prelude.{
  ℕ, ◌≤◌, ◌≡◌, String, true, List, [], ◌∷◌, ℤ, contains, IsDistinct, length, string_eq, Outcome,
  ◌++◌,
}
use google_file_system.Files.{create_file_handler, delete_file_handler}
use google_file_system.GarbageCollection.{scan_and_collect}
use google_file_system.Heartbeat.{check_dead_servers}
use google_file_system.Locations.{
  ChunkLocRequest, Readings, locate, get_chunk_locations, heartbeat_handler,
}
use google_file_system.Lease.{grant_lease}
use google_file_system.Metadata.{Time, Address, Handle}
use google_file_system.Replication.{
  CopyCall, CopyReply, worker, stale_worker, or_retry, put_job, finish_copy, finish_repair,
}
use google_file_system.State.{Master, with_locks}

-- What Python documents of `random.sample`, in which a draw may depend on the time at which the chunk
-- is allocated: so many members of the population, from places that differ.
pub record IsSampler (sample : Time → List Address → ℕ → List Address) : Type 0 where
  pub from_population :
      (t : Time) (xs : List Address) (k : ℕ) (a : Address)
      → contains (sample t xs k) a ≡ true
      → contains xs a ≡ true
  pub distinct : (t : Time) (xs : List Address) (k : ℕ) → IsDistinct xs → IsDistinct (sample t xs k)
  pub size : (t : Time) (xs : List Address) (k : ℕ) → k ≤ length xs → length (sample t xs k) ≡ k

pub data Event : Type 0 where
  creates : (filename : String) (created_at logged_at : Time) → Event
  deletes : (filename : String) (named_at deleted_at logged_at : Time) → Event
  locates : ChunkLocRequest → Readings → Event
  beats : (now : Time) (address : Address) (handles : List Handle) (versions : List ℕ) → Event
  checks_servers : (now : Time) → Event
  scans : (now : Time) → Event
  copies : CopyReply → Event
  repairs : CopyReply → Event
  finds : ChunkLocRequest → (allocated_at : Time) → Event
  tests : Handle → (tested_at : Time) → Event
  grants : Handle → (logged_at granted_at : Time) → Event
  takes_job : Event
  copy_answered : (priority : ℕ) → Handle → CopyCall → CopyReply → Event
  takes_repair : Event
  repair_answered : Handle → (stale_address : Address) → CopyReply → Event

-- `_scan_and_collect` on the store of the master.
abbrev pub scan_step : Time → Master → Master
scan_step now m = record m { store = (scan_and_collect now m.store).1 }

abbrev tail : {A : Type 0} → List A → List A
tail [] = []
tail (x ∷ xs) = xs

-- `self._queue.get()`
abbrev pub next_job : Master → Master
next_job m = record m { queue = tail m.queue }

abbrev pub next_repair : Master → Master
next_repair m = record m { stale_queue = tail m.stale_queue }

-- A round of `_worker` from the reply on, and one of `_stale_worker`
unfoldable pub end_copy : ℕ → Handle → CopyCall → CopyReply → Master → Master
end_copy priority handle call reply m =
    or_retry (λ s. record s { queue = put_job (priority, handle) s.queue })
      (finish_copy handle call reply m)

unfoldable pub end_repair : Handle → Address → CopyReply → Master → Master
end_repair handle stale_address reply m =
    or_retry (λ s. record s { stale_queue = s.stale_queue ++ (handle, stale_address) ∷ [] })
      (finish_repair handle stale_address reply m)

module _ (sample : Time → List Address → ℕ → List Address) where
  -- A step that raises has its effect up to there.
  unfoldable pub step : Event → Master → Master
  step (creates filename created_at logged_at) m =
      (create_file_handler filename created_at logged_at m).1
  step (deletes filename named_at deleted_at logged_at) m =
      (delete_file_handler filename named_at deleted_at logged_at m).1
  step (locates request times) m = (get_chunk_locations sample request times m).1
  step (beats now address handles versions) m = (heartbeat_handler now address handles versions m).1
  step (checks_servers now) m = check_dead_servers now m
  step (scans now) m = scan_step now m
  step (copies reply) m = worker reply m
  step (repairs reply) m = stale_worker reply m
  step (finds request allocated_at) m =
      (with_locks request.filename (locate sample request allocated_at) m).1
  step (tests handle tested_at) m = m
  step (grants handle logged_at granted_at) m = (grant_lease handle logged_at granted_at m).1
  step takes_job m = next_job m
  step (copy_answered priority handle call reply) m = end_copy priority handle call reply m
  step takes_repair m = next_repair m
  step (repair_answered handle stale_address reply) m = end_repair handle stale_address reply m

  unfoldable pub run : List Event → Master → Master
  unfolding step
  run [] m = m
  run (e ∷ es) m = run es (step e m)
