-- ===== src/Replication/Rounds.antt =====
-- What a round of each worker does, by the reply of the chunkserver.
use mathlib.Core.List.{Perm}
use google_file_system.Prelude.{
  sym, subst, ℕ, ◌≤◌, ◌≡◌, ◌≢◌, refl, true, false, List, [], ◌∷◌, ◌++◌, some, none, inl, inr,
  List-cases, Option, Bool-cases, contains, length, length-append, contains-append,
  contains-remove_self, contains-keep, not, arith, nat_eq, string_eq,
}
use google_file_system.Dict
use google_file_system.Dict.{get-put}
use google_file_system.Metadata.{Address, Handle, ChunkMetadata, version_of}
use google_file_system.Replication.{
  CopyCall, CopyReply, copied, refused, unreachable, plan_copy, finish_copy, rereplicate,
  plan_repair, finish_repair, repair_stale_replica, mark_repaired, repair_source, worker,
  stale_worker, put_job,
}
use google_file_system.Replication.Jobs.{IsOrdered, put_job-IsOrdered}
use google_file_system.Replication.Plans.{IsPlanned, plan_copy-IsPlanned}
use google_file_system.State.{Master, set_chunk, healthy_replicas}
use google_file_system.System.Replicas.{IsTidy}

-- The queue with a job at its head, over the rest of the state.
abbrev pub with_job : ℕ → Handle → List (ℕ × Handle) → Master → Master
with_job p h jobs m = record m { queue = (p, h) ∷ jobs }

abbrev pub with_repair : Handle → Address → List (Handle × Address) → Master → Master
with_repair h a jobs m = record m { stale_queue = (h, a) ∷ jobs }

module _ (m : Master) (p : ℕ) (h : Handle) (jobs : List (ℕ × Handle)) where
  retried_at :
      (call : CopyCall) (reply : CopyReply)
      → plan_copy h m ≡ some call
      → reply ≢ copied
      → worker reply (with_job p h jobs m) ≡ record m { queue = put_job (p, h) jobs }
  unfolding worker rereplicate finish_copy plan_copy
  retried_at call copied e n = absurd (n refl)
  retried_at call (refused text) e n = rw (e, rereplicate)
  retried_at call unreachable e n = rw (e, rereplicate)

  -- The queue has the jobs that it had, in order, and nothing else changed.
  abbrev pub Retried : CopyReply → Type 0
  Retried reply =
      let n = worker reply (with_job p h jobs m) in
      Perm n.queue ((p, h) ∷ jobs) × IsOrdered n.queue × (n ≡ record m { queue = n.queue })

  -- A job with a planned copy that fails or is refused is not lost: if the jobs behind it are in
  -- order, then the queue holds it and them, each as often as before, in order, and nothing else
  -- changes.
  pub worker_retries :
      (call : CopyCall) (reply : CopyReply)
      → IsOrdered jobs
      → plan_copy h m ≡ some call
      → reply ≢ copied
      → Retried reply
  worker_retries call reply o e n =
      let (ordered, same) = put_job-IsOrdered (p, h) jobs o in
      subst
        (λ (k : Master).
          Perm k.queue ((p, h) ∷ jobs) × IsOrdered k.queue × (k ≡ record m { queue = k.queue }))
        (sym (retried_at call reply e n)) (same, ordered, refl)

  -- A job for which there is nothing to do is dropped.
  pub worker_drops :
      (reply : CopyReply)
      → plan_copy h m ≡ none
      → worker reply (with_job p h jobs m) ≡ record m { queue = jobs }
  unfolding worker plan_copy
  worker_drops reply e = rw (e, rereplicate)

  abbrev pub Copies : CopyCall → ChunkMetadata → Type 0
  Copies call c =
      let copy = record c { replicas = c.replicas ++ call.target ∷ [] } in
      IsPlanned h m call c
      × (worker copied (with_job p h jobs m) ≡ set_chunk h copy (record m { queue = jobs }))
      × (length copy.replicas ≤ 3)

  -- A planned copy of a known chunk that succeeds is of a chunk with fewer than three replicas,
  -- from the first of them to a server that was heard of and held none; that server becomes the
  -- last replica, and there are still at most three.
  pub worker-Copies :
      (call : CopyCall) (c : ChunkMetadata)
      → Dict.get m.chunk_map h ≡ some c
      → plan_copy h m ≡ some call
      → Copies call c
  unfolding worker plan_copy
  worker-Copies call c e f =
      let planned = plan_copy-IsPlanned h m call c e f in
      (
        planned,
        rw (f, rereplicate) (rw (e, finish_copy)),
        omega (arith, planned.short, length-append c.replicas (call.target ∷ [])),
      )

source-contains :
    (primary : Option Address) (first : Address) (rest : List Address)
    → contains (first ∷ rest) (repair_source primary first (first ∷ rest)) ≡ true
source-contains none first rest = ground arith
source-contains (some p) first rest = ground (arith, Bool-cases (contains (first ∷ rest) p))

contains-last : (xs : List Address) (a : Address) → contains (xs ++ a ∷ []) a ≡ true
contains-last xs a = ground (arith, contains-append xs (a ∷ []) a)

module _ (m : Master) (h : Handle) (a : Address) (jobs : List (Handle × Address)) where
  pub plan_repair-source :
      (call : CopyCall) (c : ChunkMetadata)
      → Dict.get m.chunk_map h ≡ some c
      → plan_repair h a m ≡ some call
      → (contains c.replicas call.source ≡ true)
        × (contains c.stale_replicas call.source ≡ false)
        × (call.target ≡ a)
        × (call.version ≡ version_of m.store h)
  unfolding plan_repair
  plan_repair-source call c e f = elim (List-cases (healthy_replicas c)) [
    | inl n ↦ ground arith
    | inr (first, rest, s) ↦ ground (
      arith,
      source-contains c.primary first rest,
      contains-keep (λ r. not (contains c.stale_replicas r)) c.replicas call.source,
    )
  ]

  -- A planned repair that fails or is refused goes to the end of its queue, and nothing else
  -- changes.
  pub stale_worker_retries :
      (call : CopyCall) (reply : CopyReply)
      → plan_repair h a m ≡ some call
      → reply ≢ copied
      → stale_worker reply (with_repair h a jobs m) ≡ record m { stale_queue = jobs ++ (h, a) ∷ [] }
  unfolding stale_worker repair_stale_replica finish_repair plan_repair
  stale_worker_retries call copied e n = absurd (n refl)
  stale_worker_retries call (refused text) e n = rw (e, repair_stale_replica)
  stale_worker_retries call unreachable e n = rw (e, repair_stale_replica)

  abbrev pub Repairs : CopyCall → ChunkMetadata → Type 0
  Repairs call c =
      (contains c.replicas call.source ≡ true)
      × (contains c.stale_replicas call.source ≡ false)
      × (call.version ≡ version_of m.store h)
      × (stale_worker copied (with_repair h a jobs m)
          ≡ set_chunk h (mark_repaired a c) (record m { stale_queue = jobs }))
      × (contains (mark_repaired a c).replicas a ≡ true)
      × (contains (mark_repaired a c).stale_replicas a ≡ false)

  -- A planned repair of a known chunk, whose lists have no repetition, that succeeds copied the
  -- chunk, at the master's version, from a replica that is not stale; the repaired server is then
  -- a replica and no stale one.
  pub stale_worker-Repairs :
      (call : CopyCall) (c : ChunkMetadata)
      → IsTidy c
      → Dict.get m.chunk_map h ≡ some c
      → plan_repair h a m ≡ some call
      → Repairs call c
  unfolding stale_worker plan_repair mark_repaired
  stale_worker-Repairs call c t e f =
      let (held, sound, _, version) = plan_repair-source call c e f in
      (
        held,
        sound,
        version,
        rw (f, repair_stale_replica) (rw (e, finish_repair)),
        ground (arith, contains-last c.replicas a),
        ground (arith, contains-remove_self a c.stale_replicas t.stale_replicas),
      )
