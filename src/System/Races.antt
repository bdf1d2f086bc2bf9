-- ===== src/System/Races.antt =====
-- What may happen between the two halves of a worker's round.
use mathlib.Core.List.{append_assoc}
use google_file_system.Prelude.{
  ◌≡◌, refl, true, false, List, [], ◌∷◌, ◌++◌, some, contains, contains-append, IsDistinct, remove,
  beq_of_eq, arith, nat_eq, string_eq,
}
use google_file_system.Dict
use google_file_system.Dict.{get-put}
use google_file_system.Heartbeat.{report, mark_current, drop_replica}
use google_file_system.Metadata.{Address, Handle, ChunkMetadata, version_of}
use google_file_system.Replication.{CopyCall, copied, plan_copy, finish_copy}
use google_file_system.Replication.Plans.{plan_copy-IsPlanned}
use google_file_system.State.{Master}

-- A list with a member behind itself.
not-IsDistinct : (xs : List Address) (a : Address) → ¬ IsDistinct (xs ++ a ∷ a ∷ [])
not-IsDistinct [] a d = ground arith
not-IsDistinct (x ∷ xs) a d = not-IsDistinct xs a d.1

remove-append : (xs : List Address) (a : Address) → contains (remove a (xs ++ a ∷ a ∷ [])) a ≡ true
remove-append [] a = ground arith
remove-append (x ∷ xs) a = ground (arith, remove-append xs a, contains-append xs (a ∷ a ∷ []) a)

report-get :
    (a : Address) (h : Handle) (m : Master) (c : ChunkMetadata)
    → Dict.get m.chunk_map h ≡ some c
    → Dict.get (report a h (version_of m.store h) m).chunk_map h ≡ some (mark_current a c)
unfolding report
report-get a h m c e = ground (arith, get-put m.chunk_map h h (mark_current a c))

pub finish_copy-get :
    (h : Handle) (m : Master) (call : CopyCall) (c : ChunkMetadata)
    → Dict.get m.chunk_map h ≡ some c
    → Dict.get (finish_copy h call copied m).1.chunk_map h
      ≡ some (record c { replicas = c.replicas ++ call.target ∷ [] })
unfolding finish_copy
finish_copy-get h m call c e = rw (e, finish_copy) (rw get-put (rw (beq_of_eq h h refl) refl))

replicas-mark_current :
    (a : Address) (c : ChunkMetadata)
    → contains c.replicas a ≡ false
    → (mark_current a c).replicas ++ a ∷ [] ≡ c.replicas ++ a ∷ a ∷ []
unfolding mark_current
replicas-mark_current a c n = rw n (append_assoc c.replicas (a ∷ []) (a ∷ []))

abbrev pub ListedTwice : Handle → Master → CopyCall → ChunkMetadata → Type 0
ListedTwice h m call c =
    let reported = report call.target h (version_of m.store h) m in
    (d : ChunkMetadata) × (Dict.get (finish_copy h call copied reported).1.chunk_map h ≡ some d)
    × (¬ IsDistinct d.replicas)
    × (contains (drop_replica call.target d).replicas call.target ≡ true)

-- If the server that a known chunk is planned to be copied to reports the chunk at the master's
-- version before the reply of the copy, which succeeded, is worked on, then it is listed as a
-- replica twice, and it is still listed after it was found dead and dropped.
pub finish_copy-report :
    (h : Handle) (m : Master) (call : CopyCall) (c : ChunkMetadata)
    → Dict.get m.chunk_map h ≡ some c
    → plan_copy h m ≡ some call
    → ListedTwice h m call c
unfolding drop_replica
finish_copy-report h m call c e f =
    let a = call.target in
    let new = (plan_copy-IsPlanned h m call c e f).new_target in
    let twice = replicas-mark_current a c new in
    let marked = mark_current a c in
    (
      record marked { replicas = marked.replicas ++ a ∷ [] },
      finish_copy-get h _ call marked (report-get a h m c e),
      (λ d. not-IsDistinct c.replicas a (rw twice at d)),
      rw twice
          (ground (arith, remove-append c.replicas a, contains-append c.replicas (a ∷ a ∷ []) a)),
    )
