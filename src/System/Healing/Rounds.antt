-- ===== src/System/Healing/Rounds.antt =====
-- What a round that copies a chunk comes to: what the target holds, and where the master lists it
-- after the target's next heartbeat (chunkserver/heartbeat.cpp).
use google_file_system.Bytes.{Byte, drop}
use google_file_system.Chunkserver.{ChunkServer, Cluster, copy_chunk_to, max_message}
use google_file_system.Chunkserver.Copies.{IsCopied, copy_chunk_to-IsCopied}
use google_file_system.Dict
use google_file_system.Dict.{has, get-put}
use google_file_system.Heartbeat.{mark_current}
use google_file_system.Heartbeat.Reports.{SameElsewhere, mark_current-SameElsewhere}
use google_file_system.HeartbeatSender.{send_heartbeat}
use google_file_system.HeartbeatSender.Reports.{send_heartbeat-Heard}
use google_file_system.Metadata.{Time, Address, Handle, ChunkMetadata, version_of}
use google_file_system.Prelude.{
  ℕ, ◌+◌, ◌≤◌, ◌<◌, ◌≡◌, refl, sym, ap, ◌∙◌, subst, true, false, not, some, List, [], ◌∷◌, ◌++◌,
  inl, inr, returned, contains, contains-append, length, length-append, ◌==◌, arith, nat_eq,
  string_eq, append-IsDistinct, beq_of_eq,
}
use google_file_system.Replication.{
  CopyCall, copied, plan_copy, finish_copy, plan_repair, finish_repair, mark_repaired,
}
use google_file_system.Replication.Plans.{plan_copy-IsPlanned}
use google_file_system.Replication.Rounds.{plan_repair-source}
use google_file_system.State.{Master, set_chunk}
use google_file_system.Storage.{contents, get_version}
use google_file_system.Storage.Laws.{has-contents}
use google_file_system.System.Healing.{rereplicate_at, repair_at, worker_at, stale_worker_at}
use google_file_system.System.Replicas.{IsTidy, mark_repaired-IsTidy}

-- A server has these bytes of a chunk, at a version, and after its next heartbeat it is listed as a
-- replica and not as a stale one; other servers, and their places in the lists, stay as they were.
pub record IsHealed (now : Time) (a : Address) (h : Handle) (v : ℕ) (bytes : List Byte)
    (c : ChunkMetadata) (before : Cluster) (n : Master) (after : Cluster) : Type 0 where
  pub server : ChunkServer
  pub running : Dict.get after a ≡ some server
  pub file : contents server.storage h ≡ bytes
  pub versioned : get_version h server.storage ≡ v
  pub others : (b : Address) → (b == a) ≡ false → Dict.get after b ≡ Dict.get before b
  pub chunk : ChunkMetadata
  pub known : Dict.get (send_heartbeat now a server.storage n).1.chunk_map h ≡ some chunk
  pub replica : contains chunk.replicas a ≡ true
  pub stale : contains chunk.stale_replicas a ≡ false
  pub elsewhere : SameElsewhere a c chunk

SameElsewhere-trans :
    (a : Address) (c d e : ChunkMetadata)
    → SameElsewhere a c d
    → SameElsewhere a d e
    → SameElsewhere a c e
SameElsewhere-trans a c d e p q = record {
  replicas = λ b n. q.replicas b n ∙ p.replicas b n;
  stale_replicas = λ b n. q.stale_replicas b n ∙ p.stale_replicas b n;
  primary = q.primary ∙ p.primary;
}

copied-IsHealed :
    (now : Time) (a : Address) (h : Handle) (source old : List Byte) (c d : ChunkMetadata)
    (before : Cluster) (n : Master) (after : Cluster)
    → 0 < length source
    → IsCopied before after a h (version_of n.store h) source old
    → Dict.get n.chunk_map h ≡ some d
    → IsTidy d
    → SameElsewhere a c d
    → IsHealed now a h (version_of n.store h) (source ++ drop (length source) old) c before n after
copied-IsHealed now a h source old c d before n after l copy e t same =
    let storage = copy.server.storage in
    let held = ap (λ (f : List Byte). length f) copy.file in
    let there =
      has-contents h storage
        (omega (arith, held, length-append source (drop (length source) old))) in
    let (chunk, known, heard) = send_heartbeat-Heard now a h storage n d e t in
    elim heard [
      | inl (gone, _) ↦ absurd (cc (gone, there))
      | inr (_, listed) ↦
          let level = beq_of_eq (get_version h storage) (version_of n.store h) copy.versioned in
          record {
            server = copy.server;
            running = copy.running;
            file = copy.file;
            versioned = copy.versioned;
            others = copy.elsewhere;
            chunk = chunk;
            known = known;
            replica = listed.replica ∙ level;
            stale = listed.stale ∙ ap not level;
            elsewhere = SameElsewhere-trans a c d chunk same listed.elsewhere;
          }
    ]

get-set_chunk :
    (h : Handle) (c : ChunkMetadata) (m : Master) → Dict.get (set_chunk h c m).chunk_map h ≡ some c
get-set_chunk h c m = ground (arith, get-put m.chunk_map h h c)

mark_repaired-SameElsewhere :
    (a : Address) (c : ChunkMetadata) → SameElsewhere a c (mark_repaired a c)
unfolding mark_repaired mark_current
mark_repaired-SameElsewhere a c = mark_current-SameElsewhere a c

-- A round whose copy succeeds.
repair_round :
    (m : Master) (cluster : Cluster) (h : Handle) (a : Address) (jobs : List (Handle × Address))
    (call : CopyCall) (c : ChunkMetadata)
    → Dict.get m.chunk_map h ≡ some c
    → plan_repair h a m ≡ some call
    → (copy_chunk_to call.source h call.target call.version cluster).0 ≡ returned copied
    → stale_worker_at ((h, a) ∷ jobs) m cluster ≡ (
      set_chunk h (mark_repaired a c) (record m { stale_queue = jobs }),
      (copy_chunk_to call.source h call.target call.version cluster).1,
    )
unfolding stale_worker_at repair_at plan_repair finish_repair
repair_round m cluster h a jobs call c e plan ok =
    rw (plan, repair_at) (rw (ok, finish_repair) (rw (e, finish_repair) refl))

-- If a repair of a server is planned for a chunk that the master knows, whose lists have no
-- repetition, the source holds at least one byte and, so that they fit in a message of 4 MB, at
-- most 4 MB less 1 KB of the chunk, and both servers run, then after the round the
-- server has the bytes of the source, and behind them what it held from there on, at the master's
-- version. After its next heartbeat it is listed as a replica and not as a stale one. Other servers,
-- and their places in the lists, stay as they were.
pub stale_worker_at-IsHealed :
    (now : Time) (m : Master) (cluster : Cluster) (h : Handle) (a : Address)
    (jobs : List (Handle × Address)) (call : CopyCall) (c : ChunkMetadata) (s t : ChunkServer)
    → Dict.get m.chunk_map h ≡ some c
    → IsTidy c
    → plan_repair h a m ≡ some call
    → Dict.get cluster call.source ≡ some s
    → 0 < length (contents s.storage h)
    → length (contents s.storage h) + 1024 ≤ max_message
    → Dict.get cluster a ≡ some t
    → IsHealed now a h
        (version_of m.store h)
        (contents s.storage h ++ drop (length (contents s.storage h)) (contents t.storage h))
        c
        cluster
        (stale_worker_at ((h, a) ∷ jobs) m cluster).0
        (stale_worker_at ((h, a) ∷ jobs) m cluster).1
unfolding stale_worker_at repair_at
stale_worker_at-IsHealed now m cluster h a jobs call c s t e tidy plan run l small target =
    let (_, _, same, current) = plan_repair-source m h a jobs call c e plan in
    let source = contents s.storage h in
    let old = contents t.storage h in
    let (ok, copy) =
      copy_chunk_to-IsCopied call.source h call.target call.version cluster s t run l small
        (ap (Dict.get cluster) same ∙ target) in
    let after = (copy_chunk_to call.source h call.target call.version cluster).1 in
    let n = set_chunk h (mark_repaired a c) (record m { stale_queue = jobs }) in
    let copy' = subst (λ x. IsCopied cluster after x h call.version source old) same copy in
    let copy'' = subst (λ v. IsCopied cluster after a h v source old) current copy' in
    subst
      (λ (r : Master × Cluster).
        IsHealed now a h (version_of m.store h) (source ++ drop (length source) old) c cluster r.0
          r.1)
      (sym (repair_round m cluster h a jobs call c e plan ok))
      (copied-IsHealed now a h source old c (mark_repaired a c) cluster n after l copy''
        (get-set_chunk h (mark_repaired a c) (record m { stale_queue = jobs }))
        (mark_repaired-IsTidy a c tidy) (mark_repaired-SameElsewhere a c))

copy_round :
    (m : Master) (cluster : Cluster) (p : ℕ) (h : Handle) (jobs : List (ℕ × Handle))
    (call : CopyCall) (c : ChunkMetadata)
    → Dict.get m.chunk_map h ≡ some c
    → plan_copy h m ≡ some call
    → (copy_chunk_to call.source h call.target call.version cluster).0 ≡ returned copied
    → worker_at ((p, h) ∷ jobs) m cluster ≡ (
      set_chunk h
          (record c { replicas = c.replicas ++ call.target ∷ [] })
          (record m { queue = jobs }),
      (copy_chunk_to call.source h call.target call.version cluster).1,
    )
unfolding worker_at rereplicate_at plan_copy finish_copy
copy_round m cluster p h jobs call c e plan ok =
    rw (plan, rereplicate_at) (rw (ok, finish_copy) (rw (e, finish_copy) refl))

module _ (a : Address) (c : ChunkMetadata) where
  appended : ChunkMetadata
  appended = record c { replicas = c.replicas ++ a ∷ [] }

  appended-SameElsewhere : SameElsewhere a c appended
  unfolding appended
  appended-SameElsewhere = record {
    replicas = λ b n. ground (arith, contains-append c.replicas (a ∷ []) b);
    stale_replicas = λ b n. refl;
    primary = refl;
  }

  appended-IsTidy : IsTidy c → contains c.replicas a ≡ false → IsTidy appended
  unfolding appended
  appended-IsTidy t new = record {
    replicas = append-IsDistinct a c.replicas new t.replicas;
    stale_replicas = t.stale_replicas;
  }

-- If a copy of a chunk that the master knows, whose lists have no repetition, is planned, the source
-- holds at least one byte and, so that they fit in a message of 4 MB, at most 4 MB less 1 KB of the
-- chunk, and both servers run, then after the round the target has the bytes of
-- the source, and behind them what it held from there on, at the master's version. After its next
-- heartbeat it is listed as a replica and not as a stale one. Other servers, and their places in the
-- lists, stay as they were.
pub worker_at-IsHealed :
    (now : Time) (m : Master) (cluster : Cluster) (p : ℕ) (h : Handle) (jobs : List (ℕ × Handle))
    (call : CopyCall) (c : ChunkMetadata) (s t : ChunkServer)
    → Dict.get m.chunk_map h ≡ some c
    → IsTidy c
    → plan_copy h m ≡ some call
    → Dict.get cluster call.source ≡ some s
    → 0 < length (contents s.storage h)
    → length (contents s.storage h) + 1024 ≤ max_message
    → Dict.get cluster call.target ≡ some t
    → IsHealed now call.target h
        (version_of m.store h)
        (contents s.storage h ++ drop (length (contents s.storage h)) (contents t.storage h))
        c
        cluster
        (worker_at ((p, h) ∷ jobs) m cluster).0
        (worker_at ((p, h) ∷ jobs) m cluster).1
unfolding worker_at rereplicate_at appended
worker_at-IsHealed now m cluster p h jobs call c s t e tidy plan run l small target =
    let planned = plan_copy-IsPlanned h m call c e plan in
    let source = contents s.storage h in
    let old = contents t.storage h in
    let (ok, copy) =
      copy_chunk_to-IsCopied call.source h call.target call.version cluster s t run l small
        target in
    let after = (copy_chunk_to call.source h call.target call.version cluster).1 in
    let n = set_chunk h (appended call.target c) (record m { queue = jobs }) in
    let copy' =
      subst (λ v. IsCopied cluster after call.target h v source old) planned.at_version copy in
    subst
      (λ (r : Master × Cluster).
        IsHealed now call.target h (version_of m.store h) (source ++ drop (length source) old) c
          cluster r.0 r.1)
      (sym (copy_round m cluster p h jobs call c e plan ok))
      (copied-IsHealed now call.target h source old c (appended call.target c) cluster n after l
        copy' (get-set_chunk h (appended call.target c) (record m { queue = jobs }))
        (appended-IsTidy call.target c tidy planned.new_target)
        (appended-SameElsewhere call.target c))
