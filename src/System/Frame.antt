-- ===== src/System/Frame.antt =====
-- What the steps that work on replicas, leases and servers leave alone.
use google_file_system.Prelude.{
  ℕ, ◌≡◌, refl, ◌∙◌, Bool, List, [], ◌++◌, ◌∷◌, Option, none, Option-cases, inl, inr, some, arith,
  ◌==◌, nat_eq, string_eq, contains, if◌then◌else◌, true, false, Outcome, returned, raised,
}
use google_file_system.Dict
use google_file_system.Dict.{Dict, dict_laws, get-put, get-map_values, has}
use google_file_system.Heartbeat.{
  report, report_stale, report_each, handle_heartbeat, forget_server, enqueue_each, handle_failure,
  fail_each, is_short, is_silent, check_dead_servers, mark_stale, mark_current, drop_replica,
}
use google_file_system.Lease.{grant_lease, grant_first}
use google_file_system.Metadata.{Time, Address, Handle, ChunkMetadata, version_of}
use google_file_system.Replication.{
  CopyCall, CopyReply, copied, high, enqueue, plan_copy, finish_copy, rereplicate, plan_repair,
  finish_repair, repair_stale_replica, mark_repaired, worker, stale_worker, run_job, run_repair,
  or_retry,
}
use google_file_system.State.{Master, set_chunk, healthy_replicas}

-- The files, their chunk lists and the set of known chunks are the same.
pub record KeepsFiles (m n : Master) : Type 0 where
  pub namespace : n.namespace ≡ m.namespace
  pub file_chunks : n.file_chunks ≡ m.file_chunks
  pub next_handle : n.next_handle ≡ m.next_handle
  pub gc_pending : n.gc_pending ≡ m.gc_pending
  pub known : (h : Handle) → has n.chunk_map h ≡ has m.chunk_map h

-- Who holds a chunk's lease, and until when.
abbrev pub lease_of : Option ChunkMetadata → Option (Option Address × Time)
lease_of none = none
lease_of (some c) = some (c.primary, c.lease_expiry)

-- And so are the leases, the versions and the log.
pub record IsQuiet (m n : Master) : Type 0 where
  pub files : KeepsFiles m n
  pub open files use *
  pub leases : (h : Handle) → lease_of (Dict.get n.chunk_map h) ≡ lease_of (Dict.get m.chunk_map h)
  pub chunk_versions : n.chunk_versions ≡ m.chunk_versions
  pub oplog : n.oplog ≡ m.oplog

pub KeepsFiles-refl : (m : Master) → KeepsFiles m m
KeepsFiles-refl m = record {
  namespace = refl;
  file_chunks = refl;
  next_handle = refl;
  gc_pending = refl;
  known = λ h. refl;
}

pub KeepsFiles-trans : {m n o : Master} → KeepsFiles m n → KeepsFiles n o → KeepsFiles m o
KeepsFiles-trans f g = record {
  namespace = g.namespace ∙ f.namespace;
  file_chunks = g.file_chunks ∙ f.file_chunks;
  next_handle = g.next_handle ∙ f.next_handle;
  gc_pending = g.gc_pending ∙ f.gc_pending;
  known = λ h. g.known h ∙ f.known h;
}

pub IsQuiet-refl : (m : Master) → IsQuiet m m
IsQuiet-refl m = record {
  files = KeepsFiles-refl m;
  leases = λ h. refl;
  chunk_versions = refl;
  oplog = refl;
}

pub IsQuiet-trans : {m n o : Master} → IsQuiet m n → IsQuiet n o → IsQuiet m o
IsQuiet-trans f g = record {
  files = KeepsFiles-trans f.files g.files;
  leases = λ h. g.leases h ∙ f.leases h;
  chunk_versions = g.chunk_versions ∙ f.chunk_versions;
  oplog = g.oplog ∙ f.oplog;
}

-- Writing to a chunk that is there.
known-put :
    (m : Master) (h : Handle) (old new : ChunkMetadata) (k : Handle)
    → Dict.get m.chunk_map h ≡ some old
    → has (Dict.put m.chunk_map h new) k ≡ has m.chunk_map k
known-put m h old new k e = ground (arith, get-put m.chunk_map h k new)

pub set_chunk-KeepsFiles :
    (m : Master) (h : Handle) (old new : ChunkMetadata)
    → Dict.get m.chunk_map h ≡ some old
    → KeepsFiles m (set_chunk h new m)
set_chunk-KeepsFiles m h old new e = record {
  namespace = refl;
  file_chunks = refl;
  next_handle = refl;
  gc_pending = refl;
  known = λ k. known-put m h old new k e;
}

-- Writing to a chunk's lists, its lease left as it is.
pub set_chunk-IsQuiet :
    (m : Master) (h : Handle) (old new : ChunkMetadata)
    → Dict.get m.chunk_map h ≡ some old
    → lease_of (some new) ≡ lease_of (some old)
    → IsQuiet m (set_chunk h new m)
set_chunk-IsQuiet m h old new e l = record {
  files = set_chunk-KeepsFiles m h old new e;
  leases = λ k. ground (arith, get-put m.chunk_map h k new);
  chunk_versions = refl;
  oplog = refl;
}

-- A change of the queues and the servers only.
pub IsQuiet-requeue :
    (m : Master) (seen : Dict Address Time) (q : List (ℕ × Handle)) (r : List (Handle × Address))
    → IsQuiet m (record m { last_seen = seen; queue = q; stale_queue = r })
IsQuiet-requeue m seen q r = record {
  files = record {
    namespace = refl;
    file_chunks = refl;
    next_handle = refl;
    gc_pending = refl;
    known = λ h. refl;
  };
  leases = λ h. refl;
  chunk_versions = refl;
  oplog = refl;
}

IsQuiet-if :
    {m n o : Master} (b : Bool) → IsQuiet m n → IsQuiet m o → IsQuiet m (if b then n else o)
IsQuiet-if true p q = p
IsQuiet-if false p q = q

report_stale-IsQuiet :
    (a : Address) (h : Handle) (c : ChunkMetadata) (m : Master)
    → Dict.get m.chunk_map h ≡ some c
    → IsQuiet m (report_stale a h c m)
unfolding report_stale mark_stale
report_stale-IsQuiet a h c m e =
    let marked = set_chunk-IsQuiet m h c (mark_stale a c) e refl in
    IsQuiet-if (contains c.stale_replicas a) marked (IsQuiet-trans marked (IsQuiet-requeue _ _ _ _))

pub report-IsQuiet : (a : Address) (h : Handle) (v : ℕ) (m : Master) → IsQuiet m (report a h v m)
unfolding report mark_current
report-IsQuiet a h v m = elim (Option-cases (Dict.get m.chunk_map h)) [
  | inl e ↦ rw (e, report) (IsQuiet-refl m)
  | inr (c, e) ↦
      rw (e, report)
        (IsQuiet-if (v == version_of m.store h) (set_chunk-IsQuiet m h c (mark_current a c) e refl)
          (report_stale-IsQuiet a h c m e))
]

pub report_each-IsQuiet :
    (a : Address) (hs : List Handle) (vs : List ℕ) (m : Master) → IsQuiet m (report_each a hs vs m)
unfolding report_each
report_each-IsQuiet a (h ∷ hs) (v ∷ vs) m =
    IsQuiet-trans (report-IsQuiet a h v m) (report_each-IsQuiet a hs vs (report a h v m))
report_each-IsQuiet a _ _ m = IsQuiet-refl m

-- A heartbeat touches replica lists, the servers and the repair queue only.
pub handle_heartbeat-IsQuiet :
    (now : Time) (a : Address) (hs : List Handle) (vs : List ℕ) (m : Master)
    → IsQuiet m (handle_heartbeat now a hs vs m).1
unfolding handle_heartbeat
handle_heartbeat-IsQuiet now a hs vs m =
    IsQuiet-trans (IsQuiet-requeue m _ _ _) (report_each-IsQuiet a hs vs _)

forget_server-IsQuiet : (a : Address) (m : Master) → IsQuiet m (forget_server a m)
unfolding forget_server drop_replica
forget_server-IsQuiet a m = record {
  files = record {
    namespace = refl;
    file_chunks = refl;
    next_handle = refl;
    gc_pending = refl;
    known = λ h. ground (arith, get-map_values (drop_replica a) m.chunk_map h);
  };
  leases = λ h. ground (arith, get-map_values (drop_replica a) m.chunk_map h);
  chunk_versions = refl;
  oplog = refl;
}

enqueue_each-IsQuiet : (hs : List Handle) (m : Master) → IsQuiet m (enqueue_each hs m)
unfolding enqueue_each
enqueue_each-IsQuiet [] m = IsQuiet-refl m
enqueue_each-IsQuiet (h ∷ hs) m =
    IsQuiet-trans (IsQuiet-requeue m _ _ _) (enqueue_each-IsQuiet hs (enqueue h high m))

handle_failure-IsQuiet : (a : Address) (m : Master) → IsQuiet m (handle_failure a m)
unfolding handle_failure
handle_failure-IsQuiet a m = IsQuiet-trans (forget_server-IsQuiet a m) (
    enqueue_each-IsQuiet (Dict.keys_where is_short (forget_server a m).chunk_map)
      (forget_server a m))

fail_each-IsQuiet : (addrs : List Address) (m : Master) → IsQuiet m (fail_each addrs m)
unfolding fail_each
fail_each-IsQuiet [] m = IsQuiet-refl m
fail_each-IsQuiet (a ∷ addrs) m =
    IsQuiet-trans (handle_failure-IsQuiet a m) (fail_each-IsQuiet addrs (handle_failure a m))

pub check_dead_servers-IsQuiet : (now : Time) (m : Master) → IsQuiet m (check_dead_servers now m)
unfolding check_dead_servers
check_dead_servers-IsQuiet now m = fail_each-IsQuiet (Dict.keys_where (is_silent now) m.last_seen) m

pub finish_copy-IsQuiet :
    (h : Handle) (call : CopyCall) (reply : CopyReply) (m : Master)
    → IsQuiet m (finish_copy h call reply m).1
unfolding finish_copy
finish_copy-IsQuiet h call copied m = elim (Option-cases (Dict.get m.chunk_map h)) [
  | inl e ↦ rw (e, finish_copy) (IsQuiet-refl m)
  | inr (c, e) ↦
      rw (e, finish_copy)
        (set_chunk-IsQuiet m h c (record c { replicas = c.replicas ++ call.target ∷ [] }) e refl)
]
finish_copy-IsQuiet h call _ m = IsQuiet-refl m

pub rereplicate-IsQuiet :
    (h : Handle) (reply : CopyReply) (m : Master) → IsQuiet m (rereplicate h reply m).1
unfolding rereplicate
rereplicate-IsQuiet h reply m = elim (Option-cases (plan_copy h m)) [
  | inl e ↦ rw (e, rereplicate) (IsQuiet-refl m)
  | inr (call, e) ↦ rw (e, rereplicate) (finish_copy-IsQuiet h call reply m)
]

pub finish_repair-IsQuiet :
    (h : Handle) (a : Address) (reply : CopyReply) (m : Master)
    → IsQuiet m (finish_repair h a reply m).1
unfolding finish_repair mark_repaired
finish_repair-IsQuiet h a copied m = elim (Option-cases (Dict.get m.chunk_map h)) [
  | inl e ↦ rw (e, finish_repair) (IsQuiet-refl m)
  | inr (c, e) ↦ rw (e, finish_repair) (set_chunk-IsQuiet m h c (mark_repaired a c) e refl)
]
finish_repair-IsQuiet h a _ m = IsQuiet-refl m

pub repair_stale_replica-IsQuiet :
    (h : Handle) (a : Address) (reply : CopyReply) (m : Master)
    → IsQuiet m (repair_stale_replica h a reply m).1
unfolding repair_stale_replica
repair_stale_replica-IsQuiet h a reply m = elim (Option-cases (plan_repair h a m)) [
  | inl e ↦ rw (e, repair_stale_replica) (IsQuiet-refl m)
  | inr (call, e) ↦ rw (e, repair_stale_replica) (finish_repair-IsQuiet h a reply m)
]

pub or_retry-IsQuiet :
    (retry : Master → Master) (m : Master) (r : Outcome (Unit {0}) × Master)
    → ((n : Master) → IsQuiet n (retry n))
    → IsQuiet m r.1
    → IsQuiet m (or_retry retry r)
or_retry-IsQuiet retry m (returned _, n) f q = q
or_retry-IsQuiet retry m (raised _, n) f q = IsQuiet-trans q (f n)

run_job-IsQuiet :
    (reply : CopyReply) (q : List (ℕ × Handle)) (m : Master) → IsQuiet m (run_job reply q m)
unfolding run_job
run_job-IsQuiet reply [] m = IsQuiet-refl m
run_job-IsQuiet reply ((p, h) ∷ jobs) m =
    or_retry-IsQuiet _ m _ (λ n. IsQuiet-requeue n _ _ _)
      (IsQuiet-trans (IsQuiet-requeue m _ _ _) (rereplicate-IsQuiet h reply _))

pub worker-IsQuiet : (reply : CopyReply) (m : Master) → IsQuiet m (worker reply m)
unfolding worker
worker-IsQuiet reply m = run_job-IsQuiet reply m.queue m

run_repair-IsQuiet :
    (reply : CopyReply) (q : List (Handle × Address)) (m : Master)
    → IsQuiet m (run_repair reply q m)
unfolding run_repair
run_repair-IsQuiet reply [] m = IsQuiet-refl m
run_repair-IsQuiet reply ((h, a) ∷ jobs) m =
    or_retry-IsQuiet _ m _ (λ n. IsQuiet-requeue n _ _ _)
      (IsQuiet-trans (IsQuiet-requeue m _ _ _) (repair_stale_replica-IsQuiet h a reply _))

pub stale_worker-IsQuiet : (reply : CopyReply) (m : Master) → IsQuiet m (stale_worker reply m)
unfolding stale_worker
stale_worker-IsQuiet reply m = run_repair-IsQuiet reply m.stale_queue m

-- A grant changes the version, the log and the chunk's lease, and no file.
pub grant_lease-KeepsFiles :
    (h : Handle) (logged_at granted_at : Time) (m : Master)
    → KeepsFiles m (grant_lease h logged_at granted_at m).1
unfolding grant_lease
grant_lease-KeepsFiles h logged_at granted_at m = elim (Option-cases (Dict.get m.chunk_map h)) [
  | inl e ↦ rw (e, grant_lease) (KeepsFiles-refl m)
  | inr (c, e) ↦ rw (e, grant_lease) (grant_first-KeepsFiles (healthy_replicas c) c e)
]
  where
    grant_first-KeepsFiles :
        (rs : List Address) (c : ChunkMetadata)
        → Dict.get m.chunk_map h ≡ some c
        → KeepsFiles m (grant_first rs c h logged_at granted_at m).1
    grant_first-KeepsFiles [] c e = KeepsFiles-refl m
    grant_first-KeepsFiles (r ∷ rs) c e = record {
      namespace = refl;
      file_chunks = refl;
      next_handle = refl;
      gc_pending = refl;
      known = λ k. known-put m h c _ k e;
    }
