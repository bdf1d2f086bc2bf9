-- ===== src/System/Tidy.antt =====
-- The replica lists, as to repetition, under grants, scans and the rounds of the workers.
pub mod Step
use google_file_system.Prelude.{
  ℕ, String, ◌<◌, ◌≡◌, refl, Bool, true, false, not, List, [], ◌∷◌, ◌++◌, some, none, inl, inr,
  Option, Option-cases, Bool-cases, contains, keep, IsDistinct, append-IsDistinct, contains-keep,
  arith, nat_eq, string_eq, if◌then◌else◌, Outcome, returned, raised, leb, length, min, pos, ◌-◌,
  get_or, bind-keeps, ◌&&◌,
}
use google_file_system.Dict
use google_file_system.Dict.{Dict, has, keys-IsDistinct, contains-keys}
use google_file_system.Files.{create_file_handler, delete_file_handler}
use google_file_system.GarbageCollection.{
  soft_delete, erase_expired, drop_orphans, is_expired, scan_and_collect, finish_scan, erase_file,
}
use google_file_system.Lease.{grant_lease, grant_first, grant_to, has_valid_lease}
use google_file_system.Locations.{
  ChunkLocRequest, Readings, renew_lease, respond, place_sampled, allocate_on, allocate_missing,
  locate, get_chunk_locations, find_handle, is_past, resolve_index, heartbeat_handler,
}
use google_file_system.Metadata.{
  Time, Address, Handle, FileMetadata, ChunkMetadata, MetadataStore, allocate_chunk, new_chunk,
  version_of,
}
use google_file_system.Oplog.{OperationLog}
use google_file_system.Replication.{
  CopyCall, CopyReply, copied, refused, unreachable, plan_copy, finish_copy, rereplicate,
  plan_repair, finish_repair, repair_stale_replica, mark_repaired, worker, stale_worker, run_job,
  run_repair, or_retry, first_source, call_to, targets,
}
use google_file_system.Replication.Plans.{plan_copy-IsPlanned}
use google_file_system.State.{Master, set_chunk, healthy_replicas, with_locks}
use google_file_system.System.{
  IsSampler, Event, creates, deletes, locates, beats, checks_servers, scans, copies, repairs, step,
  run,
}
use google_file_system.System.Invariant.{find_handle-state, respond-state}
use google_file_system.System.Ownership.{chunks_of}
use google_file_system.System.Replicas.{
  IsTidy, AllTidy, Tidy, put-AllTidy, remove_key-AllTidy, mark_repaired-IsTidy,
  handle_heartbeat-Tidy, check_dead_servers-Tidy,
}

pub finish_copy-Tidy :
    (h : Handle) (call : CopyCall) (reply : CopyReply) (m : Master)
    → ((c : ChunkMetadata)
        → Dict.get m.chunk_map h ≡ some c
        → contains c.replicas call.target ≡ false)
    → Tidy m
    → Tidy (finish_copy h call reply m).1
unfolding finish_copy
finish_copy-Tidy h call copied m new t = elim (Option-cases (Dict.get m.chunk_map h)) [
  | inl e ↦ rw (e, finish_copy) t
  | inr (c, e) ↦
      rw (e, finish_copy)
        (put-AllTidy m.chunk_map h _
          (record {
            replicas = append-IsDistinct call.target c.replicas (new c e) (t.at h c e).replicas;
            stale_replicas = (t.at h c e).stale_replicas;
          })
          t)
]
finish_copy-Tidy h call _ m new t = t

pub rereplicate-Tidy :
    (h : Handle) (reply : CopyReply) (m : Master) → Tidy m → Tidy (rereplicate h reply m).1
unfolding rereplicate
rereplicate-Tidy h reply m t = elim (Option-cases (plan_copy h m)) [
  | inl e ↦ rw (e, rereplicate) t
  | inr (call, e) ↦
      rw (e, rereplicate)
        (finish_copy-Tidy h call reply m (λ c s. (plan_copy-IsPlanned h m call c s e).new_target) t)
]

pub finish_repair-Tidy :
    (h : Handle) (a : Address) (reply : CopyReply) (m : Master)
    → Tidy m
    → Tidy (finish_repair h a reply m).1
unfolding finish_repair
finish_repair-Tidy h a copied m t = elim (Option-cases (Dict.get m.chunk_map h)) [
  | inl e ↦ rw (e, finish_repair) t
  | inr (c, e) ↦
      rw (e, finish_repair) (put-AllTidy m.chunk_map h _ (mark_repaired-IsTidy a c (t.at h c e)) t)
]
finish_repair-Tidy h a (refused text) m t = t
finish_repair-Tidy h a unreachable m t = t

repair_stale_replica-Tidy :
    (h : Handle) (a : Address) (reply : CopyReply) (m : Master)
    → Tidy m
    → Tidy (repair_stale_replica h a reply m).1
unfolding repair_stale_replica
repair_stale_replica-Tidy h a reply m t = elim (Option-cases (plan_repair h a m)) [
  | inl e ↦ rw (e, repair_stale_replica) t
  | inr (call, e) ↦ rw (e, repair_stale_replica) (finish_repair-Tidy h a reply m t)
]

pub or_retry-Tidy :
    (retry : Master → Master) (r : Outcome (Unit {0}) × Master)
    → ((n : Master) → Tidy n → Tidy (retry n))
    → Tidy r.1
    → Tidy (or_retry retry r)
or_retry-Tidy retry (returned _, n) f t = t
or_retry-Tidy retry (raised _, n) f t = f n t

pub worker-Tidy :
    (reply : CopyReply) (q : List (ℕ × Handle)) (m : Master) → Tidy m → Tidy (run_job reply q m)
unfolding run_job
worker-Tidy reply [] m t = t
worker-Tidy reply ((p, h) ∷ jobs) m t = or_retry-Tidy _ _ (λ n u. u) (rereplicate-Tidy h reply _ t)

pub stale_worker-Tidy :
    (reply : CopyReply) (q : List (Handle × Address)) (m : Master)
    → Tidy m
    → Tidy (run_repair reply q m)
unfolding run_repair
stale_worker-Tidy reply [] m t = t
stale_worker-Tidy reply ((h, a) ∷ jobs) m t =
    or_retry-Tidy _ _ (λ n u. u) (repair_stale_replica-Tidy h a reply _ t)

pub grant_lease-Tidy :
    (h : Handle) (t u : Time) (m : Master) → Tidy m → Tidy (grant_lease h t u m).1
unfolding grant_lease
grant_lease-Tidy h t u m v = elim (Option-cases (Dict.get m.chunk_map h)) [
  | inl e ↦ rw (e, grant_lease) v
  | inr (c, e) ↦ rw (e, grant_lease) (grant_first-Tidy (healthy_replicas c) c (v.at h c e))
]
  where
    grant_first-Tidy :
        (rs : List Address) (c : ChunkMetadata) → IsTidy c → Tidy (grant_first rs c h t u m).1
    grant_first-Tidy [] c g = v
    grant_first-Tidy (r ∷ rs) c g =
        put-AllTidy m.chunk_map h _
          (record { replicas = g.replicas; stale_replicas = g.stale_replicas }) v

pub renew_lease-Tidy :
    (h : Handle) (t : Readings) (m : Master) → Tidy m → Tidy (renew_lease h t m).1
unfolding renew_lease
renew_lease-Tidy h t m v = elim (Bool-cases (has_valid_lease h t.tested_at m)) [
  | inl e ↦ rw (e, renew_lease) v
  | inr e ↦
      rw (e, renew_lease)
        (bind-keeps Tidy (grant_lease h t.logged_at t.granted_at) _ m
          (grant_lease-Tidy h t.logged_at t.granted_at m v) (λ _ n k. k))
]

drop_orphans-Tidy :
    (hs : List Handle) (s : MetadataStore)
    → AllTidy s.chunk_map
    → AllTidy (drop_orphans hs s).chunk_map
unfolding drop_orphans
drop_orphans-Tidy [] s v = v
drop_orphans-Tidy (h ∷ hs) s v = drop_orphans-Tidy hs _ (remove_key-AllTidy s.chunk_map h v)

erase_expired-chunk_map :
    (now : Time) (files : List (String × FileMetadata)) (hs : List Handle) (s : MetadataStore)
    → (erase_expired now files hs s).1.chunk_map ≡ s.chunk_map
unfolding erase_expired
erase_expired-chunk_map now [] hs s = refl
erase_expired-chunk_map now ((p, f) ∷ files) hs s = ground (
  arith,
  erase_expired-chunk_map now files hs s,
  erase_expired-chunk_map now files (hs ++ chunks_of s p) (erase_file p s),
)

pub scan_and_collect-Tidy :
    (now : Time) (s : MetadataStore)
    → AllTidy s.chunk_map
    → AllTidy (scan_and_collect now s).1.chunk_map
unfolding scan_and_collect
scan_and_collect-Tidy now s v =
    finish_scan-Tidy (erase_expired now (Dict.items s.namespace) [] s)
      (rw (erase_expired-chunk_map now (Dict.items s.namespace) [] s) v)
  where
    finish_scan-Tidy :
        (r : Outcome (List Handle) × MetadataStore)
        → AllTidy r.1.chunk_map
        → AllTidy (finish_scan r).1.chunk_map
    finish_scan-Tidy (raised x, t) w = w
    finish_scan-Tidy (returned hs, t) w = drop_orphans-Tidy hs t w
