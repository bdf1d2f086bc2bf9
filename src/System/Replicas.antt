-- ===== src/System/Replicas.antt =====
-- No server stands twice among a chunk's replicas, or among its stale replicas.
use google_file_system.Prelude.{
  ℕ, ◌≡◌, Bool, true, false, List, [], ◌∷◌, some, inl, inr, Option-cases, ◌==◌, contains,
  IsDistinct, remove-IsDistinct, append-IsDistinct, arith, nat_eq, string_eq, if◌then◌else◌,
}
use google_file_system.Dict
use google_file_system.Dict.{Dict, get-put, get-remove_key, get-map_values, get-empty}
use google_file_system.Heartbeat.{
  report, report_stale, report_each, handle_heartbeat, forget_server, enqueue_each, handle_failure,
  fail_each, check_dead_servers, mark_stale, mark_current, drop_replica, is_short, is_silent,
}
use google_file_system.Metadata.{Time, Address, Handle, ChunkMetadata, version_of}
use google_file_system.Replication.{mark_repaired, enqueue, high}
use google_file_system.State.{Master}

-- The two lists of a chunk have no repetition.
pub record IsTidy (c : ChunkMetadata) : Type 0 where
  pub replicas : IsDistinct c.replicas
  pub stale_replicas : IsDistinct c.stale_replicas

pub record AllTidy (d : Dict Handle ChunkMetadata) : Type 0 where
  pub at : (h : Handle) (c : ChunkMetadata) → Dict.get d h ≡ some c → IsTidy c

pub put-AllTidy :
    (d : Dict Handle ChunkMetadata) (h : Handle) (c : ChunkMetadata)
    → IsTidy c
    → AllTidy d
    → AllTidy (Dict.put d h c)
put-AllTidy d h c t v = record { at = λ k x e. ground (arith, get-put d h k c, v.at k x) }

pub remove_key-AllTidy :
    (d : Dict Handle ChunkMetadata) (h : Handle) → AllTidy d → AllTidy (Dict.remove_key d h)
remove_key-AllTidy d h v = record { at = λ k x e. ground (arith, get-remove_key d h k, v.at k x) }

pub mark_stale-IsTidy : (a : Address) (c : ChunkMetadata) → IsTidy c → IsTidy (mark_stale a c)
unfolding mark_stale
mark_stale-IsTidy a c t =
    ground (arith, remove-IsDistinct a c.replicas t.replicas, append-IsDistinct a c.stale_replicas)

pub mark_current-IsTidy : (a : Address) (c : ChunkMetadata) → IsTidy c → IsTidy (mark_current a c)
unfolding mark_current
mark_current-IsTidy a c t =
    ground
      (arith, remove-IsDistinct a c.stale_replicas t.stale_replicas, append-IsDistinct a c.replicas)

pub mark_repaired-IsTidy : (a : Address) (c : ChunkMetadata) → IsTidy c → IsTidy (mark_repaired a c)
unfolding mark_repaired
mark_repaired-IsTidy a c t =
    ground
      (arith, remove-IsDistinct a c.stale_replicas t.stale_replicas, append-IsDistinct a c.replicas)

drop_replica-IsTidy : (a : Address) (c : ChunkMetadata) → IsTidy c → IsTidy (drop_replica a c)
unfolding drop_replica
drop_replica-IsTidy a c t = ground (arith, remove-IsDistinct a c.replicas t.replicas)

drop_replica-AllTidy :
    (a : Address) (d : Dict Handle ChunkMetadata)
    → AllTidy d
    → AllTidy (Dict.map_values (drop_replica a) d)
drop_replica-AllTidy a d v = record {
  at = λ h x e. elim (Option-cases (Dict.get d h)) [
    | inl n ↦ ground (arith, get-map_values (drop_replica a) d h)
    | inr (c, s) ↦
        ground (arith, get-map_values (drop_replica a) d h, drop_replica-IsTidy a c (v.at h c s))
  ];
}

abbrev pub Tidy : Master → Type 0
Tidy m = AllTidy m.chunk_map

if-Tidy : (b : Bool) (m n : Master) → Tidy m → Tidy n → Tidy (if b then m else n)
if-Tidy true m n p q = p
if-Tidy false m n p q = q

report-Tidy : (a : Address) (h : Handle) (v : ℕ) (m : Master) → Tidy m → Tidy (report a h v m)
unfolding report report_stale
report-Tidy a h v m t = elim (Option-cases (Dict.get m.chunk_map h)) [
  | inl e ↦ rw (e, report) t
  | inr (c, e) ↦
      let stale = put-AllTidy m.chunk_map h _ (mark_stale-IsTidy a c (t.at h c e)) t in
      rw (e, report)
        (if-Tidy (v == version_of m.store h) _ _
          (put-AllTidy m.chunk_map h _ (mark_current-IsTidy a c (t.at h c e)) t)
          (if-Tidy (contains c.stale_replicas a) _ _ stale stale))
]

report_each-Tidy :
    (a : Address) (hs : List Handle) (vs : List ℕ) (m : Master)
    → Tidy m
    → Tidy (report_each a hs vs m)
unfolding report_each
report_each-Tidy a (h ∷ hs) (v ∷ vs) m t =
    report_each-Tidy a hs vs (report a h v m) (report-Tidy a h v m t)
report_each-Tidy a _ _ m t = t

pub handle_heartbeat-Tidy :
    (now : Time) (a : Address) (hs : List Handle) (vs : List ℕ) (m : Master)
    → Tidy m
    → Tidy (handle_heartbeat now a hs vs m).1
unfolding handle_heartbeat
handle_heartbeat-Tidy now a hs vs m t = report_each-Tidy a hs vs _ t

enqueue_each-Tidy : (hs : List Handle) (m : Master) → Tidy m → Tidy (enqueue_each hs m)
unfolding enqueue_each
enqueue_each-Tidy [] m t = t
enqueue_each-Tidy (h ∷ hs) m t = enqueue_each-Tidy hs (enqueue h high m) t

fail_each-Tidy : (addrs : List Address) (m : Master) → Tidy m → Tidy (fail_each addrs m)
unfolding fail_each handle_failure forget_server
fail_each-Tidy [] m t = t
fail_each-Tidy (a ∷ addrs) m t = fail_each-Tidy addrs (handle_failure a m) (
    enqueue_each-Tidy (Dict.keys_where is_short (forget_server a m).chunk_map) (forget_server a m)
      (drop_replica-AllTidy a m.chunk_map t))

pub check_dead_servers-Tidy : (now : Time) (m : Master) → Tidy m → Tidy (check_dead_servers now m)
unfolding check_dead_servers
check_dead_servers-Tidy now m t = fail_each-Tidy (Dict.keys_where (is_silent now) m.last_seen) m t
