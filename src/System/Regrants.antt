-- ===== src/System/Regrants.antt =====
-- Two `GetChunkLocations` of master/server.py, behind their locks at the same time: both find that
-- the lease has ended, and both ask for a new one.
use google_file_system.Dict
use google_file_system.Dict.{has}
use google_file_system.Heartbeat.{mark_stale}
use google_file_system.Heartbeat.Reports.{mark_stale_lists}
use google_file_system.HeartbeatSender.{send_heartbeat}
use google_file_system.HeartbeatSender.Reports.{send_heartbeat-get}
use google_file_system.Lease.{grant_lease, grant_first, lease_duration}
use google_file_system.Lease.Grants.{IsGranted, grant_to-IsGranted}
use google_file_system.Locations.{ChunkLocResponse, answer, response_of}
use google_file_system.Metadata.{Time, Address, Handle, ChunkMetadata, version_of}
use google_file_system.Prelude.{
  ◌+◌, ◌≡◌, refl, ◌∙◌, true, false, some, List, ◌∷◌, returned, contains, arith, nat_eq, string_eq,
}
use google_file_system.State.{Master, healthy_replicas}
use google_file_system.Storage.{ChunkStorage, get_version}
use google_file_system.System.Replicas.{IsTidy}

-- The master after a grant.
abbrev pub regrant : Handle → Time → Time → Master → Master
regrant h logged_at granted_at m = (grant_lease h logged_at granted_at m).1

abbrev leased : Address → Time → ChunkMetadata → ChunkMetadata
leased p granted_at c = record c { primary = some p; lease_expiry = granted_at + lease_duration }

regranted :
    (h : Handle) (logged_at granted_at : Time) (m : Master) (c : ChunkMetadata) (p : Address)
    (rest : List Address)
    → Dict.get m.chunk_map h ≡ some c
    → healthy_replicas c ≡ p ∷ rest
    → IsGranted h logged_at granted_at p c m (regrant h logged_at granted_at m)
unfolding grant_lease
regranted h logged_at granted_at m c p rest e f =
    rw (e, regrant, grant_lease)
      (rw (f, grant_first) (grant_to-IsGranted h logged_at granted_at m p c))

answered :
    (h : Handle) (m : Master) (c : ChunkMetadata)
    → Dict.get m.chunk_map h ≡ some c
    → answer h m ≡ (returned (response_of h c m.store), m)
answered h m c e = rw (e, answer) refl

-- Both answers name one primary; the first of them has a version that the master has already
-- passed, and a server at that version is no replica after its next heartbeat.
pub record IsOvertaken (h : Handle) (a : Address) (p : Address) (first second after : Master)
    : Type 0 where
  pub one : ChunkLocResponse
  pub two : ChunkLocResponse
  pub answered : answer h first ≡ (returned one, first)
  pub answered_again : answer h second ≡ (returned two, second)
  pub primaries : (one.primary_address ≡ p) × (two.primary_address ≡ p)
  pub behind : two.chunk_version ≡ one.chunk_version + 1
  pub chunk : ChunkMetadata
  pub known : Dict.get after.chunk_map h ≡ some chunk
  pub dropped : contains chunk.replicas a ≡ false
  pub stale : contains chunk.stale_replicas a ≡ true

-- If two grants follow each other on a chunk that the master knows, has a healthy replica of, and
-- lists without repetition, as after two requests that had both found no valid lease, then both
-- requests are answered with the first healthy replica as primary, the second one at a version that
-- is one higher. A server that then holds the chunk at the version of the first answer is no replica
-- after its next heartbeat, but a stale one.
pub regrants-IsOvertaken :
    (h : Handle) (l1 g1 l2 g2 now : Time) (m : Master) (c : ChunkMetadata) (p : Address)
    (rest : List Address) (a : Address) (s : ChunkStorage)
    → Dict.get m.chunk_map h ≡ some c
    → IsTidy c
    → healthy_replicas c ≡ p ∷ rest
    → has s.files h ≡ true
    → get_version h s ≡ version_of m.store h + 1
    → IsOvertaken h a p
        (regrant h l1 g1 m)
        (regrant h l2 g2 (regrant h l1 g1 m))
        (send_heartbeat now a s (regrant h l2 g2 (regrant h l1 g1 m))).1
regrants-IsOvertaken h l1 g1 l2 g2 now m c p rest a s e tidy f held v =
    let first = regrant h l1 g1 m in
    let once = regranted h l1 g1 m c p rest e f in
    let twice = regranted h l2 g2 first (leased p g1 c) p rest once.chunk f in
    let second = regrant h l2 g2 first in
    let last = leased p g2 (leased p g1 c) in
    let lists =
      mark_stale_lists a last
        (record { replicas = tidy.replicas; stale_replicas = tidy.stale_replicas }) in
    record {
      one = response_of h (leased p g1 c) first.store;
      two = response_of h last second.store;
      answered = answered h first (leased p g1 c) once.chunk;
      answered_again = answered h second last twice.chunk;
      primaries = (refl, refl);
      behind = twice.next_version;
      chunk = mark_stale a last;
      known =
          send_heartbeat-get now a h s second
          ∙ ground (arith, once.next_version, twice.next_version, twice.chunk);
      dropped = lists.0;
      stale = lists.1;
    }
