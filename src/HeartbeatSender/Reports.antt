-- ===== src/HeartbeatSender/Reports.antt =====
-- What one round of a chunkserver's heartbeat tells the master of a chunk.
use mathlib.Core.Option
use google_file_system.Prelude.{
  ℕ, ◌≡◌, refl, ap, ◌∙◌, Bool, true, false, not, ◌⊎◌, some, List, [], ◌∷◌, map, inl, inr,
  Option-cases, Bool-cases, contains, IsDistinct, ◌==◌, if◌then◌else◌, arith, nat_eq, string_eq,
}
use google_file_system.Dict
use google_file_system.Dict.{Dict, has, get-put, contains-keys, keys-IsDistinct}
use google_file_system.Heartbeat.Reports.{
  SameElsewhere, mark_stale-SameElsewhere, mark_current-SameElsewhere, mark_stale_lists,
  mark_current_lists,
}
use google_file_system.System.Replicas.{IsTidy}
use google_file_system.Heartbeat.{
  report, report_stale, report_each, handle_heartbeat, mark_stale, mark_current,
}
use google_file_system.HeartbeatSender.{send_heartbeat, versions_of}
use google_file_system.Locations.{heartbeat_handler}
use google_file_system.Metadata.{Time, Address, Handle, ChunkMetadata, version_of}
use google_file_system.State.{Master}
use google_file_system.Storage.{ChunkStorage, list_all, get_version}

-- What a report makes of a chunk.
abbrev pub reported : Address → ℕ → ℕ → ChunkMetadata → ChunkMetadata
reported a version current c = if version == current then mark_current a c else mark_stale a c

report-get :
    (a : Address) (k h : Handle) (v : ℕ) (m : Master)
    → Dict.get (report a k v m).chunk_map h ≡ (
        if h == k
        then Option.map (reported a v (version_of m.store h)) (Dict.get m.chunk_map h)
        else Dict.get m.chunk_map h)
unfolding report report_stale
report-get a k h v m = elim (Option-cases (Dict.get m.chunk_map k)) [
  | inl e ↦ ground (arith, ap (λ j. Dict.get m.chunk_map j) {x = h} {y = k})
  | inr (c, e) ↦ ground (
    arith,
    get-put m.chunk_map k h (mark_current a c),
    get-put m.chunk_map k h (mark_stale a c),
    ap (λ j. Dict.get m.chunk_map j) {x = h} {y = k},
    ap (λ j. version_of m.store j) {x = h} {y = k},
  )
]

report-version :
    (a : Address) (k h : Handle) (v : ℕ) (m : Master)
    → version_of (report a k v m).store h ≡ version_of m.store h
unfolding report report_stale
report-version a k h v m = ground arith

-- A list of reports, at one version for each chunk, names each chunk once.
report_each-get :
    (a : Address) (h : Handle) (f : Handle → ℕ) (hs : List Handle) (m : Master)
    → IsDistinct hs
    → Dict.get (report_each a hs (map f hs) m).chunk_map h ≡ (
        if contains hs h
        then Option.map (reported a (f h) (version_of m.store h)) (Dict.get m.chunk_map h)
        else Dict.get m.chunk_map h)
unfolding report_each
report_each-get a h f [] m d = refl
report_each-get a h f (k ∷ hs) m d =
    report_each-get a h f hs (report a k (f k) m) d.1
    ∙ ground
        (arith, report-get a k h (f k) m, report-version a k h (f k) m, d.0, ap f {x = h} {y = k})

pub report_each-version :
    (a : Address) (hs : List Handle) (vs : List ℕ) (h : Handle) (m : Master)
    → version_of (report_each a hs vs m).store h ≡ version_of m.store h
unfolding report_each
report_each-version a [] vs h m = refl
report_each-version a (k ∷ hs) [] h m = refl
report_each-version a (k ∷ hs) (v ∷ vs) h m =
    report_each-version a hs vs h (report a k v m) ∙ report-version a k h v m

-- What the master knows of a chunk after a round: a server that holds the chunk has reported it at
-- its version.
pub send_heartbeat-get :
    (now : Time) (a : Address) (h : Handle) (s : ChunkStorage) (m : Master)
    → Dict.get (send_heartbeat now a s m).1.chunk_map h ≡ (
        if has s.files h
        then Option.map
            (reported a (get_version h s) (version_of m.store h))
            (Dict.get m.chunk_map h)
        else Dict.get m.chunk_map h)
unfolding send_heartbeat heartbeat_handler handle_heartbeat list_all
send_heartbeat-get now a h s m =
    report_each-get a h (λ k. get_version k s) (Dict.keys s.files) _ (keys-IsDistinct s.files)
    ∙ ground (arith, contains-keys s.files h)

pub send_heartbeat-version :
    (now : Time) (a : Address) (h : Handle) (s : ChunkStorage) (m : Master)
    → version_of (send_heartbeat now a s m).1.store h ≡ version_of m.store h
unfolding send_heartbeat heartbeat_handler handle_heartbeat
send_heartbeat-version now a h s m =
    report_each-version a (list_all s) (versions_of (list_all s) s) h _

-- The server is listed as a replica, or as a stale one, by the version that it has.
pub record IsClassified (a : Address) (is_current : Bool) (c d : ChunkMetadata) : Type 0 where
  pub replica : contains d.replicas a ≡ is_current
  pub stale : contains d.stale_replicas a ≡ not is_current
  pub elsewhere : SameElsewhere a c d

pub reported-IsClassified :
    (a : Address) (v w : ℕ) (c : ChunkMetadata)
    → IsTidy c
    → IsClassified a (v == w) c (reported a v w c)
reported-IsClassified a v w c t = by_test (v == w)
  where
    by_test : (b : Bool) → IsClassified a b c (if b then mark_current a c else mark_stale a c)
    by_test true = record {
      replica = (mark_current_lists a c t).0;
      stale = (mark_current_lists a c t).1;
      elsewhere = mark_current-SameElsewhere a c;
    }
    by_test false = record {
      replica = (mark_stale_lists a c t).0;
      stale = (mark_stale_lists a c t).1;
      elsewhere = mark_stale-SameElsewhere a c;
    }

-- What a heartbeat of a server makes of a chunk: nothing if the server does not hold it.
abbrev pub Heard : Address → Handle → ChunkStorage → ChunkMetadata → Master → Master → Type 0
Heard a h s c m n =
    (d : ChunkMetadata) × (Dict.get n.chunk_map h ≡ some d)
    × (((has s.files h ≡ false) × (d ≡ c))
        ⊎ ((has s.files h ≡ true) × IsClassified a (get_version h s == version_of m.store h) c d))

-- After one round of a chunkserver's heartbeat, for a chunk that the master knows, whose lists have
-- no repetition: if the server holds the chunk, then it is listed as a replica and not as a stale
-- one if its version is the master's, and the other way round if not, and every other server stays
-- where it was; if it does not hold the chunk, then the chunk's lists stay as they were, even where
-- they name the server.
pub send_heartbeat-Heard :
    (now : Time) (a : Address) (h : Handle) (s : ChunkStorage) (m : Master) (c : ChunkMetadata)
    → Dict.get m.chunk_map h ≡ some c
    → IsTidy c
    → Heard a h s c m (send_heartbeat now a s m).1
send_heartbeat-Heard now a h s m c e t = elim (Bool-cases (has s.files h)) [
  | inl f ↦ (
    reported a (get_version h s) (version_of m.store h) c,
    send_heartbeat-get now a h s m ∙ ground arith,
    inr (f, reported-IsClassified a (get_version h s) (version_of m.store h) c t),
  )
  | inr f ↦ (c, send_heartbeat-get now a h s m ∙ ground arith, inl (f, refl))
]
