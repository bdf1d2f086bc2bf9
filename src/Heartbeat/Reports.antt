-- ===== src/Heartbeat/Reports.antt =====
-- What a chunkserver's report of one chunk does to the chunk's two lists.
use google_file_system.Prelude.{
  ℕ, ◌≡◌, ◌≢◌, refl, true, false, List, [], ◌∷◌, ◌++◌, some, contains, contains-append,
  contains-remove_self, contains-remove_ne, if◌then◌else◌, arith, nat_eq, string_eq,
}
use google_file_system.Dict
use google_file_system.Dict.{get-put}
use google_file_system.Heartbeat.{report, report_stale, mark_stale, mark_current}
use google_file_system.Metadata.{Address, Handle, ChunkMetadata, version_of}
use google_file_system.State.{Master}
use google_file_system.System.Replicas.{IsTidy}

-- Only one server's place in the two lists differs.
pub record SameElsewhere (a : Address) (c d : ChunkMetadata) : Type 0 where
  pub replicas : (b : Address) → a ≢ b → contains d.replicas b ≡ contains c.replicas b
  pub stale_replicas :
      (b : Address) → a ≢ b → contains d.stale_replicas b ≡ contains c.stale_replicas b
  pub primary : d.primary ≡ c.primary

contains-last : (xs : List Address) (a : Address) → contains (xs ++ a ∷ []) a ≡ true
contains-last xs a = ground (arith, contains-append xs (a ∷ []) a)

contains-append_ne :
    (xs : List Address) (a b : Address) → a ≢ b → contains (xs ++ a ∷ []) b ≡ contains xs b
contains-append_ne xs a b n = ground (arith, contains-append xs (a ∷ []) b)

module _ (a : Address) (c : ChunkMetadata) where
  pub mark_current-SameElsewhere : SameElsewhere a c (mark_current a c)
  unfolding mark_current
  mark_current-SameElsewhere = record {
    replicas = λ b n. ground (arith, contains-append_ne c.replicas a b);
    stale_replicas = λ b n. ground (arith, contains-remove_ne a b c.stale_replicas);
    primary = refl;
  }

  pub mark_stale-SameElsewhere : SameElsewhere a c (mark_stale a c)
  unfolding mark_stale
  mark_stale-SameElsewhere = record {
    replicas = λ b n. ground (arith, contains-remove_ne a b c.replicas);
    stale_replicas = λ b n. ground (arith, contains-append_ne c.stale_replicas a b);
    primary = refl;
  }

  pub mark_current_lists :
      IsTidy c
      → (contains (mark_current a c).replicas a ≡ true)
        × (contains (mark_current a c).stale_replicas a ≡ false)
  unfolding mark_current
  mark_current_lists t = (
    ground (arith, contains-last c.replicas a),
    ground (arith, contains-remove_self a c.stale_replicas t.stale_replicas),
  )

  pub mark_stale_lists :
      IsTidy c
      → (contains (mark_stale a c).replicas a ≡ false)
        × (contains (mark_stale a c).stale_replicas a ≡ true)
  unfolding mark_stale
  mark_stale_lists t = (
    ground (arith, contains-remove_self a c.replicas t.replicas),
    ground (arith, contains-last c.stale_replicas a),
  )

module _ (a : Address) (h : Handle) (m : Master) (c : ChunkMetadata) where
  abbrev pub ReportedCurrent : Type 0
  ReportedCurrent =
      let n = report a h (version_of m.store h) m in
      (d : ChunkMetadata) × (Dict.get n.chunk_map h ≡ some d)
      × (contains d.replicas a ≡ true)
      × (contains d.stale_replicas a ≡ false)
      × SameElsewhere a c d
      × (n.stale_queue ≡ m.stale_queue)

  -- A report at the master's version of a known chunk whose lists have no repetition: the server is
  -- a replica and no stale one, every other server stays where it was, and no repair is asked for.
  pub report_current : Dict.get m.chunk_map h ≡ some c → IsTidy c → ReportedCurrent
  unfolding report
  report_current e t = (
    mark_current a c,
    ground (arith, get-put m.chunk_map h h (mark_current a c)),
    (mark_current_lists a c t).0,
    (mark_current_lists a c t).1,
    mark_current-SameElsewhere a c,
    ground arith,
  )

  abbrev pub ReportedOutdated : ℕ → Type 0
  ReportedOutdated v =
      let n = report a h v m in
      (d : ChunkMetadata) × (Dict.get n.chunk_map h ≡ some d)
      × (contains d.replicas a ≡ false)
      × (contains d.stale_replicas a ≡ true)
      × SameElsewhere a c d
      × (n.stale_queue
          ≡ (if contains c.stale_replicas a then m.stale_queue else m.stale_queue ++ (h, a) ∷ []))

  -- A report at another version than the master's of a known chunk whose lists have no repetition:
  -- the server is a stale replica and no current one, every other server stays where it was, and a
  -- repair is asked for exactly if it was not yet known as stale.
  pub report_outdated :
      (v : ℕ)
      → Dict.get m.chunk_map h ≡ some c
      → IsTidy c
      → v ≢ version_of m.store h
      → ReportedOutdated v
  unfolding report report_stale
  report_outdated v e t n = (
    mark_stale a c,
    ground (arith, get-put m.chunk_map h h (mark_stale a c)),
    (mark_stale_lists a c t).0,
    (mark_stale_lists a c t).1,
    mark_stale-SameElsewhere a c,
    ground arith,
  )
