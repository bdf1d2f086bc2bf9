-- ===== src/System/Recovery/Histories.antt =====
-- Histories and restarts.
use mathlib.Core.List.{append_assoc, append-nil}
use google_file_system.Prelude.{
  ℕ, ◌≡◌, refl, sym, ap, ◌∙◌, String, ℤ, List, [], ◌∷◌, ◌++◌, some, none, inl, inr, Option-cases,
  raised, arith, nat_eq, string_eq, get_or, if◌then◌else◌, ◌==◌, index_list, key_error, subst,
  length,
}
use google_file_system.Dict
use google_file_system.Dict.{has, get-put, get-empty}
use google_file_system.Locations.{
  ChunkLocRequest, resolve_index, locate, find_handle, heartbeat_handler,
}
use google_file_system.Metadata.{Time, Address, Handle, empty_store, MetadataStore, ChunkMetadata}
use google_file_system.Oplog.{
  publish_checkpoint, Operation, LogRecord, load_checkpoint, replay, fresh_log, create_file,
  delete_file, allocate_chunk as allocate_chunk_op, grant_lease as grant_lease_op,
}
use google_file_system.Startup.{start, replay_operation, replay_records}
use google_file_system.State.{Master, with_locks}
use google_file_system.System.{
  IsSampler, Event, creates, deletes, locates, beats, checks_servers, scans, copies, repairs, step,
  run, finds, tests, grants, takes_job, copy_answered, takes_repair, repair_answered,
}
use google_file_system.System.Collection.{IsUncollected, AllOrdinary}
use google_file_system.System.Collection.Step.{step-IsUncollected, start-IsUncollected}
use google_file_system.System.Frame.{
  handle_heartbeat-IsQuiet, check_dead_servers-IsQuiet, worker-IsQuiet, stale_worker-IsQuiet,
}
use google_file_system.System.Invariant.{
  reachable-IsOwned, step-IsOwned, end_copy-IsQuiet, end_repair-IsQuiet, next_job-IsQuiet,
  next_repair-IsQuiet,
}
use google_file_system.System.Placement.{Means, Means-resolved}
use google_file_system.System.Ownership.{IsOwned, chunks_of}
use google_file_system.System.Recovery.{Agrees, Recovers, restored, IsQuiet-Recovers}
use google_file_system.System.Recovery.Scans.{scan_and_collect-Agrees, scan_and_collect-next_handle}
use google_file_system.System.Recovery.Step.{
  create-Recovers, delete-Recovers, get_chunk_locations-Recovers, locate-Recovers, locks-Recovers,
  grant_lease-Recovers,
}

replay_operation-chunk_map :
    (t : Time) (o : Operation) (s : MetadataStore)
    → ((replay_operation t o s).chunk_map ≡ s.chunk_map)
      × ((replay_operation t o s).next_handle ≡ s.next_handle)
unfolding replay_operation
replay_operation-chunk_map t (create_file p) s = (refl, refl)
replay_operation-chunk_map t (allocate_chunk_op p h) s = (refl, refl)
replay_operation-chunk_map t (grant_lease_op h v) s = (refl, refl)
replay_operation-chunk_map t (delete_file p hidden) s =
    elim (Option-cases (Dict.get s.namespace p)) [
      | inl e ↦ rw (e, replay_operation) (refl, refl)
      | inr (f, e) ↦ rw (e, replay_operation) (refl, refl)
    ]

start-Recovers : Recovers (start fresh_log)
unfolding start fresh_log empty_store
start-Recovers = record {
  agrees = record { live = λ p. refl; named = λ p e. e; chunks = λ p. refl; versions = λ h. refl };
  no_checkpoint = refl;
  unversioned = λ h b. rw get-empty refl;
}

start-restored : (m : Master) → m.oplog.checkpoint ≡ none → (start m.oplog).store ≡ restored m
unfolding start load_checkpoint replay
start-restored m e = rw e

-- A record of the log touches neither the chunks nor the next handle.
replay_records-chunk_map :
    (rs : List LogRecord) (s : MetadataStore)
    → ((replay_records rs s).chunk_map ≡ s.chunk_map)
      × ((replay_records rs s).next_handle ≡ s.next_handle)
unfolding replay_records
replay_records-chunk_map [] s = (refl, refl)
replay_records-chunk_map (r ∷ rs) s =
    let (c, n) = replay_records-chunk_map rs (replay_operation r.ts r.op s) in
    let (d, o) = replay_operation-chunk_map r.ts r.op s in (c ∙ d, n ∙ o)

-- The chunks that a log adds to a file.
logged_by : String → Operation → List Handle
logged_by p (allocate_chunk_op q h) = if p == q then h ∷ [] else []
logged_by p _ = []

logged_chunks : String → List LogRecord → List Handle
logged_chunks p [] = []
logged_chunks p (r ∷ rs) = logged_by p r.op ++ logged_chunks p rs

chunks_of-replay_operation :
    (t : Time) (o : Operation) (s : MetadataStore) (p : String)
    → chunks_of (replay_operation t o s) p ≡ chunks_of s p ++ logged_by p o
unfolding replay_operation logged_by
chunks_of-replay_operation t (create_file q) s p = sym (append-nil (chunks_of s p))
chunks_of-replay_operation t (grant_lease_op h v) s p = sym (append-nil (chunks_of s p))
chunks_of-replay_operation t (delete_file q hidden) s p =
    elim (Option-cases (Dict.get s.namespace q)) [
      | inl e ↦ rw (e, replay_operation) (sym (append-nil (chunks_of s p)))
      | inr (f, e) ↦ rw (e, replay_operation) (sym (append-nil (chunks_of s p)))
    ]
chunks_of-replay_operation t (allocate_chunk_op q h) s p =
    ground (arith, get-put s.file_chunks q p (chunks_of s q ++ h ∷ []), append-nil (chunks_of s p))

chunks_of-replay_records :
    (rs : List LogRecord) (s : MetadataStore) (p : String)
    → chunks_of (replay_records rs s) p ≡ chunks_of s p ++ logged_chunks p rs
unfolding replay_records logged_chunks
chunks_of-replay_records [] s p = sym (append-nil (chunks_of s p))
chunks_of-replay_records (r ∷ rs) s p =
    chunks_of-replay_records rs (replay_operation r.ts r.op s) p
    ∙ ap (λ hs. hs ++ logged_chunks p rs) (chunks_of-replay_operation r.ts r.op s p)
    ∙ append_assoc (chunks_of s p) (logged_by p r.op) (logged_chunks p rs)

chunks_of-replay_empty :
    (rs : List LogRecord) (p : String)
    → chunks_of (replay_records rs empty_store) p ≡ logged_chunks p rs
chunks_of-replay_empty rs p =
    chunks_of-replay_records rs empty_store p
    ∙ unfold empty_store in
      ap (λ hs. get_or hs [] ++ logged_chunks p rs) (get-empty {V = List Handle} p)

find_handle_unknown :
    (p : String) (i : ℤ) (h : Handle) (m : Master)
    → index_list (chunks_of m.store p) i ≡ some h
    → Dict.get m.chunk_map h ≡ none
    → find_handle p i m ≡ (raised key_error, m)
unfolding find_handle
find_handle_unknown p i h m e n = elim (Option-cases (Dict.get m.file_chunks p)) [
  | inl f ↦ rw (f, find_handle)
  | inr (chunks, f) ↦ ground arith
]

start-forgets :
    (m : Master)
    → m.oplog.checkpoint ≡ none
    → ((start m.oplog).next_handle ≡ 1)
      × ((h : Handle) → Dict.get (start m.oplog).chunk_map h ≡ none)
start-forgets m e =
    let (c, n) = replay_records-chunk_map m.oplog.lines empty_store in
    rw (start-restored m e)
      (unfold empty_store in n, λ h. rw c (unfold empty_store in get-empty {V = ChunkMetadata} h))

module _ (sample : Time → List Address → ℕ → List Address) (sampler : IsSampler sample) where
  step-Recovers :
      (e : Event) (m : Master)
      → IsOwned m.store
      → IsUncollected m.store
      → Recovers m
      → Recovers (step sample e m)
  unfolding step heartbeat_handler
  step-Recovers (creates p t u) m o c v = create-Recovers p t u m v
  step-Recovers (deletes p t u w) m o c v = delete-Recovers p t u w m v
  step-Recovers (locates r t) m o c v = get_chunk_locations-Recovers sample sampler r t m o v
  step-Recovers (beats t a hs vs) m o c v =
      IsQuiet-Recovers (handle_heartbeat-IsQuiet t a hs vs m) v
  step-Recovers (checks_servers t) m o c v = IsQuiet-Recovers (check_dead_servers-IsQuiet t m) v
  step-Recovers (scans t) m o c v =
      let kept = scan_and_collect-Agrees t (restored m) m.store c v.agrees in
      record {
        agrees = kept;
        no_checkpoint = v.no_checkpoint;
        unversioned = λ h b.
            sym (kept.versions h)
            ∙ v.agrees.versions h
            ∙ v.unversioned h (rw (scan_and_collect-next_handle t m.store) at b);
      }
  step-Recovers (copies r) m o c v = IsQuiet-Recovers (worker-IsQuiet r m) v
  step-Recovers (repairs r) m o c v = IsQuiet-Recovers (stale_worker-IsQuiet r m) v
  step-Recovers (finds r t) m o c v =
      unfold with_locks in
      locks-Recovers _ _
        (locate-Recovers sample sampler r t (record m { locks = _ }) (locks-Recovers m _ v))
  step-Recovers (tests h t) m o c v = v
  step-Recovers (grants h t u) m o c v = grant_lease-Recovers h t u m o v
  step-Recovers takes_job m o c v = IsQuiet-Recovers (next_job-IsQuiet m) v
  step-Recovers (copy_answered p h d r) m o c v = IsQuiet-Recovers (end_copy-IsQuiet p h d r m) v
  step-Recovers takes_repair m o c v = IsQuiet-Recovers (next_repair-IsQuiet m) v
  step-Recovers (repair_answered h a r) m o c v = IsQuiet-Recovers (end_repair-IsQuiet h a r m) v

  run-Recovers :
      (es : List Event) (m : Master)
      → AllOrdinary es
      → IsOwned m.store
      → IsUncollected m.store
      → Recovers m
      → Recovers (run sample es m)
  unfolding run
  run-Recovers [] m a o c v = v
  run-Recovers (e ∷ es) m a o c v =
      run-Recovers es (step sample e m) a.1 (step-IsOwned sample e m o)
        (step-IsUncollected sample e m a.0 c) (step-Recovers e m o c v)

  reachable-Recovers :
      (es : List Event) → AllOrdinary es → Recovers (run sample es (start fresh_log))
  unfolding start run
  reachable-Recovers es a =
      run-Recovers es (start fresh_log) a (reachable-IsOwned sample []) start-IsUncollected
        start-Recovers

  -- After any history from the first start on, in which no chunk is asked for under a name in the
  -- trash, a restart from the log that was written gives back the names that are not deleted, the
  -- chunks of every file, and the version of every chunk, if `random.sample` is as documented.
  pub restart-Agrees :
      (es : List Event)
      → AllOrdinary es
      → Agrees
          (run sample es (start fresh_log)).store
          (start (run sample es (start fresh_log)).oplog).store
  restart-Agrees es a =
      let v = reachable-Recovers es a in
      rw (start-restored (run sample es (start fresh_log)) v.no_checkpoint) v.agrees

  -- After any history in which no chunk is asked for under a name in the trash, and a restart, no
  -- chunk at all is known and the next handle is 1: the part under the locks of a request for a
  -- chunk that a file had, by its number or by a negative one counted from the end, is a KeyError
  -- and changes nothing, if `random.sample` is as documented.
  pub restart_forgets :
      (es : List Event) (r : ChunkLocRequest) (t : Time) (h : Handle)
      → AllOrdinary es
      → Means r.chunk_index (chunks_of (run sample es (start fresh_log)).store r.filename) h
      → let n = start (run sample es (start fresh_log)).oplog in
        (n.next_handle ≡ 1)
        × ((k : Handle) → Dict.get n.chunk_map k ≡ none)
        × (locate sample r t n ≡ (raised key_error, n))
  unfolding locate
  restart_forgets es r t h a e =
      let m = run sample es (start fresh_log) in
      let v = restart-Agrees es a in
      let (first, unknown) = start-forgets m (reachable-Recovers es a).no_checkpoint in
      let n = start m.oplog in
      let means = subst (λ hs. Means r.chunk_index hs h) (sym (v.chunks r.filename)) e in
      let (inside, found) = Means-resolved r.chunk_index (chunks_of n.store r.filename) h means in
      (
        first,
        unknown,
        rw (inside, locate)
            (find_handle_unknown r.filename
              (resolve_index r.chunk_index (length (chunks_of n.store r.filename))) h n found
              (unknown h)),
      )

  -- If the master stops after any history in which no chunk is asked for under a name in the
  -- trash, and while it writes a checkpoint, behind the rename and before the log is emptied, then
  -- a restart lists every chunk of every file twice, if `random.sample` is as documented.
  pub restart_doubles :
      (es : List Event) (p : String)
      → AllOrdinary es
      → chunks_of
          (start (
            publish_checkpoint
              (run sample es (start fresh_log)).store
              (run sample es (start fresh_log)).oplog)).store
          p
        ≡ chunks_of (run sample es (start fresh_log)).store p
          ++ chunks_of (run sample es (start fresh_log)).store p
  unfolding start publish_checkpoint load_checkpoint replay
  restart_doubles es p a =
      let m = run sample es (start fresh_log) in
      let once =
        sym (chunks_of-replay_empty m.oplog.lines p) ∙ (reachable-Recovers es a).agrees.chunks p in
      chunks_of-replay_records m.oplog.lines m.store p ∙ ap (λ hs. chunks_of m.store p ++ hs) once
