-- ===== src/Heartbeat/Sweep.antt =====
-- What a round of `check_dead_servers` does.
use mathlib.Core.Option
use google_file_system.Prelude.{
  ℕ, ◌≡◌, refl, ap, ◌∙◌, beq_of_eq, true, not, ◌&&◌, ◌||◌, List, [], ◌∷◌, some, none, contains,
  contains-remove_self, contains-remove_ne, remove-IsDistinct, IsDistinct, if◌then◌else◌, arith,
  nat_eq, string_eq, pair_eq, ◌==◌,
}
use google_file_system.Dict
use google_file_system.Dict.{get-remove_key, get-map_values, contains-keys_where, passes}
use google_file_system.Heartbeat.{
  drop_replica, forget_server, is_short, enqueue_each, handle_failure, is_silent, fail_each,
  check_dead_servers,
}
use google_file_system.Metadata.{Time, Address, Handle, ChunkMetadata}
use google_file_system.Replication.{enqueue, put_job, high}
use google_file_system.State.{Master}
use google_file_system.System.Replicas.{Tidy}

enqueue_each-last_seen :
    (hs : List Handle) (m : Master) → (enqueue_each hs m).last_seen ≡ m.last_seen
unfolding enqueue_each
enqueue_each-last_seen [] m = refl
enqueue_each-last_seen (h ∷ hs) m = enqueue_each-last_seen hs (enqueue h high m)

enqueue_each-chunk_map :
    (hs : List Handle) (m : Master) → (enqueue_each hs m).chunk_map ≡ m.chunk_map
unfolding enqueue_each
enqueue_each-chunk_map [] m = refl
enqueue_each-chunk_map (h ∷ hs) m = enqueue_each-chunk_map hs (enqueue h high m)

-- The servers that are left.
fail_each-last_seen :
    (addrs : List Address) (m : Master) (a : Address)
    → Dict.get (fail_each addrs m).last_seen a
      ≡ (if contains addrs a then none else Dict.get m.last_seen a)
unfolding fail_each handle_failure forget_server
fail_each-last_seen [] m a = refl
fail_each-last_seen (x ∷ addrs) m a = ground (
  arith,
  fail_each-last_seen addrs (handle_failure x m) a,
  enqueue_each-last_seen (Dict.keys_where is_short (forget_server x m).chunk_map)
      (forget_server x m),
  get-remove_key m.last_seen x a,
)

-- A chunk after several servers were dropped from its replicas.
drop_each : List Address → ChunkMetadata → ChunkMetadata
drop_each [] c = c
drop_each (a ∷ addrs) c = drop_each addrs (drop_replica a c)

fail_each-chunk_map :
    (addrs : List Address) (m : Master) (h : Handle)
    → Dict.get (fail_each addrs m).chunk_map h
      ≡ Option.map (drop_each addrs) (Dict.get m.chunk_map h)
unfolding fail_each handle_failure forget_server drop_each
fail_each-chunk_map [] m h = ground arith
fail_each-chunk_map (x ∷ addrs) m h = ground (
  arith,
  fail_each-chunk_map addrs (handle_failure x m) h,
  enqueue_each-chunk_map (Dict.keys_where is_short (forget_server x m).chunk_map)
      (forget_server x m),
  get-map_values (drop_replica x) m.chunk_map h,
)

contains-drop_each :
    (addrs : List Address) (c : ChunkMetadata) (a : Address)
    → IsDistinct c.replicas
    → contains (drop_each addrs c).replicas a ≡ (contains c.replicas a && not (contains addrs a))
unfolding drop_each drop_replica
contains-drop_each [] c a d = ground arith
contains-drop_each (x ∷ addrs) c a d = ground (
  arith,
  contains-drop_each addrs (drop_replica x c) a,
  contains-remove_self x c.replicas d,
  contains-remove_ne x a c.replicas,
  remove-IsDistinct x c.replicas d,
)

contains-put_job :
    (j k : ℕ × Handle) (q : List (ℕ × Handle)) → contains (put_job j q) k ≡ (k == j || contains q k)
unfolding put_job
contains-put_job j k [] = refl
contains-put_job j k (x ∷ q) = ground (arith, contains-put_job j k q)

same_job : (h x : Handle) → h ≡ x → ◌==◌ {A = ℕ × Handle} (0, h) (0, x) ≡ true
same_job h x e = beq_of_eq {A = ℕ × Handle} (0, h) (0, x) (ap (λ k. (0, k)) e)

contains-enqueue_each :
    (hs : List Handle) (m : Master) (h : Handle)
    → contains hs h || contains m.queue (0, h) ≡ true
    → contains (enqueue_each hs m).queue (0, h) ≡ true
unfolding enqueue_each enqueue
contains-enqueue_each [] m h e = e
contains-enqueue_each (x ∷ hs) m h e =
    contains-enqueue_each hs (enqueue x high m) h
      (rw (contains-put_job (0, x) (0, h) m.queue) (ground (arith, same_job h x)))

-- Every chunk with fewer than three replicas waits at high priority.
ShortWait : Master → Type 0
ShortWait m =
    (h : Handle) (c : ChunkMetadata)
    → Dict.get m.chunk_map h ≡ some c
    → is_short c ≡ true
    → contains m.queue (0, h) ≡ true

handle_failure-ShortWait : (a : Address) (m : Master) → ShortWait (handle_failure a m)
unfolding handle_failure ShortWait
handle_failure-ShortWait a m h c e s =
    let n = forget_server a m in
    let hs = Dict.keys_where is_short n.chunk_map in
    contains-enqueue_each hs n h
      (ground (arith, contains-keys_where is_short n.chunk_map h, enqueue_each-chunk_map hs n))

fail_each-ShortWait :
    (a : Address) (addrs : List Address) (m : Master) → ShortWait (fail_each (a ∷ addrs) m)
unfolding fail_each
fail_each-ShortWait a [] m = handle_failure-ShortWait a m
fail_each-ShortWait a (b ∷ addrs) m = fail_each-ShortWait b addrs (handle_failure a m)

module _ (now : Time) (m : Master) where
  abbrev pub Forgets : Address → Handle → ChunkMetadata → Type 0
  Forgets a h c =
      let n = check_dead_servers now m in
      let silent = passes (is_silent now) (Dict.get m.last_seen a) in
      (Dict.get n.last_seen a ≡ (if silent then none else Dict.get m.last_seen a))
      × (d : ChunkMetadata) × (Dict.get n.chunk_map h ≡ some d)
      × (contains d.replicas a ≡ (contains c.replicas a && not silent))

  -- If no chunk lists a server twice, a round forgets exactly the servers that were silent for
  -- more than fifteen seconds, takes them out of the replicas of every chunk, and takes out no
  -- other.
  pub check_dead_servers-Forgets :
      (a : Address) (h : Handle) (c : ChunkMetadata)
      → Tidy m
      → Dict.get m.chunk_map h ≡ some c
      → Forgets a h c
  unfolding check_dead_servers
  check_dead_servers-Forgets a h c t e =
      let dead = Dict.keys_where (is_silent now) m.last_seen in
      let listed = contains-keys_where (is_silent now) m.last_seen a in
      (
        fail_each-last_seen dead m a ∙ rw listed refl,
        drop_each dead c,
        ground (arith, fail_each-chunk_map dead m h),
        contains-drop_each dead c a (t.at h c e).replicas ∙ rw listed refl,
      )

  -- When a server is found silent, every chunk that is left with fewer than three replicas waits to
  -- be copied, at high priority.
  pub check_dead_servers_enqueues :
      (a : Address) (h : Handle) (d : ChunkMetadata)
      → passes (is_silent now) (Dict.get m.last_seen a) ≡ true
      → Dict.get (check_dead_servers now m).chunk_map h ≡ some d
      → is_short d ≡ true
      → contains (check_dead_servers now m).queue (0, h) ≡ true
  unfolding check_dead_servers ShortWait
  check_dead_servers_enqueues a h d s e short =
      go (Dict.keys_where (is_silent now) m.last_seen)
        (contains-keys_where (is_silent now) m.last_seen a ∙ s) e
    where
      go :
          (addrs : List Address)
          → contains addrs a ≡ true
          → Dict.get (fail_each addrs m).chunk_map h ≡ some d
          → contains (fail_each addrs m).queue (0, h) ≡ true
      go [] n f = cc
      go (b ∷ addrs) n f = fail_each-ShortWait b addrs m h d f short
