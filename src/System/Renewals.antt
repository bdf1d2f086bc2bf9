-- ===== src/System/Renewals.antt =====
-- A lease that is renewed for a read, and the heartbeats that follow it.
use mathlib.Core.Option
use google_file_system.Prelude.{
  ℕ, ◌+◌, ◌≡◌, ◌≢◌, refl, sym, ap, ◌∙◌, subst, bind-state, pure, true, false, not, Option, none,
  some, List, [], ◌∷◌, inl, inr, contains, ◌&&◌, arith, nat_eq, string_eq, returned,
}
use google_file_system.Dict
use google_file_system.Dict.{has}
use google_file_system.Heartbeat.{mark_stale}
use google_file_system.Heartbeat.Reports.{mark_stale-SameElsewhere, mark_stale_lists}
use google_file_system.HeartbeatSender.{send_heartbeat}
use google_file_system.HeartbeatSender.Reports.{send_heartbeat-get, send_heartbeat-version}
use google_file_system.Lease.{grant_lease, has_valid_lease, lease_duration}
use google_file_system.Lease.Grants.{IsGranted, grant_lease_outcomes}
use google_file_system.Locations.{Readings, renew_lease, respond}
use google_file_system.Metadata.{Time, Address, Handle, ChunkMetadata, version_of}
use google_file_system.Replication.{plan_copy, plan_repair}
use google_file_system.State.{Master, healthy_replicas}
use google_file_system.Storage.{ChunkStorage, get_version}
use google_file_system.System.Invariant.{respond-state}
use google_file_system.System.Replicas.{IsTidy, mark_stale-IsTidy}

-- A heartbeat of each of these servers, in turn.
unfoldable pub heartbeats : Time → (Address → ChunkStorage) → List Address → Master → Master
heartbeats now servers [] m = m
heartbeats now servers (a ∷ rest) m =
    heartbeats now servers rest (send_heartbeat now a (servers a) m).1

pub heartbeats-version :
    (now : Time) (servers : Address → ChunkStorage) (xs : List Address) (h : Handle) (m : Master)
    → version_of (heartbeats now servers xs m).store h ≡ version_of m.store h
unfolding heartbeats
heartbeats-version now servers [] h m = refl
heartbeats-version now servers (a ∷ rest) h m =
    heartbeats-version now servers rest h (send_heartbeat now a (servers a) m).1
    ∙ send_heartbeat-version now a h (servers a) m

-- These servers hold the chunk at a version.
abbrev pub HoldAt : (Address → ChunkStorage) → List Address → Handle → ℕ → Type 0
HoldAt servers [] h v = Unit
HoldAt servers (a ∷ rest) h v =
    (has (servers a).files h ≡ true) × (get_version h (servers a) ≡ v) × HoldAt servers rest h v

-- Without these servers, the replicas of a chunk are as before.
abbrev Dropped : List Address → ChunkMetadata → ChunkMetadata → Type 0
Dropped xs c d =
    (b : Address) → contains d.replicas b ≡ (contains c.replicas b && not (contains xs b))

outdated_first :
    (now : Time) (a : Address) (h : Handle) (v : ℕ) (s : ChunkStorage) (m : Master)
    (c : ChunkMetadata)
    → Dict.get m.chunk_map h ≡ some c
    → has s.files h ≡ true
    → get_version h s ≡ v
    → v ≢ version_of m.store h
    → Dict.get (send_heartbeat now a s m).1.chunk_map h ≡ some (mark_stale a c)
outdated_first now a h v s m c e f g n = send_heartbeat-get now a h s m ∙ ground arith

mark_stale_drops :
    (a : Address) (rest : List Address) (c : ChunkMetadata)
    → IsTidy c
    → (b : Address)
    → (contains (mark_stale a c).replicas b && not (contains rest b))
      ≡ (contains c.replicas b && not (contains (a ∷ rest) b))
mark_stale_drops a rest c t b = elim (string_eq.dec b a) [
  | yes p ↦ ground (arith, (mark_stale_lists a c t).0, ap (contains (mark_stale a c).replicas) p)
  | no n ↦ ground (arith, (mark_stale-SameElsewhere a c).replicas b (λ q. n (sym q)))
]

heartbeats-Dropped :
    (now : Time) (servers : Address → ChunkStorage) (xs : List Address) (h : Handle) (v : ℕ)
    (m : Master) (c : ChunkMetadata)
    → Dict.get m.chunk_map h ≡ some c
    → IsTidy c
    → HoldAt servers xs h v
    → v ≢ version_of m.store h
    → (d : ChunkMetadata) × (Dict.get (heartbeats now servers xs m).chunk_map h ≡ some d)
      × Dropped xs c d
unfolding heartbeats
heartbeats-Dropped now servers [] h v m c e t held n = (c, e, λ b. ground arith)
heartbeats-Dropped now servers (a ∷ rest) h v m c e t (f, g, held) n =
    let (d, there, dropped) =
      heartbeats-Dropped now servers rest h v (send_heartbeat now a (servers a) m).1
        (mark_stale a c) (outdated_first now a h v (servers a) m c e f g n)
        (mark_stale-IsTidy a c t) held
        (λ p. n (p ∙ send_heartbeat-version now a h (servers a) m)) in
    (d, there, λ b. dropped b ∙ mark_stale_drops a rest c t b)

no_members : (xs : List Address) → ((b : Address) → contains xs b ≡ false) → xs ≡ []
no_members [] f = refl
no_members (x ∷ xs) f = absurd (ground (arith, f x))

-- No server is a replica of the chunk, none is repaired or gets a copy, and no lease is granted.
pub record IsStranded (h : Handle) (n : Master) : Type 0 where
  pub chunk : ChunkMetadata
  pub known : Dict.get n.chunk_map h ≡ some chunk
  pub replicas : chunk.replicas ≡ []
  pub no_copy : plan_copy h n ≡ none
  pub no_repair : (b : Address) → plan_repair h b n ≡ none
  pub no_grant : (t u : Time) → grant_lease h t u n ≡ (returned none, n)

stranded :
    (h : Handle) (n : Master) (c : ChunkMetadata)
    → Dict.get n.chunk_map h ≡ some c
    → c.replicas ≡ []
    → IsStranded h n
unfolding plan_copy plan_repair grant_lease
stranded h n c e f = record {
  chunk = c;
  known = e;
  replicas = f;
  no_copy = rw (e, plan_copy) (rw (f, plan_copy) refl);
  no_repair = λ b. rw (e, plan_repair) (rw (f, plan_repair) refl);
  no_grant = λ t u. rw (e, grant_lease) (rw (f, grant_lease) refl);
}

heartbeats-IsStranded :
    (now : Time) (servers : Address → ChunkStorage) (h : Handle) (v : ℕ) (m : Master)
    (c : ChunkMetadata)
    → Dict.get m.chunk_map h ≡ some c
    → IsTidy c
    → HoldAt servers c.replicas h v
    → v ≢ version_of m.store h
    → IsStranded h (heartbeats now servers c.replicas m)
heartbeats-IsStranded now servers h v m c e t held n =
    let (d, there, dropped) = heartbeats-Dropped now servers c.replicas h v m c e t held n in
    stranded h (heartbeats now servers c.replicas m) d there
      (no_members d.replicas (λ b. dropped b ∙ ground arith))

renewed :
    (h : Handle) (t : Readings) (m : Master)
    → has_valid_lease h t.tested_at m ≡ false
    → (renew_lease h t m).1 ≡ (grant_lease h t.logged_at t.granted_at m).1
unfolding renew_lease
renewed h t m l =
    rw (l, renew_lease)
      (bind-state (grant_lease h t.logged_at t.granted_at) (λ _. pure tt) m (λ _ n. refl))

abbrev healthy_of : Option ChunkMetadata → List Address
healthy_of none = []
healthy_of (some c) = healthy_replicas c

granted-IsStranded :
    (h : Handle) (t : Readings) (now : Time) (servers : Address → ChunkStorage) (m : Master)
    (c d : ChunkMetadata) (p : Address)
    → Dict.get m.chunk_map h ≡ some d
    → Dict.get m.chunk_map h ≡ some c
    → IsTidy c
    → HoldAt servers c.replicas h (version_of m.store h)
    → IsGranted h t.logged_at t.granted_at p d m (grant_lease h t.logged_at t.granted_at m).1
    → IsStranded h (heartbeats now servers c.replicas (grant_lease h t.logged_at t.granted_at m).1)
granted-IsStranded h t now servers m c d p f e tidy held g =
    heartbeats-IsStranded now servers h (version_of m.store h)
      (grant_lease h t.logged_at t.granted_at m).1
      (record c { primary = some p; lease_expiry = t.granted_at + lease_duration })
      (g.chunk
        ∙ ap
            (λ (o : Option ChunkMetadata).
              Option.map
                (λ (x : ChunkMetadata). record x {
                  primary = some p;
                  lease_expiry = t.granted_at + lease_duration;
                })
                o)
            (sym f ∙ e))
      (record { replicas = tidy.replicas; stale_replicas = tidy.stale_replicas }) held
      (λ q. ground (arith, g.next_version))

-- If a lookup of a chunk that the master knows finds no valid lease and a replica to grant one to,
-- the chunk's lists have no repetition, and every replica holds the chunk at the master's version,
-- then heartbeats of all its replicas that follow it one upon the other, with no other call and no
-- round of a worker before or between them, leave the chunk without a replica. No copy and no repair
-- of it is planned in that state, and no lease granted.
pub respond-IsStranded :
    (h : Handle) (t : Readings) (now : Time) (servers : Address → ChunkStorage) (m : Master)
    (c : ChunkMetadata)
    → Dict.get m.chunk_map h ≡ some c
    → IsTidy c
    → has_valid_lease h t.tested_at m ≡ false
    → healthy_replicas c ≢ []
    → HoldAt servers c.replicas h (version_of m.store h)
    → IsStranded h (heartbeats now servers c.replicas (respond h t m).1)
respond-IsStranded h t now servers m c e tidy l healthy held =
    subst (λ (n : Master). IsStranded h (heartbeats now servers c.replicas n))
      (sym (respond-state h t m ∙ renewed h t m l))
      (elim (grant_lease_outcomes h t.logged_at t.granted_at m) [
        | inl (f, _) ↦ absurd (ground arith)
        | inr (inl (d, f, none_healthy, _)) ↦
            absurd (healthy (ap healthy_of (sym e ∙ f) ∙ none_healthy))
        | inr (inr (d, p, rest, f, _, _, g)) ↦
            granted-IsStranded h t now servers m c d p f e tidy held g
      ])
