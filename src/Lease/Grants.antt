-- ===== src/Lease/Grants.antt =====
-- What `grant_lease` does on each of its branches, and how long a lease holds.
use google_file_system.Prelude.{
  ◌+◌, ◌≡◌, ◌≢◌, refl, ◌⊎◌, inl, inr, some, none, Option-cases, List-cases, List, [], ◌∷◌, ◌++◌,
  returned, raised, attribute_error, arith, nat_eq, string_eq, ltb,
}
use google_file_system.Dict
use google_file_system.Dict.{get-put}
use google_file_system.Lease.{grant_lease, grant_first, grant_to, has_valid_lease, lease_duration}
use google_file_system.Metadata.{Time, Address, Handle, ChunkMetadata, version_of}
use google_file_system.Oplog.{append, grant_lease as grant_lease_op}
use google_file_system.State.{Master, healthy_replicas}

-- What a grant to a primary changes of a chunk, the versions and the log.
pub record IsGranted (h : Handle) (logged_at granted_at : Time) (primary : Address)
    (c : ChunkMetadata) (m n : Master) : Type 0 where
  pub next_version : version_of n.store h ≡ version_of m.store h + 1
  pub other_versions : (k : Handle) → k ≢ h → version_of n.store k ≡ version_of m.store k
  pub chunk :
      Dict.get n.chunk_map h
      ≡ some (record c { primary = some primary; lease_expiry = granted_at + lease_duration })
  pub other_chunks : (k : Handle) → k ≢ h → Dict.get n.chunk_map k ≡ Dict.get m.chunk_map k
  pub logged :
      n.oplog.lines
      ≡ m.oplog.lines
        ++ record { ts = logged_at; op = grant_lease_op h (version_of m.store h + 1) } ∷ []

module _ (h : Handle) (logged_at granted_at : Time) (m : Master) where
  pub grant_to-IsGranted :
      (p : Address) (c : ChunkMetadata)
      → IsGranted h logged_at granted_at p c m (grant_to p c h logged_at granted_at m)
  unfolding grant_to append
  grant_to-IsGranted p c = record {
    next_version = ground (arith, get-put m.chunk_versions h h (version_of m.store h + 1));
    other_versions = λ k n. ground (arith, get-put m.chunk_versions h k (version_of m.store h + 1));
    chunk = rw get-put (ground arith);
    other_chunks = λ k n. rw get-put (ground arith);
    logged = refl;
  }

  abbrev pub LeaseGranted : Type 0
  LeaseGranted =
      let result = grant_lease h logged_at granted_at m in
      (c : ChunkMetadata) × (p : Address) × (rest : List Address) × (Dict.get m.chunk_map h
        ≡ some c)
      × (healthy_replicas c ≡ p ∷ rest)
      × (result.0 ≡ returned (some p))
      × IsGranted h logged_at granted_at p c m result.1

  abbrev pub GrantOutcomes : Type 0
  GrantOutcomes =
      let result = grant_lease h logged_at granted_at m in
      ((Dict.get m.chunk_map h ≡ none) × (result ≡ (raised attribute_error, m)))
      ⊎ (((c : ChunkMetadata) × (Dict.get m.chunk_map h ≡ some c)
            × (healthy_replicas c ≡ [])
            × (result ≡ (returned none, m)))
          ⊎ LeaseGranted)

  -- Asked for an unknown chunk it raises, and changes nothing. With no healthy replica it returns
  -- None, and changes nothing. Otherwise the first healthy replica is the primary for sixty seconds,
  -- the chunk's version is one more, this is logged, and nothing else of the chunks or versions
  -- changes.
  pub grant_lease_outcomes : GrantOutcomes
  unfolding grant_lease
  grant_lease_outcomes = elim (Option-cases (Dict.get m.chunk_map h)) [
    | inl e ↦ inl (e, rw (e, grant_lease))
    | inr (c, e) ↦ inr (elim (List-cases (healthy_replicas c)) [
      | inl f ↦ inl (c, e, f, rw (e, grant_lease) (rw (f, grant_first)))
      | inr (p, rest, f) ↦ inr (
        c,
        p,
        rest,
        e,
        f,
        rw (e, grant_lease) (rw (f, grant_first)),
        rw (e, grant_lease) (rw (f, grant_first) (grant_to-IsGranted p c)),
      )
    ])
  ]

-- After a grant to a primary at a time, the lease is valid at exactly the times that come before
-- sixty seconds after it.
pub has_valid_lease-grant_lease :
    (h : Handle) (logged_at granted_at now : Time) (m : Master) (p : Address)
    → (grant_lease h logged_at granted_at m).0 ≡ returned (some p)
    → has_valid_lease h now (grant_lease h logged_at granted_at m).1
      ≡ ltb now (granted_at + lease_duration)
unfolding has_valid_lease
has_valid_lease-grant_lease h logged_at granted_at now m p r =
    elim (grant_lease_outcomes h logged_at granted_at m) [
      | inl (e, f) ↦ ground arith
      | inr (inl (c, e, n, f)) ↦ ground arith
      | inr (inr (c, q, rest, e, f, s, g)) ↦ rw (g.chunk, has_valid_lease)
    ]
