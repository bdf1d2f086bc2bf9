-- ===== src/System/Lookups.antt =====
-- Two lookups of one chunk: while the lease holds, the second is answered as the first.
use google_file_system.Prelude.{
  ℕ, ◌≤◌, ◌≡◌, refl, sym, ap, ◌∙◌, subst, String, Bool, true, List, some, inl, inr, ◌⊎◌, Outcome,
  Fault, not_found, returned, raised, continue_with, Option-cases, Bool-cases, length, arith,
  nat_eq, string_eq,
}
use google_file_system.Dict
use google_file_system.Dict.{has, get-put}
use google_file_system.Lease.{has_valid_lease}
use google_file_system.Locations.{
  ChunkLocResponse, Readings, response_of, renew_lease, respond, locate, get_chunk_locations,
}
use google_file_system.Locks.{acquire_for_operation, release_all}
use google_file_system.Metadata.{Time, Address, Handle, ChunkMetadata, FileMetadata}
use google_file_system.State.{Master, with_locks}
use google_file_system.System.Frame.{KeepsFiles}
use google_file_system.System.Invariant.{renew_lease-KeepsFiles, respond-state}
use google_file_system.System.Ownership.{chunks_of}
use google_file_system.System.Indexing.{
  IsFound, lookup, locate-IsFound, locate-namespace, locate_again,
}

outcome_cases :
    {A : Type 0} (r : Outcome A) → ((a : A) × (r ≡ returned a)) ⊎ ((x : Fault) × (r ≡ raised x))
outcome_cases (returned a) = inl (a, refl)
outcome_cases (raised x) = inr (x, refl)

respond_found :
    (h : Handle) (t : Readings) (m : Master) (loc : ChunkLocResponse)
    → (respond h t m).0 ≡ returned loc
    → (c : ChunkMetadata) × (Dict.get (respond h t m).1.chunk_map h ≡ some c)
      × (loc ≡ response_of h c (respond h t m).1.store)
unfolding respond
respond_found h t m loc e = elim (outcome_cases (renew_lease h t m).0) [
  | inr (x, f) ↦ absurd (ground arith)
  | inl (u, f) ↦ elim (Option-cases (Dict.get (renew_lease h t m).1.chunk_map h)) [
    | inl n ↦ absurd (ground arith)
    | inr (c, g) ↦ (c, ground arith, ground arith)
  ]
]

-- A lease that is valid is not renewed.
respond_valid :
    (h : Handle) (t : Readings) (m : Master) (c : ChunkMetadata)
    → has_valid_lease h t.tested_at m ≡ true
    → Dict.get m.chunk_map h ≡ some c
    → respond h t m ≡ (returned (response_of h c m.store), m)
unfolding respond renew_lease
respond_valid h t m c v e = rw (v, respond) (rw (e, respond) refl)

module _ (sample : Time → List Address → ℕ → List Address) (p : String) (i : ℕ) where
  -- The first of two lookups: the chunk that it found, and what the file still is.
  record IsAnswered (loc : ChunkLocResponse) (n : Master) : Type 0 where
    named : has n.namespace p ≡ true
    found : IsFound p i loc.chunk_handle n
    chunk : ChunkMetadata
    known : Dict.get n.chunk_map loc.chunk_handle ≡ some chunk
    answer : loc ≡ response_of loc.chunk_handle chunk n.store

  lookup_named :
      (create : Bool) (t : Readings) (m : Master)
      → has m.namespace p ≡ true
      → get_chunk_locations sample (lookup p i create) t m
        ≡ continue_with
            (λ h. respond h t)
            (with_locks p (locate sample (lookup p i create) t.allocated_at) m)
  unfolding get_chunk_locations
  lookup_named create t m e = rw (e, get_chunk_locations) refl

  -- A chunk that was found is found again, and its location given as long as the lease is valid.
  get_chunk_locations-IsAnswered :
      (create : Bool) (t : Readings) (loc : ChunkLocResponse) (n : Master)
      → IsAnswered loc n
      → has_valid_lease loc.chunk_handle t.tested_at n ≡ true
      → (get_chunk_locations sample (lookup p i create) t n).0 ≡ returned loc
  unfolding with_locks has_valid_lease
  get_chunk_locations-IsAnswered create t loc n a v =
      ap (λ (r : Outcome ChunkLocResponse × Master). r.0)
        (lookup_named create t n a.named
          ∙ ap
              (λ (r : Outcome Handle × Master).
                continue_with (λ h. respond h t)
                  (
                    r.0,
                    record r.1 {
                      locks = release_all (acquire_for_operation p n.locks).0 r.1.locks;
                    },
                  ))
              (locate_again sample p i create t.allocated_at loc.chunk_handle a.found.chunks a.chunk
                (record n { locks = (acquire_for_operation p n.locks).1 }) a.found.listed
                a.found.indexed a.known)
          ∙ respond_valid loc.chunk_handle t
              (record n {
                locks =
                    release_all (acquire_for_operation p n.locks).0
                      (acquire_for_operation p n.locks).1;
              })
              a.chunk v a.known)
      ∙ ap returned (sym a.answer)

  -- What the first lookup leaves.
  respond-IsAnswered :
      (t : Readings) (h : Handle) (m : Master) (loc : ChunkLocResponse)
      → has m.namespace p ≡ true
      → IsFound p i h m
      → (respond h t m).0 ≡ returned loc
      → IsAnswered loc (respond h t m).1
  respond-IsAnswered t h m loc named found e =
      let (c, known, answer) = respond_found h t m loc e in
      let keeps = subst (KeepsFiles m) (sym (respond-state h t m)) (renew_lease-KeepsFiles h t m) in
      subst (λ (l : ChunkLocResponse). IsAnswered l (respond h t m).1) (sym answer)
        (record {
          named = ap (λ (d : Dict.Dict String FileMetadata). has d p) keeps.namespace ∙ named;
          found = record {
            chunks = found.chunks;
            listed =
                ap (λ (d : Dict.Dict String (List Handle)). Dict.get d p) keeps.file_chunks
                ∙ found.listed;
            indexed = found.indexed;
          };
          chunk = c;
          known = known;
          answer = refl;
        })

  -- The lookup of a chunk, or of the one behind the last, that returned.
  lookup-IsAnswered :
      (create : Bool) (t : Readings) (m : Master) (loc : ChunkLocResponse)
      → i ≤ length (chunks_of m.store p)
      → (get_chunk_locations sample (lookup p i create) t m).0 ≡ returned loc
      → IsAnswered loc (get_chunk_locations sample (lookup p i create) t m).1
  unfolding with_locks get_chunk_locations
  lookup-IsAnswered create t m loc b e = elim (Bool-cases (has m.namespace p)) [
    | inr n ↦ absurd (unnamed (rw (n, get_chunk_locations) refl) e)
    | inl n ↦
        subst (λ (r : Outcome ChunkLocResponse × Master). IsAnswered loc r.1)
          (sym (lookup_named create t m n))
          (located (locate sample (lookup p i create) t.allocated_at locked) n
            (locate-namespace sample p i create t.allocated_at locked)
            (λ h. locate-IsFound sample p i create t.allocated_at h locked b)
            (ap (λ (r : Outcome ChunkLocResponse × Master). r.0) (sym (lookup_named create t m n))
              ∙ e))
  ]
    where
      unnamed :
          {r : Outcome ChunkLocResponse}
          → r ≡ raised (not_found "File not found")
          → ¬ (r ≡ returned loc)
      unnamed f g = ground arith

      locked : Master
      locked = record m { locks = (acquire_for_operation p m.locks).1 }

      located :
          (r : Outcome Handle × Master)
          → has m.namespace p ≡ true
          → (r.1.namespace ≡ m.namespace)
          → ((h : Handle) → r.0 ≡ returned h → IsFound p i h r.1)
          → (continue_with
              (λ h. respond h t)
              (
                r.0,
                record r.1 { locks = release_all (acquire_for_operation p m.locks).0 r.1.locks },
              )).0
            ≡ returned loc
          → IsAnswered loc
              (continue_with
                (λ h. respond h t)
                (
                  r.0,
                  record r.1 { locks = release_all (acquire_for_operation p m.locks).0 r.1.locks },
                )).1
      located (raised x, n) named k f g = absurd (ground arith)
      located (returned h, n) named k f g =
          respond-IsAnswered t h
            (record n { locks = release_all (acquire_for_operation p m.locks).0 n.locks }) loc
            (ap (λ (d : Dict.Dict String FileMetadata). has d p) k ∙ named)
            (record {
              chunks = (f h refl).chunks;
              listed = (f h refl).listed;
              indexed = (f h refl).indexed;
            })
            g

  -- Once the master has answered a lookup, of a chunk of a file by its index or of the chunk behind
  -- the last, every further lookup by the same index is given the same answer, made or not, if no
  -- other call comes between and the lease is valid at the time of the test.
  pub get_chunk_locations-repeated :
      (create again : Bool) (t u : Readings) (m : Master) (loc : ChunkLocResponse)
      → i ≤ length (chunks_of m.store p)
      → (get_chunk_locations sample (lookup p i create) t m).0 ≡ returned loc
      → has_valid_lease loc.chunk_handle u.tested_at
          (get_chunk_locations sample (lookup p i create) t m).1
        ≡ true
      → (get_chunk_locations sample
          (lookup p i again)
          u
          (get_chunk_locations sample (lookup p i create) t m).1).0
        ≡ returned loc
  get_chunk_locations-repeated create again t u m loc b e v =
      get_chunk_locations-IsAnswered again u loc _ (lookup-IsAnswered create t m loc b e) v
