-- ===== src/System/Placement.antt =====
-- Which chunk a request for locations gets.
use google_file_system.Prelude.{
  ℕ, zero, suc, sym, contains, negsuc, ◌+◌, ◌-◌, ◌≤◌, ◌≡◌, refl, ap, ◌∙◌, String, ℤ, pos, true,
  false, List, [], ◌∷◌, ◌++◌, some, none, inl, inr, index_list, get_elem?, get_elem?-append_last,
  beq_of_eq, ◌==◌, returned, raised, not_found, unavailable, Option-cases, Bool-cases, List-cases,
  length, length-append, min, get_or, arith, nat_eq, string_eq, ◌⊎◌, if◌then◌else◌,
}
use google_file_system.Dict
use google_file_system.Dict.{has, get-put}
use google_file_system.Locations.{
  ChunkLocRequest, place_sampled, place_chunk, allocate_on, allocate_missing, locate, find_handle,
  is_past, resolve_index,
}
use google_file_system.Metadata.{Time, Address, Handle, ChunkMetadata, allocate_chunk, version_of}
use google_file_system.Oplog.{append, allocate_chunk as allocate_chunk_op}
use google_file_system.State.{Master, log_operation}
use google_file_system.System.{IsSampler}
use google_file_system.System.Ownership.{IsOwned, chunks_of}

index-last :
    (xs : List Handle) (h : Handle)
    → index_list (xs ++ h ∷ []) (pos (length (xs ++ h ∷ []) - 1)) ≡ some h
index-last xs h =
    ap (get_elem? (xs ++ h ∷ [])) (omega (arith, length-append xs (h ∷ [])))
    ∙ get_elem?-append_last xs h

get_elem?-contains :
    (xs : List Handle) (i : ℕ) (h : Handle) → get_elem? xs i ≡ some h → contains xs h ≡ true
get_elem?-contains [] i h e = absurd cc
get_elem?-contains (x ∷ xs) zero h e = ground arith
get_elem?-contains (x ∷ xs) (suc i) h e = ground (arith, get_elem?-contains xs i h e)

index-contains :
    (xs : List Handle) (i : ℤ) (h : Handle) → index_list xs i ≡ some h → contains xs h ≡ true
index-contains xs (pos i) h e = get_elem?-contains xs i h e
index-contains xs (negsuc n) h e = ground (arith, get_elem?-contains xs (length xs - suc n) h)

index-empty : (i : ℤ) → index_list {A = Handle} [] i ≡ none
index-empty (pos i) = refl
index-empty (negsuc n) = ground arith

some_of_empty : (i : ℤ) (h : Handle) → ¬ (index_list [] i ≡ some h)
some_of_empty i h e = ground (arith, index-empty i)

get_elem?-within :
    (xs : List Handle) (i : ℕ) (h : Handle) → get_elem? xs i ≡ some h → suc i ≤ length xs
get_elem?-within [] i h e = absurd cc
get_elem?-within (x ∷ xs) zero h e = omega arith
get_elem?-within (x ∷ xs) (suc i) h e = omega (arith, get_elem?-within xs i h e)

-- The chunk that a number in a request stands for.
abbrev pub Means : ℤ → List Handle → Handle → Type 0
Means (pos i) hs h = get_elem? hs i ≡ some h
Means (negsuc n) hs h = (suc n ≤ length hs) × (get_elem? hs (length hs - suc n) ≡ some h)

pub Means-resolved :
    (i : ℤ) (hs : List Handle) (h : Handle)
    → Means i hs h
    → (is_past (resolve_index i (length hs)) (length hs) ≡ false)
      × (index_list hs (resolve_index i (length hs)) ≡ some h)
Means-resolved (pos i) hs h e = (ground (arith, get_elem?-within hs i h e), e)
Means-resolved (negsuc zero) hs h (l, e) = (ground (arith, l), ground (arith, l, e))
Means-resolved (negsuc (suc n)) hs h (l, e) = (ground arith, ground (arith, l, e))

pub find_handle_known :
    (p : String) (i : ℤ) (h : Handle) (hs : List Handle) (m : Master)
    → Dict.get m.file_chunks p ≡ some hs
    → index_list hs i ≡ some h
    → has m.chunk_map h ≡ true
    → find_handle p i m ≡ (returned h, m)
unfolding find_handle
find_handle_known p i h hs m e f g = ground arith

-- A new chunk at the end of a file, on the chosen servers, the first of them its primary.
pub record IsPlaced (p : String) (logged_at : Time) (primary : Address) (chosen : List Address)
    (m n : Master) : Type 0 where
  pub appended :
      (q : String)
      → chunks_of n.store q
        ≡ (if q == p then chunks_of m.store p ++ m.next_handle ∷ [] else chunks_of m.store q)
  pub chunk :
      (c : ChunkMetadata) × (Dict.get n.chunk_map m.next_handle ≡ some c)
      × (c.replicas ≡ chosen)
      × (c.stale_replicas ≡ [])
      × (c.primary ≡ some primary)
  pub version : version_of n.store m.next_handle ≡ 0
  pub next_handle : n.next_handle ≡ m.next_handle + 1
  pub logged :
      n.oplog.lines
      ≡ m.oplog.lines ++ record { ts = logged_at; op = allocate_chunk_op p m.next_handle } ∷ []

-- The state after the allocation, with the servers that were chosen.
abbrev allocated : String → Time → Address → List Address → Master → Master
allocated p t a rest m =
    place_chunk p m.next_handle (a ∷ rest) a t (record m { store = (allocate_chunk p m.store).1 })

allocated-IsPlaced :
    (p : String) (t : Time) (a : Address) (rest : List Address) (m : Master)
    → IsPlaced p t a (a ∷ rest) m (allocated p t a rest m)
unfolding log_operation append allocate_chunk
allocated-IsPlaced p t a rest m = record {
  appended =
      λ q. ground (arith, get-put m.file_chunks p q (chunks_of m.store p ++ m.next_handle ∷ []));
  chunk = (
    record {
      handle = m.next_handle;
      replicas = a ∷ rest;
      stale_replicas = [];
      primary = some a;
      lease_expiry = 0;
    },
    rw get-put (rw (beq_of_eq m.next_handle m.next_handle refl) refl),
    refl,
    refl,
    refl,
  );
  version = ground (arith, get-put m.chunk_versions m.next_handle m.next_handle 0);
  next_handle = refl;
  logged = refl;
}

module _ (p : String) (t : Time) (a : Address) (rest : List Address) (m : Master) where
  last_chunks :
      Dict.get (allocated p t a rest m).file_chunks p
      ≡ some (chunks_of m.store p ++ m.next_handle ∷ [])
  unfolding log_operation allocate_chunk
  last_chunks = rw get-put (rw (beq_of_eq p p refl) refl)

  last_known : has (allocated p t a rest m).chunk_map m.next_handle ≡ true
  unfolding log_operation
  last_known = rw get-put (rw (beq_of_eq m.next_handle m.next_handle refl) refl)

  allocated-find :
      let n = allocated p t a rest m in
      find_handle p (pos (length (chunks_of n.store p) - 1)) n ≡ (returned m.next_handle, n)
  allocated-find =
      let n = allocated p t a rest m in
      let hs = chunks_of m.store p ++ m.next_handle ∷ [] in
      find_handle_known p (pos (length (chunks_of n.store p) - 1)) m.next_handle hs n last_chunks
        (ap (λ o. get_elem? hs (length (get_or o []) - 1)) last_chunks
          ∙ index-last (chunks_of m.store p) m.next_handle)
        last_known

module _ (sample : Time → List Address → ℕ → List Address) (r : ChunkLocRequest) (t : Time)
    (m : Master) where
  -- Whether the index lies at or behind the end of the file's chunks.
  abbrev pub IsBehind : Type 0
  IsBehind =
      let count = length (chunks_of m.store r.filename) in
      is_past (resolve_index r.chunk_index count) count ≡ true

  abbrev pub IsAppended : Type 0
  IsAppended =
      let result = locate sample r t m in
      let servers = Dict.keys m.last_seen in
      (primary : Address) × (rest : List Address) × (sample t servers (min 3 (length servers))
        ≡ primary ∷ rest)
      × (result.0 ≡ returned m.next_handle)
      × IsPlaced r.filename t primary (primary ∷ rest) m result.1

  abbrev pub BehindOutcomes : Type 0
  BehindOutcomes =
      let result = locate sample r t m in
      ((r.create_if_missing ≡ false) × (result ≡ (raised (not_found "Chunk not found"), m)))
      ⊎ (((r.create_if_missing ≡ true)
            × (Dict.keys m.last_seen ≡ [])
            × (result ≡ (raised (unavailable "No active servers"), m)))
          ⊎ ((r.create_if_missing ≡ true) × IsAppended))

  locate-allocated :
      (s : Address) (ss : List Address) (a : Address) (rest : List Address)
      → IsBehind
      → r.create_if_missing ≡ true
      → Dict.keys m.last_seen ≡ s ∷ ss
      → sample t (s ∷ ss) (min 3 (length (s ∷ ss))) ≡ a ∷ rest
      → locate sample r t m ≡ (returned m.next_handle, allocated r.filename t a rest m)
  unfolding locate allocate_missing place_sampled
  locate-allocated s ss a rest e c k f =
      rw (e, locate)
        (rw (c, allocate_missing)
          (rw (k, allocate_on) (rw (f, place_sampled) (allocated-find r.filename t a rest m))))

  -- Asked for a chunk behind the end of a file, the master refuses with NOT_FOUND if none is to be
  -- made, and with UNAVAILABLE if no server was heard of, and changes nothing. Otherwise, if
  -- `random.sample` is as documented, the answer is the next handle, whatever the index was: the
  -- chunk is put at the end of the file, with the sampled servers, the first of them as primary,
  -- at version 0, and this is logged.
  pub locate_behind_end : IsSampler sample → IsBehind → BehindOutcomes
  unfolding locate allocate_missing
  locate_behind_end sampler e = elim (Bool-cases r.create_if_missing) [
    | inr c ↦ inl (c, rw (e, locate) (rw (c, allocate_missing)))
    | inl c ↦ elim (List-cases (Dict.keys m.last_seen)) [
      | inl k ↦ inr (inl (c, k, rw (e, locate) (rw (c, allocate_missing) (rw (k, allocate_on)))))
      | inr (s, ss, k) ↦
          let count = min 3 (length (s ∷ ss)) in
          inr (
            inr (
              c,
              elim (List-cases (sample t (s ∷ ss) count)) [
                | inl n ↦
                    absurd (omega (arith, sampler.size t (s ∷ ss) count (omega arith), ap length n))
                | inr (a, rest, f) ↦
                    rw (locate-allocated s ss a rest e c k f)
                      (a, rest, rw k f, refl, allocated-IsPlaced r.filename t a rest m)
              ],
            ))
    ]
  ]

  -- Asked for a chunk that a file has, by its number, or by a negative one counted from the end, -1
  -- being the last, in a state in which every chunk of a file is known, the master answers it, and
  -- changes nothing.
  pub locate_within :
      (h : Handle)
      → IsOwned m.store
      → Means r.chunk_index (chunks_of m.store r.filename) h
      → locate sample r t m ≡ (returned h, m)
  unfolding locate
  locate_within h v means =
      let index = resolve_index r.chunk_index (length (chunks_of m.store r.filename)) in
      let (e, f) = Means-resolved r.chunk_index (chunks_of m.store r.filename) h means in
      rw (e, locate)
        (elim (Option-cases (Dict.get m.file_chunks r.filename)) [
          | inl n ↦
              absurd (some_of_empty index h (ap (λ o. index_list (get_or o []) index) (sym n) ∙ f))
          | inr (hs, g) ↦
              find_handle_known r.filename index h hs m g
                (ap (λ o. index_list (get_or o []) index) (sym g) ∙ f)
                (v.known r.filename h (index-contains (chunks_of m.store r.filename) index h f))
        ])
