-- ===== src/System/Indexing.antt =====
-- The chunk that a lookup by index finds, and finds again.
use google_file_system.Prelude.{
  ℕ, zero, suc, ◌-◌, ◌≤◌, ◌≡◌, refl, sym, ap, ◌∙◌, subst, bind-keeps, String, pos, Bool, false,
  List, [], ◌∷◌, ◌++◌, some, inl, inr, get_elem?, Outcome, returned, raised, continue_with,
  Option-cases, Bool-cases, List-cases, min, length, length-append, leb, arith, nat_eq, string_eq,
}
use google_file_system.Dict
use google_file_system.Dict.{has, get-put}
use google_file_system.Locations.{
  ChunkLocRequest, allocate_on, place_sampled, allocate_missing, locate, find_handle,
}
use google_file_system.Metadata.{Time, Address, Handle, ChunkMetadata, allocate_chunk}
use google_file_system.State.{Master, log_operation}
use google_file_system.System.Invariant.{find_handle-state}
use google_file_system.System.Placement.{find_handle_known}
use google_file_system.System.Ownership.{chunks_of}

-- The request for a chunk of a file by its index.
abbrev pub lookup : String → ℕ → Bool → ChunkLocRequest
lookup p i create = record { filename = p; chunk_index = pos i; create_if_missing = create }

-- A chunk of a file, by its index.
pub record IsFound (p : String) (i : ℕ) (h : Handle) (m : Master) : Type 0 where
  pub chunks : List Handle
  pub listed : Dict.get m.file_chunks p ≡ some chunks
  pub indexed : get_elem? chunks i ≡ some h

find_handle-IsFound :
    (p : String) (i : ℕ) (h : Handle) (m : Master)
    → (find_handle p (pos i) m).0 ≡ returned h
    → IsFound p i h m
unfolding find_handle
find_handle-IsFound p i h m e = elim (Option-cases (Dict.get m.file_chunks p)) [
  | inl n ↦ absurd (ground arith)
  | inr (hs, f) ↦ elim (Option-cases (get_elem? hs i)) [
    | inl n ↦ absurd (ground arith)
    | inr (k, g) ↦ elim (Option-cases (Dict.get m.chunk_map k)) [
      | inl n ↦ absurd (ground arith)
      | inr (c, l) ↦ record { chunks = hs; listed = f; indexed = ground arith }
    ]
  ]
]

get_elem?_bound :
    (xs : List Handle) (j : ℕ) (h : Handle) → get_elem? xs j ≡ some h → suc j ≤ length xs
get_elem?_bound [] j h e = absurd cc
get_elem?_bound (x ∷ xs) zero h e = omega arith
get_elem?_bound (x ∷ xs) (suc j) h e = omega (arith, get_elem?_bound xs j h e)

module _ (sample : Time → List Address → ℕ → List Address) (p : String) (i : ℕ) where
  allocate_missing-chunks :
      (create : Bool) (t : Time) (m : Master)
      → (allocate_missing sample (lookup p i create) t m).0 ≡ returned tt
      → chunks_of (allocate_missing sample (lookup p i create) t m).1.store p
        ≡ chunks_of m.store p ++ m.next_handle ∷ []
  unfolding allocate_missing allocate_chunk log_operation
  allocate_missing-chunks create t m e = elim (Bool-cases create) [
    | inr c ↦ absurd (ground arith)
    | inl c ↦ elim (List-cases (Dict.keys m.last_seen)) [
      | inl k ↦ absurd (ground arith)
      | inr (s, ss, k) ↦ elim (List-cases (sample t (s ∷ ss) (min 3 (length (s ∷ ss))))) [
        | inl f ↦ absurd (ground arith)
        | inr (a, rest, f) ↦
            rw (c, allocate_missing)
              (rw (k, allocate_on)
                (rw (f, place_sampled)
                  (ground (
                    arith,
                    get-put m.file_chunks p p (chunks_of m.store p ++ m.next_handle ∷ []),
                  ))))
      ]
    ]
  ]

  -- Looking a handle up, in the state that a block before it left.
  find_last :
      (create : Bool) (t : Time) (h : Handle) (m : Master) (r : Outcome (Unit {0}) × Master)
      → ((r.0 ≡ returned tt) → chunks_of r.1.store p ≡ chunks_of m.store p ++ m.next_handle ∷ [])
      → i ≡ length (chunks_of m.store p)
      → (continue_with (λ _ s. find_handle p (pos (length (chunks_of s.store p) - 1)) s) r).0
        ≡ returned h
      → IsFound p i h
          (continue_with (λ _ s. find_handle p (pos (length (chunks_of s.store p) - 1)) s) r).1
  find_last create t h m (raised x, n) k b e = absurd (ground arith)
  find_last create t h m (returned u, n) k b e =
      let last = length (chunks_of n.store p) - 1 in
      subst (IsFound p i h) (sym (find_handle-state p (pos last) n)) (
        subst (λ j. IsFound p j h n)
          (omega (
            arith,
            ap (λ (xs : List Handle). length xs) (k refl),
            length-append (chunks_of m.store p) (m.next_handle ∷ []),
          ))
          (find_handle-IsFound p last h n e))

  pub locate-IsFound :
      (create : Bool) (t : Time) (h : Handle) (m : Master)
      → i ≤ length (chunks_of m.store p)
      → (locate sample (lookup p i create) t m).0 ≡ returned h
      → IsFound p i h (locate sample (lookup p i create) t m).1
  unfolding locate
  locate-IsFound create t h m b e = elim (Bool-cases (leb (length (chunks_of m.store p)) i)) [
    | inl past ↦
        rw (past, locate)
          (find_last create t h m (allocate_missing sample (lookup p i create) t m)
            (allocate_missing-chunks create t m) (ground arith) (sym (rw (past, locate) refl) ∙ e))
    | inr within ↦
        rw (within, locate)
          (subst (IsFound p i h) (sym (find_handle-state p (pos i) m))
            (find_handle-IsFound p i h m (sym (rw (within, locate) refl) ∙ e)))
  ]

  place_sampled-namespace :
      (h : Handle) (t : Time) (xs : List Address) (m : Master)
      → (place_sampled p h t xs m).1.namespace ≡ m.namespace
  unfolding place_sampled log_operation
  place_sampled-namespace h t [] m = refl
  place_sampled-namespace h t (a ∷ rest) m = refl

  allocate_on-namespace :
      (servers : List Address) (t : Time) (m : Master)
      → (allocate_on sample servers p t m).1.namespace ≡ m.namespace
  unfolding allocate_on allocate_chunk
  allocate_on-namespace [] t m = refl
  allocate_on-namespace (s ∷ ss) t m = place_sampled-namespace _ t _ _

  pub locate-namespace :
      (create : Bool) (t : Time) (m : Master)
      → (locate sample (lookup p i create) t m).1.namespace ≡ m.namespace
  unfolding locate allocate_missing
  locate-namespace create t m = elim (Bool-cases (leb (length (chunks_of m.store p)) i)) [
    | inl past ↦
        rw (past, locate)
          (bind-keeps (λ (n : Master). n.namespace ≡ m.namespace)
            (allocate_missing sample (lookup p i create) t) _ m
            (elim (Bool-cases create) [
              | inl c ↦ rw (c, allocate_missing) (allocate_on-namespace (Dict.keys m.last_seen) t m)
              | inr c ↦ rw (c, allocate_missing) refl
            ])
            (λ _ n e.
              ap (λ (k : Master). k.namespace)
                (find_handle-state p (pos (length (chunks_of n.store p) - 1)) n)
              ∙ e))
    | inr within ↦
        rw (within, locate) (ap (λ (k : Master). k.namespace) (find_handle-state p (pos i) m))
  ]

  pub locate_again :
      (create : Bool) (t : Time) (h : Handle) (hs : List Handle) (c : ChunkMetadata) (m : Master)
      → Dict.get m.file_chunks p ≡ some hs
      → get_elem? hs i ≡ some h
      → Dict.get m.chunk_map h ≡ some c
      → locate sample (lookup p i create) t m ≡ (returned h, m)
  unfolding locate
  locate_again create t h hs c m e f g =
      rw (present, locate) (find_handle_known p (pos i) h hs m e f (ground arith))
    where
      present : leb (length (chunks_of m.store p)) i ≡ false
      present = ground (arith, get_elem?_bound hs i h f)
