-- ===== src/System/Ownership.antt =====
-- Which file a chunk belongs to: every chunk of a file is known, and belongs to one place only.
use google_file_system.Prelude.{
  String, ap, ◌∙◌, Bool-cases, inl, inr, ◌≡◌, ◌<◌, ◌+◌, refl, true, false, ◌||◌, ◌&&◌, ◌==◌, List,
  [], ◌∷◌, ◌++◌, arith, contains, IsDistinct, get_or, string_eq, nat_eq, contains-append,
  append-IsDistinct, Outcome, test_cases, returned, raised, if◌then◌else◌,
}
use google_file_system.Dict
use google_file_system.Dict.{has, get-put, get-remove_key, get-empty}
use google_file_system.GarbageCollection.{
  erase_file, drop_orphans, erase_expired, is_expired, finish_scan, scan_and_collect,
}
use google_file_system.Metadata.{
  Time, Handle, FileMetadata, ChunkMetadata, MetadataStore, empty_store, new_chunk, allocate_chunk,
}
use google_file_system.State.{Master}
use google_file_system.System.Frame.{KeepsFiles}

-- `file_chunks.get(path, [])`
abbrev pub chunks_of : MetadataStore → String → List Handle
chunks_of s path = get_or (Dict.get s.file_chunks path) []

pub record IsOwned (s : MetadataStore) : Type 0 where
  pub fresh : (h : Handle) → has s.chunk_map h ≡ true → h < s.next_handle
  pub known :
      (p : String) (h : Handle) → contains (chunks_of s p) h ≡ true → has s.chunk_map h ≡ true
  pub distinct : (p : String) → IsDistinct (chunks_of s p)
  pub unique :
      (p q : String) (h : Handle)
      → contains (chunks_of s p) h ≡ true
      → contains (chunks_of s q) h ≡ true
      → p ≡ q

pub empty-IsOwned : IsOwned empty_store
unfolding empty_store
empty-IsOwned = record {
  fresh = λ h e. ground (arith, get-empty {K = Handle} {V = ChunkMetadata} h);
  known = λ p h e. ground (arith, get-empty {K = String} {V = List Handle} p);
  distinct = λ p. ground (arith, get-empty {K = String} {V = List Handle} p);
  unique = λ p q h e. ground (arith, get-empty {K = String} {V = List Handle} p);
}

pub KeepsFiles-IsOwned : {m n : Master} → KeepsFiles m n → IsOwned m.store → IsOwned n.store
KeepsFiles-IsOwned {m} {n} k v = record {
  fresh = λ h e. ground (arith, k.known h, k.next_handle, v.fresh h);
  known = λ p h e. k.known h ∙ v.known p h (rw (same p) at e);
  distinct = λ p. rw (same p) (v.distinct p);
  unique = λ p q h e f. v.unique p q h (rw (same p) at e) (rw (same q) at f);
}
  where
    same : (p : String) → chunks_of n.store p ≡ chunks_of m.store p
    same p = ap (λ d. get_or (Dict.get d p) []) k.file_chunks

-- The chunks of a file after one more was allocated to a file.
chunks_of-allocate :
    (s : MetadataStore) (path p : String)
    → chunks_of (allocate_chunk path s).1 p
      ≡ (if p == path then chunks_of s path ++ s.next_handle ∷ [] else chunks_of s p)
unfolding allocate_chunk
chunks_of-allocate s path p =
    ground (arith, get-put s.file_chunks path p (chunks_of s path ++ s.next_handle ∷ []))

contains-allocate :
    (s : MetadataStore) (path p : String) (h : Handle)
    → contains (chunks_of (allocate_chunk path s).1 p) h
      ≡ (contains (chunks_of s p) h || (p == path) && (h == s.next_handle))
contains-allocate s path p h =
    rw (chunks_of-allocate s path p)
      (ground (arith, contains-append (chunks_of s path) (s.next_handle ∷ []) h))

has-allocate :
    (s : MetadataStore) (path : String) (h : Handle)
    → has (allocate_chunk path s).1.chunk_map h ≡ (h == s.next_handle || has s.chunk_map h)
unfolding allocate_chunk
has-allocate s path h =
    ground (arith, get-put s.chunk_map s.next_handle h (new_chunk s.next_handle))

next_handle-allocate :
    (s : MetadataStore) (path : String) → (allocate_chunk path s).1.next_handle ≡ s.next_handle + 1
unfolding allocate_chunk
next_handle-allocate s path = refl

module _ (s : MetadataStore) (v : IsOwned s) where
  -- The next handle is in no file yet.
  unused : (p : String) → contains (chunks_of s p) s.next_handle ≡ false
  unused p = elim (Bool-cases (contains (chunks_of s p) s.next_handle)) [
    | inl e ↦ absurd (omega (arith, v.fresh s.next_handle (v.known p s.next_handle e)))
    | inr e ↦ e
  ]

  -- Giving out a new handle keeps every chunk in one place.
  pub allocate_chunk-IsOwned : (path : String) → IsOwned (allocate_chunk path s).1
  allocate_chunk-IsOwned path = record {
    fresh = λ h e. ground (arith, has-allocate s path h, next_handle-allocate s path, v.fresh h);
    known =
        λ p h e. ground (arith, has-allocate s path h, contains-allocate s path p h, v.known p h);
    distinct = λ p. ground (
      arith,
      chunks_of-allocate s path p,
      append-IsDistinct s.next_handle (chunks_of s path) (unused path) (v.distinct path),
      v.distinct p,
    );
    unique = λ p q h e f. ground (
      arith,
      contains-allocate s path p h,
      contains-allocate s path q h,
      unused p,
      unused q,
      v.unique p q h,
    );
  }

-- Handles that no file has.
AreLoose : List Handle → MetadataStore → Type 0
AreLoose hs s =
    (p : String) (h : Handle) → contains hs h ≡ true → contains (chunks_of s p) h ≡ false

module _ (path : String) (s : MetadataStore) where
  chunks_of-erase :
      (p : String) → chunks_of (erase_file path s) p ≡ (if p == path then [] else chunks_of s p)
  chunks_of-erase p = ground (arith, get-remove_key s.file_chunks path p)

  erase_file-IsOwned : IsOwned s → IsOwned (erase_file path s)
  erase_file-IsOwned v = record {
    fresh = v.fresh;
    known = λ p h e. ground (arith, chunks_of-erase p, v.known p h);
    distinct = λ p. ground (arith, chunks_of-erase p, v.distinct p);
    unique = λ p q h e f. ground (arith, chunks_of-erase p, chunks_of-erase q, v.unique p q h);
  }

  -- The chunks of an erased file join those that no file has.
  erase_file-AreLoose :
      (hs : List Handle)
      → IsOwned s
      → AreLoose hs s
      → AreLoose (hs ++ chunks_of s path) (erase_file path s)
  unfolding AreLoose
  erase_file-AreLoose hs v loose p h e = ground (
    arith,
    chunks_of-erase p,
    contains-append hs (chunks_of s path) h,
    loose p h,
    v.unique p path h,
    Bool-cases (contains (chunks_of s p) h),
  )

-- Dropping chunks that no file has.
drop_orphans-IsOwned :
    (hs : List Handle) (s : MetadataStore) → IsOwned s → AreLoose hs s → IsOwned (drop_orphans hs s)
unfolding drop_orphans AreLoose
drop_orphans-IsOwned [] s v loose = v
drop_orphans-IsOwned (h ∷ hs) s v loose =
    drop_orphans-IsOwned hs _
      (record {
        fresh = λ k e. ground (arith, get-remove_key s.chunk_map h k, v.fresh k);
        known = λ p k e. ground (arith, get-remove_key s.chunk_map h k, v.known p k, loose p k);
        distinct = v.distinct;
        unique = v.unique;
      })
      (λ p k e. ground (arith, loose p k))

-- What phase 1 of a scan leaves for phase 2.
abbrev LeavesOwned : Outcome (List Handle) × MetadataStore → Type 0
LeavesOwned (raised x, s) = IsOwned s
LeavesOwned (returned hs, s) = IsOwned s × AreLoose hs s

erase_expired-LeavesOwned :
    (now : Time) (files : List (String × FileMetadata)) (hs : List Handle) (s : MetadataStore)
    → IsOwned s
    → AreLoose hs s
    → LeavesOwned (erase_expired now files hs s)
unfolding erase_expired
erase_expired-LeavesOwned now [] hs s v loose = (v, loose)
erase_expired-LeavesOwned now ((path, file) ∷ files) hs s v loose =
    let skipped = erase_expired-LeavesOwned now files hs s v loose in
    let erased =
      erase_expired-LeavesOwned now files (hs ++ chunks_of s path) (erase_file path s)
        (erase_file-IsOwned path s v) (erase_file-AreLoose path s hs v loose) in
    elim (test_cases (is_expired now file)) [
      | inl (x, e) ↦ rw (e, erase_expired) v
      | inr (inl e) ↦ rw (e, erase_expired) erased
      | inr (inr e) ↦ rw (e, erase_expired) skipped
    ]

-- A scan keeps every chunk of a file that is left, and every chunk in one place.
pub scan_and_collect-IsOwned :
    (now : Time) (s : MetadataStore) → IsOwned s → IsOwned (scan_and_collect now s).1
unfolding scan_and_collect AreLoose
scan_and_collect-IsOwned now s v =
    finish_scan-IsOwned (erase_expired now (Dict.items s.namespace) [] s)
      (erase_expired-LeavesOwned now (Dict.items s.namespace) [] s v (λ p h e. cc))
  where
    finish_scan-IsOwned :
        (r : Outcome (List Handle) × MetadataStore) → LeavesOwned r → IsOwned (finish_scan r).1
    finish_scan-IsOwned (raised x, t) w = w
    finish_scan-IsOwned (returned hs, t) w = drop_orphans-IsOwned hs t w.0 w.1
