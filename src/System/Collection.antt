-- ===== src/System/Collection.antt =====
-- Deleted files and their chunks: `soft_delete` moves a file's name, and the list of its chunks stays
-- under the old one, where no scan looks.
pub mod Step
pub mod Reuse
use text.Mathlib.Text.{starts_with}
use text.Mathlib.TextPositions.{starts_with-append}
use google_file_system.Prelude.{
  ℕ, String, ◌<>◌, ◌≡◌, ◌≢◌, refl, sym, ap, ◌∙◌, Bool, true, false, List, [], ◌∷◌, ◌++◌, ℤ, pos,
  ◌-◌, some, none, inl, inr, Option, Option-cases, Bool-cases, Outcome, returned, raised,
  bind-keeps, test_cases, contains, get_or, length, min, arith, nat_eq, string_eq, ◌==◌,
}
use google_file_system.Dict
use google_file_system.Dict.{All, All-map, has, get-put, get-remove_key, get-empty, items-get}
use google_file_system.Files.{create_file_handler, delete_file_handler}
use google_file_system.GarbageCollection.{
  soft_delete, hidden_name, hidden_file, erase_expired, drop_orphans, is_expired, scan_and_collect,
  finish_scan, erase_file,
}
use google_file_system.Locations.{
  ChunkLocRequest, Readings, renew_lease, respond, place_sampled, allocate_on, allocate_missing,
  locate, get_chunk_locations, find_handle, is_past, resolve_index, heartbeat_handler,
}
use google_file_system.Metadata.{
  Time, Address, Handle, FileMetadata, ChunkMetadata, MetadataStore, empty_store, allocate_chunk,
  new_chunk, new_file,
}
use google_file_system.Oplog.{fresh_log}
use google_file_system.Startup.{start}
use google_file_system.State.{Master, with_locks, set_chunk}
use google_file_system.System.{
  Event, creates, deletes, locates, beats, checks_servers, scans, copies, repairs, finds, step, run,
}
use google_file_system.System.Frame.{
  KeepsFiles, IsQuiet, handle_heartbeat-IsQuiet, check_dead_servers-IsQuiet, worker-IsQuiet,
  stale_worker-IsQuiet,
}
use google_file_system.System.Invariant.{find_handle-state, respond-state, renew_lease-KeepsFiles}
use google_file_system.System.Ownership.{chunks_of}

-- The hidden part of the namespace.
abbrev pub is_trash : String → Bool
is_trash path = starts_with path "/.trash/"

hidden_name-is_trash : (path : String) (now : Time) → is_trash (hidden_name path now) ≡ true
unfolding hidden_name
hidden_name-is_trash path now = starts_with-append "/.trash/" _

-- Deleted files lie in the trash, nothing in the trash has chunks, and no chunk was collected.
pub record IsUncollected (s : MetadataStore) : Type 0 where
  pub in_trash :
      (p : String) (f : FileMetadata)
      → Dict.get s.namespace p ≡ some f
      → f.deleted ≡ true
      → is_trash p ≡ true
  pub no_chunks : (p : String) → is_trash p ≡ true → Dict.get s.file_chunks p ≡ none
  pub pending : s.gc_pending ≡ []

pub KeepsFiles-IsUncollected :
    {m n : Master} → KeepsFiles m n → IsUncollected m.store → IsUncollected n.store
KeepsFiles-IsUncollected {m} {n} k v = record {
  in_trash = λ p f e. v.in_trash p f (ap (λ d. Dict.get d p) (sym k.namespace) ∙ e);
  no_chunks = λ p t. ap (λ d. Dict.get d p) k.file_chunks ∙ v.no_chunks p t;
  pending = k.gc_pending ∙ v.pending;
}

pub create-IsUncollected :
    (p : String) (t u : Time) (m : Master)
    → IsUncollected m.store
    → IsUncollected (create_file_handler p t u m).1.store
unfolding create_file_handler
create-IsUncollected p t u m v = elim (Bool-cases (has m.namespace p)) [
  | inl e ↦ rw (e, create_file_handler) v
  | inr e ↦
      rw (e, create_file_handler)
        (record {
          in_trash =
              λ q f g d. ground (arith, get-put m.namespace p q (new_file p t), v.in_trash q f);
          no_chunks = v.no_chunks;
          pending = v.pending;
        })
]

soft_delete-IsUncollected :
    (p : String) (t u w : Time) (m : Master)
    → IsUncollected m.store
    → IsUncollected (soft_delete p t u w m).store
unfolding soft_delete
soft_delete-IsUncollected p t u w m v = elim (Option-cases (Dict.get m.namespace p)) [
  | inl e ↦ rw (e, soft_delete) v
  | inr (f, e) ↦
      let hidden = hidden_name p t in
      let moved = hidden_file hidden u f in
      rw (e, soft_delete)
        (record {
          in_trash = λ q g h d. ground (
            arith,
            get-remove_key (Dict.put m.namespace hidden moved) p q,
            get-put m.namespace hidden q moved,
            hidden_name-is_trash p t,
            v.in_trash q g,
          );
          no_chunks = v.no_chunks;
          pending = v.pending;
        })
]

pub delete-IsUncollected :
    (p : String) (t u w : Time) (m : Master)
    → IsUncollected m.store
    → IsUncollected (delete_file_handler p t u w m).1.store
unfolding delete_file_handler
delete-IsUncollected p t u w m v = elim (Bool-cases (has m.namespace p)) [
  | inl e ↦ rw (e, delete_file_handler) (soft_delete-IsUncollected p t u w _ v)
  | inr e ↦ rw (e, delete_file_handler) v
]

is_expired-deleted :
    (now : Time) (f : FileMetadata) → is_expired now f ≡ returned true → f.deleted ≡ true
unfolding is_expired
is_expired-deleted now f e = ground arith

-- A scan that finds no chunks with the files that it erases.
module _ (now : Time) where
  erase_expired-empty :
      (files : List (String × FileMetadata)) (s : MetadataStore)
      → All (λ x. x.1.deleted ≡ true → is_trash x.0 ≡ true) files
      → IsUncollected s
      → let t = (finish_scan (erase_expired now files [] s)).1 in
        IsUncollected t × (t.chunk_map ≡ s.chunk_map) × (t.chunk_versions ≡ s.chunk_versions)
  unfolding erase_expired drop_orphans
  erase_expired-empty [] s a v = (v, refl, refl)
  erase_expired-empty ((p, f) ∷ files) s a v = elim (test_cases (is_expired now f)) [
    | inl (x, e) ↦ rw (e, erase_expired) (v, refl, refl)
    | inr (inl e) ↦
        rw (e, erase_expired)
          (rw (v.no_chunks p (a.0 (is_expired-deleted now f e)))
            (erase_expired-empty files (erase_file p s) a.1 (erased p)))
    | inr (inr e) ↦ rw (e, erase_expired) (erase_expired-empty files s a.1 v)
  ]
    where
      erased : (q : String) → IsUncollected (erase_file q s)
      erased q = record {
        in_trash = λ r g h. v.in_trash r g (ground (arith, get-remove_key s.namespace q r));
        no_chunks = λ r t. ground (arith, get-remove_key s.file_chunks q r, v.no_chunks r);
        pending = v.pending;
      }

  -- A scan drops no chunk and no version.
  scan_and_collect_keeps :
      (s : MetadataStore)
      → IsUncollected s
      → let t = (scan_and_collect now s).1 in
        IsUncollected t × (t.chunk_map ≡ s.chunk_map) × (t.chunk_versions ≡ s.chunk_versions)
  unfolding scan_and_collect
  scan_and_collect_keeps s v =
      erase_expired-empty (Dict.items s.namespace) s
        (All-map (Dict.items s.namespace) (λ x e. v.in_trash x.0 x.1 e) (items-get s.namespace)) v

  pub scan_and_collect-IsUncollected :
      (s : MetadataStore) → IsUncollected s → IsUncollected (scan_and_collect now s).1
  scan_and_collect-IsUncollected s v = (scan_and_collect_keeps s v).0

  pub scan_and_collect-chunks :
      (s : MetadataStore)
      → IsUncollected s
      → ((scan_and_collect now s).1.chunk_map ≡ s.chunk_map)
        × ((scan_and_collect now s).1.chunk_versions ≡ s.chunk_versions)
  scan_and_collect-chunks s v = ((scan_and_collect_keeps s v).1, (scan_and_collect_keeps s v).2)

pub place_sampled-IsUncollected :
    (p : String) (h : Handle) (t : Time) (chosen : List Address) (m : Master)
    → IsUncollected m.store
    → IsUncollected (place_sampled p h t chosen m).1.store
unfolding place_sampled
place_sampled-IsUncollected p h t [] m v = v
place_sampled-IsUncollected p h t (a ∷ rest) m v = record {
  in_trash = v.in_trash;
  no_chunks = v.no_chunks;
  pending = v.pending;
}

pub allocate_chunk-IsUncollected :
    (p : String) (s : MetadataStore)
    → is_trash p ≡ false
    → IsUncollected s
    → IsUncollected (allocate_chunk p s).1
unfolding allocate_chunk
allocate_chunk-IsUncollected p s live v = record {
  in_trash = v.in_trash;
  no_chunks = λ q t. ground (
    arith,
    get-put s.file_chunks p q (chunks_of s p ++ s.next_handle ∷ []),
    v.no_chunks q,
    ap is_trash {x = p} {y = q},
  );
  pending = v.pending;
}

-- No chunk is asked for under a name in the trash.
abbrev pub IsOrdinary : Event → Type 0
IsOrdinary (locates r t) = is_trash r.filename ≡ false
IsOrdinary (finds r t) = is_trash r.filename ≡ false
IsOrdinary _ = Unit

abbrev pub AllOrdinary : List Event → Type 0
AllOrdinary [] = Unit
AllOrdinary (e ∷ es) = IsOrdinary e × AllOrdinary es
