-- ===== src/System/Recovery/Scans.antt =====
-- What a scan does to a store that a restart would rebuild.
use google_file_system.Prelude.{
  ◌≡◌, refl, sym, ◌∙◌, String, true, false, List, [], ◌∷◌, some, inl, inr, test_cases, Outcome,
  returned, raised, arith, nat_eq, string_eq,
}
use google_file_system.Dict
use google_file_system.Dict.{All, All-map, get-remove_key, items-get}
use google_file_system.GarbageCollection.{
  erase_expired, is_expired, erase_file, drop_orphans, scan_and_collect, finish_scan, add_pending,
}
use google_file_system.Metadata.{Time, Handle, FileMetadata, MetadataStore}
use google_file_system.System.Collection.{IsUncollected}
use google_file_system.System.Ownership.{chunks_of}
use google_file_system.System.Recovery.{Agrees, is_live}

-- What a scan may erase: a file that is deleted has no chunks, and its name is not a live one.
abbrev MayErase : MetadataStore → String × FileMetadata → Type 0
MayErase t x = x.1.deleted ≡ true → (is_live t x.0 ≡ false) × (chunks_of t x.0 ≡ [])

is_expired-deleted :
    (now : Time) (f : FileMetadata) → is_expired now f ≡ returned true → f.deleted ≡ true
unfolding is_expired
is_expired-deleted now f e = ground arith

erase_file-Agrees :
    (s t : MetadataStore) (p : String)
    → Agrees s t
    → is_live t p ≡ false
    → chunks_of t p ≡ []
    → Agrees (erase_file p s) t
erase_file-Agrees s t p v dead bare = record {
  live = λ q. ground (arith, get-remove_key s.namespace p q, v.live q);
  named = λ q e. ground (arith, get-remove_key s.namespace p q, v.named q);
  chunks = λ q. ground (arith, get-remove_key s.file_chunks p q, v.chunks q);
  versions = v.versions;
}

module _ (now : Time) (t : MetadataStore) where
  erase_expired-Agrees :
      (files : List (String × FileMetadata)) (s : MetadataStore)
      → Agrees s t
      → All (MayErase t) files
      → Agrees (finish_scan (erase_expired now files [] s)).1 t
  unfolding erase_expired drop_orphans
  erase_expired-Agrees [] s v a = v
  erase_expired-Agrees ((p, f) ∷ files) s v a = elim (test_cases (is_expired now f)) [
    | inl (x, e) ↦ rw (e, erase_expired) v
    | inr (inl e) ↦
        let (dead, bare) = a.0 (is_expired-deleted now f e) in
        rw (e, erase_expired)
          (rw (sym (v.chunks p) ∙ bare)
            (erase_expired-Agrees files (erase_file p s) (erase_file-Agrees s t p v dead bare) a.1))
    | inr (inr e) ↦ rw (e, erase_expired) (erase_expired-Agrees files s v a.1)
  ]

  pub scan_and_collect-Agrees :
      (s : MetadataStore) → IsUncollected s → Agrees s t → Agrees (scan_and_collect now s).1 t
  unfolding scan_and_collect
  scan_and_collect-Agrees s u v =
      erase_expired-Agrees (Dict.items s.namespace) s v
        (All-map (Dict.items s.namespace) may (items-get s.namespace))
    where
      may : (x : String × FileMetadata) → Dict.get s.namespace x.0 ≡ some x.1 → MayErase t x
      may (p, f) e d =
          (ground (arith, v.live p), ground (arith, v.chunks p, u.no_chunks p (u.in_trash p f e d)))

drop_orphans-next_handle :
    (hs : List Handle) (s : MetadataStore) → (drop_orphans hs s).next_handle ≡ s.next_handle
unfolding drop_orphans
drop_orphans-next_handle [] s = refl
drop_orphans-next_handle (h ∷ hs) s = drop_orphans-next_handle hs (record s {
  chunk_map = Dict.remove_key s.chunk_map h;
  chunk_versions = Dict.remove_key s.chunk_versions h;
  gc_pending = add_pending h s.gc_pending;
})

erase_expired-next_handle :
    (now : Time) (files : List (String × FileMetadata)) (hs : List Handle) (s : MetadataStore)
    → (erase_expired now files hs s).1.next_handle ≡ s.next_handle
unfolding erase_expired
erase_expired-next_handle now [] hs s = refl
erase_expired-next_handle now ((p, f) ∷ files) hs s = elim (test_cases (is_expired now f)) [
  | inl (x, e) ↦ rw (e, erase_expired)
  | inr (inl e) ↦ rw (e, erase_expired) (erase_expired-next_handle now files _ (erase_file p s))
  | inr (inr e) ↦ rw (e, erase_expired) (erase_expired-next_handle now files hs s)
]

finish_scan-next_handle :
    (r : Outcome (List Handle) × MetadataStore) → (finish_scan r).1.next_handle ≡ r.1.next_handle
finish_scan-next_handle (raised x, s) = refl
finish_scan-next_handle (returned hs, s) = drop_orphans-next_handle hs s

pub scan_and_collect-next_handle :
    (now : Time) (s : MetadataStore) → (scan_and_collect now s).1.next_handle ≡ s.next_handle
unfolding scan_and_collect
scan_and_collect-next_handle now s =
    finish_scan-next_handle (erase_expired now (Dict.items s.namespace) [] s)
    ∙ erase_expired-next_handle now (Dict.items s.namespace) [] s
