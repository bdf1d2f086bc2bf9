-- ===== src/GarbageCollection/Scans.antt =====
-- What one scan erases.
use google_file_system.Prelude.{
  ◌-◌, ◌≡◌, refl, ap, ◌∙◌, String, Bool, true, ◌&&◌, none, some, List, [], ◌∷◌, ◌++◌, inl, inr,
  Bool-cases, contains, ltb, get_or, returned, raised, Outcome, if◌then◌else◌, arith, nat_eq,
  string_eq,
}
use google_file_system.Dict
use google_file_system.Dict.{
  Dict, entries_where, All, All-map, passes, get-remove_key, contains-keys_where, items-get,
}
use google_file_system.GarbageCollection.{
  soft_delete_ttl, is_expired, erase_file, erase_expired, drop_orphans, add_pending, finish_scan,
  scan_and_collect,
}
use google_file_system.Metadata.{Time, Handle, FileMetadata, MetadataStore}

-- Deleted for more than the time to live.
abbrev pub is_old : Time → FileMetadata → Bool
is_old now f = f.deleted && ltb soft_delete_ttl (now - get_or f.deleted_at 0)

-- A file that is deleted has the time of its deletion.
abbrev pub IsStamped : FileMetadata → Type 0
IsStamped f = f.deleted ≡ true → (t : Time) × (f.deleted_at ≡ some t)

is_expired-is_old :
    (now : Time) (f : FileMetadata) → IsStamped f → is_expired now f ≡ returned (is_old now f)
unfolding is_expired
is_expired-is_old now f h = elim (Bool-cases f.deleted) [
  | inl e ↦ let (t, g) = h e in rw (e, is_expired) (rw g refl)
  | inr e ↦ rw (e, is_expired) refl
]

-- What is left of a dict when some names are taken out.
abbrev pub Without {ℓ} : {V : Type ℓ} → (String → Bool) → Dict String V → Dict String V → Type ℓ
Without gone d e = (p : String) → Dict.get e p ≡ (if gone p then none else Dict.get d p)

module _ (now : Time) where
  erase_expired-Without :
      (files : List (String × FileMetadata)) (hs : List Handle) (s : MetadataStore)
      → All (λ x. IsStamped x.1) files
      → let r = erase_expired now files hs s in
        let gone = contains (entries_where (is_old now) files) in
        ((orphans : List Handle) × (r.0 ≡ returned orphans))
        × Without gone s.namespace r.1.namespace
        × Without gone s.file_chunks r.1.file_chunks
  unfolding erase_expired
  erase_expired-Without [] hs s a = ((hs, refl), (λ p. refl), (λ p. refl))
  erase_expired-Without ((q, f) ∷ files) hs s a = elim (Bool-cases (is_old now f)) [
    | inl o ↦
        let (returns, names, chunks) =
          erase_expired-Without files (hs ++ get_or (Dict.get s.file_chunks q) []) (erase_file q s)
            a.1 in
        rw (is_expired-is_old now f a.0 ∙ ap returned o, erase_expired)
          (rw o (
            returns,
            (λ p. names p ∙ ground (arith, get-remove_key s.namespace q p)),
            (λ p. chunks p ∙ ground (arith, get-remove_key s.file_chunks q p)),
          ))
    | inr o ↦
        rw (is_expired-is_old now f a.0 ∙ ap returned o, erase_expired)
          (rw o (erase_expired-Without files hs s a.1))
  ]

drop_orphans-namespace :
    (hs : List Handle) (s : MetadataStore)
    → ((drop_orphans hs s).namespace ≡ s.namespace)
      × ((drop_orphans hs s).file_chunks ≡ s.file_chunks)
unfolding drop_orphans
drop_orphans-namespace [] s = (refl, refl)
drop_orphans-namespace (h ∷ hs) s = drop_orphans-namespace hs (record s {
  chunk_map = Dict.remove_key s.chunk_map h;
  chunk_versions = Dict.remove_key s.chunk_versions h;
  gc_pending = add_pending h s.gc_pending;
})

finish_scan_returned :
    (r : Outcome (List Handle) × MetadataStore) (hs : List Handle)
    → r.0 ≡ returned hs
    → finish_scan r ≡ (returned tt, drop_orphans hs r.1)
finish_scan_returned (raised x, s) hs e = absurd cc
finish_scan_returned (returned ks, s) hs e = ground arith

-- The names that a scan takes out are the names of old files.
gone_of :
    (now : Time) (s : MetadataStore) (p : String)
    → contains (entries_where (is_old now) (Dict.items s.namespace)) p
      ≡ passes (is_old now) (Dict.get s.namespace p)
unfolding Dict.items Dict.keys_where
gone_of now s p = contains-keys_where (is_old now) s.namespace p

abbrev pub Erases : Time → MetadataStore → Type 0
Erases now s =
    let gone = λ (p : String). passes (is_old now) (Dict.get s.namespace p) in
    ((scan_and_collect now s).0 ≡ returned tt)
    × Without gone s.namespace (scan_and_collect now s).1.namespace
    × Without gone s.file_chunks (scan_and_collect now s).1.file_chunks

-- A scan of a store in which every deleted file has the time of its deletion does not raise. It takes
-- out exactly the names that were deleted for more than ten seconds, and their chunk lists.
pub scan_and_collect-Erases :
    (now : Time) (s : MetadataStore)
    → ((p : String) (f : FileMetadata) → Dict.get s.namespace p ≡ some f → IsStamped f)
    → Erases now s
unfolding scan_and_collect
scan_and_collect-Erases now s h =
    let ((orphans, e), names, chunks) =
      erase_expired-Without now (Dict.items s.namespace) [] s
        (All-map (Dict.items s.namespace) (λ x g. h x.0 x.1 g) (items-get s.namespace)) in
    let r = erase_expired now (Dict.items s.namespace) [] s in
    let (kept_names, kept_chunks) = drop_orphans-namespace orphans r.1 in
    rw (finish_scan_returned r orphans e) (
      refl,
      (λ p. ap (λ d. Dict.get d p) kept_names ∙ names p ∙ rw (gone_of now s p) refl),
      (λ p. ap (λ d. Dict.get d p) kept_chunks ∙ chunks p ∙ rw (gone_of now s p) refl),
    )
