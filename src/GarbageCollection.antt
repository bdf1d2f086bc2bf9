-- ===== src/GarbageCollection.antt =====
-- master/garbage_collection.py
pub mod Scans
use google_file_system.Prelude.{
  ◌-◌, ◌/◌, String, ◌<>◌, Bool, true, false, none, some, List, [], ◌∷◌, ◌++◌, Exec, Outcome,
  returned, raised, type_error, ltb, get_or, contains, nat_eq, string_eq, if◌then◌else◌,
}
use google_file_system.Dict
use google_file_system.Metadata.{Time, Handle, FileMetadata, MetadataStore, seconds}
use google_file_system.Oplog.{delete_file}
use google_file_system.State.{Master, log_operation}
use google_file_system.Text.{replace_slashes, decimal}

abbrev pub soft_delete_ttl : Time
soft_delete_ttl = seconds 10

-- f"/.trash/{filepath.replace('/', '_')}_{int(time.time())}"
unfoldable pub hidden_name : String → Time → String
hidden_name filepath now =
    "/.trash/" <> (replace_slashes filepath <> ("_" <> decimal (now / seconds 1)))

-- The file's entry after it was deleted: one object, reached by its hidden name only.
abbrev pub hidden_file : String → Time → FileMetadata → FileMetadata
hidden_file hidden deleted_at file = record file {
  deleted = true;
  hidden_name = some hidden;
  deleted_at = some deleted_at;
}

-- The namespace part of `soft_delete`.
abbrev pub move_to_trash : String → String → Time → FileMetadata → MetadataStore → MetadataStore
move_to_trash filepath hidden deleted_at file s = record s {
  namespace =
      Dict.remove_key (Dict.put s.namespace hidden (hidden_file hidden deleted_at file)) filepath;
}

-- The three readings of the clock: for the name, for `deleted_at` and for the log.
unfoldable pub soft_delete : String → Time → Time → Time → Master → Master
unfolding log_operation
soft_delete filepath named_at deleted_at logged_at m = elim (Dict.get m.namespace filepath) [
  | none ↦ m
  | some file ↦
      log_operation logged_at (delete_file filepath (hidden_name filepath named_at)) (record m {
        store = move_to_trash filepath (hidden_name filepath named_at) deleted_at file m.store;
      })
]

-- `meta.deleted and (now - meta.deleted_at) > SOFT_DELETE_TTL`
unfoldable pub is_expired : Time → FileMetadata → Outcome Bool
is_expired now file =
    if file.deleted
    then (elim file.deleted_at [
      | none ↦ raised type_error
      | some deleted_at ↦ returned (ltb soft_delete_ttl (now - deleted_at))
    ])
    else returned false

abbrev pub erase_file : String → MetadataStore → MetadataStore
erase_file path s = record s {
  file_chunks = Dict.remove_key s.file_chunks path;
  namespace = Dict.remove_key s.namespace path;
}

-- Phase 1, over the items that the namespace had: the handles of the files that were erased.
unfoldable pub erase_expired :
    Time → List (String × FileMetadata) → List Handle → Exec MetadataStore (List Handle)
erase_expired now [] orphaned s = (returned orphaned, s)
erase_expired now ((path, file) ∷ files) orphaned s = elim (is_expired now file) [
  | raised x ↦ (raised x, s)
  | returned true ↦
      erase_expired now files (orphaned ++ get_or (Dict.get s.file_chunks path) [])
        (erase_file path s)
  | returned false ↦ erase_expired now files orphaned s
]

-- `_gc_pending.add(handle)`
abbrev pub add_pending : Handle → List Handle → List Handle
add_pending handle pending = if contains pending handle then pending else pending ++ handle ∷ []

-- Phase 2
unfoldable pub drop_orphans : List Handle → MetadataStore → MetadataStore
drop_orphans [] s = s
drop_orphans (handle ∷ handles) s = drop_orphans handles (record s {
  chunk_map = Dict.remove_key s.chunk_map handle;
  chunk_versions = Dict.remove_key s.chunk_versions handle;
  gc_pending = add_pending handle s.gc_pending;
})

abbrev pub finish_scan : Outcome (List Handle) × MetadataStore → Outcome (Unit {0}) × MetadataStore
finish_scan (raised x, s) = (raised x, s)
finish_scan (returned orphaned, s) = (returned tt, drop_orphans orphaned s)

unfoldable pub scan_and_collect : Time → Exec MetadataStore (Unit {0})
unfolding erase_expired is_expired drop_orphans
scan_and_collect now s = finish_scan (erase_expired now (Dict.items s.namespace) [] s)
