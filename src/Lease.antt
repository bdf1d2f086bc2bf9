-- ===== src/Lease.antt =====
-- master/lease.py
pub mod Grants
use google_file_system.Prelude.{
  ◌+◌, Bool, false, Option, none, some, List, [], ◌∷◌, Exec, returned, raised, attribute_error, ltb,
  nat_eq, string_eq,
}
use google_file_system.Dict
use google_file_system.Metadata.{Time, Address, Handle, ChunkMetadata, seconds, version_of}
use google_file_system.Oplog.{grant_lease as grant_lease_op}
use google_file_system.State.{Master, log_operation, set_chunk, healthy_replicas}

abbrev pub lease_duration : Time
lease_duration = seconds 60

-- The body of `grant_lease` once a healthy replica, the first of them, is known.
unfoldable pub grant_to : Address → ChunkMetadata → Handle → Time → Time → Master → Master
unfolding log_operation
grant_to primary chunk handle logged_at granted_at m =
    let new_version = version_of m.store handle + 1 in
    let versioned : Master = record m {
      store = record m.store { chunk_versions = Dict.put m.chunk_versions handle new_version };
    } in
    set_chunk handle
      (record chunk { primary = some primary; lease_expiry = granted_at + lease_duration })
      (log_operation logged_at (grant_lease_op handle new_version) versioned)

unfoldable pub grant_first :
    List Address → ChunkMetadata → Handle → Time → Time → Exec Master (Option Address)
grant_first [] chunk handle logged_at granted_at m = (returned none, m)
grant_first (primary ∷ _) chunk handle logged_at granted_at m =
    (returned (some primary), grant_to primary chunk handle logged_at granted_at m)

-- `chunk.replicas` is read before `chunk` is tested: with no such chunk that is an AttributeError.
unfoldable pub grant_lease : Handle → Time → Time → Exec Master (Option Address)
unfolding grant_first grant_to
grant_lease handle logged_at granted_at m = elim (Dict.get m.chunk_map handle) [
  | none ↦ (raised attribute_error, m)
  | some chunk ↦ grant_first (healthy_replicas chunk) chunk handle logged_at granted_at m
]

unfoldable pub has_valid_lease : Handle → Time → Master → Bool
has_valid_lease handle now m = elim (Dict.get m.chunk_map handle) [
  | none ↦ false
  | some chunk ↦ elim chunk.primary [ none ↦ false | some _ ↦ ltb now chunk.lease_expiry ]
]
