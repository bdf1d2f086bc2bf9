-- ===== src/Metadata.antt =====
-- master/metadata.py: what the master knows of files and chunks. A time is in microseconds.
use google_file_system.Prelude.{
  ℕ, ◌+◌, ◌*◌, String, Bool, false, Option, none, List, [], ◌∷◌, ◌++◌, nat_eq, string_eq, get_or,
}
use google_file_system.Dict
use google_file_system.Dict.{Dict}

-- `time.time()`, in microseconds
abbrev pub Time : Type 0
Time = ℕ

abbrev pub seconds : ℕ → Time
seconds n = n * 1000000

-- `host:port` of a chunkserver
abbrev pub Address : Type 0
Address = String

abbrev pub Handle : Type 0
Handle = ℕ

pub record FileMetadata : Type 0 where
  pub path : String
  pub created_at : Time
  pub deleted : Bool
  pub deleted_at : Option Time
  pub hidden_name : Option String

pub record ChunkMetadata : Type 0 where
  pub handle : Handle
  pub replicas : List Address
  pub stale_replicas : List Address
  pub primary : Option Address
  pub lease_expiry : Time

pub record MetadataStore : Type 0 where
  pub namespace : Dict String FileMetadata
  pub file_chunks : Dict String (List Handle)
  pub chunk_map : Dict Handle ChunkMetadata
  pub chunk_versions : Dict Handle ℕ
  pub next_handle : Handle
  pub gc_pending : List Handle

-- `FileMetadata(path=..., created_at=...)`, the other fields at their defaults
abbrev pub new_file : String → Time → FileMetadata
new_file path created_at = record {
  path = path;
  created_at = created_at;
  deleted = false;
  deleted_at = none;
  hidden_name = none;
}

-- `ChunkMetadata(handle=handle)`
abbrev pub new_chunk : Handle → ChunkMetadata
new_chunk handle = record {
  handle = handle;
  replicas = [];
  stale_replicas = [];
  primary = none;
  lease_expiry = 0;
}

-- `MetadataStore()`
unfoldable pub empty_store : MetadataStore
empty_store = record {
  namespace = Dict.empty;
  file_chunks = Dict.empty;
  chunk_map = Dict.empty;
  chunk_versions = Dict.empty;
  next_handle = 1;
  gc_pending = [];
}

-- `file_chunks[path]`, made empty if it is missing, with the handle at its end
abbrev pub append_chunk : String → Handle → Dict String (List Handle) → Dict String (List Handle)
append_chunk path handle d = Dict.put d path (get_or (Dict.get d path) [] ++ handle ∷ [])

unfoldable pub allocate_chunk : String → MetadataStore → Handle × MetadataStore
allocate_chunk path s = (
  s.next_handle,
  record s {
    next_handle = s.next_handle + 1;
    file_chunks = append_chunk path s.next_handle s.file_chunks;
    chunk_map = Dict.put s.chunk_map s.next_handle (new_chunk s.next_handle);
    chunk_versions = Dict.put s.chunk_versions s.next_handle 0;
  },
)

-- `chunk_versions.get(handle, 0)`
abbrev pub version_of : MetadataStore → Handle → ℕ
version_of s handle = get_or (Dict.get s.chunk_versions handle) 0
