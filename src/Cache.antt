-- ===== src/Cache.antt =====
-- client/cache.py: the locations of chunks that a client has asked the master for.
pub mod Lookups
use google_file_system.Prelude.{
  ℕ, ◌+◌, String, Bool, true, false, Option, none, some, List, ltb, ℤ, int_eq, string_eq, pair_eq,
}
use google_file_system.Dict
use google_file_system.Dict.{Dict}
use google_file_system.Metadata.{Time, Address, Handle, seconds}

pub record CacheEntry : Type 0 where
  pub chunk_handle : Handle
  pub primary : Address
  pub replicas : List Address
  pub version : ℕ
  pub expires_at : Time

abbrev pub cache_ttl : Time
cache_ttl = seconds 60

-- `CacheEntry(...)`, made at a time
unfoldable pub new_entry : Handle → Address → List Address → ℕ → Time → CacheEntry
new_entry handle primary replicas version now = record {
  chunk_handle = handle;
  primary = primary;
  replicas = replicas;
  version = version;
  expires_at = now + cache_ttl;
}

abbrev pub Key : Type 0
Key = String × ℤ

abbrev pub Cache : Type 0
Cache = Dict Key CacheEntry

-- An entry that is there and not expired.
abbrev pub fresh : Time → Option CacheEntry → Option CacheEntry
fresh now none = none
fresh now (some entry) = elim (ltb now entry.expires_at) [ true ↦ some entry | false ↦ none ]

-- `get`: an entry that is expired, or none, is popped.
unfoldable pub get : Time → Key → Cache → Option CacheEntry × Cache
get now key c = elim (fresh now (Dict.get c key)) [
  | some entry ↦ (some entry, c)
  | none ↦ (none, Dict.remove_key c key)
]

unfoldable pub put : Key → CacheEntry → Cache → Cache
put key entry c = Dict.put c key entry

unfoldable pub invalidate : Key → Cache → Cache
invalidate key c = Dict.remove_key c key
