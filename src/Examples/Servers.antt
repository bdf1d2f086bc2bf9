-- ===== src/Examples/Servers.antt =====
-- Chunkservers for the examples.
use google_file_system.Prelude.{
  ℕ, ◌≡◌, true, List, [], ◌∷◌, contains, nat_eq, string_eq, arith, sym, subst,
}
use google_file_system.Bytes.{Byte}
use google_file_system.Chunkserver.{ChunkServer, Cluster, WriteRequest, AppendRequest}
use google_file_system.Dict
use google_file_system.Metadata.{Address}

abbrev pub empty_server : ChunkServer
empty_server = record {
  storage = record { files = Dict.empty; versions = Dict.empty };
  checksum = record { disk = Dict.empty; cache = Dict.empty };
  buffer = Dict.empty;
}

-- A server that holds these bytes as chunk 1.
abbrev pub holding : List Byte → ChunkServer
holding bytes = record {
  storage = record { files = Dict.put Dict.empty 1 bytes; versions = Dict.empty };
  checksum = record { disk = Dict.empty; cache = Dict.empty };
  buffer = Dict.empty;
}

abbrev pub two_servers : ChunkServer → ChunkServer → Cluster
two_servers s t = Dict.put (Dict.put Dict.empty "cs1:50052" s) "cs2:50052" t

abbrev pub hello : List Byte
hello = 104 ∷ 101 ∷ 108 ∷ 108 ∷ 111 ∷ []

abbrev pub write_hello : ℕ → WriteRequest
write_hello offset = record {
  chunk_handle = 1;
  offset = offset;
  payload = hello;
  serial_number = 1;
  chunk_version = 1;
}

abbrev pub append_hello : AppendRequest
append_hello = record { chunk_handle = 1; payload = hello; chunk_version = 1 }

-- What holds of two addresses holds of each in their list.
pub both :
    (P : Address → Type 0) (a b : Address)
    → P a
    → P b
    → (x : Address) → contains (a ∷ b ∷ []) x ≡ true
    → P x
both P a b p q x m = elim (string_eq.dec x a) [
  | yes e ↦ subst P (sym e) p
  | no n ↦ elim (string_eq.dec x b) [ yes e ↦ subst P (sym e) q | no k ↦ absurd (ground arith) ]
]
