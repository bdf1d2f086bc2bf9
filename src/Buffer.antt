-- ===== src/Buffer.antt =====
-- chunkserver/buffer.cpp: data that was pushed and waits for its commit. The time of insertion is
-- left out: only `evict_stale` reads it, which nothing calls.
use google_file_system.Prelude.{
  ℕ, String, ◌<>◌, List, none, some, Outcome, returned, raised, failure, string_eq,
}
use google_file_system.Bytes.{Byte}
use google_file_system.Dict
use google_file_system.Dict.{Dict}
use google_file_system.Metadata.{Handle}
use google_file_system.Text.{decimal}

pub record BufferedData : Type 0 where
  pub chunk_handle : Handle
  pub payload : List Byte

abbrev pub WriteBuffer : Type 0
WriteBuffer = Dict String BufferedData

-- `std::to_string(handle) + "_" + std::to_string(serial)`
abbrev pub buffer_key : Handle → ℕ → String
buffer_key handle serial = decimal handle <> ("_" <> decimal serial)

unfoldable pub put : String → Handle → List Byte → WriteBuffer → WriteBuffer
put key handle bytes b = Dict.put b key (record { chunk_handle = handle; payload = bytes })

unfoldable pub take : String → WriteBuffer → Outcome (List Byte) × WriteBuffer
take key b = elim (Dict.get b key) [
  | none ↦
      (raised (failure "Data not found in buffer (it may have expired or was never pushed)"), b)
  | some entry ↦ (returned entry.payload, Dict.remove_key b key)
]
