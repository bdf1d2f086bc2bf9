-- ===== src/System/Padding.antt =====
-- What the padding of a full chunk (`AppendChunk` of chunkserver/main.cpp) comes to at the next
-- heartbeat of a secondary.
use google_file_system.Bytes.{Byte}
use google_file_system.Chunkserver.{
  ChunkServer, Cluster, AppendRequest, append_chunk, max_chunk_size, padding,
}
use google_file_system.Chunkserver.Appends.{append_chunk-Agree, append_chunk-get_version}
use google_file_system.Chunkserver.Records.{Holds, length-padding}
use google_file_system.Dict
use google_file_system.Dict.{has}
use google_file_system.Heartbeat.{mark_stale}
use google_file_system.Heartbeat.Reports.{mark_stale_lists}
use google_file_system.HeartbeatSender.{send_heartbeat}
use google_file_system.HeartbeatSender.Reports.{send_heartbeat-get}
use google_file_system.Metadata.{Time, Address, Handle, ChunkMetadata, version_of}
use google_file_system.Prelude.{
  ◌+◌, ◌≤◌, ◌<◌, ◌≡◌, ◌≢◌, ap, ◌∙◌, true, false, some, List, ◌∷◌, ◌++◌, contains, IsDistinct,
  length, length-append, arith, nat_eq, string_eq,
}
use google_file_system.State.{Master}
use google_file_system.Storage.{contents, get_version}
use google_file_system.Storage.Laws.{has-contents}
use google_file_system.System.Replicas.{IsTidy}

-- A server has the chunk filled up, at version 0, and after its next heartbeat it is no replica of
-- it, but a stale one.
pub record IsDropped (now : Time) (b : Address) (h : Handle) (old : List Byte) (m : Master)
    (after : Cluster) : Type 0 where
  pub server : ChunkServer
  pub running : Dict.get after b ≡ some server
  pub file : contents server.storage h ≡ old ++ padding (length old)
  pub versioned : get_version h server.storage ≡ 0
  pub chunk : ChunkMetadata
  pub known : Dict.get (send_heartbeat now b server.storage m).1.chunk_map h ≡ some chunk
  pub replica : contains chunk.replicas b ≡ false
  pub stale : contains chunk.stale_replicas b ≡ true

-- If a primary and its secondaries, all different, are running and hold the same bytes of a chunk,
-- at most 64 MB, a record does not fit behind them, and the master knows the chunk, at a version
-- that is not 0, with no repetition in its lists, then after the append each secondary holds the
-- chunk filled up, as the primary does, but at version 0: after its next heartbeat it is no replica
-- of the chunk, but a stale one.
pub append_chunk-IsDropped :
    (now : Time) (a : Address) (xs : List Address) (req : AppendRequest) (cluster : Cluster)
    (file : List Byte) (b : Address) (m : Master) (c : ChunkMetadata)
    → IsDistinct (a ∷ xs)
    → ((x : Address) → contains (a ∷ xs) x ≡ true → Holds cluster req.chunk_handle file x)
    → length file ≤ max_chunk_size
    → max_chunk_size < length file + length req.payload
    → contains xs b ≡ true
    → Dict.get m.chunk_map req.chunk_handle ≡ some c
    → IsTidy c
    → version_of m.store req.chunk_handle ≢ 0
    → IsDropped now b req.chunk_handle file m (append_chunk a xs req cluster).1
append_chunk-IsDropped now a xs req cluster file b m c d holds l full member e tidy newer =
    let h = req.chunk_handle in
    let (s, run, zero_version) =
      append_chunk-get_version a xs req cluster file b d holds l full member in
    let (_, same, _) = append_chunk-Agree a xs req cluster file d holds l in
    let (t, run', held) = same b (ground arith) in
    let bytes : contents s.storage h ≡ file ++ padding (length file) =
      grind (arith, run, run', held) in
    let full_length = ap (λ (f : List Byte). length f) bytes in
    let there = has-contents h s.storage (
      omega (
        arith,
        full_length,
        length-append file (padding (length file)),
        length-padding (length file),
      )) in
    let lists = mark_stale_lists b c tidy in
    record {
      server = s;
      running = run;
      file = bytes;
      versioned = zero_version;
      chunk = mark_stale b c;
      known = send_heartbeat-get now b h s.storage m ∙ ground (arith, there, zero_version);
      replica = lists.0;
      stale = lists.1;
    }
