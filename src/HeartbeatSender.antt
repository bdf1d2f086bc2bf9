-- ===== src/HeartbeatSender.antt =====
-- chunkserver/heartbeat.cpp: one round of the loop in `run`, with the master that answers it. The
-- reading of the master's clock is an argument.
pub mod Reports
use google_file_system.Prelude.{ℕ, List, [], ◌∷◌, map, Exec, Outcome, returned, raised}
use google_file_system.Locations.{heartbeat_handler}
use google_file_system.Metadata.{Time, Address, Handle}
use google_file_system.State.{Master}
use google_file_system.Storage
use google_file_system.Storage.{ChunkStorage, list_all, get_version}

-- `for (auto handle : resp.chunks_to_delete())`
unfoldable pub remove_each : List Handle → ChunkStorage → ChunkStorage
remove_each [] s = s
remove_each (handle ∷ handles) s = remove_each handles (Storage.remove handle s)

-- `add_chunk_versions(storage_.get_version(h))`, for each handle.
abbrev pub versions_of : List Handle → ChunkStorage → List ℕ
versions_of handles s = map (λ h. get_version h s) handles

-- The chunks that the master names are removed; without an answer nothing is.
abbrev pub collect : Outcome (List Handle) → ChunkStorage → ChunkStorage
collect (returned pending) s = remove_each pending s
collect (raised _) s = s

unfoldable pub send_heartbeat : Time → Address → ChunkStorage → Master → ChunkStorage × Master
send_heartbeat now address s m =
    let handles = list_all s in
    let (result, after) = heartbeat_handler now address handles (versions_of handles s) m in
    (collect result s, after)
