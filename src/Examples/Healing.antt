-- ===== src/Examples/Healing.antt =====
-- The theorems on heartbeats, leases, copies and repairs, at a master that knows one chunk and two
-- chunkservers.
use google_file_system.Bytes.{Byte, drop}
use google_file_system.Chunkserver.{ChunkServer, append_chunk, padding, max_message}
use google_file_system.Chunkserver.Records.{Holds, length-padding}
use google_file_system.Dict
use google_file_system.Examples.Servers.{
  empty_server, holding, two_servers, hello, append_hello, both,
}
use google_file_system.HeartbeatSender.{send_heartbeat}
use google_file_system.HeartbeatSender.Reports.{Heard, send_heartbeat-Heard}
use google_file_system.Lease.{has_valid_lease}
use google_file_system.Locations.{Readings, respond}
use google_file_system.Metadata.{Address, ChunkMetadata, seconds, empty_store, version_of}
use google_file_system.Oplog.{fresh_log}
use google_file_system.Prelude.{
  ℕ, ◌+◌, ◌≤◌, ◌<◌, ◌≡◌, refl, true, false, some, List, [], ◌∷◌, ◌++◌, contains, length, arith,
  nat_eq, string_eq,
}
use google_file_system.Replication.{CopyCall, plan_copy, plan_repair}
use google_file_system.State.{Master, boot, set_chunk}
use google_file_system.Storage.{ChunkStorage, contents, get_version}
use google_file_system.System.Healing.{worker_at, stale_worker_at}
use google_file_system.System.Healing.Rounds.{
  IsHealed, worker_at-IsHealed, stale_worker_at-IsHealed,
}
use google_file_system.System.Padding.{IsDropped, append_chunk-IsDropped}
use google_file_system.System.Regrants.{IsOvertaken, regrant, regrants-IsOvertaken}
use google_file_system.System.Renewals.{IsStranded, HoldAt, heartbeats, respond-IsStranded}
use google_file_system.System.Replicas.{IsTidy}

-- A master that has heard of both servers, with a chunk 1 at version 1 whose lease ends at 64 seconds.
abbrev heard_of_both : Master
unfolding boot fresh_log
heard_of_both = record (boot fresh_log) {
  store = record empty_store { chunk_versions = Dict.put Dict.empty 1 1 };
  last_seen = Dict.put (Dict.put Dict.empty "cs1:50052" (seconds 1)) "cs2:50052" (seconds 18);
}

abbrev lone_chunk : ChunkMetadata
lone_chunk = record {
  handle = 1;
  replicas = "cs1:50052" ∷ [];
  stale_replicas = [];
  primary = some "cs1:50052";
  lease_expiry = seconds 64;
}

abbrev stale_chunk : ChunkMetadata
stale_chunk = record lone_chunk { stale_replicas = "cs2:50052" ∷ [] }

abbrev one_chunk : Master
one_chunk = set_chunk 1 lone_chunk heard_of_both

abbrev one_stale : Master
one_stale = set_chunk 1 stale_chunk heard_of_both

lone_chunk-IsTidy : IsTidy lone_chunk
lone_chunk-IsTidy = record { replicas = (refl, tt); stale_replicas = tt }

stale_chunk-IsTidy : IsTidy stale_chunk
stale_chunk-IsTidy = record { replicas = (refl, tt); stale_replicas = (refl, tt) }

known : Dict.get one_chunk.chunk_map 1 ≡ some lone_chunk
unfolding heard_of_both Dict.get Dict.put Dict.empty empty_store nat_eq
known = refl

known_stale : Dict.get one_stale.chunk_map 1 ≡ some stale_chunk
unfolding heard_of_both Dict.get Dict.put Dict.empty empty_store nat_eq
known_stale = refl

-- The second server's copy is one version behind.
send_heartbeat-Heard_example :
    Heard "cs2:50052" 1
      (holding hello).storage
      lone_chunk
      one_chunk
      (send_heartbeat (seconds 3) "cs2:50052" (holding hello).storage one_chunk).1
send_heartbeat-Heard_example =
    send_heartbeat-Heard (seconds 3) "cs2:50052" 1 (holding hello).storage one_chunk lone_chunk
      known lone_chunk-IsTidy

-- A storage with the chunk at a version.
abbrev at_version : ℕ → ChunkStorage
at_version v = record { files = Dict.put Dict.empty 1 hello; versions = Dict.put Dict.empty 1 v }

-- A request at 70 seconds finds no lease.
abbrev late : Readings
late = record {
  allocated_at = seconds 70;
  tested_at = seconds 70;
  logged_at = seconds 70;
  granted_at = seconds 70;
}

ended : has_valid_lease 1 (seconds 70) one_chunk ≡ false
unfolding heard_of_both Dict.get Dict.put Dict.empty empty_store nat_eq has_valid_lease
ended = refl

all_hold : HoldAt (λ a. at_version 1) lone_chunk.replicas 1 (version_of one_chunk.store 1)
unfolding heard_of_both Dict.get Dict.put Dict.empty empty_store nat_eq get_version
all_hold = (refl, refl, tt)

respond-IsStranded_example :
    IsStranded 1
      (heartbeats (seconds 72) (λ a. at_version 1) lone_chunk.replicas (respond 1 late one_chunk).1)
respond-IsStranded_example =
    respond-IsStranded 1 late (seconds 72) (λ a. at_version 1) one_chunk lone_chunk known
      lone_chunk-IsTidy ended (λ e. absurd cc) all_hold

regrants-IsOvertaken_example :
    IsOvertaken 1 "cs1:50052" "cs1:50052"
      (regrant 1 (seconds 70) (seconds 70) one_chunk)
      (regrant 1 (seconds 71) (seconds 71) (regrant 1 (seconds 70) (seconds 70) one_chunk))
      (send_heartbeat
        (seconds 72)
        "cs1:50052"
        (at_version 2)
        (regrant 1 (seconds 71) (seconds 71) (regrant 1 (seconds 70) (seconds 70) one_chunk))).1
unfolding heard_of_both Dict.get Dict.put Dict.empty empty_store nat_eq string_eq get_version
regrants-IsOvertaken_example =
    regrants-IsOvertaken 1 (seconds 70) (seconds 70) (seconds 71) (seconds 71) (seconds 72)
      one_chunk lone_chunk "cs1:50052" [] "cs1:50052" (at_version 2) known lone_chunk-IsTidy refl
      refl refl

-- Two bytes less than the chunk can hold, on both servers.
abbrev nearly_full : List Byte
nearly_full = padding 2

both_hold :
    (b : Address)
    → contains ("cs1:50052" ∷ "cs2:50052" ∷ []) b ≡ true
    → Holds (two_servers (holding nearly_full) (holding nearly_full)) 1 nearly_full b
unfolding Dict.get Dict.put Dict.empty string_eq nat_eq
both_hold =
    both (Holds (two_servers (holding nearly_full) (holding nearly_full)) 1 nearly_full) "cs1:50052"
      "cs2:50052" (holding nearly_full, refl, refl) (holding nearly_full, refl, refl)

append_chunk-IsDropped_example :
    IsDropped
      (seconds 3)
      "cs2:50052"
      1
      nearly_full
      one_chunk
      (append_chunk "cs1:50052"
        ("cs2:50052" ∷ [])
        append_hello
        (two_servers (holding nearly_full) (holding nearly_full))).1
unfolding heard_of_both Dict.get Dict.put Dict.empty empty_store nat_eq string_eq
append_chunk-IsDropped_example =
    append_chunk-IsDropped (seconds 3) "cs1:50052" ("cs2:50052" ∷ []) append_hello
      (two_servers (holding nearly_full) (holding nearly_full)) nearly_full "cs2:50052" one_chunk
      lone_chunk (refl, (refl, tt)) both_hold (omega (arith, length-padding 2))
      (omega (arith, length-padding 2)) refl known lone_chunk-IsTidy (omega arith)

-- The first server is up to date, and the second one has an older, longer file.
abbrev up_to_date : ChunkServer
up_to_date = record empty_server { storage = at_version 1 }

abbrev older : ChunkServer
older = holding (1 ∷ 2 ∷ 3 ∷ 4 ∷ 5 ∷ 6 ∷ 7 ∷ [])

abbrev copy_of_1 : CopyCall
copy_of_1 = record { source = "cs1:50052"; target = "cs2:50052"; version = 1 }

planned : plan_copy 1 one_chunk ≡ some copy_of_1
unfolding heard_of_both Dict.get Dict.put Dict.empty empty_store nat_eq string_eq Dict.keys
    plan_copy
planned = refl

repair_planned : plan_repair 1 "cs2:50052" one_stale ≡ some copy_of_1
unfolding heard_of_both Dict.get Dict.put Dict.empty empty_store nat_eq string_eq plan_repair
repair_planned = refl

first_runs : Dict.get (two_servers up_to_date older) "cs1:50052" ≡ some up_to_date
unfolding Dict.get Dict.put Dict.empty string_eq
first_runs = refl

second_runs : Dict.get (two_servers up_to_date older) "cs2:50052" ≡ some older
unfolding Dict.get Dict.put Dict.empty string_eq
second_runs = refl

has_bytes : 0 < length (contents up_to_date.storage 1)
unfolding Dict.get Dict.put Dict.empty nat_eq
has_bytes = omega arith

fits : length (contents up_to_date.storage 1) + 1024 ≤ max_message
unfolding Dict.get Dict.put Dict.empty nat_eq
fits = omega arith

worker_at-IsHealed_example :
    IsHealed
      (seconds 20)
      "cs2:50052"
      1
      (version_of one_chunk.store 1)
      (contents up_to_date.storage 1
        ++ drop (length (contents up_to_date.storage 1)) (contents older.storage 1))
      lone_chunk
      (two_servers up_to_date older)
      (worker_at ((0, 1) ∷ []) one_chunk (two_servers up_to_date older)).0
      (worker_at ((0, 1) ∷ []) one_chunk (two_servers up_to_date older)).1
worker_at-IsHealed_example =
    worker_at-IsHealed (seconds 20) one_chunk (two_servers up_to_date older) 0 1 [] copy_of_1
      lone_chunk up_to_date older known lone_chunk-IsTidy planned first_runs has_bytes fits
      second_runs

stale_worker_at-IsHealed_example :
    IsHealed
      (seconds 20)
      "cs2:50052"
      1
      (version_of one_stale.store 1)
      (contents up_to_date.storage 1
        ++ drop (length (contents up_to_date.storage 1)) (contents older.storage 1))
      stale_chunk
      (two_servers up_to_date older)
      (stale_worker_at ((1, "cs2:50052") ∷ []) one_stale (two_servers up_to_date older)).0
      (stale_worker_at ((1, "cs2:50052") ∷ []) one_stale (two_servers up_to_date older)).1
stale_worker_at-IsHealed_example =
    stale_worker_at-IsHealed (seconds 20) one_stale (two_servers up_to_date older) 1 "cs2:50052" []
      copy_of_1 stale_chunk up_to_date older known_stale stale_chunk-IsTidy repair_planned
      first_runs has_bytes fits second_runs
