-- ===== src/Examples/Appends.antt =====
-- The theorems on appends, at two servers.
use google_file_system.Chunkserver.{
  Cluster, offset_written, append_chunk, append_local, append_each, read_chunk,
}
use google_file_system.Chunkserver.AppendRuns.{Record, append_run, read_chunk-append_run}
use google_file_system.Chunkserver.Records.{Holds}
use google_file_system.Client.{record_append}
use google_file_system.Client.Appends.{IsRecorded, append_location, record_append-IsRecorded}
use google_file_system.Dict
use google_file_system.Examples.Clients.{before, first_location, distinct}
use google_file_system.Examples.Clusters.{take_first, at_time}
use google_file_system.Examples.Servers.{empty_server, holding, two_servers, hello, both}
use google_file_system.Files.{create_file_handler}
use google_file_system.Locations.{get_chunk_locations, heartbeat_handler}
use google_file_system.Metadata.{Address, empty_store, seconds}
use google_file_system.Oplog.{fresh_log}
use google_file_system.Prelude.{
  ◌≡◌, refl, true, some, List, [], ◌∷◌, contains, returned, get_elem?, arith, nat_eq, string_eq,
}
use google_file_system.Startup.{start}
use google_file_system.Storage
use google_file_system.Storage.{get_size, set_version}
use google_file_system.System.{run}

abbrev pair : Cluster
pair = two_servers (holding hello) (holding hello)

both_hold :
    (b : Address) → contains ("cs1:50052" ∷ "cs2:50052" ∷ []) b ≡ true → Holds pair 1 hello b
unfolding Dict.get Dict.put Dict.empty string_eq nat_eq
both_hold =
    both (Holds pair 1 hello) "cs1:50052" "cs2:50052" (holding hello, refl, refl)
      (holding hello, refl, refl)

-- Two clients append a record each.
abbrev records : List Record
records =
    record { payload = 1 ∷ 2 ∷ []; version = 1 }
    ∷ record { payload = 3 ∷ 4 ∷ 5 ∷ []; version = 2 }
    ∷ []

second_offset :
    get_elem? (append_run "cs1:50052" ("cs2:50052" ∷ []) 1 records pair).0 1
    ≡ some (returned (offset_written 7))
unfolding append_run append_chunk append_local append_each get_size Storage.append set_version
    Dict.get Dict.put Dict.empty string_eq nat_eq
second_offset = refl

read_chunk-append_run_example :
    read_chunk "cs2:50052" 1 7 3 (append_run "cs1:50052" ("cs2:50052" ∷ []) 1 records pair).1
    ≡ returned (3 ∷ 4 ∷ 5 ∷ [])
unfolding string_eq
read_chunk-append_run_example =
    read_chunk-append_run "cs1:50052" ("cs2:50052" ∷ []) 1 records pair hello 1 7
      (record { payload = 3 ∷ 4 ∷ 5 ∷ []; version = 2 }) "cs2:50052" distinct both_hold
      (omega arith) refl (omega arith) second_offset refl

-- The file's first chunk is made for the append.
located :
    (append_location take_first "/a" (at_time (seconds 4)) before.master).0
    ≡ returned first_location
unfolding Dict.get Dict.put Dict.empty Dict.keys string_eq nat_eq run start fresh_log
    create_file_handler get_chunk_locations heartbeat_handler empty_store
located = refl

nothing_held :
    (b : Address) → contains ("cs1:50052" ∷ "cs2:50052" ∷ []) b ≡ true → Holds before.cluster 1 [] b
unfolding Dict.get Dict.put Dict.empty string_eq nat_eq
nothing_held =
    both (Holds before.cluster 1 []) "cs1:50052" "cs2:50052" (empty_server, refl, refl)
      (empty_server, refl, refl)

record_append-IsRecorded_example :
    IsRecorded first_location hello [] before
      (append_location take_first "/a" (at_time (seconds 4)) before.master).1
      (record_append take_first "/a" hello (at_time (seconds 4)) before)
unfolding string_eq
record_append-IsRecorded_example =
    record_append-IsRecorded take_first "/a" hello [] (at_time (seconds 4)) before first_location
      (omega arith) located refl distinct nothing_held (omega arith)
