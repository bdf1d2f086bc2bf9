-- ===== src/Examples/Steps.antt =====
-- The theorems on single operations, over a master that knows one chunk.
use google_file_system.Dict
use google_file_system.Dict.{get-put, get-empty, passes}
use google_file_system.Files.{create_file_handler}
use google_file_system.Files.Outcomes.{DeletionOutcomes, delete_file_handler_outcomes}
use google_file_system.GarbageCollection.{hidden_file}
use google_file_system.GarbageCollection.Scans.{IsStamped, Erases, scan_and_collect-Erases}
use google_file_system.Heartbeat.{check_dead_servers, drop_replica, is_silent}
use google_file_system.Heartbeat.Sweep.{
  Forgets, check_dead_servers-Forgets, check_dead_servers_enqueues,
}
use google_file_system.Lease.Grants.{GrantOutcomes, grant_lease_outcomes}
use google_file_system.Metadata.{
  ChunkMetadata, FileMetadata, MetadataStore, new_file, seconds, empty_store,
}
use google_file_system.Oplog.{fresh_log}
use google_file_system.Prelude.{
  String, ◌≡◌, pair_eq, refl, true, some, [], ◌∷◌, contains, arith, nat_eq, string_eq,
}
use google_file_system.Replication.{CopyCall, unreachable, plan_copy}
use google_file_system.Replication.Rounds.{Retried, worker_retries}
use google_file_system.State.{Master, boot, set_chunk}
use google_file_system.System.Races.{ListedTwice, finish_copy-report}
use google_file_system.System.Replicas.{IsTidy, Tidy, put-AllTidy}

-- Two servers, and the chunk 7 on one of them under a lease.
abbrev two_servers : Master
unfolding boot fresh_log
two_servers = record (boot fresh_log) {
  last_seen = Dict.put (Dict.put Dict.empty "cs1:50052" (seconds 1)) "cs2:50052" (seconds 18);
}

abbrev lone_chunk : ChunkMetadata
lone_chunk = record {
  handle = 7;
  replicas = "cs1:50052" ∷ [];
  stale_replicas = [];
  primary = some "cs1:50052";
  lease_expiry = seconds 64;
}

abbrev one_chunk : Master
one_chunk = set_chunk 7 lone_chunk two_servers

abbrev copy_of_7 : CopyCall
copy_of_7 = record { source = "cs1:50052"; target = "cs2:50052"; version = 0 }

lone_chunk-IsTidy : IsTidy lone_chunk
lone_chunk-IsTidy = record { replicas = (refl, tt); stale_replicas = tt }

known : Dict.get one_chunk.chunk_map 7 ≡ some lone_chunk
unfolding two_servers Dict.get Dict.put Dict.empty empty_store nat_eq string_eq
known = refl

planned : plan_copy 7 one_chunk ≡ some copy_of_7
unfolding two_servers Dict.get Dict.put Dict.empty empty_store nat_eq string_eq Dict.keys plan_copy
planned = refl

-- At 18 seconds the first server was silent for too long, and then no replica is left.
forgotten_chunk : passes (is_silent (seconds 18)) (Dict.get one_chunk.last_seen "cs1:50052") ≡ true
unfolding two_servers Dict.get Dict.put Dict.empty empty_store nat_eq string_eq boot
forgotten_chunk = refl

lost : ChunkMetadata
lost = record lone_chunk { replicas = [] }

one_chunk-Tidy : Tidy one_chunk
unfolding two_servers empty_store Dict.empty
one_chunk-Tidy =
    put-AllTidy Dict.empty 7 lone_chunk lone_chunk-IsTidy
      (record { at = λ h c e. ground (arith, get-empty {V = ChunkMetadata} h) })

grant_lease_outcomes_example : GrantOutcomes 7 (seconds 4) (seconds 4) one_chunk
grant_lease_outcomes_example = grant_lease_outcomes 7 (seconds 4) (seconds 4) one_chunk

-- A file is there to be deleted.
abbrev one_file : Master
one_file = (create_file_handler "/a" (seconds 2) (seconds 2) one_chunk).1

delete_file_handler_outcomes_example :
    DeletionOutcomes "/a" (seconds 3) (seconds 3) (seconds 4) one_file
delete_file_handler_outcomes_example =
    delete_file_handler_outcomes "/a" (seconds 3) (seconds 3) (seconds 4) one_file

check_dead_servers-Forgets_example : Forgets (seconds 18) one_chunk "cs1:50052" 7 lone_chunk
check_dead_servers-Forgets_example =
    check_dead_servers-Forgets (seconds 18) one_chunk "cs1:50052" 7 lone_chunk one_chunk-Tidy known

swept : Dict.get (check_dead_servers (seconds 18) one_chunk).chunk_map 7 ≡ some lost
unfolding two_servers Dict.get Dict.put Dict.empty empty_store nat_eq string_eq check_dead_servers
    drop_replica lost Dict.keys_where Dict.map_values
swept = refl

check_dead_servers_enqueues_example :
    contains (check_dead_servers (seconds 18) one_chunk).queue (0, 7) ≡ true
unfolding lost
check_dead_servers_enqueues_example =
    check_dead_servers_enqueues (seconds 18) one_chunk "cs1:50052" 7 lost forgotten_chunk swept refl

worker_retries_example : Retried one_chunk 1 7 ((1, 9) ∷ []) unreachable
worker_retries_example =
    worker_retries one_chunk 1 7 ((1, 9) ∷ []) copy_of_7 unreachable tt planned (λ e. cc)

finish_copy-report_example : ListedTwice 7 one_chunk copy_of_7 lone_chunk
finish_copy-report_example = finish_copy-report 7 one_chunk copy_of_7 lone_chunk known planned

-- A file that was deleted at 3 seconds, and one that is in use.
abbrev one_deleted : MetadataStore
unfolding empty_store
one_deleted = record empty_store {
  namespace =
      Dict.put (Dict.put Dict.empty "/b" (new_file "/b" (seconds 1))) "/.trash/_a_3"
        (hidden_file "/.trash/_a_3" (seconds 3) (new_file "/a" (seconds 2)));
}

one_deleted-IsStamped :
    (p : String) (f : FileMetadata) → Dict.get one_deleted.namespace p ≡ some f → IsStamped f
unfolding one_deleted
one_deleted-IsStamped p f e d = (
  seconds 3,
  ground (
    arith,
    get-put (Dict.put Dict.empty "/b" (new_file "/b" (seconds 1))) "/.trash/_a_3" p
        (hidden_file "/.trash/_a_3" (seconds 3) (new_file "/a" (seconds 2))),
    get-put Dict.empty "/b" p (new_file "/b" (seconds 1)),
    get-empty {V = FileMetadata} p,
  ),
)

scan_and_collect-Erases_example : Erases (seconds 14) one_deleted
scan_and_collect-Erases_example =
    scan_and_collect-Erases (seconds 14) one_deleted one_deleted-IsStamped
