-- ===== src/Examples/Restarts.antt =====
-- The theorems on restarts and on locks, at concrete histories and paths.
use google_file_system.Dict
use google_file_system.Examples.Clusters.{
  take_first, take_first-IsSampler, first_write, failure_and_delete, last_chunk,
}
use google_file_system.Files.{create_file_handler}
use google_file_system.Locations.{get_chunk_locations, heartbeat_handler, locate}
use google_file_system.Locks.{held}
use google_file_system.Metadata.{Handle, empty_store, seconds}
use google_file_system.Oplog.{fresh_log, publish_checkpoint}
use google_file_system.Prelude.{
  ◌≡◌, refl, raised, key_error, ◌++◌, negsuc, none, arith, nat_eq, string_eq,
}
use google_file_system.Startup.{start}
use google_file_system.System.{run}
use google_file_system.System.Collection.{AllOrdinary}
use google_file_system.System.Locking.{reachable-held}
use google_file_system.System.Ownership.{chunks_of}
use google_file_system.System.Placement.{Means}
use google_file_system.System.Recovery.{Agrees}
use google_file_system.System.Recovery.Histories.{restart-Agrees, restart_forgets, restart_doubles}

write_ordinary : AllOrdinary first_write
write_ordinary = (tt, (tt, (tt, (tt, (refl, tt)))))

delete_ordinary : AllOrdinary failure_and_delete
delete_ordinary = (tt, (tt, (refl, (tt, (tt, (tt, (tt, (tt, (tt, tt)))))))))

restart-Agrees_example :
    Agrees
      (run take_first failure_and_delete (start fresh_log)).store
      (start (run take_first failure_and_delete (start fresh_log)).oplog).store
restart-Agrees_example =
    restart-Agrees take_first take_first-IsSampler failure_and_delete delete_ordinary

first_chunk :
    Means (negsuc 0) (chunks_of (run take_first first_write (start fresh_log)).store "/a") 1
unfolding run start fresh_log create_file_handler get_chunk_locations heartbeat_handler empty_store
    Dict.get Dict.put Dict.keys Dict.empty nat_eq string_eq
first_chunk = (omega arith, refl)

restart_forgets_example :
    let n = start (run take_first first_write (start fresh_log)).oplog in
    (n.next_handle ≡ 1)
    × ((k : Handle) → Dict.get n.chunk_map k ≡ none)
    × (locate take_first last_chunk (seconds 9) n ≡ (raised key_error, n))
restart_forgets_example =
    restart_forgets take_first take_first-IsSampler first_write last_chunk (seconds 9) 1
      write_ordinary first_chunk

restart_doubles_example :
    chunks_of
      (start (
        publish_checkpoint
          (run take_first first_write (start fresh_log)).store
          (run take_first first_write (start fresh_log)).oplog)).store
      "/a"
    ≡ chunks_of (run take_first first_write (start fresh_log)).store "/a"
      ++ chunks_of (run take_first first_write (start fresh_log)).store "/a"
restart_doubles_example =
    restart_doubles take_first take_first-IsSampler first_write "/a" write_ordinary

reachable-held_example : held (run take_first failure_and_delete (start fresh_log)).locks "/a" ≡ 0
reachable-held_example = reachable-held take_first failure_and_delete "/a"
