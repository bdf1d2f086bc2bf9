-- ===== src/Examples/Runs.antt =====
-- The theorems on histories, at concrete ones.
use google_file_system.Dict
use google_file_system.Examples.Clusters.{
  take_first, take_first-IsSampler, at_time, last_chunk, first_write, failure_and_delete,
}
use google_file_system.Files.{create_file_handler, delete_file_handler}
use google_file_system.Heartbeat.{
  report, report_stale, report_each, handle_heartbeat, mark_stale, mark_current,
}
use google_file_system.Locations.{heartbeat_handler, get_chunk_locations}
use google_file_system.Metadata.{seconds, empty_store}
use google_file_system.Oplog.{fresh_log}
use google_file_system.Prelude.{
  ◌≡◌, refl, false, returned, List, [], ◌∷◌, arith, nat_eq, string_eq, pair_eq,
}
use google_file_system.Replication.{put_job, copied, unreachable}
use google_file_system.Startup.{start}
use google_file_system.State.{Master}
use google_file_system.System.{
  Event, run, step, locates, scans, checks_servers, beats, creates, takes_job, finds, tests, grants,
  copy_answered,
}
use google_file_system.System.Collection.{AllOrdinary}
use google_file_system.System.Collection.Reuse.{chunks_of-recreated}
use google_file_system.System.Collection.Step.{heartbeat-never_collects}
use google_file_system.System.Invariant.{reachable-IsOwned}
use google_file_system.System.Leases.{KeepsLease, IsHeld}
use google_file_system.System.Leases.Histories.{AllTested, reachable-KeepsLease}
use google_file_system.System.Ownership.{IsOwned, chunks_of}
use google_file_system.System.Replicas.{Tidy}
use google_file_system.System.Tidy.Step.{AllApart, reachable-Tidy}

reachable-IsOwned_example : IsOwned (run take_first failure_and_delete (start fresh_log)).store
reachable-IsOwned_example = reachable-IsOwned take_first failure_and_delete

-- While a copy to the second server is under way, both servers are heard of again.
abbrev copied_between : List Event
copied_between =
    beats (seconds 1) "cs1:50052" [] []
    ∷ creates "/a" (seconds 3) (seconds 3)
    ∷ locates last_chunk (at_time (seconds 4))
    ∷ beats (seconds 5) "cs2:50052" [] []
    ∷ takes_job
    ∷ beats (seconds 6) "cs1:50052" (1 ∷ []) (1 ∷ [])
    ∷ beats (seconds 6) "cs2:50052" (1 ∷ []) (0 ∷ [])
    ∷ copy_answered 0 1 (record { source = "cs1:50052"; target = "cs2:50052"; version = 1 }) copied
    ∷ []

apart : AllApart take_first copied_between (start fresh_log)
unfolding run step start fresh_log create_file_handler get_chunk_locations heartbeat_handler
    empty_store report report_stale report_each handle_heartbeat mark_stale mark_current Dict.get
    Dict.put Dict.keys Dict.empty nat_eq string_eq
apart = (tt, (tt, (tt, (tt, (tt, (tt, (tt, (refl, tt))))))))

reachable-Tidy_example : Tidy (run take_first copied_between (start fresh_log))
reachable-Tidy_example = reachable-Tidy take_first take_first-IsSampler copied_between apart

-- The master after the first write.
abbrev written : Master
written = run take_first first_write (start fresh_log)

leased : IsHeld 1 "cs1:50052" (seconds 64) written.store
unfolding run start fresh_log create_file_handler get_chunk_locations heartbeat_handler empty_store
    Dict.get Dict.put Dict.keys Dict.empty nat_eq string_eq
leased = refl

ordinary : AllOrdinary failure_and_delete
ordinary = (tt, (tt, (refl, (tt, (tt, (tt, (tt, (tt, (tt, tt)))))))))

heartbeat-never_collects_example :
    (heartbeat_handler
      (seconds 50)
      "cs1:50052"
      (1 ∷ [])
      (1 ∷ [])
      (run take_first failure_and_delete (start fresh_log))).0
    ≡ returned []
heartbeat-never_collects_example =
    heartbeat-never_collects take_first failure_and_delete (seconds 50) "cs1:50052" (1 ∷ [])
      (1 ∷ []) ordinary

chunks_of-recreated_example :
    chunks_of
      (create_file_handler "/a"
        (seconds 6)
        (seconds 6)
        (delete_file_handler "/a" (seconds 5) (seconds 5) (seconds 5) written).1).1.store
      "/a"
    ≡ chunks_of written.store "/a"
chunks_of-recreated_example =
    chunks_of-recreated "/a" (seconds 5) (seconds 5) (seconds 5) (seconds 6) (seconds 6) written

-- A copy of a chunk that is short goes before one at low priority, and behind its like.
queued : put_job (0, 5) ((0, 3) ∷ (1, 2) ∷ []) ≡ (0, 3) ∷ (0, 5) ∷ (1, 2) ∷ []
unfolding put_job nat_eq
queued = refl

-- Within the lease the chunk is asked for again, at once and in parts, a lease is granted on another
-- chunk, a copy fails, a scan runs, and the servers are found dead.
abbrev later : List Event
later =
    locates last_chunk (at_time (seconds 40))
    ∷ finds last_chunk (seconds 41)
    ∷ tests 1 (seconds 42)
    ∷ takes_job
    ∷ grants 2 (seconds 43) (seconds 43)
    ∷ copy_answered 0 1 (record { source = "cs1:50052"; target = "cs2:50052"; version = 1 })
        unreachable
    ∷ scans (seconds 50)
    ∷ checks_servers (seconds 60)
    ∷ []

tested : AllTested take_first 1 false later written
unfolding nat_eq
tested = (tt, (tt, (tt, (tt, (refl, (tt, (tt, (tt, tt))))))))

reachable-KeepsLease_example :
    KeepsLease 1
      (run take_first first_write (start fresh_log)).store
      (run take_first later (run take_first first_write (start fresh_log))).store
reachable-KeepsLease_example =
    reachable-KeepsLease take_first 1 "cs1:50052" (seconds 64) first_write later
      (tt, (tt, (tt, (tt, (refl, tt))))) (refl, (refl, (tt, (tt, (tt, (tt, (tt, (tt, tt))))))))
      leased (omega arith, (tt, (omega arith, (tt, (tt, (tt, (tt, (tt, tt)))))))) tested
