-- ===== src/Examples/Lookups.antt =====
-- The theorems on the lookup of chunks, by the master after a file got its first chunk, and in the
-- cache of a client.
use google_file_system.Cache.{CacheEntry, new_entry, get}
use google_file_system.Cache.Lookups.{
  CacheCall, gets, puts, invalidates, calls, last_put, get-calls, unless_expired,
}
use google_file_system.Dict
use google_file_system.Examples.Clusters.{take_first, take_first-IsSampler, first_write}
use google_file_system.Files.{create_file_handler, delete_file_handler}
use google_file_system.Locations.{ChunkLocRequest, locate, get_chunk_locations, heartbeat_handler}
use google_file_system.Metadata.{empty_store, seconds}
use google_file_system.Oplog.{fresh_log}
use google_file_system.Prelude.{
  ℕ, ◌≡◌, refl, true, false, none, List, [], ◌∷◌, arith, int_eq, pair_eq, returned, pos, negsuc,
  nat_eq, string_eq,
}
use google_file_system.Startup.{start}
use google_file_system.State.{Master}
use google_file_system.System.{run}
use google_file_system.System.Deletions.{locate-delete_file_handler}
use google_file_system.System.Invariant.{reachable-IsOwned}
use google_file_system.System.Ownership.{chunks_of}
use google_file_system.System.Placement.{
  Means, IsBehind, BehindOutcomes, locate_behind_end, locate_within,
}

abbrev written : Master
written = run take_first first_write (start fresh_log)

-- The first chunk, and one far behind the end.
abbrev chunk_at : ℕ → ChunkLocRequest
chunk_at i = record { filename = "/a"; chunk_index = pos i; create_if_missing = true }

far_behind : IsBehind take_first (chunk_at 5) (seconds 70) written
unfolding run start fresh_log create_file_handler get_chunk_locations heartbeat_handler empty_store
    Dict.get Dict.put Dict.keys Dict.empty nat_eq string_eq
far_behind = refl

locate_behind_end_example : BehindOutcomes take_first (chunk_at 5) (seconds 70) written
locate_behind_end_example =
    locate_behind_end take_first (chunk_at 5) (seconds 70) written take_first-IsSampler far_behind

-- The last chunk, which is the only one.
abbrev last_of_a : ChunkLocRequest
last_of_a = record { filename = "/a"; chunk_index = negsuc 0; create_if_missing = false }

last_is_first : Means (negsuc 0) (chunks_of written.store "/a") 1
unfolding run start fresh_log create_file_handler get_chunk_locations heartbeat_handler empty_store
    Dict.get Dict.put Dict.keys Dict.empty nat_eq string_eq
last_is_first = (omega arith, refl)

locate_within_example : locate take_first last_of_a (seconds 70) written ≡ (returned 1, written)
locate_within_example =
    locate_within take_first last_of_a (seconds 70) written 1
      (reachable-IsOwned take_first first_write) last_is_first

-- A chunk's locations, fetched at 1 second; they are gone at 61.
abbrev fetched : CacheEntry
unfolding new_entry
fetched = new_entry 1 "cs1:50052" ("cs2:50052" ∷ []) 1 (seconds 1)

abbrev looked_up : List CacheCall
looked_up =
    gets (seconds 1) ("/a", pos 0)
    ∷ puts ("/a", pos 0) fetched
    ∷ gets (seconds 40) ("/a", pos 1)
    ∷ invalidates ("/a", pos 1)
    ∷ []

get-calls_example :
    (get (seconds 50) ("/a", pos 0) (calls looked_up Dict.empty)).0
    ≡ unless_expired (seconds 50) (last_put ("/a", pos 0) looked_up none)
get-calls_example = get-calls (seconds 50) ("/a", pos 0) looked_up (omega arith, (omega arith, tt))

named : Dict.has written.namespace "/a" ≡ true
unfolding run start fresh_log create_file_handler get_chunk_locations heartbeat_handler empty_store
    Dict.get Dict.put Dict.keys Dict.empty nat_eq string_eq
named = refl

-- The file is deleted between the test of a lookup and its locks.
abbrev deleted : Master
deleted = (delete_file_handler "/a" (seconds 8) (seconds 8) (seconds 8) written).1

locate-delete_file_handler_example :
    (Dict.has deleted.namespace "/a" ≡ false)
    × ((locate take_first (chunk_at 0) (seconds 9) deleted).0
        ≡ (locate take_first (chunk_at 0) (seconds 9) written).0)
locate-delete_file_handler_example =
    locate-delete_file_handler take_first (chunk_at 0) (seconds 8) (seconds 8) (seconds 8)
      (seconds 9) written named
