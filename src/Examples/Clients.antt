-- ===== src/Examples/Clients.antt =====
-- The theorems on a client, over the master and three servers.
use google_file_system.Prelude.{
  ℕ, zero, suc, ◌≡◌, ◌≢◌, ◌≤◌, ◌/◌, refl, true, none, List, [], ◌∷◌, arith, returned, raised,
  out_of_fuel, IsDistinct, length, nat_eq, string_eq, int_eq, pair_eq, pos,
}
use google_file_system.Buffer
use google_file_system.Bytes.{Byte, read_at}
use google_file_system.Cache
use google_file_system.Chunkserver.{
  ChunkServer, push, commit, apply_write, forward_write, write_chunk, commit_each, padding,
  max_chunk_size,
}
use google_file_system.Chunkserver.Records.{length-padding}
use google_file_system.Client.{World, new_client, LookupTimes, write, read, send_write}
use google_file_system.Client.Loops.{read-terminates, length-read}
use google_file_system.Client.Pieces.{joined, FullBefore}
use google_file_system.Client.Reads.{IsCached, read-IsCached}
use google_file_system.Client.RoundTrip.{read-write}
use google_file_system.Client.Writes.{write_location}
use google_file_system.Dict
use google_file_system.Examples.Clusters.{take_first, at_time}
use google_file_system.Examples.Servers.{empty_server, hello}
use google_file_system.Files.{create_file_handler}
use google_file_system.Lease.{has_valid_lease}
use google_file_system.Locations.{ChunkLocResponse, get_chunk_locations, heartbeat_handler}
use google_file_system.Metadata.{Address, empty_store, seconds}
use google_file_system.Oplog.{fresh_log}
use google_file_system.Startup.{start}
use google_file_system.System.{Event, creates, beats, run}
use google_file_system.Text

-- Two servers are heard of, and a file is created.
abbrev pub created : List Event
created =
    beats (seconds 1) "cs1:50052" [] []
    ∷ beats (seconds 1) "cs2:50052" [] []
    ∷ creates "/a" (seconds 3) (seconds 3)
    ∷ []

abbrev pub before : World
before =
    new_client (run take_first created (start fresh_log))
      (Dict.put (Dict.put Dict.empty "cs1:50052" empty_server) "cs2:50052" empty_server)

abbrev pub first_location : ChunkLocResponse
first_location = record {
  chunk_handle = 1;
  primary_address = "cs1:50052";
  secondary_addresses = "cs2:50052" ∷ [];
  chunk_version = 1;
}

abbrev at_ten : ℕ → LookupTimes
at_ten round = record {
  looked_at = seconds 10;
  master_at = at_time (seconds 10);
  entered_at = seconds 10;
}

write_returns : (write take_first "/a" 2 hello (at_time (seconds 4)) before).0 ≡ returned tt
unfolding write send_write forward_write write_chunk commit_each commit push apply_write Buffer.put
    Buffer.take Text.decimal Dict.get Dict.put Dict.empty Dict.remove_key Dict.keys string_eq nat_eq
    run start fresh_log create_file_handler get_chunk_locations heartbeat_handler empty_store
write_returns = refl

located :
    (write_location take_first "/a" 2 (at_time (seconds 4)) before.master).0
    ≡ returned first_location
unfolding Dict.get Dict.put Dict.empty Dict.keys string_eq nat_eq run start fresh_log
    create_file_handler get_chunk_locations heartbeat_handler empty_store
located = refl

not_cached : Dict.get before.cache ("/a", pos (2 / max_chunk_size)) ≡ none
unfolding Dict.get Dict.empty
not_cached = refl

pub distinct : IsDistinct {A = Address} ("cs1:50052" ∷ "cs2:50052" ∷ [])
unfolding string_eq
distinct = (refl, (refl, tt))

leased :
    has_valid_lease 1
      (seconds 10)
      (write_location take_first "/a" 2 (at_time (seconds 4)) before.master).1
    ≡ true
unfolding has_valid_lease Dict.get Dict.put Dict.empty Dict.keys string_eq nat_eq run start
    fresh_log create_file_handler get_chunk_locations heartbeat_handler empty_store
leased = refl

abbrev after : World
after = (write take_first "/a" 2 hello (at_time (seconds 4)) before).1

read-write_example : (read take_first "/a" 2 (length hello) at_ten after).0 ≡ returned hello
read-write_example =
    read-write take_first "/a" 2 hello (at_time (seconds 4)) at_ten before first_location
      write_returns (omega arith) (omega arith) (omega arith) not_cached located distinct leased

read-terminates_example :
    (read take_first "/a" 2 (length hello) at_ten after).0 ≢ raised out_of_fuel
read-terminates_example = read-terminates take_first "/a" 2 (length hello) at_ten after

length-read_example : length hello ≤ length hello
length-read_example =
    length-read take_first "/a" 2 (length hello) at_ten after hello read-write_example

-- A file of two chunks, the first of them full, whose locations are in the cache.
abbrev two_chunks : ℕ → List Byte
two_chunks zero = padding 0
two_chunks (suc i) = hello

abbrev entry : ℕ → Cache.CacheEntry
entry handle = record {
  chunk_handle = handle;
  primary = "cs1:50052";
  replicas = [];
  version = 1;
  expires_at = seconds 60;
}

abbrev keeper : ChunkServer
keeper = record empty_server {
  storage = record {
    files = Dict.put (Dict.put Dict.empty 1 (padding 0)) 2 hello;
    versions = Dict.empty;
  };
}

abbrev cached_file : World
cached_file = record before {
  cluster = Dict.put Dict.empty "cs1:50052" keeper;
  cache = Dict.put (Dict.put Dict.empty ("/a", pos 0) (entry 1)) ("/a", pos 1) (entry 2);
}

cached_file-IsCached : IsCached cached_file "/a" two_chunks 2 at_ten
unfolding Dict.get Dict.put Dict.empty string_eq nat_eq int_eq pair_eq
cached_file-IsCached zero b = (entry 1, keeper, refl, (λ round. omega arith), refl, refl, refl)
cached_file-IsCached (suc zero) b =
    (entry 2, keeper, refl, (λ round. omega arith), refl, refl, refl)
cached_file-IsCached (suc (suc i)) b = absurd (omega arith)

first_full : FullBefore two_chunks 2
first_full zero b = length-padding 0
first_full (suc i) b = absurd (omega arith)

-- The last two bytes of the first chunk, and the first two of the second.
read-IsCached_example :
    read take_first "/a" 67108862 4 at_ten cached_file
    ≡ (returned (read_at 67108862 4 (joined two_chunks 2)), cached_file)
read-IsCached_example =
    read-IsCached take_first "/a" 67108862 4 at_ten cached_file two_chunks 1 (omega arith)
      (omega arith) first_full cached_file-IsCached
