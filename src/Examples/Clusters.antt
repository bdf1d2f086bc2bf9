-- ===== src/Examples/Clusters.antt =====
-- A sampler, servers and histories for the examples.
use google_file_system.Prelude.{
  ℕ, zero, suc, ◌≤◌, ◌≡◌, refl, ap, true, List, [], ◌∷◌, negsuc, contains, IsDistinct, length,
  string_eq, arith, Bool-cases,
}
use google_file_system.Locations.{ChunkLocRequest, Readings}
use google_file_system.Metadata.{Time, Address, seconds}
use google_file_system.Replication.{copied, unreachable}
use google_file_system.System.{
  IsSampler, Event, creates, deletes, locates, beats, checks_servers, scans, copies, repairs,
}

-- The first members of the population.
abbrev pub take_first : Time → List Address → ℕ → List Address
take_first t xs zero = []
take_first t [] (suc k) = []
take_first t (x ∷ xs) (suc k) = x ∷ take_first t xs k

contains-take_first :
    (t : Time) (xs : List Address) (k : ℕ) (a : Address)
    → contains (take_first t xs k) a ≡ true
    → contains xs a ≡ true
contains-take_first t xs zero a h = cc
contains-take_first t [] (suc k) a h = h
contains-take_first t (x ∷ xs) (suc k) a h = ground (arith, contains-take_first t xs k a)

take_first-IsDistinct :
    (t : Time) (xs : List Address) (k : ℕ) → IsDistinct xs → IsDistinct (take_first t xs k)
take_first-IsDistinct t xs zero d = tt
take_first-IsDistinct t [] (suc k) d = tt
take_first-IsDistinct t (x ∷ xs) (suc k) d = ground (
  arith,
  take_first-IsDistinct t xs k d.1,
  contains-take_first t xs k x,
  Bool-cases (contains (take_first t xs k) x),
)

length-take_first :
    (t : Time) (xs : List Address) (k : ℕ) → k ≤ length xs → length (take_first t xs k) ≡ k
length-take_first t xs zero h = refl
length-take_first t [] (suc k) h = absurd (omega arith)
length-take_first t (x ∷ xs) (suc k) h = ap suc (length-take_first t xs k (omega arith))

pub take_first-IsSampler : IsSampler take_first
take_first-IsSampler = record {
  from_population = contains-take_first;
  distinct = take_first-IsDistinct;
  size = length-take_first;
}

-- Every reading of the clock at one time.
abbrev pub at_time : Time → Readings
at_time t = record { allocated_at = t; tested_at = t; logged_at = t; granted_at = t }

abbrev pub last_chunk : ChunkLocRequest
last_chunk = record { filename = "/a"; chunk_index = negsuc 0; create_if_missing = true }

-- Three servers are heard of, and a file gets its first chunk.
abbrev pub first_write : List Event
first_write =
    beats (seconds 1) "cs1:50052" [] []
    ∷ beats (seconds 1) "cs2:50052" [] []
    ∷ beats (seconds 2) "cs3:50052" [] []
    ∷ creates "/a" (seconds 3) (seconds 3)
    ∷ locates last_chunk (at_time (seconds 4))
    ∷ []

-- A server falls silent, its chunk is copied, and the file is deleted and scanned for.
abbrev pub failure_and_delete : List Event
failure_and_delete =
    beats (seconds 1) "cs1:50052" [] []
    ∷ creates "/a" (seconds 3) (seconds 3)
    ∷ locates last_chunk (at_time (seconds 4))
    ∷ beats (seconds 5) "cs2:50052" (1 ∷ []) (0 ∷ [])
    ∷ checks_servers (seconds 20)
    ∷ copies unreachable
    ∷ repairs copied
    ∷ deletes "/a" (seconds 21) (seconds 21) (seconds 21)
    ∷ scans (seconds 40)
    ∷ []
