-- ===== src/Examples/Chunks.antt =====
-- The theorems on chunkservers, at two servers.
use google_file_system.Prelude.{
  ◌≡◌, refl, true, List, [], ◌∷◌, arith, returned, raised, rpc_error, contains, IsDistinct, nat_eq,
  string_eq, get_elem?,
}
use google_file_system.Buffer
use google_file_system.Bytes.{Byte}
use google_file_system.Checksum.{compute, verify}
use google_file_system.Checksum.Laws.{
  ChecksumCall, updates, restarts, calls, listed, matches, verify-calls,
}
use google_file_system.Chunkserver.{
  Cluster, written, push, commit, apply_write, forward_write, write_chunk, commit_each,
  append_chunk, padding,
}
use google_file_system.Chunkserver.Appends.{Agree, append_chunk-Agree}
use google_file_system.Chunkserver.Boundary.{append_chunk-push_and_commit}
use google_file_system.Chunkserver.Races.{MixesUp, colliding, commit-MixesUp}
use google_file_system.Chunkserver.Records.{Holds}
use google_file_system.Chunkserver.Replicas.{AllWritten, push_and_commit-AllWritten}
use google_file_system.Chunkserver.Writes.{push_and_commit}
use google_file_system.Dict
use google_file_system.Examples.Servers.{
  empty_server, holding, two_servers, hello, write_hello, append_hello, both,
}
use google_file_system.Metadata.{Address}
use google_file_system.Text

abbrev pair : Cluster
pair = two_servers empty_server empty_server

different : IsDistinct {A = Address} ("cs1:50052" ∷ "cs2:50052" ∷ [])
unfolding string_eq
different = (refl, (refl, tt))

write_acknowledged :
    (push_and_commit "cs1:50052" ("cs2:50052" ∷ []) (write_hello 2) pair).0 ≡ returned written
unfolding forward_write write_chunk commit_each commit push apply_write Dict.get Dict.put Dict.empty
    Dict.remove_key string_eq nat_eq Buffer.put Buffer.take Text.decimal
write_acknowledged = refl

push_and_commit-AllWritten_example :
    AllWritten
      ("cs1:50052" ∷ "cs2:50052" ∷ [])
      (write_hello 2)
      pair
      (push_and_commit "cs1:50052" ("cs2:50052" ∷ []) (write_hello 2) pair).1
push_and_commit-AllWritten_example =
    push_and_commit-AllWritten "cs1:50052" ("cs2:50052" ∷ []) (write_hello 2) pair different
      write_acknowledged

-- The last two bytes of the chunk, and three bytes behind it.
crossing_acknowledged :
    (push_and_commit "cs1:50052" ("cs2:50052" ∷ []) (write_hello 67108862) pair).0
    ≡ returned written
unfolding forward_write write_chunk commit_each commit push apply_write Dict.get Dict.put Dict.empty
    Dict.remove_key string_eq nat_eq Buffer.put Buffer.take Text.decimal
crossing_acknowledged = refl

append_chunk-push_and_commit_example :
    (append_chunk "cs1:50052"
      ("cs2:50052" ∷ [])
      append_hello
      (push_and_commit "cs1:50052" ("cs2:50052" ∷ []) (write_hello 67108862) pair).1).0
    ≡ raised rpc_error
unfolding string_eq
append_chunk-push_and_commit_example =
    append_chunk-push_and_commit "cs1:50052" ("cs2:50052" ∷ []) (write_hello 67108862) pair
      "cs1:50052" ("cs2:50052" ∷ []) append_hello different crossing_acknowledged refl (omega arith)
      (omega arith) refl

-- Both servers hold these bytes.
abbrev replicas : List Byte → Cluster
replicas file = two_servers (holding file) (holding file)

both_hold :
    (file : List Byte) (b : Address)
    → contains ("cs1:50052" ∷ "cs2:50052" ∷ []) b ≡ true
    → Holds (replicas file) 1 file b
unfolding Dict.get Dict.put Dict.empty string_eq nat_eq
both_hold file =
    both (Holds (replicas file) 1 file) "cs1:50052" "cs2:50052" (holding file, refl, refl)
      (holding file, refl, refl)

append_chunk-Agree_example :
    Agree
      ("cs1:50052" ∷ "cs2:50052" ∷ [])
      append_hello
      hello
      (append_chunk "cs1:50052" ("cs2:50052" ∷ []) append_hello (replicas hello))
append_chunk-Agree_example =
    append_chunk-Agree "cs1:50052" ("cs2:50052" ∷ []) append_hello (replicas hello) hello different
      (both_hold hello) (omega arith)

-- Two bytes less than the chunk can hold.
abbrev nearly_full : List Byte
nearly_full = padding 2

commit-MixesUp_example :
    MixesUp (write_hello 0) (colliding (write_hello 0) 10 (1 ∷ [])) empty_server
commit-MixesUp_example = commit-MixesUp (write_hello 0) 10 (1 ∷ []) empty_server

-- A block is recorded, and the process starts again.
abbrev recorded_block : List ChecksumCall
recorded_block = updates 1 0 (compute hello) ∷ restarts ∷ []

verify-calls_example :
    (verify 1 0 hello (calls recorded_block (record { disk = Dict.empty; cache = Dict.empty }))).0
    ≡ matches (get_elem? (listed 1 recorded_block []) 0) (compute hello)
verify-calls_example = verify-calls recorded_block 1 0 hello
