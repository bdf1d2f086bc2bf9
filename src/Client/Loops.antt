-- ===== src/Client/Loops.antt =====
-- `read` of client/gfs_client.py: its loop ends, with no more bytes than were asked for.
use google_file_system.Prelude.{
  ℕ, zero, suc, ◌+◌, ◌-◌, ◌/◌, ◌%◌, ◌≤◌, ◌≡◌, ◌≢◌, refl, String, false, Option, none, some, List,
  [], ◌∷◌, ◌++◌, inl, inr, subst, Option-cases, Bool-cases, pos, length, length-append, arith, ◌==◌,
  ◌⊎◌, nat_eq, string_eq, pair_eq, int_eq, Exec, Outcome, Fault, returned, raised, out_of_fuel,
  not_found, unavailable, key_error, index_error, attribute_error, type_error, rpc_error, failure,
  continue_with,
}
use google_file_system.Bytes.{Byte, drop, length-take}
use google_file_system.Cache
use google_file_system.Cache.{CacheEntry}
use google_file_system.Chunkserver.{Cluster, read_chunk, max_chunk_size}
use google_file_system.Client.{
  World, LookupTimes, rpc_outcome, try_replicas, find_location, fetch_location, ask_location,
  enter_location, entry_of, read_piece, or_all_failed, piece_length, read_loop, read,
}
use google_file_system.Dict
use google_file_system.Locations.{ChunkLocResponse, get_chunk_locations}
use google_file_system.State.{Master}
use google_file_system.Metadata.{Time, Address, Handle}
use google_file_system.Storage

-- A call that did not run out of fuel, and returned a value of this kind if it returned.
abbrev pub Ends : {A : Type 0} → (A → Type 0) → Outcome A → Type 0
Ends P (returned a) = P a
Ends P (raised x) = x ≢ out_of_fuel

continue-Ends :
    {A B : Type 0} (P : A → Type 0) (Q : B → Type 0) (f : A → Exec World B) (r : Outcome A × World)
    → Ends P r.0
    → ((a : A) (w : World) → P a → Ends Q (f a w).0)
    → Ends Q (continue_with f r).0
continue-Ends P Q f (returned a, w) p k = k a w p
continue-Ends P Q f (raised x, w) p k = p

rpc_outcome-Ends : {A : Type 0} (r : Outcome A) → Ends (λ _. Unit {0}) (rpc_outcome r)
rpc_outcome-Ends (returned a) = tt
rpc_outcome-Ends (raised (not_found text)) = λ e. ground arith
rpc_outcome-Ends (raised (unavailable text)) = λ e. ground arith
rpc_outcome-Ends (raised key_error) = λ e. ground arith
rpc_outcome-Ends (raised index_error) = λ e. ground arith
rpc_outcome-Ends (raised attribute_error) = λ e. ground arith
rpc_outcome-Ends (raised type_error) = λ e. ground arith
rpc_outcome-Ends (raised rpc_error) = λ e. ground arith
rpc_outcome-Ends (raised out_of_fuel) = λ e. ground arith
rpc_outcome-Ends (raised (failure text)) = λ e. ground arith

-- A server sends no more bytes than it was asked for.
read_chunk-length :
    (address : Address) (h : Handle) (offset count : ℕ) (c : Cluster) (bytes : List Byte)
    → read_chunk address h offset count c ≡ returned bytes
    → length bytes ≤ count
unfolding read_chunk Storage.read
read_chunk-length address h offset count c bytes e = elim (Option-cases (Dict.get c address)) [
  | inl n ↦ absurd (ground arith)
  | inr (s, n) ↦ elim (Option-cases (Dict.get s.storage.files h)) [
    | inl m ↦ absurd (ground arith)
    | inr (file, m) ↦ ground (arith, length-take count (drop offset file))
  ]
]

abbrev FoundWithin : ℕ → Option (List Byte) → Type 0
FoundWithin count none = Unit
FoundWithin count (some bytes) = length bytes ≤ count

read-cases :
    (r : Outcome (List Byte))
    → ((bytes : List Byte) × (r ≡ returned bytes)) ⊎ ((x : Fault) × (r ≡ raised x))
read-cases (returned bytes) = inl (bytes, refl)
read-cases (raised x) = inr (x, refl)

try_replicas-Ends :
    (key : Cache.Key) (h : Handle) (offset count : ℕ) (addresses : List Address) (w : World)
    → Ends (FoundWithin count) (try_replicas key h offset count addresses w).0
unfolding try_replicas
try_replicas-Ends key h offset count [] w = tt
try_replicas-Ends key h offset count (a ∷ rest) w = elim (Bool-cases (a == "")) [
  | inl e ↦ rw (e, try_replicas) (try_replicas-Ends key h offset count rest w)
  | inr n ↦ elim (read-cases (read_chunk a h offset count w.cluster)) [
    | inl (bytes, e) ↦
        rw (n, try_replicas)
          (rw (e, try_replicas) (read_chunk-length a h offset count w.cluster bytes e))
    | inr (x, e) ↦
        rw (n, try_replicas)
          (rw (e, try_replicas)
            (try_replicas-Ends key h offset count rest
              (record w { cache = Cache.invalidate key w.cache })))
  ]
]

Ends-weaken :
    {A : Type 0} (P Q : A → Type 0) (r : Outcome A) → ((a : A) → P a → Q a) → Ends P r → Ends Q r
Ends-weaken P Q (returned a) f p = f a p
Ends-weaken P Q (raised x) f p = p

module _ (sample : Time → List Address → ℕ → List Address) where
  fetch_location-Ends :
      (filename : String) (index : ℕ) (times : LookupTimes) (w : World)
      → Ends (λ _. Unit {0}) (fetch_location sample filename index times w).0
  unfolding fetch_location
  fetch_location-Ends filename index times w =
      continue-Ends (λ _. Unit {0}) (λ _. Unit {0})
        (λ raw. enter_location (filename, pos index) (entry_of raw times.entered_at))
        (ask_location sample filename index times w) (rpc_outcome-Ends (asked.0)) (λ a v _. tt)
    where
      asked : Outcome ChunkLocResponse × Master
      asked =
          get_chunk_locations sample
            (record { filename = filename; chunk_index = pos index; create_if_missing = false })
            times.master_at w.master

  find_location-Ends :
      (filename : String) (index : ℕ) (times : LookupTimes) (w : World)
      → Ends (λ _. Unit {0}) (find_location sample filename index times w).0
  unfolding find_location
  find_location-Ends filename index times w =
      elim (Option-cases (Cache.get times.looked_at (filename, pos index) w.cache).0) [
        | inl e ↦ rw (e, find_location) (fetch_location-Ends filename index times _)
        | inr (loc, e) ↦ rw (e, find_location) tt
      ]

  read_piece-Ends :
      (filename : String) (index offset count : ℕ) (times : LookupTimes) (w : World)
      → Ends
          (λ bytes. length bytes ≤ count)
          (read_piece sample filename index offset count times w).0
  unfolding read_piece
  read_piece-Ends filename index offset count times w =
      continue-Ends (λ _. Unit {0}) (λ bytes. length bytes ≤ count) _
        (find_location sample filename index times w) (find_location-Ends filename index times w)
        (λ loc v _.
          continue-Ends (FoundWithin count) (λ bytes. length bytes ≤ count)
            (or_all_failed loc.chunk_handle) _
            (try_replicas-Ends (filename, pos index) loc.chunk_handle offset count
              (loc.primary ∷ loc.replicas) v)
            (found loc.chunk_handle))
    where
      found :
          (h : Handle) (o : Option (List Byte)) (v : World)
          → FoundWithin count o
          → Ends (λ bytes. length bytes ≤ count) (or_all_failed h o v).0
      found h none v p = λ e. ground arith
      found h (some bytes) v p = p

  read_loop-Ends :
      (fuel : ℕ) (filename : String) (offset remaining : ℕ) (result : List Byte)
      (clock : ℕ → LookupTimes) (w : World)
      → remaining ≤ fuel
      → Ends
          (λ bytes. length bytes ≤ length result + remaining)
          (read_loop sample fuel filename offset remaining result clock w).0
  unfolding read_loop
  read_loop-Ends zero filename offset zero result clock w h = omega arith
  read_loop-Ends (suc fuel) filename offset zero result clock w h = omega arith
  read_loop-Ends zero filename offset (suc more) result clock w h = absurd (omega arith)
  read_loop-Ends (suc fuel) filename offset (suc more) result clock w h =
      continue-Ends (λ bytes. length bytes ≤ count)
        (λ bytes. length bytes ≤ length result + suc more) _ _
        (read_piece-Ends filename (offset / max_chunk_size) (offset % max_chunk_size) count
          (clock 0) w)
        (λ piece v p.
          Ends-weaken (λ bytes. length bytes ≤ length (result ++ piece) + (suc more - count)) _ _
            (λ bytes b. omega (arith, length-append result piece))
            (read_loop-Ends fuel filename (offset + count) (suc more - count) (result ++ piece)
              (λ round. clock (suc round)) v (omega arith)))
    where
      count : ℕ
      count = piece_length offset (suc more)

  -- A read always comes to an end: the model never runs out of rounds.
  pub read-terminates :
      (filename : String) (offset count : ℕ) (clock : ℕ → LookupTimes) (w : World)
      → (read sample filename offset count clock w).0 ≢ raised out_of_fuel
  unfolding read
  read-terminates filename offset count clock w e =
      subst (Ends (λ bytes. length bytes ≤ 0 + count)) e
        (read_loop-Ends count filename offset count [] clock w (omega arith)) refl

  -- A read that returns gives no more bytes than were asked for.
  pub length-read :
      (filename : String) (offset count : ℕ) (clock : ℕ → LookupTimes) (w : World)
      (bytes : List Byte)
      → (read sample filename offset count clock w).0 ≡ returned bytes
      → length bytes ≤ count
  unfolding read
  length-read filename offset count clock w bytes e = subst (Ends (λ xs. length xs ≤ count)) e (
      Ends-weaken (λ xs. length xs ≤ 0 + count) _ _ (λ xs b. omega arith)
        (read_loop-Ends count filename offset count [] clock w (omega arith)))
