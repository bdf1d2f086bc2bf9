-- ===== src/Client/Reads.antt =====
-- `read` of client/gfs_client.py, from locations that are in the cache.
use google_file_system.Prelude.{
  ℕ, zero, suc, ◌+◌, ◌-◌, ◌*◌, ◌/◌, ◌%◌, ◌≤◌, ◌<◌, ◌≡◌, refl, sym, ap, ◌∙◌, String, List, [], ◌∷◌,
  ◌++◌, length, arith, Exec, false, returned, some, pos, int_eq, nat_eq, string_eq, pair_eq,
  continue_with, inl, inr, ◌⊎◌, ltb, Bool-cases, ◌==◌,
}
use mathlib.Core.List.{append-nil, append_assoc}
use google_file_system.Bytes.{Byte, read_at}
use google_file_system.Cache
use google_file_system.Cache.{CacheEntry}
use google_file_system.Chunkserver.{ChunkServer, max_chunk_size, max_message, read_chunk}
use google_file_system.Client.{
  World, LookupTimes, try_replicas, find_location, read_piece, piece_length, read_loop, read,
}
use google_file_system.Client.Pieces.{
  joined, FullBefore, read_at-joined, read_at_split, length-joined,
}
use google_file_system.Dict
use google_file_system.Metadata.{Time, Address, Handle}
use google_file_system.Storage

-- The location of each chunk is in the cache, where it does not expire while the clock is read, and
-- the primary that it names is running and holds the chunk.
abbrev pub IsCached : World → String → (ℕ → List Byte) → ℕ → (ℕ → LookupTimes) → Type 0
IsCached w filename chunk count clock =
    (i : ℕ)
    → i < count
    → (e : CacheEntry) × (s : ChunkServer) × (Dict.get w.cache (filename, pos i) ≡ some e)
      × ((round : ℕ) → (clock round).looked_at < e.expires_at)
      × ((e.primary == "") ≡ false)
      × (Dict.get w.cluster e.primary ≡ some s)
      × (Dict.get s.storage.files e.chunk_handle ≡ some (chunk i))

get_fresh :
    (now : ℕ) (key : Cache.Key) (c : Cache.Cache) (e : CacheEntry)
    → Dict.get c key ≡ some e
    → now < e.expires_at
    → Cache.get now key c ≡ (some e, c)
unfolding Cache.get
get_fresh now key c e g b = ground (arith, g)

try_replicas-first :
    (key : Cache.Key) (h : Handle) (offset count : ℕ) (a : Address) (rest : List Address)
    (w : World) (s : ChunkServer) (file : List Byte)
    → (a == "") ≡ false
    → Dict.get w.cluster a ≡ some s
    → Dict.get s.storage.files h ≡ some file
    → try_replicas key h offset count (a ∷ rest) w
      ≡ (returned (some (read_at offset count file)), w)
unfolding try_replicas read_chunk Storage.read
try_replicas-first key h offset count a rest w s file n r f =
    rw (n, try_replicas) (rw (r, try_replicas) (rw (f, try_replicas) refl))

-- A piece is the rest of what was asked for, or the chunk goes on to its full size.
piece_ends :
    (offset more last : ℕ) (chunk : ℕ → List Byte)
    → offset + suc more ≤ suc last * max_chunk_size
    → FullBefore chunk (suc last)
    → (piece_length offset (suc more) ≡ suc more)
      ⊎ (offset + piece_length offset (suc more) ≤ length (joined chunk (suc last)))
piece_ends offset more last chunk b full =
    elim (Bool-cases (ltb (max_chunk_size - offset % max_chunk_size) (suc more))) [
      | inl e ↦ inr (ground (arith, length-joined chunk last full))
      | inr e ↦ inl (ground arith)
    ]

module _ (sample : Time → List Address → ℕ → List Address) where
  read_piece-IsCached :
      (filename : String) (index offset count : ℕ) (times : LookupTimes) (w : World)
      (e : CacheEntry) (s : ChunkServer) (bytes : List Byte)
      → Dict.get w.cache (filename, pos index) ≡ some e
      → times.looked_at < e.expires_at
      → (e.primary == "") ≡ false
      → Dict.get w.cluster e.primary ≡ some s
      → Dict.get s.storage.files e.chunk_handle ≡ some bytes
      → read_piece sample filename index offset count times w
        ≡ (returned (read_at offset count bytes), w)
  unfolding read_piece find_location
  read_piece-IsCached filename index offset count times w e s bytes g b n r f =
      rw (get_fresh times.looked_at (filename, pos index) w.cache e g b, read_piece)
        (rw
          (
            try_replicas-first (filename, pos index) e.chunk_handle offset count e.primary
                e.replicas w s bytes n r f,
            read_piece,
          )
          refl)

  read_loop-IsCached :
      (fuel : ℕ) (filename : String) (offset remaining : ℕ) (result : List Byte)
      (clock : ℕ → LookupTimes) (w : World) (chunk : ℕ → List Byte) (last : ℕ)
      → remaining ≤ fuel
      → offset + remaining ≤ suc last * max_chunk_size
      → FullBefore chunk (suc last)
      → IsCached w filename chunk (suc last) clock
      → read_loop sample fuel filename offset remaining result clock w
        ≡ (returned (result ++ read_at offset remaining (joined chunk (suc last))), w)
  unfolding read_loop
  read_loop-IsCached zero filename offset zero result clock w chunk last h b full cached =
      ap (λ t. (returned t, w)) (sym (append-nil result))
  read_loop-IsCached (suc fuel) filename offset zero result clock w chunk last h b full cached =
      ap (λ t. (returned t, w)) (sym (append-nil result))
  read_loop-IsCached zero filename offset (suc more) result clock w chunk last h b full cached =
      absurd (omega arith)
  read_loop-IsCached (suc fuel) filename offset (suc more) result clock w chunk last h b full
        cached =
      let (e, s, g, t, n, r, f) = cached (offset / max_chunk_size) (omega arith) in
      ap (continue_with next) (
        read_piece-IsCached filename (offset / max_chunk_size) (offset % max_chunk_size) count
          (clock 0) w e s (chunk (offset / max_chunk_size)) g (t 0) n r f)
      ∙ ap (λ piece. next piece w)
          (sym (read_at-joined chunk (suc last) offset count full (omega arith) (omega arith)))
      ∙ read_loop-IsCached fuel filename (offset + count) (suc more - count) _
          (λ round. clock (suc round)) w chunk last (omega arith) (omega arith) full
          (λ i l.
            let (e, s, g, t, n, r, f) = cached i l in (e, s, g, (λ round. t (suc round)), n, r, f))
      ∙ ap (λ t. (returned t, w))
          (append_assoc result _ _
            ∙ ap (λ t. result ++ t)
                (sym (
                  read_at_split offset count (suc more) (joined chunk (suc last)) (omega arith)
                    (piece_ends offset more last chunk b full))))
    where
      count : ℕ
      count = piece_length offset (suc more)

      next : List Byte → Exec World (List Byte)
      next piece =
          read_loop sample fuel filename (offset + count) (suc more - count) (result ++ piece)
            (λ round. clock (suc round))

  -- If the locations of the first chunks of a file are in the cache, do not expire while the clock
  -- is read, and name primaries that are running and hold the chunks, each chunk but the last of
  -- them is full, and a range of at most 4 MB less 1 KB, so that each
  -- piece of it fits in a message of 4 MB, ends within the size of that many chunks, then a read of the range
  -- returns what it holds of the chunks joined, and changes nothing.
  pub read-IsCached :
      (filename : String) (offset count : ℕ) (clock : ℕ → LookupTimes) (w : World)
      (chunk : ℕ → List Byte) (last : ℕ)
      → count + 1024 ≤ max_message
      → offset + count ≤ suc last * max_chunk_size
      → FullBefore chunk (suc last)
      → IsCached w filename chunk (suc last) clock
      → read sample filename offset count clock w
        ≡ (returned (read_at offset count (joined chunk (suc last))), w)
  unfolding read
  read-IsCached filename offset count clock w chunk last small b full cached =
      read_loop-IsCached count filename offset count [] clock w chunk last (omega arith) b full
        cached
