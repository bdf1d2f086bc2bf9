-- ===== src/Chunkserver/Appends.antt =====
-- `AppendChunk` of chunkserver/main.cpp: where a record goes, and what the replicas hold after it.
use google_file_system.Prelude.{
  ℕ, ◌+◌, ◌≤◌, ◌<◌, ◌≡◌, refl, sym, ap, ◌∙◌, true, some, List, ◌∷◌, inl, inr, Bool-cases, Outcome,
  returned, contains, IsDistinct, arith, nat_eq, string_eq, length, ltb, subst,
}
use google_file_system.Bytes.{Byte}
use google_file_system.Chunkserver.{
  ChunkServer, Cluster, AppendRequest, AppendResponse, offset_written, retry_on_next_chunk,
  append_local, append_each, append_chunk, pad_request, max_chunk_size,
}
use google_file_system.Dict
use google_file_system.Dict.{get-put}
use google_file_system.Metadata.{Address}
use google_file_system.Storage.{contents, get_size, get_version}
use google_file_system.Chunkserver.Records.{
  AppendsTo, Holds, appended, append_reply, append_each-get, append_local-Holds,
  append_local-get_version, append_each-Holds, append_each-primary, appended-pad_request,
  length-appended, length-padding,
}

append_chunk-fits :
    (a : Address) (xs : List Address) (req : AppendRequest) (c : Cluster) (s : ChunkServer)
    (offset : ℕ)
    → Dict.get c a ≡ some s
    → (append_local req s).0 ≡ returned (offset_written offset)
    → append_chunk a xs req c
      ≡ (returned (offset_written offset), append_each xs req (Dict.put c a (append_local req s).1))
unfolding append_chunk
append_chunk-fits a xs req c s offset e r = rw (e, append_chunk) (rw (r, append_chunk) refl)

append_chunk-full :
    (a : Address) (xs : List Address) (req : AppendRequest) (c : Cluster) (s : ChunkServer)
    → Dict.get c a ≡ some s
    → (append_local req s).0 ≡ returned retry_on_next_chunk
    → append_chunk a xs req c ≡ (
      returned retry_on_next_chunk,
      append_each xs
          (pad_request req.chunk_handle (get_size req.chunk_handle s.storage))
          (Dict.put c a (append_local req s).1),
    )
unfolding append_chunk
append_chunk-full a xs req c s e r = rw (e, append_chunk) (rw (r, append_chunk) refl)

append_each-everywhere :
    (a : Address) (xs : List Address) (sent : AppendRequest) (c : Cluster) (s : ChunkServer)
    (file after : List Byte)
    → IsDistinct (a ∷ xs)
    → length file ≤ max_chunk_size
    → contents s.storage sent.chunk_handle ≡ after
    → appended sent file ≡ after
    → ((b : Address) → contains (a ∷ xs) b ≡ true → Holds c sent.chunk_handle file b)
    → (b : Address) → contains (a ∷ xs) b ≡ true
    → Holds (append_each xs sent (Dict.put c a s)) sent.chunk_handle after b
append_each-everywhere a xs sent c s file after d l k q holds b m = elim (string_eq.dec b a) [
  | yes p ↦ (
    s,
    ap (Dict.get (append_each xs sent (Dict.put c a s))) p ∙ append_each-primary a xs sent c s d,
    k,
  )
  | no n ↦
      subst (λ f. Holds (append_each xs sent (Dict.put c a s)) sent.chunk_handle f b) q
        (append_each-Holds a xs sent c s file b d (ground arith) l (holds b m))
]

-- The reply, and what the servers hold after it.
abbrev pub Agree :
    List Address → AppendRequest → List Byte → Outcome AppendResponse × Cluster → Type 0
Agree xs req file (reply, c) =
    (reply ≡ returned (append_reply req file))
    × ((b : Address) → contains xs b ≡ true → Holds c req.chunk_handle (appended req file) b)
    × (length (appended req file) ≤ max_chunk_size)

-- If a primary and its secondaries, all different, are running and hold the same bytes of a chunk,
-- at most 64 MB, then after an append they hold the same bytes again, at most 64 MB: the record
-- behind what they held, and its offset is the answer, if it fits; else zeros up to 64 MB, and the
-- answer is to retry on the next chunk.
pub append_chunk-Agree :
    (a : Address) (xs : List Address) (req : AppendRequest) (c : Cluster) (file : List Byte)
    → IsDistinct (a ∷ xs)
    → ((b : Address) → contains (a ∷ xs) b ≡ true → Holds c req.chunk_handle file b)
    → length file ≤ max_chunk_size
    → Agree (a ∷ xs) req file (append_chunk a xs req c)
unfolding AppendsTo get_size
append_chunk-Agree a xs req c file d holds l =
    let (s, e, f) = holds a (ground arith) in
    let (r, k) = append_local-Holds req s file f l in
    elim (Bool-cases (ltb max_chunk_size (length file + length req.payload))) [
      | inl full ↦
          subst (Agree (a ∷ xs) req file)
            (sym (
              append_chunk-full a xs req c s e (r ∙ ground arith)
              ∙ ap
                  (λ n. (
                    returned retry_on_next_chunk,
                    append_each xs (pad_request req.chunk_handle n)
                        (Dict.put c a (append_local req s).1),
                  ))
                  (size s file f)))
            (
              ground arith,
              append_each-everywhere a xs (pad_request req.chunk_handle (length file)) c
                  (append_local req s).1 file (appended req file) d l k
                  (appended-pad_request req.chunk_handle file l ∙ ground arith) holds,
              length-appended req file l,
            )
      | inr fits ↦
          subst (Agree (a ∷ xs) req file)
            (sym (append_chunk-fits a xs req c s (length file) e (r ∙ ground arith)))
            (
              ground arith,
              append_each-everywhere a xs req c (append_local req s).1 file (appended req file) d l
                  k refl holds,
              length-appended req file l,
            )
    ]
  where
    size :
        (s : ChunkServer) (file : List Byte)
        → contents s.storage req.chunk_handle ≡ file
        → get_size req.chunk_handle s.storage ≡ length file
    size s file f = ap (λ (t : List Byte). length t) f

-- If a primary and its secondaries, all different, are running and hold the same bytes of a chunk,
-- at most 64 MB, and a record does not fit behind them, then after the append the chunk has version
-- 0 at every secondary, whatever the request's version is.
pub append_chunk-get_version :
    (a : Address) (xs : List Address) (req : AppendRequest) (c : Cluster) (file : List Byte)
    (b : Address)
    → IsDistinct (a ∷ xs)
    → ((x : Address) → contains (a ∷ xs) x ≡ true → Holds c req.chunk_handle file x)
    → length file ≤ max_chunk_size
    → max_chunk_size < length file + length req.payload
    → contains xs b ≡ true
    → (s : ChunkServer) × (Dict.get (append_chunk a xs req c).1 b ≡ some s)
      × (get_version req.chunk_handle s.storage ≡ 0)
unfolding AppendsTo get_size
append_chunk-get_version a xs req c file b d holds l full m =
    let (s, e, f) = holds a (ground arith) in
    let (r, k) = append_local-Holds req s file f l in
    let (t, g, h) = holds b (ground arith) in
    (
      (append_local (pad_request req.chunk_handle (get_size req.chunk_handle s.storage)) t).1,
      ap (λ (o : Outcome AppendResponse × Cluster). Dict.get o.1 b)
            (append_chunk-full a xs req c s e (r ∙ ground arith))
          ∙ append_each-get xs _ (Dict.put c a (append_local req s).1) b d.1
          ∙ ground (arith, get-put c a b (append_local req s).1, d.0),
      append_local-get_version (pad_request req.chunk_handle (get_size req.chunk_handle s.storage))
          t
          (omega (
            arith,
            length-padding (get_size req.chunk_handle s.storage),
            ap (λ (u : List Byte). length u) f,
            ap (λ (u : List Byte). length u) h,
          )),
    )
