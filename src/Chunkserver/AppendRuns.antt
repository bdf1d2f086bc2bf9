-- ===== src/Chunkserver/AppendRuns.antt =====
-- Any number of appends to one chunk (`AppendChunk` of chunkserver/main.cpp), in the order in which
-- the primary gets them, whoever sends them.
use mathlib.Core.List.{append_assoc, append-nil}
use google_file_system.Bytes.{
  Byte, take, drop, take-append, take_all, drop-append, drop-append_le, read_at, length-drop,
}
use google_file_system.Chunkserver.{
  ChunkServer, Cluster, AppendRequest, AppendResponse, offset_written, append_chunk, read_chunk,
  max_chunk_size, padding,
}
use google_file_system.Chunkserver.Appends.{append_chunk-Agree}
use google_file_system.Chunkserver.Records.{Holds, appended, append_reply}
use google_file_system.Dict
use google_file_system.Dict.{has}
use google_file_system.Metadata.{Address, Handle}
use google_file_system.Prelude.{
  ℕ, zero, suc, ◌+◌, ◌-◌, ◌≤◌, ◌<◌, ◌≡◌, sym, ap, ◌∙◌, subst, true, Option-cases, Bool-cases, some,
  List, [], ◌∷◌, ◌++◌, inl, inr, Outcome, returned, contains, IsDistinct, length, length-append,
  get_elem?, ltb, arith, nat_eq, string_eq,
}
use google_file_system.Storage
use google_file_system.Storage.{contents}
use google_file_system.Storage.Laws.{has-contents}

-- A record, and the version that its request carries.
pub record Record : Type 0 where
  pub payload : List Byte
  pub version : ℕ

abbrev pub request : Handle → Record → AppendRequest
request h r = record { chunk_handle = h; payload = r.payload; chunk_version = r.version }

-- The answers, and the servers in the end.
unfoldable pub append_run :
    Address
    → List Address
    → Handle
    → List Record
    → Cluster
    → List (Outcome AppendResponse) × Cluster
append_run a xs h [] c = ([], c)
append_run a xs h (r ∷ rs) c =
    let (reply, after) = append_chunk a xs (request h r) c in
    let (replies, last) = append_run a xs h rs after in (reply ∷ replies, last)

-- A file holds these bytes at an offset.
IsAt : List Byte → ℕ → List Byte → Type 0
IsAt file o bytes = (read_at o (length bytes) file ≡ bytes) × (o + length bytes ≤ length file)

IsAt-append :
    (file more bytes : List Byte) (o : ℕ) → IsAt file o bytes → IsAt (file ++ more) o bytes
unfolding IsAt
IsAt-append file more bytes o (e, l) = (
  ap (λ s. take (length bytes) s) (drop-append_le file more o (omega arith))
      ∙ take-append (drop o file) more (length bytes) (omega (arith, length-drop o file))
      ∙ e,
  omega (arith, length-append file more),
)

append-IsAt : (file bytes : List Byte) → IsAt (file ++ bytes) (length file) bytes
unfolding IsAt
append-IsAt file bytes = (
  ap (λ s. take (length bytes) s)
        (drop-append file bytes (length file) (omega arith)
          ∙ ap (λ k. drop k bytes) {x = length file - length file} {y = 0} (omega arith))
      ∙ take_all bytes (length bytes) (omega arith),
  omega (arith, length-append file bytes),
)

appended-extends :
    (req : AppendRequest) (file : List Byte)
    → (more : List Byte) × (appended req file ≡ file ++ more)
appended-extends req file =
    elim (Bool-cases (ltb max_chunk_size (length file + length req.payload))) [
      | inl f ↦ (padding (length file), ground arith)
      | inr f ↦ (req.payload, ground arith)
    ]

reply-IsAt :
    (req : AppendRequest) (file : List Byte) (o : ℕ)
    → returned (append_reply req file) ≡ returned (offset_written o)
    → IsAt (appended req file) o req.payload
unfolding IsAt
reply-IsAt req file o e =
    elim (Bool-cases (ltb max_chunk_size (length file + length req.payload))) [
      | inl f ↦ absurd (ground arith)
      | inr f ↦
          subst (λ (f : List Byte). IsAt f o req.payload) (ground arith)
            (subst (λ k. IsAt (file ++ req.payload) k req.payload) (ground arith)
              (append-IsAt file req.payload))
    ]

-- What the servers of a chunk hold in the end: what they held, with more behind it, and each record
-- that was given an offset at its offset.
record IsKept (xs : List Address) (h : Handle) (file : List Byte) (rs : List Record)
    (result : List (Outcome AppendResponse) × Cluster) : Type 0 where
  last : List Byte
  more : List Byte
  extended : last ≡ file ++ more
  holds : (b : Address) → contains xs b ≡ true → Holds result.1 h last b
  placed :
      (i o : ℕ) (r : Record)
      → get_elem? result.0 i ≡ some (returned (offset_written o))
      → get_elem? rs i ≡ some r
      → IsAt last o r.payload

placed-first :
    (xs : List Address) (h : Handle) (r : Record) (rs : List Record) (file : List Byte)
    (reply : Outcome AppendResponse) (rest : List (Outcome AppendResponse) × Cluster)
    → reply ≡ returned (append_reply (request h r) file)
    → (kept : IsKept xs h (appended (request h r) file) rs rest) → (i o : ℕ) (q : Record)
    → get_elem? (reply ∷ rest.0) i ≡ some (returned (offset_written o))
    → get_elem? (r ∷ rs) i ≡ some q
    → IsAt kept.last o q.payload
placed-first xs h r rs file reply rest e kept zero o q f g =
    let same : r ≡ q = ground arith in
    subst (λ (l : List Byte). IsAt l o q.payload) (sym kept.extended)
      (IsAt-append (appended (request h r) file) kept.more q.payload o (
        subst (λ (k : Record). IsAt (appended (request h r) file) o k.payload) same
          (reply-IsAt (request h r) file o (sym e ∙ ground arith))))
placed-first xs h r rs file reply rest e kept (suc i) o q f g = kept.placed i o q f g

-- The first append, and what follows it.
first-IsKept :
    (xs : List Address) (h : Handle) (r : Record) (rs : List Record) (file : List Byte)
    (reply : Outcome AppendResponse) (rest : List (Outcome AppendResponse) × Cluster)
    → reply ≡ returned (append_reply (request h r) file)
    → IsKept xs h (appended (request h r) file) rs rest
    → IsKept xs h file (r ∷ rs) (reply ∷ rest.0, rest.1)
first-IsKept xs h r rs file reply rest e kept =
    let (first, longer) = appended-extends (request h r) file in
    record {
      last = kept.last;
      more = first ++ kept.more;
      extended =
          kept.extended
          ∙ ap (λ (f : List Byte). f ++ kept.more) longer
          ∙ append_assoc file first kept.more;
      holds = kept.holds;
      placed = placed-first xs h r rs file reply rest e kept;
    }

append_run-IsKept :
    (a : Address) (xs : List Address) (h : Handle) (rs : List Record) (c : Cluster)
    (file : List Byte)
    → IsDistinct (a ∷ xs)
    → ((b : Address) → contains (a ∷ xs) b ≡ true → Holds c h file b)
    → length file ≤ max_chunk_size
    → IsKept (a ∷ xs) h file rs (append_run a xs h rs c)
unfolding append_run
append_run-IsKept a xs h [] c file d holds l = record {
  last = file;
  more = [];
  extended = sym (append-nil file);
  holds = holds;
  placed = λ i o r e f. absurd cc;
}
append_run-IsKept a xs h (r ∷ rs) c file d holds l =
    let req = request h r in
    let (reply, each, fits) = append_chunk-Agree a xs req c file d holds l in
    let after = (append_chunk a xs req c).1 in
    first-IsKept (a ∷ xs) h r rs file (append_chunk a xs req c).0 (append_run a xs h rs after) reply
      (append_run-IsKept a xs h rs after (appended req file) d each fits)

read_held :
    (b : Address) (h : Handle) (offset : ℕ) (bytes : List Byte) (c : Cluster) (s : ChunkServer)
    (file : List Byte)
    → Dict.get c b ≡ some s
    → contents s.storage h ≡ file
    → has s.storage.files h ≡ true
    → read_at offset (length bytes) file ≡ bytes
    → read_chunk b h offset (length bytes) c ≡ returned bytes
unfolding read_chunk Storage.read
read_held b h offset bytes c s file e f there g = elim (Option-cases (Dict.get s.storage.files h)) [
  | inl n ↦ absurd (ground arith)
  | inr (held, k) ↦
      let same : held ≡ file = ground arith in
      rw (e, read_chunk)
        (rw (k, read_chunk) (ap returned (ap (read_at offset (length bytes)) same ∙ g)))
]

-- If a primary and its secondaries, all different, are running and hold the same bytes of a chunk,
-- at most 64 MB, then each record of at least one byte that one of any number of appends was given
-- an offset for is in the end what a read of that offset and length returns, at the primary and at
-- every secondary.
pub read_chunk-append_run :
    (a : Address) (xs : List Address) (h : Handle) (rs : List Record) (c : Cluster)
    (file : List Byte) (i offset : ℕ) (r : Record) (b : Address)
    → IsDistinct (a ∷ xs)
    → ((x : Address) → contains (a ∷ xs) x ≡ true → Holds c h file x)
    → length file ≤ max_chunk_size
    → get_elem? rs i ≡ some r
    → 0 < length r.payload
    → get_elem? (append_run a xs h rs c).0 i ≡ some (returned (offset_written offset))
    → contains (a ∷ xs) b ≡ true
    → read_chunk b h offset (length r.payload) (append_run a xs h rs c).1 ≡ returned r.payload
unfolding IsAt
read_chunk-append_run a xs h rs c file i offset r b d holds l asked some_byte given member =
    let kept = append_run-IsKept a xs h rs c file d holds l in
    let (bytes, inside) = kept.placed i offset r given asked in
    let (s, running, content) = kept.holds b member in
    let stored = ap (λ (f : List Byte). length f) content in
    read_held b h offset r.payload (append_run a xs h rs c).1 s kept.last running content
      (has-contents h s.storage (omega arith)) bytes
