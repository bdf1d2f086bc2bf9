-- ===== src/Chunkserver/Records.antt =====
-- The part of `AppendChunk` of chunkserver/main.cpp that each server does: where a record goes, and
-- what the server holds after it.
use mathlib.Core.Option
use mathlib.Core.List.{append-nil}
use google_file_system.Prelude.{
  ℕ, ◌+◌, ◌-◌, ◌≤◌, ◌≡◌, refl, sym, ap, ◌∙◌, true, false, none, some, List, [], ◌∷◌, ◌++◌, inl, inr,
  Option-cases, Bool-cases, Outcome, returned, contains, IsDistinct, if◌then◌else◌, arith, nat_eq,
  string_eq, length, length-append, ltb, subst,
}
use google_file_system.Bytes.{Byte, length-replicate, write_at}
use google_file_system.Bytes.Files.{write_at-append}
use google_file_system.Chunkserver.{
  ChunkServer, Cluster, AppendRequest, AppendResponse, offset_written, retry_on_next_chunk,
  append_local, append_each, pad_request, padding, max_chunk_size, at_server,
}
use google_file_system.Dict
use google_file_system.Dict.{get-put}
use google_file_system.Metadata.{Address, Handle}
use google_file_system.Storage
use google_file_system.Storage.{contents, get_size, get_version, set_version}
use google_file_system.Storage.Laws.{contents-write}

module _ {A : Type 0} (x : Address) (handler : ChunkServer → Outcome A × ChunkServer)
    (c : Cluster) where
  at_none : Dict.get c x ≡ none → (at_server x handler c).1 ≡ c
  at_none e = rw (e, at_server) refl

  at_some :
      (s : ChunkServer)
      → Dict.get c x ≡ some s
      → (at_server x handler c).1 ≡ Dict.put c x (handler s).1
  at_some s e = rw (e, at_server) refl

-- Every server of a list has the request worked on by it, if it is running.
pub append_each-get :
    (xs : List Address) (req : AppendRequest) (c : Cluster) (b : Address)
    → IsDistinct xs
    → Dict.get (append_each xs req c) b ≡ (
        if contains xs b
        then Option.map (λ s. (append_local req s).1) (Dict.get c b)
        else Dict.get c b)
unfolding append_each
append_each-get [] req c b d = refl
append_each-get (x ∷ xs) req c b d = elim (Option-cases (Dict.get c x)) [
  | inl e ↦
      ap (λ t. Dict.get (append_each xs req t) b) (at_none x (append_local req) c e)
      ∙ append_each-get xs req c b d.1
      ∙ ground arith
  | inr (s, e) ↦
      ap (λ t. Dict.get (append_each xs req t) b) (at_some x (append_local req) c s e)
      ∙ append_each-get xs req (Dict.put c x (append_local req s).1) b d.1
      ∙ ground (arith, get-put c x b (append_local req s).1)
]

-- What a request makes of a file: the record goes to its end, or zeros fill it up.
abbrev pub appended : AppendRequest → List Byte → List Byte
appended req file =
    if ltb max_chunk_size (length file + length req.payload)
    then file ++ padding (length file)
    else file ++ req.payload

abbrev pub append_reply : AppendRequest → List Byte → AppendResponse
append_reply req file =
    if ltb max_chunk_size (length file + length req.payload)
    then retry_on_next_chunk
    else offset_written (length file)

pub write_at_end : (file bytes : List Byte) → write_at (length file) bytes file ≡ file ++ bytes
unfolding write_at
write_at_end file [] = sym (append-nil file)
write_at_end file (b ∷ rest) = write_at-append (length file) b rest file refl

-- What one server makes of a request, and what it answers.
unfoldable pub AppendsTo : AppendRequest → ChunkServer → List Byte → Type 0
AppendsTo req s file =
    ((append_local req s).0 ≡ returned (append_reply req file))
    × (contents (append_local req s).1.storage req.chunk_handle ≡ appended req file)

pub append_local-contents :
    (req : AppendRequest) (s : ChunkServer)
    → length (contents s.storage req.chunk_handle) ≤ max_chunk_size
    → AppendsTo req s (contents s.storage req.chunk_handle)
unfolding append_local get_size Storage.append set_version AppendsTo
append_local-contents req s l =
    elim (Bool-cases (ltb max_chunk_size (length file + length req.payload))) [
      | inl f ↦ (
        ground arith,
        rw (f, append_local)
            (rw (small, append_local)
              (contents-write h h (length file) (padding (length file)) s.storage
                ∙ ground (arith, write_at_end file (padding (length file))))),
      )
      | inr f ↦ (
        ground arith,
        rw (f, append_local) (ground (arith, get-put s.storage.files h h (file ++ req.payload))),
      )
    ]
  where
    h : Handle
    h = req.chunk_handle

    file : List Byte
    file = contents s.storage h

    small : ltb max_chunk_size (length file) ≡ false
    small = ground arith

-- A server that is running, and what it holds of a chunk.
abbrev pub Holds : Cluster → Handle → List Byte → Address → Type 0
Holds c h file b = (s : ChunkServer) × (Dict.get c b ≡ some s) × (contents s.storage h ≡ file)

pub append_local-Holds :
    (req : AppendRequest) (s : ChunkServer) (file : List Byte)
    → contents s.storage req.chunk_handle ≡ file
    → length file ≤ max_chunk_size
    → AppendsTo req s file
append_local-Holds req s file e l =
    subst (λ f. AppendsTo req s f) e
      (append_local-contents req s (omega (arith, ap (λ (f : List Byte). length f) e)))

-- A secondary that holds what the primary held.
pub append_each-Holds :
    (a : Address) (xs : List Address) (req : AppendRequest) (c : Cluster) (s : ChunkServer)
    (file : List Byte) (b : Address)
    → IsDistinct (a ∷ xs)
    → contains xs b ≡ true
    → length file ≤ max_chunk_size
    → Holds c req.chunk_handle file b
    → Holds (append_each xs req (Dict.put c a s)) req.chunk_handle (appended req file) b
unfolding AppendsTo
append_each-Holds a xs req c s file b d m l (t, e, f) = (
  (append_local req t).1,
  append_each-get xs req (Dict.put c a s) b d.1 ∙ ground (arith, get-put c a b s, d.0),
  (append_local-Holds req t file f l).1,
)

-- The primary is not one of the secondaries.
pub append_each-primary :
    (a : Address) (xs : List Address) (req : AppendRequest) (c : Cluster) (s : ChunkServer)
    → IsDistinct (a ∷ xs)
    → Dict.get (append_each xs req (Dict.put c a s)) a ≡ some s
append_each-primary a xs req c s d =
    append_each-get xs req (Dict.put c a s) a d.1 ∙ ground (arith, get-put c a a s, d.0)

pub length-padding : (size : ℕ) → length (padding size) ≡ max_chunk_size - size
unfolding padding
length-padding size = length-replicate (max_chunk_size - size) 0

-- The padding fits, on every server.
pub appended-pad_request :
    (h : Handle) (file : List Byte)
    → length file ≤ max_chunk_size
    → appended (pad_request h (length file)) file ≡ file ++ padding (length file)
appended-pad_request h file l = ground (arith, length-padding (length file))

pub length-appended :
    (req : AppendRequest) (file : List Byte)
    → length file ≤ max_chunk_size
    → length (appended req file) ≤ max_chunk_size
length-appended req file l =
    elim (Bool-cases (ltb max_chunk_size (length file + length req.payload))) [
      | inl f ↦
          ground (arith, length-append file (padding (length file)), length-padding (length file))
      | inr f ↦ ground (arith, length-append file req.payload)
    ]

-- A record that fits sets the version that its request carries.
pub append_local-get_version :
    (req : AppendRequest) (s : ChunkServer)
    → length (contents s.storage req.chunk_handle) + length req.payload ≤ max_chunk_size
    → get_version req.chunk_handle (append_local req s).1.storage ≡ req.chunk_version
unfolding append_local get_size Storage.append set_version get_version
append_local-get_version req s l =
    rw (fits, append_local)
      (ground
        (arith, get-put s.storage.versions req.chunk_handle req.chunk_handle req.chunk_version))
  where
    fits :
        ltb max_chunk_size (length (contents s.storage req.chunk_handle) + length req.payload)
        ≡ false
    fits = ground arith
