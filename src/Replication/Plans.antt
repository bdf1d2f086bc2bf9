-- ===== src/Replication/Plans.antt =====
-- What `_rereplicate` plans: which server copies a chunk, and to which.
use google_file_system.Prelude.{
  ℕ, ◌<◌, ◌≡◌, true, false, not, List, [], ◌∷◌, some, inl, inr, Option-cases, contains,
  contains-keep, arith, nat_eq, string_eq, length,
}
use google_file_system.Dict
use google_file_system.Dict.{has, contains-keys}
use google_file_system.Metadata.{Address, Handle, ChunkMetadata, version_of}
use google_file_system.Replication.{CopyCall, plan_copy, first_source, call_to, targets}
use google_file_system.State.{Master}

call_to-member :
    (source : Address) (v : ℕ) (xs : List Address) (call : CopyCall)
    → call_to source v xs ≡ some call
    → (contains xs call.target ≡ true) × (call.source ≡ source) × (call.version ≡ v)
unfolding call_to
call_to-member source v [] call e = cc
call_to-member source v (x ∷ xs) call e = ground arith

-- What a planned copy is: from the first replica of a chunk that has fewer than three, to a server
-- that was heard of and holds no replica, at the master's version.
pub record IsPlanned (h : Handle) (m : Master) (call : CopyCall) (c : ChunkMetadata) : Type 0 where
  pub short : length c.replicas < 3
  pub from_first : (rest : List Address) × (c.replicas ≡ call.source ∷ rest)
  pub new_target : contains c.replicas call.target ≡ false
  pub heard_of : has m.last_seen call.target ≡ true
  pub at_version : call.version ≡ version_of m.store h

first_source-head :
    (xs : List Address) (source : Address)
    → first_source xs ≡ some source
    → (rest : List Address) × (xs ≡ source ∷ rest)
first_source-head [] source e = cc
first_source-head (x ∷ xs) source e = (xs, ground arith)

pub plan_copy-IsPlanned :
    (h : Handle) (m : Master) (call : CopyCall) (c : ChunkMetadata)
    → Dict.get m.chunk_map h ≡ some c
    → plan_copy h m ≡ some call
    → IsPlanned h m call c
unfolding plan_copy
plan_copy-IsPlanned h m call c e p = elim (Option-cases (first_source c.replicas)) [
  | inl n ↦ ground arith
  | inr (source, s) ↦
      let member : (contains (targets c m) call.target ≡ true)
          × (call.source ≡ source)
          × (call.version ≡ version_of m.store h) =
        call_to-member source (version_of m.store h) (targets c m) call (ground arith) in
      let (rest, f) = first_source-head c.replicas source s in
      record {
        short = ground arith;
        from_first = (rest, ground arith);
        new_target = ground (
          arith,
          contains-keep (λ s. not (contains c.replicas s)) (Dict.keys m.last_seen) call.target,
        );
        heard_of = ground (
          arith,
          contains-keep (λ s. not (contains c.replicas s)) (Dict.keys m.last_seen) call.target,
          contains-keys m.last_seen call.target,
        );
        at_version = ground arith;
      }
]
