-- ===== src/Chunkserver/Writes.antt =====
-- What a push and its commit do to the servers of a chain.
use mathlib.Core.Option
use google_file_system.Prelude.{
  ◌≡◌, refl, sym, ap, ◌∙◌, true, false, some, List, [], ◌∷◌, inl, inr, Option-cases, Outcome,
  returned, contains, IsDistinct, if◌then◌else◌, ◌⊎◌, arith, nat_eq, string_eq, subst,
}
use google_file_system.Chunkserver.{
  ChunkServer, Cluster, WriteRequest, WriteResponse, written, at_server, push, forward_write,
  commit, commit_each, write_chunk,
}
use google_file_system.Dict
use google_file_system.Dict.{has, get-put, get-remove_key}
use google_file_system.Metadata.{Address}

abbrev pub AllRunning : Cluster → List Address → Type 0
AllRunning c xs = (b : Address) → contains xs b ≡ true → has c b ≡ true

-- A chain of servers that are all running: each has the push.
forward_write-get :
    (a : Address) (chain : List Address) (req : WriteRequest) (c : Cluster) (b : Address)
    → IsDistinct (a ∷ chain)
    → AllRunning c (a ∷ chain)
    → Dict.get (forward_write a chain req c).1 b
      ≡ (if contains (a ∷ chain) b then Option.map (push req) (Dict.get c b) else Dict.get c b)
unfolding forward_write
forward_write-get a [] req c b d run = elim (Option-cases (Dict.get c a)) [
  | inl e ↦ ground (arith, run a)
  | inr (s, e) ↦ rw (e, at_server) (ground (arith, get-put c a b (push req s)))
]
forward_write-get a (n ∷ rest) req c b d run = elim (Option-cases (Dict.get c a)) [
  | inl e ↦ ground (arith, run a)
  | inr (s, e) ↦
      let c' = Dict.put c a (push req s) in
      rw (e, forward_write)
        (forward_write-get n rest req c' b d.1
            (λ x h. ground (arith, get-put c a x (push req s), run x))
          ∙ ground (arith, get-put c a b (push req s)))
]

commit_each-cons :
    (x : Address) (xs : List Address) (req : WriteRequest) (c : Cluster)
    → (commit_each (x ∷ xs) req c).0 ≡ returned written
    → (s : ChunkServer) × (Dict.get c x ≡ some s)
      × ((commit req s).0 ≡ returned written)
      × (commit_each (x ∷ xs) req c ≡ commit_each xs req (Dict.put c x (commit req s).1))
unfolding commit_each
commit_each-cons x xs req c w = elim (Option-cases (Dict.get c x)) [
  | inl e ↦ ground arith
  | inr (s, e) ↦ (s, e, ground arith, ground arith)
]

-- What became of a server: it was not asked, and stayed as it was, or it made the commit.
abbrev pub Committed : List Address → WriteRequest → Cluster → Cluster → Address → Type 0
Committed xs req c d b =
    ((contains xs b ≡ false) × (Dict.get d b ≡ Dict.get c b))
    ⊎ ((s : ChunkServer) × (contains xs b ≡ true)
        × (Dict.get c b ≡ some s)
        × ((commit req s).0 ≡ returned written)
        × (Dict.get d b ≡ some (commit req s).1))

Committed-cons :
    (x : Address) (xs : List Address) (req : WriteRequest) (c d : Cluster) (s : ChunkServer)
    (b : Address)
    → contains xs x ≡ false
    → Dict.get c x ≡ some s
    → (commit req s).0 ≡ returned written
    → Committed xs req (Dict.put c x (commit req s).1) d b
    → Committed (x ∷ xs) req c d b
Committed-cons x xs req c d s b n e k (inl (f, g)) = elim (string_eq.dec b x) [
  | yes p ↦ inr (s, ground arith, ground arith, k, ground (arith, get-put c x b (commit req s).1))
  | no p ↦ inl (ground arith, ground (arith, get-put c x b (commit req s).1))
]
Committed-cons x xs req c d s b n e k (inr (t, f, g, l, m)) =
    inr (t, ground arith, ground (arith, get-put c x b (commit req s).1), l, m)

-- A commit that the secondaries acknowledge: each of them made it, and no other server changed.
commit_each-Committed :
    (xs : List Address) (req : WriteRequest) (c : Cluster) (b : Address)
    → IsDistinct xs
    → (commit_each xs req c).0 ≡ returned written
    → Committed xs req c (commit_each xs req c).1 b
unfolding commit_each
commit_each-Committed [] req c b d w = inl (refl, refl)
commit_each-Committed (x ∷ xs) req c b d w =
    let (s, e, k, step) = commit_each-cons x xs req c w in
    Committed-cons x xs req c (commit_each (x ∷ xs) req c).1 s b d.0 e k (
      subst
        (λ (r : Outcome WriteResponse × Cluster).
          Committed xs req (Dict.put c x (commit req s).1) r.1 b)
        (sym step)
        (commit_each-Committed xs req (Dict.put c x (commit req s).1) b d.1
          (ap (λ r. r.0) (sym step) ∙ w)))

write_chunk-commit_each :
    (a : Address) (xs : List Address) (req : WriteRequest) (c : Cluster)
    → (write_chunk a xs req c).0 ≡ returned written
    → write_chunk a xs req c ≡ commit_each (a ∷ xs) req c
unfolding write_chunk commit_each
write_chunk-commit_each a xs req c w = elim (Option-cases (Dict.get c a)) [
  | inl e ↦ ground arith
  | inr (s, e) ↦ ground arith
]

-- A server that is running after a push was running before it.
forward_write-has :
    (a : Address) (chain : List Address) (req : WriteRequest) (c : Cluster) (b : Address)
    → has (forward_write a chain req c).1 b ≡ true
    → has c b ≡ true
unfolding forward_write
forward_write-has a [] req c b h = elim (Option-cases (Dict.get c a)) [
  | inl e ↦ ground arith
  | inr (s, e) ↦ ground (arith, get-put c a b (push req s))
]
forward_write-has a (n ∷ rest) req c b h = elim (Option-cases (Dict.get c a)) [
  | inl e ↦ ground arith
  | inr (s, e) ↦ ground (
    arith,
    forward_write-has n rest req (Dict.put c a (push req s)) b,
    get-put c a b (push req s),
  )
]

-- Push and commit, as a client makes them.
abbrev pub push_and_commit :
    Address → List Address → WriteRequest → Cluster → Outcome WriteResponse × Cluster
push_and_commit a xs req c = write_chunk a xs req (forward_write a xs req c).1

-- Every server of a list made the write, and no other changed.
pub record Replicated (xs : List Address) (req : WriteRequest) (c d : Cluster) : Type 0 where
  pub at :
      (b : Address)
      → contains xs b ≡ true
      → (s : ChunkServer) × (Dict.get c b ≡ some s)
        × (Dict.get d b ≡ some (commit req (push req s)).1)
  pub elsewhere : (b : Address) → contains xs b ≡ false → Dict.get d b ≡ Dict.get c b

-- If a primary and its secondaries are all different, then a write that is acknowledged was made,
-- with the data that was pushed, by the primary and every secondary, and changed no other server.
pub push_and_commit-Replicated :
    (a : Address) (xs : List Address) (req : WriteRequest) (c : Cluster)
    → IsDistinct (a ∷ xs)
    → (push_and_commit a xs req c).0 ≡ returned written
    → Replicated (a ∷ xs) req c (push_and_commit a xs req c).1
push_and_commit-Replicated a xs req c d w = record { at = made; elsewhere = others }
  where
    pushed : Cluster
    pushed = (forward_write a xs req c).1

    same : write_chunk a xs req pushed ≡ commit_each (a ∷ xs) req pushed
    same = write_chunk-commit_each a xs req pushed w

    outcome : (b : Address) → Committed (a ∷ xs) req pushed (push_and_commit a xs req c).1 b
    outcome b =
        subst (λ (r : Outcome WriteResponse × Cluster). Committed (a ∷ xs) req pushed r.1 b)
          (sym same) (commit_each-Committed (a ∷ xs) req pushed b d (ap (λ r. r.0) (sym same) ∙ w))

    running : AllRunning c (a ∷ xs)
    running b h = elim (outcome b) [
      | inl (n, _) ↦ cc (h, n)
      | inr (s, _, e, _, _) ↦ forward_write-has a xs req c b (ground arith)
    ]

    made :
        (b : Address)
        → contains (a ∷ xs) b ≡ true
        → (s : ChunkServer) × (Dict.get c b ≡ some s)
          × (Dict.get (push_and_commit a xs req c).1 b ≡ some (commit req (push req s)).1)
    made b h = elim (outcome b) [
      | inl (n, _) ↦ ground arith
      | inr (t, _, e, _, m) ↦ elim (Option-cases (Dict.get c b)) [
        | inl none_there ↦ ground (arith, running b h)
        | inr (s, there) ↦ (
          s,
          there,
          m
              ∙ ap (λ x. some (commit req x).1)
                  (ground (arith, forward_write-get a xs req c b d running)),
        )
      ]
    ]

    others :
        (b : Address)
        → contains (a ∷ xs) b ≡ false
        → Dict.get (push_and_commit a xs req c).1 b ≡ Dict.get c b
    others b n = elim (outcome b) [
      | inl (_, e) ↦ ground (arith, forward_write-get a xs req c b d running)
      | inr (s, h, _, _, _) ↦ ground arith
    ]
