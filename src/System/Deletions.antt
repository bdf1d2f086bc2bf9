-- ===== src/System/Deletions.antt =====
-- `GetChunkLocations` of master/server.py tests the name before it takes the locks: a `DeleteFile`
-- that runs between the two.
use google_file_system.Dict
use google_file_system.Dict.{Dict, has}
use google_file_system.Files.{delete_file_handler}
use google_file_system.GarbageCollection.{soft_delete}
use google_file_system.Files.Outcomes.{delete_file_handler_outcomes}
use google_file_system.Locations.{
  ChunkLocRequest, locate, find_handle, allocate_missing, allocate_on, place_sampled, resolve_index,
  is_past,
}
use google_file_system.Locks.{LockTable}
use google_file_system.Metadata.{Time, Address, Handle, FileMetadata, allocate_chunk}
use google_file_system.Oplog
use google_file_system.Oplog.{OperationLog, allocate_chunk as allocate_chunk_op}
use google_file_system.Prelude.{
  ℕ, ◌≡◌, refl, ap, ◌∙◌, String, true, false, not, List, [], ◌∷◌, ℤ, pos, ◌-◌, continue_with,
  Outcome, raised, returned, inl, inr, Bool-cases, List-cases, Option-cases, length, get_or, min,
  index_list, arith, nat_eq, string_eq,
}
use google_file_system.State.{Master, log_operation}

-- With other names, another log and other locks.
abbrev renamed : Dict String FileMetadata → OperationLog → LockTable → Master → Master
renamed names log locks m = record m {
  store = record m.store { namespace = names };
  oplog = log;
  locks = locks;
}

module _ (names : Dict String FileMetadata) (log : OperationLog) (locks : LockTable) where
  find_handle-renamed :
      (p : String) (i : ℤ) (m : Master)
      → (find_handle p i (renamed names log locks m)).0 ≡ (find_handle p i m).0
  unfolding find_handle
  find_handle-renamed p i m = elim (Option-cases (Dict.get m.file_chunks p)) [
    | inl e ↦ rw (e, find_handle) refl
    | inr (hs, e) ↦
        rw (e, find_handle)
          (elim (Option-cases (index_list hs i)) [
            | inl f ↦ rw (f, find_handle) refl
            | inr (h, f) ↦
                rw (f, find_handle)
                  (elim (Option-cases (Dict.get m.chunk_map h)) [
                    | inl g ↦ rw (g, find_handle) refl
                    | inr (c, g) ↦ rw (g, find_handle) refl
                  ])
          ])
  ]

module _ (names : Dict String FileMetadata) (log : OperationLog) (locks : LockTable) where
  module _ (sample : Time → List Address → ℕ → List Address) (request : ChunkLocRequest) (t : Time)
      (m : Master) where
    SameAllocation : Outcome (Unit {0}) × Master → Outcome (Unit {0}) × Master → Type 0
    SameAllocation r s = (logged : OperationLog) × (r ≡ (s.0, renamed names logged locks s.1))

    allocate_missing-renamed :
        SameAllocation
          (allocate_missing sample request t (renamed names log locks m))
          (allocate_missing sample request t m)
    unfolding SameAllocation allocate_missing allocate_on allocate_chunk log_operation place_sampled
    allocate_missing-renamed = elim (Bool-cases (not request.create_if_missing)) [
      | inl e ↦ rw (e, allocate_missing) (log, refl)
      | inr e ↦
          rw (e, allocate_missing)
            (elim (List-cases (Dict.keys m.last_seen)) [
              | inl k ↦ rw (k, allocate_on) (log, refl)
              | inr (x, xs, k) ↦
                  rw (k, allocate_on)
                    (elim (List-cases (sample t (x ∷ xs) (min 3 (length (x ∷ xs))))) [
                      | inl n ↦ rw (n, place_sampled) (log, refl)
                      | inr (primary, rest, n) ↦
                          rw (n, place_sampled)
                            (
                              Oplog.append t (allocate_chunk_op request.filename m.next_handle) log,
                              refl,
                            )
                    ])
            ])
    ]

    -- The handle of the chunk at the end of the file.
    last_handle : Unit {0} → Master → Outcome Handle × Master
    last_handle done n =
        find_handle request.filename
          (pos (length (get_or (Dict.get n.file_chunks request.filename) []) - 1)) n

    last_handle-renamed :
        (r s : Outcome (Unit {0}) × Master)
        → SameAllocation r s
        → (continue_with last_handle r).0 ≡ (continue_with last_handle s).0
    unfolding SameAllocation last_handle
    last_handle-renamed r (raised x, n) (logged, e) =
        ap (λ (q : Outcome (Unit {0}) × Master). (continue_with last_handle q).0) e
    last_handle-renamed r (returned done, n) (logged, e) =
        ap (λ (q : Outcome (Unit {0}) × Master). (continue_with last_handle q).0) e
        ∙ find_handle-renamed names logged locks request.filename
            (pos (length (get_or (Dict.get n.file_chunks request.filename) []) - 1)) n

    locate-renamed :
        (locate sample request t (renamed names log locks m)).0 ≡ (locate sample request t m).0
    unfolding locate last_handle
    locate-renamed =
        let count = length (get_or (Dict.get m.file_chunks request.filename) []) in
        let index = resolve_index request.chunk_index count in
        elim (Bool-cases (is_past index count)) [
          | inl e ↦
              rw (e, locate)
                (last_handle-renamed (allocate_missing sample request t (renamed names log locks m))
                  (allocate_missing sample request t m) allocate_missing-renamed)
          | inr e ↦ rw (e, locate) (find_handle-renamed names log locks request.filename index m)
        ]

-- Deleting a file that is there changes names, log and locks only.
delete-renamed :
    (p : String) (named_at deleted_at logged_at : Time) (m : Master)
    → has m.namespace p ≡ true
    → let n = (delete_file_handler p named_at deleted_at logged_at m).1 in
      n ≡ renamed n.namespace n.oplog n.locks m
unfolding delete_file_handler soft_delete log_operation
delete-renamed p named_at deleted_at logged_at m e = elim (Option-cases (Dict.get m.namespace p)) [
  | inl n ↦ absurd (ground arith)
  | inr (f, g) ↦ rw (g, delete_file_handler) (rw (g, soft_delete) refl)
]

-- If a file that is there is deleted, then its name is gone, but the part of a lookup under the locks
-- comes to what it would have come to without the deletion.
pub locate-delete_file_handler :
    (sample : Time → List Address → ℕ → List Address) (request : ChunkLocRequest)
    (named_at deleted_at logged_at allocated_at : Time) (m : Master)
    → has m.namespace request.filename ≡ true
    → (has
          (delete_file_handler request.filename named_at deleted_at logged_at m).1.namespace
          request.filename
        ≡ false)
      × ((locate sample request allocated_at
            (delete_file_handler request.filename named_at deleted_at logged_at m).1).0
          ≡ (locate sample request allocated_at m).0)
locate-delete_file_handler sample request named_at deleted_at logged_at allocated_at m e =
    let p = request.filename in
    let n = (delete_file_handler p named_at deleted_at logged_at m).1 in
    (
      elim (delete_file_handler_outcomes p named_at deleted_at logged_at m) [
        | inl (unknown, _, _) ↦ absurd (cc (unknown, e))
        | inr (f, _, _, _, moved, _, _, _) ↦ ground (arith, moved p)
      ],
      ap (λ (k : Master). (locate sample request allocated_at k).0)
            (delete-renamed p named_at deleted_at logged_at m e)
          ∙ locate-renamed n.namespace n.oplog n.locks sample request allocated_at m,
    )
