-- ===== src/Files/Outcomes.antt =====
-- `CreateFile` and `DeleteFile` on each of their branches.
use Prim.Native.String.{count}
use text.Mathlib.TextLemmas.{length-append}
use google_file_system.Prelude.{
  ◌/◌, ◌<◌, String, ◌<>◌, ◌≡◌, ◌≢◌, refl, ap, ◌⊎◌, inl, inr, true, false, some, none, [], ◌∷◌, ◌++◌,
  returned, Bool-cases, Option-cases, ◌==◌, if◌then◌else◌, nat_eq, string_eq, arith,
}
use google_file_system.Dict
use google_file_system.Dict.{has, get-put, get-remove_key}
use google_file_system.Files.{success, error, create_file_handler, delete_file_handler}
use google_file_system.GarbageCollection.{soft_delete, hidden_name, hidden_file}
use google_file_system.Metadata.{Time, FileMetadata, new_file, seconds}
use google_file_system.Oplog.{append, create_file, delete_file}
use google_file_system.State.{Master}
use google_file_system.Text.{replace_slashes, decimal}
use google_file_system.Text.Lengths.{count-replace_slashes}

-- A deleted file never keeps its name: the hidden one is longer.
hidden_name_ne : (p : String) (t : Time) → hidden_name p t ≢ p
unfolding hidden_name
hidden_name_ne p t e = absurd (omega (arith, ap count e, longer))
  where
    longer : count p < count (hidden_name p t)
    longer =
        let stamp = decimal (t / seconds 1) in
        omega (
          arith,
          length-append "/.trash/" (replace_slashes p <> ("_" <> stamp)),
          length-append (replace_slashes p) ("_" <> stamp),
          count-replace_slashes p,
        )

-- Nothing was written.
pub record IsRefused (m n : Master) : Type 0 where
  pub store : n.store ≡ m.store
  pub oplog : n.oplog ≡ m.oplog

module _ (p : String) (created_at logged_at : Time) (m : Master) where
  abbrev pub CreationOutcomes : Type 0
  CreationOutcomes =
      let result = create_file_handler p created_at logged_at m in
      ((has m.namespace p ≡ true)
        × (result.0 ≡ returned (error "File already exists"))
        × IsRefused m result.1)
      ⊎ ((has m.namespace p ≡ false)
          × (result.0 ≡ returned success)
          × ((q : String)
              → Dict.get result.1.namespace q
                ≡ (if q == p then some (new_file p created_at) else Dict.get m.namespace q))
          × (result.1.file_chunks ≡ m.file_chunks)
          × (result.1.chunk_map ≡ m.chunk_map)
          × (result.1.oplog.lines
              ≡ m.oplog.lines ++ record { ts = logged_at; op = create_file p } ∷ []))

  -- `CreateFile` of a name in use is an error and writes nothing. Of another name it adds a file that
  -- is not deleted, touches no other name and no chunk, and logs the name.
  pub create_file_handler_outcomes : CreationOutcomes
  unfolding create_file_handler append
  create_file_handler_outcomes = elim (Bool-cases (has m.namespace p)) [
    | inl e ↦ inl (
      e,
      rw (e, create_file_handler),
      rw (e, create_file_handler) (record { store = refl; oplog = refl }),
    )
    | inr e ↦ inr (
      e,
      rw (e, create_file_handler),
      (λ q. rw (e, create_file_handler) (get-put m.namespace p q (new_file p created_at))),
      rw (e, create_file_handler),
      rw (e, create_file_handler),
      rw (e, create_file_handler),
    )
  ]

get-moved :
    (d : Dict.Dict String FileMetadata) (hidden p q : String) (f : FileMetadata)
    → Dict.get (Dict.remove_key (Dict.put d hidden f) p) q
      ≡ (if q == p then none else if q == hidden then some f else Dict.get d q)
get-moved d hidden p q f =
    ground (arith, get-remove_key (Dict.put d hidden f) p q, get-put d hidden q f)

module _ (p : String) (named_at deleted_at logged_at : Time) (m : Master) where
  abbrev pub DeletionOutcomes : Type 0
  DeletionOutcomes =
      let result = delete_file_handler p named_at deleted_at logged_at m in
      let hidden = hidden_name p named_at in
      ((has m.namespace p ≡ false)
        × (result.0 ≡ returned (error "File not found"))
        × IsRefused m result.1)
      ⊎ ((f : FileMetadata) × (Dict.get m.namespace p ≡ some f)
          × (result.0 ≡ returned success)
          × (hidden ≢ p)
          × ((q : String)
              → Dict.get result.1.namespace q ≡ (
                  if q == p
                  then none
                  else if q == hidden
                  then some (record f {
                    deleted = true;
                    hidden_name = some hidden;
                    deleted_at = some deleted_at;
                  })
                  else Dict.get m.namespace q))
          × (result.1.file_chunks ≡ m.file_chunks)
          × (result.1.chunk_map ≡ m.chunk_map)
          × (result.1.oplog.lines
              ≡ m.oplog.lines ++ record { ts = logged_at; op = delete_file p hidden } ∷ []))

  -- `DeleteFile` of an unknown name is an error and writes nothing. Of a known one it takes the name
  -- away, puts the file, marked as deleted, under its hidden name, touches no other name and no
  -- chunk, and logs both names.
  pub delete_file_handler_outcomes : DeletionOutcomes
  unfolding delete_file_handler soft_delete append
  delete_file_handler_outcomes =
      let hidden = hidden_name p named_at in
      elim (Option-cases (Dict.get m.namespace p)) [
        | inl e ↦ inl (
          ground arith,
          ground arith,
          rw (e, delete_file_handler) (record { store = refl; oplog = refl }),
        )
        | inr (f, e) ↦
            let file = hidden_file hidden deleted_at f in
            inr (
              f,
              e,
              rw (e, delete_file_handler),
              hidden_name_ne p named_at,
              (λ q.
                  rw (e, delete_file_handler)
                    (rw (e, soft_delete) (get-moved m.namespace hidden p q file))),
              rw (e, delete_file_handler) (rw (e, soft_delete)),
              rw (e, delete_file_handler) (rw (e, soft_delete)),
              rw (e, delete_file_handler) (rw (e, soft_delete)),
            )
      ]
