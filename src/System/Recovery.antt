-- ===== src/System/Recovery.antt =====
-- A restart: what `_restore_state` makes of the log that a history has left on the disk.
pub mod Scans
pub mod Step
pub mod Histories
use google_file_system.Prelude.{
  ℕ, ◌+◌, ◌≤◌, ◌≡◌, ◌≢◌, refl, sym, ap, ◌∙◌, String, Bool, true, false, not, List, [], ◌∷◌, ◌++◌,
  Option, some, none, inl, inr, Option-cases, Bool-cases, test_cases, Outcome, returned, raised,
  get_or, arith, nat_eq, string_eq, ◌==◌, if◌then◌else◌,
}
use google_file_system.Dict
use google_file_system.Dict.{All, All-map, passes, has, get-put, get-remove_key, items-get}
use google_file_system.Files.{create_file_handler, delete_file_handler}
use google_file_system.GarbageCollection.{
  move_to_trash, soft_delete, hidden_name, hidden_file, erase_expired, is_expired, erase_file,
  drop_orphans, scan_and_collect, finish_scan,
}
use google_file_system.Metadata.{
  allocate_chunk, Time, Address, Handle, FileMetadata, MetadataStore, empty_store, new_file,
  version_of,
}
use google_file_system.Oplog.{
  LogRecord, append, create_file, delete_file, allocate_chunk as allocate_chunk_op,
  grant_lease as grant_lease_op, replay, load_checkpoint,
}
use google_file_system.Startup.{replay_operation, replay_records}
use google_file_system.State.{Master}
use google_file_system.System.Collection.{IsUncollected, is_trash}
use google_file_system.System.Frame.{IsQuiet}
use google_file_system.System.Ownership.{chunks_of}

-- A name that stands for a file that is not deleted.
abbrev pub is_live : MetadataStore → String → Bool
is_live s p = passes (λ f. not f.deleted) (Dict.get s.namespace p)

-- The second store has the live names, chunk lists and versions of the first, and no fewer names.
pub record Agrees (s t : MetadataStore) : Type 0 where
  pub live : (p : String) → is_live t p ≡ is_live s p
  pub named : (p : String) → has s.namespace p ≡ true → has t.namespace p ≡ true
  pub chunks : (p : String) → chunks_of t p ≡ chunks_of s p
  pub versions : (h : Handle) → version_of t h ≡ version_of s h

-- The store after a restart from the log, when there is no checkpoint.
abbrev pub restored : Master → MetadataStore
restored m = replay_records m.oplog.lines empty_store

pub record Recovers (m : Master) : Type 0 where
  pub agrees : Agrees m.store (restored m)
  pub no_checkpoint : m.oplog.checkpoint ≡ none
  pub unversioned : (h : Handle) → m.next_handle ≤ h → version_of m.store h ≡ 0

replay_records-append :
    (rs : List LogRecord) (r : LogRecord) (s : MetadataStore)
    → replay_records (rs ++ r ∷ []) s ≡ replay_operation r.ts r.op (replay_records rs s)
unfolding replay_records
replay_records-append [] r s = refl
replay_records-append (x ∷ rs) r s = replay_records-append rs r (replay_operation x.ts x.op s)

-- One record more, and a step of the store that does what the record says.
pub logged-Recovers :
    (m n : Master) (r : LogRecord)
    → n.oplog.lines ≡ m.oplog.lines ++ r ∷ []
    → n.oplog.checkpoint ≡ m.oplog.checkpoint
    → Agrees n.store (replay_operation r.ts r.op (restored m))
    → ((h : Handle) → n.next_handle ≤ h → version_of n.store h ≡ 0)
    → Recovers m
    → Recovers n
logged-Recovers m n r e c a u v = record {
  agrees = rw e (rw (replay_records-append m.oplog.lines r empty_store) a);
  no_checkpoint = c ∙ v.no_checkpoint;
  unversioned = u;
}

pub IsQuiet-Recovers : {m n : Master} → IsQuiet m n → Recovers m → Recovers n
IsQuiet-Recovers {m} {n} q v = record {
  agrees = rw q.oplog (record {
    live = λ p. rw q.namespace (v.agrees.live p);
    named = λ p e. v.agrees.named p (rw q.namespace at e);
    chunks = λ p. rw q.file_chunks (v.agrees.chunks p);
    versions = λ h. rw q.chunk_versions (v.agrees.versions h);
  });
  no_checkpoint = ap (λ o. o.checkpoint) q.oplog ∙ v.no_checkpoint;
  unversioned = λ h b. rw q.chunk_versions (v.unversioned h (rw q.next_handle at b));
}

module _ (s t : MetadataStore) (v : Agrees s t) where
  pub create-Agrees :
      (p : String) (u w : Time)
      → Agrees
          (record s { namespace = Dict.put s.namespace p (new_file p u) })
          (replay_operation w (create_file p) t)
  unfolding replay_operation
  create-Agrees p u w = record {
    live = λ q. ground (
      arith,
      get-put s.namespace p q (new_file p u),
      get-put t.namespace p q (new_file p w),
      v.live q,
    );
    named = λ q e. ground (
      arith,
      get-put s.namespace p q (new_file p u),
      get-put t.namespace p q (new_file p w),
      v.named q,
    );
    chunks = v.chunks;
    versions = v.versions;
  }

get-moved :
    (d : Dict.Dict String FileMetadata) (hidden p q : String) (f : FileMetadata)
    → Dict.get (Dict.remove_key (Dict.put d hidden f) p) q
      ≡ (if q == p then none else if q == hidden then some f else Dict.get d q)
get-moved d hidden p q f =
    ground (arith, get-remove_key (Dict.put d hidden f) p q, get-put d hidden q f)

pub delete-Agrees :
    (s t : MetadataStore) (p hidden : String) (u w : Time) (f : FileMetadata)
    → Agrees s t
    → Dict.get s.namespace p ≡ some f
    → Agrees (move_to_trash p hidden u f s) (replay_operation w (delete_file p hidden) t)
unfolding replay_operation
delete-Agrees s t p hidden u w f v e = elim (Option-cases (Dict.get t.namespace p)) [
  | inl n ↦ ground (arith, v.named p)
  | inr (g, n) ↦
      rw (n, replay_operation)
        (record {
          live = λ q. ground (
            arith,
            get-moved s.namespace hidden p q (hidden_file hidden u f),
            get-moved t.namespace hidden p q (hidden_file hidden w g),
            v.live q,
          );
          named = λ q h. ground (
            arith,
            get-moved s.namespace hidden p q (hidden_file hidden u f),
            get-moved t.namespace hidden p q (hidden_file hidden w g),
            v.named q,
          );
          chunks = v.chunks;
          versions = v.versions;
        })
]

-- A chunk at version 0, behind the others of its file.
pub allocate-Agrees :
    (s t : MetadataStore) (p : String) (w : Time)
    → Agrees s t
    → version_of s s.next_handle ≡ 0
    → Agrees (allocate_chunk p s).1 (replay_operation w (allocate_chunk_op p s.next_handle) t)
unfolding replay_operation allocate_chunk
allocate-Agrees s t p w v z = record {
  live = v.live;
  named = v.named;
  chunks = λ q. ground (
    arith,
    get-put s.file_chunks p q (chunks_of s p ++ s.next_handle ∷ []),
    get-put t.file_chunks p q (chunks_of t p ++ s.next_handle ∷ []),
    v.chunks q,
    v.chunks p,
  );
  versions = λ h. ground (arith, get-put s.chunk_versions s.next_handle h 0, v.versions h);
}

pub grant-Agrees :
    (s n t : MetadataStore) (h : Handle) (w : Time) (x : ℕ)
    → Agrees s t
    → n.namespace ≡ s.namespace
    → n.file_chunks ≡ s.file_chunks
    → version_of n h ≡ x
    → ((k : Handle) → k ≢ h → version_of n k ≡ version_of s k)
    → Agrees n (replay_operation w (grant_lease_op h x) t)
unfolding replay_operation
grant-Agrees s n t h w x v e f g o = record {
  live = λ p. rw e (v.live p);
  named = λ p b. v.named p (rw e at b);
  chunks = λ p. rw f (v.chunks p);
  versions = λ k. ground (arith, get-put t.chunk_versions h k x, v.versions k, o k);
}
