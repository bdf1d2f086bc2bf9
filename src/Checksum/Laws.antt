-- ===== src/Checksum/Laws.antt =====
-- Checks of blocks answer as if the checksums were never dropped from memory.
use google_file_system.Prelude.{
  ℕ, ◌+◌, ◌≡◌, refl, sym, ap, ◌∙◌, Bool, false, List, [], ◌∷◌, Option, none, some, inl, inr,
  Option-cases, get_elem?, get_or, ◌==◌, nat_eq, if◌then◌else◌, arith, subst,
}
use google_file_system.Bytes.{Byte}
use google_file_system.Checksum.{
  ChecksumStore, cached, resized, set, compute, load_from_disk_if_needed, save_to_disk, update,
  verify,
}
use google_file_system.Dict
use google_file_system.Dict.{Dict, has, get-put, get-empty}
use google_file_system.Metadata.{Handle}

-- What may happen to the checksums: the process may start again, with its files.
pub data ChecksumCall : Type 0 where
  updates : (h : Handle) (block_index checksum : ℕ) → ChecksumCall
  verifies : (h : Handle) (block_index : ℕ) (block : List Byte) → ChecksumCall
  restarts : ChecksumCall

abbrev pub call : ChecksumCall → ChecksumStore → ChecksumStore
call (updates h i x) s = update h i x s
call (verifies h i block) s = (verify h i block s).1
call restarts s = record s { cache = Dict.empty }

unfoldable pub calls : List ChecksumCall → ChecksumStore → ChecksumStore
calls [] s = s
calls (x ∷ xs) s = calls xs (call x s)

-- The checksums of a chunk, with each update made and nothing else.
abbrev pub listed : Handle → List ChecksumCall → List ℕ → List ℕ
listed h [] found = found
listed h (updates k i x ∷ xs) found =
    listed h xs (if h == k then set (resized (i + 1) found) i x else found)
listed h (_ ∷ xs) found = listed h xs found

abbrev pub matches : Option ℕ → ℕ → Bool
matches found checksum = elim found [ none ↦ false | some stored ↦ stored == checksum ]

-- What a check of a chunk looks at: the list in memory, else the file.
recorded : ChecksumStore → Handle → List ℕ
recorded s h = get_or (Dict.get s.cache h) (get_or (Dict.get s.disk h) [])

-- What is in memory is in the file; a chunk without a file has the empty list.
IsSaved : ChecksumStore → Type 0
IsSaved s =
    (h : Handle) (xs : List ℕ) → Dict.get s.cache h ≡ some xs → get_or (Dict.get s.disk h) [] ≡ xs

load-recorded :
    (h k : Handle) (s : ChecksumStore) → recorded (load_from_disk_if_needed h s) k ≡ recorded s k
unfolding load_from_disk_if_needed recorded
load-recorded h k s = elim (Option-cases (Dict.get s.cache h)) [
  | inl e ↦ ground (arith, get-put s.cache h k (get_or (Dict.get s.disk h) []))
  | inr (xs, e) ↦ ground arith
]

load-cached :
    (h : Handle) (s : ChecksumStore) → cached (load_from_disk_if_needed h s) h ≡ recorded s h
unfolding load_from_disk_if_needed recorded
load-cached h s = elim (Option-cases (Dict.get s.cache h)) [
  | inl e ↦ ground (arith, get-put s.cache h h (get_or (Dict.get s.disk h) []))
  | inr (xs, e) ↦ ground arith
]

load-IsSaved : (h : Handle) (s : ChecksumStore) → IsSaved s → IsSaved (load_from_disk_if_needed h s)
unfolding load_from_disk_if_needed IsSaved
load-IsSaved h s p k xs e = elim (Option-cases (Dict.get s.cache h)) [
  | inl f ↦ ground (arith, p k xs, get-put s.cache h k (get_or (Dict.get s.disk h) []))
  | inr (ys, f) ↦ ground (arith, p k xs)
]

-- A list that is put in memory and in the file.
abbrev stored : Handle → List ℕ → ChecksumStore → ChecksumStore
stored h v s = record { disk = Dict.put s.disk h v; cache = Dict.put s.cache h v }

put-found :
    (c : Dict Handle (List ℕ)) (h : Handle) (v : List ℕ)
    → get_or (Dict.get (Dict.put c h v) h) [] ≡ v
put-found c h v = ground (arith, get-put c h h v)

update-stored :
    (h : Handle) (i x : ℕ) (s : ChecksumStore)
    → update h i x s
      ≡ stored h (set (resized (i + 1) (recorded s h)) i x) (load_from_disk_if_needed h s)
unfolding update save_to_disk
update-stored h i x s =
    ap (λ v. record { disk = Dict.put loaded.disk h v; cache = Dict.put loaded.cache h made })
      (put-found loaded.cache h made)
    ∙ ap (λ v. stored h (set (resized (i + 1) v) i x) loaded) (load-cached h s)
  where
    loaded : ChecksumStore
    loaded = load_from_disk_if_needed h s

    made : List ℕ
    made = set (resized (i + 1) (cached loaded h)) i x

stored-recorded :
    (h k : Handle) (v : List ℕ) (s : ChecksumStore)
    → recorded (stored h v s) k ≡ (if k == h then v else recorded s k)
unfolding recorded
stored-recorded h k v s = ground (arith, get-put s.cache h k v, get-put s.disk h k v)

stored-IsSaved : (h : Handle) (v : List ℕ) (s : ChecksumStore) → IsSaved s → IsSaved (stored h v s)
unfolding IsSaved
stored-IsSaved h v s p k xs e = ground (arith, p k xs, get-put s.cache h k v, get-put s.disk h k v)

restart-recorded :
    (k : Handle) (s : ChecksumStore)
    → IsSaved s
    → recorded (record s { cache = Dict.empty }) k ≡ recorded s k
unfolding recorded IsSaved
restart-recorded k s p = elim (Option-cases (Dict.get s.cache k)) [
  | inl e ↦ ground (arith, get-empty {V = List ℕ} k)
  | inr (xs, e) ↦ ground (arith, p k xs e, get-empty {V = List ℕ} k)
]

restart-IsSaved : (s : ChecksumStore) → IsSaved (record s { cache = Dict.empty })
unfolding IsSaved
restart-IsSaved s k xs e = ground (arith, get-empty {V = List ℕ} k)

call-IsSaved : (x : ChecksumCall) (s : ChecksumStore) → IsSaved s → IsSaved (call x s)
unfolding verify
call-IsSaved (updates h i x) s p =
    subst IsSaved (sym (update-stored h i x s)) (stored-IsSaved h _ _ (load-IsSaved h s p))
call-IsSaved (verifies h i block) s p = load-IsSaved h s p
call-IsSaved restarts s p = restart-IsSaved s

calls-recorded :
    (h : Handle) (xs : List ChecksumCall) (s : ChecksumStore)
    → IsSaved s
    → recorded (calls xs s) h ≡ listed h xs (recorded s h)
unfolding calls verify
calls-recorded h [] s p = refl
calls-recorded h (updates k i x ∷ xs) s p =
    calls-recorded h xs (update k i x s) (call-IsSaved (updates k i x) s p)
    ∙ ap (listed h xs) (
        ap (λ t. recorded t h) (update-stored k i x s)
        ∙ stored-recorded k h _ (load_from_disk_if_needed k s)
        ∙ ground (arith, load-recorded k h s, ap (recorded s) {x = h} {y = k}))
calls-recorded h (verifies k i block ∷ xs) s p =
    calls-recorded h xs (load_from_disk_if_needed k s) (load-IsSaved k s p)
    ∙ ap (listed h xs) (load-recorded k h s)
calls-recorded h (restarts ∷ xs) s p =
    calls-recorded h xs (record s { cache = Dict.empty }) (restart-IsSaved s)
    ∙ ap (listed h xs) (restart-recorded h s p)

-- From the first start on, whatever updates and checks were made and however often the process was
-- started again, a block passes its check exactly if its CRC-32 is the one that the updates leave at
-- its index.
pub verify-calls :
    (xs : List ChecksumCall) (h : Handle) (block_index : ℕ) (block : List Byte)
    → (verify h block_index block (calls xs (record { disk = Dict.empty; cache = Dict.empty }))).0
      ≡ matches (get_elem? (listed h xs []) block_index) (compute block)
unfolding verify IsSaved recorded
verify-calls xs h block_index block =
    ap (λ l. matches (get_elem? l block_index) (compute block))
      (load-cached h (calls xs first)
        ∙ calls-recorded h xs first (λ k ys e. ground (arith, get-empty {V = List ℕ} k))
        ∙ ap (listed h xs) (ground (arith, get-empty {V = List ℕ} h)))
  where
    first : ChecksumStore
    first = record { disk = Dict.empty; cache = Dict.empty }
