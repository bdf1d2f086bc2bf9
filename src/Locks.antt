-- ===== src/Locks.antt =====
-- `NamespaceLockManager` of master/metadata.py: a lock for each path prefix. A lock is the number
-- of times that the running thread holds it (it is an RLock, and may be taken again).
pub mod Balance
pub mod Order
pub mod Threads
use google_file_system.Prelude.{
  ℕ, ◌+◌, ◌-◌, String, ◌<>◌, true, false, some, none, List, [], ◌∷◌, ◌==◌, string_eq, get_or,
}
use mathlib.Core.List.{reverse}
use google_file_system.Dict
use google_file_system.Dict.{Dict}
use google_file_system.Text.{strip_slashes, split_slashes}

abbrev pub LockTable : Type 0
LockTable = Dict String ℕ

-- How often a lock is held; a lock that was never asked for is free.
abbrev pub held : LockTable → String → ℕ
held t key = get_or (Dict.get t key) 0

-- `_get_lock`: the lock of a path is made when it is first asked for.
get_lock : String → LockTable → LockTable
get_lock key t = elim (Dict.get t key) [ none ↦ Dict.put t key 0 | some _ ↦ t ]

acquire : String → LockTable → LockTable
acquire key t = Dict.put t key (held t key + 1)

-- The keys of the loop in `acquire_for_operation`: a prefix for each part that is not empty.
prefixes : String → List String → List String
prefixes path [] = []
prefixes path (part ∷ parts) = elim (part == "") [
  | true ↦ prefixes path parts
  | false ↦ (path <> "/" <> part) ∷ prefixes (path <> "/" <> part) parts
]

unfoldable pub lock_keys : String → List String
unfolding prefixes
lock_keys filepath = prefixes "" (split_slashes (strip_slashes filepath))

unfoldable pub acquire_all : List String → LockTable → LockTable
unfolding get_lock acquire
acquire_all [] t = t
acquire_all (key ∷ keys) t = acquire_all keys (acquire key (get_lock key t))

unfoldable pub acquire_for_operation : String → LockTable → List String × LockTable
unfolding acquire_all lock_keys
acquire_for_operation filepath t = (lock_keys filepath, acquire_all (lock_keys filepath) t)

release : String → LockTable → LockTable
release key t = Dict.put t key (held t key - 1)

release_each : List String → LockTable → LockTable
release_each [] t = t
release_each (key ∷ keys) t = release_each keys (release key t)

-- `for lock in reversed(locks): lock.release()`
unfoldable pub release_all : List String → LockTable → LockTable
unfolding release release_each
release_all keys t = release_each (reverse keys) t
