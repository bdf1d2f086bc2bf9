-- ===== src/Locks/Threads.antt =====
-- The handlers of master/server.py as threads that take the locks of their path
-- (`acquire_for_operation` of master/metadata.py), run, and release them, interleaved in any order.
-- One taking or releasing of a lock is one step, and so is the handler's body.
pub mod Invariant
pub mod Preserved
pub mod Work
pub mod Progress
use google_file_system.Prelude.{
  ℕ, suc, ◌+◌, ◌-◌, ◌<◌, ◌≡◌, String, Bool, true, false, Option, none, some, List, [], ◌∷◌, ◌==◌,
  nat_eq, string_eq, if◌then◌else◌,
}
use google_file_system.Locks.{lock_keys}

-- A `threading.RLock` that is held: by which thread, and how often.
pub record Hold : Type 0 where
  pub owner : ℕ
  pub count : ℕ

abbrev pub Held : Type 0
Held = String → Option Hold

-- `lock.acquire()` by a thread: none where it has to wait.
abbrev pub take_lock : ℕ → Option Hold → Option Hold
take_lock i none = some (record { owner = i; count = 1 })
take_lock i (some hold) =
    if hold.owner == i then some (record hold { count = hold.count + 1 }) else none

-- `lock.release()` by the owner. Of a lock that the thread does not hold it would raise; a handler
-- releases only what it has taken.
abbrev pub give_back : Option Hold → Option Hold
give_back none = none
give_back (some hold) =
    if hold.count == 1 then none else some (record hold { count = hold.count - 1 })

-- Where a handler stands: with keys still to take, and those that it has taken, the last one first;
-- with none to take it is in its body. Or behind its body, with keys still to release.
pub data Thread : Type 0 where
  entering : (keys : List String) → (taken : List String) → Thread
  leaving : (taken : List String) → Thread

abbrev pub assign : Held → String → Option Hold → Held
assign held key hold k = if k == key then hold else held k

-- One step of thread `i`.
pub data Move (i : ℕ) (held : Held) : Thread → Held → Thread → Type 0 where
  acquires :
      {key : String} {keys taken : List String} {hold : Hold}
      → take_lock i (held key) ≡ some hold
      → Move i held
          (entering (key ∷ keys) taken)
          (assign held key (some hold))
          (entering keys (key ∷ taken))
  works : {taken : List String} → Move i held (entering [] taken) held (leaving taken)
  releases :
      {key : String} {taken : List String}
      → Move i held (leaving (key ∷ taken)) (assign held key (give_back (held key))) (leaving taken)

pub record Running : Type 0 where
  pub held : Held
  pub threads : ℕ → Thread

abbrev pub set_thread : (ℕ → Thread) → ℕ → Thread → ℕ → Thread
set_thread threads i t j = if j == i then t else threads j

-- Thread `i` handles a request for `paths i`.
abbrev pub init : (ℕ → String) → Running
init paths = record { held = λ key. none; threads = λ i. entering (lock_keys (paths i)) [] }

pub data Step (n : ℕ) (s : Running) : Running → Type 0 where
  pick :
      (i : ℕ) {held : Held} {t : Thread}
      → i < n
      → Move i s.held (s.threads i) held t
      → Step n s (record { held = held; threads = set_thread s.threads i t })

-- The states after so many steps.
pub data Reach (n : ℕ) (paths : ℕ → String) : ℕ → Running → Type 0 where
  begins : Reach n paths 0 (init paths)
  continues : {k : ℕ} {s t : Running} → Reach n paths k s → Step n s t → Reach n paths (suc k) t
