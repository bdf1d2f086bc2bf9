-- ===== src/Locks/Threads/Invariant.antt =====
-- What holds of the locks and the threads in every reachable state.
use Prim.Native.String.{count as chars}
use google_file_system.Prelude.{
  ℕ, ◌≤◌, ◌<◌, ◌≡◌, refl, ap, subst, String, ◌<>◌, true, false, Option, none, some, List, [], ◌∷◌,
  ◌==◌, ◌||◌, ◌⊎◌, inl, inr, Bool-cases, contains, arith, nat_eq, string_eq,
}
use google_file_system.Locks.{prefixes, lock_keys}
use google_file_system.Locks.Order.{longer}
use google_file_system.Locks.Threads.{Hold, take_lock, Thread, entering, leaving, Running, init}
use google_file_system.Text.{strip_slashes, split_slashes}

-- Keys in the order of their length, all longer than a bound.
abbrev pub Rising : ℕ → List String → Type 0
Rising bound [] = Unit
Rising bound (key ∷ keys) = (bound < chars key) × Rising (chars key) keys

-- The length of the key that was taken last.
abbrev pub top : List String → ℕ
top [] = 0
top (key ∷ keys) = chars key

abbrev pub Falling : List String → Type 0
Falling [] = Unit
Falling (key ∷ keys) = (top keys < chars key) × Falling keys

abbrev pub IsOrdered : Thread → Type 0
IsOrdered (entering keys taken) = Rising (top taken) keys × Falling taken
IsOrdered (leaving taken) = Falling taken

abbrev pub taken_by : Thread → List String
taken_by (entering keys taken) = taken
taken_by (leaving taken) = taken

-- A handler that has not left its body takes exactly these keys.
abbrev pub IsFor : List String → Thread → Type 0
IsFor all (entering keys taken) =
    (key : String) → contains all key ≡ (contains taken key || contains keys key)
IsFor all (leaving taken) = Unit

abbrev pub once : ℕ → Hold
once i = record { owner = i; count = 1 }

pub record IsLocked (n : ℕ) (paths : ℕ → String) (s : Running) : Type 0 where
  pub ordered : (i : ℕ) → IsOrdered (s.threads i)
  pub keys : (i : ℕ) → IsFor (lock_keys (paths i)) (s.threads i)
  pub owned :
      (i : ℕ) (key : String)
      → contains (taken_by (s.threads i)) key ≡ true
      → s.held key ≡ some (once i)
  pub owner :
      (key : String) (hold : Hold)
      → s.held key ≡ some hold
      → (hold.owner < n)
        × (hold.count ≡ 1)
        × (contains (taken_by (s.threads hold.owner)) key ≡ true)

prefixes-Rising : (parts : List String) (path : String) → Rising (chars path) (prefixes path parts)
unfolding prefixes
prefixes-Rising [] path = tt
prefixes-Rising (part ∷ parts) path = elim (Bool-cases (part == "")) [
  | inl e ↦ rw (e, prefixes) (prefixes-Rising parts path)
  | inr e ↦ rw (e, prefixes) (longer path part, prefixes-Rising parts (path <> "/" <> part))
]

pub Falling-contains :
    (keys : List String) (key : String)
    → Falling keys
    → contains keys key ≡ true
    → chars key ≤ top keys
Falling-contains [] key f h = absurd cc
Falling-contains (x ∷ keys) key f h =
    ground (arith, Falling-contains keys key f.1, ap chars {x = key} {y = x})

pub init-IsLocked : (n : ℕ) (paths : ℕ → String) → IsLocked n paths (init paths)
unfolding lock_keys
init-IsLocked n paths = record {
  ordered = λ i. (prefixes-Rising (split_slashes (strip_slashes (paths i))) "", tt);
  keys = λ i key. refl;
  owned = λ i key h. absurd cc;
  owner = λ key hold h. absurd cc;
}

pub not-again :
    (key : String) (taken : List String) → Falling (key ∷ taken) → contains taken key ≡ false
not-again key taken (above, falling) = elim (Bool-cases (contains taken key)) [
  | inl e ↦ absurd (omega (arith, Falling-contains taken key falling e))
  | inr e ↦ e
]

take_lock-cases :
    (i : ℕ) (before : Option Hold) (hold : Hold)
    → take_lock i before ≡ some hold
    → ((before ≡ none) × (hold ≡ once i)) ⊎ ((old : Hold) × (before ≡ some old) × (old.owner ≡ i))
take_lock-cases i none hold h = inl (refl, cc)
take_lock-cases i (some old) hold h = elim (Bool-cases (old.owner == i)) [
  | inl e ↦ inr (old, refl, ground arith)
  | inr e ↦ absurd (grind arith)
]

-- A lock that a handler gets was free.
pub was-free :
    {n : ℕ} {paths : ℕ → String} {s : Running} (i : ℕ) (key : String) (keys taken : List String)
    (hold : Hold)
    → IsLocked n paths s
    → s.threads i ≡ entering (key ∷ keys) taken
    → take_lock i (s.held key) ≡ some hold
    → (s.held key ≡ none) × (hold ≡ once i)
was-free {s = s} i key keys taken hold inv here taking =
    let ((above, _), falling) = subst IsOrdered here (inv.ordered i) in
    elim (take_lock-cases i (s.held key) hold taking) [
      | inl free ↦ free
      | inr (old, e, mine) ↦ absurd (
          cc (
            not-again key taken (above, falling),
            ap taken_by here,
            ap s.threads mine,
            (inv.owner key old e).2,
          ))
    ]
