-- ===== src/Locks/Order.antt =====
-- The order in which locks are taken.
use Prim.Native.String.{count}
use text.Mathlib.TextLemmas.{length-append}
use google_file_system.Prelude.{
  ◌<◌, ◌≡◌, ap, String, ◌<>◌, true, List, [], ◌∷◌, ◌==◌, ◌⊎◌, inl, inr, Bool-cases, contains,
  string_eq, arith,
}
use google_file_system.Locks.{prefixes, lock_keys}
use google_file_system.Text.{strip_slashes, split_slashes}

-- The list has the first key before the second.
abbrev pub Before : List String → String → String → Type 0
Before [] a b = ⊥
Before (x ∷ xs) a b = ((x ≡ a) × (contains xs b ≡ true)) ⊎ Before xs a b

pub longer : (path part : String) → count path < count (path <> "/" <> part)
longer path part = omega (
  arith,
  length-append path "/",
  length-append (path <> "/") part,
  length-append path ("/" <> part),
  length-append "/" part,
)

prefixes-longer :
    (parts : List String) (path b : String)
    → contains (prefixes path parts) b ≡ true
    → count path < count b
unfolding prefixes
prefixes-longer [] path b h = absurd cc
prefixes-longer (part ∷ parts) path b h = elim (Bool-cases (part == "")) [
  | inl e ↦ prefixes-longer parts path b (rw (e, prefixes) at h)
  | inr e ↦
      let new = path <> "/" <> part in
      ground (arith, rw (e, prefixes) at h, prefixes-longer parts new b, longer path part)
]

prefixes-ascending :
    (parts : List String) (path a b : String) → Before (prefixes path parts) a b → count a < count b
unfolding prefixes
prefixes-ascending [] path a b h = absurd h
prefixes-ascending (part ∷ parts) path a b h = elim (Bool-cases (part == "")) [
  | inl e ↦ prefixes-ascending parts path a b (rw (e, prefixes) at h)
  | inr e ↦
      let new = path <> "/" <> part in
      elim (rw (e, prefixes) at h) [
        | inl (p, q) ↦ omega (arith, ap count p, prefixes-longer parts new b q)
        | inr later ↦ prefixes-ascending parts new a b later
      ]
]

-- Two handlers that both take two locks take them in the same order, whatever their paths.
pub lock_keys_order : (f g a b : String) → Before (lock_keys f) a b → ¬ Before (lock_keys g) b a
unfolding lock_keys
lock_keys_order f g a b h k = absurd (
    omega (
      arith,
      prefixes-ascending (split_slashes (strip_slashes f)) "" a b h,
      prefixes-ascending (split_slashes (strip_slashes g)) "" b a k,
    ))
