-- ===== src/Cache/Lookups.antt =====
-- A lookup answers what was put last, as if nothing were ever evicted.
use google_file_system.Prelude.{
  ◌≤◌, ◌≡◌, refl, ap, ◌∙◌, Option, none, some, List, [], ◌∷◌, inl, inr, Option-cases, int_eq,
  string_eq, pair_eq, arith, if◌then◌else◌, ◌==◌, ltb,
}
use google_file_system.Cache.{Cache, CacheEntry, Key, fresh, get, put, invalidate}
use google_file_system.Dict
use google_file_system.Dict.{get-put, get-remove_key, get-empty}
use google_file_system.Metadata.{Time}

pub data CacheCall : Type 0 where
  gets : (now : Time) (key : Key) → CacheCall
  puts : (key : Key) (entry : CacheEntry) → CacheCall
  invalidates : (key : Key) → CacheCall

abbrev pub call : CacheCall → Cache → Cache
call (gets now key) c = (get now key c).1
call (puts key entry) c = put key entry c
call (invalidates key) c = invalidate key c

unfoldable pub calls : List CacheCall → Cache → Cache
calls [] c = c
calls (x ∷ xs) c = calls xs (call x c)

-- What was put last for a key, unless it was invalidated since.
abbrev pub last_put : Key → List CacheCall → Option CacheEntry → Option CacheEntry
last_put key [] found = found
last_put key (gets now k ∷ xs) found = last_put key xs found
last_put key (puts k entry ∷ xs) found = last_put key xs (if key == k then some entry else found)
last_put key (invalidates k ∷ xs) found = last_put key xs (if key == k then none else found)

-- No lookup was made later than a time.
abbrev pub AllBy : Time → List CacheCall → Type 0
AllBy now [] = Unit
AllBy now (gets t k ∷ xs) = (t ≤ now) × AllBy now xs
AllBy now (_ ∷ xs) = AllBy now xs

fresh-later :
    (t now : Time) (o : Option CacheEntry) → fresh t o ≡ none → t ≤ now → fresh now o ≡ none
fresh-later t now none e b = refl
fresh-later t now (some x) e b = ground arith

fresh-get :
    (t now : Time) (k key : Key) (c : Cache)
    → t ≤ now
    → fresh now (Dict.get (get t k c).1 key) ≡ fresh now (Dict.get c key)
unfolding get
fresh-get t now k key c b = elim (Option-cases (fresh t (Dict.get c k))) [
  | inl e ↦
      rw (e, get)
        (ground (
          arith,
          get-remove_key c k key,
          fresh-later t now (Dict.get c k) e b,
          ap (λ j. fresh now (Dict.get c j)) {x = key} {y = k},
        ))
  | inr (x, e) ↦ rw (e, get) refl
]

fresh-calls :
    (now : Time) (key : Key) (xs : List CacheCall) (c : Cache) (found : Option CacheEntry)
    → AllBy now xs
    → fresh now (Dict.get c key) ≡ fresh now found
    → fresh now (Dict.get (calls xs c) key) ≡ fresh now (last_put key xs found)
unfolding calls put invalidate
fresh-calls now key [] c found b e = e
fresh-calls now key (gets t k ∷ xs) c found b e =
    fresh-calls now key xs (get t k c).1 found b.1 (fresh-get t now k key c b.0 ∙ e)
fresh-calls now key (puts k entry ∷ xs) c found b e =
    fresh-calls now key xs (put k entry c) (if key == k then some entry else found) b
      (ground (arith, get-put c k key entry))
fresh-calls now key (invalidates k ∷ xs) c found b e =
    fresh-calls now key xs (invalidate k c) (if key == k then none else found) b
      (ground (arith, get-remove_key c k key))

-- An entry, unless the clock has reached the end of its life.
abbrev pub unless_expired : Time → Option CacheEntry → Option CacheEntry
unless_expired now none = none
unless_expired now (some entry) = if ltb now entry.expires_at then some entry else none

fresh-unless_expired : (now : Time) (o : Option CacheEntry) → fresh now o ≡ unless_expired now o
fresh-unless_expired now none = refl
fresh-unless_expired now (some entry) = ground arith

-- After any calls on an empty cache, a lookup that is made no earlier than the lookups before it
-- answers the entry that was put last for its key, if that was not invalidated since and has not
-- expired, and nothing otherwise.
pub get-calls :
    (now : Time) (key : Key) (xs : List CacheCall)
    → AllBy now xs
    → (get now key (calls xs Dict.empty)).0 ≡ unless_expired now (last_put key xs none)
unfolding get
get-calls now key xs b =
    ground (
      arith,
      fresh-calls now key xs Dict.empty none b (ap (fresh now) (get-empty {V = CacheEntry} key)),
    )
    ∙ fresh-unless_expired now (last_put key xs none)
