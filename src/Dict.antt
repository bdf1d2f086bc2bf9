-- ===== src/Dict.antt =====
-- Python's `dict` in insertion order. Clients have the laws; only tests look at the entries.
mod Assoc
pub use Assoc.{All, passes, All-map, keys_where as entries_where}
use Assoc.{Entries}
use mathlib.Core.Option
use Assoc
use google_file_system.Prelude.{
  ◌≡◌, refl, sym, subst, Bool, true, Option, none, some, List, [], Eq, ◌==◌, contains, IsDistinct,
  if◌then◌else◌,
}

pub record Dict {ℓ κ} (K : Type ℓ) (V : Type κ) ⦃e : Eq K⦄ : Type (ℓ ⊔ κ) where
  entries : Entries K V
  distinct : IsDistinct (Assoc.keys entries)

module _ {ℓ κ} {K : Type ℓ} {V : Type κ} ⦃e : Eq K⦄ where
  unfoldable pub empty : Dict K V
  empty = record { entries = []; distinct = tt }

  -- `d.get(k)`
  unfoldable pub get : Dict K V → K → Option V
  get d k = Assoc.lookup k d.entries

  -- `k in d`
  abbrev pub has : Dict K V → K → Bool
  has d k = passes (λ v. true) (get d k)

  -- `d[k] = v`: a key that is there keeps its place.
  unfoldable pub put : Dict K V → K → V → Dict K V
  put d k v = record {
    entries = Assoc.put k v d.entries;
    distinct = Assoc.put-IsDistinct k v d.entries d.distinct;
  }

  -- `d.pop(k, None)`, and `del d[k]` where `k` is there
  unfoldable pub remove_key : Dict K V → K → Dict K V
  remove_key d k = record {
    entries = Assoc.without k d.entries;
    distinct = Assoc.without-IsDistinct k d.entries d.distinct;
  }

  -- `list(d.keys())`
  unfoldable pub keys : Dict K V → List K
  keys d = Assoc.keys d.entries

  -- `list(d.items())`
  unfoldable pub items : Dict K V → List (K × V)
  items d = d.entries

  -- `[k for k, v in d.items() if p(v)]`
  unfoldable pub keys_where : (V → Bool) → Dict K V → List K
  keys_where p d = Assoc.keys_where p d.entries

  pub get-empty : (k : K) → get empty k ≡ none
  unfolding get empty
  get-empty k = refl

  pub get-put :
      (d : Dict K V) (k j : K) (v : V) → get (put d k v) j ≡ (if j == k then some v else get d j)
  unfolding get put
  get-put d k j v = Assoc.lookup-put j k v d.entries

  pub get-remove_key :
      (d : Dict K V) (k j : K) → get (remove_key d k) j ≡ (if j == k then none else get d j)
  unfolding get remove_key
  get-remove_key d k j = Assoc.lookup-without j k d.entries

  pub contains-keys : (d : Dict K V) (k : K) → contains (keys d) k ≡ has d k
  unfolding get keys
  contains-keys d k = Assoc.contains-keys k d.entries

  pub contains-keys_where :
      (p : V → Bool) (d : Dict K V) (k : K) → contains (keys_where p d) k ≡ passes p (get d k)
  unfolding get keys_where
  contains-keys_where p d k = Assoc.contains-keys_where p k d.entries d.distinct

  pub keys-IsDistinct : (d : Dict K V) → IsDistinct (keys d)
  unfolding keys
  keys-IsDistinct d = d.distinct

  pub keys_where-IsDistinct : (p : V → Bool) (d : Dict K V) → IsDistinct (keys_where p d)
  unfolding keys_where
  keys_where-IsDistinct p d = Assoc.keys_where-IsDistinct p d.entries d.distinct

  pub items-get : (d : Dict K V) → All (λ x. get d x.0 ≡ some x.1) (items d)
  unfolding get items
  items-get d = Assoc.entries-lookup d.entries d.distinct

  -- `for v in d.values(): ...`, each value changed in place
  unfoldable pub map_values : (V → V) → Dict K V → Dict K V
  map_values f d = record {
    entries = Assoc.map_values f d.entries;
    distinct = subst IsDistinct (sym (Assoc.keys-map_values f d.entries)) d.distinct;
  }

  pub get-map_values :
      (f : V → V) (d : Dict K V) (k : K) → get (map_values f d) k ≡ Option.map f (get d k)
  unfolding get map_values
  get-map_values f d k = Assoc.lookup-map_values f k d.entries

pub ruleset dict_laws = (get-empty, get-put, get-remove_key, get-map_values)
