-- ===== src/Dict.antt =====
-- JavaScript objects and `Map`s with string keys that are no array index (addresses, hashes), in
-- insertion order: `Object.keys`, `Object.entries` and iteration go in this order.
pub mod Laws
use indra.Prelude.{
  String, str_eq, Bool, Option, none, some, List, [], ◌∷◌, map, foldl, or_else, is_some, includes,
  if◌then◌else◌, ◌++◌,
}

abbrev pub Dict {ℓ} : Type ℓ → Type ℓ
Dict V = List (String × V)

module _ {ℓ} {V : Type ℓ} where
  -- `o[k]`, `m.get(k)`
  unfoldable pub lookup : String → Dict V → Option V
  lookup k [] = none
  lookup k ((j, v) ∷ d) = if str_eq j k then some v else lookup k d

  -- `m.has(k)`
  abbrev pub has : String → Dict V → Bool
  has k d = is_some (lookup k d)

  -- `o[k] = v`, `m.set(k, v)`: a present key keeps its place.
  unfoldable pub set : String → V → Dict V → Dict V
  set k v [] = (k, v) ∷ []
  set k v ((j, w) ∷ d) = if str_eq j k then (j, v) ∷ d else (j, w) ∷ set k v d

  -- `delete o[k]`, `m.delete(k)`
  unfoldable pub delete : String → Dict V → Dict V
  delete k [] = []
  delete k ((j, w) ∷ d) = if str_eq j k then d else (j, w) ∷ delete k d

  unfoldable pub keys : Dict V → List String
  keys [] = []
  keys ((j, v) ∷ d) = j ∷ keys d

  unfoldable pub values : Dict V → List V
  values [] = []
  values ((j, v) ∷ d) = v ∷ values d

  -- `new Map(entries)`, and `entries.reduce((acc, [k, v]) => ({ ...acc, [k]: v }), d)`
  unfoldable pub set_all : Dict V → List (String × V) → Dict V
  set_all d [] = d
  set_all d ((k, v) ∷ es) = set_all (set k v d) es

-- `new Set(keys)`, on top of the members that are there.
unfoldable pub add_keys : List String → List String → List String
add_keys s [] = s
add_keys s (k ∷ ks) = add_keys (if includes k s then s else s ++ (k ∷ [])) ks
