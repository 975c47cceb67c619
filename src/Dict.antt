-- ===== src/Dict.antt =====
-- Python's dict with text keys, in insertion order: an association list.
pub mod Laws
use docling_serve_ray.Prelude.{Bool, true, false, Option, none, some, List, [], ◌∷◌, if◌then◌else◌}
use docling_serve_ray.Text.{Text, str_eq}

abbrev pub Dict {ℓ} : Type ℓ → Type ℓ
Dict V = List (Text × V)

module _ {ℓ} {V : Type ℓ} where
  -- `d.get(k)`
  unfoldable pub lookup : Text → Dict V → Option V
  lookup k [] = none
  lookup k ((j, v) ∷ d) = if str_eq j k then some v else lookup k d

  -- `d[k] = v`: an old key keeps its place.
  unfoldable pub insert : Text → V → Dict V → Dict V
  insert k v [] = (k, v) ∷ []
  insert k v ((j, w) ∷ d) = if str_eq j k then (j, v) ∷ d else (j, w) ∷ insert k v d

  -- `d.pop(k, None)`
  unfoldable pub erase : Text → Dict V → Dict V
  erase k [] = []
  erase k ((j, w) ∷ d) = let rest = erase k d in if str_eq j k then rest else (j, w) ∷ rest

  -- `list(d)`
  unfoldable pub keys : Dict V → List Text
  keys [] = []
  keys ((k, v) ∷ d) = k ∷ keys d

module _ {ℓ} {V : Type ℓ} where
  -- `k in d`
  unfoldable pub has_key : Text → Dict V → Bool
  unfolding lookup
  has_key k d = elim (lookup k d) [ none ↦ false | some v ↦ true ]

  -- `d.setdefault(k, v)`, as a statement
  unfoldable pub set_default : Text → V → Dict V → Dict V
  unfolding insert
  set_default k v d = if has_key k d then d else insert k v d

  -- `d.get(k, v)`
  unfoldable pub get_or : Text → Dict V → V → V
  unfolding lookup
  get_or k d v = elim (lookup k d) [ none ↦ v | some w ↦ w ]

-- `k in list`
unfoldable pub contains : Text → List Text → Bool
contains k [] = false
contains k (j ∷ ks) = if str_eq j k then true else contains k ks

-- The loop of `dict.fromkeys`: a key that was seen is skipped.
unfoldable pub distinct_from : List Text → List Text → List Text
distinct_from seen [] = []
distinct_from seen (k ∷ ks) =
    let rest = distinct_from (k ∷ seen) ks in
    let same = distinct_from seen ks in if contains k seen then same else k ∷ rest

-- `list(dict.fromkeys(ks))`: the keys without repetition, each where it stood first.
unfoldable pub distinct : List Text → List Text
unfolding distinct_from
distinct ks = distinct_from [] ks
