-- ===== src/Dict/Laws.antt =====
-- What a lookup returns after each operation, and `dict.fromkeys`.
use docling_serve_ray.Prelude.{
  ◌≡◌, refl, ◌↔◌, ◌≢◌, true, false, not, ◌&&◌, none, some, List, [], ◌∷◌, arith, if◌then◌else◌,
}
use docling_serve_ray.Text.{Text, str_eq}
use docling_serve_ray.Text.Laws.{str_eq_iff, str_eq_refl}
use docling_serve_ray.Dict.{
  Dict, lookup, insert, erase, keys, has_key, set_default, get_or, contains, distinct_from,
  distinct,
}

module _ {ℓ} {V : Type ℓ} where
  pub lookup-insert :
      (k j : Text) (v : V) (d : Dict V)
      → lookup j (insert k v d) ≡ (if str_eq k j then some v else lookup j d)
  unfolding lookup insert
  lookup-insert k j v [] = refl
  lookup-insert k j v ((i, w) ∷ d) =
      ground (arith, str_eq_iff k j, str_eq_iff i k, str_eq_iff i j, lookup-insert k j v d)

  pub lookup-erase :
      (k j : Text) (d : Dict V) → lookup j (erase k d) ≡ (if str_eq k j then none else lookup j d)
  unfolding lookup erase
  lookup-erase k j [] = ground arith
  lookup-erase k j ((i, w) ∷ d) =
      ground (arith, str_eq_iff k j, str_eq_iff i k, str_eq_iff i j, lookup-erase k j d)

module _ {ℓ} {V : Type ℓ} where
  -- The first entry of a key stays.
  pub lookup-set_default :
      (k j : Text) (v : V) (d : Dict V)
      → lookup j (set_default k v d) ≡ (if str_eq k j then some (get_or k d v) else lookup j d)
  unfolding set_default has_key get_or
  lookup-set_default k j v d = ground (arith, lookup-insert k j v d, str_eq_iff k j)

  pub get_or-insert :
      (k j : Text) (v w : V) (d : Dict V)
      → get_or j (insert k v d) w ≡ (if str_eq k j then v else get_or j d w)
  unfolding get_or
  get_or-insert k j v w d = ground (arith, lookup-insert k j v d)

  pub has_key-insert :
      (k j : Text) (v : V) (d : Dict V)
      → has_key j (insert k v d) ≡ (if str_eq k j then true else has_key j d)
  unfolding has_key
  has_key-insert k j v d = ground (arith, lookup-insert k j v d)

  pub has_key_iff : (k : Text) (d : Dict V) → (has_key k d ≡ true) ↔ (lookup k d ≢ none)
  unfolding has_key
  has_key_iff k d = ground arith

  pub contains-keys : (k : Text) (d : Dict V) → contains k (keys d) ≡ has_key k d
  unfolding contains keys has_key
  contains-keys k [] = refl
  contains-keys k ((j, v) ∷ d) = ground (arith, contains-keys k d)

-- No key occurs twice.
abbrev pub IsDistinct : List Text → Type 0
IsDistinct [] = Unit
IsDistinct (k ∷ ks) = (contains k ks ≡ false) × IsDistinct ks

contains-distinct_from :
    (j : Text) (seen ks : List Text)
    → contains j (distinct_from seen ks) ≡ (not (contains j seen) && contains j ks)
unfolding contains distinct_from
contains-distinct_from j seen [] = ground arith
contains-distinct_from j seen (k ∷ ks) = ground (
  arith,
  contains-distinct_from j seen ks,
  contains-distinct_from j (k ∷ seen) ks,
  str_eq_iff k j,
)

distinct_from-IsDistinct : (seen ks : List Text) → IsDistinct (distinct_from seen ks)
unfolding contains distinct_from
distinct_from-IsDistinct seen [] = tt
distinct_from-IsDistinct seen (k ∷ ks) = ground (
  arith,
  distinct_from-IsDistinct seen ks,
  distinct_from-IsDistinct (k ∷ seen) ks,
  contains-distinct_from k (k ∷ seen) ks,
  str_eq_refl k,
)

pub distinct-IsDistinct : (ks : List Text) → IsDistinct (distinct ks)
unfolding distinct
distinct-IsDistinct ks = distinct_from-IsDistinct [] ks

pub contains-distinct : (j : Text) (ks : List Text) → contains j (distinct ks) ≡ contains j ks
unfolding distinct contains
contains-distinct j ks = ground (arith, contains-distinct_from j [] ks)
