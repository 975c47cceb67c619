-- ===== src/Text/Order.antt =====
-- Python's order on texts and `sorted`, as a stable insertion sort.
use mathlib.Core.List.Perm
use mathlib.Core.List.{Perm}
use docling_serve_ray.Prelude.{
  ◌≡◌, refl, inl, inr, Bool, true, false, List, [], ◌∷◌, arith, ltb, ◌==◌, if◌then◌else◌, All,
  Bool-cases,
}
use docling_serve_ray.Text.{Text}

-- `s <= t`
unfoldable pub text_le : Text → Text → Bool
text_le [] t = true
text_le (c ∷ s) [] = false
text_le (c ∷ s) (d ∷ t) = if ltb c d then true else if c == d then text_le s t else false

unfoldable pub insert_sorted : Text → List Text → List Text
insert_sorted t [] = t ∷ []
insert_sorted t (u ∷ us) = if text_le t u then t ∷ u ∷ us else u ∷ insert_sorted t us

-- `sorted(texts)`
unfoldable pub sorted : List Text → List Text
unfolding insert_sorted text_le
sorted [] = []
sorted (t ∷ ts) = insert_sorted t (sorted ts)

abbrev pub AllAbove : Text → List Text → Type 0
AllAbove t = All (λ u. text_le t u ≡ true)

abbrev pub IsSorted : List Text → Type 0
IsSorted [] = Unit
IsSorted (t ∷ ts) = AllAbove t ts × IsSorted ts

text_le_total : (s t : Text) → text_le s t ≡ false → text_le t s ≡ true
unfolding text_le
text_le_total [] t h = cc
text_le_total (c ∷ s) [] h = refl
text_le_total (c ∷ s) (d ∷ t) h = ground (arith, text_le_total s t)

text_le_trans : (s t u : Text) → text_le s t ≡ true → text_le t u ≡ true → text_le s u ≡ true
unfolding text_le
text_le_trans [] t u h k = refl
text_le_trans (c ∷ s) [] u h k = cc
text_le_trans (c ∷ s) (d ∷ t) [] h k = cc
text_le_trans (c ∷ s) (d ∷ t) (e ∷ u) h k = ground (arith, text_le_trans s t u)

AllAbove-trans : (s t : Text) (ts : List Text) → text_le s t ≡ true → AllAbove t ts → AllAbove s ts
AllAbove-trans s t [] h a = tt
AllAbove-trans s t (u ∷ us) h (p, ps) = (text_le_trans s t u h p, AllAbove-trans s t us h ps)

AllAbove-insert_sorted :
    (s t : Text) (ts : List Text)
    → text_le s t ≡ true
    → AllAbove s ts
    → AllAbove s (insert_sorted t ts)
unfolding insert_sorted
AllAbove-insert_sorted s t [] h a = (h, tt)
AllAbove-insert_sorted s t (u ∷ us) h (p, ps) = ground (arith, AllAbove-insert_sorted s t us h ps)

insert_sorted-IsSorted : (t : Text) (ts : List Text) → IsSorted ts → IsSorted (insert_sorted t ts)
unfolding insert_sorted
insert_sorted-IsSorted t [] h = (tt, tt)
insert_sorted-IsSorted t (u ∷ us) (a, h) = ground (
  arith,
  text_le_total t u,
  AllAbove-trans t u us,
  AllAbove-insert_sorted u t us,
  insert_sorted-IsSorted t us h,
)

pub sorted-IsSorted : (ts : List Text) → IsSorted (sorted ts)
unfolding sorted
sorted-IsSorted [] = tt
sorted-IsSorted (t ∷ ts) = insert_sorted-IsSorted t (sorted ts) (sorted-IsSorted ts)

Perm-insert_sorted : (t : Text) (ts : List Text) → Perm (insert_sorted t ts) (t ∷ ts)
unfolding insert_sorted
Perm-insert_sorted t [] = Perm.refl _
Perm-insert_sorted t (u ∷ us) = elim (Bool-cases (text_le t u)) [
  | inl before ↦ rw before (Perm.refl _)
  | inr after ↦ rw after (Perm.trans (Perm.cons u (Perm-insert_sorted t us)) (Perm.swap t u us))
]

pub Perm-sorted : (ts : List Text) → Perm (sorted ts) ts
unfolding sorted
Perm-sorted [] = Perm.refl _
Perm-sorted (t ∷ ts) = Perm.trans (Perm-insert_sorted t (sorted ts)) (Perm.cons t (Perm-sorted ts))
