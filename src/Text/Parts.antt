-- ===== src/Text/Parts.antt =====
-- `rsplit` with a limit of 1: what stands before and after the last separator.
use docling_serve_ray.Prelude.{
  ℕ, ◌≡◌, refl, ap, false, Option, none, some, [], ◌∷◌, ◌++◌, arith, ◌||◌, Option-cases, inl, inr,
}
use docling_serve_ray.Text.{Text, has_char, split_step, split_last, last_part, first_part}

pub split_last-eq-none : (c : ℕ) (s : Text) → split_last c s ≡ none → has_char c s ≡ false
unfolding split_last has_char
split_last-eq-none c [] h = refl
split_last-eq-none c (d ∷ s) h = ground (arith, split_last-eq-none c s)

pub split_last_of_not_has : (c : ℕ) (s : Text) → has_char c s ≡ false → split_last c s ≡ none
unfolding split_last has_char
split_last_of_not_has c [] h = refl
split_last_of_not_has c (d ∷ s) h = ground (arith, split_last_of_not_has c s)

split_step_sound :
    (c d : ℕ) (s : Text) (o : Option (Text × Text)) (a b : Text)
    → (o ≡ none → has_char c s ≡ false)
    → ((x y : Text) → o ≡ some (x, y) → (s ≡ x ++ c ∷ y) × (has_char c y ≡ false))
    → split_step c d s o ≡ some (a, b)
    → (d ∷ s ≡ a ++ c ∷ b) × (has_char c b ≡ false)
split_step_sound c d s none a b p q h = ground (arith, p refl)
split_step_sound c d s (some (x, y)) a b p q h =
    let e : d ∷ x ≡ a = ground arith in
    let e' : y ≡ b = ground arith in rw (← e, ← e') (ap (λ l. d ∷ l) (q x y refl).0, (q x y refl).1)

-- The two parts and the separator make up the text, and the last part has no separator.
pub split_last_sound :
    (c : ℕ) (s a b : Text)
    → split_last c s ≡ some (a, b)
    → (s ≡ a ++ c ∷ b) × (has_char c b ≡ false)
unfolding split_last
split_last_sound c [] a b h = cc
split_last_sound c (d ∷ s) a b h =
    split_step_sound c d s (split_last c s) a b (split_last-eq-none c s) (split_last_sound c s) h

pub split_last-append :
    (c : ℕ) (a b : Text) → has_char c b ≡ false → split_last c (a ++ c ∷ b) ≡ some (a, b)
unfolding split_last
split_last-append c [] b h = rw (split_last_of_not_has c b h) (ground arith)
split_last-append c (d ∷ a) b h = rw (split_last-append c a b h)

pub last_part_of_split_none : (c : ℕ) (s : Text) → split_last c s ≡ none → last_part c s ≡ s
unfolding last_part
last_part_of_split_none c s h = rw (last_part, h)

pub last_part_of_split : (c : ℕ) (s a b : Text) → split_last c s ≡ some (a, b) → last_part c s ≡ b
unfolding last_part
last_part_of_split c s a b h = rw (last_part, h)

pub last_part_of_not_has : (c : ℕ) (s : Text) → has_char c s ≡ false → last_part c s ≡ s
unfolding last_part
last_part_of_not_has c s h = rw (last_part, split_last_of_not_has c s h)

pub last_part-append : (c : ℕ) (a b : Text) → has_char c b ≡ false → last_part c (a ++ c ∷ b) ≡ b
unfolding last_part
last_part-append c a b h = rw (last_part, split_last-append c a b h)

pub first_part-append : (c : ℕ) (a b : Text) → has_char c b ≡ false → first_part c (a ++ c ∷ b) ≡ a
unfolding first_part
first_part-append c a b h = rw (first_part, split_last-append c a b h)

pub has_char-append : (c : ℕ) (s t : Text) → has_char c (s ++ t) ≡ (has_char c s || has_char c t)
unfolding has_char
has_char-append c [] t = refl
has_char-append c (d ∷ s) t = ground (arith, has_char-append c s t)

-- A part has no character that the text lacks.
pub has_char-last_part :
    (c d : ℕ) (s : Text) → has_char c s ≡ false → has_char c (last_part d s) ≡ false
has_char-last_part c d s h = elim (Option-cases (split_last d s)) [
  | inl whole ↦ rw (last_part_of_split_none d s whole) h
  | inr ((a, b), found) ↦
      let parts = split_last_sound d s a b found in
      rw (last_part_of_split d s a b found)
        (unfold has_char in ground (arith, has_char-append c a (d ∷ b), ap (has_char c) parts.0))
]

-- The part before the first separator is determined.
pub first_segment_unique :
    (c : ℕ) (r s x y : Text)
    → has_char c r ≡ false
    → has_char c s ≡ false
    → r ++ c ∷ x ≡ s ++ c ∷ y
    → r ≡ s
unfolding has_char
first_segment_unique c [] [] x y h k e = refl
first_segment_unique c [] (d ∷ s) x y h k e = absurd (ground arith)
first_segment_unique c (d ∷ r) [] x y h k e = absurd (ground arith)
first_segment_unique c (d ∷ r) (e' ∷ s) x y h k e =
    let heads : d ≡ e' = ground arith in
    let tails : r ++ c ∷ x ≡ s ++ c ∷ y = ground arith in
    cc (heads, first_segment_unique c r s x y (ground arith) (ground arith) tails)
