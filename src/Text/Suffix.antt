-- ===== src/Text/Suffix.antt =====
-- Tables of suffixes, scanned for the first entry that a name ends with.
use docling_serve_ray.Prelude.{
  ℕ, ◌+◌, ◌-◌, ◌≤◌, ◌≡◌, sym, ap, ◌∙◌, Bool, true, false, Option, none, some, List, [], ◌∷◌, ◌++◌,
  arith, length, drop, length-append, Bool-cases, inl, inr, All, take, not, ◌&&◌, suc, leb, leb→le,
  append_assoc, if◌then◌else◌,
}
use docling_serve_ray.Text.{Text, codes, ends_with, drop_last}
use docling_serve_ray.Text.Laws.{ends_with-append, ends_with_split, drop_last-append}

-- `for suffix, name in table: if key.endswith(suffix): return`, with the entry that matches.
unfoldable pub find_suffix : List (Text × Text) → Text → Option (Text × Text)
find_suffix [] key = none
find_suffix ((suffix, name) ∷ table) key =
    if ends_with key suffix then some (suffix, name) else find_suffix table key

drop-append_add : (s e : Text) (k : ℕ) → drop (length s + k) (s ++ e) ≡ drop k e
drop-append_add [] e k = let z : 0 + k ≡ k = omega arith in rw z
drop-append_add (c ∷ s) e k =
    let z : suc (length s) + k ≡ suc (length s + k) = omega arith in rw z (drop-append_add s e k)

-- A suffix that is no longer than `e` is tested on `e` alone.
ends_with-append_of_le : (s e f : Text) → length f ≤ length e → ends_with (s ++ e) f ≡ ends_with e f
unfolding ends_with
ends_with-append_of_le s e f h =
    let skip : length (s ++ e) - length f ≡ length s + (length e - length f) =
      omega (arith, length-append s e) in
    rw (skip, drop-append_add s e (length e - length f))

-- Of two suffixes of one text the shorter is a suffix of the longer.
suffix-suffix :
    (key e f : Text)
    → ends_with key e ≡ true
    → ends_with key f ≡ true
    → length f ≤ length e
    → ends_with e f ≡ true
suffix-suffix key e f h k le =
    sym (ends_with-append_of_le (drop_last (length e) key) e f le)
    ∙ ap (λ t. ends_with t f) (ends_with_split key e h)
    ∙ k

-- A text with one suffix does not have another, if neither is a suffix of the other.
ends_with_exclusive :
    (stem e f : Text)
    → ends_with e f ≡ false
    → ends_with f e ≡ false
    → ends_with (stem ++ e) f ≡ false
ends_with_exclusive stem e f h k = elim (Bool-cases (ends_with (stem ++ e) f)) [
  | inr differs ↦ differs
  | inl both ↦ elim (Bool-cases (leb (length f) (length e))) [
    | inl shorter ↦
        cc (suffix-suffix (stem ++ e) e f (ends_with-append stem e) both (leb→le _ _ shorter), h)
    | inr longer ↦
        cc (suffix-suffix (stem ++ e) f e both (ends_with-append stem e) (ground arith), k)
  ]
]

text_of_doctags :
    (stem : Text)
    → ends_with (stem ++ codes ".txt") (codes ".doctags.txt") ≡ true
    → ends_with stem (codes ".doctags") ≡ true
text_of_doctags stem h =
    let d = drop_last 12 (stem ++ codes ".txt") in
    let same : stem ++ codes ".txt" ≡ (d ++ codes ".doctags") ++ codes ".txt" =
      sym (ends_with_split _ _ h) ∙ sym (append_assoc d (codes ".doctags") (codes ".txt")) in
    let stems : stem ≡ d ++ codes ".doctags" =
      sym (drop_last-append stem (codes ".txt"))
      ∙ ap (drop_last 4) same
      ∙ drop_last-append (d ++ codes ".doctags") (codes ".txt") in
    rw stems (ends_with-append d (codes ".doctags"))

pub text_not_doctags :
    (stem : Text)
    → ends_with stem (codes ".doctags") ≡ false
    → ends_with (stem ++ codes ".txt") (codes ".doctags.txt") ≡ false
text_not_doctags stem h =
    elim (Bool-cases (ends_with (stem ++ codes ".txt") (codes ".doctags.txt"))) [
      | inr differs ↦ differs
      | inl both ↦ cc (text_of_doctags stem both, h)
    ]

abbrev pub IsExclusive : Text → Text → Type 0
IsExclusive e f = (ends_with e f ≡ false) × (ends_with f e ≡ false)

pub All-exclusive :
    (stem suffix : Text) (table : List (Text × Text))
    → All (λ e. IsExclusive suffix e.0) table
    → All (λ e. ends_with (stem ++ suffix) e.0 ≡ false) table
All-exclusive stem suffix [] h = tt
All-exclusive stem suffix ((f, fmt) ∷ table) ((h, k), hs) =
    (ends_with_exclusive stem suffix f h k, All-exclusive stem suffix table hs)

-- The loop stops at an entry that matches, if none before it does.
pub find_suffix-append :
    (before after : List (Text × Text)) (stem suffix fmt : Text)
    → All (λ e. ends_with (stem ++ suffix) e.0 ≡ false) before
    → find_suffix (before ++ (suffix, fmt) ∷ after) (stem ++ suffix) ≡ some (suffix, fmt)
unfolding find_suffix
find_suffix-append [] after stem suffix fmt h = rw (ends_with-append stem suffix)
find_suffix-append ((f, g) ∷ before) after stem suffix fmt (h, hs) =
    rw h (find_suffix-append before after stem suffix fmt hs)

-- That no entry can be confused with the suffix, as a test.
unfoldable pub is_clear : Text → List (Text × Text) → Bool
is_clear e [] = true
is_clear e ((f, fmt) ∷ table) = not (ends_with e f) && not (ends_with f e) && is_clear e table

pub clear :
    (e : Text) (table : List (Text × Text))
    → is_clear e table ≡ true
    → All (λ x. IsExclusive e x.0) table
unfolding is_clear
clear e [] h = tt
clear e ((f, fmt) ∷ table) h = ground (arith, clear e table)

-- Whatever the stem, an entry that no earlier entry can be confused with is found.
pub find_suffix-nth :
    (k : ℕ) (table : List (Text × Text)) (stem suffix name : Text)
    → take k table ++ (suffix, name) ∷ drop (suc k) table ≡ table
    → is_clear suffix (take k table) ≡ true
    → find_suffix table (stem ++ suffix) ≡ some (suffix, name)
find_suffix-nth k table stem suffix name e h =
    ap (λ t. find_suffix t (stem ++ suffix)) (sym e)
    ∙ find_suffix-append (take k table) (drop (suc k) table) stem suffix name
        (All-exclusive stem suffix (take k table) (clear suffix (take k table) h))

-- The last entry of a table that begins with ".doctags.txt" may be ".txt".
pub find_suffix-txt :
    (doctags text : Text) (others : List (Text × Text)) (stem : Text)
    → ends_with stem (codes ".doctags") ≡ false
    → is_clear (codes ".txt") others ≡ true
    → find_suffix
        (((codes ".doctags.txt", doctags) ∷ others) ++ (codes ".txt", text) ∷ [])
        (stem ++ codes ".txt")
      ≡ some (codes ".txt", text)
find_suffix-txt doctags text others stem h c =
    find_suffix-append ((codes ".doctags.txt", doctags) ∷ others) [] stem (codes ".txt") text (
      text_not_doctags stem h,
      All-exclusive stem (codes ".txt") others (clear (codes ".txt") others c),
    )
