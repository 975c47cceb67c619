-- ===== src/Orchestration/Activities/Format.antt =====
-- `format_of` against an independent reading: the format of a name is that of its extension.
use docling_serve_ray.Prelude.{
  ℕ, ◌≡◌, refl, sym, ap, ◌∙◌, ◌↔◌, true, false, some, ◌∷◌, ◌++◌, arith, drop, inl, inr,
  Option-cases, All, take, suc,
}
use docling_serve_ray.Text.{Text, codes, ends_with, drop_last, has_char, last_part, split_last}
use docling_serve_ray.Text.Laws.{ends_with-append, ends_with_split}
use docling_serve_ray.Text.Parts.{
  split_last-eq-none, split_last_sound, has_char-last_part, last_part_of_split,
}
use docling_serve_ray.Text.Suffix.{find_suffix, is_clear, find_suffix-nth, find_suffix-txt}
use docling_serve_ray.Orchestration.Activities.{suffix_to_format, fallback_format, format_of}

format_of_found :
    (key suffix fmt : Text)
    → find_suffix suffix_to_format key ≡ some (suffix, fmt)
    → format_of key ≡ fmt
unfolding format_of
format_of_found key suffix fmt h = rw (format_of, h)

format_of-nth :
    (k : ℕ) (stem suffix fmt : Text)
    → take k suffix_to_format ++ (suffix, fmt) ∷ drop (suc k) suffix_to_format ≡ suffix_to_format
    → is_clear suffix (take k suffix_to_format) ≡ true
    → format_of (stem ++ suffix) ≡ fmt
format_of-nth k stem suffix fmt e h =
    format_of_found (stem ++ suffix) suffix fmt
      (find_suffix-nth k suffix_to_format stem suffix fmt e h)

format_of-txt :
    (stem : Text)
    → ends_with stem (codes ".doctags") ≡ false
    → format_of (stem ++ codes ".txt") ≡ codes "text"
unfolding is_clear ends_with
format_of-txt stem h = format_of_found (stem ++ codes ".txt") (codes ".txt") (codes "text") (
    find_suffix-txt (codes "doctags") (codes "text") (drop 1 (take 6 suffix_to_format)) stem h refl)

-- The order of the table is right: a name with one of the seven suffixes has that suffix's format,
-- whatever stands before the suffix, as long as that does not itself end in ".doctags".
pub format_of-suffix :
    (stem : Text)
    → ends_with stem (codes ".doctags") ≡ false
    → All (λ e. format_of (stem ++ e.0) ≡ e.1) suffix_to_format
unfolding is_clear ends_with
format_of-suffix stem h = (
  format_of-nth 0 stem (codes ".doctags.txt") (codes "doctags") refl refl,
  (
    format_of-nth 1 stem (codes ".chunks.jsonl") (codes "chunks") refl refl,
    (
      format_of-nth 2 stem (codes ".json") (codes "json") refl refl,
      (
        format_of-nth 3 stem (codes ".md") (codes "md") refl refl,
        (
          format_of-nth 4 stem (codes ".html") (codes "html") refl refl,
          (
            format_of-nth 5 stem (codes ".dclg") (codes "doclang") refl refl,
            (format_of-txt stem h, tt),
          ),
        ),
      ),
    ),
  ),
)

fallback_of_extension :
    (key : Text)
    → fallback_format key ≡ codes "json"
    → (has_char b'.' (last_part b'/' key) ≡ true) × (last_part b'.' key ≡ codes "json")
unfolding fallback_format
fallback_of_extension key h = ground arith

-- A fallback name "json" is an extension ".json".
fallback-json :
    (key : Text) → fallback_format key ≡ codes "json" → ends_with key (codes ".json") ≡ true
fallback-json key h = elim (Option-cases (split_last b'.' key)) [
  | inl missing ↦ cc (
    (fallback_of_extension key h).0,
    has_char-last_part b'.' b'/' key (split_last-eq-none b'.' key missing),
  )
  | inr ((a, b), found) ↦
      let b_is_json : b ≡ codes "json" =
        sym (last_part_of_split b'.' key a b found) ∙ (fallback_of_extension key h).1 in
      let key_is : key ≡ a ++ codes ".json" =
        (split_last_sound b'.' key a b found).0 ∙ ap (λ t. a ++ b'.' ∷ t) b_is_json in
      ap (λ t. ends_with t (codes ".json")) key_is ∙ ends_with-append a (codes ".json")
]

format_of_json : (key : Text) → ends_with key (codes ".json") ≡ true → format_of key ≡ codes "json"
unfolding is_clear ends_with
format_of_json key h =
    ap format_of (sym (ends_with_split key (codes ".json") h))
    ∙ format_of-nth 2 (drop_last 5 key) (codes ".json") (codes "json") refl refl

-- Exactly the names that end in ".json" have the format "json".
pub format_of-json_iff :
    (key : Text) → (format_of key ≡ codes "json") ↔ (ends_with key (codes ".json") ≡ true)
unfolding format_of
format_of-json_iff key = (λ h. ground (arith, fallback-json key), format_of_json key)
