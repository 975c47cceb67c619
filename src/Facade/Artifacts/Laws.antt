-- ===== src/Facade/Artifacts/Laws.antt =====
-- Keys that the converter writes are parsed back into their parts.
use docling_serve_ray.Prelude.{
  ℕ, ◌≡◌, refl, ap, ◌∙◌, true, false, some, [], ◌∷◌, ◌++◌, arith, All, take, drop, drop-append_self,
  append_assoc, suc,
}
use docling_serve_ray.Text.{Text, codes, ends_with, has_char, last_part}
use docling_serve_ray.Text.Laws.{starts_with-append, drop_last-append}
use docling_serve_ray.Text.Parts.{last_part_of_not_has, last_part-append, has_char-append}
use docling_serve_ray.Text.Suffix.{find_suffix, is_clear, find_suffix-nth, find_suffix-txt}
use docling_serve_ray.Facade.Artifacts.{extension_to_field, parse_artifact_key}

-- The directories between the prefix and the file: none, or some that end in "/".
pub data IsDirectory : Text → Type 0 where
  here : IsDirectory []
  below : (d : Text) → IsDirectory (d ++ b'/' ∷ [])

last_part_of_directory :
    (d name : Text) → IsDirectory d → has_char b'/' name ≡ false → last_part b'/' (d ++ name) ≡ name
last_part_of_directory _ name here h = last_part_of_not_has b'/' name h
last_part_of_directory _ name (below d) h =
    ap (last_part b'/') (append_assoc d (b'/' ∷ []) name) ∙ last_part-append b'/' d name h

parse_artifact_key_found :
    (prefix d stem ext field : Text)
    → IsDirectory d
    → has_char b'/' (stem ++ ext) ≡ false
    → find_suffix extension_to_field (stem ++ ext) ≡ some (ext, field)
    → parse_artifact_key prefix (prefix ++ (d ++ (stem ++ ext))) ≡ some (ext, field, stem)
unfolding parse_artifact_key
parse_artifact_key_found prefix d stem ext field at_d h e = rw (
  starts_with-append prefix (d ++ (stem ++ ext)),
  drop-append_self prefix (d ++ (stem ++ ext)),
  last_part_of_directory d (stem ++ ext) at_d h,
  e,
  drop_last-append stem ext,
)

-- The name of a file of the converter: one of the table's suffixes behind a stem.
parse_artifact_key_of_suffix :
    (prefix d stem ext field : Text)
    → IsDirectory d
    → has_char b'/' stem ≡ false
    → has_char b'/' ext ≡ false
    → find_suffix extension_to_field (stem ++ ext) ≡ some (ext, field)
    → parse_artifact_key prefix (prefix ++ (d ++ (stem ++ ext))) ≡ some (ext, field, stem)
parse_artifact_key_of_suffix prefix d stem ext field at_d h k e =
    parse_artifact_key_found prefix d stem ext field at_d
      (has_char-append b'/' stem ext ∙ ground arith) e

-- A listed key is read back into its parts: behind the prefix and any directories, a file whose
-- name is a stem and one of the six suffixes gives that suffix, its field and that stem, if the stem
-- has no "/" and does not end in ".doctags".
pub parse_artifact_key_roundtrip :
    (prefix d stem : Text)
    → IsDirectory d
    → has_char b'/' stem ≡ false
    → ends_with stem (codes ".doctags") ≡ false
    → All
        (λ e. parse_artifact_key prefix (prefix ++ (d ++ (stem ++ e.0))) ≡ some (e.0, e.1, stem))
        extension_to_field
unfolding is_clear ends_with has_char
parse_artifact_key_roundtrip prefix d stem at_d h k =
    let nth : (n : ℕ) (ext field : Text)
        → has_char b'/' ext ≡ false
        → take n extension_to_field ++ (ext, field) ∷ drop (suc n) extension_to_field
          ≡ extension_to_field
        → is_clear ext (take n extension_to_field) ≡ true
        → parse_artifact_key prefix (prefix ++ (d ++ (stem ++ ext))) ≡ some (ext, field, stem) =
      λ n ext field s e c.
        parse_artifact_key_of_suffix prefix d stem ext field at_d h s
          (find_suffix-nth n extension_to_field stem ext field e c) in
    (
      nth 0 (codes ".doctags.txt") (codes "doctags_content") refl refl refl,
      (
        nth 1 (codes ".json") (codes "json_content") refl refl refl,
        (
          nth 2 (codes ".md") (codes "md_content") refl refl refl,
          (
            nth 3 (codes ".html") (codes "html_content") refl refl refl,
            (
              nth 4 (codes ".dclg") (codes "doclang_content") refl refl refl,
              (
                parse_artifact_key_of_suffix prefix d stem (codes ".txt") (codes "text_content")
                    at_d h refl
                    (find_suffix-txt (codes "doctags_content") (codes "text_content")
                      (drop 1 (take 5 extension_to_field)) stem k refl),
                tt,
              ),
            ),
          ),
        ),
      ),
    )
