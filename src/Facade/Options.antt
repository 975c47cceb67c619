-- ===== src/Facade/Options.antt =====
-- `build_convert_options` of facade/utils.py and `_parse_submission` of facade/main.py.
pub mod Laws
use docling_serve_ray.Prelude.{
  ℕ, Bool, true, false, ◌||◌, Option, none, some, List, [], ◌∷◌, ltb, if◌then◌else◌, length,
}
use docling_serve_ray.Text.{Text, codes, str_eq}
use docling_serve_ray.Dict.{Dict, insert, contains, distinct}
use docling_serve_ray.Facade.Schemas.{Bytes}

pub record UploadFile : Type 0 where
  pub filename : Option Text
  pub file : Bytes

-- A value of a multipart form.
pub data FormItem : Type 0 where
  field : Text → FormItem
  upload : UploadFile → FormItem

-- Starlette's FormData, by the three methods that are called.
pub record Form : Type 0 where
  pub keys : List Text
  pub getlist : Text → List FormItem
  pub get : Text → Option FormItem

-- The value of a conversion option: one item, or a list of them.
pub data OptionValue : Type 0 where
  single : FormItem → OptionValue
  many : List FormItem → OptionValue

abbrev pub intercepted_fields : List Text
intercepted_fields = codes "files" ∷ codes "target_type" ∷ []

abbrev pub array_fields : List Text
array_fields =
    codes "from_formats" ∷ codes "to_formats" ∷ codes "ocr_lang" ∷ codes "page_range" ∷ []

abbrev pub first_value : List FormItem → Option OptionValue
first_value [] = none
first_value (v ∷ vs) = some (single v)

-- `none` is the IndexError of `values[0]`.
unfoldable pub option_value : Text → List FormItem → Option OptionValue
option_value key values =
    if contains key array_fields || ltb 1 (length values)
    then some (many values)
    else first_value values

abbrev with_option :
    Option OptionValue → (OptionValue → Option (Dict OptionValue)) → Option (Dict OptionValue)
with_option none f = none
with_option (some v) f = f v

-- The loop over the keys.
unfoldable pub options_loop : Form → List Text → Dict OptionValue → Option (Dict OptionValue)
options_loop form [] options = some options
options_loop form (key ∷ keys) options =
    let skipped = options_loop form keys options in
    let kept =
      with_option (option_value key (form.getlist key))
        (λ v. options_loop form keys (insert key v options)) in
    if contains key intercepted_fields then skipped else kept

unfoldable pub build_convert_options : Form → Option (Dict OptionValue)
unfolding options_loop
build_convert_options form = options_loop form (distinct form.keys) []

-- `[f for f in items if isinstance(f, UploadFile)]`
unfoldable pub uploads : List FormItem → List UploadFile
uploads [] = []
uploads (field s ∷ items) = uploads items
uploads (upload f ∷ items) = f ∷ uploads items

-- `target_type == "zip"`, where a missing field is "inbody".
unfoldable pub wants_zip : Option FormItem → Bool
wants_zip none = false
wants_zip (some (field s)) = str_eq s (codes "zip")
wants_zip (some (upload f)) = false

abbrev parsed_with :
    Form → Option (Dict OptionValue) → Option (List UploadFile × Dict OptionValue × Bool)
parsed_with form none = none
parsed_with form (some options) =
    some
      (uploads (form.getlist (codes "files")), options, wants_zip (form.get (codes "target_type")))

unfoldable pub parse_submission : Form → Option (List UploadFile × Dict OptionValue × Bool)
unfolding build_convert_options uploads wants_zip
parse_submission form = parsed_with form (build_convert_options form)
