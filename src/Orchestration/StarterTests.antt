-- ===== src/Orchestration/StarterTests.antt =====
-- A run of the starter: two objects, of which one is already being converted.
use docling_serve_ray.Prelude.{ℕ, zero, suc, ◌≡◌, refl, true, Option, none, some, List, [], ◌∷◌}
use docling_serve_ray.Text.{Text, codes, str_eq, ends_with, has_char}
use docling_serve_ray.Dict.{Dict, insert, lookup, contains}
use docling_serve_ray.Orchestration.Models.{ConvertResult, ConvertInput, workflow_id_for_convert}
use docling_serve_ray.Orchestration.Starter.{
  Args, Started, handle, already_started, finished, Client, list_objects, objects, start_all,
  start_conversion, add_handle, await_all, convert, parse_formats, split_commas, strip_left,
  strip_right, is_space,
}
use docling_serve_ray.Orchestration.Starter.Handles.{convert-each, workflow_id_for_convert_inj}

abbrev args : Args
args = record {
  bucket = codes "in";
  prefix = codes "p/";
  to_formats = codes "md, json";
  wait = true;
}

abbrev pages : List (Option (List Text))
pages = some (codes "p/" ∷ codes "p/a" ∷ []) ∷ none ∷ some (codes "p/b" ∷ []) ∷ []

abbrev converted : ConvertResult
converted = record {
  task_id = codes "t";
  outputs = [];
  output_bucket = codes "out";
  submissions = 1;
  safety_polls = 0;
}

abbrev start_first : Text → Text → ConvertInput → ℕ → Started ℕ × ℕ
start_first id queue inp zero = (handle 7, 1)
start_first id queue inp (suc n) = (already_started, suc n)

abbrev client : Client ℕ ℕ
client = record {
  start_workflow = start_first;
  get_workflow_handle = λ id. 8;
  result = λ h w. (finished converted, suc w);
}

formats_of_args : parse_formats (split_commas args.to_formats) ≡ codes "md" ∷ codes "json" ∷ []
unfolding parse_formats split_commas strip_left strip_right is_space
formats_of_args = refl

convert_zero : convert client args pages 0 ≡ (some 0, 3)
unfolding convert list_objects objects start_all start_conversion add_handle await_all insert str_eq
    ends_with workflow_id_for_convert parse_formats split_commas strip_left strip_right is_space
convert_zero = refl

convert-each_example :
    (handles : Dict ℕ) × (started : ℕ) × ((start_all client
        (codes "in")
        (parse_formats (split_commas (codes "md, json")))
        (list_objects pages)
        []
        0
        0).0
      ≡ some (handles, started))
    × (h : ℕ) × (v : ℕ) × (r : ConvertResult) × (lookup (codes "p/b") handles ≡ some h)
    × ((client.result h v).0 ≡ finished r)
unfolding list_objects objects contains str_eq ends_with
convert-each_example = convert-each client args pages 0 3 (codes "p/b") refl convert_zero refl

workflow_id_for_convert_inj_example :
    ◌≡◌ {A = Text} (codes "in") (codes "in") × ◌≡◌ {A = Text} (codes "a/b.pdf") (codes "a/b.pdf")
unfolding has_char
workflow_id_for_convert_inj_example =
    workflow_id_for_convert_inj (codes "in") (codes "in") (codes "a/b.pdf") (codes "a/b.pdf") refl
      refl refl
