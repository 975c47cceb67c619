-- ===== src/Orchestration/RequestTests.antt =====
-- The activities and the requests at concrete inputs, and the theorems applied to them.
use docling_serve_ray.Prelude.{
  ℕ, ◌≤◌, ◌≡◌, ◌≢◌, refl, ◌↔◌, ◌⊎◌, Bool, true, false, Option, none, some, List, [], ◌∷◌, ◌++◌,
  arith, All, any, ◌<◌, leb, ◌&&◌,
}
use docling_serve_ray.Text.{Text, codes, ends_with, starts_with, str_eq}
use docling_serve_ray.Text.Laws.{str_eq_iff}
use docling_serve_ray.Text.Order.{sorted, insert_sorted, text_le}
use docling_serve_ray.Text.Suffix.{find_suffix}
use docling_serve_ray.Dict.{has_key, get_or, contains}
use docling_serve_ray.Result.{ok, err}
use docling_serve_ray.Json
use docling_serve_ray.Json.{Json, field, end, obj}
use docling_serve_ray.Http.{Request, Response, IsHttpx, HttpResult, response}
use docling_serve_ray.Orchestration.Models.{
  task_lost, queue_full, upstream_error, submit_rejected, success, CollectOutputsInput,
  TaskCompleted, CollectedOutputs,
}
use docling_serve_ray.Orchestration.Client.{
  utf8, utf8_char, quote, quote_bytes, quote_byte, is_unreserved, hex_digit, convert_output_prefix,
  build_batch_convert_body, s3_coords,
}
use docling_serve_ray.Orchestration.Activities.{
  application_error, raise_for_upstream_status, check_task, format_of, suffix_to_format, list_keys,
  Activity,
}
use docling_serve_ray.Orchestration.Activities.Format.{format_of-suffix, format_of-json_iff}
use docling_serve_ray.Orchestration.Activities.Laws.{
  raise_for_upstream_status_lem, check_task-lost_iff,
}
use docling_serve_ray.Orchestration.Activities.Collect.{
  collect_outputs, of_format, collect_outputs_lem,
}
use docling_serve_ray.Orchestration.Activities.Target.{target, collect_outputs-target}
use docling_serve_ray.Orchestration.Tests.{settings}

abbrev workflow_id : Text
workflow_id = codes "convert:in/a b.pdf"

quoted : quote workflow_id ≡ codes "convert%3Ain%2Fa%20b.pdf"
unfolding quote quote_bytes quote_byte is_unreserved hex_digit utf8 utf8_char
quoted = refl

-- A response with a status and a body.
abbrev reply : ℕ → Option Json → Response
reply code body = record {
  status_code = code;
  is_error = leb 400 code && leb code 599;
  is_server_error = leb 500 code && leb code 599;
  content = [];
  content_type = none;
  json = body;
}

reply-IsHttpx : (code : ℕ) (body : Option Json) → IsHttpx (reply code body)
reply-IsHttpx code body = record { error_iff = ground arith; server_error_iff = ground arith }

raise_for_upstream_status_lem_example :
    ((raise_for_upstream_status (reply 503 none) ≡ err (application_error queue_full false))
      ↔ ◌≡◌ {A = ℕ} 503 429)
    × ((raise_for_upstream_status (reply 503 none) ≡ err (application_error upstream_error false))
        ↔ ((500 ≤ 503) × (503 ≤ 599)))
    × ((raise_for_upstream_status (reply 503 none) ≡ err (application_error submit_rejected true))
        ↔ ((400 ≤ 503) × (503 ≤ 499) × ◌≢◌ {A = ℕ} 503 429))
    × ((raise_for_upstream_status (reply 503 none) ≡ ok tt) ↔ ((503 < 400) ⊎ (600 ≤ 503)))
raise_for_upstream_status_lem_example =
    raise_for_upstream_status_lem (reply 503 none) (reply-IsHttpx 503 none)

check_task-lost_iff_example :
    (check_task settings (λ _. response (reply 404 none)) (codes "t1")
      ≡ err (application_error task_lost true))
    ↔ ◌≡◌ {A = ℕ} 404 404
check_task-lost_iff_example =
    check_task-lost_iff settings (λ _. response (reply 404 none)) (codes "t1") (reply 404 none) refl
      (reply-IsHttpx 404 none)

abbrev success_body : Json
success_body = obj (field (codes "task_status") (Json.str (codes "success")) end)

abbrev t1_succeeded : TaskCompleted
t1_succeeded = record { task_id = codes "t1"; task_status = success; error_message = none }

abbrev answer_success : Request → HttpResult
answer_success _ = response (reply 200 (some success_body))

check_task_success : check_task settings answer_success (codes "t1") ≡ ok (some t1_succeeded)
unfolding check_task Json.index Json.get Json.find_field Json.as_text_or_none str_eq
check_task_success = refl

format_of-suffix_example : All (λ e. format_of (codes "out/a" ++ e.0) ≡ e.1) suffix_to_format
unfolding ends_with
format_of-suffix_example = format_of-suffix (codes "out/a") refl

format_of-json_iff_example :
    (format_of (codes "a.jsonl") ≡ codes "json")
    ↔ (ends_with (codes "a.jsonl") (codes ".json") ≡ true)
format_of-json_iff_example = format_of-json_iff (codes "a.jsonl")

abbrev pages : List (Option (List Text))
pages = some (codes "p/b.json" ∷ codes "p/b.md" ∷ []) ∷ none ∷ some (codes "p/a.json" ∷ []) ∷ []

abbrev paginate : Text → Text → Activity (List (Option (List Text)))
paginate bucket prefix = ok pages

abbrev collect_input : CollectOutputsInput
collect_input = record { bucket = codes "in"; key = codes "a.pdf" }

collect_outputs_lem_example :
    (c : CollectedOutputs) × (collect_outputs settings paginate collect_input ≡ ok c)
    × (c.bucket ≡ codes "docling-output")
    × (get_or (codes "json") c.outputs [] ≡ of_format (codes "json") (sorted (list_keys pages)))
    × (has_key (codes "json") c.outputs
        ≡ any (λ key. str_eq (format_of key) (codes "json")) (sorted (list_keys pages)))
collect_outputs_lem_example =
    collect_outputs_lem settings paginate collect_input pages (codes "json") refl

json_keys_sorted :
    of_format (codes "json") (sorted (list_keys pages)) ≡ codes "p/a.json" ∷ codes "p/b.json" ∷ []
unfolding of_format sorted insert_sorted text_le list_keys format_of ends_with find_suffix str_eq
json_keys_sorted = refl

abbrev output_keys : List Text
output_keys =
    codes "temporal/in/a.pdf/convert/7/a.json" ∷ codes "temporal/in/a.pdf/convert/7/a.md" ∷ []

-- A key of a list whose keys all pass a test passes it.
contains-All :
    (p : Text → Bool) (k : Text) (keys : List Text)
    → All (λ j. p j ≡ true) keys
    → contains k keys ≡ (contains k keys && p k)
unfolding contains
contains-All p k [] all = refl
contains-All p k (j ∷ keys) (h, all) = ground (arith, contains-All p k keys all, str_eq_iff j k, h)

abbrev list_outputs : Text → Text → Activity (List (Option (List Text)))
list_outputs bucket prefix = ok (some output_keys ∷ [])

collect_outputs-target_example :
    (c : CollectedOutputs) × (collect_outputs settings list_outputs collect_input ≡ ok c)
    × ((f k : Text)
        → contains k (get_or f c.outputs []) ≡ (
            contains k output_keys
            && starts_with k (target settings (codes "in") (codes "a.pdf") [] []).key_prefix
            && str_eq (format_of k) f))
unfolding build_batch_convert_body s3_coords convert_output_prefix list_keys
collect_outputs-target_example =
    collect_outputs-target settings list_outputs (codes "in") (codes "a.pdf") [] []
      (some output_keys ∷ []) (λ bucket k. contains k output_keys) refl
      (λ k.
        unfold starts_with str_eq in
        contains-All (λ j. starts_with j (codes "temporal/in/a.pdf/convert/")) k output_keys
          (refl, (refl, tt)))
