-- ===== src/Orchestration/Activities.antt =====
-- orchestration/activities.py: each activity is a function of the settings and of the HTTP client
-- or the S3 listing that it calls; what it raises is a value.
pub mod Format
pub mod Laws
pub mod Collect
pub mod Target
use docling_serve_ray.Prelude.{
  ℕ, Bool, true, false, ◌≡◌, Option, none, some, List, [], ◌∷◌, ◌++◌, ◌==◌, if◌then◌else◌,
}
use docling_serve_ray.Text.{Text, codes, str_eq, ends_with, has_char, last_part}
use docling_serve_ray.Text.Suffix.{find_suffix}
use docling_serve_ray.Dict.{Dict, lookup, insert, get_or}
use docling_serve_ray.Result.{Result, ok, err, ◌>>=◌, ◌>>◌}
use docling_serve_ray.Json
use docling_serve_ray.Json.{Json, ShapeError, type_error}
use docling_serve_ray.Http.{Request, post, get, Response, HttpResult, response, transport_error}
use docling_serve_ray.Orchestration.Models.{
  ErrorType, queue_full, upstream_error, submit_rejected, task_lost, TaskStatus, success, failure,
  SubmitConversionInput, CollectOutputsInput, TaskCompleted, CollectedOutputs, Settings,
}
use docling_serve_ray.Orchestration.Client.{
  callback_specs, build_batch_convert_body, tenant_headers, convert_output_prefix,
}

-- `ApplicationError(..., type, non_retryable)`, or another exception, which Temporal retries.
pub data Failure : Type 0 where
  application_error : ErrorType → Bool → Failure
  transport : Failure
  decode_error : Failure
  shape : ShapeError → Failure

abbrev pub Activity : Type 0 → Type 0
Activity A = Result Failure A

abbrev pub suffix_to_format : List (Text × Text)
suffix_to_format =
    (codes ".doctags.txt", codes "doctags")
    ∷ (codes ".chunks.jsonl", codes "chunks")
    ∷ (codes ".json", codes "json")
    ∷ (codes ".md", codes "md")
    ∷ (codes ".html", codes "html")
    ∷ (codes ".dclg", codes "doclang")
    ∷ (codes ".txt", codes "text")
    ∷ []

-- The last line of `format_of`.
unfoldable pub fallback_format : Text → Text
fallback_format key =
    if has_char b'.' (last_part b'/' key) then last_part b'.' key else codes "unknown"

unfoldable pub format_of : Text → Text
unfolding find_suffix
format_of key = elim (find_suffix suffix_to_format key) [
  | none ↦ fallback_format key
  | some (suffix, fmt) ↦ fmt
]

unfoldable pub raise_for_upstream_status : Response → Activity (Unit {0})
raise_for_upstream_status r =
    if r.is_error
    then if r.status_code == 429
      then err (application_error queue_full false)
      else if r.is_server_error
      then err (application_error upstream_error false)
      else err (application_error submit_rejected true)
    else ok tt

-- The call of the HTTP client, and `response.json()`.
unfoldable pub received : HttpResult → Activity Response
received (response r) = ok r
received transport_error = err transport

unfoldable pub parsed : Response → Activity Json
parsed r = elim r.json [ none ↦ err decode_error | some j ↦ ok j ]

unfoldable pub shaped : {A : Type 0} → Result ShapeError A → Activity A
shaped (ok a) = ok a
shaped (err e) = err (shape e)

-- `TaskStatus(status)` where the status is in `set(TaskStatus)`; a list or a dict has no hash, so
-- that the test raises.
unfoldable pub terminal_status : Json → Activity (Option TaskStatus)
terminal_status (Json.str s) =
    if str_eq s (codes "success")
    then ok (some success)
    else if str_eq s (codes "failure")
    then ok (some failure)
    else ok none
terminal_status (Json.arr js) = err (shape type_error)
terminal_status (Json.obj fs) = err (shape type_error)
terminal_status _ = ok none

unfoldable pub completed_task : Text → Json → Option TaskStatus → Activity (Option TaskCompleted)
unfolding shaped
completed_task task_id j none = ok none
completed_task task_id j (some s) = do
  found ← shaped (Json.get (codes "error_message") j)
  message ← shaped (Json.as_text_or_none found)
  ok (some (record { task_id = task_id; task_status = s; error_message = message }))

-- `TaskOutcome` as the activity returns it: the counts are the answer's own values. Temporal's data
-- converter makes the workflow's `TaskOutcome` of it.
pub record OutcomeFields : Type 0 where
  pub task_id : Text
  pub num_succeeded : Option Json
  pub num_partially_succeeded : Option Json
  pub num_failed : Option Json

-- The outcome where the result's record is gone.
abbrev expired : Text → OutcomeFields
expired task_id = record {
  task_id = task_id;
  num_succeeded = none;
  num_partially_succeeded = none;
  num_failed = none;
}

module _ (settings : Settings) (http : Request → HttpResult) where
  unfoldable pub submit_conversion : Option Text → SubmitConversionInput → Activity Text
  unfolding received parsed shaped raise_for_upstream_status
  submit_conversion workflow_id inp = do
    let body =
        build_batch_convert_body settings inp.bucket inp.key inp.options
          (callback_specs settings workflow_id)
    r ← received (http (post (codes "/v1/convert/source/batch") (tenant_headers settings) body))
    raise_for_upstream_status r
    j ← parsed r
    id ← shaped (Json.index (codes "task_id") j)
    shaped (Json.as_text id)

  unfoldable pub check_task : Text → Activity (Option TaskCompleted)
  unfolding received parsed shaped terminal_status completed_task raise_for_upstream_status
  check_task task_id = do
    r ← received (http (get (codes "/v1/status/poll/" ++ task_id) (tenant_headers settings) none))
    if r.status_code == 404 then err (application_error task_lost true) else do
      raise_for_upstream_status r
      j ← parsed r
      s ← shaped (Json.index (codes "task_status") j)
      found ← terminal_status s
      completed_task task_id j found

  unfoldable pub fetch_outcome : Text → Activity OutcomeFields
  unfolding received parsed shaped raise_for_upstream_status
  fetch_outcome task_id = do
    r ← received (http (get (codes "/v1/result/" ++ task_id) (tenant_headers settings) none))
    if r.status_code == 404 then ok (expired task_id) else do
      raise_for_upstream_status r
      j ← parsed r
      succeeded ← shaped (Json.get (codes "num_succeeded") j)
      partially ← shaped (Json.get (codes "num_partially_succeeded") j)
      failed ← shaped (Json.get (codes "num_failed") j)
      ok (record {
        task_id = task_id;
        num_succeeded = succeeded;
        num_partially_succeeded = partially;
        num_failed = failed;
      })

-- `outputs.setdefault(format_of(key), []).append(key)`
unfoldable pub add_output : Dict (List Text) → Text → Dict (List Text)
add_output outputs key =
    insert (format_of key) (get_or (format_of key) outputs [] ++ key ∷ []) outputs

-- The loop of `collect_outputs` over the sorted keys.
unfoldable pub group_outputs : Dict (List Text) → List Text → Dict (List Text)
group_outputs outputs [] = outputs
group_outputs outputs (key ∷ keys) = group_outputs (add_output outputs key) keys

-- `page.get("Contents", [])` of every page, in order.
unfoldable pub list_keys : List (Option (List Text)) → List Text
list_keys [] = []
list_keys (none ∷ pages) = list_keys pages
list_keys (some contents ∷ pages) = contents ++ list_keys pages
