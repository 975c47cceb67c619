-- ===== src/Scripts/SendPdf.antt =====
-- scripts/send_pdf.py: upload the PDFs of a directory, convert them in one batch, and wait for its
-- end. The printed lines are left out. tenacity's retrying is a parameter.
pub mod Laws
use docling_serve_ray.Prelude.{
  ℕ, Bool, true, false, ◌||◌, not, Option, none, some, List, [], ◌∷◌, ◌++◌, if◌then◌else◌,
}
use docling_serve_ray.Text.{Text, codes, str_eq}
use docling_serve_ray.Dict.{Dict}
use docling_serve_ray.Json
use docling_serve_ray.Json.{Json}
use docling_serve_ray.Http.{S3Coordinates, BatchConvertBody, Request, Response, post, get}
use docling_serve_ray.Facade.Backend.{
  Action, transport, ◌>>=◌, ◌>>◌, return, raise, expect, expect_shape,
}

abbrev pub base_url : Text
base_url = codes "http://localhost:5001"

abbrev tenant_id : Text
tenant_id = codes "test-tenant"

abbrev minio_endpoint_internal : Text
minio_endpoint_internal = codes "minio:9000"

abbrev pub input_bucket : Text
input_bucket = codes "docling-input"

abbrev pub output_bucket : Text
output_bucket = codes "docling-output"

abbrev pub incoming_prefix : Text
incoming_prefix = codes "incoming/"

abbrev pub processed_prefix : Text
processed_prefix = codes "processed/"

-- How the script ends without an exception: with an exit code, or with the result's payload and the
-- listed objects.
pub data End : Type 0 where
  exit : ℕ → End
  shown : Json → List Text → End

-- `task_status not in TERMINAL_STATUSES`; a list or a dict has no hash.
unfoldable pub not_terminal : Json → Option Bool
not_terminal (Json.str s) = some (not (str_eq s (codes "success") || str_eq s (codes "failure")))
not_terminal (Json.arr js) = none
not_terminal (Json.obj fs) = none
not_terminal _ = some true

unfoldable pub is_success_status : Json → Bool
is_success_status (Json.str s) = str_eq s (codes "success")
is_success_status _ = false

abbrev minio_coordinates : Text → Text → S3Coordinates
minio_coordinates bucket key_prefix = record {
  endpoint = minio_endpoint_internal;
  verify_ssl = false;
  access_key = codes "minioadmin";
  secret_key = codes "minioadmin123";
  bucket = bucket;
  key_prefix = key_prefix;
}

-- The body has no "options" and no "callbacks".
abbrev pub batch_body : BatchConvertBody
batch_body = record {
  sources = minio_coordinates input_bucket incoming_prefix ∷ [];
  target = minio_coordinates output_bucket processed_prefix;
  options = [];
  callbacks = none;
}

abbrev pub batch_headers : Dict Text
batch_headers = (codes "X-Tenant-Id", tenant_id) ∷ []

-- What the script calls: whether the directory is there, the names of its PDFs in order, S3, HTTP,
-- `raise_for_status`, and the retrying of an action while a test of its value holds.
pub record Tools (W : Type 0) : Type 0 where
  pub is_dir : W → Bool
  pub pdf_names : W → List Text
  pub upload_file : Text → Text → Text → Action W (Unit {0})
  pub list_output : Text → Text → Action W (List Text)
  pub send : Request → Action W Response
  pub is_success : Response → Bool
  pub retry_while : (Json → Action W Bool) → Action W Json → Action W Json

module _ {W : Type 0} (tools : Tools W) where
  abbrev raise_for_status : Response → Action W (Unit {0})
  raise_for_status r = if tools.is_success r then return tt else raise transport

  -- The test of the retries.
  unfoldable pub waits : Json → Action W Bool
  unfolding not_terminal
  waits payload = do
    status ← expect_shape (Json.index (codes "task_status") payload)
    expect (not_terminal status)

  -- One attempt.
  unfoldable pub poll_once : Text → Action W Json
  poll_once task_id = do
    r ← tools.send (get (base_url ++ (codes "/v1/status/poll/" ++ task_id)) batch_headers (some 5))
    raise_for_status r
    payload ← expect r.json
    status ← expect_shape (Json.index (codes "task_status") payload)
    position ← expect_shape (Json.get (codes "task_position") payload)
    return payload

  -- The loop over the files; it returns the keys.
  unfoldable pub upload_pdfs : List Text → Action W (List Text)
  upload_pdfs [] = return []
  upload_pdfs (name ∷ names) = do
    tools.upload_file name input_bucket (incoming_prefix ++ name)
    keys ← upload_pdfs names
    return ((incoming_prefix ++ name) ∷ keys)

  unfoldable pub show_payload : Text → Action W End
  show_payload task_id = do
    r ← tools.send (get (base_url ++ (codes "/v1/result/" ++ task_id)) batch_headers none)
    raise_for_status r
    payload ← expect r.json
    objects ← tools.list_output output_bucket processed_prefix
    return (shown payload objects)

  -- What follows the task's end.
  unfoldable pub show_result : Text → Json → Action W End
  unfolding is_success_status show_payload
  show_result task_id final_status = do
    status ← expect_shape (Json.index (codes "task_status") final_status)
    if is_success_status status then show_payload task_id else return (exit 1)

  -- From the submission on; a task's id is a text.
  unfoldable pub convert_batch : Action W End
  unfolding waits poll_once show_result
  convert_batch = do
    r ← tools.send (post (base_url ++ codes "/v1/convert/source/batch") batch_headers batch_body)
    raise_for_status r
    task ← expect r.json
    id ← expect_shape (Json.index (codes "task_id") task)
    task_id ← expect_shape (Json.as_text id)
    initial_status ← expect_shape (Json.index (codes "task_status") task)
    final_status ← tools.retry_while waits (poll_once task_id)
    show_result task_id final_status

  abbrev pub send_names : List Text → Action W End
  send_names [] = return (exit 1)
  send_names (name ∷ names) = upload_pdfs (name ∷ names) >> convert_batch

  unfoldable pub run_script : Action W End
  unfolding upload_pdfs convert_batch
  run_script w = if tools.is_dir w then send_names (tools.pdf_names w) w else return (exit 1) w
