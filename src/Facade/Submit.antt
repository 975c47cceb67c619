-- ===== src/Facade/Submit.antt =====
-- `submit_file_upload` of facade/service.py, and the headers and keys that its functions share.
pub mod Stored
use docling_serve_ray.Facade.Clients.{with_s3_client}
use docling_serve_ray.Prelude.{
  Bool, Option, none, some, List, [], ◌∷◌, ◌++◌, leb, if◌then◌else◌, map,
}
use docling_serve_ray.Text.{Text, codes}
use docling_serve_ray.Dict.{Dict, lookup}
use docling_serve_ray.Json
use docling_serve_ray.Json.{Json}
use docling_serve_ray.Http.{S3Coordinates, BatchConvertBody, Response, post}
use docling_serve_ray.Facade.Schemas.{TaskRecord, TaskStatusResponse, Settings, file_upload}
use docling_serve_ray.Facade.Options.{
  UploadFile, FormItem, field, upload, OptionValue, single, many,
}
use docling_serve_ray.Facade.Artifacts.{default_to_formats}
use docling_serve_ray.Facade.Backend.{
  Action, Backend, http_exception, ◌>>=◌, ◌>>◌, return, raise, expect, expect_shape,
  translate_transport_errors,
}

abbrev pub record_key_prefix : Text
record_key_prefix = codes "facade:task:"

unfoldable pub record_key : Text → Text
record_key task_id = record_key_prefix ++ task_id

-- `{header: tenant_id} if tenant_id else {}`
unfoldable pub facade_headers : Settings → Option Text → Dict Text
facade_headers settings none = []
facade_headers settings (some []) = []
facade_headers settings (some (c ∷ s)) = (settings.tenant_id_header, c ∷ s) ∷ []

unfoldable pub input_prefix : Settings → Text → Text
input_prefix settings request_id = settings.s3_input_prefix ++ (request_id ++ codes "/")

unfoldable pub output_prefix : Settings → Text → Text
output_prefix settings request_id = settings.s3_output_prefix ++ (request_id ++ codes "/")

-- `file.filename or "file.pdf"`
unfoldable pub upload_name : Option Text → Text
upload_name none = codes "file.pdf"
upload_name (some []) = codes "file.pdf"
upload_name (some (c ∷ s)) = c ∷ s

abbrev pub coordinates : Settings → Text → Text → S3Coordinates
coordinates settings bucket key_prefix = record {
  endpoint = settings.s3_endpoint;
  verify_ssl = settings.s3_verify_ssl;
  access_key = settings.s3_access_key;
  secret_key = settings.s3_secret_key;
  bucket = bucket;
  key_prefix = key_prefix;
}

-- An uploaded file is no JSON value: `none` is the encoder's TypeError.
unfoldable pub item_texts : List FormItem → Option (List Text)
item_texts [] = some []
item_texts (upload f ∷ items) = none
item_texts (field s ∷ items) = elim (item_texts items) [ none ↦ none | some ss ↦ some (s ∷ ss) ]

unfoldable pub encode_option : OptionValue → Option Json
unfolding item_texts
encode_option (single (field s)) = some (Json.str s)
encode_option (single (upload f)) = none
encode_option (many items) = elim (item_texts items) [
  | none ↦ none
  | some ss ↦ some (Json.arr (Json.texts ss))
]

unfoldable pub encode_options : Dict OptionValue → Option (Dict Json)
unfolding encode_option
encode_options [] = some []
encode_options ((key, v) ∷ options) = elim (encode_option v) [
  | none ↦ none
  | some j ↦ elim (encode_options options) [ none ↦ none | some js ↦ some ((key, j) ∷ js) ]
]

-- `list(convert_options.get("to_formats", DEFAULT_TO_FORMATS))` as the record takes it.
unfoldable pub to_formats_of : Option OptionValue → Option (List Text)
unfolding item_texts
to_formats_of none = some default_to_formats
to_formats_of (some (single (field s))) = some (map (λ c. c ∷ []) s)
to_formats_of (some (single (upload f))) = none
to_formats_of (some (many items)) = item_texts items

unfoldable pub submission_body : Settings → Text → Dict Json → BatchConvertBody
unfolding input_prefix output_prefix
submission_body settings request_id options = record {
  sources = coordinates settings settings.s3_input_bucket (input_prefix settings request_id) ∷ [];
  target = coordinates settings settings.s3_output_bucket (output_prefix settings request_id);
  options = options;
  callbacks = none;
}

-- `TaskRecord(kind=..., request_id=..., ...)`
abbrev pub new_record : Text → Option Text → List Text → List Text → Bool → TaskRecord
new_record request_id tenant_id filenames to_formats as_zip = record {
  kind = file_upload;
  request_id = request_id;
  tenant_id = tenant_id;
  filenames = filenames;
  to_formats = to_formats;
  as_zip = as_zip;
}

module _ {W : Type 0} (B : Backend W) (settings : Settings) where
  -- An f-string's text of the id.
  abbrev pub formatted : Json → Text
  formatted (Json.str s) = s
  formatted j = B.format j

  -- The loop over the files; it returns the names.
  unfoldable pub upload_files : Text → List UploadFile → Action W (List Text)
  unfolding upload_name input_prefix
  upload_files request_id [] = return []
  upload_files request_id (file ∷ files) = do
    B.upload_fileobj file.file settings.s3_input_bucket
        (input_prefix settings request_id ++ upload_name file.filename)
    names ← upload_files request_id files
    return (upload_name file.filename ∷ names)

  -- The response to the client, from the response to the submission.
  unfoldable pub describe_task : Json → Json → Action W TaskStatusResponse
  describe_task task_id task = do
    task_type ← expect_shape (Json.index (codes "task_type") task)
    task_status ← expect_shape (Json.index (codes "task_status") task)
    task_position ← expect_shape (Json.get (codes "task_position") task)
    task_meta ← expect_shape (Json.get (codes "task_meta") task)
    error_message ← expect_shape (Json.get (codes "error_message") task)
    failure ← expect_shape (Json.get (codes "failure") task)
    expect (
        B.task_status_response task_id task_type task_status task_position task_meta error_message
          failure)

  -- What follows the response to the submission.
  unfoldable pub store_record :
      Text
      → List Text
      → Dict OptionValue
      → Bool
      → Option Text
      → Response
      → Action W TaskStatusResponse
  unfolding to_formats_of record_key describe_task
  store_record request_id filenames convert_options as_zip tenant_id r = do
    task ← expect r.json
    to_formats ← expect (to_formats_of (lookup (codes "to_formats") convert_options))
    task_id ← expect_shape (Json.index (codes "task_id") task)
    B.redis_set (record_key (formatted task_id))
        (B.model_dump_json (new_record request_id tenant_id filenames to_formats as_zip))
        settings.record_ttl_seconds
    describe_task task_id task

  unfoldable pub submit_upload :
      List UploadFile → Dict OptionValue → Bool → Option Text → Action W TaskStatusResponse
  unfolding with_s3_client upload_files encode_options submission_body facade_headers store_record
  submit_upload files convert_options as_zip tenant_id = do
    request_id ← B.uuid4
    filenames ← with_s3_client B settings (upload_files request_id files)
    options ← expect (encode_options convert_options)
    r ← B.send (
        post (codes "/v1/convert/source/batch") (facade_headers settings tenant_id)
          (submission_body settings request_id options))
    if leb 400 r.status_code
        then raise (http_exception r.status_code)
        else store_record request_id filenames convert_options as_zip tenant_id r

  unfoldable pub submit_file_upload :
      List UploadFile → Dict OptionValue → Bool → Option Text → Action W TaskStatusResponse
  unfolding submit_upload translate_transport_errors
  submit_file_upload files convert_options as_zip tenant_id =
      translate_transport_errors (submit_upload files convert_options as_zip tenant_id)
