-- ===== src/Facade/Resolve.antt =====
-- `resolve_result` and `_cleanup_task_storage` of facade/service.py, with
-- `fetch_artifacts_by_stem` of facade/utils.py.
pub mod Rebuilt
pub mod Laws
pub mod Deleting
pub mod Cleaning
pub mod Reading
pub mod Isolation
pub mod Fetched
use docling_serve_ray.Facade.Clients.{with_s3_client}
use docling_serve_ray.Prelude.{
  ℕ, ◌+◌, Bool, true, false, ◌||◌, Option, none, some, List, [], ◌∷◌, ◌++◌, ltb, leb, ◌==◌,
  if◌then◌else◌, length, map,
}
use docling_serve_ray.Result.{ok, err}
use docling_serve_ray.Text.{Text, codes, first_part}
use docling_serve_ray.Dict.{Dict, get_or}
use docling_serve_ray.Json
use docling_serve_ray.Json.{Json}
use docling_serve_ray.Http.{Request, Response, get}
use docling_serve_ray.Facade.Schemas.{
  Bytes, TaskRecord, ConvertDocumentResponse, ZipResult, Settings,
}
use docling_serve_ray.Facade.Artifacts.{
  Artifacts, parse_artifact_key, add_artifact, list_artifacts, build_export_document_response,
  build_zip_archive,
}
use docling_serve_ray.Facade.Backend.{
  Action, Backend, unexpected, ◌>>=◌, ◌>>◌, return, raise, expect, expect_shape,
  translate_transport_errors,
}
use docling_serve_ray.Facade.Submit.{record_key, facade_headers, input_prefix, output_prefix}

-- What `resolve_result` returns, by class.
pub data Resolved : Type 0 where
  passthrough : Response → Resolved
  converted : ConvertDocumentResponse → Resolved
  zipped : ZipResult → Resolved

-- A task of `background_tasks`: `_cleanup_task_storage` with its task's id and record. They run
-- after the response; an exception drops them, so that they are part of the result.
pub record Cleanup : Type 0 where
  pub task_id : Text
  pub task_record : TaskRecord

-- `filename.rsplit(".", 1)[0]` of each name, with its artifacts.
unfoldable pub documents : Dict Artifacts → List Text → List (Text × Text × Artifacts)
documents grouped filenames =
    map (λ f. (f, first_part b'.' f, get_or (first_part b'.' f) grouped [])) filenames

abbrev expect_head :
    {W : Type 0} → List (Text × Text × Artifacts) → Action W (Text × Text × Artifacts)
expect_head {W} [] = raise unexpected
expect_head {W} (d ∷ ds) = return d

module _ {W : Type 0} (B : Backend W) (settings : Settings) where
  -- One turn of the loop: a key that is no artifact's is skipped.
  unfoldable pub fetch_one :
      Text → Text → Dict Artifacts → Option (Text × Text × Text) → Action W (Dict Artifacts)
  unfolding add_artifact
  fetch_one bucket key grouped none = return grouped
  fetch_one bucket key grouped (some part) = do
    content ← B.read_object bucket key
    return (add_artifact grouped part content)

  -- The loop over the listed keys.
  unfoldable pub fetch_loop : Text → Text → List Text → Dict Artifacts → Action W (Dict Artifacts)
  unfolding parse_artifact_key fetch_one
  fetch_loop bucket prefix [] grouped = return grouped
  fetch_loop bucket prefix (key ∷ keys) grouped = do
    more ← fetch_one bucket key grouped (parse_artifact_key prefix key)
    fetch_loop bucket prefix keys more

  unfoldable pub fetch_artifacts_by_stem : Text → Text → Action W (Dict Artifacts)
  unfolding fetch_loop list_artifacts
  fetch_artifacts_by_stem bucket prefix = do
    pages ← B.paginate bucket prefix
    fetch_loop bucket prefix (list_artifacts pages) []

  -- `if keys: await s3_client.delete_objects(...)`, whose response is dropped.
  unfoldable pub delete_objects_of : Text → List Text → Action W (Unit {0})
  delete_objects_of bucket [] = return tt
  delete_objects_of bucket (key ∷ keys) =
      B.delete_objects bucket (key ∷ keys) >>= λ errors. return tt

  -- The objects under one prefix, deleted if there are any.
  unfoldable pub delete_under : Text → Text → Action W (Unit {0})
  unfolding list_artifacts delete_objects_of
  delete_under bucket prefix = do
    pages ← B.paginate bucket prefix
    delete_objects_of bucket (list_artifacts pages)

  -- The loop over the two places.
  unfoldable pub delete_both : Text → Action W (Unit {0})
  unfolding delete_under input_prefix output_prefix
  delete_both request_id = do
    delete_under settings.s3_input_bucket (input_prefix settings request_id)
    delete_under settings.s3_output_bucket (output_prefix settings request_id)

  unfoldable pub cleanup_steps : Cleanup → Action W (Unit {0})
  unfolding delete_both with_s3_client record_key
  cleanup_steps c = do
    with_s3_client B settings (delete_both c.task_record.request_id)
    B.redis_delete (record_key c.task_id)

  -- `_cleanup_task_storage`: what it raises is logged and dropped.
  unfoldable pub cleanup_task_storage : Cleanup → W → W
  unfolding cleanup_steps
  cleanup_task_storage c w = (cleanup_steps c w).1

  -- `native_result.get("num_succeeded", 0) == 0`
  unfoldable pub is_zero : Option Json → Bool
  is_zero none = true
  is_zero (some (Json.num n)) = n == 0
  is_zero (some (Json.literal s)) = B.is_zero_literal s
  is_zero (some (Json.bool b)) = elim b [ true ↦ false | false ↦ true ]
  is_zero (some _) = false

  -- `native_result.get("processing_time", 0.0)`
  abbrev processing_time_of : Option Json → Json
  processing_time_of none = Json.literal (codes "0.0")
  processing_time_of (some j) = j

  -- The one document, inline.
  unfoldable pub build_inline : Text × Text × Artifacts → Json → Action W Resolved
  unfolding build_export_document_response
  build_inline (filename, stem, artifacts) native_result = do
    document ← expect (build_export_document_response B.decode B.loads filename artifacts)
    found ← expect_shape (Json.get (codes "processing_time") native_result)
    processing_time ← expect (B.float_of (processing_time_of found))
    return (
        converted (record {
          document = document;
          status = codes "success";
          processing_time = processing_time;
        }))

  -- What follows the artifacts: an archive, or the one document.
  unfoldable pub build_result : TaskRecord → Json → Dict Artifacts → Action W Resolved
  unfolding documents build_zip_archive build_inline
  build_result task_record native_result grouped =
      if task_record.as_zip || ltb 1 (length task_record.filenames)
      then return
          (zipped (build_zip_archive B.dumps_statuses (documents grouped task_record.filenames)))
      else expect_head (documents grouped task_record.filenames) >>= λ d.
          build_inline d native_result

  unfoldable pub reconstruct : Text → TaskRecord → Json → Action W (Resolved × List Cleanup)
  unfolding with_s3_client fetch_artifacts_by_stem output_prefix build_result
  reconstruct task_id task_record native_result = do
    grouped ← with_s3_client B settings (
        fetch_artifacts_by_stem settings.s3_output_bucket
          (output_prefix settings task_record.request_id))
    result ← build_result task_record native_result grouped
    return (result, record { task_id = task_id; task_record = task_record } ∷ [])

  unfoldable pub resolve_native : Text → TaskRecord → Response → Action W (Resolved × List Cleanup)
  unfolding is_zero reconstruct
  resolve_native task_id task_record native_response = do
    native_result ← expect native_response.json
    succeeded ← expect_shape (Json.get (codes "num_succeeded") native_result)
    if is_zero succeeded
        then return (passthrough native_response, [])
        else reconstruct task_id task_record native_result

  unfoldable pub resolve_own : Text → TaskRecord → Response → Action W (Resolved × List Cleanup)
  unfolding resolve_native
  resolve_own task_id task_record native_response =
      if leb 400 native_response.status_code
      then return (passthrough native_response, [])
      else resolve_native task_id task_record native_response

  unfoldable pub result_request : Text → Option Text → Request
  unfolding facade_headers
  result_request task_id tenant_id =
      get (codes "/v1/result/" ++ task_id) (facade_headers settings tenant_id) none

  -- Without a record the response is docling-serve's own.
  unfoldable pub resolve_raw : Text → Option Text → Option Text → Action W (Resolved × List Cleanup)
  unfolding result_request resolve_own
  resolve_raw task_id tenant_id none = do
    r ← B.send (result_request task_id tenant_id)
    return (passthrough r, [])
  resolve_raw task_id tenant_id (some raw) = do
    task_record ← expect (B.model_validate_json raw)
    native_response ← B.send (result_request task_id tenant_id)
    resolve_own task_id task_record native_response

  unfoldable pub resolve_result : Text → Option Text → Action W (Resolved × List Cleanup)
  unfolding record_key resolve_raw translate_transport_errors
  resolve_result task_id tenant_id =
      translate_transport_errors
        do raw ← B.redis_get (record_key task_id); resolve_raw task_id tenant_id raw
