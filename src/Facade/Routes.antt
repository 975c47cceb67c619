-- ===== src/Facade/Routes.antt =====
-- facade/main.py: the handlers of the three routes.
pub mod Laws
use docling_serve_ray.Prelude.{
  ℕ, Bool, true, false, Option, none, some, List, [], ◌∷◌, if◌then◌else◌,
}
use docling_serve_ray.Text.{Text, codes}
use docling_serve_ray.Dict.{Dict}
use docling_serve_ray.Http.{Response}
use docling_serve_ray.Facade.Schemas.{
  Bytes, ConvertDocumentResponse, ZipResult, has_failures, TaskStatusResponse, Settings,
}
use docling_serve_ray.Facade.Options.{UploadFile, OptionValue, Form, parse_submission}
use docling_serve_ray.Facade.Backend.{Action, Backend, http_exception, ◌>>=◌, return, raise, expect}
use docling_serve_ray.Facade.Submit.{submit_file_upload}
use docling_serve_ray.Facade.Wait.{wait_for_completion}
use docling_serve_ray.Facade.Resolve.{
  Resolved, passthrough, converted, zipped, Cleanup, resolve_result,
}

-- What a handler returns: a copy of docling-serve's response, an archive with its headers, or JSON.
pub data Reply : Type 0 where
  relayed : Bytes → ℕ → Option Text → Reply
  archive : List (Text × Bytes) → Dict Text → Reply
  document : ConvertDocumentResponse → Reply

abbrev pub partial_failure_header : Text
partial_failure_header = codes "X-Facade-Partial-Failure"

unfoldable pub zip_headers : ZipResult → Dict Text
zip_headers z =
    let disposition : Text × Text =
      (codes "Content-Disposition", codes "attachment; filename=\"converted_docs.zip\"") in
    if has_failures z
    then disposition ∷ (partial_failure_header, codes "true") ∷ []
    else disposition ∷ []

unfoldable pub reply_of : Resolved → Reply
unfolding zip_headers
reply_of (passthrough r) = relayed r.content r.status_code r.content_type
reply_of (zipped z) = archive z.content (zip_headers z)
reply_of (converted d) = document d

module _ {W : Type 0} (B : Backend W) (settings : Settings) where
  -- The reply, with the background tasks that run after it.
  unfoldable pub finish_result : Text → Option Text → Action W (Reply × List Cleanup)
  unfolding resolve_result
  finish_result task_id tenant_id = do
    (result, scheduled) ← resolve_result B settings task_id tenant_id
    return (reply_of result, scheduled)

  unfoldable pub get_result : Text → Option Text → Action W (Reply × List Cleanup)
  unfolding finish_result
  get_result task_id tenant_id = finish_result task_id tenant_id

  -- A submission without files is refused.
  unfoldable pub submit_files :
      List UploadFile × Dict OptionValue × Bool → Option Text → Action W TaskStatusResponse
  submit_files ([], convert_options, as_zip) tenant_id = raise (http_exception 422)
  submit_files (file ∷ files, convert_options, as_zip) tenant_id =
      submit_file_upload B settings (file ∷ files) convert_options as_zip tenant_id

  unfoldable pub convert_file_async : Form → Option Text → Action W TaskStatusResponse
  unfolding parse_submission submit_files
  convert_file_async form tenant_id = do
    submission ← expect (parse_submission form)
    submit_files submission tenant_id

  unfoldable pub convert_file_sync : ℕ → Form → Option Text → Action W (Reply × List Cleanup)
  unfolding parse_submission submit_files
  convert_file_sync bound form tenant_id = do
    submission ← expect (parse_submission form)
    task ← submit_files submission tenant_id
    completed ← wait_for_completion B settings bound task.task_id tenant_id
    if completed then finish_result task.task_id tenant_id else raise (http_exception 504)
