-- ===== src/Facade/HistoryTests.antt =====
-- A history of the facade: one upload, its result, and its clean-up.
use docling_serve_ray.Resources.{async_with, try_finally}
use docling_serve_ray.Facade.Clients.{with_s3_client, s3_client}
use docling_serve_ray.Prelude.{◌≡◌, refl, false, none, some, List, [], ◌∷◌, arith}
use docling_serve_ray.Result.{ok}
use docling_serve_ray.Text.{
  Text, codes, str_eq, starts_with, ends_with, first_part, last_part, split_last, drop_last,
  has_char,
}
use docling_serve_ray.Text.Suffix.{find_suffix}
use docling_serve_ray.Dict.{lookup, insert, erase, get_or, contains, distinct, distinct_from}
use docling_serve_ray.Json
use docling_serve_ray.Json.{Json}
use docling_serve_ray.Facade.Schemas.{file_upload, TaskRecord, TaskStatusResponse}
use docling_serve_ray.Facade.Options.{
  UploadFile, upload, Form, build_convert_options, options_loop, option_value, uploads, wants_zip,
  parse_submission,
}
use docling_serve_ray.Facade.Artifacts.{
  parse_artifact_key, add_artifact, list_artifacts, empty_document, set_fields, set_field,
  build_export_document_response,
}
use docling_serve_ray.Facade.Backend.{translate_transport_errors}
use docling_serve_ray.Facade.Submit.{
  record_key, facade_headers, input_prefix, output_prefix, upload_name, item_texts, encode_option,
  encode_options, to_formats_of, submission_body, upload_files, describe_task, store_record,
  submit_upload, submit_file_upload,
}
use docling_serve_ray.Facade.Submit.Stored.{IsStored, submit_file_upload-IsStored}
use docling_serve_ray.Facade.Wait.{is_terminal, read_poll, poll, poll_loop, wait_for_completion}
use docling_serve_ray.Facade.Resolve.{
  delete_both, Resolved, converted, Cleanup, resolve_result, resolve_raw, resolve_own,
  resolve_native, reconstruct, build_result, build_inline, documents, fetch_one, fetch_loop,
  fetch_artifacts_by_stem, is_zero, result_request, delete_objects_of, delete_under, cleanup_steps,
  cleanup_task_storage,
}
use docling_serve_ray.Facade.Resolve.Deleting.{is_under}
use docling_serve_ray.Facade.Resolve.Cleaning.{
  is_of_request, IsCleaned, cleanup_task_storage-IsCleaned,
}
use docling_serve_ray.Facade.Resolve.Isolation.{cleanup_task_storage_isolated}
use docling_serve_ray.Facade.Routes.{
  Reply, reply_of, finish_result, submit_files, convert_file_sync,
}
use docling_serve_ray.Facade.History.{
  Moves, open_task, tasks, Operation, submitted, label, operation-Moves,
}
use docling_serve_ray.Facade.History.Origins.{
  History, start, next, labels, Occurs, open_task-Occurs,
}
use docling_serve_ray.Facade.Sample.{
  World, is_held, keys_under, without, services, view, services-IsRedis, services-IsPydantic,
  services-IsObjectStore,
}
use docling_serve_ray.Facade.Sample.Settings.{settings}

-- What a run computes with.
facade : Unit {0}
unfolding submit_file_upload submit_upload upload_files upload_name encode_options encode_option
    item_texts submission_body facade_headers store_record to_formats_of record_key describe_task
    translate_transport_errors Json.index Json.get Json.find_field str_eq lookup insert erase get_or
    contains input_prefix output_prefix resolve_result resolve_raw resolve_own resolve_native
    reconstruct build_result build_inline documents fetch_one fetch_loop fetch_artifacts_by_stem
    is_zero result_request list_artifacts parse_artifact_key add_artifact set_fields set_field
    build_export_document_response starts_with ends_with last_part first_part split_last drop_last
    find_suffix keys_under without is_held delete_objects_of delete_under cleanup_steps
    cleanup_task_storage delete_both with_s3_client async_with try_finally s3_client is_terminal
    read_poll poll poll_loop wait_for_completion finish_result submit_files convert_file_sync
    parse_submission build_convert_options options_loop option_value uploads wants_zip distinct
    distinct_from reply_of
facade = tt

-- The converter's output is there from the start.
abbrev empty : World
empty = record {
  clock = 0;
  values = [];
  objects =
      (codes "docling-output", codes "out/r/h/a.md")
      ∷ (codes "docling-input", codes "in/s/b.pdf")
      ∷ [];
}

abbrev files : List UploadFile
files = record { filename = some (codes "a.pdf"); file = codes "%PDF" } ∷ []

abbrev pending : TaskStatusResponse
pending = record {
  task_id = codes "t";
  task_type = codes "convert";
  task_status = codes "success";
  task_position = none;
  task_meta = none;
  error_message = none;
  failure = none;
}

-- The worlds after the upload, after the result and after the clean-up.
abbrev uploaded : World
uploaded = (submit_file_upload services settings files [] false none empty).1

abbrev answered : World
answered = (resolve_result services settings (codes "t") none uploaded).1

abbrev stored : TaskRecord
stored = record {
  kind = file_upload;
  request_id = codes "r";
  tenant_id = none;
  filenames = codes "a.pdf" ∷ [];
  to_formats = codes "md" ∷ [];
  as_zip = false;
}

abbrev cleanup : Cleanup
cleanup = record { task_id = codes "t"; task_record = stored }

abbrev inline : Resolved × List Cleanup
inline = (
  converted (record {
    document = record (empty_document (codes "a.pdf")) { md_content = some (codes "hi") };
    status = codes "success";
    processing_time = Json.literal (codes "0.0");
  }),
  cleanup ∷ [],
)

submit_file_upload_of_files :
    submit_file_upload services settings files [] false none empty ≡ (ok pending, uploaded)
unfolding facade
submit_file_upload_of_files = refl

submit_file_upload-IsStored_example : IsStored services view files false none empty pending uploaded
submit_file_upload-IsStored_example =
    submit_file_upload-IsStored services view settings services-IsRedis services-IsPydantic files []
      false none empty uploaded pending submit_file_upload_of_files

abbrev form : Form
form = record {
  keys = codes "files" ∷ [];
  getlist = λ k. upload (record { filename = some (codes "a.pdf"); file = codes "%PDF" }) ∷ [];
  get = λ k. none;
}

abbrev sync : World
sync = (convert_file_sync services settings 9 form none empty).1

abbrev sync_answer : Reply × List Cleanup
sync_answer = (reply_of inline.0, cleanup ∷ [])

cleanup_of_answered : (cleanup_steps services settings cleanup answered).0 ≡ ok tt
unfolding facade
cleanup_of_answered = refl

cleanup_task_storage-IsCleaned_example :
    IsCleaned services view services-IsObjectStore settings services-IsRedis cleanup answered
      (cleanup_task_storage services settings cleanup answered)
cleanup_task_storage-IsCleaned_example =
    cleanup_task_storage-IsCleaned services view services-IsObjectStore settings services-IsRedis
      cleanup answered cleanup_of_answered

cleanup_task_storage_isolated_example :
    view.held
      (cleanup_task_storage services settings cleanup answered)
      (codes "docling-input")
      (codes "in/s/b.pdf")
    ≡ view.held answered (codes "docling-input") (codes "in/s/b.pdf")
unfolding facade is_under is_of_request has_char
cleanup_task_storage_isolated_example =
    cleanup_task_storage_isolated services view services-IsObjectStore settings cleanup (codes "s")
      (codes "docling-input") (codes "in/s/b.pdf") answered refl refl refl (λ e. ground arith) refl

abbrev first : Operation services settings empty uploaded
first = submitted files [] false none pending submit_file_upload_of_files

operation-Moves_example :
    Moves (label first) (tasks services view empty) (tasks services view uploaded)
operation-Moves_example =
    operation-Moves services view settings services-IsRedis services-IsPydantic
      services-IsObjectStore empty uploaded first

no_tasks : (id : Text) → tasks services view empty id ≡ none
unfolding tasks lookup
no_tasks id = refl

abbrev history : History services view settings uploaded
history = next empty uploaded (start empty no_tasks) first

task_t_is_open : tasks services view uploaded (codes "t") ≡ some stored
unfolding facade tasks
task_t_is_open = refl

open_task-Occurs_example :
    Occurs (open_task (codes "t") (codes "a.pdf" ∷ []) false) (labels history)
open_task-Occurs_example =
    open_task-Occurs services view settings services-IsRedis services-IsPydantic
      services-IsObjectStore uploaded history (codes "t") stored task_t_is_open
