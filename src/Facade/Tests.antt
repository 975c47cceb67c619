-- ===== src/Facade/Tests.antt =====
-- Runs of the facade against small services: the world is the clock, one file of one task is stored,
-- and docling-serve reports it as finished.
use docling_serve_ray.Prelude.{
  not, ◌&&◌, if◌then◌else◌, ℕ, suc, ◌≡◌, ◌≢◌, refl, ap, true, false, none, some, List, [], ◌∷◌,
  ◌++◌, arith, map, any, All,
}
use docling_serve_ray.Result.{ok, err}
use docling_serve_ray.Text.{Text, codes, str_eq, ends_with, has_char}
use docling_serve_ray.Dict.{Dict, lookup, contains}
use docling_serve_ray.Json
use docling_serve_ray.Json.{Json, Fields}
use docling_serve_ray.Http.{Response}
use docling_serve_ray.Facade.Schemas.{
  TaskRecord, file_upload, ConvertDocumentResponse, has_failures,
}
use docling_serve_ray.Facade.Artifacts.{
  Artifacts, parse_artifact_key, extension_to_field, build_zip_archive, empty_document,
}
use docling_serve_ray.Facade.Artifacts.Laws.{below, parse_artifact_key_roundtrip}
use docling_serve_ray.Facade.Artifacts.Archive.{is_missing, build_zip_archive_lem}
use docling_serve_ray.Facade.Options.Laws.{IsForm, build_convert_options_lem}
use docling_serve_ray.Facade.Options.{
  field, OptionValue, intercepted_fields, option_value, build_convert_options, Form,
}
use docling_serve_ray.Facade.Sample.Settings.{settings}
use docling_serve_ray.Facade.Backend.{Backend, transport, return}
use docling_serve_ray.Facade.Wait.{wait_for_completion}
use docling_serve_ray.Facade.Wait.Laws.{IsTicking, IsEnded, is_waiting, wait_for_completion-IsEnded}
use docling_serve_ray.Facade.Resolve.{Resolved, converted, Cleanup}
use docling_serve_ray.Facade.Routes.{get_result, convert_file_async, convert_file_sync}
use docling_serve_ray.Facade.Routes.Laws.{routes-ne-transport}

abbrev stored : TaskRecord
stored = record {
  kind = file_upload;
  request_id = codes "r";
  tenant_id = none;
  filenames = codes "a.pdf" ∷ [];
  to_formats = codes "md" ∷ [];
  as_zip = false;
}

abbrev body : Json
body = Json.obj (
    Fields.field (codes "num_succeeded") (Json.num 1)
      (Fields.field (codes "task_status") (Json.str (codes "success")) Fields.end))

abbrev answer : Response
answer = record {
  status_code = 200;
  is_error = false;
  is_server_error = false;
  content = [];
  content_type = none;
  json = some body;
}

-- A response takes one millisecond.
abbrev services : Backend ℕ
services = record {
  uuid4 = return (codes "r");
  monotonic = λ w. w;
  send = λ q w. (ok answer, suc w);
  open_s3 = λ options. return tt;
  close_s3 = return tt;
  upload_fileobj = λ file bucket key. return tt;
  paginate = λ bucket prefix. return (some (codes "out/r/h/a.md" ∷ []) ∷ []);
  read_object = λ bucket key. return (codes "hi");
  delete_objects = λ bucket keys. return [];
  redis_get = λ key. return (some (codes "{}"));
  redis_set = λ key v ttl. return tt;
  redis_delete = λ key. return tt;
  is_success = λ r. true;
  model_dump_json = λ r. codes "{}";
  model_validate_json = λ s. some stored;
  task_status_response = λ a b c d e f g. none;
  float_of = some;
  decode = some;
  loads = λ s. none;
  dumps_statuses = λ ds. [];
  format = λ j. [];
  is_zero_literal = λ s. false;
}

abbrev inline_result : ConvertDocumentResponse
inline_result = record {
  document = record (empty_document (codes "a.pdf")) { md_content = some (codes "hi") };
  status = codes "success";
  processing_time = Json.literal (codes "0.0");
}

abbrev resolved : Resolved × List Cleanup
resolved = (converted inline_result, record { task_id = codes "t"; task_record = stored } ∷ [])

services-IsTicking : IsTicking services
unfolding is_waiting
services-IsTicking = record {
  advances = λ q r w v e. let t : suc w ≡ v = ap (λ p. p.1) e in omega arith;
  ends = λ q w. refl;
}

wait_for_completion-IsEnded_example :
    IsEnded services 5 (wait_for_completion services settings 5 (codes "t") none 0)
wait_for_completion-IsEnded_example =
    wait_for_completion-IsEnded services settings 5 (codes "t") none 0 services-IsTicking
      (omega arith)

abbrev empty_form : Form
empty_form = record { keys = []; getlist = λ k. []; get = λ k. none }

routes-ne-transport_example :
    ((get_result services settings (codes "t") none 0).0 ≢ err transport)
    × ((convert_file_async services settings empty_form none 0).0 ≢ err transport)
    × ((convert_file_sync services settings 5 empty_form none 0).0 ≢ err transport)
routes-ne-transport_example = routes-ne-transport services settings 5 empty_form (codes "t") none 0

parse_artifact_key_roundtrip_example :
    All
      (λ e.
        parse_artifact_key
          (codes "out/r/")
          (codes "out/r/" ++ ((codes "h" ++ b'/' ∷ []) ++ (codes "a.b" ++ e.0)))
        ≡ some (e.0, e.1, codes "a.b"))
      extension_to_field
unfolding has_char ends_with
parse_artifact_key_roundtrip_example =
    parse_artifact_key_roundtrip (codes "out/r/") (codes "h" ++ b'/' ∷ []) (codes "a.b")
      (below (codes "h")) refl refl

abbrev two_documents : List (Text × Text × Artifacts)
two_documents =
    (codes "a.pdf", codes "a", (codes "md_content", (codes ".md", codes "hi")) ∷ [])
    ∷ (codes "b.pdf", codes "b", [])
    ∷ []

build_zip_archive_lem_example :
    (map (λ s. s.filename) (build_zip_archive (λ ds. []) two_documents).document_statuses
      ≡ map (λ d. d.0) two_documents)
    × (has_failures (build_zip_archive (λ ds. []) two_documents) ≡ any is_missing two_documents)
build_zip_archive_lem_example = build_zip_archive_lem (λ ds. []) two_documents

archive_reports_failure : has_failures (build_zip_archive (λ ds. []) two_documents) ≡ true
unfolding build_zip_archive has_failures str_eq
archive_reports_failure = refl

-- One field, sent once.
abbrev md_form : Form
md_form = record {
  keys = codes "to_formats" ∷ codes "files" ∷ [];
  getlist = λ k. field (codes "md") ∷ [];
  get = λ k. none;
}

md_form-IsForm : IsForm md_form
md_form-IsForm = record { valued = λ key h e. ground arith }

build_convert_options_lem_example :
    (d : Dict OptionValue) × (build_convert_options md_form ≡ some d)
    × (lookup (codes "to_formats") d ≡ (
        if contains (codes "to_formats") md_form.keys
          && not (contains (codes "to_formats") intercepted_fields)
        then option_value (codes "to_formats") (md_form.getlist (codes "to_formats"))
        else none))
build_convert_options_lem_example =
    build_convert_options_lem md_form (codes "to_formats") md_form-IsForm
