-- ===== src/Orchestration/Models.antt =====
-- orchestration/models.py and the fields of orchestration/config.py that the code reads.
use docling_serve_ray.Prelude.{ℕ, Bool, Option, List, [], ◌∷◌, ◌++◌}
use docling_serve_ray.Text.{Text, codes}
use docling_serve_ray.Dict.{Dict}
use docling_serve_ray.Json.{Json}

abbrev pub task_queue : Text
task_queue = codes "docling"

abbrev pub submit_task_queue : Text
submit_task_queue = codes "docling-submit"

abbrev pub task_completed_signal : Text
task_completed_signal = codes "task_completed"

abbrev pub required_format : Text
required_format = codes "json"

abbrev pub default_to_formats : List Text
default_to_formats = codes "json" ∷ codes "md" ∷ []

abbrev pub default_safety_poll_interval_seconds : ℕ
default_safety_poll_interval_seconds = 300

abbrev pub default_max_safety_polls : ℕ
default_max_safety_polls = 600

pub data ErrorType : Type 0 where
  queue_full upstream_error submit_rejected task_lost conversion_failed missing_outputs : ErrorType
  poll_budget_exhausted : ErrorType

pub data TaskStatus : Type 0 where
  success failure : TaskStatus

pub record ConvertInput : Type 0 where
  pub bucket : Text
  pub key : Text
  pub to_formats : List Text
  pub options : Dict Json
  pub safety_poll_interval_seconds : ℕ
  pub max_safety_polls : ℕ

pub record SubmitConversionInput : Type 0 where
  pub bucket : Text
  pub key : Text
  pub options : Dict Json

pub record CollectOutputsInput : Type 0 where
  pub bucket : Text
  pub key : Text

pub record TaskCompleted : Type 0 where
  pub task_id : Text
  pub task_status : TaskStatus
  pub error_message : Option Text

pub record TaskOutcome : Type 0 where
  pub task_id : Text
  pub num_succeeded : Option ℕ
  pub num_partially_succeeded : Option ℕ
  pub num_failed : Option ℕ

pub record CollectedOutputs : Type 0 where
  pub bucket : Text
  pub outputs : Dict (List Text)

pub record ConvertResult : Type 0 where
  pub task_id : Text
  pub outputs : Dict (List Text)
  pub output_bucket : Text
  pub submissions : ℕ
  pub safety_polls : ℕ

unfoldable pub workflow_id_for_convert : Text → Text → Text
workflow_id_for_convert bucket key = codes "convert:" ++ (bucket ++ (codes "/" ++ key))

pub record Settings : Type 0 where
  pub temporal_address : Text
  pub temporal_namespace : Text
  pub max_concurrent_activities : ℕ
  pub docling_serve_url : Text
  pub tenant_id : Option Text
  pub tenant_id_header : Text
  pub callback_base_url : Option Text
  pub callback_token : Text
  pub s3_endpoint : Text
  pub s3_verify_ssl : Bool
  pub s3_endpoint_url : Text
  pub s3_access_key : Text
  pub s3_secret_key : Text
  pub output_bucket : Text
  pub output_prefix : Text
  pub submit_conversion_start_to_close_seconds : ℕ
  pub check_task_start_to_close_seconds : ℕ
  pub fetch_outcome_start_to_close_seconds : ℕ
  pub collect_outputs_start_to_close_seconds : ℕ
