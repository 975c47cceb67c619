-- ===== src/Facade/Schemas.antt =====
-- facade/schemas.py and the settings of facade/dependencies.py. `created_at` is left out: nothing
-- reads it.
use docling_serve_ray.Prelude.{ℕ, Bool, Option, List, any}
use docling_serve_ray.Text.{Text, codes, str_eq}
use docling_serve_ray.Json.{Json}

-- The content of a file.
abbrev pub Bytes : Type 0
Bytes = List ℕ

pub data RecordKind : Type 0 where
  file_upload : RecordKind

pub record TaskRecord : Type 0 where
  pub kind : RecordKind
  pub request_id : Text
  pub tenant_id : Option Text
  pub filenames : List Text
  pub to_formats : List Text
  pub as_zip : Bool

pub record ExportDocumentResponse : Type 0 where
  pub filename : Text
  pub md_content : Option Text
  pub json_content : Option Json
  pub html_content : Option Text
  pub text_content : Option Text
  pub doctags_content : Option Text
  pub doclang_content : Option Text

-- The fields that keep their defaults (errors, timings, confidence) are left out.
pub record ConvertDocumentResponse : Type 0 where
  pub document : ExportDocumentResponse
  pub status : Text
  pub processing_time : Json

pub record DocumentStatus : Type 0 where
  pub filename : Text
  pub status : Text

-- `content` lists the archive's entries, name and body, in the order of writing.
pub record ZipResult : Type 0 where
  pub content : List (Text × Bytes)
  pub document_statuses : List DocumentStatus

unfoldable pub has_failures : ZipResult → Bool
has_failures z = any (λ d. str_eq d.status (codes "failed")) z.document_statuses

pub record TaskStatusResponse : Type 0 where
  pub task_id : Text
  pub task_type : Text
  pub task_status : Text
  pub task_position : Option ℕ
  pub task_meta : Option Json
  pub error_message : Option Text
  pub failure : Option Json

-- Times are in milliseconds.
pub record Settings : Type 0 where
  pub docling_serve_url : Text
  pub redis_url : Text
  pub record_ttl_seconds : ℕ
  pub s3_endpoint : Text
  pub s3_verify_ssl : Bool
  pub s3_access_key : Text
  pub s3_secret_key : Text
  pub s3_input_bucket : Text
  pub s3_output_bucket : Text
  pub s3_input_prefix : Text
  pub s3_output_prefix : Text
  pub tenant_id_header : Text
  pub sync_poll_interval : ℕ
  pub max_sync_wait : ℕ
