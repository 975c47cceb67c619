-- ===== src/Facade/Backend.antt =====
-- The services that facade/service.py calls (S3, Redis, docling-serve, the clock), the calls of
-- pydantic and json, and the exceptions that go through its coroutines.
pub mod Laws
use docling_serve_ray.Prelude.{ℕ, Bool, Option, none, some, List}
use docling_serve_ray.Result.{Result, ok, err}
use docling_serve_ray.Text.{Text}
use docling_serve_ray.Json.{Json, ShapeError}
use docling_serve_ray.Http.{Request, Response, S3ClientOptions}
use docling_serve_ray.Facade.Schemas.{Bytes, TaskRecord, TaskStatusResponse, DocumentStatus}

-- An HTTPException with its status, one of `_TRANSPORT_ERRORS`, or any other exception.
-- `still_waiting` is no exception: the bound on a loop's steps is used up.
pub data Raised : Type 0 where
  http_exception : ℕ → Raised
  transport : Raised
  unexpected : Raised
  still_waiting : Raised

-- A coroutine over the state `W` of the services.
abbrev pub Action : Type 0 → Type 0 → Type 0
Action W A = W → Result Raised A × W

module _ {W : Type 0} where
  abbrev pub then_run :
      {A B : Type 0} → Result Raised A × W → (A → Action W B) → Result Raised B × W
  then_run (ok a, w) next = next a w
  then_run (err e, w) next = (err e, w)

  infixl 5 ◌>>=◌
  abbrev pub ◌>>=◌ : {A B : Type 0} → Action W A → (A → Action W B) → Action W B
  (m >>= next) w = then_run (m w) next

  infixl 5 ◌>>◌
  abbrev pub ◌>>◌ : {A B : Type 0} → Action W A → Action W B → Action W B
  m >> next = m >>= λ _. next

  abbrev pub return : {A : Type 0} → A → Action W A
  return a w = (ok a, w)

  abbrev pub raise : {A : Type 0} → Raised → Action W A
  raise e w = (err e, w)

  -- A value, or the exception that stands for its absence.
  abbrev pub expect : {A : Type 0} → Option A → Action W A
  expect none = raise unexpected
  expect (some a) = return a

  abbrev pub expect_shape : {A : Type 0} → Result ShapeError A → Action W A
  expect_shape (ok a) = return a
  expect_shape (err e) = raise unexpected

pub record Backend (W : Type 0) : Type 0 where
  pub uuid4 : Action W Text
  pub monotonic : W → ℕ
  pub send : Request → Action W Response
  -- entering and leaving the context manager that an S3 client is
  pub open_s3 : S3ClientOptions → Action W (Unit {0})
  pub close_s3 : Action W (Unit {0})
  -- `upload_fileobj(file, bucket, key)`
  pub upload_fileobj : Bytes → Text → Text → Action W (Unit {0})
  -- the pages of `list_objects_v2`: `Contents`' keys by page
  pub paginate : Text → Text → Action W (List (Option (List Text)))
  -- `get_object` and reading its body
  pub read_object : Text → Text → Action W Bytes
  -- `delete_objects`: a response may report errors, each for one key, which is not deleted then
  pub delete_objects : Text → List Text → Action W (List Text)
  pub redis_get : Text → Action W (Option Text)
  pub redis_set : Text → Text → ℕ → Action W (Unit {0})
  pub redis_delete : Text → Action W (Unit {0})
  -- whether httpx's `raise_for_status` returns
  pub is_success : Response → Bool
  pub model_dump_json : TaskRecord → Text
  pub model_validate_json : Text → Option TaskRecord
  -- pydantic's construction: the three required fields and the four optional ones
  pub task_status_response :
      Json
      → Json
      → Json
      → Option Json
      → Option Json
      → Option Json
      → Option Json
      → Option TaskStatusResponse
  pub float_of : Json → Option Json
  pub decode : Bytes → Option Text
  pub loads : Text → Option Json
  pub dumps_statuses : List DocumentStatus → Bytes
  -- an f-string's text of a value that is no string
  pub format : Json → Text
  -- whether a number that is no natural number equals 0
  pub is_zero_literal : Text → Bool

abbrev pub translated : {W A : Type 0} → Result Raised A × W → Result Raised A × W
translated (err transport, w) = (err (http_exception 502), w)
translated (r, w) = (r, w)

-- `_translate_transport_errors`
unfoldable pub translate_transport_errors : {W A : Type 0} → Action W A → Action W A
translate_transport_errors func w = translated (func w)
