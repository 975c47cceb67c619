-- ===== src/Http.antt =====
-- Requests to docling-serve and its responses, as httpx shows them, and the request body of the
-- batch endpoint, which the facade and the orchestration build alike.
use docling_serve_ray.Prelude.{ℕ, ◌≤◌, ◌≡◌, ◌↔◌, Bool, true, Option, List}
use docling_serve_ray.Text.{Text}
use docling_serve_ray.Dict.{Dict}
use docling_serve_ray.Json.{Json}

-- The dict of an S3 source or target; its "kind" is always "s3".
pub record S3Coordinates : Type 0 where
  pub endpoint : Text
  pub verify_ssl : Bool
  pub access_key : Text
  pub secret_key : Text
  pub bucket : Text
  pub key_prefix : Text

-- The keyword arguments with which the programs make an S3 client.
pub record S3ClientOptions : Type 0 where
  pub endpoint_url : Text
  pub access_key : Text
  pub secret_key : Text

pub record CallbackSpec : Type 0 where
  pub url : Text
  pub headers : Dict Text

-- `callbacks` is `none` where the body has no such key.
pub record BatchConvertBody : Type 0 where
  pub sources : List S3Coordinates
  pub target : S3Coordinates
  pub options : Dict Json
  pub callbacks : Option (List CallbackSpec)

-- The requests that are made: the path, the headers, and the body or the query's `wait`.
pub data Request : Type 0 where
  post : Text → Dict Text → BatchConvertBody → Request
  get : Text → Dict Text → Option ℕ → Request

-- `json` is `none` where the body does not parse.
pub record Response : Type 0 where
  pub status_code : ℕ
  pub is_error : Bool
  pub is_server_error : Bool
  pub content : List ℕ
  pub content_type : Option Text
  pub json : Option Json

-- What httpx documents of its two properties.
pub record IsHttpx (r : Response) : Type 0 where
  pub error_iff : (r.is_error ≡ true) ↔ ((400 ≤ r.status_code) × (r.status_code ≤ 599))
  pub server_error_iff :
      (r.is_server_error ≡ true) ↔ ((500 ≤ r.status_code) × (r.status_code ≤ 599))

-- A call returns a response or raises a transport error.
pub data HttpResult : Type 0 where
  response : Response → HttpResult
  transport_error : HttpResult
