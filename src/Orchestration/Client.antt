-- ===== src/Orchestration/Client.antt =====
-- orchestration/docling_client.py: the request shapes, with `urllib.parse.quote(s, safe='')`.
pub mod Laws
use docling_serve_ray.Prelude.{
  ℕ, ◌+◌, ◌/◌, ◌%◌, Bool, true, false, ◌&&◌, ◌||◌, Option, none, some, List, [], ◌∷◌, ◌++◌, ltb,
  leb, ◌==◌, if◌then◌else◌,
}
use docling_serve_ray.Text.{Text, codes, str_eq, strip_end}
use docling_serve_ray.Dict.{Dict}
use docling_serve_ray.Json.{Json}
use docling_serve_ray.Http.{S3Coordinates, CallbackSpec, BatchConvertBody}
use docling_serve_ray.Orchestration.Models.{Settings}

abbrev pub callback_token_header : Text
callback_token_header = codes "X-Callback-Token"

unfoldable pub convert_output_prefix : Settings → Text → Text → Text
convert_output_prefix settings bucket key =
    settings.output_prefix ++ (bucket ++ (codes "/" ++ (key ++ codes "/convert/")))

unfoldable pub s3_coords : Settings → Text → Text → S3Coordinates
s3_coords settings bucket key_prefix = record {
  endpoint = settings.s3_endpoint;
  verify_ssl = settings.s3_verify_ssl;
  access_key = settings.s3_access_key;
  secret_key = settings.s3_secret_key;
  bucket = bucket;
  key_prefix = key_prefix;
}

-- The bytes of a code point in UTF-8.
unfoldable pub utf8_char : ℕ → List ℕ
utf8_char c =
    if ltb c 128
    then c ∷ []
    else if ltb c 2048
    then (192 + c / 64) ∷ (128 + c % 64) ∷ []
    else if ltb c 65536
    then (224 + c / 4096) ∷ (128 + c / 64 % 64) ∷ (128 + c % 64) ∷ []
    else (240 + c / 262144) ∷ (128 + c / 4096 % 64) ∷ (128 + c / 64 % 64) ∷ (128 + c % 64) ∷ []

unfoldable pub utf8 : Text → List ℕ
utf8 [] = []
utf8 (c ∷ s) = utf8_char c ++ utf8 s

-- Letters, digits, and `_.-~`.
unfoldable pub is_unreserved : ℕ → Bool
is_unreserved b =
    leb b'a' b && leb b b'z'
    || leb b'A' b && leb b b'Z'
    || leb b'0' b && leb b b'9'
    || b == b'_'
    || b == b'.'
    || b == b'-'
    || b == b'~'

unfoldable pub hex_digit : ℕ → ℕ
hex_digit n = if ltb n 10 then b'0' + n else 55 + n

unfoldable pub quote_byte : ℕ → Text
quote_byte b =
    if is_unreserved b then b ∷ [] else b'%' ∷ hex_digit (b / 16) ∷ hex_digit (b % 16) ∷ []

unfoldable pub quote_bytes : List ℕ → Text
quote_bytes [] = []
quote_bytes (b ∷ bs) = quote_byte b ++ quote_bytes bs

-- `quote(s, safe="")`
unfoldable pub quote : Text → Text
quote s = quote_bytes (utf8 s)

-- `not text` of an optional text: `None` and the empty text are false.
unfoldable pub is_falsy : Option Text → Bool
is_falsy none = true
is_falsy (some []) = true
is_falsy (some (c ∷ s)) = false

abbrev text_of : Option Text → Text
text_of none = []
text_of (some s) = s

unfoldable pub callback_specs : Settings → Option Text → List CallbackSpec
unfolding is_falsy
callback_specs settings workflow_id =
    if is_falsy settings.callback_base_url || is_falsy workflow_id
    then []
    else record {
      url =
          strip_end b'/' (text_of settings.callback_base_url)
          ++ (codes "/v1/callbacks/" ++ quote (text_of workflow_id));
      headers = (callback_token_header, settings.callback_token) ∷ [];
    }
      ∷ []

unfoldable pub build_batch_convert_body :
    Settings → Text → Text → Dict Json → List CallbackSpec → BatchConvertBody
unfolding s3_coords convert_output_prefix
build_batch_convert_body settings bucket key options callbacks = record {
  sources = s3_coords settings bucket key ∷ [];
  target = s3_coords settings settings.output_bucket (convert_output_prefix settings bucket key);
  options = options;
  callbacks = some callbacks;
}

unfoldable pub tenant_headers : Settings → Dict Text
unfolding is_falsy
tenant_headers settings =
    if is_falsy settings.tenant_id
    then []
    else (settings.tenant_id_header, text_of settings.tenant_id) ∷ []
