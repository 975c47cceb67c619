-- ===== src/Scripts/ChunkChainSpike.antt =====
-- scripts/chunk_chain_spike.py: chunk the JSON of a converted document straight from S3. The printed
-- lines are left out but for what they raise, and so is the clock.
pub mod Laws
pub mod Polling
use docling_serve_ray.Prelude.{
  ℕ, zero, suc, ◌+◌, ◌*◌, Bool, true, false, ◌||◌, ◌&&◌, not, Option, none, some, List, [], ◌∷◌,
  ◌++◌, if◌then◌else◌, any, ◌==◌, length,
}
use docling_serve_ray.Text.{Text, codes, str_eq, starts_with}
use docling_serve_ray.Dict.{contains}
use docling_serve_ray.Json
use docling_serve_ray.Json.{Json, Items, nil, cons, Fields, end, field}
use docling_serve_ray.Http.{S3Coordinates, Response}
use docling_serve_ray.Facade.Backend.{
  Action, transport, unexpected, ◌>>=◌, ◌>>◌, return, raise, expect, expect_shape,
}
use docling_serve_ray.Scripts.SendPdf.{not_terminal}

abbrev bucket : Text
bucket = codes "docling-output"

-- The body of the submission: the URL of the one source, `from_formats`, and the target.
pub record ChunkBody : Type 0 where
  pub url : Text
  pub from_formats : List Text
  pub target : S3Coordinates

-- What stands before the last occurrence of `sep`, if there is one.
unfoldable pub before_last : Text → Text → Option Text
before_last sep [] = none
before_last sep (c ∷ s) = elim (before_last sep s) [
  | some before ↦ some (c ∷ before)
  | none ↦ if starts_with (c ∷ s) sep then some [] else none
]

-- `s.rsplit(sep, 1)[0]`
unfoldable pub rsplit_head : Text → Text → Text
unfolding before_last
rsplit_head sep s = elim (before_last sep s) [ none ↦ s | some before ↦ before ]

unfoldable pub out_prefix : Text → Text
out_prefix json_key = rsplit_head (codes "/convert/") json_key ++ codes "/chunk/spike/"

-- `value.get(k, [])`
abbrev pub get_list : Text → Json → Option Json
get_list k (Json.obj fs) = some (elim (Json.find_field k fs) [ none ↦ Json.arr nil | some j ↦ j ])
get_list k _ = none

abbrev items_of_keys : Fields → List Json
items_of_keys end = []
items_of_keys (field k j fs) = Json.str k ∷ items_of_keys fs

abbrev pub items : Items → List Json
items nil = []
items (cons j js) = j ∷ items js

abbrev chars : Text → List Json
chars [] = []
chars (c ∷ s) = Json.str (c ∷ []) ∷ chars s

-- `for d in value`: an object gives its keys, a text its characters.
unfoldable pub elements : Json → Option (List Json)
elements (Json.arr js) = some (items js)
elements (Json.obj fs) = some (items_of_keys fs)
elements (Json.str s) = some (chars s)
elements _ = none

-- `[d.get(k) for d in docs]`
unfoldable pub get_each : {W : Type 0} → Text → List Json → Action W (List (Option Json))
get_each k [] = return []
get_each k (d ∷ ds) = do j ← expect_shape (Json.get k d); js ← get_each k ds; return (j ∷ js)

-- `[e.get("error_message") for d in docs for e in d.get("errors", [])]`
unfoldable pub error_messages : {W : Type 0} → List Json → Action W (List (Option Json))
unfolding elements get_each
error_messages [] = return []
error_messages (d ∷ ds) = do
  found ← expect (get_list (codes "errors") d)
  errors ← expect (elements found)
  messages ← get_each (codes "error_message") errors
  rest ← error_messages ds
  return (messages ++ rest)

-- `e[:120]`: a text or a list can be sliced.
abbrev is_sliceable : Option Json → Bool
is_sliceable (some (Json.str s)) = true
is_sliceable (some (Json.arr js)) = true
is_sliceable _ = false

abbrev all_sliceable : List (Option Json) → Bool
all_sliceable [] = true
all_sliceable (e ∷ es) = is_sliceable e && all_sliceable es

abbrev blocked_message : Text
blocked_message = codes "URL is not allowed"

-- `t in s` for texts
unfoldable pub has_part : Text → Text → Bool
has_part t [] = starts_with [] t
has_part t (c ∷ s) = let rest = has_part t s in if starts_with (c ∷ s) t then true else rest

abbrev is_text : Text → Json → Bool
is_text t (Json.str s) = str_eq s t
is_text t _ = false

-- `"URL is not allowed" in e`
unfoldable pub is_blocked : Option Json → Bool
unfolding has_part
is_blocked (some (Json.str s)) = has_part blocked_message s
is_blocked (some (Json.arr js)) = any (is_text blocked_message) (items js)
is_blocked _ = false

-- `doc_statuses == ["success"]`
unfoldable pub only_success : List (Option Json) → Bool
only_success (some (Json.str s) ∷ []) = str_eq s (codes "success")
only_success _ = false

-- `json.dumps(chunks[0])`, for `chunks` that is not empty; an object has no key 0.
abbrev has_first : Json → Bool
has_first (Json.obj fs) = false
has_first _ = true

-- What the script calls: the presigning of a GET, the chunk endpoint and the two GETs of
-- docling-serve, `raise_for_status`, the JSON of "chunked_result.json" in a response's zip, and the
-- first page of a listing.
pub record SpikeTools (W : Type 0) : Type 0 where
  pub presigned_url : Text → Text → ℕ → Text
  pub post : Text → ChunkBody → Action W Response
  pub get : Text → Option ℕ → Action W Response
  pub is_success : Response → Bool
  pub chunked_result : Response → Option Json
  pub list_objects : Text → Text → Action W (List Text)

module _ {W : Type 0} (tools : SpikeTools W) where
  unfoldable pub chunk_body : Text → ChunkBody
  unfolding out_prefix
  chunk_body json_key = record {
    url = tools.presigned_url bucket json_key (7 * 24 * 3600);
    from_formats = codes "json_docling" ∷ [];
    target = record {
      endpoint = codes "minio:9000";
      verify_ssl = false;
      access_key = codes "minioadmin";
      secret_key = codes "minioadmin123";
      bucket = bucket;
      key_prefix = out_prefix json_key;
    };
  }

  -- The polling loop: `none` where `turns` polls have not found the end.
  unfoldable pub poll_until : ℕ → Text → Action W (Option Json)
  unfolding not_terminal
  poll_until zero task_id = return none
  poll_until (suc turns) task_id = do
    let again = poll_until turns task_id
    r ← tools.get (codes "/v1/status/poll/" ++ task_id) (some 5)
    status ← expect r.json
    task_status ← expect_shape (Json.index (codes "task_status") status)
    goes_on ← expect (not_terminal task_status)
    if goes_on then again else return (some task_status)

  -- The result's JSON, out of a zip or as it stands.
  unfoldable pub result_of : Response → Option Json
  result_of r = elim r.content_type [
    | none ↦ r.json
    | some t ↦ if starts_with t (codes "application/zip") then tools.chunked_result r else r.json
  ]

  -- The end of `main`: its exit code.
  unfoldable pub verdict : Bool → List (Option Json) → List (Option Json) → Json → Action W ℕ
  unfolding is_blocked only_success elements
  verdict true statuses errors chunks = return (if any is_blocked errors then 0 else 1)
  verdict false statuses errors chunks = do
    found ← expect (elements chunks)
    if not (only_success statuses) || length found == 0
        then return 1
        else if has_first chunks
        then return 0
        else raise unexpected

  -- `main` once the result is there.
  unfoldable pub judge : Bool → Text → Json → Action W ℕ
  unfolding verdict get_each error_messages elements
  judge expect_blocked json_key result = do
    documents ← expect (get_list (codes "documents") result)
    docs ← expect (elements documents)
    statuses ← get_each (codes "status") docs
    errors ← error_messages docs
    chunks ← expect (get_list (codes "chunks") result)
    sized ← expect (elements chunks)
    if all_sliceable errors then return tt else raise unexpected
    keys ← tools.list_objects bucket (out_prefix json_key)
    verdict expect_blocked statuses errors chunks

  -- `main` once the task has ended.
  unfoldable pub judge_ended : Bool → Text → Text → Option Json → Action W (Option ℕ)
  unfolding judge result_of
  judge_ended expect_blocked json_key task_id none = return none
  judge_ended expect_blocked json_key task_id (some status) = do
    r ← tools.get (codes "/v1/result/" ++ task_id) none
    result ← expect (result_of r)
    code ← judge expect_blocked json_key result
    return (some code)

  -- `main`; `none` where `turns` polls have not found the end. A task's id is a text.
  unfoldable pub main : ℕ → List Text → Action W (Option ℕ)
  unfolding chunk_body poll_until judge_ended
  main turns (script ∷ json_key ∷ arguments) = do
    r ← tools.post (codes "/v1/chunk/hybrid/source/async") (chunk_body json_key)
    if tools.is_success r then return tt else raise transport
    task ← expect r.json
    id ← expect_shape (Json.index (codes "task_id") task)
    task_id ← expect_shape (Json.as_text id)
    ended ← poll_until turns task_id
    judge_ended (contains (codes "--expect-blocked") (script ∷ json_key ∷ arguments)) json_key
        task_id ended
  main turns _ = raise unexpected
