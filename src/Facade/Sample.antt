-- ===== src/Facade/Sample.antt =====
-- Small services that keep the laws of `Stores`: Redis is a dict, and the object store is a list of
-- buckets and keys whose contents are all the same.
pub mod Codec
pub mod Settings
use docling_serve_ray.Prelude.{
  ℕ, suc, ◌≡◌, refl, ap, subst, sym, ◌∙◌, Bool, true, false, ◌&&◌, ◌||◌, not, Option, none, some,
  List, [], ◌∷◌, arith, if◌then◌else◌, append-nil,
}
use docling_serve_ray.Result.{Result, ok, err}
use docling_serve_ray.Text.{Text, codes, str_eq, starts_with}
use docling_serve_ray.Text.Laws.{str_eq_iff}
use docling_serve_ray.Dict.{Dict, lookup, insert, erase, contains}
use docling_serve_ray.Dict.Laws.{lookup-insert, lookup-erase}
use docling_serve_ray.Json
use docling_serve_ray.Json.{Json, Fields}
use docling_serve_ray.Http.{Request, Response}
use docling_serve_ray.Facade.Schemas.{TaskRecord, TaskStatusResponse}
use docling_serve_ray.Facade.Artifacts.{list_artifacts}
use docling_serve_ray.Facade.Backend.{Action, Backend, return}
use docling_serve_ray.Facade.Stores.{View, IsRedis, IsObjectStore, IsPydantic}
use docling_serve_ray.Facade.Sample.Codec.{dump, validate, validate-dump}

pub record World : Type 0 where
  pub clock : ℕ
  pub values : Dict Text
  pub objects : List (Text × Text)

unfoldable pub is_held : List (Text × Text) → Text → Text → Bool
is_held [] bucket key = false
is_held ((b, k) ∷ objects) bucket key =
    (str_eq b bucket && str_eq k key) || is_held objects bucket key

unfoldable pub keys_under : List (Text × Text) → Text → Text → List Text
keys_under [] bucket prefix = []
keys_under ((b, k) ∷ objects) bucket prefix =
    let rest = keys_under objects bucket prefix in
    if str_eq b bucket && starts_with k prefix then k ∷ rest else rest

unfoldable pub without : List (Text × Text) → Text → List Text → List (Text × Text)
without [] bucket keys = []
without ((b, k) ∷ objects) bucket keys =
    let rest = without objects bucket keys in
    if str_eq bucket b && contains k keys then rest else (b, k) ∷ rest

abbrev pub body : Json
body = Json.obj (
    Fields.field (codes "task_id") (Json.str (codes "t")) (
      Fields.field (codes "task_type") (Json.str (codes "convert")) (
        Fields.field (codes "task_status") (Json.str (codes "success"))
          (Fields.field (codes "num_succeeded") (Json.num 1) Fields.end))))

abbrev pub answer : Response
answer = record {
  status_code = 200;
  is_error = false;
  is_server_error = false;
  content = [];
  content_type = none;
  json = some body;
}

abbrev respond : Json → Option TaskStatusResponse
respond (Json.str id) = some (record {
  task_id = id;
  task_type = codes "convert";
  task_status = codes "success";
  task_position = none;
  task_meta = none;
  error_message = none;
  failure = none;
})
respond _ = none

-- A response takes one millisecond.
abbrev pub services : Backend World
services = record {
  uuid4 = return (codes "r");
  monotonic = λ w. w.clock;
  send = λ q w. (ok answer, record w { clock = suc w.clock });
  open_s3 = λ options. return tt;
  close_s3 = return tt;
  upload_fileobj = λ file bucket key w. (ok tt, record w { objects = (bucket, key) ∷ w.objects });
  paginate = λ bucket prefix w. (ok (some (keys_under w.objects bucket prefix) ∷ []), w);
  read_object = λ bucket key. return (codes "hi");
  delete_objects = λ bucket keys w. (ok [], record w { objects = without w.objects bucket keys });
  redis_get = λ key w. (ok (lookup key w.values), w);
  redis_set = λ key v ttl w. (ok tt, record w { values = insert key v w.values });
  redis_delete = λ key w. (ok tt, record w { values = erase key w.values });
  is_success = λ r. true;
  model_dump_json = dump;
  model_validate_json = validate;
  task_status_response = λ task_id b c d e f g. respond task_id;
  float_of = some;
  decode = some;
  loads = λ s. none;
  dumps_statuses = λ ds. [];
  format = λ j. [];
  is_zero_literal = λ s. false;
}

abbrev pub view : View World
view = record {
  stored = λ w key. lookup key w.values;
  held = λ w bucket key. is_held w.objects bucket key;
}

respond-eq : (j : Json) (t : TaskStatusResponse) → respond j ≡ some t → j ≡ Json.str t.task_id
respond-eq (Json.str s) t h = ap Json.str (cc h)
respond-eq _ t h = absurd (ground arith)

pub services-IsPydantic : IsPydantic services
services-IsPydantic = record {
  validate-dump = validate-dump;
  task_id_is_text = λ j b c d e f g t h. respond-eq j t h;
}

first_of : {A C : Type 0} {a b : A} {c d : C} → ◌≡◌ {A = A × C} (a, c) (b, d) → c ≡ d
first_of h = ap (λ p. p.1) h

pub services-IsRedis : IsRedis services view
services-IsRedis = record {
  get = λ k w found h. cc h;
  get-SameStored = λ k w. record { at = λ j. refl };
  set = λ k x ttl w v h j.
      ap (λ u. lookup j u.values) (sym (first_of h)) ∙ lookup-insert k j x w.values;
  delete = λ k w v h j. ap (λ u. lookup j u.values) (sym (first_of h)) ∙ lookup-erase k j w.values;
  delete_others =
      λ k w j h. lookup-erase k j w.values ∙ ap (λ b. if b then none else lookup j w.values) h;
  uuid4-SameStored = λ w. record { at = λ j. refl };
  send-SameStored = λ q w. record { at = λ j. refl };
  open_s3-SameStored = λ o w. record { at = λ j. refl };
  close_s3-SameStored = λ w. record { at = λ j. refl };
  upload_fileobj-SameStored = λ f b k w. record { at = λ j. refl };
  paginate-SameStored = λ b p w. record { at = λ j. refl };
  read_object-SameStored = λ b k w. record { at = λ j. refl };
  delete_objects-SameStored = λ b ks w. record { at = λ j. refl };
}

listed_keys :
    (objects : List (Text × Text)) (bucket prefix key : Text)
    → contains key (keys_under objects bucket prefix)
      ≡ (is_held objects bucket key && starts_with key prefix)
unfolding contains keys_under is_held
listed_keys [] bucket prefix key = refl
listed_keys ((b, k) ∷ objects) bucket prefix key =
    ground (arith, listed_keys objects bucket prefix key, str_eq_iff k key)

held_without :
    (objects : List (Text × Text)) (bucket : Text) (keys : List Text) (b key : Text)
    → is_held (without objects bucket keys) b key
      ≡ (is_held objects b key && not (str_eq bucket b && contains key keys))
unfolding is_held without
held_without [] bucket keys b key = refl
held_without ((c, k) ∷ objects) bucket keys b key = ground (
  arith,
  held_without objects bucket keys b key,
  str_eq_iff k key,
  str_eq_iff c b,
  str_eq_iff bucket b,
  str_eq_iff bucket c,
)

-- No response reports an error.
held_without_errors :
    (objects : List (Text × Text)) (bucket : Text) (keys errors : List Text) (b key : Text)
    → [] ≡ errors
    → is_held (without objects bucket keys) b key ≡ (
        is_held objects b key
        && not (str_eq bucket b && (contains key keys && not (contains key errors))))
unfolding contains
held_without_errors objects bucket keys errors b key e =
    subst
      (λ es. is_held (without objects bucket keys) b key ≡ (
        is_held objects b key
        && not (str_eq bucket b && (contains key keys && not (contains key es)))))
      e (held_without objects bucket keys b key ∙ ground arith)

contains_one_page :
    (keys : List Text) (key : Text)
    → contains key (list_artifacts (some keys ∷ [])) ≡ contains key keys
unfolding list_artifacts
contains_one_page keys key = ap (contains key) (append-nil keys)

pub services-IsObjectStore : IsObjectStore services view
services-IsObjectStore = record {
  listed = λ bucket prefix w v pages h key.
      ap (λ ps. contains key (list_artifacts ps)) (cc (ap (λ p. p.0) h))
      ∙ contains_one_page (keys_under w.objects bucket prefix) key
      ∙ listed_keys w.objects bucket prefix key;
  paginate-SameHeld = λ bucket prefix w. record { at = λ b k. refl };
  deleted = λ bucket keys errors w v h b key.
      ap (λ u. is_held u.objects b key) (sym (first_of h))
      ∙ held_without_errors w.objects bucket keys errors b key (cc (ap (λ p. p.0) h));
  open_s3-SameHeld = λ o w. record { at = λ b j. refl };
  close_s3-SameHeld = λ w. record { at = λ b j. refl };
  delete_only_named =
      λ bucket keys w b key h. held_without w.objects bucket keys b key ∙ ground arith;
  redis_delete-SameHeld = λ k w. record { at = λ b j. refl };
}
