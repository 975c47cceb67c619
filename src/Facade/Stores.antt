-- ===== src/Facade/Stores.antt =====
-- What the facade relies on: a view of what Redis and the object store hold, and what each call of
-- the services does to it. Between two calls nothing else touches the facade's keys, and no record
-- expires.
use docling_serve_ray.Prelude.{
  ℕ, ◌≡◌, Bool, false, ◌&&◌, not, Option, none, some, List, if◌then◌else◌,
}
use docling_serve_ray.Result.{ok}
use docling_serve_ray.Text.{Text, str_eq, starts_with}
use docling_serve_ray.Dict.{contains}
use docling_serve_ray.Json.{Json}
use docling_serve_ray.Http.{Request, S3ClientOptions}
use docling_serve_ray.Facade.Schemas.{Bytes, TaskRecord, TaskStatusResponse}
use docling_serve_ray.Facade.Artifacts.{list_artifacts}
use docling_serve_ray.Facade.Backend.{Backend}

-- Redis's value under a key, and whether a bucket holds a key.
pub record View (W : Type 0) : Type 0 where
  pub stored : W → Text → Option Text
  pub held : W → Text → Text → Bool

-- The two worlds have the same values in Redis, or the same objects.
pub record SameStored {W : Type 0} (V : View W) (w v : W) : Type 0 where
  pub at : (k : Text) → V.stored v k ≡ V.stored w k

pub record SameHeld {W : Type 0} (V : View W) (w v : W) : Type 0 where
  pub at : (bucket k : Text) → V.held v bucket k ≡ V.held w bucket k

-- Redis: documented behaviour of GET, SET and DEL, on the key given and on the others; the other
-- services do not use the facade's keys.
pub record IsRedis {W : Type 0} (B : Backend W) (V : View W) : Type 0 where
  pub get :
      (k : Text) (w : W) (found : Option Text)
      → (B.redis_get k w).0 ≡ ok found
      → V.stored w k ≡ found
  pub get-SameStored : (k : Text) (w : W) → SameStored V w (B.redis_get k w).1
  pub set :
      (k x : Text) (ttl : ℕ) (w v : W)
      → B.redis_set k x ttl w ≡ (ok tt, v)
      → (j : Text) → V.stored v j ≡ (if str_eq k j then some x else V.stored w j)
  pub delete :
      (k : Text) (w v : W)
      → B.redis_delete k w ≡ (ok tt, v)
      → (j : Text) → V.stored v j ≡ (if str_eq k j then none else V.stored w j)
  pub delete_others :
      (k : Text) (w : W) (j : Text)
      → str_eq k j ≡ false
      → V.stored (B.redis_delete k w).1 j ≡ V.stored w j
  pub uuid4-SameStored : (w : W) → SameStored V w (B.uuid4 w).1
  pub send-SameStored : (q : Request) (w : W) → SameStored V w (B.send q w).1
  pub open_s3-SameStored : (o : S3ClientOptions) (w : W) → SameStored V w (B.open_s3 o w).1
  pub close_s3-SameStored : (w : W) → SameStored V w (B.close_s3 w).1
  pub upload_fileobj-SameStored :
      (file : Bytes) (bucket key : Text) (w : W)
      → SameStored V w (B.upload_fileobj file bucket key w).1
  pub paginate-SameStored :
      (bucket prefix : Text) (w : W) → SameStored V w (B.paginate bucket prefix w).1
  pub read_object-SameStored :
      (bucket key : Text) (w : W) → SameStored V w (B.read_object bucket key w).1
  pub delete_objects-SameStored :
      (bucket : Text) (keys : List Text) (w : W) → SameStored V w (B.delete_objects bucket keys w).1

-- The object store: a listing has exactly the keys with the prefix; deleting takes away exactly the
-- keys that are named and for which the response reports no error, and where it raises, none but
-- keys that are named. Redis holds no objects.
pub record IsObjectStore {W : Type 0} (B : Backend W) (V : View W) : Type 0 where
  pub listed :
      (bucket prefix : Text) (w v : W) (pages : List (Option (List Text)))
      → B.paginate bucket prefix w ≡ (ok pages, v)
      → (key : Text)
      → contains key (list_artifacts pages) ≡ (V.held w bucket key && starts_with key prefix)
  pub paginate-SameHeld :
      (bucket prefix : Text) (w : W) → SameHeld V w (B.paginate bucket prefix w).1
  pub deleted :
      (bucket : Text) (keys errors : List Text) (w v : W)
      → B.delete_objects bucket keys w ≡ (ok errors, v)
      → (b key : Text)
      → V.held v b key ≡ (
          V.held w b key
          && not (str_eq bucket b && (contains key keys && not (contains key errors))))
  pub delete_only_named :
      (bucket : Text) (keys : List Text) (w : W) (b key : Text)
      → (str_eq bucket b && contains key keys) ≡ false
      → V.held (B.delete_objects bucket keys w).1 b key ≡ V.held w b key
  pub open_s3-SameHeld : (o : S3ClientOptions) (w : W) → SameHeld V w (B.open_s3 o w).1
  pub close_s3-SameHeld : (w : W) → SameHeld V w (B.close_s3 w).1
  pub redis_delete-SameHeld : (k : Text) (w : W) → SameHeld V w (B.redis_delete k w).1

-- pydantic: what `model_dump_json` writes is read back, and the response's `task_id` is a text.
pub record IsPydantic {W : Type 0} (B : Backend W) : Type 0 where
  pub validate-dump : (r : TaskRecord) → B.model_validate_json (B.model_dump_json r) ≡ some r
  pub task_id_is_text :
      (task_id task_type task_status : Json) (position meta message failure : Option Json)
      (t : TaskStatusResponse)
      → B.task_status_response task_id task_type task_status position meta message failure ≡ some t
      → task_id ≡ Json.str t.task_id
