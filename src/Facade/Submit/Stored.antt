-- ===== src/Facade/Submit/Stored.antt =====
-- What a submission leaves in Redis.
use docling_serve_ray.Facade.Clients.Laws.{Ensures-with_s3_client}
use docling_serve_ray.Facade.Clients.{with_s3_client, s3_client}
use docling_serve_ray.Prelude.{
  ◌≡◌, refl, ap, sym, ◌∙◌, Bool, Option, some, List, [], ◌∷◌, ◌++◌, map, leb, if◌then◌else◌,
}
use docling_serve_ray.Result.{Result, ok}
use docling_serve_ray.Text.{Text, codes, str_eq}
use docling_serve_ray.Dict.{Dict, lookup}
use docling_serve_ray.Json
use docling_serve_ray.Json.{Json}
use docling_serve_ray.Http.{Response, post}
use docling_serve_ray.Facade.Schemas.{TaskRecord, TaskStatusResponse, Settings}
use docling_serve_ray.Facade.Options.{UploadFile, OptionValue}
use docling_serve_ray.Facade.Backend.{
  Backend, Raised, http_exception, raise, translate_transport_errors,
}
use docling_serve_ray.Facade.Backend.Laws.{
  Ensures, Ensures-ok, Ensures-mono, Ensures-return, Ensures-expect_last, Ensures-raise,
  Ensures-translated, Ensures-if, Ensures-then_run, Ensures-expect, Ensures-expect_shape,
}
use docling_serve_ray.Facade.Stores.{View, IsRedis, IsPydantic}
use docling_serve_ray.Facade.Submit.{
  record_key, facade_headers, input_prefix, upload_name, encode_options, to_formats_of,
  submission_body, new_record, formatted, upload_files, describe_task, store_record, submit_upload,
  submit_file_upload,
}

abbrev pub names_of : List UploadFile → List Text
names_of files = map (λ f. upload_name f.filename) files

module _ {W : Type 0} (B : Backend W) (V : View W) where
  -- Redis holds a record of the files under the task's key, and every other value as before.
  pub record IsStored (files : List UploadFile) (as_zip : Bool) (tenant_id : Option Text) (w : W)
      (t : TaskStatusResponse) (v : W) : Type 0 where
    pub stored : TaskRecord
    pub at :
        (j : Text)
        → V.stored v j ≡ (
            if str_eq (record_key t.task_id) j
            then some (B.model_dump_json stored)
            else V.stored w j)
    pub filenames : stored.filenames ≡ names_of files
    pub as_asked : stored.as_zip ≡ as_zip
    pub tenant : stored.tenant_id ≡ tenant_id

  -- The names of the uploads, and Redis as it was.
  record IsUploaded (files : List UploadFile) (w : W) (names : List Text) (v : W) : Type 0 where
    named : names ≡ names_of files
    kept : (j : Text) → V.stored v j ≡ V.stored w j

  record IsDescribed (task_id : Json) (w : W) (t : TaskStatusResponse) (v : W) : Type 0 where
    id : task_id ≡ Json.str t.task_id
    same : v ≡ w

  at_state :
      {A : Type 0} {p : Result Raised A × W} {a : A} {v w : W} (j : Text)
      → p ≡ (ok a, v)
      → V.stored p.1 j ≡ V.stored w j
      → V.stored v j ≡ V.stored w j
  at_state j e h = sym (ap (λ q. V.stored q.1 j) e) ∙ h

  module _ (settings : Settings) (redis : IsRedis B V) where
    upload_files-Ensures :
        (request_id : Text) (files : List UploadFile) (w : W)
        → Ensures (IsUploaded files w) (upload_files B settings request_id files w)
    unfolding upload_files
    upload_files-Ensures request_id [] w =
        Ensures-return (IsUploaded [] w) [] w (record { named = refl; kept = λ j. refl })
    upload_files-Ensures request_id (f ∷ files) w =
        let key = input_prefix settings request_id ++ upload_name f.filename in
        Ensures-then_run (IsUploaded (f ∷ files) w)
          (B.upload_fileobj f.file settings.s3_input_bucket key w) _
          λ _ u e.
            Ensures-then_run (IsUploaded (f ∷ files) w) (upload_files B settings request_id files u)
              _
              λ names v e'.
                let rest =
                  Ensures-ok (IsUploaded files u) e' (upload_files-Ensures request_id files u) in
                let one = redis.upload_fileobj-SameStored f.file settings.s3_input_bucket key w in
                Ensures-return (IsUploaded (f ∷ files) w) _ v record {
                  named = ap (λ ns. upload_name f.filename ∷ ns) rest.named;
                  kept = λ j. rest.kept j ∙ at_state j e (one.at j);
                }

    upload-Ensures :
        (request_id : Text) (files : List UploadFile) (w : W)
        → Ensures
            (IsUploaded files w)
            (with_s3_client B settings (upload_files B settings request_id files) w)
    upload-Ensures request_id files w =
        let body = upload_files B settings request_id files in
        Ensures-with_s3_client B settings body w (IsUploaded files w) λ v e.
          Ensures-mono (IsUploaded files v) _ (body v) (upload_files-Ensures request_id files v)
            λ names u up x closed. record {
              named = up.named;
              kept = λ j.
                  at_state j closed ((redis.close_s3-SameStored u).at j)
                  ∙ up.kept j
                  ∙ at_state j e ((redis.open_s3-SameStored (s3_client settings) w).at j);
            }

    module _ (pydantic : IsPydantic B) where
      describe_task-Ensures :
          (task_id task : Json) (w : W)
          → Ensures (IsDescribed task_id w) (describe_task B settings task_id task w)
      unfolding describe_task
      describe_task-Ensures task_id task w =
          let Q = IsDescribed task_id w in
          Ensures-expect_shape Q (Json.index (codes "task_type") task) w _ λ ty _.
            Ensures-expect_shape Q (Json.index (codes "task_status") task) w _ λ st _.
              Ensures-expect_shape Q (Json.get (codes "task_position") task) w _ λ po _.
                Ensures-expect_shape Q (Json.get (codes "task_meta") task) w _ λ me _.
                  Ensures-expect_shape Q (Json.get (codes "error_message") task) w _ λ er _.
                    Ensures-expect_shape Q (Json.get (codes "failure") task) w _ λ fa _.
                      Ensures-expect_last Q (B.task_status_response task_id ty st po me er fa) w
                        λ t e. record {
                          id = pydantic.task_id_is_text task_id ty st po me er fa t e;
                          same = refl;
                        }

      store_record-Ensures :
          (request_id : Text) (files : List UploadFile) (options : Dict OptionValue) (as_zip : Bool)
          (tenant_id : Option Text) (r : Response) (w0 w : W) (names : List Text)
          → names ≡ names_of files
          → ((j : Text) → V.stored w j ≡ V.stored w0 j)
          → Ensures
              (IsStored files as_zip tenant_id w0)
              (store_record B settings request_id names options as_zip tenant_id r w)
      unfolding store_record
      store_record-Ensures request_id files options as_zip tenant_id r w0 w names named kept =
          let Q = IsStored files as_zip tenant_id w0 in
          Ensures-expect Q r.json w _ λ task _.
            Ensures-expect Q (to_formats_of (lookup (codes "to_formats") options)) w _ λ formats _.
              Ensures-expect_shape Q (Json.index (codes "task_id") task) w _ λ task_id _.
                let made = new_record request_id tenant_id names formats as_zip in
                let key = record_key (formatted B settings task_id) in
                Ensures-then_run Q
                  (B.redis_set key (B.model_dump_json made) settings.record_ttl_seconds w) _
                  λ _ u set.
                    Ensures-mono (IsDescribed task_id u) Q (describe_task B settings task_id task u)
                      (describe_task-Ensures task_id task u)
                      λ t v d.
                        let own : key ≡ record_key t.task_id =
                          ap (λ j. record_key (formatted B settings j)) d.id in
                        let x = B.model_dump_json made in
                        let put : (j : Text)
                            → V.stored v j
                              ≡ (if str_eq (record_key t.task_id) j then some x else V.stored w j) =
                          λ j.
                            ap (λ y. V.stored y j) d.same
                            ∙ redis.set key x settings.record_ttl_seconds w u set j
                            ∙ ap (λ k. if str_eq k j then some x else V.stored w j) own in
                        record {
                          stored = made;
                          at = λ j.
                              put j
                              ∙ ap (λ o. if str_eq (record_key t.task_id) j then some x else o)
                                  (kept j);
                          filenames = named;
                          as_asked = refl;
                          tenant = refl;
                        }

      submit_upload-Ensures :
          (files : List UploadFile) (options : Dict OptionValue) (as_zip : Bool)
          (tenant_id : Option Text) (w : W)
          → Ensures
              (IsStored files as_zip tenant_id w)
              (submit_upload B settings files options as_zip tenant_id w)
      unfolding submit_upload
      submit_upload-Ensures files options as_zip tenant_id w =
          let Q = IsStored files as_zip tenant_id w in
          Ensures-then_run Q (B.uuid4 w) _ λ request_id w1 e1.
            let upload = upload_files B settings request_id files in
            Ensures-then_run Q (with_s3_client B settings upload w1) _ λ names w2 e2.
              Ensures-expect Q (encode_options options) w2 _ λ encoded _.
                let q =
                  post (codes "/v1/convert/source/batch") (facade_headers settings tenant_id)
                    (submission_body settings request_id encoded) in
                Ensures-then_run Q (B.send q w2) _ λ r w3 e3.
                  Ensures-if Q (leb 400 r.status_code) (raise (http_exception r.status_code))
                    (store_record B settings request_id names options as_zip tenant_id r) w3
                    (λ _. Ensures-raise Q (http_exception r.status_code) w3)
                    λ _.
                      let up =
                        Ensures-ok (IsUploaded files w1) e2 (upload-Ensures request_id files w1) in
                      store_record-Ensures request_id files options as_zip tenant_id r w w3 names
                        up.named
                        λ j.
                          at_state j e3 ((redis.send-SameStored q w2).at j)
                          ∙ up.kept j
                          ∙ at_state j e1 ((redis.uuid4-SameStored w).at j)

      -- A submission that returns leaves in Redis, under the key of the task that it returns, a
      -- record with the names of the files in order, the choice of an archive and the tenant, and
      -- changes no other value.
      pub submit_file_upload-IsStored :
          (files : List UploadFile) (options : Dict OptionValue) (as_zip : Bool)
          (tenant_id : Option Text) (w v : W) (t : TaskStatusResponse)
          → submit_file_upload B settings files options as_zip tenant_id w ≡ (ok t, v)
          → IsStored files as_zip tenant_id w t v
      unfolding submit_file_upload translate_transport_errors
      submit_file_upload-IsStored files options as_zip tenant_id w v t h =
          let Q = IsStored files as_zip tenant_id w in
          Ensures-ok Q h
            (Ensures-translated Q _ (submit_upload-Ensures files options as_zip tenant_id w))
