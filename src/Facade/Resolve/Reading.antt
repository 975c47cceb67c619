-- ===== src/Facade/Resolve/Reading.antt =====
-- Resolving a result changes nothing in Redis.
use docling_serve_ray.Facade.Clients.Laws.{Ensures-with_s3_client}
use docling_serve_ray.Facade.Clients.{with_s3_client, s3_client}
use docling_serve_ray.Prelude.{
  ◌≡◌, refl, ap, sym, ◌∙◌, ◌||◌, Option, none, some, List, [], ◌∷◌, ltb, leb, length,
}
use docling_serve_ray.Result.{Result, ok}
use docling_serve_ray.Text.{Text, codes}
use docling_serve_ray.Dict.{Dict}
use docling_serve_ray.Json
use docling_serve_ray.Json.{Json}
use docling_serve_ray.Http.{Response}
use docling_serve_ray.Facade.Schemas.{TaskRecord, Settings}
use docling_serve_ray.Facade.Artifacts.{
  Artifacts, parse_artifact_key, list_artifacts, build_export_document_response, build_zip_archive,
}
use docling_serve_ray.Facade.Backend.{
  Action, Backend, Raised, unexpected, return, then_run, translate_transport_errors,
}
use docling_serve_ray.Facade.Backend.Laws.{
  Ensures, Ensures-raise, Ensures-ok, Ensures-mono, Ensures-return, Ensures-translated, Ensures-if,
  Ensures-then_run, Ensures-last, Ensures-expect, Ensures-expect_shape,
}
use docling_serve_ray.Facade.Stores.{View, SameStored, IsRedis}
use docling_serve_ray.Facade.Submit.{record_key, output_prefix}
use docling_serve_ray.Facade.Resolve.{
  Resolved, Cleanup, passthrough, zipped, documents, expect_head, fetch_one, fetch_loop,
  fetch_artifacts_by_stem, build_inline, build_result, is_zero, processing_time_of, reconstruct,
  resolve_native, resolve_own, result_request, resolve_raw, resolve_result,
}

module _ {W : Type 0} (B : Backend W) (V : View W) (settings : Settings) (redis : IsRedis B V) where
  -- Redis is as it was at `w`.
  record IsUnchanged {A : Type 0} (w : W) (a : A) (v : W) : Type 0 where
    at : (j : Text) → V.stored v j ≡ V.stored w j

  unchanged : {A : Type 0} (w : W) (a : A) → IsUnchanged w a w
  unchanged w a = record { at = λ j. refl }

  after :
      {A : Type 0} {p : Result Raised A × W} {a : A} {v w : W}
      → p ≡ (ok a, v)
      → SameStored V w p.1
      → (j : Text) → V.stored v j ≡ V.stored w j
  after e h j = sym (ap (λ q. V.stored q.1 j) e) ∙ h.at j

  service :
      {A : Type 0} (w : W) (p : Result Raised A × W)
      → SameStored V w p.1
      → Ensures (IsUnchanged w) p
  service w p h = Ensures-last (IsUnchanged w) p λ a v e. record { at = after e h }

  -- Two steps that leave Redis as it is.
  steps :
      {A C : Type 0} (w : W) (p : Result Raised A × W) (next : A → Action W C)
      → Ensures (IsUnchanged w) p
      → ((a : A) (v : W) → Ensures (IsUnchanged v) (next a v))
      → Ensures (IsUnchanged w) (then_run p next)
  steps w p next h k = Ensures-then_run (IsUnchanged w) p next λ a v e.
      let first = Ensures-ok (IsUnchanged w) e h in
      Ensures-mono (IsUnchanged v) (IsUnchanged w) (next a v) (k a v)
        λ c u rest. record { at = λ j. rest.at j ∙ first.at j }

  with_s3_client-Ensures :
      {A : Type 0} (body : Action W A) (w : W)
      → ((v : W) → Ensures (IsUnchanged v) (body v))
      → Ensures (IsUnchanged w) (with_s3_client B settings body w)
  with_s3_client-Ensures body w h = Ensures-with_s3_client B settings body w (IsUnchanged w) λ v e.
      Ensures-mono (IsUnchanged v) _ (body v) (h v) λ a u same x closed. record {
        at = λ j.
            after closed (redis.close_s3-SameStored u) j
            ∙ same.at j
            ∙ after e (redis.open_s3-SameStored (s3_client settings) w) j;
      }

  fetch_one-Ensures :
      (bucket key : Text) (grouped : Dict Artifacts) (part : Option (Text × Text × Text)) (w : W)
      → Ensures (IsUnchanged w) (fetch_one B settings bucket key grouped part w)
  unfolding fetch_one
  fetch_one-Ensures bucket key grouped none w =
      Ensures-return (IsUnchanged w) grouped w (unchanged w grouped)
  fetch_one-Ensures bucket key grouped (some part) w =
      steps w (B.read_object bucket key w) _
        (service w _ (redis.read_object-SameStored bucket key w))
        λ content v. Ensures-return (IsUnchanged v) _ v (unchanged v _)

  fetch_loop-Ensures :
      (bucket prefix : Text) (keys : List Text) (grouped : Dict Artifacts) (w : W)
      → Ensures (IsUnchanged w) (fetch_loop B settings bucket prefix keys grouped w)
  unfolding fetch_loop
  fetch_loop-Ensures bucket prefix [] grouped w =
      Ensures-return (IsUnchanged w) grouped w (unchanged w grouped)
  fetch_loop-Ensures bucket prefix (key ∷ keys) grouped w =
      let part = parse_artifact_key prefix key in
      steps w (fetch_one B settings bucket key grouped part w) _
        (fetch_one-Ensures bucket key grouped part w)
        λ more v. fetch_loop-Ensures bucket prefix keys more v

  build_inline-Ensures :
      (d : Text × Text × Artifacts) (native : Json) (w : W)
      → Ensures (IsUnchanged w) (build_inline B settings d native w)
  unfolding build_inline
  build_inline-Ensures (filename, stem, artifacts) native w =
      let Q : Resolved → W → Type 0 = IsUnchanged w in
      Ensures-expect Q (build_export_document_response B.decode B.loads filename artifacts) w _
        λ document _.
          Ensures-expect_shape Q (Json.get (codes "processing_time") native) w _ λ found _.
            Ensures-expect Q (B.float_of (processing_time_of B settings found)) w _
              λ time _. Ensures-return Q _ w (unchanged w _)

  build_first-Ensures :
      (ds : List (Text × Text × Artifacts)) (native : Json) (w : W)
      → Ensures
          (IsUnchanged w)
          (then_run (expect_head ds w) (λ d. build_inline B settings d native))
  build_first-Ensures [] native w = Ensures-raise (IsUnchanged w) unexpected w
  build_first-Ensures (d ∷ ds) native w = build_inline-Ensures d native w

  build_result-Ensures :
      (r : TaskRecord) (native : Json) (grouped : Dict Artifacts) (w : W)
      → Ensures (IsUnchanged w) (build_result B settings r native grouped w)
  unfolding build_result
  build_result-Ensures r native grouped w =
      let ds = documents grouped r.filenames in
      Ensures-if (IsUnchanged w) (r.as_zip || ltb 1 (length r.filenames))
        (return (zipped (build_zip_archive B.dumps_statuses ds)))
        (λ v. then_run (expect_head ds v) (λ d. build_inline B settings d native)) w
        (λ _. Ensures-return (IsUnchanged w) _ w (unchanged w _))
        λ _. build_first-Ensures ds native w

  fetch_artifacts_by_stem-Ensures :
      (bucket prefix : Text) (w : W)
      → Ensures (IsUnchanged w) (fetch_artifacts_by_stem B settings bucket prefix w)
  unfolding fetch_artifacts_by_stem
  fetch_artifacts_by_stem-Ensures bucket prefix w =
      steps w (B.paginate bucket prefix w) _
        (service w _ (redis.paginate-SameStored bucket prefix w))
        λ pages v. fetch_loop-Ensures bucket prefix (list_artifacts pages) [] v

  reconstruct-Ensures :
      (task_id : Text) (r : TaskRecord) (native : Json) (w : W)
      → Ensures (IsUnchanged w) (reconstruct B settings task_id r native w)
  unfolding reconstruct
  reconstruct-Ensures task_id r native w =
      let prefix = output_prefix settings r.request_id in
      let fetch = fetch_artifacts_by_stem B settings settings.s3_output_bucket prefix in
      steps w (with_s3_client B settings fetch w) _
        (with_s3_client-Ensures fetch w
          (fetch_artifacts_by_stem-Ensures settings.s3_output_bucket prefix))
        λ grouped v.
          steps v (build_result B settings r native grouped v) _
            (build_result-Ensures r native grouped v)
            λ result u. Ensures-return (IsUnchanged u) _ u (unchanged u _)

  resolve_native-Ensures :
      (task_id : Text) (r : TaskRecord) (response : Response) (w : W)
      → Ensures (IsUnchanged w) (resolve_native B settings task_id r response w)
  unfolding resolve_native
  resolve_native-Ensures task_id r response w =
      let Q : Resolved × List Cleanup → W → Type 0 = IsUnchanged w in
      Ensures-expect Q response.json w _ λ native _.
        Ensures-expect_shape Q (Json.get (codes "num_succeeded") native) w _ λ succeeded _.
          Ensures-if Q (is_zero B settings succeeded) (return (passthrough response, []))
            (reconstruct B settings task_id r native) w (λ _. Ensures-return Q _ w (unchanged w _))
            λ _. reconstruct-Ensures task_id r native w

  resolve_own-Ensures :
      (task_id : Text) (r : TaskRecord) (response : Response) (w : W)
      → Ensures (IsUnchanged w) (resolve_own B settings task_id r response w)
  unfolding resolve_own
  resolve_own-Ensures task_id r response w =
      Ensures-if (IsUnchanged w) (leb 400 response.status_code) (return (passthrough response, []))
        (resolve_native B settings task_id r response) w
        (λ _. Ensures-return (IsUnchanged w) _ w (unchanged w _))
        λ _. resolve_native-Ensures task_id r response w

  resolve_raw-Ensures :
      (task_id : Text) (tenant_id raw : Option Text) (w : W)
      → Ensures (IsUnchanged w) (resolve_raw B settings task_id tenant_id raw w)
  unfolding resolve_raw
  resolve_raw-Ensures task_id tenant_id none w =
      let q = result_request B settings task_id tenant_id in
      steps w (B.send q w) _ (service w _ (redis.send-SameStored q w))
        λ r v. Ensures-return (IsUnchanged v) _ v (unchanged v _)
  resolve_raw-Ensures task_id tenant_id (some raw) w =
      let q = result_request B settings task_id tenant_id in
      Ensures-expect (IsUnchanged w) (B.model_validate_json raw) w _ λ r _.
        steps w (B.send q w) _ (service w _ (redis.send-SameStored q w))
          λ response v. resolve_own-Ensures task_id r response v

  -- Resolving a result changes no value in Redis.
  pub resolve_result-IsUnchanged :
      (task_id : Text) (tenant_id : Option Text) (w v : W) (result : Resolved × List Cleanup)
      → resolve_result B settings task_id tenant_id w ≡ (ok result, v)
      → (j : Text) → V.stored v j ≡ V.stored w j
  unfolding resolve_result translate_transport_errors
  resolve_result-IsUnchanged task_id tenant_id w v result h =
      let key = record_key task_id in
      (Ensures-ok (IsUnchanged w) h (
        Ensures-translated (IsUnchanged w) _ (
          steps w (B.redis_get key w) _ (service w _ (redis.get-SameStored key w))
            λ raw u. resolve_raw-Ensures task_id tenant_id raw u))).at
