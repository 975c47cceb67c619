-- ===== src/Facade/Resolve/Laws.antt =====
-- What a result of `resolve_result` says of the task's record and of the clean-ups.
use docling_serve_ray.Prelude.{
  ◌≤◌, ◌++◌, ◌≡◌, ap, true, Option, none, some, List, [], ◌∷◌, leb, arith, Bool-cases, inl, inr,
}
use docling_serve_ray.Result.{ok}
use docling_serve_ray.Text.{Text, codes}
use docling_serve_ray.Json
use docling_serve_ray.Json.{Json, ShapeError}
use docling_serve_ray.Http.{Response, get}
use docling_serve_ray.Facade.Schemas.{TaskRecord, Settings}
use docling_serve_ray.Facade.Backend.{Backend, expect, expect_shape, translate_transport_errors}
use docling_serve_ray.Facade.Backend.Laws.{Ensures-returned}
use docling_serve_ray.Facade.Clients.{with_s3_client}
use docling_serve_ray.Facade.Submit.{record_key, output_prefix, facade_headers}
use docling_serve_ray.Facade.Resolve.{
  Resolved, passthrough, Cleanup, build_result, reconstruct, resolve_native, resolve_own,
  resolve_raw, resolve_result, is_zero, fetch_artifacts_by_stem, result_request,
}
use docling_serve_ray.Facade.Resolve.Fetched.{IsFetched, IsFetched-Ensures}
use docling_serve_ray.Facade.Resolve.Rebuilt.{
  Returns, then_run-Returns, returned-Returns, translated-Returns, expect-Returns,
  expect_shape-Returns, build_result-Returns, IsReconstructed,
}

-- Why docling-serve's response is relayed: Redis holds no record, the response is an error, or no
-- document succeeded.
pub data MayRelay {W : Type 0} (B : Backend W) (settings : Settings) (task_id : Text) (w : W)
    (r : Response) : Type 0 where
  unrecorded : (B.redis_get (record_key task_id) w).0 ≡ ok none → MayRelay B settings task_id w r
  is_error : 400 ≤ r.status_code → MayRelay B settings task_id w r
  none_succeeded :
      (native : Json) (succeeded : Option Json)
      → r.json ≡ some native
      → Json.get (codes "num_succeeded") native ≡ ok succeeded
      → is_zero B settings succeeded ≡ true
      → MayRelay B settings task_id w r

-- A result with its clean-ups: the response, unchanged, to a request to docling-serve for the result
-- of that task, and no clean-up, or what is reconstructed for the record that Redis holds, and that
-- task's clean-up.
pub data IsResolved {W : Type 0} (B : Backend W) (settings : Settings) (task_id : Text)
    (tenant_id : Option Text) (w : W) : Resolved × List Cleanup → Type 0 where
  relayed :
      (r : Response) (sent_at : W)
      → (B.send
          (get (codes "/v1/result/" ++ task_id) (facade_headers settings tenant_id) none)
          sent_at).0
        ≡ ok r
      → MayRelay B settings task_id w r
      → IsResolved B settings task_id tenant_id w (passthrough r, [])
  own :
      (raw : Text) (stored : TaskRecord) (result : Resolved)
      → (B.redis_get (record_key task_id) w).0 ≡ ok (some raw)
      → B.model_validate_json raw ≡ some stored
      → IsReconstructed B settings stored result
      → IsResolved B settings task_id tenant_id w
          (result, record { task_id = task_id; task_record = stored } ∷ [])

module _ {W : Type 0} (B : Backend W) (settings : Settings) where
  module _ (task_id : Text) (tenant_id : Option Text) (w0 : W) where
    reconstruct-Returns :
        (raw : Text) (stored : TaskRecord) (native : Json) (w : W)
        → (B.redis_get (record_key task_id) w0).0 ≡ ok (some raw)
        → B.model_validate_json raw ≡ some stored
        → Returns
            (IsResolved B settings task_id tenant_id w0)
            (reconstruct B settings task_id stored native w).0
    unfolding reconstruct output_prefix Returns
    reconstruct-Returns raw stored native w h k =
        let Q = IsResolved B settings task_id tenant_id w0 in
        let bucket = settings.s3_output_bucket in
        let prefix = output_prefix settings stored.request_id in
        let fetch = with_s3_client B settings (fetch_artifacts_by_stem B settings bucket prefix) in
        then_run-Returns Q (fetch w) _ λ grouped v read.
          let fetched =
            Ensures-returned (λ g x. IsFetched B bucket prefix g) (fetch w) read
              (IsFetched-Ensures B settings bucket prefix w) in
          then_run-Returns Q (build_result B settings stored native grouped v) _ λ result u e.
            own raw stored result h k (
              returned-Returns (IsReconstructed B settings stored) e
                (build_result-Returns B settings stored grouped fetched native v))

    resolve_native-Returns :
        (raw : Text) (stored : TaskRecord) (r : Response) (sent_at w : W)
        → (B.send (result_request B settings task_id tenant_id) sent_at).0 ≡ ok r
        → (B.redis_get (record_key task_id) w0).0 ≡ ok (some raw)
        → B.model_validate_json raw ≡ some stored
        → Returns
            (IsResolved B settings task_id tenant_id w0)
            (resolve_native B settings task_id stored r w).0
    unfolding resolve_native result_request Returns
    resolve_native-Returns raw stored r sent_at w sent h k =
        then_run-Returns (IsResolved B settings task_id tenant_id w0) (expect r.json w) _
          λ native v parsed.
            then_run-Returns (IsResolved B settings task_id tenant_id w0)
              (expect_shape (Json.get (codes "num_succeeded") native) v) _
              λ succeeded u got. elim (Bool-cases (is_zero B settings succeeded)) [
                | inl nothing ↦ rw nothing (
                    relayed r sent_at sent (
                      none_succeeded native succeeded (expect-Returns r.json native w parsed)
                        (expect_shape-Returns _ succeeded v got) nothing))
                | inr something ↦ rw something (reconstruct-Returns raw stored native u h k)
              ]

    resolve_own-Returns :
        (raw : Text) (stored : TaskRecord) (r : Response) (sent_at w : W)
        → (B.send (result_request B settings task_id tenant_id) sent_at).0 ≡ ok r
        → (B.redis_get (record_key task_id) w0).0 ≡ ok (some raw)
        → B.model_validate_json raw ≡ some stored
        → Returns
            (IsResolved B settings task_id tenant_id w0)
            (resolve_own B settings task_id stored r w).0
    unfolding resolve_own result_request Returns
    resolve_own-Returns raw stored r sent_at w sent h k =
        elim (Bool-cases (leb 400 r.status_code)) [
          | inl error ↦ rw error (relayed r sent_at sent (is_error (ground (arith, error))))
          | inr fine ↦ rw fine (resolve_native-Returns raw stored r sent_at w sent h k)
        ]

    resolve_raw-Returns :
        (raw : Option Text) (w : W)
        → (B.redis_get (record_key task_id) w0).0 ≡ ok raw
        → Returns
            (IsResolved B settings task_id tenant_id w0)
            (resolve_raw B settings task_id tenant_id raw w).0
    unfolding resolve_raw result_request Returns
    resolve_raw-Returns none w h =
        then_run-Returns (IsResolved B settings task_id tenant_id w0)
          (B.send (result_request B settings task_id tenant_id) w) _
          λ r v sent. relayed r w sent (unrecorded h)
    resolve_raw-Returns (some raw) w h =
        let Q = IsResolved B settings task_id tenant_id w0 in
        then_run-Returns Q (expect (B.model_validate_json raw) w) _ λ stored v k.
          then_run-Returns Q (B.send (result_request B settings task_id tenant_id) v) _ λ r u sent.
            resolve_own-Returns raw stored r v u sent h
              (expect-Returns (B.model_validate_json raw) stored w k)

  resolve_result-Returns :
      (task_id : Text) (tenant_id : Option Text) (w : W)
      → Returns
          (IsResolved B settings task_id tenant_id w)
          (resolve_result B settings task_id tenant_id w).0
  unfolding resolve_result translate_transport_errors
  resolve_result-Returns task_id tenant_id w =
      let Q = IsResolved B settings task_id tenant_id w in
      translated-Returns Q _ (
        then_run-Returns Q (B.redis_get (record_key task_id) w) _
          λ raw v h. resolve_raw-Returns task_id tenant_id w raw v h)

  pub resolve_result-IsResolved :
      (task_id : Text) (tenant_id : Option Text) (w v : W) (result : Resolved × List Cleanup)
      → resolve_result B settings task_id tenant_id w ≡ (ok result, v)
      → IsResolved B settings task_id tenant_id w result
  resolve_result-IsResolved task_id tenant_id w v result h =
      returned-Returns (IsResolved B settings task_id tenant_id w) (ap (λ p. p.0) h)
        (resolve_result-Returns task_id tenant_id w)
