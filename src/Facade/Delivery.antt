-- ===== src/Facade/Delivery.antt =====
-- From the upload to the result: submission, waiting and resolution composed.
pub mod Sync
use docling_serve_ray.Prelude.{
  ℕ, zero, suc, ◌+◌, ◌≡◌, refl, ap, sym, ◌∙◌, ◌⊎◌, inl, inr, Bool, true, false, Option, none, some,
  List, [], ◌∷◌, ◌++◌, arith, if◌then◌else◌, ltb, Bool-cases,
}
use docling_serve_ray.Result.{Result, ok, err}
use docling_serve_ray.Text.{Text, codes}
use docling_serve_ray.Text.Laws.{str_eq_refl}
use docling_serve_ray.Dict.{Dict}
use docling_serve_ray.Json
use docling_serve_ray.Json.{Json, ShapeError}
use docling_serve_ray.Http.{Response, get}
use docling_serve_ray.Facade.Schemas.{TaskRecord, TaskStatusResponse, Settings}
use docling_serve_ray.Facade.Options.{UploadFile, OptionValue}
use docling_serve_ray.Facade.Backend.{
  Action, Backend, Raised, raise, transport, http_exception, unexpected, still_waiting, return,
  ◌>>=◌, expect, expect_shape, then_run, translated, translate_transport_errors,
}
use docling_serve_ray.Facade.Stores.{View, SameStored, IsRedis, IsPydantic}
use docling_serve_ray.Facade.Submit.{record_key, facade_headers, submit_file_upload}
use docling_serve_ray.Facade.Submit.Stored.{names_of, IsStored, submit_file_upload-IsStored}
use docling_serve_ray.Facade.Wait.{is_terminal, read_poll, poll, poll_loop, wait_for_completion}
use docling_serve_ray.Facade.Resolve.{Resolved, passthrough, Cleanup, resolve_result}
use docling_serve_ray.Facade.Resolve.Rebuilt.{IsReconstructed}
use docling_serve_ray.Facade.Resolve.Laws.{
  MayRelay, IsResolved, relayed, own, resolve_result-IsResolved,
}

-- A result, resolved at `w`, for files that were submitted: docling-serve's response to a request for
-- the task's result, unchanged, or one that is reconstructed for just those files in their order, as an
-- archive exactly if one was asked for or there are several files.
pub data IsDelivered {W : Type 0} (B : Backend W) (settings : Settings) (files : List UploadFile)
    (as_zip : Bool) (task_id : Text) (tenant_id : Option Text) (w : W)
    : Resolved × List Cleanup → Type 0 where
  passed :
      (r : Response) (sent_at : W)
      → (B.send
          (get (codes "/v1/result/" ++ task_id) (facade_headers settings tenant_id) none)
          sent_at).0
        ≡ ok r
      → MayRelay B settings task_id w r
      → IsDelivered B settings files as_zip task_id tenant_id w (passthrough r, [])
  delivered :
      (stored : TaskRecord) (result : Resolved)
      → stored.filenames ≡ names_of files
      → stored.as_zip ≡ as_zip
      → IsReconstructed B settings stored result
      → IsDelivered B settings files as_zip task_id tenant_id w
          (result, record { task_id = task_id; task_record = stored } ∷ [])

module _ {W : Type 0} (B : Backend W) (V : View W) (settings : Settings) (redis : IsRedis B V)
    (pydantic : IsPydantic B) where
  stored-validated :
      (r s : TaskRecord) (raw : Text) (o : Option Text)
      → o ≡ some (B.model_dump_json r)
      → o ≡ some raw
      → B.model_validate_json raw ≡ some s
      → s ≡ r
  stored-validated r s raw o e f g =
      let texts : raw ≡ B.model_dump_json r = cc in cc (pydantic.validate-dump r, texts)

  IsDelivered-IsResolved :
      (files : List UploadFile) (as_zip : Bool) (tenant_id tenant_id' : Option Text)
      (t : TaskStatusResponse) (w v u : W) (result : Resolved × List Cleanup)
      → IsStored B V files as_zip tenant_id w t v
      → V.stored u (record_key t.task_id) ≡ V.stored v (record_key t.task_id)
      → IsResolved B settings t.task_id tenant_id' u result
      → IsDelivered B settings files as_zip t.task_id tenant_id' u result
  IsDelivered-IsResolved files as_zip tenant_id tenant_id' t w v u result s kept
        (relayed r sent_at sent may) =
      passed r sent_at sent may
  IsDelivered-IsResolved files as_zip tenant_id tenant_id' t w v u result s kept
        (own raw stored res e g k) =
      let key = record_key t.task_id in
      let same : stored ≡ s.stored =
        stored-validated s.stored stored raw (V.stored u key)
          (kept
            ∙ s.at key
            ∙ ap (λ b. if b then some (B.model_dump_json s.stored) else V.stored w key)
                (str_eq_refl key))
          (redis.get key u (some raw) e) g in
      delivered stored res (ap TaskRecord.filenames same ∙ s.filenames)
        (ap TaskRecord.as_zip same ∙ s.as_asked) k

  -- Once files are submitted, and as long as the task's value in Redis stays, a result for the task
  -- that is returned is docling-serve's own, or reconstructed for just those files.
  pub submitted-IsDelivered :
      (files : List UploadFile) (options : Dict OptionValue) (as_zip : Bool)
      (tenant_id tenant_id' : Option Text) (w v u x : W) (t : TaskStatusResponse)
      (result : Resolved × List Cleanup)
      → submit_file_upload B settings files options as_zip tenant_id w ≡ (ok t, v)
      → V.stored u (record_key t.task_id) ≡ V.stored v (record_key t.task_id)
      → resolve_result B settings t.task_id tenant_id' u ≡ (ok result, x)
      → IsDelivered B settings files as_zip t.task_id tenant_id' u result
  submitted-IsDelivered files options as_zip tenant_id tenant_id' w v u x t result h kept r =
      IsDelivered-IsResolved files as_zip tenant_id tenant_id' t w v u result
        (submit_file_upload-IsStored B V settings redis pydantic files options as_zip tenant_id w v
          t h)
        kept (resolve_result-IsResolved B settings t.task_id tenant_id' u x result r)
