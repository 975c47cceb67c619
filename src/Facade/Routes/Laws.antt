-- ===== src/Facade/Routes/Laws.antt =====
-- No transport error reaches a client.
use docling_serve_ray.Prelude.{
  ℕ, ◌≡◌, ◌≢◌, refl, ap, Bool, if◌then◌else◌, true, false, Option, none, some, List, [], ◌∷◌,
}
use docling_serve_ray.Result.{Result, ok, err}
use docling_serve_ray.Text.{Text}
use docling_serve_ray.Dict.{Dict}
use docling_serve_ray.Facade.Schemas.{Settings}
use docling_serve_ray.Facade.Options.{Form, UploadFile, OptionValue, parse_submission}
use docling_serve_ray.Facade.Backend.{
  Action, Backend, Raised, http_exception, transport, unexpected, still_waiting, raise, expect,
  translate_transport_errors, then_run, translated,
}
use docling_serve_ray.Facade.Submit.{submit_file_upload}
use docling_serve_ray.Facade.Wait.{wait_for_completion}
use docling_serve_ray.Facade.Resolve.{resolve_result}
use docling_serve_ray.Facade.Routes.{
  get_result, submit_files, convert_file_async, convert_file_sync, finish_result,
}

is_transport : {A : Type 0} → Result Raised A → Bool
is_transport (err transport) = true
is_transport r = false

-- A coroutine that raises no transport error.
IsClean : {W A : Type 0} → Action W A → Type 0
IsClean {W} m = (w : W) → is_transport (m w).0 ≡ false

expect-IsClean : {A : Type 0} (W : Type 0) (o : Option A) → IsClean (expect {W = W} o)
unfolding IsClean is_transport
expect-IsClean W none w = refl
expect-IsClean W (some a) w = refl

module _ {W A : Type 0} where
  translated-clean : (p : Result Raised A × W) → is_transport (translated p).0 ≡ false
  unfolding is_transport
  translated-clean (ok a, w) = refl
  translated-clean (err transport, w) = refl
  translated-clean (err (http_exception n), w) = refl
  translated-clean (err unexpected, w) = refl
  translated-clean (err still_waiting, w) = refl

  then_run-clean :
      {B : Type 0} (p : Result Raised A × W) (next : A → Action W B)
      → is_transport p.0 ≡ false
      → ((a : A) → IsClean (next a))
      → is_transport (then_run p next).0 ≡ false
  unfolding is_transport IsClean
  then_run-clean (ok a, w) next h k = k a w
  then_run-clean (err transport, w) next h k = h
  then_run-clean (err (http_exception n), w) next h k = refl
  then_run-clean (err unexpected, w) next h k = refl
  then_run-clean (err still_waiting, w) next h k = refl

  IsClean-ne : (m : Action W A) → IsClean m → (w : W) → (m w).0 ≢ err transport
  unfolding IsClean is_transport
  IsClean-ne m h w e = cc (h w, ap is_transport e)

module _ {W : Type 0} (B : Backend W) (settings : Settings) where
  finish_result-IsClean :
      (task_id : Text) (tenant_id : Option Text)
      → IsClean (finish_result B settings task_id tenant_id)
  unfolding IsClean finish_result resolve_result translate_transport_errors is_transport
  finish_result-IsClean task_id tenant_id w =
      then_run-clean (resolve_result B settings task_id tenant_id w) _ (translated-clean _)
        (λ a v. refl)

  submit_files-IsClean :
      (s : List UploadFile × Dict OptionValue × Bool) (tenant_id : Option Text)
      → IsClean (submit_files B settings s tenant_id)
  unfolding IsClean submit_files submit_file_upload translate_transport_errors is_transport
  submit_files-IsClean ([], options, as_zip) tenant_id w = refl
  submit_files-IsClean (f ∷ fs, options, as_zip) tenant_id w = translated-clean _

  convert_file_async-IsClean :
      (form : Form) (tenant_id : Option Text)
      → IsClean (convert_file_async B settings form tenant_id)
  unfolding IsClean convert_file_async
  convert_file_async-IsClean form tenant_id w =
      then_run-clean (expect (parse_submission form) w) _
        (expect-IsClean W (parse_submission form) w) (λ s. submit_files-IsClean s tenant_id)

  answer-IsClean :
      (completed : Bool) (task_id : Text) (tenant_id : Option Text)
      → IsClean (
          if completed
          then finish_result B settings task_id tenant_id
          else raise (http_exception 504))
  unfolding IsClean is_transport
  answer-IsClean true task_id tenant_id w = finish_result-IsClean task_id tenant_id w
  answer-IsClean false task_id tenant_id w = refl

  convert_file_sync-IsClean :
      (bound : ℕ) (form : Form) (tenant_id : Option Text)
      → IsClean (convert_file_sync B settings bound form tenant_id)
  unfolding IsClean convert_file_sync wait_for_completion translate_transport_errors
  convert_file_sync-IsClean bound form tenant_id w =
      then_run-clean (expect (parse_submission form) w) _
        (expect-IsClean W (parse_submission form) w)
        (λ s v.
          then_run-clean (submit_files B settings s tenant_id v) _
            (submit_files-IsClean s tenant_id v)
            (λ task u.
              then_run-clean (wait_for_completion B settings bound task.task_id tenant_id u) _
                (translated-clean _)
                (λ completed. answer-IsClean completed task.task_id tenant_id)))

  -- None of the three routes lets a transport error of S3 or docling-serve out: whatever the
  -- services do, the exceptions that leave a handler are HTTP exceptions or others that are no
  -- transport errors.
  pub routes-ne-transport :
      (bound : ℕ) (form : Form) (task_id : Text) (tenant_id : Option Text) (w : W)
      → ((get_result B settings task_id tenant_id w).0 ≢ err transport)
        × ((convert_file_async B settings form tenant_id w).0 ≢ err transport)
        × ((convert_file_sync B settings bound form tenant_id w).0 ≢ err transport)
  unfolding get_result
  routes-ne-transport bound form task_id tenant_id w = (
    IsClean-ne _ (finish_result-IsClean task_id tenant_id) w,
    IsClean-ne _ (convert_file_async-IsClean form tenant_id) w,
    IsClean-ne _ (convert_file_sync-IsClean bound form tenant_id) w,
  )
