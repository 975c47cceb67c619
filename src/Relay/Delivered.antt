-- ===== src/Relay/Delivered.antt =====
-- From the callback that a submission registers, through the relay, to the end of the run.
use docling_serve_ray.Prelude.{
  ℕ, ◌<◌, max, length, ◌≡◌, ◌≢◌, refl, sym, ap, ◌∙◌, true, Option, some, List, [], ◌∷◌, All, arith,
}
use docling_serve_ray.Text.{Text, codes, str_eq, last_part}
use docling_serve_ray.Text.Laws.{str_eq_iff}
use docling_serve_ray.Dict.{lookup}
use docling_serve_ray.Http.{CallbackSpec}
use docling_serve_ray.Orchestration.Models.{
  Settings, success, failure, TaskCompleted, ConvertInput, workflow_id_for_convert,
}
use docling_serve_ray.Orchestration.Client.{callback_specs, callback_token_header, utf8, utf8_char}
use docling_serve_ray.Orchestration.Client.Laws.{unquote, AreCodePoints, callback_specs_lem}
use docling_serve_ray.Orchestration.Runtime.{
  Random, ActivityResult, returned, signal, submitted, done,
}
use docling_serve_ray.Orchestration.Workflow.{run, start}
use docling_serve_ray.Orchestration.Workflow.Progress.{
  signals, IsQuiet, rounds, IsOther, Ending, ending, IsGood,
}
use docling_serve_ray.Orchestration.Workflow.Progress
use docling_serve_ray.Orchestration.Workflow.Progress.Returned.{run_called_back}
use docling_serve_ray.Relay.{
  SignalArgument, ProgressCallback, CallbackRequest, Signaled, argument_of, callback,
}
use docling_serve_ray.Relay.Laws.{IsTerminal, after_signal, handle-terminal, is_empty-ne}

utf8_ne : (s : Text) → s ≢ [] → utf8 s ≢ []
unfolding utf8 utf8_char
utf8_ne [] h e = h refl
utf8_ne (c ∷ s) h e = ground arith

-- docling-serve posts to the URL that was registered, with the headers that were registered; the
-- routing hands the handler the decoded last segment of the path.
pub record IsPosted (spec : CallbackSpec) (r : CallbackRequest) : Type 0 where
  pub path : r.workflow_id ≡ unquote (last_part b'/' spec.url)
  pub header : (t : Text) → lookup callback_token_header spec.headers ≡ some t → r.token ≡ utf8 t

head_eq : {a b : CallbackSpec} → ◌≡◌ {A = List CallbackSpec} (a ∷ []) (b ∷ []) → a ≡ b
head_eq h = cc

module _ {W : Type 0} (signal_workflow : List ℕ → Text → SignalArgument → W → Signaled × W)
    (decode : List ℕ → Option ProgressCallback) where
  accepted :
      (token : List ℕ) (r : CallbackRequest) (cb : ProgressCallback) (w : W)
      → token ≢ []
      → r.token ≡ token
      → decode r.body ≡ some cb
      → IsTerminal cb
      → callback signal_workflow decode token r w ≡ after_signal signal_workflow r.workflow_id cb w
  unfolding callback
  accepted token r cb w has same decoded terminal =
      let tokens : str_eq r.token token ≡ true = (str_eq_iff r.token token).1 same in
      rw (is_empty-ne token has, tokens, decoded)
        (handle-terminal signal_workflow r.workflow_id cb w terminal)

  -- A request as registered for the workflow `id` reaches the workflow `id`.
  callback-delivers :
      (settings : Settings) (base id : Text) (spec : CallbackSpec) (r : CallbackRequest)
      (cb : ProgressCallback) (w : W)
      → settings.callback_base_url ≡ some base
      → base ≢ []
      → id ≢ []
      → AreCodePoints id
      → settings.callback_token ≢ []
      → callback_specs settings (some id) ≡ spec ∷ []
      → IsPosted spec r
      → decode r.body ≡ some cb
      → IsTerminal cb
      → callback signal_workflow decode (utf8 settings.callback_token) r w
        ≡ after_signal signal_workflow (utf8 id) cb w
  callback-delivers settings base id spec r cb w e hb hi hc ht registered posted decoded terminal =
      let (spec', only, path, header) = callback_specs_lem settings base id e hb hi hc in
      let same : spec ≡ spec' = head_eq (sym registered ∙ only) in
      let named : r.workflow_id ≡ utf8 id =
        posted.path ∙ ap (λ s. unquote (last_part b'/' s.url)) same ∙ path in
      let token : r.token ≡ utf8 settings.callback_token =
        posted.header settings.callback_token
          (ap (λ s. lookup callback_token_header s.headers) same ∙ header) in
      accepted (utf8 settings.callback_token) r cb w (utf8_ne settings.callback_token ht) token
        decoded terminal
      ∙ ap (λ i. after_signal signal_workflow i cb w) named

-- Temporal's data converter, which hands the workflow the argument of a signal: what is read of an
-- argument with the status "success" or "failure", which are the values of models.TaskStatus.
pub record IsConverter (convert : SignalArgument → Option TaskCompleted) : Type 0 where
  pub of_success :
      (a : SignalArgument)
      → a.task_status ≡ codes "success"
      → convert a
        ≡ some
            (record { task_id = a.task_id; task_status = success; error_message = a.error_message })
  pub of_failure :
      (a : SignalArgument)
      → a.task_status ≡ codes "failure"
      → convert a
        ≡ some
            (record { task_id = a.task_id; task_status = failure; error_message = a.error_message })

module _ {W : Type 0} (signal_workflow : List ℕ → Text → SignalArgument → W → Signaled × W)
    (decode : List ℕ → Option ProgressCallback) (convert : SignalArgument → Option TaskCompleted)
    (settings : Settings) (inp : ConvertInput) where
  abbrev own_id : Text
  own_id = workflow_id_for_convert inp.bucket inp.key

  -- The whole way back: let the submission of an object's workflow register a callback with a relay
  -- that has the same token, which is not empty, and let docling-serve post to it that the task is a
  -- success. Then the relay sends that very workflow the signal that it handles; the signal's
  -- argument reads as the completion of that task; and a run that this signal finds waiting, as in
  -- `run_called_back`, returns what its later activities found.
  pub callback-run_called_back :
      (random : Random) (base : Text) (spec : CallbackSpec) (r : CallbackRequest)
      (cb : ProgressCallback) (w : W) (quiet : List (ActivityResult (Option TaskCompleted)))
      (others : List TaskCompleted) (e : Ending)
      → IsConverter convert
      → settings.callback_base_url ≡ some base
      → base ≢ []
      → AreCodePoints own_id
      → settings.callback_token ≢ []
      → callback_specs settings (some own_id) ≡ spec ∷ []
      → IsPosted spec r
      → decode r.body ≡ some cb
      → IsTerminal cb
      → cb.task_status ≡ codes "success"
      → All IsQuiet quiet
      → length quiet < max 1 inp.max_safety_polls
      → All (IsOther cb.task_id) others
      → IsGood e
      → (callback signal_workflow decode (utf8 settings.callback_token) r w
          ≡ after_signal signal_workflow (utf8 own_id) cb w)
        × (c : TaskCompleted) × (convert (argument_of cb) ≡ some c)
        × ((run settings inp (
              start random (
                submitted (returned cb.task_id)
                ∷ rounds quiet (signals others (signal c ∷ ending e))))).0
            ≡ done (Progress.answer cb.task_id (length quiet) e))
  unfolding workflow_id_for_convert argument_of
  callback-run_called_back random base spec r cb w quiet others e converts he hb hc ht registered
        posted decoded terminal ok quiets left other good =
      (
        callback-delivers signal_workflow decode settings base own_id spec r cb w he hb (λ h. cc) hc
            ht registered posted decoded terminal,
        record { task_id = cb.task_id; task_status = success; error_message = cb.failure },
        converts.of_success (argument_of cb) ok,
        run_called_back settings inp cb.task_id random quiet
            (record { task_id = cb.task_id; task_status = success; error_message = cb.failure }) e
            others quiets left other refl refl good,
      )
