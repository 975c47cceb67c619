-- ===== src/Relay.antt =====
-- callback_relay/relay/relay.go: the handler that turns a callback of docling-serve into a signal.
-- A Go string is the list of its bytes; what encoding/json decodes and encodes stays a text. The
-- routing of ServeMux, the JSON decoder and the Temporal client are parameters; the log is left out.
pub mod Laws
pub mod Delivered
pub mod Config
mod Tests
use docling_serve_ray.Prelude.{
  ℕ, Bool, true, false, ◌||◌, ◌&&◌, not, Option, none, some, List, [], ◌∷◌, if◌then◌else◌,
}
use docling_serve_ray.Text.{Text, codes, str_eq}

abbrev pub signal_name : Text
signal_name = codes "task_completed"

abbrev pub kind_task_completed : Text
kind_task_completed = codes "task_completed"

-- `TaskCompleted` of the relay, the signal's argument.
pub record SignalArgument : Type 0 where
  pub task_id : Text
  pub task_status : Text
  pub error_message : Option Text

-- `progressCallback`; `failure` is the message of the failure, if there is one.
pub record ProgressCallback : Type 0 where
  pub task_id : Text
  pub kind : Text
  pub task_status : Text
  pub failure : Option Text

-- The path value "workflowID", the token header, which is empty where it is missing, and the body.
pub record CallbackRequest : Type 0 where
  pub workflow_id : List ℕ
  pub token : List ℕ
  pub body : List ℕ

-- What SignalWorkflow returns: no error, a NotFound, or another error.
pub data Signaled : Type 0 where
  signaled : Signaled
  not_found : Signaled
  unavailable : Signaled

-- The statuses of the answers; 200 is the acknowledgement.
abbrev pub ack : ℕ
ack = 200

abbrev pub is_empty : List ℕ → Bool
is_empty [] = true
is_empty (b ∷ bs) = false

-- `success` or `failure`
unfoldable pub has_terminal_status : ProgressCallback → Bool
has_terminal_status cb =
    str_eq cb.task_status (codes "success") || str_eq cb.task_status (codes "failure")

unfoldable pub argument_of : ProgressCallback → SignalArgument
argument_of cb = record {
  task_id = cb.task_id;
  task_status = cb.task_status;
  error_message = cb.failure;
}

-- The end of the handler: only an error that a retry may mend is passed on.
unfoldable pub answer : Signaled → ℕ
answer signaled = ack
answer not_found = ack
answer unavailable = 503

module _ {W : Type 0} (signal_workflow : List ℕ → Text → SignalArgument → W → Signaled × W) where
  -- The handler once the body is decoded.
  unfoldable pub handle : List ℕ → ProgressCallback → W → ℕ × W
  unfolding has_terminal_status argument_of answer
  handle workflow_id cb w =
      if not (str_eq cb.kind kind_task_completed)
      then (ack, w)
      else if is_empty cb.task_id || not (has_terminal_status cb)
      then (400, w)
      else let (outcome, v) = signal_workflow workflow_id signal_name (argument_of cb) w in
        (answer outcome, v)

  -- `handler.callback`: the status of the answer.
  unfoldable pub callback :
      (List ℕ → Option ProgressCallback) → List ℕ → CallbackRequest → W → ℕ × W
  unfolding handle
  callback decode token r w =
      if is_empty token || not (str_eq r.token token)
      then (401, w)
      else elim (decode r.body) [ none ↦ (400, w) | some cb ↦ handle r.workflow_id cb w ]
