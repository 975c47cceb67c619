-- ===== src/Orchestration/Runtime.antt =====
-- The workflow's side of Temporal. A run replays a history: the signals, timers and activity
-- results that the server has recorded, in their order. Every wait consumes the history up to the
-- event that ends it; signals on the way are handed to the handler `task_completed`.
use docling_serve_ray.Prelude.{
  ℕ, Bool, true, false, Option, none, some, List, [], ◌∷◌, ◌++◌, if◌then◌else◌,
}
use docling_serve_ray.Text.{Text}
use docling_serve_ray.Dict.{Dict, has_key, set_default}
use docling_serve_ray.Orchestration.Models.{
  ErrorType, SubmitConversionInput, CollectOutputsInput, TaskCompleted, TaskOutcome,
  CollectedOutputs,
}

-- `ActivityError`, by its cause: an `ApplicationError` with its type, or anything else (a timeout,
-- a transport error that ran out of attempts).
pub data ActivityError : Type 0 where
  application : ErrorType → ActivityError
  other : ActivityError

pub data ActivityResult (A : Type 0) : Type 0 where
  returned : A → ActivityResult A
  raised : ActivityError → ActivityResult A

pub data Event : Type 0 where
  signal : TaskCompleted → Event
  timer_fired : Event
  submitted : ActivityResult Text → Event
  checked : ActivityResult (Option TaskCompleted) → Event
  fetched : ActivityResult TaskOutcome → Event
  collected : ActivityResult CollectedOutputs → Event

-- `RetryPolicy`, in seconds and thousandths; 0 attempts are any number of them.
pub record RetryPolicy : Type 0 where
  pub initial_interval : ℕ
  pub backoff_coefficient : ℕ
  pub maximum_interval : ℕ
  pub maximum_attempts : ℕ

-- What the workflow asks of the server: an activity with its input, its task queue where it is
-- not the workflow's own, its start-to-close timeout, and its retry policy where it is not the
-- SDK's; or a timer of a length in milliseconds.
pub data Command : Type 0 where
  submit_conversion : SubmitConversionInput → Text → ℕ → RetryPolicy → Command
  start_timer : ℕ → Command
  check_task : Text → ℕ → RetryPolicy → Command
  fetch_outcome : Text → ℕ → Command
  collect_outputs : CollectOutputsInput → ℕ → Command

-- `workflow.random().uniform`, seeded by the run: its n-th result, for bounds in thousandths.
abbrev pub Random : Type 0
Random = ℕ → ℕ → ℕ → ℕ

-- The instance's two attributes, the rest of the history, the commands issued so far, and the
-- random numbers to come.
pub record Instance : Type 0 where
  pub completed : Dict TaskCompleted
  pub safety_polls : ℕ
  pub history : List Event
  pub commands : List Command
  pub random : Random

-- What ends a run: a failure, in the workflow's own words or an activity's.
pub data WorkflowFailure : Type 0 where
  activity_error : ActivityError → WorkflowFailure
  application_error : ErrorType → Bool → WorkflowFailure

-- `blocked`: the history has no event yet that lets the run go on. `out_of_fuel` is no behaviour of
-- the program; it is proved unreachable.
pub data Run (A : Type 0) : Type 0 where
  done : A → Run A
  failed : WorkflowFailure → Run A
  blocked : Run A
  out_of_fuel : Run A

abbrev pub Workflow : Type 0 → Type 0
Workflow A = Instance → Run A × Instance

abbrev pub continue : {A B : Type 0} → Run A → (A → Workflow B) → Workflow B
continue (done a) f s = f a s
continue (failed e) f s = (failed e, s)
continue blocked f s = (blocked, s)
continue out_of_fuel f s = (out_of_fuel, s)

infixl 5 ◌>>=◌ ◌>>◌
unfoldable pub ◌>>=◌ : {A B : Type 0} → Workflow A → (A → Workflow B) → Workflow B
◌>>=◌ m f s = let (r, s') = m s in continue r f s'

abbrev pub ◌>>◌ : {B : Type 0} → Workflow (Unit {0}) → Workflow B → Workflow B
m >> n = m >>= λ _. n

unfoldable pub pure : {A : Type 0} → A → Workflow A
pure a s = (done a, s)

unfoldable pub raise : {A : Type 0} → WorkflowFailure → Workflow A
raise e s = (failed e, s)

unfoldable pub issue : Command → Workflow (Unit {0})
issue c s = (done tt, record s { commands = s.commands ++ c ∷ [] })

-- The signal handler: docling retries delivery, and the first one wins.
unfoldable pub task_completed : TaskCompleted → Dict TaskCompleted → Dict TaskCompleted
task_completed event completed = set_default event.task_id event completed

-- The event at hand ends the wait if it carries the result; any other event does not.
abbrev pub take_result :
    {A : Type 0}
    → Option (ActivityResult A)
    → Event
    → List Event
    → Dict TaskCompleted
    → Option (ActivityResult A) × List Event × Dict TaskCompleted
take_result none event history completed = (none, event ∷ history, completed)
take_result (some r) event history completed = (some r, history, completed)

-- Waiting for an activity: `pick` takes the result that is waited for out of an event.
unfoldable pub resume :
    {A : Type 0}
    → (Event → Option (ActivityResult A))
    → List Event
    → Dict TaskCompleted
    → Option (ActivityResult A) × List Event × Dict TaskCompleted
resume pick [] completed = (none, [], completed)
resume pick (signal e ∷ history) completed = resume pick history (task_completed e completed)
resume pick (event ∷ history) completed = take_result (pick event) event history completed

abbrev pub outcome : {A : Type 0} → Option (ActivityResult A) → Run A
outcome none = blocked
outcome (some (returned a)) = done a
outcome (some (raised e)) = failed (activity_error e)

-- `workflow.execute_activity_method`
unfoldable pub execute_activity :
    {A : Type 0} → Command → (Event → Option (ActivityResult A)) → Workflow A
unfolding resume
execute_activity command pick s =
    let (r, history, completed) = resume pick s.history s.completed in
    (
      outcome r,
      record s { completed = completed; history = history; commands = s.commands ++ command ∷ [] },
    )

-- The sleep of `wait_condition` once its timer runs: after each signal the condition is looked at
-- again, and the timer ends the sleep. The answer tells whether the condition held.
unfoldable pub sleep :
    Text → List Event → Dict TaskCompleted → Option Bool × List Event × Dict TaskCompleted
sleep task_id [] completed = (none, [], completed)
sleep task_id (signal e ∷ history) completed =
    let completed' = task_completed e completed in
    let rest = sleep task_id history completed' in
    if has_key task_id completed' then (some true, history, completed') else rest
sleep task_id (timer_fired ∷ history) completed = (some false, history, completed)
sleep task_id (event ∷ history) completed = (none, event ∷ history, completed)

abbrev pub woken : Option Bool → Run Bool
woken none = blocked
woken (some b) = done b

-- `workflow.wait_condition(lambda: task_id in self._completed, timeout=...)`: `true` where the
-- condition held, `false` for the TimeoutError. No timer is started where it holds at once.
unfoldable pub wait_condition : Text → ℕ → Workflow Bool
unfolding sleep
wait_condition task_id timeout s =
    if has_key task_id s.completed
    then (done true, s)
    else let (r, history, completed) = sleep task_id s.history s.completed in
      (
        woken r,
        record s {
          completed = completed;
          history = history;
          commands = s.commands ++ start_timer timeout ∷ [];
        },
      )
