-- ===== src/Orchestration/Workflow.antt =====
-- orchestration/workflows.py: ConvertDocumentWorkflow. The texts of its errors and its log lines
-- are left out; nothing depends on them. A length of time that the source draws is in milliseconds.
pub mod Closed
pub mod Rules
pub mod Submissions
pub mod Limits
pub mod Fuel
pub mod Recorded
pub mod Completion
pub mod Evidence
pub mod Signals
pub mod Finish
pub mod Whole
pub mod Protocol
pub mod Commands
pub mod Served
pub mod Paced
pub mod Polls
pub mod Budget
pub mod Progress
use docling_serve_ray.Prelude.{
  ℕ, zero, suc, ◌+◌, ◌-◌, ◌*◌, Bool, true, false, ◌||◌, not, Option, none, some, List, [], ◌∷◌, leb,
  ◌==◌, if◌then◌else◌,
}
use docling_serve_ray.Text.{Text, codes}
use docling_serve_ray.Dict.{Dict, lookup, insert, has_key, distinct}
use docling_serve_ray.Json.{Json, arr, texts}
use docling_serve_ray.Orchestration.Models.{
  ErrorType, task_lost, conversion_failed, missing_outputs, poll_budget_exhausted, TaskStatus,
  success, failure, required_format, submit_task_queue, ConvertInput, SubmitConversionInput,
  TaskCompleted, TaskOutcome, CollectedOutputs, ConvertResult, Settings,
}
use docling_serve_ray.Orchestration.Runtime.{
  RetryPolicy, Random, ActivityError, application, other, ActivityResult, Event, submitted, checked,
  fetched, collected, submit_conversion, check_task, fetch_outcome, collect_outputs, Instance,
  activity_error, application_error, Run, done, failed, blocked, out_of_fuel, Workflow, ◌>>=◌, ◌>>◌,
  pure, raise, execute_activity, wait_condition,
}

-- 1 initial submission + 3 resubmits after TaskLost.
abbrev pub max_submissions : ℕ
max_submissions = 4

abbrev pub submit_retry : RetryPolicy
submit_retry = record {
  initial_interval = 5;
  backoff_coefficient = 2000;
  maximum_interval = 5 * 60;
  maximum_attempts = 0;
}

abbrev pub check_retry : RetryPolicy
check_retry = record {
  initial_interval = 5;
  backoff_coefficient = 2000;
  maximum_interval = 30;
  maximum_attempts = 3;
}

-- 0.2, in thousandths
abbrev pub safety_poll_jitter : ℕ
safety_poll_jitter = 200

-- `completed.task_status == TaskStatus.FAILURE`
abbrev is_failure : TaskStatus → Bool
is_failure success = false
is_failure failure = true

unfoldable pub is_task_lost : ActivityError → Bool
is_task_lost (application task_lost) = true
is_task_lost (application _) = false
is_task_lost other = false

abbrev pub pick_submitted : Event → Option (ActivityResult Text)
pick_submitted (submitted r) = some r
pick_submitted _ = none

abbrev pub pick_checked : Event → Option (ActivityResult (Option TaskCompleted))
pick_checked (checked r) = some r
pick_checked _ = none

abbrev pub pick_fetched : Event → Option (ActivityResult TaskOutcome)
pick_fetched (fetched r) = some r
pick_fetched _ = none

abbrev pub pick_collected : Event → Option (ActivityResult CollectedOutputs)
pick_collected (collected r) = some r
pick_collected _ = none

-- What an `except ActivityError` clause makes of a run that ended; other failures pass it.
abbrev pub caught :
    {A : Type 0} → Run A × Instance → (ActivityError → Workflow A) → Run A × Instance
caught (failed (activity_error e), s) handler = handler e s
caught (failed (application_error t final), s) handler = (failed (application_error t final), s)
caught (done a, s) handler = (done a, s)
caught (blocked, s) handler = (blocked, s)
caught (out_of_fuel, s) handler = (out_of_fuel, s)

-- `try: body except ActivityError as err: handler`
unfoldable pub try_except : {A : Type 0} → Workflow A → (ActivityError → Workflow A) → Workflow A
try_except body handler s = caught (body s) handler

-- `return self._completed[task_id]`, after the condition held
unfoldable pub completed_of : Text → Workflow TaskCompleted
completed_of task_id s = elim (lookup task_id s.completed) [
  | none ↦ (blocked, s)
  | some c ↦ (done c, s)
]

-- `self._safety_polls += 1`
unfoldable pub count_poll : Workflow (Unit {0})
count_poll s = (done tt, record s { safety_polls = s.safety_polls + 1 })

-- The length of a sleep, which takes the next random number.
unfoldable pub next_sleep : ℕ → Workflow ℕ
next_sleep interval_seconds s =
    let factor = s.random 0 (1000 - safety_poll_jitter) (1000 + safety_poll_jitter) in
    (done (interval_seconds * factor), record s { random = λ n. s.random (suc n) })

-- The result's `safety_polls=self._safety_polls`
unfoldable pub polls_made : Workflow ℕ
polls_made s = (done s.safety_polls, s)

-- What a loop with no fuel left returns.
unfoldable pub exhausted : {A : Type 0} → Workflow A
exhausted s = (out_of_fuel, s)

-- `count or 0`
abbrev count_or_zero : Option ℕ → ℕ
count_or_zero none = 0
count_or_zero (some n) = n

-- `num_succeeded is not None` and `produced == 0`
unfoldable pub produced_nothing : TaskOutcome → Bool
produced_nothing o = elim o.num_succeeded [
  | none ↦ false
  | some n ↦ n + count_or_zero o.num_partially_succeeded == 0
]

-- The end of a round: a finished task ends the wait, and so does a spent budget.
unfoldable pub after_poll :
    ConvertInput → ℕ → Workflow TaskCompleted → Option TaskCompleted → Workflow TaskCompleted
after_poll inp polls again (some c) = pure c
after_poll inp polls again none =
    if leb inp.max_safety_polls polls
    then raise (application_error poll_budget_exhausted true)
    else again

-- The `except` clause of `run`.
unfoldable pub resubmit : {A : Type 0} → ℕ → Workflow A → ActivityError → Workflow A
resubmit submissions again err =
    if not (is_task_lost err) || leb max_submissions submissions
    then raise (activity_error err)
    else again

-- The end of `run`: the outputs must hold the required format.
unfoldable pub deliver : Text → ℕ → CollectedOutputs → Workflow ConvertResult
deliver task_id submissions found =
    if not (has_key required_format found.outputs)
    then raise (application_error missing_outputs true)
    else do
      polls ← polls_made
      pure (record {
        task_id = task_id;
        outputs = found.outputs;
        output_bucket = found.bucket;
        submissions = submissions;
        safety_polls = polls;
      })

-- `wait_condition` with the length of its timer, which is drawn whether or not the timer is started.
unfoldable pub sleep_until : Text → ℕ → Workflow Bool
sleep_until task_id interval_seconds = do
  timeout ← next_sleep interval_seconds
  wait_condition task_id timeout

module _ (settings : Settings) where
  unfoldable pub check : Text → Workflow (Option TaskCompleted)
  unfolding try_except execute_activity
  check task_id =
      try_except
        (execute_activity
          (check_task task_id settings.check_task_start_to_close_seconds check_retry) pick_checked)
        (λ err. if is_task_lost err then raise (activity_error err) else pure none)

  -- The loop of `_wait_until_terminal`. A round that does not end it passes the test of the budget,
  -- so `max_safety_polls` rounds are enough, and one where that is 0.
  unfoldable pub wait_loop : ℕ → ℕ → Text → ConvertInput → Workflow TaskCompleted
  wait_loop zero polls task_id inp = exhausted
  wait_loop (suc fuel) polls task_id inp =
      let again = wait_loop fuel (polls + 1) task_id inp in
      do
        arrived ← sleep_until task_id inp.safety_poll_interval_seconds
        if arrived
            then completed_of task_id
            else do count_poll; polled ← check task_id; after_poll inp (polls + 1) again polled

  unfoldable pub wait_until_terminal : Text → ConvertInput → Workflow TaskCompleted
  wait_until_terminal task_id inp = wait_loop (suc inp.max_safety_polls) 0 task_id inp

  -- The options of a submission: the caller's, and "to_formats" with "json" first.
  unfoldable pub submit_input : ConvertInput → SubmitConversionInput
  submit_input inp = record {
    bucket = inp.bucket;
    key = inp.key;
    options =
        insert (codes "to_formats") (arr (texts (distinct (required_format ∷ inp.to_formats))))
          inp.options;
  }

  unfoldable pub submit : ConvertInput → Workflow Text
  unfolding submit_input execute_activity
  submit inp =
      execute_activity
        (submit_conversion (submit_input inp) submit_task_queue
          settings.submit_conversion_start_to_close_seconds submit_retry)
        pick_submitted

  -- What `run` keeps of a wait that ended.
  unfoldable pub await_task : Text → ℕ → ConvertInput → Workflow (Text × TaskCompleted × ℕ)
  await_task task_id submissions inp = do
    c ← wait_until_terminal task_id inp
    pure (task_id, c, submissions)

  -- The loop of `run`: submit, wait, and once more where docling lost the task. It returns the task,
  -- its completion and the number of submissions.
  unfoldable pub submit_loop : ℕ → ℕ → ConvertInput → Workflow (Text × TaskCompleted × ℕ)
  submit_loop zero submissions inp = exhausted
  submit_loop (suc fuel) submissions inp =
      let again = submit_loop fuel (submissions + 1) inp in
      do
        task_id ← submit inp
        try_except (await_task task_id (submissions + 1) inp) (resubmit (submissions + 1) again)

  unfoldable pub fetch : Text → Workflow TaskOutcome
  unfolding execute_activity
  fetch task_id =
      execute_activity (fetch_outcome task_id settings.fetch_outcome_start_to_close_seconds)
        pick_fetched

  unfoldable pub collect : ConvertInput → Workflow CollectedOutputs
  unfolding execute_activity
  collect inp =
      execute_activity
        (collect_outputs (record { bucket = inp.bucket; key = inp.key })
          settings.collect_outputs_start_to_close_seconds)
        pick_collected

  -- `run` once the outcome is known.
  unfoldable pub after_outcome : ConvertInput → Text → ℕ → TaskOutcome → Workflow ConvertResult
  after_outcome inp task_id submissions o =
      if produced_nothing o
      then raise (application_error conversion_failed true)
      else do found ← collect inp; deliver task_id submissions found

  -- `run` once the task has ended.
  unfoldable pub finish : ConvertInput → Text × TaskCompleted × ℕ → Workflow ConvertResult
  finish inp (task_id, c, submissions) =
      if is_failure c.task_status
      then raise (application_error conversion_failed true)
      else do o ← fetch task_id; after_outcome inp task_id submissions o

  -- `run` with a bound on the turns of its loop, which has none in the source.
  abbrev pub run_within : ℕ → ConvertInput → Workflow ConvertResult
  run_within turns inp = do ended ← submit_loop turns 0 inp; finish inp ended

  -- As many turns as there may be submissions are enough.
  unfoldable pub run : ConvertInput → Workflow ConvertResult
  run inp = run_within max_submissions inp

-- A new instance at the start of its history.
unfoldable pub start : Random → List Event → Instance
start random history = record {
  completed = [];
  safety_polls = 0;
  history = history;
  commands = [];
  random = random;
}
