-- ===== src/Orchestration/Workflow/Fuel.antt =====
-- The loops end: the fuel that `run` gives them is enough.
use docling_serve_ray.Prelude.{
  ℕ, zero, suc, ◌+◌, ◌≤◌, ◌<◌, ◌≡◌, ◌≢◌, refl, Bool, true, false, not, ◌||◌, Option, none, some,
  arith, leb, if◌then◌else◌,
}
use docling_serve_ray.Text.{Text}
use docling_serve_ray.Dict.{has_key}
use docling_serve_ray.Orchestration.Models.{
  required_format, ConvertInput, TaskCompleted, TaskOutcome, CollectedOutputs, Settings,
}
use docling_serve_ray.Orchestration.Runtime.{
  ActivityError, ActivityResult, returned, raised, Event, Command, Instance, WorkflowFailure,
  activity_error, application_error, Run, done, failed, blocked, out_of_fuel, Workflow, continue,
  outcome, woken, ◌>>=◌, pure, raise, resume, sleep, execute_activity, wait_condition,
}
use docling_serve_ray.Orchestration.Workflow.{
  is_failure, produced_nothing, max_submissions, pick_submitted, pick_checked, pick_fetched,
  pick_collected, is_task_lost, caught, try_except, completed_of, next_sleep, sleep_until,
  count_poll, check, after_poll, wait_loop, wait_until_terminal, await_task, resubmit, submit,
  submit_loop, polls_made, deliver, after_outcome, finish, fetch, collect, run,
}

-- From no instance does the action run out of fuel.
record Ends {A : Type 0} (m : Workflow A) : Type 0 where
  at : (s : Instance) → (m s).0 ≢ out_of_fuel

Ends-pure : {A : Type 0} (a : A) → Ends (pure a)
unfolding pure
Ends-pure a = record { at = λ s e. cc }

Ends-raise : {A : Type 0} (e : WorkflowFailure) → Ends (raise {A = A} e)
unfolding raise
Ends-raise e = record { at = λ s e. cc }

continue-ne-out_of_fuel :
    {A B : Type 0} (r : Run A) (f : A → Workflow B) (s : Instance)
    → r ≢ out_of_fuel
    → ((a : A) → Ends (f a))
    → (continue r f s).0 ≢ out_of_fuel
continue-ne-out_of_fuel (done a) f s h k = (k a).at s
continue-ne-out_of_fuel (failed e) f s h k = λ e. cc
continue-ne-out_of_fuel blocked f s h k = λ e. cc
continue-ne-out_of_fuel out_of_fuel f s h k = absurd (h refl)

Ends-bind :
    {A B : Type 0} (m : Workflow A) (f : A → Workflow B)
    → Ends m
    → ((a : A) → Ends (f a))
    → Ends (m >>= f)
unfolding ◌>>=◌
Ends-bind m f em ef = record { at = λ s. continue-ne-out_of_fuel (m s).0 f (m s).1 (em.at s) ef }

caught-ne-out_of_fuel :
    {A : Type 0} (r : Run A) (s : Instance) (handler : ActivityError → Workflow A)
    → r ≢ out_of_fuel
    → ((e : ActivityError) → Ends (handler e))
    → (caught (r, s) handler).0 ≢ out_of_fuel
caught-ne-out_of_fuel (failed (activity_error e)) s handler h k = (k e).at s
caught-ne-out_of_fuel (failed (application_error t final)) s handler h k = λ e. cc
caught-ne-out_of_fuel (done a) s handler h k = λ e. cc
caught-ne-out_of_fuel blocked s handler h k = λ e. cc
caught-ne-out_of_fuel out_of_fuel s handler h k = absurd (h refl)

Ends-try_except :
    {A : Type 0} (body : Workflow A) (handler : ActivityError → Workflow A)
    → Ends body
    → ((e : ActivityError) → Ends (handler e))
    → Ends (try_except body handler)
unfolding try_except
Ends-try_except body handler eb eh = record {
  at = λ s. caught-ne-out_of_fuel (body s).0 (body s).1 handler (eb.at s) eh;
}

-- The second branch may use that the test failed.
Ends-if :
    {A : Type 0} (b : Bool) (m n : Workflow A)
    → Ends m
    → (b ≡ false → Ends n)
    → Ends (if b then m else n)
Ends-if true m n em en = em
Ends-if false m n em en = en refl

outcome-ne-out_of_fuel : {A : Type 0} (o : Option (ActivityResult A)) → outcome o ≢ out_of_fuel
outcome-ne-out_of_fuel none = λ e. cc
outcome-ne-out_of_fuel (some (returned a)) = λ e. cc
outcome-ne-out_of_fuel (some (raised x)) = λ e. cc

Ends-execute_activity :
    {A : Type 0} (c : Command) (pick : Event → Option (ActivityResult A))
    → Ends (execute_activity c pick)
unfolding execute_activity
Ends-execute_activity c pick = record {
  at = λ s. outcome-ne-out_of_fuel (resume pick s.history s.completed).0;
}

woken-ne-out_of_fuel : (o : Option Bool) → woken o ≢ out_of_fuel
woken-ne-out_of_fuel none = λ e. cc
woken-ne-out_of_fuel (some b) = λ e. cc

Ends-next_sleep : (n : ℕ) → Ends (next_sleep n)
unfolding next_sleep
Ends-next_sleep n = record { at = λ s e. cc }

Ends-wait_condition : (id : Text) (n : ℕ) → Ends (wait_condition id n)
unfolding wait_condition
Ends-wait_condition id n = record {
  at = λ s. ground (arith, woken-ne-out_of_fuel (sleep id s.history s.completed).0);
}

Ends-sleep_until : (id : Text) (n : ℕ) → Ends (sleep_until id n)
unfolding sleep_until
Ends-sleep_until id n = Ends-bind _ _ (Ends-next_sleep n) (Ends-wait_condition id)

Ends-completed_of : (id : Text) → Ends (completed_of id)
unfolding completed_of
Ends-completed_of id = record { at = λ s. ground arith }

Ends-count_poll : Ends count_poll
unfolding count_poll
Ends-count_poll = record { at = λ s e. cc }

Ends-check : (settings : Settings) (id : Text) → Ends (check settings id)
unfolding check
Ends-check settings id =
    Ends-try_except _ _ (Ends-execute_activity _ pick_checked)
      (λ e. Ends-if (is_task_lost e) _ _ (Ends-raise _) (λ _. Ends-pure none))

Ends-after_poll :
    (inp : ConvertInput) (polls : ℕ) (again : Workflow TaskCompleted)
    → (polls < inp.max_safety_polls → Ends again)
    → (polled : Option TaskCompleted) → Ends (after_poll inp polls again polled)
unfolding after_poll
Ends-after_poll inp polls again k (some c) = Ends-pure c
Ends-after_poll inp polls again k none =
    Ends-if (leb inp.max_safety_polls polls) _ _ (Ends-raise _) (λ more. k (ground arith))

-- A round is left while `polls` is below the budget; so many rounds are enough.
Ends-wait_loop :
    (settings : Settings) (fuel polls : ℕ) (id : Text) (inp : ConvertInput)
    → 0 < fuel
    → inp.max_safety_polls < fuel + polls
    → Ends (wait_loop settings fuel polls id inp)
unfolding wait_loop
Ends-wait_loop settings zero polls id inp h k = absurd (omega arith)
Ends-wait_loop settings (suc fuel) polls id inp h k =
    Ends-bind _ _ (Ends-sleep_until id inp.safety_poll_interval_seconds) (λ arrived.
      Ends-if arrived _ _ (Ends-completed_of id) (λ _. Ends-bind _ _ Ends-count_poll (λ _.
        Ends-bind _ _ (Ends-check settings id) (
          Ends-after_poll inp (polls + 1) _ (λ more.
            Ends-wait_loop settings fuel (polls + 1) id inp (omega arith) (omega arith))))))

Ends-await_task :
    (settings : Settings) (id : Text) (n : ℕ) (inp : ConvertInput)
    → Ends (await_task settings id n inp)
unfolding await_task wait_until_terminal
Ends-await_task settings id n inp =
    Ends-bind _ _
      (Ends-wait_loop settings (suc inp.max_safety_polls) 0 id inp (omega arith) (omega arith))
      (λ c. Ends-pure _)

Ends-resubmit :
    {A : Type 0} (n : ℕ) (again : Workflow A)
    → (n < max_submissions → Ends again)
    → (e : ActivityError) → Ends (resubmit n again e)
unfolding resubmit
Ends-resubmit n again k e =
    Ends-if (not (is_task_lost e) || leb max_submissions n) _ _ (Ends-raise _)
      (λ more. k (ground arith))

Ends-submit_loop :
    (settings : Settings) (fuel before : ℕ) (inp : ConvertInput)
    → 0 < fuel
    → max_submissions ≤ fuel + before
    → Ends (submit_loop settings fuel before inp)
unfolding submit_loop submit
Ends-submit_loop settings zero before inp h k = absurd (omega arith)
Ends-submit_loop settings (suc fuel) before inp h k =
    Ends-bind _ _ (Ends-execute_activity _ pick_submitted) (λ id.
      Ends-try_except _ _ (Ends-await_task settings id (before + 1) inp) (
        Ends-resubmit (before + 1) _
          (λ more. Ends-submit_loop settings fuel (before + 1) inp (omega arith) (omega arith))))

Ends-polls_made : Ends polls_made
unfolding polls_made
Ends-polls_made = record { at = λ s e. cc }

Ends-deliver : (id : Text) (n : ℕ) (found : CollectedOutputs) → Ends (deliver id n found)
unfolding deliver
Ends-deliver id n found =
    Ends-if (not (has_key required_format found.outputs)) _ _ (Ends-raise _)
      (λ _. Ends-bind _ _ Ends-polls_made (λ polls. Ends-pure _))

Ends-fetch : (settings : Settings) (id : Text) → Ends (fetch settings id)
unfolding fetch
Ends-fetch settings id = Ends-execute_activity _ pick_fetched

Ends-collect : (settings : Settings) (inp : ConvertInput) → Ends (collect settings inp)
unfolding collect
Ends-collect settings inp = Ends-execute_activity _ pick_collected

Ends-after_outcome :
    (settings : Settings) (inp : ConvertInput) (id : Text) (n : ℕ) (o : TaskOutcome)
    → Ends (after_outcome settings inp id n o)
unfolding after_outcome
Ends-after_outcome settings inp id n o =
    Ends-if (produced_nothing o) _ _ (Ends-raise _)
      (λ _. Ends-bind _ _ (Ends-collect settings inp) (Ends-deliver id n))

Ends-finish :
    (settings : Settings) (inp : ConvertInput) (id : Text) (c : TaskCompleted) (n : ℕ)
    → Ends (finish settings inp (id, c, n))
unfolding finish
Ends-finish settings inp id c n =
    Ends-if (is_failure c.task_status) _ _ (Ends-raise _)
      (λ _. Ends-bind _ _ (Ends-fetch settings id) (Ends-after_outcome settings inp id n))

-- Whatever the history, neither loop of a run outlives its bound: every run returns, fails, or
-- waits for an event that the history does not have yet.
pub run-ne-out_of_fuel :
    (settings : Settings) (inp : ConvertInput) (s : Instance) → (run settings inp s).0 ≢ out_of_fuel
unfolding run
run-ne-out_of_fuel settings inp =
    (Ends-bind _ _ (Ends-submit_loop settings max_submissions 0 inp (omega arith) (omega arith))
      (λ ended. Ends-finish settings inp ended.0 ended.1 ended.2)).at
