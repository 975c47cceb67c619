-- ===== src/Orchestration/Workflow/Closed.antt =====
-- What is shown of the parts of a run, by the way they are put together. A property of actions that is
-- closed under pure, raise, bind and try_except holds of the whole run once it holds of its sleeps, of
-- its count of the polls and of its activities.
use docling_serve_ray.Prelude.{
  ℕ, zero, suc, ◌+◌, Bool, true, false, Option, none, some, leb, if◌then◌else◌,
}
use docling_serve_ray.Text.{Text}
use docling_serve_ray.Orchestration.Models.{
  ConvertInput, TaskCompleted, TaskOutcome, CollectedOutputs, Settings,
}
use docling_serve_ray.Orchestration.Runtime.{
  ActivityError, check_task, WorkflowFailure, Workflow, ◌>>=◌, pure, raise, execute_activity,
}
use docling_serve_ray.Orchestration.Workflow.{
  is_task_lost, pick_checked, check_retry, max_submissions, sleep_until, try_except, completed_of,
  count_poll, exhausted, check, after_poll, wait_loop, wait_until_terminal, polls_made, deliver,
  after_outcome, finish, fetch, collect, resubmit, await_task, submit, submit_loop, run,
}

pub record IsClosed (K : (A : Type 0) → Workflow A → Type 0) : Type 1 where
  pub of_pure : (A : Type 0) (a : A) → K A (pure a)
  pub of_raise : (A : Type 0) (e : WorkflowFailure) → K A (raise e)
  pub of_exhausted : (A : Type 0) → K A exhausted
  pub of_completed_of : (id : Text) → K TaskCompleted (completed_of id)
  pub of_polls_made : K ℕ polls_made
  pub of_bind :
      (A B : Type 0) (m : Workflow A) (f : A → Workflow B)
      → K A m
      → ((a : A) → K B (f a))
      → K B (m >>= f)
  pub of_try_except :
      (A : Type 0) (body : Workflow A) (handler : ActivityError → Workflow A)
      → K A body
      → ((e : ActivityError) → K A (handler e))
      → K A (try_except body handler)

module _ {K : (A : Type 0) → Workflow A → Type 0} (closed : IsClosed K) where
  closed-if : {A : Type 0} (b : Bool) (m n : Workflow A) → K A m → K A n → K A (if b then m else n)
  closed-if true m n km kn = km
  closed-if false m n km kn = kn

  closed-after_poll :
      (inp : ConvertInput) (polls : ℕ) (again : Workflow TaskCompleted)
      → K TaskCompleted again
      → (polled : Option TaskCompleted) → K TaskCompleted (after_poll inp polls again polled)
  unfolding after_poll
  closed-after_poll inp polls again k (some c) = closed.of_pure _ c
  closed-after_poll inp polls again k none =
      closed-if (leb inp.max_safety_polls polls) _ _ (closed.of_raise _ _) k

  closed-resubmit :
      {A : Type 0} (n : ℕ) (again : Workflow A)
      → K A again
      → (e : ActivityError) → K A (resubmit n again e)
  unfolding resubmit
  closed-resubmit n again k e = closed-if _ _ _ (closed.of_raise _ _) k

  closed-deliver : (id : Text) (n : ℕ) (found : CollectedOutputs) → K _ (deliver id n found)
  unfolding deliver
  closed-deliver id n found =
      closed-if _ _ _ (closed.of_raise _ _)
        (closed.of_bind _ _ _ _ closed.of_polls_made (λ polls. closed.of_pure _ _))

  module _ (settings : Settings)
      (poll : (id : Text)
        → K _ (
            execute_activity
              (check_task id settings.check_task_start_to_close_seconds check_retry)
              pick_checked)) where
    pub closed-check : (id : Text) → K _ (check settings id)
    unfolding check
    closed-check id =
        closed.of_try_except _ _ _ (poll id)
          (λ e. closed-if (is_task_lost e) _ _ (closed.of_raise _ _) (closed.of_pure _ none))

    module _ (inp : ConvertInput)
        (sleeps : (id : Text) → K _ (sleep_until id inp.safety_poll_interval_seconds))
        (count : K _ count_poll) where
      closed-wait_loop : (fuel polls : ℕ) (id : Text) → K _ (wait_loop settings fuel polls id inp)
      unfolding wait_loop
      closed-wait_loop zero polls id = closed.of_exhausted _
      closed-wait_loop (suc fuel) polls id = closed.of_bind _ _ _ _ (sleeps id) (λ arrived.
          closed-if arrived _ _ (closed.of_completed_of id) (
            closed.of_bind _ _ _ _ count (λ _. closed.of_bind _ _ _ _ (closed-check id) (
              closed-after_poll inp (polls + 1) (wait_loop settings fuel (polls + 1) id inp)
                (closed-wait_loop fuel (polls + 1) id)))))

      pub closed-wait_until_terminal : (id : Text) → K _ (wait_until_terminal settings id inp)
      unfolding wait_until_terminal
      closed-wait_until_terminal id = closed-wait_loop (suc inp.max_safety_polls) 0 id

  module _ (settings : Settings) (inp : ConvertInput)
      (fetches : (id : Text) → K _ (fetch settings id))
      (collects : K _ (collect settings inp)) where
    closed-after_outcome :
        (id : Text) (n : ℕ) (o : TaskOutcome) → K _ (after_outcome settings inp id n o)
    unfolding after_outcome
    closed-after_outcome id n o =
        closed-if _ _ _ (closed.of_raise _ _)
          (closed.of_bind _ _ _ _ collects (closed-deliver id n))

    pub closed-finish :
        (id : Text) (c : TaskCompleted) (n : ℕ) → K _ (finish settings inp (id, c, n))
    unfolding finish
    closed-finish id c n =
        closed-if _ _ _ (closed.of_raise _ _)
          (closed.of_bind _ _ _ _ (fetches id) (closed-after_outcome id n))

  module _ (settings : Settings) (inp : ConvertInput) (submits : K _ (submit settings inp))
      (waits : (id : Text) → K _ (wait_until_terminal settings id inp)) where
    pub closed-await_task : (id : Text) (n : ℕ) → K _ (await_task settings id n inp)
    unfolding await_task
    closed-await_task id n = closed.of_bind _ _ _ _ (waits id) (λ c. closed.of_pure _ _)

    pub closed-submit_loop : (fuel before : ℕ) → K _ (submit_loop settings fuel before inp)
    unfolding submit_loop
    closed-submit_loop zero before = closed.of_exhausted _
    closed-submit_loop (suc fuel) before = closed.of_bind _ _ _ _ submits (λ id.
        closed.of_try_except _ _ _ (closed-await_task id (before + 1))
          (closed-resubmit (before + 1) _ (closed-submit_loop fuel (before + 1))))

  pub closed-run :
      (settings : Settings) (inp : ConvertInput)
      → K _ (submit settings inp)
      → ((id : Text)
          → K _ (
              execute_activity
                (check_task id settings.check_task_start_to_close_seconds check_retry)
                pick_checked))
      → ((id : Text) → K _ (sleep_until id inp.safety_poll_interval_seconds))
      → K _ count_poll
      → ((id : Text) → K _ (fetch settings id))
      → K _ (collect settings inp)
      → K _ (run settings inp)
  unfolding run
  closed-run settings inp submits polls sleeps counts fetches collects =
      closed.of_bind _ _ _ _
        (closed-submit_loop settings inp submits
          (closed-wait_until_terminal settings polls inp sleeps counts) max_submissions 0)
        (λ ended. closed-finish settings inp fetches collects ended.0 ended.1 ended.2)
