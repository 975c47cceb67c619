-- ===== src/Orchestration/Workflow/Budget.antt =====
-- How often a run polls docling-serve, and what it reports of that.
use docling_serve_ray.Prelude.{
  ℕ, zero, suc, ◌+◌, ◌-◌, ◌*◌, ◌≤◌, ◌<◌, max, ◌≡◌, refl, not, ◌||◌, Option, none, some, List, [],
  ◌∷◌, arith, Bool-cases, inl, inr, if◌then◌else◌, leb, ap,
}
use docling_serve_ray.Text.{Text}
use docling_serve_ray.Orchestration.Models.{ConvertInput, ConvertResult, TaskCompleted, Settings}
use docling_serve_ray.Orchestration.Runtime.{
  Random, ActivityError, Event, Instance, activity_error, application_error, Run, done, failed,
  blocked, out_of_fuel, Workflow, ◌>>=◌, ◌>>◌, pure, raise, check_task, execute_activity,
}
use docling_serve_ray.Orchestration.Workflow.{
  max_submissions, pick_submitted, pick_fetched, pick_collected, is_task_lost, caught, try_except,
  count_poll, check, after_poll, wait_loop, wait_until_terminal, resubmit, await_task, submit,
  submit_loop, sleep_until, check_retry, fetch, collect, finish, run, start,
}
use docling_serve_ray.Orchestration.Workflow.Closed.{closed-finish}
use docling_serve_ray.Orchestration.Workflow.Rules.{
  Keeps-sleep_until, Keeps-completed_of, Keeps-exhausted, Keeps-IsClosed,
}
use docling_serve_ray.Orchestration.Workflow.Finish.{>>=-eq-done, finish-Ends}
use docling_serve_ray.Orchestration.Workflow.Polls.{
  count_checks, count_checks-append, Polls-more, Polls-chain, Polls-order, Polls-continue, Spends,
  Spends-bind, Spends-try_except, Spends-raise, Spends-pure, Spends-if, Spends-execute_activity,
  Spends-wait_condition, Spends-next_sleep,
}

Spends-more : {A : Type 0} (j k : ℕ) (m : Workflow A) → j ≤ k → Spends j m → Spends k m
Spends-more j k m l h = record { at = λ s. Polls-more j k s (m s).1 l (h.at s) }

-- One poll was scheduled, and it was not counted.
record Asks (s t : Instance) : Type 0 where
  same : t.safety_polls ≡ s.safety_polls
  one : count_checks t.commands ≡ count_checks s.commands + 1

-- The `except` clause around a poll changes nothing of the instance.
check-caught_state :
    (r : Run (Option TaskCompleted)) (t : Instance)
    → (caught (r, t) (λ err. if is_task_lost err then raise (activity_error err) else pure none)).1
      ≡ t
unfolding raise pure
check-caught_state (failed (activity_error e)) t = elim (Bool-cases (is_task_lost e)) [
  | inl lost ↦ rw lost
  | inr found ↦ rw found
]
check-caught_state (failed (application_error k final)) t = refl
check-caught_state (done o) t = refl
check-caught_state blocked t = refl
check-caught_state out_of_fuel t = refl

module _ (settings : Settings) where
  check-Asks : (id : Text) (s : Instance) → Asks s (check settings id s).1
  unfolding check try_except execute_activity count_checks
  check-Asks id s =
      let n =
        count_checks-append s.commands
          (check_task id settings.check_task_start_to_close_seconds check_retry ∷ []) in
      rw (check-caught_state _ _) (record { same = refl; one = omega (arith, n) })

  Spends-poll :
      {A : Type 0} (k : ℕ) (id : Text) (f : Option TaskCompleted → Workflow A)
      → ((a : Option TaskCompleted) → Spends k (f a))
      → Spends (1 + k) (do count_poll; polled ← check settings id; f polled)
  unfolding ◌>>=◌ count_poll
  Spends-poll k id f h = record {
    at = λ s.
        let s' = (count_poll s).1 in
        let asked = check-Asks id s' in
        Polls-chain 1 k s (check settings id s').1 _
          (record {
            counted = omega (arith, asked.same, asked.one);
            bounded = omega (arith, asked.one);
            more = omega (arith, asked.one);
          })
          (Polls-continue k (check settings id s').0 f (check settings id s').1 h);
  }

  -- The budget of one wait: `max_safety_polls`, and one poll where that is 0.
  module _ (id : Text) (inp : ConvertInput) where
    Spends-after_poll :
        (polls k : ℕ) (again : Workflow TaskCompleted)
        → (polls < inp.max_safety_polls → Spends k again)
        → (polled : Option TaskCompleted) → Spends k (after_poll inp polls again polled)
    unfolding after_poll
    Spends-after_poll polls k again h (some c) = Spends-pure k c
    Spends-after_poll polls k again h none =
        Spends-if k (leb inp.max_safety_polls polls) _ _ (λ spent. Spends-raise k _)
          (λ left. h (ground arith))

    wait_loop-Spends :
        (fuel polls : ℕ)
        → polls < max 1 inp.max_safety_polls
        → Spends (max 1 inp.max_safety_polls - polls) (wait_loop settings fuel polls id inp)
    unfolding wait_loop
    wait_loop-Spends zero polls l = Spends-more 0 _ _ (omega arith) (Keeps-exhausted Polls-order)
    wait_loop-Spends (suc fuel) polls l =
        let m = max 1 inp.max_safety_polls in
        Spends-more (0 + (1 + (m - (polls + 1)))) (m - polls) _ (omega (arith, l)) (
          Spends-bind 0 _ (sleep_until id inp.safety_poll_interval_seconds) _
            (Keeps-sleep_until Polls-order Spends-next_sleep Spends-wait_condition id
              inp.safety_poll_interval_seconds)
            (λ arrived.
              Spends-if _ arrived _ _
                (λ there. Spends-more 0 _ _ (omega arith) (Keeps-completed_of Polls-order id))
                (λ absent. Spends-poll _ id _ (
                  Spends-after_poll (polls + 1) _ (wait_loop settings fuel (polls + 1) id inp)
                    (λ left. wait_loop-Spends fuel (polls + 1) (omega (arith, left)))))))

    await_task-Spends : (n : ℕ) → Spends (max 1 inp.max_safety_polls) (await_task settings id n inp)
    unfolding await_task wait_until_terminal
    await_task-Spends n = Spends-more (max 1 inp.max_safety_polls - 0 + 0) _ _ (omega arith) (
        Spends-bind _ 0 _ _ (wait_loop-Spends (suc inp.max_safety_polls) 0 (omega arith))
          (λ c. Spends-pure 0 _))

  resubmit-Spends :
      {A : Type 0} (k n : ℕ) (again : Workflow A)
      → Spends k again
      → (e : ActivityError) → Spends k (resubmit n again e)
  unfolding resubmit
  resubmit-Spends k n again h e =
      Spends-if k (not (is_task_lost e) || leb max_submissions n) (raise (activity_error e)) again
        (λ gives_up. Spends-raise k _) (λ goes_on. h)

  module _ (inp : ConvertInput) where
    submit_loop-Spends :
        (fuel before : ℕ)
        → Spends (fuel * max 1 inp.max_safety_polls) (submit_loop settings fuel before inp)
    unfolding submit_loop
    submit_loop-Spends zero before = Spends-more 0 _ _ (omega arith) (Keeps-exhausted Polls-order)
    submit_loop-Spends (suc fuel) before =
        let m = max 1 inp.max_safety_polls in
        Spends-more (0 + (m + fuel * m)) _ _ (ground arith) (
          Spends-bind 0 _ (submit settings inp) _
            (unfold submit in Spends-execute_activity _ pick_submitted refl)
            (λ id.
              Spends-try_except m _ _ _ (await_task-Spends id inp (before + 1))
                (resubmit-Spends _ (before + 1) _ (submit_loop-Spends fuel (before + 1)))))

    run-Spends : Spends (max_submissions * max 1 inp.max_safety_polls) (run settings inp)
    unfolding run
    run-Spends = Spends-more (max_submissions * max 1 inp.max_safety_polls + 0) _ _ (omega arith) (
        Spends-bind _ 0 _ _ (submit_loop-Spends max_submissions 0) (λ ended.
          closed-finish (Keeps-IsClosed Polls-order) settings inp
            (λ id. unfold fetch in Spends-execute_activity _ pick_fetched refl)
            (unfold collect in Spends-execute_activity _ pick_collected refl) ended.0 ended.1
            ended.2))

    module _ (random : Random) (history : List Event) where
      -- However the history goes on, a run polls docling-serve at most `max_safety_polls` times for
      -- each of its four submissions, or once for each where `max_safety_polls` is 0.
      pub run-checks-le :
          count_checks (run settings inp (start random history)).1.commands
          ≤ max_submissions * max 1 inp.max_safety_polls
      unfolding start count_checks
      run-checks-le = omega (arith, (run-Spends.at (start random history)).bounded)

      -- A run that returns reports in `safety_polls` exactly the number of polls that it scheduled,
      -- over all of its submissions.
      pub run-safety_polls :
          (r : ConvertResult)
          → (run settings inp (start random history)).0 ≡ done r
          → r.safety_polls ≡ count_checks (run settings inp (start random history)).1.commands
      unfolding run start count_checks
      run-safety_polls r h =
          let ((id, c, n), looped, finished, state) =
            >>=-eq-done (submit_loop settings max_submissions 0 inp) (finish settings inp)
              (start random history) h in
          let ends = finish-Ends settings inp id n c _ r finished in
          omega (
            arith,
            ends.polls,
            (run-Spends.at (start random history)).counted,
            ap (λ t. t.safety_polls) state,
          )
