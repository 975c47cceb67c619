-- ===== src/Orchestration/Workflow/Protocol/Whole.antt =====
-- The run of `ConvertDocumentWorkflow` keeps to the protocol.
use docling_serve_ray.Prelude.{
  ℕ, zero, suc, ◌+◌, Bool, true, false, Option, none, some, List, leb, if◌then◌else◌,
}
use docling_serve_ray.Text.{Text}
use docling_serve_ray.Orchestration.Models.{ConvertInput, Settings, TaskCompleted, CollectedOutputs}
use docling_serve_ray.Orchestration.Runtime.{Random, Event, Workflow, ◌>>=◌, ◌>>◌}
use docling_serve_ray.Orchestration.Workflow.{
  max_submissions, is_task_lost, pick_submitted, pick_checked, pick_fetched, pick_collected,
  completed_of, count_poll, check, after_poll, wait_loop, wait_until_terminal, resubmit, deliver,
  polls_made, submit, await_task, submit_loop, fetch, collect, after_outcome, finish, run, start,
}
use docling_serve_ray.Orchestration.Workflow.Protocol.{
  Phase, initial, asleep, polling, examining, collecting, MayEnd, MaySleep, first_sleep, MaySubmit,
  first_submission, examines, begun, AnyPhase, Exactly, exactly, Lands, Takes,
}
use docling_serve_ray.Orchestration.Workflow.Protocol.Rules.{
  Takes-pure, Takes-fail, Takes-raise, Takes-exhausted, Takes-if, Takes-from,
  Takes-execute_activity, Takes-bind, Takes-try_except,
}
use docling_serve_ray.Orchestration.Workflow.Protocol.Waits.{
  polls_from, collects_from, task_of, submits_from, polling-MayEnd, polling-MaySleep,
  polling-MaySubmit, Slept, sleep_until-Takes, completed_of-Takes,
}

module _ (settings : Settings) where
  check-Takes :
      (id : Text)
      → Takes
          (Exactly (asleep id))
          (check settings id)
          (λ polled. Exactly (polling id))
          (Exactly (polling id))
  unfolding check
  check-Takes id =
      Takes-try_except _ _
        (Takes-execute_activity _ pick_checked (λ o. polling id) (λ o. polls_from id _ _)
          (λ a. exactly) (λ e. exactly))
        (λ err.
          Takes-if (is_task_lost err) _ _ (Takes-raise _ (λ p k. k)) (Takes-pure none (λ p k. k)))

  module _ (inp : ConvertInput) where
    after_poll-Takes :
        (id : Text) (n : ℕ) (again : Workflow TaskCompleted)
        → Takes (MaySleep id) again (λ c. MayEnd id) (Exactly (polling id))
        → (polled : Option TaskCompleted)
        → Takes
            (Exactly (polling id))
            (after_poll inp n again polled)
            (λ c. MayEnd id)
            (Exactly (polling id))
    unfolding after_poll
    after_poll-Takes id n again k (some c) = Takes-pure c (polling-MayEnd id)
    after_poll-Takes id n again k none =
        Takes-if (leb inp.max_safety_polls n) _ _ (Takes-fail _ _)
          (Takes-from again (polling-MaySleep id) k)

    -- What follows a sleep, by how it ended.
    woke-Takes :
        (id : Text) (n : ℕ) (again : Workflow TaskCompleted)
        → Takes (MaySleep id) again (λ c. MayEnd id) (Exactly (polling id))
        → (arrived : Bool)
        → Takes
            (Slept id arrived)
            (if arrived
              then completed_of id
              else (count_poll >> (check settings id >>= after_poll inp n again)))
            (λ c. MayEnd id)
            (Exactly (polling id))
    unfolding count_poll
    woke-Takes id n again k true = completed_of-Takes id _
    woke-Takes id n again k false =
        Takes-bind {Q = λ u. Exactly (asleep id)} _ _ (record { at = λ s h. h })
          (λ u. Takes-bind _ _ (check-Takes id) (after_poll-Takes id n _ k))

    wait_loop-Takes :
        (fuel n : ℕ) (id : Text)
        → Takes
            (MaySleep id)
            (wait_loop settings fuel n id inp)
            (λ c. MayEnd id)
            (Exactly (polling id))
    unfolding wait_loop
    wait_loop-Takes zero n id = Takes-exhausted
    wait_loop-Takes (suc fuel) n id =
        Takes-bind _ _ (sleep_until-Takes id _ inp.safety_poll_interval_seconds)
          (woke-Takes id (n + 1) _ (wait_loop-Takes fuel (n + 1) id))

    wait_until_terminal-Takes :
        (id : Text)
        → Takes
            (MaySleep id)
            (wait_until_terminal settings id inp)
            (λ c. MayEnd id)
            (Exactly (polling id))
    unfolding wait_until_terminal
    wait_until_terminal-Takes id = wait_loop-Takes (suc inp.max_safety_polls) 0 id

    await_task-Takes :
        (id : Text) (n : ℕ)
        → Takes
            (MaySleep id)
            (await_task settings id n inp)
            (λ e. MayEnd e.0)
            (Exactly (polling id))
    unfolding await_task
    await_task-Takes id n =
        Takes-bind _ _ (wait_until_terminal-Takes id) (λ c. Takes-pure _ (λ p k. k))

    submit-Takes : Takes MaySubmit (submit settings inp) MaySleep AnyPhase
    unfolding submit
    submit-Takes =
        Takes-execute_activity _ pick_submitted task_of (submits_from _ _ _ _) (λ id. first_sleep)
          (λ e. tt)

    submit_loop-Takes :
        (fuel n : ℕ) → Takes MaySubmit (submit_loop settings fuel n inp) (λ e. MayEnd e.0) AnyPhase
    unfolding submit_loop resubmit
    submit_loop-Takes zero n = Takes-exhausted
    submit_loop-Takes (suc fuel) n = Takes-bind _ _ submit-Takes (λ id.
        Takes-try_except _ _ (await_task-Takes id (n + 1)) (λ e.
          Takes-if _ _ _ (Takes-raise e (λ p k. tt))
            (Takes-from _ (polling-MaySubmit id) (submit_loop-Takes fuel (n + 1)))))

    fetch-Takes :
        (id : Text) → Takes (MayEnd id) (fetch settings id) (λ o. Exactly (examining id)) AnyPhase
    unfolding fetch
    fetch-Takes id =
        Takes-execute_activity _ pick_fetched (λ o. examining id) (λ o p may. examines may)
          (λ a. exactly) (λ e. tt)

    collect-Takes :
        (id : Text)
        → Takes
            (Exactly (examining id))
            (collect settings inp)
            (λ found. Exactly (collecting id))
            AnyPhase
    unfolding collect
    collect-Takes id =
        Takes-execute_activity _ pick_collected (λ o. collecting id) (λ o. collects_from id _ _)
          (λ a. exactly) (λ e. tt)

    deliver-Takes :
        (id : Text) (n : ℕ) (found : CollectedOutputs)
        → Takes
            (Exactly (collecting id))
            (deliver id n found)
            (λ r. Exactly (collecting r.task_id))
            AnyPhase
    unfolding deliver polls_made
    deliver-Takes id n found = Takes-if _ _ _ (Takes-fail _ _) (
        Takes-bind {Q = λ polls. Exactly (collecting id)} _ _ (record { at = λ s h. h })
          (λ polls. Takes-pure _ (λ p k. k)))

    finish-Takes :
        (ended : Text × TaskCompleted × ℕ)
        → Takes
            (MayEnd ended.0)
            (finish settings inp ended)
            (λ r. Exactly (collecting r.task_id))
            AnyPhase
    unfolding finish after_outcome
    finish-Takes (id, c, n) = Takes-if _ _ _ (Takes-fail _ _) (
        Takes-bind _ _ (fetch-Takes id) (λ o.
          Takes-if _ _ _ (Takes-fail _ _) (Takes-bind _ _ (collect-Takes id) (deliver-Takes id n))))

    -- However the history goes on, the commands of a run keep to the protocol: it submits, then
    -- sleeps and polls by turns, all polls after one submission for the same id, submits again
    -- only right after a poll, asks once for the outcome, for the id of the last polls, and then
    -- once for the outputs. A run that returns has gone all the way, for the task that its result
    -- names.
    pub run-Lands :
        (random : Random) (history : List Event)
        → Lands
            (λ r. Exactly (collecting r.task_id))
            AnyPhase
            (run settings inp (start random history))
    unfolding run start
    run-Lands random history =
        (Takes-bind _ _ (Takes-from _ first (submit_loop-Takes max_submissions 0)) finish-Takes).at
          (start random history) (record { phase = initial; reached = begun; holds = exactly })
      where
        first : (p : Phase) → Exactly initial p → MaySubmit p
        first p exactly = first_submission
