-- ===== src/Orchestration/Workflow/Protocol/Waits.antt =====
-- The steps of a run in the protocol: its sleeps and its activities.
use docling_serve_ray.Prelude.{
  ℕ, ◌++◌, Bool, true, false, Option, none, some, [], ◌∷◌, inl, inr, Bool-cases,
}
use docling_serve_ray.Text.{Text}
use docling_serve_ray.Dict.{has_key, lookup}
use docling_serve_ray.Orchestration.Models.{
  TaskCompleted, SubmitConversionInput, CollectOutputsInput,
}
use docling_serve_ray.Orchestration.Runtime.{
  start_timer, Instance, Run, done, blocked, sleep, woken, wait_condition, RetryPolicy,
  submit_conversion, check_task, collect_outputs, ActivityResult, returned, raised,
}
use docling_serve_ray.Orchestration.Workflow.{
  max_submissions, is_task_lost, pick_submitted, pick_checked, pick_fetched, pick_collected,
  sleep_until, completed_of, count_poll, check, after_poll, wait_loop, wait_until_terminal,
  resubmit, deliver, polls_made, submit, await_task, submit_loop, fetch, collect, after_outcome,
  finish, run, start,
}
use docling_serve_ray.Orchestration.Workflow
use docling_serve_ray.Orchestration.Workflow.Protocol.{
  Phase, asleep, polling, MayEnd, at_once, by_callback, by_poll, MaySleep, first_sleep, next_sleep,
  MaySubmit, resubmission, sleeps, after, At, Exactly, exactly, At-map, Lands, Takes, awaiting,
  examining, collecting, Step, submits, polls, collects,
}
use docling_serve_ray.Orchestration.Workflow.Protocol.Rules.{Takes-bind}

module _ (id : Text) where
  MaySleep-MayEnd : (p : Phase) → MaySleep id p → MayEnd id p
  MaySleep-MayEnd p first_sleep = at_once
  MaySleep-MayEnd p next_sleep = by_poll

  pub polling-MayEnd : (p : Phase) → Exactly (polling id) p → MayEnd id p
  polling-MayEnd p exactly = by_poll

  pub polling-MaySleep : (p : Phase) → Exactly (polling id) p → MaySleep id p
  polling-MaySleep p exactly = next_sleep

  pub polling-MaySubmit : (p : Phase) → Exactly (polling id) p → MaySubmit p
  polling-MaySubmit p exactly = resubmission

  -- After a sleep: a callback came, or the timer ran out.
  abbrev pub Slept : Bool → Phase → Type 0
  Slept true p = MayEnd id p
  Slept false p = Exactly (asleep id) p

  slept :
      (E : Phase → Type 0) (o : Option Bool) (s : Instance)
      → At (Exactly (asleep id)) s.commands
      → Lands Slept E (woken o, s)
  slept E none s h = At-map (λ p k. tt) h
  slept E (some true) s h = At-map (λ p k. asleep-MayEnd p k) h
    where
      asleep-MayEnd : (p : Phase) → Exactly (asleep id) p → MayEnd id p
      asleep-MayEnd p exactly = by_callback
  slept E (some false) s h = h

  wait_condition-Takes :
      (E : Phase → Type 0) (timeout : ℕ) → Takes (MaySleep id) (wait_condition id timeout) Slept E
  unfolding wait_condition
  wait_condition-Takes E timeout = record {
    at = λ s h. elim (Bool-cases (has_key id s.completed)) [
      | inl there ↦ rw there (At-map MaySleep-MayEnd h)
      | inr absent ↦
          let rest = sleep id s.history s.completed in
          rw absent (
            slept E rest.0
              (record s {
                completed = rest.2;
                history = rest.1;
                commands = s.commands ++ start_timer timeout ∷ [];
              })
              (record {
                phase = asleep id;
                reached = after h.reached (sleeps h.holds);
                holds = exactly;
              }))
    ];
  }

  pub sleep_until-Takes :
      (E : Phase → Type 0) (interval : ℕ) → Takes (MaySleep id) (sleep_until id interval) Slept E
  unfolding sleep_until Workflow.next_sleep
  sleep_until-Takes E interval =
      Takes-bind {Q = λ n. MaySleep id} _ _ (record { at = λ s h. h })
        (λ n. wait_condition-Takes E n)

  pub completed_of-Takes :
      (E : Phase → Type 0) → Takes (MayEnd id) (completed_of id) (λ c. MayEnd id) E
  unfolding completed_of
  completed_of-Takes E = record { at = λ s h. found s (lookup id s.completed) h }
    where
      found :
          (s : Instance) (o : Option TaskCompleted)
          → At (MayEnd id) s.commands
          → Lands
              (λ c. MayEnd id)
              E
              (elim o as (λ _. Run TaskCompleted × Instance) [
                | none ↦ (blocked, s)
                | some c ↦ (done c, s)
              ])
      found s none h = At-map (λ p k. tt) h
      found s (some c) h = h

module _ (id : Text) where
  pub polls_from :
      (timeout : ℕ) (retry : RetryPolicy) (p : Phase)
      → Exactly (asleep id) p
      → Step p (check_task id timeout retry) (polling id)
  polls_from timeout retry p exactly = polls

  pub collects_from :
      (input : CollectOutputsInput) (timeout : ℕ) (p : Phase)
      → Exactly (examining id) p
      → Step p (collect_outputs input timeout) (collecting id)
  collects_from input timeout p exactly = collects

-- The task that a submission returned; one that does not return may get any.
abbrev pub task_of : Option (ActivityResult Text) → Phase
task_of none = awaiting []
task_of (some (returned id)) = awaiting id
task_of (some (raised e)) = awaiting []

pub submits_from :
    (input : SubmitConversionInput) (queue : Text) (timeout : ℕ) (retry : RetryPolicy)
    (o : Option (ActivityResult Text)) (p : Phase)
    → MaySubmit p
    → Step p (submit_conversion input queue timeout retry) (task_of o)
submits_from input queue timeout retry none p may = submits [] may
submits_from input queue timeout retry (some (returned id)) p may = submits id may
submits_from input queue timeout retry (some (raised e)) p may = submits [] may
