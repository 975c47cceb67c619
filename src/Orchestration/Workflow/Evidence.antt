-- ===== src/Orchestration/Workflow/Evidence.antt =====
-- What the history must hold for a run to return.
use docling_serve_ray.Prelude.{
  ℕ, zero, suc, ◌+◌, ◌≡◌, refl, sym, ◌∙◌, ◌⊎◌, inl, inr, true, false, some, List, arith,
}
use docling_serve_ray.Text.{Text}
use docling_serve_ray.Dict.{lookup, has_key}
use docling_serve_ray.Orchestration.Models.{
  success, required_format, ConvertInput, ConvertResult, TaskCompleted, TaskOutcome,
  CollectedOutputs, Settings,
}
use docling_serve_ray.Orchestration.Runtime.{
  Random, ActivityError, returned, Event, signal, submitted, checked, fetched, collected, Instance,
  Run, done, failed, blocked, out_of_fuel, Workflow, activity_error, application_error, pure, raise,
}
use docling_serve_ray.Orchestration.Workflow.{
  pick_submitted, pick_fetched, produced_nothing, fetch, submit, finish, submit_loop, run, start,
  max_submissions, wait_until_terminal, caught, try_except, await_task, resubmit, exhausted,
}
use docling_serve_ray.Orchestration.Workflow.Closed.{closed-await_task, closed-submit_loop}
use docling_serve_ray.Orchestration.Workflow.Rules.{Keeps, Keeps-IsClosed}
use docling_serve_ray.Orchestration.Workflow.Signals.{
  Occurs, Follows, Follows-order, execute_activity-Follows, wait_until_terminal-Follows,
}
use docling_serve_ray.Orchestration.Workflow.Recorded.{
  fetch-recorded, collect-recorded, submit-recorded,
}
use docling_serve_ray.Orchestration.Workflow.Completion.{
  Reported, Reported-Follows, wait_until_terminal-Reported,
}
use docling_serve_ray.Orchestration.Workflow.Finish.{>>=-eq-done, finish-Ends}

submit-Follows : (settings : Settings) (inp : ConvertInput) → Keeps Follows (submit settings inp)
unfolding submit
submit-Follows settings inp = execute_activity-Follows _ pick_submitted

fetch-Follows : (settings : Settings) (id : Text) → Keeps Follows (fetch settings id)
unfolding fetch
fetch-Follows settings id = execute_activity-Follows _ pick_fetched

await_task-Follows :
    (settings : Settings) (inp : ConvertInput) (id : Text) (n : ℕ)
    → Keeps Follows (await_task settings id n inp)
await_task-Follows settings inp id n =
    closed-await_task (Keeps-IsClosed Follows-order) settings inp (submit-Follows settings inp)
      (λ id. wait_until_terminal-Follows settings id inp) id n

submit_loop-Follows :
    (settings : Settings) (inp : ConvertInput) (fuel before : ℕ)
    → Keeps Follows (submit_loop settings fuel before inp)
submit_loop-Follows settings inp fuel before =
    closed-submit_loop (Keeps-IsClosed Follows-order) settings inp (submit-Follows settings inp)
      (λ id. wait_until_terminal-Follows settings id inp) fuel before

-- Inversion of a `try` that returned.
caught-eq-done :
    {A : Type 0} (r : Run A) (t : Instance) (handler : ActivityError → Workflow A) {a : A}
    → (caught (r, t) handler).0 ≡ done a
    → (r ≡ done a) ⊎ ((e : ActivityError) × ((handler e t).0 ≡ done a))
caught-eq-done (failed (activity_error e)) t handler h = inr (e, h)
caught-eq-done (failed (application_error k final)) t handler h = cc
caught-eq-done (done b) t handler h = inl h
caught-eq-done blocked t handler h = cc
caught-eq-done out_of_fuel t handler h = cc

resubmit-eq-done :
    {A : Type 0} (n : ℕ) (again : Workflow A) (e : ActivityError) (s : Instance) {a : A}
    → (resubmit n again e s).0 ≡ done a
    → (again s).0 ≡ done a
unfolding resubmit raise
resubmit-eq-done n again e s h = ground arith

-- What the loop's result rests on: a submission of the history returned the task, and its
-- completion is reported.
abbrev Submitted : Text × TaskCompleted × ℕ → Instance → Type 0
Submitted ended s = Occurs (submitted (returned ended.0)) s.history × Reported ended.0 ended.1 s

module _ (settings : Settings) (inp : ConvertInput) where
  await_task-Reported :
      (id : Text) (n : ℕ) (s : Instance) (ended : Text × TaskCompleted × ℕ)
      → (await_task settings id n inp s).0 ≡ done ended
      → (ended.0 ≡ id) × Reported id ended.1 s
  unfolding await_task pure
  await_task-Reported id n s ended h =
      let (c, waited, packed, _) = >>=-eq-done (wait_until_terminal settings id inp) _ s h in
      let same : (id, c, n) ≡ ended = ground arith in
      rw (← same) (refl, wait_until_terminal-Reported settings id inp s c waited)

  Submitted-submit_loop :
      (fuel before : ℕ) (s : Instance) (ended : Text × TaskCompleted × ℕ)
      → (submit_loop settings fuel before inp s).0 ≡ done ended
      → Submitted ended s
  unfolding submit_loop exhausted try_except
  Submitted-submit_loop zero before s ended h = cc
  Submitted-submit_loop (suc fuel) before s ended h =
      let (id, sent, after, _) = >>=-eq-done (submit settings inp) _ s h in
      let s' = (submit settings inp s).1 in
      let f = (submit-Follows settings inp).at s in
      elim (caught-eq-done (await_task settings id (before + 1) inp s').0 _ _ after) [
        | inl waited ↦
            let (same, reported) = await_task-Reported id (before + 1) s' ended waited in
            (
              rw same (submit-recorded settings inp s id sent),
              rw same (Reported-Follows id ended.1 f reported),
            )
        | inr (e, again) ↦
            let t = (await_task settings id (before + 1) inp s').1 in
            let g = (await_task-Follows settings inp id (before + 1)).at s' in
            let (sent', reported') =
              Submitted-submit_loop fuel (before + 1) t ended (resubmit-eq-done _ _ e t again) in
            (
              f.rest _ (g.rest _ sent'),
              Reported-Follows ended.0 ended.1 f (Reported-Follows ended.0 ended.1 g reported'),
            )
      ]

-- What stands in the history of a run that returned.
pub record IsBacked (history : List Event) (r : ConvertResult) : Type 0 where
  pub completion : TaskCompleted
  pub outcome : TaskOutcome
  pub found : CollectedOutputs
  pub task_submitted : Occurs (submitted (returned r.task_id)) history
  pub succeeded : completion.task_status ≡ success
  pub reported :
      ((completion.task_id ≡ r.task_id) × Occurs (signal completion) history)
      ⊎ Occurs (checked (returned (some completion))) history
  pub outcome_fetched : Occurs (fetched (returned outcome)) history
  pub something_produced : produced_nothing outcome ≡ false
  pub outputs_collected : Occurs (collected (returned found)) history
  pub outputs : r.outputs ≡ found.outputs
  pub bucket : r.output_bucket ≡ found.bucket
  pub has_json : has_key required_format r.outputs ≡ true

Reported-start :
    (random : Random) (history : List Event) (id id' : Text) (c : TaskCompleted)
    → id' ≡ id
    → Reported id c (start random history)
    → ((c.task_id ≡ id') × Occurs (signal c) history) ⊎ Occurs (checked (returned (some c))) history
unfolding start lookup
Reported-start random history id id' c p (inl known) = cc
Reported-start random history id id' c p (inr (inl (same, there))) = inl (same ∙ sym p, there)
Reported-start random history id id' c p (inr (inr there)) = inr there

task_of :
    (history : List Event) {id id' : Text}
    → id' ≡ id
    → Occurs (submitted (returned id)) history
    → Occurs (submitted (returned id')) history
task_of history p o = rw p o

from_start :
    (random : Random) (e : Event) (history : List Event)
    → Occurs e (start random history).history
    → Occurs e history
unfolding start
from_start random e history o = o

-- A run that returns rests on its history: a submission returned the task; a callback for that very
-- task or a poll reported its success; the fetched outcome does not say that nothing was produced;
-- and the outputs are the collected ones and hold "json".
pub run-IsBacked :
    (settings : Settings) (inp : ConvertInput) (random : Random) (history : List Event)
    (r : ConvertResult)
    → (run settings inp (start random history)).0 ≡ done r
    → IsBacked history r
unfolding run
run-IsBacked settings inp random history r h =
    let s = start random history in
    let ((id, c, n), looped, finished, _) =
      >>=-eq-done (submit_loop settings max_submissions 0 inp) (finish settings inp) s h in
    let t = (submit_loop settings max_submissions 0 inp s).1 in
    let f = (submit_loop-Follows settings inp max_submissions 0).at s in
    let g = (fetch-Follows settings id).at t in
    let (sent, reported) =
      Submitted-submit_loop settings inp max_submissions 0 s (id, c, n) looped in
    let ends = finish-Ends settings inp id n c t r finished in
    let outcome_there = fetch-recorded settings id t ends.outcome ends.outcome_fetched in
    let outputs_there =
      collect-recorded settings inp (fetch settings id t).1 ends.found ends.outputs_collected in
    record {
      completion = c;
      outcome = ends.outcome;
      found = ends.found;
      task_submitted = task_of history ends.task (from_start random _ history sent);
      succeeded = ends.succeeded;
      reported = Reported-start random history id r.task_id c ends.task reported;
      outcome_fetched = from_start random _ history (f.rest _ outcome_there);
      something_produced = ends.something_produced;
      outputs_collected = from_start random _ history (f.rest _ (g.rest _ outputs_there));
      outputs = ends.outputs;
      bucket = ends.bucket;
      has_json = ends.has_json;
    }
