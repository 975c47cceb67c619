-- ===== src/Orchestration/Workflow/Progress/Returned.antt =====
-- Runs whose conversion goes well return: on a callback, or on a poll where the callback is missed.
use docling_serve_ray.Prelude.{
  ℕ, suc, ◌+◌, ◌<◌, max, ◌≡◌, refl, Option, some, List, [], ◌∷◌, All, arith, length,
}
use docling_serve_ray.Text.{Text}
use docling_serve_ray.Dict.{lookup, has_key}
use docling_serve_ray.Orchestration.Models.{TaskCompleted, ConvertInput, Settings, success}
use docling_serve_ray.Orchestration.Runtime.{
  Random, ActivityResult, returned, Event, signal, timer_fired, submitted, checked, resume, Command,
  Instance, done, ◌>>=◌, pure, raise, execute_activity,
}
use docling_serve_ray.Orchestration.Workflow.{
  try_except, wait_until_terminal, await_task, polls_made, deliver, after_outcome, submit,
  submit_loop, fetch, collect, finish, run, start,
}
use docling_serve_ray.Orchestration.Workflow.Progress.{
  signals, IsQuiet, rounds, IsOther, resume-signals, Ending, ending, IsGood, answer,
}
use docling_serve_ray.Orchestration.Workflow.Progress.Ended.{
  at, Ended, wait_loop-rounds, wait_loop-called_back, wait_loop-polled,
}

module _ (settings : Settings) (inp : ConvertInput) (id : Text) where
  finish-answers :
      (c : TaskCompleted) (e : Ending) (s : Instance)
      → c.task_status ≡ success
      → IsGood e
      → s.history ≡ ending e
      → (finish settings inp (id, c, 1) s).0 ≡ done (answer id s.safety_polls e)
  unfolding finish after_outcome fetch collect deliver polls_made execute_activity ◌>>=◌ pure raise
      resume
  finish-answers c e s ok (produced, has_json) left =
      rw (ok, left, resume-signals, produced, resume-signals, has_json) refl

  -- A run whose first wait ends well goes on to return.
  run-answers :
      (random : Random) (c : TaskCompleted) (e : Ending) (polls : ℕ) (h : List Event)
      → c.task_status ≡ success
      → IsGood e
      → ((x : List Command × Random)
          → Ended settings inp id c polls
              (ending e)
              (wait_until_terminal settings id inp (at [] 0 h x)))
      → (run settings inp (start random (submitted (returned id) ∷ h))).0 ≡ done (answer id polls e)
  unfolding run submit_loop submit execute_activity resume try_except await_task ◌>>=◌ pure start
  run-answers random c e polls h ok good waits =
      let s = (submit settings inp (start random (submitted (returned id) ∷ h))).1 in
      let w = waits (s.commands, s.random) in
      rw (w.answer, ← w.counted) (finish-answers c e _ ok good w.left)

  module _ (random : Random) (quiet : List (ActivityResult (Option TaskCompleted)))
      (c : TaskCompleted) (e : Ending) where
    -- As long as docling-serve keeps the task and reports its success to the callback, the run
    -- returns: after fewer polls than the budget has that decide nothing, and callbacks for other
    -- tasks, the callback for the task ends the wait; if then both later activities return and their
    -- results are good, the result is what they found, with one submission and the polls made.
    pub run_called_back :
        (others : List TaskCompleted)
        → All IsQuiet quiet
        → length quiet < max 1 inp.max_safety_polls
        → All (IsOther id) others
        → c.task_id ≡ id
        → c.task_status ≡ success
        → IsGood e
        → (run settings inp (
            start random
              (submitted (returned id) ∷ rounds quiet (signals others (signal c ∷ ending e))))).0
          ≡ done (answer id (length quiet) e)
    unfolding wait_until_terminal has_key lookup
    run_called_back others quiets left other same ok good =
        run-answers random c e (length quiet) _ ok good (
          wait_loop-rounds settings inp id quiet (suc inp.max_safety_polls) 0 0 [] _ c
            (length quiet) (ending e) refl quiets (omega (arith, left)) (omega (arith, left))
            (λ f p k cs made.
              let all : length quiet ≡ k = omega (arith, made) in
              rw all (
                wait_loop-called_back settings inp id f p k [] others c (ending e) cs refl same
                  other)))

    -- A callback that never arrives does not keep the run from returning: after fewer polls than
    -- the budget has that decide nothing, a poll that finds the task finished ends the wait.
    pub run_polled :
        All IsQuiet quiet
        → length quiet < max 1 inp.max_safety_polls
        → c.task_status ≡ success
        → IsGood e
        → (run settings inp (
            start random (
              submitted (returned id)
              ∷ rounds quiet (timer_fired ∷ checked (returned (some c)) ∷ ending e)))).0
          ≡ done (answer id (length quiet + 1) e)
    unfolding wait_until_terminal has_key lookup
    run_polled quiets left ok good = run-answers random c e (length quiet + 1) _ ok good (
        wait_loop-rounds settings inp id quiet (suc inp.max_safety_polls) 0 0 [] _ c
          (length quiet + 1) (ending e) refl quiets (omega (arith, left)) (omega (arith, left))
          (λ f p k cs made.
            let all : length quiet ≡ k = omega (arith, made) in
            rw all (wait_loop-polled settings inp id f p k [] c (ending e) cs refl)))
