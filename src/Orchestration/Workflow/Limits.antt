-- ===== src/Orchestration/Workflow/Limits.antt =====
-- The bounds on what a run asks of docling-serve.
use docling_serve_ray.Prelude.{ℕ, ◌≤◌, ◌≡◌, refl, List, arith}
use docling_serve_ray.Text.{Text}
use docling_serve_ray.Orchestration.Models.{ConvertInput, ConvertResult, TaskCompleted, Settings}
use docling_serve_ray.Orchestration.Runtime.{
  Random, Event, Instance, Run, done, failed, blocked, out_of_fuel, continue, ◌>>=◌,
}
use docling_serve_ray.Orchestration.Workflow.{
  max_submissions, submit_loop, finish, run_within, run, start,
}
use docling_serve_ray.Orchestration.Workflow.Submissions.{
  count_submits, Submits, SameSubmits-order, Counts, submit_loop-Counts, finish-Submits,
}
use docling_serve_ray.Orchestration.Workflow.Finish.{>>=-eq-done, finish-Ends}

count_submits-start :
    (random : Random) (history : List Event) → count_submits (start random history).commands ≡ 0
unfolding start count_submits
count_submits-start random history = refl

finish-Submits_of_run :
    (settings : Settings) (inp : ConvertInput) (r : Run (Text × TaskCompleted × ℕ)) (t : Instance)
    → Submits 0 t (continue r (finish settings inp) t).1
finish-Submits_of_run settings inp (done (id, c, n)) t = (finish-Submits settings inp id c n).at t
finish-Submits_of_run settings inp (failed e) t = SameSubmits-order.stays t
finish-Submits_of_run settings inp blocked t = SameSubmits-order.stays t
finish-Submits_of_run settings inp out_of_fuel t = SameSubmits-order.stays t

module _ (settings : Settings) (inp : ConvertInput) (random : Random) (history : List Event) where
  abbrev loop_of_run : ℕ → Run (Text × TaskCompleted × ℕ) × Instance
  loop_of_run turns = submit_loop settings turns 0 inp (start random history)

  loop-Counts : (turns : ℕ) → Counts 0 (start random history) (loop_of_run turns)
  loop-Counts turns = submit_loop-Counts settings inp turns 0 (start random history) (omega arith)

  submits_of_run :
      (turns : ℕ)
      → count_submits (run_within settings turns inp (start random history)).1.commands
        ≡ (loop-Counts turns).made
  unfolding ◌>>=◌
  submits_of_run turns =
      let later = finish-Submits_of_run settings inp (loop_of_run turns).0 (loop_of_run turns).1 in
      omega
        (arith, later.more, (loop-Counts turns).counted.more, count_submits-start random history)

  -- However the history goes on, and whatever bound the model puts on the turns of the loop, which
  -- for `run` is four, a run schedules at most four submissions.
  pub run-submits-le :
      (turns : ℕ)
      → count_submits (run_within settings turns inp (start random history)).1.commands ≤ 4
  run-submits-le turns = omega (arith, submits_of_run turns, (loop-Counts turns).bounded)

  -- A run that returns reports the number of submissions that it scheduled.
  pub run-submissions :
      (r : ConvertResult)
      → (run settings inp (start random history)).0 ≡ done r
      → r.submissions ≡ count_submits (run settings inp (start random history)).1.commands
  unfolding run
  run-submissions r h =
      let ((id, c, n), looped, finished, state) =
        >>=-eq-done (submit_loop settings max_submissions 0 inp) (finish settings inp)
          (start random history) h in
      let ends = finish-Ends settings inp id n c (loop_of_run max_submissions).1 r finished in
      let told = (loop-Counts max_submissions).told (id, c, n) looped in
      omega (arith, ends.count, told, submits_of_run max_submissions)
