-- ===== src/Orchestration/Workflow/Whole.antt =====
-- What a whole run keeps of the record of completed tasks.
use docling_serve_ray.Prelude.{◌≡◌, some}
use docling_serve_ray.Text.{Text}
use docling_serve_ray.Dict.{lookup}
use docling_serve_ray.Orchestration.Models.{ConvertInput, TaskCompleted, Settings}
use docling_serve_ray.Orchestration.Runtime.{Instance}
use docling_serve_ray.Orchestration.Workflow.{
  pick_submitted, pick_checked, pick_fetched, pick_collected, submit, fetch, collect, run,
}
use docling_serve_ray.Orchestration.Workflow.Closed.{closed-run}
use docling_serve_ray.Orchestration.Workflow.Rules.{Keeps-IsClosed}
use docling_serve_ray.Orchestration.Workflow.Signals.{
  Follows-order, execute_activity-Follows, sleep_until-Follows, count_poll-Follows,
}

-- Once a task's completion is recorded, nothing that a run meets replaces it: neither another
-- callback for the task, nor a poll, nor a later submission.
pub run-first_wins :
    (settings : Settings) (inp : ConvertInput) (s : Instance) (id : Text) (c : TaskCompleted)
    → lookup id s.completed ≡ some c
    → lookup id (run settings inp s).1.completed ≡ some c
unfolding submit fetch collect
run-first_wins settings inp s id c =
    let follows =
      closed-run (Keeps-IsClosed Follows-order) settings inp
        (execute_activity-Follows _ pick_submitted) (λ id. execute_activity-Follows _ pick_checked)
        (λ id. sleep_until-Follows id inp.safety_poll_interval_seconds) count_poll-Follows
        (λ id. execute_activity-Follows _ pick_fetched)
        (execute_activity-Follows _ pick_collected) in
    (follows.at s).delivers.first_wins id c
