-- ===== src/Orchestration/Worker.antt =====
-- orchestration/worker.py: the two workers of the process, as they are configured, and its life.
pub mod Process
use docling_serve_ray.Prelude.{ℕ, List, [], ◌∷◌}
use docling_serve_ray.Text.{Text}
use docling_serve_ray.Orchestration.Models.{Settings, task_queue, submit_task_queue}

-- The methods of DoclingActivities.
pub data ActivityName : Type 0 where
  submit_conversion : ActivityName
  check_task : ActivityName
  fetch_outcome : ActivityName
  collect_outputs : ActivityName

pub data WorkflowName : Type 0 where
  convert_document : WorkflowName

pub record Worker : Type 0 where
  pub task_queue : Text
  pub workflows : List WorkflowName
  pub activities : List ActivityName
  pub max_concurrent_activities : ℕ
  pub graceful_shutdown_timeout : ℕ

-- In seconds.
abbrev pub graceful_shutdown : ℕ
graceful_shutdown = 10

-- The main worker and the worker of the submit queue.
unfoldable pub build_workers : Settings → Worker × Worker
build_workers settings = (
  record {
    task_queue = task_queue;
    workflows = convert_document ∷ [];
    activities = check_task ∷ fetch_outcome ∷ collect_outputs ∷ [];
    max_concurrent_activities = settings.max_concurrent_activities;
    graceful_shutdown_timeout = graceful_shutdown;
  },
  record {
    task_queue = submit_task_queue;
    workflows = [];
    activities = submit_conversion ∷ [];
    max_concurrent_activities = 1;
    graceful_shutdown_timeout = graceful_shutdown;
  },
)
