-- ===== src/Orchestration/Workflow/Served.antt =====
-- Every activity that a run schedules is served by the worker of the queue that it is scheduled on.
use docling_serve_ray.Prelude.{◌≡◌, refl, ◌⊎◌, inl, inr, List, [], ◌∷◌, All}
use docling_serve_ray.Text.{Text}
use docling_serve_ray.Orchestration.Models.{ConvertInput, Settings, task_queue}
use docling_serve_ray.Orchestration.Runtime.{Random, Event, Command}
use docling_serve_ray.Orchestration.Workflow.{run, start}
use docling_serve_ray.Orchestration.Workflow.Commands.{run-All}
use docling_serve_ray.Orchestration.Worker.{
  ActivityName, submit_conversion, check_task, fetch_outcome, collect_outputs, Worker,
  build_workers,
}

abbrev pub Offers : ActivityName → List ActivityName → Type 0
Offers a [] = ⊥
Offers a (x ∷ xs) = (x ≡ a) ⊎ Offers a xs

-- A worker that listens on the queue and offers the activity.
abbrev pub ServedBy : Worker → Text → ActivityName → Type 0
ServedBy w queue a = (w.task_queue ≡ queue) × Offers a w.activities

-- A command is served: a submission by the worker of one activity at a time, any other activity,
-- scheduled on the workflow's own queue, by the main worker. A timer needs no worker.
abbrev pub IsServed : Worker × Worker → Command → Type 0
IsServed (main, serial) (Command.submit_conversion inp queue timeout retry) =
    ServedBy serial queue submit_conversion × (serial.max_concurrent_activities ≡ 1)
IsServed (main, serial) (Command.start_timer length) = Unit
IsServed (main, serial) (Command.check_task id timeout retry) = ServedBy main task_queue check_task
IsServed (main, serial) (Command.fetch_outcome id timeout) = ServedBy main task_queue fetch_outcome
IsServed (main, serial) (Command.collect_outputs inp timeout) =
    ServedBy main task_queue collect_outputs

module _ (settings : Settings) where
  -- Every command of a run is served: a submission is scheduled on the queue of the worker that
  -- offers it and takes one activity at a time, and every other activity, which is scheduled on the
  -- workflow's own queue, is offered by the worker of that queue.
  pub run-IsServed :
      (inp : ConvertInput) (random : Random) (history : List Event)
      → All (IsServed (build_workers settings)) (run settings inp (start random history)).1.commands
  unfolding build_workers
  run-IsServed inp random history =
      run-All (λ r. Unit) (IsServed (build_workers settings)) settings inp (λ r u. tt) (λ r u. tt)
        ((refl, inl refl), refl) (λ id. (refl, inl refl)) (λ id. (refl, inr (inl refl)))
        (refl, inr (inr (inl refl))) random history tt
