-- ===== src/Orchestration/ProcessTests.antt =====
-- A life of the worker process in which the connection and the signals go well, and the wait ends with
-- an exception.
use docling_serve_ray.Prelude.{◌≡◌, refl, sym, ap, List, [], ◌∷◌, arith}
use docling_serve_ray.Result.{ok, err}
use docling_serve_ray.Facade.Backend.{Action, unexpected}
use docling_serve_ray.Resources.{Tracks, Leaves, async_with}
use docling_serve_ray.Orchestration.Tests.{settings}
use docling_serve_ray.Orchestration.Worker.{build_workers}
use docling_serve_ray.Orchestration.Worker.Process.{
  Resource, ProcessTools, run_workers, run_process, run_process-Leaves,
}

-- The world is the list of what is open.
abbrev World : Type 0
World = List Resource

abbrev idle : Action World (Unit {0})
idle w = (ok tt, w)

abbrev close_last : World → World
close_last [] = []
close_last (r ∷ rs) = rs

abbrev tools : ProcessTools World
tools = record {
  connect = λ address namespace. idle;
  s3_client = λ options. idle;
  add_signal_handler = λ s. idle;
  enter = λ r w. (ok tt, r ∷ w);
  exit = λ r w. (ok tt, close_last w);
  wait_shutdown = λ w. (err unexpected, w);
}

abbrev open_of : World → List Resource
open_of w = w

tools-Tracks : Tracks tools.enter tools.exit open_of
tools-Tracks = record {
  entered = λ r w v e. sym (ap (λ p. p.1) e);
  not_entered = λ r w v x e. absurd (ground (arith, e));
  exited = λ r rs w o. ap close_last o;
}

idle-Leaves : Leaves open_of [] idle
idle-Leaves = record { at = λ w o. o }

run_process_empty : run_process tools settings [] ≡ (err unexpected, [])
unfolding run_process run_workers async_with build_workers
run_process_empty = refl

run_process-Leaves_example : Leaves open_of [] (run_process tools settings)
run_process-Leaves_example =
    run_process-Leaves tools settings open_of tools-Tracks (λ _ _. idle-Leaves) (λ _. idle-Leaves)
      (λ _. idle-Leaves) (record { at = λ w o. o })
