-- ===== src/Orchestration/CommandTests.antt =====
-- The commands of the run of `lost_then_done`.
use docling_serve_ray.Orchestration.Workflow.Protocol.Whole.{run-Lands}
use docling_serve_ray.Orchestration.Workflow.Protocol.{Lands, AnyPhase, Exactly, collecting}
use docling_serve_ray.Prelude.{arith, All}
use docling_serve_ray.Orchestration.Workflow.{run, start}
use docling_serve_ray.Orchestration.Workflow.Paced.{IsUniform, IsUniform, IsPaced, run-IsPaced}
use docling_serve_ray.Orchestration.Workflow.Served.{IsServed, run-IsServed}
use docling_serve_ray.Orchestration.Worker.{build_workers}
use docling_serve_ray.Orchestration.Tests.{settings, document, random, lost_then_done}

random-IsUniform : IsUniform random
random-IsUniform = record { between = λ n a b h. (omega arith, h) }

run-IsPaced_example :
    All (IsPaced document) (run settings document (start random lost_then_done)).1.commands
run-IsPaced_example = run-IsPaced settings document random lost_then_done random-IsUniform

run-Lands_example :
    Lands
      (λ r. Exactly (collecting r.task_id))
      AnyPhase
      (run settings document (start random lost_then_done))
run-Lands_example = run-Lands settings document random lost_then_done

run-IsServed_example :
    All
      (IsServed (build_workers settings))
      (run settings document (start random lost_then_done)).1.commands
run-IsServed_example = run-IsServed settings document random lost_then_done
