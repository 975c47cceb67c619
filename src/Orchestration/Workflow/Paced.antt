-- ===== src/Orchestration/Workflow/Paced.antt =====
-- How long a run sleeps between its polls, and how its activities are tried again.
use native.Mathlib.Nat.{mul-le-mul_left}
use docling_serve_ray.Prelude.{ℕ, suc, ◌*◌, ◌≤◌, ◌≡◌, refl, List, All, arith}
use docling_serve_ray.Orchestration.Models.{ConvertInput, Settings}
use docling_serve_ray.Orchestration.Runtime.{Random, Event, Command}
use docling_serve_ray.Orchestration.Workflow.{run, start}
use docling_serve_ray.Orchestration.Workflow.Commands.{timer_length, run-All}

-- What Python documents of `uniform(a, b)`: its result is neither below `a` nor above `b`.
pub record IsUniform (random : Random) : Type 0 where
  pub between : (n a b : ℕ) → a ≤ b → (a ≤ random n a b) × (random n a b ≤ b)

-- A timer is at least 0.8 and at most 1.2 times the interval; a submission is tried again without
-- end, and a poll at most three times.
abbrev pub IsPaced : ConvertInput → Command → Type 0
IsPaced inp (Command.start_timer length) =
    (800 * inp.safety_poll_interval_seconds ≤ length)
    × (length ≤ 1200 * inp.safety_poll_interval_seconds)
IsPaced inp (Command.submit_conversion input queue timeout retry) = retry.maximum_attempts ≡ 0
IsPaced inp (Command.check_task id timeout retry) = retry.maximum_attempts ≡ 3
IsPaced inp (Command.fetch_outcome id timeout) = Unit
IsPaced inp (Command.collect_outputs input timeout) = Unit

timer_length_bounds :
    (interval : ℕ) (random : Random)
    → IsUniform random
    → (800 * interval ≤ timer_length interval random)
      × (timer_length interval random ≤ 1200 * interval)
timer_length_bounds interval random u =
    let drawn = u.between 0 800 1200 (omega arith) in
    (
      omega (arith, mul-le-mul_left interval drawn.0),
      omega (arith, mul-le-mul_left interval drawn.1),
    )

-- However the history goes on, every timer of a run lasts between 0.8 and 1.2 times the interval of
-- its input, if the random numbers are as Python documents them; its submissions are retried without
-- a limit on the attempts, and each of its polls at most three times.
pub run-IsPaced :
    (settings : Settings) (inp : ConvertInput) (random : Random) (history : List Event)
    → IsUniform random
    → All (IsPaced inp) (run settings inp (start random history)).1.commands
run-IsPaced settings inp random history u =
    run-All IsUniform (IsPaced inp) settings inp
      (λ r v. record { between = λ n. v.between (suc n) })
      (λ r v. timer_length_bounds inp.safety_poll_interval_seconds r v) refl (λ id. refl) (λ id. tt)
      tt random history u
