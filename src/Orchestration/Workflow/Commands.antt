-- ===== src/Orchestration/Workflow/Commands.antt =====
-- What holds of every command that a run issues, and of its random numbers.
use docling_serve_ray.Prelude.{
  ℕ, suc, ◌+◌, ◌-◌, ◌*◌, inl, inr, Option, List, [], ◌∷◌, ◌++◌, All, Bool-cases,
}
use docling_serve_ray.Text.{Text}
use docling_serve_ray.Dict.{has_key}
use docling_serve_ray.Orchestration.Models.{ConvertInput, Settings, submit_task_queue}
use docling_serve_ray.Orchestration.Runtime.{
  Random, ActivityResult, Event, Command, start_timer, submit_conversion, check_task, fetch_outcome,
  collect_outputs, Instance, ◌>>=◌, execute_activity, wait_condition,
}
use docling_serve_ray.Orchestration.Workflow.{
  pick_submitted, pick_checked, pick_fetched, pick_collected, safety_poll_jitter, submit_retry,
  check_retry, next_sleep, sleep_until, submit_input, count_poll, submit, fetch, collect, run,
  start,
}
use docling_serve_ray.Orchestration.Workflow.Closed.{closed-run}
use docling_serve_ray.Orchestration.Workflow.Rules.{Keeps, IsPreorder, Keeps-IsClosed}

All-append : {A : Type 0} (P : A → Type 0) (xs ys : List A) → All P xs → All P ys → All P (xs ++ ys)
All-append P [] ys h k = k
All-append P (x ∷ xs) ys (h, hs) k = (h, All-append P xs ys hs k)

-- The length of a timer, by the random numbers at hand.
abbrev pub timer_length : ℕ → Random → ℕ
timer_length interval_seconds random =
    interval_seconds * random 0 (1000 - safety_poll_jitter) (1000 + safety_poll_jitter)

module _ (U : Random → Type 0) (P : Command → Type 0) where
  -- If the random numbers are as they should be, and so is every command so far, they stay so.
  record Stays (s t : Instance) : Type 0 where
    kept : U s.random → All P s.commands → U t.random × All P t.commands

  Stays-order : IsPreorder Stays
  Stays-order = record {
    stays = λ s. record { kept = λ u h. (u, h) };
    chain = λ s t u h k. record { kept = λ x y. let (x', y') = h.kept x y in k.kept x' y' };
  }

  execute_activity-Stays :
      {A : Type 0} (c : Command) (pick : Event → Option (ActivityResult A))
      → P c
      → Keeps Stays (execute_activity c pick)
  unfolding execute_activity
  execute_activity-Stays c pick h = record {
    at = λ s. record { kept = λ u all. (u, All-append P s.commands (c ∷ []) all (h, tt)) };
  }

  wait_condition-Stays :
      (id : Text) (length : ℕ) → P (start_timer length) → Keeps Stays (wait_condition id length)
  wait_condition-Stays id length h = record { at = waits }
    where
      waits : (s : Instance) → Stays s (wait_condition id length s).1
      waits s = elim (Bool-cases (has_key id s.completed)) [
        | inl there ↦ unfold wait_condition in rw (wait_condition, there) (Stays-order.stays s)
        | inr absent ↦
            unfold wait_condition in
            rw (wait_condition, absent)
              (record {
                kept = λ u all. (u, All-append P s.commands (start_timer length ∷ []) all (h, tt));
              })
      ]

  -- The timer's length is drawn first.
  sleep_until-Stays :
      (id : Text) (interval : ℕ)
      → ((r : Random) → U r → U (λ n. r (suc n)))
      → ((r : Random) → U r → P (start_timer (timer_length interval r)))
      → Keeps Stays (sleep_until id interval)
  unfolding sleep_until next_sleep ◌>>=◌
  sleep_until-Stays id interval shifts timed = record {
    at = λ s. record {
      kept = λ u all.
          let slept = wait_condition-Stays id (timer_length interval s.random) (timed s.random u) in
          (slept.at (record s { random = λ n. s.random (suc n) })).kept (shifts s.random u) all;
    };
  }

  module _ (settings : Settings) (inp : ConvertInput) where
    -- Whatever holds of each command that a run can issue holds of all that it issues.
    pub run-All :
        ((r : Random) → U r → U (λ n. r (suc n)))
        → ((r : Random) → U r → P (start_timer (timer_length inp.safety_poll_interval_seconds r)))
        → P (
            submit_conversion
              (submit_input settings inp)
              submit_task_queue
              settings.submit_conversion_start_to_close_seconds
              submit_retry)
        → ((id : Text) → P (check_task id settings.check_task_start_to_close_seconds check_retry))
        → ((id : Text) → P (fetch_outcome id settings.fetch_outcome_start_to_close_seconds))
        → P (
            collect_outputs
              (record { bucket = inp.bucket; key = inp.key })
              settings.collect_outputs_start_to_close_seconds)
        → (random : Random) (history : List Event) → U random
        → All P (run settings inp (start random history)).1.commands
    unfolding submit fetch collect start
    run-All shifts timed submits checks fetches collects random history u =
        let stays =
          closed-run (Keeps-IsClosed Stays-order) settings inp
            (execute_activity-Stays _ pick_submitted submits)
            (λ id. execute_activity-Stays _ pick_checked (checks id))
            (λ id. sleep_until-Stays id inp.safety_poll_interval_seconds shifts timed)
            (unfold count_poll in record { at = λ s. record { kept = λ u h. (u, h) } })
            (λ id. execute_activity-Stays _ pick_fetched (fetches id))
            (execute_activity-Stays _ pick_collected collects) in
        ((stays.at (start random history)).kept u tt).1
