-- ===== src/Orchestration/Workflow/Progress/Ended.antt =====
-- How a wait ends: on a callback, or on a poll, after rounds that decide nothing.
use docling_serve_ray.Prelude.{
  ℕ, zero, suc, ◌+◌, ◌-◌, ◌*◌, ◌<◌, max, ◌≡◌, refl, false, Option, none, some, List, [], ◌∷◌, ◌++◌,
  All, arith, length, leb,
}
use docling_serve_ray.Text.{Text}
use docling_serve_ray.Dict.{Dict, has_key}
use docling_serve_ray.Orchestration.Models.{TaskCompleted, ConvertInput, Settings}
use docling_serve_ray.Orchestration.Runtime.{
  ActivityResult, returned, raised, Event, signal, timer_fired, checked, resume, sleep, start_timer,
  Random, check_task, Command, Instance, Run, done, ◌>>=◌, pure, raise, execute_activity,
  wait_condition,
}
use docling_serve_ray.Orchestration.Workflow.{
  next_sleep, sleep_until, check_retry, safety_poll_jitter, try_except, completed_of, count_poll,
  check, after_poll, wait_loop,
}
use docling_serve_ray.Orchestration.Workflow.Progress.{
  signals, IsQuiet, rounds, IsOther, sleep-Arrives,
}

-- An instance: the completed tasks, the polls made and the history, and the rest, which are the
-- commands and the random numbers.
abbrev pub at : Dict TaskCompleted → ℕ → List Event → List Command × Random → Instance
at d n h x = record { completed = d; safety_polls = n; history = h; commands = x.0; random = x.1 }

module _ (settings : Settings) (inp : ConvertInput) (id : Text) where
  abbrev poll_command : Command
  poll_command = check_task id settings.check_task_start_to_close_seconds check_retry

  -- What a timer and a poll make of the commands and the random numbers.
  abbrev after_round : List Command × Random → List Command × Random
  after_round (cs, random) = (
    (cs
          ++ start_timer (
              inp.safety_poll_interval_seconds
              * random 0 (1000 - safety_poll_jitter) (1000 + safety_poll_jitter))
            ∷ [])
        ++ poll_command ∷ [],
    λ n. random (suc n),
  )

  -- A round that decides nothing leads to the next one, while the budget lasts.
  wait_loop-quiet :
      (fuel polls n : ℕ) (d : Dict TaskCompleted) (q : ActivityResult (Option TaskCompleted))
      (h : List Event) (cs : List Command × Random)
      → has_key id d ≡ false
      → IsQuiet q
      → polls + 1 < inp.max_safety_polls
      → wait_loop settings (suc fuel) polls id inp (at d n (timer_fired ∷ checked q ∷ h) cs)
        ≡ wait_loop settings fuel (polls + 1) id inp (at d (n + 1) h (after_round cs))
  unfolding wait_loop ◌>>=◌ sleep_until next_sleep wait_condition sleep count_poll check try_except
      execute_activity resume after_poll pure raise
  wait_loop-quiet fuel polls n d (returned none) h cs absent quiet left =
      let goes_on : leb inp.max_safety_polls (polls + 1) ≡ false = ground (arith, left) in
      rw (absent, goes_on)
  wait_loop-quiet fuel polls n d (returned (some c)) h cs absent quiet left = absurd quiet
  wait_loop-quiet fuel polls n d (raised e) h cs absent quiet left =
      let goes_on : leb inp.max_safety_polls (polls + 1) ≡ false = ground (arith, left) in
      rw (absent, quiet, goes_on)

  -- A wait that ended with the completion `c`, with `n` polls so far and the history `h` still to come.
  pub record Ended (c : TaskCompleted) (n : ℕ) (h : List Event) (p : Run TaskCompleted × Instance)
      : Type 0 where
    pub answer : p.0 ≡ done c
    pub counted : p.1.safety_polls ≡ n
    pub left : p.1.history ≡ h

  -- Rounds that decide nothing lead to the end of the wait that follows them.
  pub wait_loop-rounds :
      (qs : List (ActivityResult (Option TaskCompleted))) (fuel polls n : ℕ)
      (d : Dict TaskCompleted) (h : List Event) (c : TaskCompleted) (total : ℕ) (h' : List Event)
      → has_key id d ≡ false
      → All IsQuiet qs
      → length qs < fuel
      → polls + length qs < max (polls + 1) inp.max_safety_polls
      → ((f p k : ℕ) (cs : List Command × Random)
          → k ≡ n + length qs
          → Ended c total h' (wait_loop settings (suc f) p id inp (at d k h cs)))
      → (cs : List Command × Random)
      → Ended c total h' (wait_loop settings fuel polls id inp (at d n (rounds qs h) cs))
  wait_loop-rounds qs zero polls n d h c total h' absent quiet enough left ends cs =
      absurd (omega (arith, enough))
  wait_loop-rounds [] (suc fuel) polls n d h c total h' absent quiet enough left ends cs =
      ends fuel polls n cs (omega arith)
  wait_loop-rounds (q ∷ qs) (suc fuel) polls n d h c total h' absent (quiet, quiets) enough left
        ends cs =
      rw (wait_loop-quiet fuel polls n d q (rounds qs h) cs absent quiet (omega (arith, left))) (
        wait_loop-rounds qs fuel (polls + 1) (n + 1) d h c total h' absent quiets
          (omega (arith, enough)) (omega (arith, left))
          (λ f p k cs e. ends f p k cs (omega (arith, e))) _)

  -- A callback for the task ends the wait, whatever callbacks for other tasks come before it.
  pub wait_loop-called_back :
      (fuel polls n : ℕ) (d : Dict TaskCompleted) (others : List TaskCompleted) (c : TaskCompleted)
      (h : List Event) (cs : List Command × Random)
      → has_key id d ≡ false
      → c.task_id ≡ id
      → All (IsOther id) others
      → Ended c n h
          (wait_loop settings (suc fuel) polls id inp (at d n (signals others (signal c ∷ h)) cs))
  unfolding wait_loop ◌>>=◌ sleep_until next_sleep wait_condition completed_of
  wait_loop-called_back fuel polls n d others c h cs absent same other =
      let a = sleep-Arrives id c others h d same absent other in
      rw (absent, a.woke, completed_of, a.known)
        (record { answer = refl; counted = refl; left = a.left })

  -- A poll that finds the task finished ends the wait.
  pub wait_loop-polled :
      (fuel polls n : ℕ) (d : Dict TaskCompleted) (c : TaskCompleted) (h : List Event)
      (cs : List Command × Random)
      → has_key id d ≡ false
      → Ended c (n + 1) h (
          wait_loop settings
            (suc fuel)
            polls
            id
            inp
            (at d n (timer_fired ∷ checked (returned (some c)) ∷ h) cs))
  unfolding wait_loop ◌>>=◌ sleep_until next_sleep wait_condition sleep count_poll check try_except
      execute_activity resume after_poll pure
  wait_loop-polled fuel polls n d c h cs absent =
      rw absent (record { answer = refl; counted = refl; left = refl })
