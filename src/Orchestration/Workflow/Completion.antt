-- ===== src/Orchestration/Workflow/Completion.antt =====
-- Where the completion that ends a wait comes from.
use docling_serve_ray.Prelude.{
  ℕ, zero, suc, ◌+◌, ◌≡◌, ap, ◌∙◌, ◌⊎◌, inl, inr, Bool, true, false, Option, none, some, arith,
  Bool-cases, if◌then◌else◌, leb,
}
use docling_serve_ray.Text.{Text}
use docling_serve_ray.Dict.{lookup}
use docling_serve_ray.Orchestration.Models.{ConvertInput, TaskCompleted, Settings}
use docling_serve_ray.Orchestration.Runtime.{
  returned, signal, checked, Instance, done, Workflow, ◌>>=◌, pure, raise, ◌>>◌,
}
use docling_serve_ray.Orchestration.Workflow.{
  check, after_poll, wait_loop, wait_until_terminal, completed_of, sleep_until, count_poll,
  exhausted,
}
use docling_serve_ray.Orchestration.Workflow.Signals.{
  Occurs, Follows, sleep_until-Follows, count_poll-Follows, check-Follows,
}
use docling_serve_ray.Orchestration.Workflow.Recorded.{check-recorded}
use docling_serve_ray.Orchestration.Workflow.Finish.{>>=-eq-done}

-- Where the completion of a task may come from: it is recorded already, or a signal of the history
-- reports it under the task's own id, or a poll's result in the history does.
abbrev pub Reported : Text → TaskCompleted → Instance → Type 0
Reported id c s =
    (lookup id s.completed ≡ some c)
    ⊎ ((c.task_id ≡ id) × Occurs (signal c) s.history)
    ⊎ Occurs (checked (returned (some c))) s.history

pub Reported-Follows :
    {s t : Instance} (id : Text) (c : TaskCompleted)
    → Follows s t
    → Reported id c t
    → Reported id c s
Reported-Follows id c f (inl known) = elim (f.delivers.origin id c known) [
  | inl before ↦ inl before
  | inr signalled ↦ inr (inl signalled)
]
Reported-Follows id c f (inr (inl (same, there))) = inr (inl (same, f.rest _ there))
Reported-Follows id c f (inr (inr there)) = inr (inr (f.rest _ there))

completed_of-done :
    (id : Text) (s : Instance) (c : TaskCompleted)
    → (completed_of id s).0 ≡ done c
    → lookup id s.completed ≡ some c
unfolding completed_of
completed_of-done id s c h = ground arith

module _ (settings : Settings) (id : Text) (inp : ConvertInput) where
  -- What a round's last step returned: the poll's answer, or what the next rounds return.
  after_poll-done :
      (polls : ℕ) (again : Workflow TaskCompleted) (polled : Option TaskCompleted) (s : Instance)
      (c : TaskCompleted)
      → (after_poll inp polls again polled s).0 ≡ done c
      → (polled ≡ some c) ⊎ ((again s).0 ≡ done c)
  unfolding after_poll pure raise
  after_poll-done polls again (some d) s c h = inl (ground arith)
  after_poll-done polls again none s c h = elim (Bool-cases (leb inp.max_safety_polls polls)) [
    | inl spent ↦ absurd (ground arith)
    | inr more ↦ inr (ground arith)
  ]

  module _ (polls : ℕ) (again : Workflow TaskCompleted)
      (next : (s : Instance) (c : TaskCompleted) → (again s).0 ≡ done c → Reported id c s) where
    Reported-round :
        (arrived : Bool) (s : Instance) (c : TaskCompleted)
        → ((if arrived
              then completed_of id
              else do count_poll; polled ← check settings id; after_poll inp polls again polled)
            s).0
          ≡ done c
        → Reported id c s
    Reported-round true s c h = inl (completed_of-done id s c h)
    Reported-round false s c h =
        let (_, counted, after, _) = >>=-eq-done count_poll _ s h in
        let s' = (count_poll s).1 in
        let (polled, asked, last, _) = >>=-eq-done (check settings id) _ s' after in
        let back = count_poll-Follows.at s in
        elim (after_poll-done polls again polled (check settings id s').1 c last) [
          | inl here ↦
              Reported-Follows id c back
                (inr (inr (check-recorded settings id s' c (asked ∙ ap done here))))
          | inr later ↦
              Reported-Follows id c back
                (Reported-Follows id c ((check-Follows settings id).at s') (next _ c later))
        ]

  Reported-wait_loop :
      (fuel polls : ℕ) (s : Instance) (c : TaskCompleted)
      → (wait_loop settings fuel polls id inp s).0 ≡ done c
      → Reported id c s
  unfolding wait_loop exhausted
  Reported-wait_loop zero polls s c h = cc
  Reported-wait_loop (suc fuel) polls s c h =
      let interval = inp.safety_poll_interval_seconds in
      let (arrived, waited, after, _) = >>=-eq-done (sleep_until id interval) _ s h in
      Reported-Follows id c ((sleep_until-Follows id interval).at s) (
        Reported-round (polls + 1) (wait_loop settings fuel (polls + 1) id inp)
          (Reported-wait_loop fuel (polls + 1)) arrived (sleep_until id interval s).1 c after)

  -- A wait that ends reports a completion of its own task or a poll's result, never another task's
  -- late callback.
  pub wait_until_terminal-Reported :
      (s : Instance) (c : TaskCompleted)
      → (wait_until_terminal settings id inp s).0 ≡ done c
      → Reported id c s
  unfolding wait_until_terminal
  wait_until_terminal-Reported s c h = Reported-wait_loop (suc inp.max_safety_polls) 0 s c h
