-- ===== src/Orchestration/Workflow/Submissions.antt =====
-- How often a run submits.
use docling_serve_ray.Prelude.{
  ℕ, zero, suc, ◌+◌, ◌≤◌, ◌<◌, ◌≡◌, Option, List, [], ◌∷◌, ◌++◌, arith, Bool-cases, inl, inr, not,
  ◌||◌, leb,
}
use docling_serve_ray.Text.{Text}
use docling_serve_ray.Orchestration.Models.{ConvertInput, TaskCompleted, Settings}
use docling_serve_ray.Orchestration.Runtime.{
  ActivityResult, Event, Command, submit_conversion, start_timer, Instance, Run, done, failed,
  blocked, out_of_fuel, Workflow, continue, ◌>>=◌, pure, raise, ActivityError, activity_error,
  application_error, execute_activity, wait_condition,
}
use docling_serve_ray.Orchestration.Workflow.{
  max_submissions, next_sleep, pick_submitted, pick_fetched, pick_collected, fetch, collect,
  count_poll, wait_until_terminal, await_task, submit, resubmit, caught, try_except, exhausted,
  is_task_lost, submit_loop, finish,
}
use docling_serve_ray.Orchestration.Workflow.Closed.{closed-finish, closed-wait_until_terminal}
use docling_serve_ray.Orchestration.Workflow.Rules.{
  Keeps, IsPreorder, Keeps-bind, Keeps-pure, Keeps-sleep_until, Keeps-IsClosed,
}

-- 1 for a submission, 0 for any other command.
abbrev pub is_submit : Command → ℕ
is_submit (submit_conversion inp queue timeout retry) = 1
is_submit _ = 0

unfoldable pub count_submits : List Command → ℕ
count_submits [] = 0
count_submits (c ∷ cs) = is_submit c + count_submits cs

count_submits-append :
    (cs ds : List Command) → count_submits (cs ++ ds) ≡ count_submits cs + count_submits ds
unfolding count_submits
count_submits-append [] ds = omega arith
count_submits-append (c ∷ cs) ds = omega (arith, count_submits-append cs ds)

-- `n` submissions were made on the way from one instance to the other.
pub record Submits (n : ℕ) (s t : Instance) : Type 0 where
  pub more : count_submits t.commands ≡ count_submits s.commands + n

pub SameSubmits-order : IsPreorder (Submits 0)
SameSubmits-order = record {
  stays = λ s. record { more = omega arith };
  chain = λ s t u h k. record { more = omega (arith, h.more, k.more) };
}

pub execute_activity-Submits :
    {A : Type 0} (c : Command) (pick : Event → Option (ActivityResult A)) (s : Instance)
    → Submits (is_submit c) s (execute_activity c pick s).1
unfolding execute_activity
execute_activity-Submits c pick s = record {
  more = unfold count_submits in omega (arith, count_submits-append s.commands (c ∷ []));
}

wait_condition-Submits : (id : Text) (n : ℕ) (s : Instance) → Submits 0 s (wait_condition id n s).1
unfolding wait_condition
wait_condition-Submits id n s = record {
  more =
      unfold count_submits in ground (arith, count_submits-append s.commands (start_timer n ∷ []));
}

wait_until_terminal-Submits :
    (settings : Settings) (id : Text) (inp : ConvertInput)
    → Keeps (Submits 0) (wait_until_terminal settings id inp)
wait_until_terminal-Submits settings id inp =
    closed-wait_until_terminal (Keeps-IsClosed SameSubmits-order) settings
      (λ id. record { at = execute_activity-Submits _ _ }) inp
      (λ id.
        Keeps-sleep_until SameSubmits-order
          (λ n. record { at = λ s. unfold next_sleep in record { more = omega arith } })
          (λ id n. record { at = wait_condition-Submits id n }) id inp.safety_poll_interval_seconds)
      (record { at = λ s. unfold count_poll in record { more = omega arith } }) id

await_task-Submits :
    (settings : Settings) (id : Text) (n : ℕ) (inp : ConvertInput)
    → Keeps (Submits 0) (await_task settings id n inp)
unfolding await_task
await_task-Submits settings id n inp =
    Keeps-bind SameSubmits-order _ _ (wait_until_terminal-Submits settings id inp)
      (λ c. Keeps-pure SameSubmits-order _)

-- A wait that returns passes on the task and the number that it was given.
await_task-told :
    (settings : Settings) (id : Text) (n : ℕ) (inp : ConvertInput) (s : Instance)
    (ended : Text × TaskCompleted × ℕ)
    → (await_task settings id n inp s).0 ≡ done ended
    → (ended.0 ≡ id) × (ended.2 ≡ n)
unfolding await_task ◌>>=◌ pure
await_task-told settings id n inp s ended h = ground arith

-- What a part of `run` makes of an instance: with the submissions before it there are no more than
-- the limit, and the number that it returns is `before` and the submissions made.
pub record Counts (before : ℕ) (s : Instance) (p : Run (Text × TaskCompleted × ℕ) × Instance)
    : Type 0 where
  pub made : ℕ
  pub bounded : before + made ≤ max_submissions
  pub counted : Submits made s p.1
  pub told : (ended : Text × TaskCompleted × ℕ) → p.0 ≡ done ended → ended.2 ≡ before + made

-- An end with no further submission.
Counts-end :
    {before : ℕ} {s : Instance} (p : Run (Text × TaskCompleted × ℕ) × Instance)
    → before ≤ max_submissions
    → Submits 0 s p.1
    → ((ended : Text × TaskCompleted × ℕ) → p.0 ≡ done ended → ended.2 ≡ before)
    → Counts before s p
Counts-end p few h told = record {
  made = 0;
  bounded = omega arith;
  counted = h;
  told = λ e q. omega (arith, told e q);
}

Counts-before :
    {before : ℕ} {s t : Instance} {p : Run (Text × TaskCompleted × ℕ) × Instance}
    → Submits 0 s t
    → Counts before t p
    → Counts before s p
Counts-before h c = record {
  made = c.made;
  bounded = c.bounded;
  counted = record { more = omega (arith, h.more, c.counted.more) };
  told = c.told;
}

module _ (n : ℕ) (again : Workflow (Text × TaskCompleted × ℕ)) (few : n ≤ max_submissions)
    (counts : n < max_submissions → (u : Instance) → Counts n u (again u)) where
  Counts-resubmit : (e : ActivityError) (u : Instance) → Counts n u (resubmit n again e u)
  unfolding resubmit raise
  Counts-resubmit e u = elim (Bool-cases (not (is_task_lost e) || leb max_submissions n)) [
    | inl gives_up ↦
        rw (resubmit, gives_up)
          (Counts-end (failed (activity_error e), u) few (SameSubmits-order.stays u)
            (λ ended q. cc))
    | inr goes_on ↦ rw (resubmit, goes_on) (counts (ground arith) u)
  ]

  Counts-caught :
      (t u : Instance) (r : Run (Text × TaskCompleted × ℕ))
      → Submits 0 t u
      → ((ended : Text × TaskCompleted × ℕ) → r ≡ done ended → ended.2 ≡ n)
      → Counts n t (caught (r, u) (resubmit n again))
  Counts-caught t u (failed (activity_error e)) h told = Counts-before h (Counts-resubmit e u)
  Counts-caught t u (failed (application_error k final)) h told = Counts-end _ few h told
  Counts-caught t u (done a) h told = Counts-end _ few h told
  Counts-caught t u blocked h told = Counts-end _ few h told
  Counts-caught t u out_of_fuel h told = Counts-end _ few h told

-- One submission, and whatever follows from the next one.
Counts-suc :
    {before : ℕ} {s t : Instance} {p : Run (Text × TaskCompleted × ℕ) × Instance}
    → Submits 1 s t
    → Counts (before + 1) t p
    → Counts before s p
Counts-suc one c = record {
  made = suc c.made;
  bounded = omega (arith, c.bounded);
  counted = record { more = omega (arith, one.more, c.counted.more) };
  told = λ e h. omega (arith, c.told e h);
}

-- After a submission that returned its task: the wait, and what its exception clause does.
module _ (settings : Settings) (inp : ConvertInput) (n : ℕ)
    (again : Workflow (Text × TaskCompleted × ℕ)) (few : n ≤ max_submissions)
    (counts : n < max_submissions → (u : Instance) → Counts n u (again u)) where
  Counts-await_task :
      (id : Text) (t : Instance)
      → Counts n t (try_except (await_task settings id n inp) (resubmit n again) t)
  unfolding try_except
  Counts-await_task id t =
      Counts-caught n again few counts t (await_task settings id n inp t).1
        (await_task settings id n inp t).0 ((await_task-Submits settings id n inp).at t)
        (λ ended q. (await_task-told settings id n inp t ended q).1)

  Counts-continue :
      (r : Run Text) (t : Instance)
      → Counts n t
          (continue r (λ id. try_except (await_task settings id n inp) (resubmit n again)) t)
  Counts-continue (done id) t = Counts-await_task id t
  Counts-continue (failed e) t = Counts-end _ few (SameSubmits-order.stays t) (λ ended q. cc)
  Counts-continue blocked t = Counts-end _ few (SameSubmits-order.stays t) (λ ended q. cc)
  Counts-continue out_of_fuel t = Counts-end _ few (SameSubmits-order.stays t) (λ ended q. cc)

submit-Submits :
    (settings : Settings) (inp : ConvertInput) (s : Instance)
    → Submits 1 s (submit settings inp s).1
unfolding submit
submit-Submits settings inp s = execute_activity-Submits _ pick_submitted s

pub submit_loop-Counts :
    (settings : Settings) (inp : ConvertInput) (fuel before : ℕ) (s : Instance)
    → before < max_submissions
    → Counts before s (submit_loop settings fuel before inp s)
unfolding submit_loop ◌>>=◌ exhausted
submit_loop-Counts settings inp zero before s few =
    Counts-end _ (omega (arith, few)) (SameSubmits-order.stays s) (λ ended q. cc)
submit_loop-Counts settings inp (suc fuel) before s few =
    Counts-suc (submit-Submits settings inp s) (
      Counts-continue settings inp (before + 1) (submit_loop settings fuel (before + 1) inp)
        (omega (arith, few)) (λ fewer u. submit_loop-Counts settings inp fuel (before + 1) u fewer)
        (submit settings inp s).0 (submit settings inp s).1)

pub finish-Submits :
    (settings : Settings) (inp : ConvertInput) (id : Text) (c : TaskCompleted) (n : ℕ)
    → Keeps (Submits 0) (finish settings inp (id, c, n))
finish-Submits settings inp =
    closed-finish (Keeps-IsClosed SameSubmits-order) settings inp
      (λ id. unfold fetch in record { at = execute_activity-Submits _ pick_fetched })
      (unfold collect in record { at = execute_activity-Submits _ pick_collected })
