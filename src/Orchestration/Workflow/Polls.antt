-- ===== src/Orchestration/Workflow/Polls.antt =====
-- How often an action polls: one rule for each way to build an action.
use docling_serve_ray.Prelude.{
  ℕ, ◌+◌, ◌≤◌, ◌≡◌, refl, Bool, true, false, Option, List, [], ◌∷◌, ◌++◌, arith, Bool-cases, inl,
  inr, if◌then◌else◌,
}
use docling_serve_ray.Text.{Text}
use docling_serve_ray.Dict.{has_key}
use docling_serve_ray.Orchestration.Runtime.{
  ActivityError, ActivityResult, Event, Command, Instance, WorkflowFailure, activity_error,
  application_error, Run, done, failed, blocked, out_of_fuel, Workflow, continue, ◌>>=◌, pure,
  raise, execute_activity, wait_condition,
}
use docling_serve_ray.Orchestration.Workflow.{caught, try_except, next_sleep}
use docling_serve_ray.Orchestration.Workflow.Rules.{Keeps, IsPreorder}

-- 1 for a poll, 0 for any other command.
abbrev pub is_check : Command → ℕ
is_check (Command.check_task id timeout retry) = 1
is_check _ = 0

unfoldable pub count_checks : List Command → ℕ
count_checks [] = 0
count_checks (c ∷ cs) = is_check c + count_checks cs

pub count_checks-append :
    (cs ds : List Command) → count_checks (cs ++ ds) ≡ count_checks cs + count_checks ds
unfolding count_checks
count_checks-append [] ds = omega arith
count_checks-append (c ∷ cs) ds = omega (arith, count_checks-append cs ds)

-- At most `k` polls were made on the way, and each was counted.
pub record Polls (k : ℕ) (s t : Instance) : Type 0 where
  pub counted : t.safety_polls + count_checks s.commands ≡ s.safety_polls + count_checks t.commands
  pub bounded : count_checks t.commands ≤ count_checks s.commands + k
  pub more : count_checks s.commands ≤ count_checks t.commands

pub Polls-none : (k : ℕ) (s : Instance) → Polls k s s
Polls-none k s = record { counted = omega arith; bounded = omega arith; more = omega arith }

pub Polls-chain : (j k : ℕ) (s t u : Instance) → Polls j s t → Polls k t u → Polls (j + k) s u
Polls-chain j k s t u h i = record {
  counted = omega (arith, h.counted, i.counted);
  bounded = omega (arith, h.bounded, i.bounded);
  more = omega (arith, h.more, i.more);
}

pub Polls-more : (j k : ℕ) (s t : Instance) → j ≤ k → Polls j s t → Polls k s t
Polls-more j k s t l h = record {
  counted = h.counted;
  bounded = omega (arith, h.bounded);
  more = h.more;
}

pub Polls-order : IsPreorder (Polls 0)
Polls-order = record { stays = Polls-none 0; chain = Polls-chain 0 0 }

-- An action that makes at most `k` polls.
abbrev pub Spends : {A : Type 0} → ℕ → Workflow A → Type 0
Spends k m = Keeps (Polls k) m

pub Polls-continue :
    {A B : Type 0} (k : ℕ) (r : Run A) (f : A → Workflow B) (s : Instance)
    → ((a : A) → Spends k (f a))
    → Polls k s (continue r f s).1
Polls-continue k (done a) f s h = (h a).at s
Polls-continue k (failed e) f s h = Polls-none k s
Polls-continue k blocked f s h = Polls-none k s
Polls-continue k out_of_fuel f s h = Polls-none k s

pub Spends-bind :
    {A B : Type 0} (j k : ℕ) (m : Workflow A) (f : A → Workflow B)
    → Spends j m
    → ((a : A) → Spends k (f a))
    → Spends (j + k) (m >>= f)
unfolding ◌>>=◌
Spends-bind j k m f km kf = record {
  at = λ s. Polls-chain j k s (m s).1 _ (km.at s) (Polls-continue k (m s).0 f (m s).1 kf);
}

Polls-caught :
    {A : Type 0} (k : ℕ) (r : Run A) (s : Instance) (handler : ActivityError → Workflow A)
    → ((e : ActivityError) → Spends k (handler e))
    → Polls k s (caught (r, s) handler).1
Polls-caught k (failed (activity_error e)) s handler h = (h e).at s
Polls-caught k (failed (application_error t final)) s handler h = Polls-none k s
Polls-caught k (done a) s handler h = Polls-none k s
Polls-caught k blocked s handler h = Polls-none k s
Polls-caught k out_of_fuel s handler h = Polls-none k s

pub Spends-try_except :
    {A : Type 0} (j k : ℕ) (body : Workflow A) (handler : ActivityError → Workflow A)
    → Spends j body
    → ((e : ActivityError) → Spends k (handler e))
    → Spends (j + k) (try_except body handler)
unfolding try_except
Spends-try_except j k body handler kb kh = record {
  at = λ s.
      Polls-chain j k s (body s).1 _ (kb.at s) (Polls-caught k (body s).0 (body s).1 handler kh);
}

pub Spends-raise : {A : Type 0} (k : ℕ) (e : WorkflowFailure) → Spends k (raise {A = A} e)
unfolding raise
Spends-raise k e = record { at = Polls-none k }

pub Spends-pure : {A : Type 0} (k : ℕ) (a : A) → Spends k (pure a)
unfolding pure
Spends-pure k a = record { at = Polls-none k }

pub Spends-if :
    {A : Type 0} (k : ℕ) (b : Bool) (m n : Workflow A)
    → (b ≡ true → Spends k m)
    → (b ≡ false → Spends k n)
    → Spends k (if b then m else n)
Spends-if k true m n h i = h refl
Spends-if k false m n h i = i refl

-- Every activity but the poll.
pub Spends-execute_activity :
    {A : Type 0} (c : Command) (pick : Event → Option (ActivityResult A))
    → is_check c ≡ 0
    → Spends 0 (execute_activity c pick)
unfolding execute_activity
Spends-execute_activity c pick h = record {
  at = λ s.
      let n = count_checks-append s.commands (c ∷ []) in
      unfold count_checks in
      record {
        counted = omega (arith, n, h);
        bounded = omega (arith, n, h);
        more = omega (arith, n, h);
      };
}

pub Spends-next_sleep : (n : ℕ) → Spends 0 (next_sleep n)
unfolding next_sleep
Spends-next_sleep n = record {
  at = λ s. record { counted = omega arith; bounded = omega arith; more = omega arith };
}

pub Spends-wait_condition : (id : Text) (n : ℕ) → Spends 0 (wait_condition id n)
Spends-wait_condition id timeout = record { at = waits }
  where
    waits : (s : Instance) → Polls 0 s (wait_condition id timeout s).1
    waits s = elim (Bool-cases (has_key id s.completed)) [
      | inl there ↦ unfold wait_condition in rw (wait_condition, there) (Polls-none 0 s)
      | inr absent ↦
          let n = count_checks-append s.commands (Command.start_timer timeout ∷ []) in
          unfold wait_condition in
          rw (wait_condition, absent)
            (unfold count_checks in
              record {
                counted = omega (arith, n);
                bounded = omega (arith, n);
                more = omega (arith, n);
              })
    ]
