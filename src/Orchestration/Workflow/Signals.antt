-- ===== src/Orchestration/Workflow/Signals.antt =====
-- What the history hands to a run: every action consumes a front part of it, and the completed tasks
-- that it records are the signals on the way, the first for each task.
use docling_serve_ray.Prelude.{
  ℕ, ◌≡◌, refl, ap, sym, ◌∙◌, ◌⊎◌, inl, inr, Option, none, some, List, [], ◌∷◌, arith, Bool-cases,
}
use docling_serve_ray.Text.{Text}
use docling_serve_ray.Text.Laws.{str_eq_iff}
use docling_serve_ray.Dict.{Dict, lookup, has_key, get_or}
use docling_serve_ray.Dict.Laws.{lookup-set_default}
use docling_serve_ray.Orchestration.Models.{ConvertInput, TaskCompleted, Settings}
use docling_serve_ray.Orchestration.Runtime.{
  ActivityResult, Event, signal, timer_fired, Command, Instance, task_completed, take_result,
  resume, sleep, execute_activity, wait_condition,
}
use docling_serve_ray.Orchestration.Workflow.{
  next_sleep, sleep_until, pick_checked, count_poll, check, wait_until_terminal,
}
use docling_serve_ray.Orchestration.Workflow.Closed.{closed-check, closed-wait_until_terminal}
use docling_serve_ray.Orchestration.Workflow.Rules.{
  Keeps, IsPreorder, Keeps-sleep_until, Keeps-IsClosed,
}

abbrev pub Occurs : Event → List Event → Type 0
Occurs e [] = ⊥
Occurs e (x ∷ xs) = (x ≡ e) ⊎ Occurs e xs

-- From completed tasks `before` to `after` by a part of the history.
pub record Delivers (history : List Event) (before after : Dict TaskCompleted) : Type 0 where
  pub first_wins :
      (k : Text) (c : TaskCompleted) → lookup k before ≡ some c → lookup k after ≡ some c
  pub origin :
      (k : Text) (c : TaskCompleted)
      → lookup k after ≡ some c
      → (lookup k before ≡ some c) ⊎ ((c.task_id ≡ k) × Occurs (signal c) history)

-- What follows an action: the rest of the history, and completed tasks that come from it.
pub record Follows (s t : Instance) : Type 0 where
  pub rest : (e : Event) → Occurs e t.history → Occurs e s.history
  pub delivers : Delivers s.history s.completed t.completed

Delivers-none : (h : List Event) (d : Dict TaskCompleted) → Delivers h d d
Delivers-none h d = record { first_wins = λ k c e. e; origin = λ k c e. inl e }

lookup-task_completed_kept :
    (k : Text) (c e : TaskCompleted) (d : Dict TaskCompleted)
    → lookup k d ≡ some e
    → lookup k (task_completed c d) ≡ some e
unfolding task_completed get_or
lookup-task_completed_kept k c e d p =
    ground (arith, lookup-set_default c.task_id k c d, str_eq_iff c.task_id k)

lookup-task_completed_origin :
    (k : Text) (c e : TaskCompleted) (d : Dict TaskCompleted)
    → lookup k (task_completed c d) ≡ some e
    → (lookup k d ≡ some e) ⊎ ((c.task_id ≡ k) × (c ≡ e))
unfolding task_completed get_or
lookup-task_completed_origin k c e d p =
    ground (arith, lookup-set_default c.task_id k c d, str_eq_iff c.task_id k)

Delivers-signal :
    (c : TaskCompleted) (h : List Event) (d t : Dict TaskCompleted)
    → Delivers h (task_completed c d) t
    → Delivers (signal c ∷ h) d t
Delivers-signal c h d t x = record {
  first_wins = λ k e p. x.first_wins k e (lookup-task_completed_kept k c e d p);
  origin = λ k e p. elim (x.origin k e p) [
    | inr (same, later) ↦ inr (same, inr later)
    | inl earlier ↦ elim (lookup-task_completed_origin k c e d earlier) [
      | inl before ↦ inl before
      | inr (same, is_c) ↦ inr (ap TaskCompleted.task_id (sym is_c) ∙ same, inl (ap signal is_c))
    ]
  ];
}

-- A wait that leaves `t` of the history `h`.
record Consumes (h t : List Event) (d d' : Dict TaskCompleted) : Type 0 where
  rest : (e : Event) → Occurs e t → Occurs e h
  delivers : Delivers h d d'

Consumes-nothing : (h : List Event) (d : Dict TaskCompleted) → Consumes h h d d
Consumes-nothing h d = record { rest = λ e o. o; delivers = Delivers-none h d }

Consumes-event : (x : Event) (h : List Event) (d : Dict TaskCompleted) → Consumes (x ∷ h) h d d
Consumes-event x h d = record { rest = λ e o. inr o; delivers = Delivers-none (x ∷ h) d }

Consumes-signal :
    (c : TaskCompleted) (h t : List Event) (d d' : Dict TaskCompleted)
    → Consumes h t (task_completed c d) d'
    → Consumes (signal c ∷ h) t d d'
Consumes-signal c h t d d' x = record {
  rest = λ e o. inr (x.rest e o);
  delivers = Delivers-signal c h d d' x.delivers;
}

take_result-Consumes :
    {A : Type 0} (o : Option (ActivityResult A)) (x : Event) (h : List Event)
    (d : Dict TaskCompleted)
    → Consumes (x ∷ h) (take_result o x h d).1 d (take_result o x h d).2
take_result-Consumes none x h d = Consumes-nothing (x ∷ h) d
take_result-Consumes (some r) x h d = Consumes-event x h d

resume-Consumes :
    {A : Type 0} (pick : Event → Option (ActivityResult A)) (h : List Event)
    (d : Dict TaskCompleted)
    → Consumes h (resume pick h d).1 d (resume pick h d).2
unfolding resume
resume-Consumes pick [] d = Consumes-nothing [] d
resume-Consumes pick (signal c ∷ h) d =
    Consumes-signal c h _ d _ (resume-Consumes pick h (task_completed c d))
resume-Consumes pick (x ∷ h) d = take_result-Consumes (pick x) x h d

sleep-Consumes :
    (id : Text) (h : List Event) (d : Dict TaskCompleted)
    → Consumes h (sleep id h d).1 d (sleep id h d).2
unfolding sleep
sleep-Consumes id [] d = Consumes-nothing [] d
sleep-Consumes id (signal c ∷ h) d = elim (Bool-cases (has_key id (task_completed c d))) [
  | inl arrived ↦ rw arrived (Consumes-signal c h h d _ (Consumes-nothing h (task_completed c d)))
  | inr waits ↦ rw waits (Consumes-signal c h _ d _ (sleep-Consumes id h (task_completed c d)))
]
sleep-Consumes id (timer_fired ∷ h) d = Consumes-event timer_fired h d
sleep-Consumes id (x ∷ h) d = Consumes-nothing (x ∷ h) d

-- The result of a wait stands in the history.
pub resume-picked :
    {A : Type 0} (pick : Event → Option (ActivityResult A)) (h : List Event)
    (d : Dict TaskCompleted) (r : ActivityResult A)
    → (resume pick h d).0 ≡ some r
    → (e : Event) × (pick e ≡ some r) × Occurs e h
unfolding resume
resume-picked pick [] d r p = cc
resume-picked pick (signal c ∷ h) d r p =
    let (e, picked, there) = resume-picked pick h (task_completed c d) r p in (e, picked, inr there)
resume-picked {A} pick (x ∷ h) d r p = (x, taken (pick x) p, inl refl)
  where
    taken : (o : Option (ActivityResult A)) → (take_result o x h d).0 ≡ some r → o ≡ some r
    taken none q = cc
    taken (some s) q = q

pub Follows-order : IsPreorder Follows
Follows-order = record {
  stays = λ s. record { rest = λ e o. o; delivers = Delivers-none s.history s.completed };
  chain = λ s t u f g. record {
    rest = λ e o. f.rest e (g.rest e o);
    delivers = record {
      first_wins = λ k c p. g.delivers.first_wins k c (f.delivers.first_wins k c p);
      origin = λ k c p. elim (g.delivers.origin k c p) [
        | inl before ↦ f.delivers.origin k c before
        | inr (same, there) ↦ inr (same, f.rest (signal c) there)
      ];
    };
  };
}

pub execute_activity-Follows :
    {A : Type 0} (c : Command) (pick : Event → Option (ActivityResult A))
    → Keeps Follows (execute_activity c pick)
unfolding execute_activity
execute_activity-Follows c pick = record {
  at = λ s.
      let consumed = resume-Consumes pick s.history s.completed in
      record { rest = consumed.rest; delivers = consumed.delivers };
}

wait_condition-Follows : (id : Text) (n : ℕ) → Keeps Follows (wait_condition id n)
wait_condition-Follows id n = record { at = follows }
  where
    follows : (s : Instance) → Follows s (wait_condition id n s).1
    follows s = elim (Bool-cases (has_key id s.completed)) [
      | inl there ↦ unfold wait_condition in rw (wait_condition, there) (Follows-order.stays s)
      | inr absent ↦
          let consumed = sleep-Consumes id s.history s.completed in
          unfold wait_condition in
          rw (wait_condition, absent)
            (record { rest = consumed.rest; delivers = consumed.delivers })
    ]

next_sleep-Follows : (n : ℕ) → Keeps Follows (next_sleep n)
unfolding next_sleep
next_sleep-Follows n = record {
  at = λ s. record { rest = λ e o. o; delivers = Delivers-none s.history s.completed };
}

pub sleep_until-Follows : (id : Text) (n : ℕ) → Keeps Follows (sleep_until id n)
sleep_until-Follows = Keeps-sleep_until Follows-order next_sleep-Follows wait_condition-Follows

pub count_poll-Follows : Keeps Follows count_poll
unfolding count_poll
count_poll-Follows = record {
  at = λ s. record { rest = λ e o. o; delivers = Delivers-none s.history s.completed };
}

pub check-Follows : (settings : Settings) (id : Text) → Keeps Follows (check settings id)
check-Follows settings =
    closed-check (Keeps-IsClosed Follows-order) settings
      (λ id. execute_activity-Follows _ pick_checked)

pub wait_until_terminal-Follows :
    (settings : Settings) (id : Text) (inp : ConvertInput)
    → Keeps Follows (wait_until_terminal settings id inp)
wait_until_terminal-Follows settings id inp =
    closed-wait_until_terminal (Keeps-IsClosed Follows-order) settings
      (λ id. execute_activity-Follows _ pick_checked) inp
      (λ id. sleep_until-Follows id inp.safety_poll_interval_seconds) count_poll-Follows id
