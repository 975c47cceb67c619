-- ===== src/Orchestration/Workflow/Progress.antt =====
-- The histories on which a conversion goes well, and what each of a run's waits makes of them.
pub mod Ended
pub mod Returned
use docling_serve_ray.Prelude.{
  ℕ, zero, suc, ◌+◌, ◌≡◌, ◌≢◌, refl, sym, ap, ◌∙◌, Bool, true, false, Option, none, some, List, [],
  ◌∷◌, ◌++◌, All, arith, if◌then◌else◌, Bool-cases, inl, inr,
}
use docling_serve_ray.Text.{Text, str_eq}
use docling_serve_ray.Text.Laws.{str_eq_iff}
use docling_serve_ray.Dict.{Dict, lookup, has_key, get_or}
use docling_serve_ray.Dict.Laws.{lookup-set_default}
use docling_serve_ray.Orchestration.Models.{
  TaskCompleted, TaskOutcome, CollectedOutputs, ConvertResult, required_format,
}
use docling_serve_ray.Orchestration.Runtime.{
  ActivityError, ActivityResult, returned, raised, Event, signal, timer_fired, checked, fetched,
  collected, task_completed, resume, sleep,
}
use docling_serve_ray.Orchestration.Workflow.{is_task_lost, produced_nothing}

-- Callbacks in their order, and then the history `h`.
abbrev pub signals : List TaskCompleted → List Event → List Event
signals [] h = h
signals (c ∷ cs) h = signal c ∷ signals cs h

-- What is recorded once the callbacks have arrived.
abbrev pub recorded : List TaskCompleted → Dict TaskCompleted → Dict TaskCompleted
recorded [] d = d
recorded (c ∷ cs) d = recorded cs (task_completed c d)

-- A poll that decides nothing: the task is in progress, or the poll failed for another reason than
-- that docling-serve has lost the task.
abbrev pub IsQuiet : ActivityResult (Option TaskCompleted) → Type 0
IsQuiet (returned none) = Unit
IsQuiet (returned (some c)) = ⊥
IsQuiet (raised e) = is_task_lost e ≡ false

-- Rounds of a timer and such a poll, and then the history `h`.
abbrev pub rounds : List (ActivityResult (Option TaskCompleted)) → List Event → List Event
rounds [] h = h
rounds (q ∷ qs) h = timer_fired ∷ checked q ∷ rounds qs h

-- A callback for another task.
abbrev pub IsOther : Text → TaskCompleted → Type 0
IsOther id c = c.task_id ≢ id

-- The rest of a history once the task has ended, where both later activities return.
pub record Ending : Type 0 where
  pub before_outcome : List TaskCompleted
  pub outcome : TaskOutcome
  pub before_outputs : List TaskCompleted
  pub found : CollectedOutputs
  pub rest : List Event

abbrev pub ending : Ending → List Event
ending e = signals e.before_outcome (
    fetched (returned e.outcome) ∷ signals e.before_outputs (collected (returned e.found) ∷ e.rest))

-- Something was converted, and the outputs hold the required format.
abbrev pub IsGood : Ending → Type 0
IsGood e = (produced_nothing e.outcome ≡ false) × (has_key required_format e.found.outputs ≡ true)

-- What a run of one submission returns on such a history.
abbrev pub answer : Text → ℕ → Ending → ConvertResult
answer id polls e = record {
  task_id = id;
  outputs = e.found.outputs;
  output_bucket = e.found.bucket;
  submissions = 1;
  safety_polls = polls;
}

pub resume-signals :
    {A : Type 0} (pick : Event → Option (ActivityResult A)) (cs : List TaskCompleted)
    (h : List Event) (d : Dict TaskCompleted)
    → resume pick (signals cs h) d ≡ resume pick h (recorded cs d)
unfolding resume
resume-signals pick [] h d = refl
resume-signals pick (c ∷ cs) h d = resume-signals pick cs h (task_completed c d)

has_key-task_completed_other :
    (id : Text) (c : TaskCompleted) (d : Dict TaskCompleted)
    → IsOther id c
    → has_key id d ≡ false
    → has_key id (task_completed c d) ≡ false
unfolding task_completed has_key
has_key-task_completed_other id c d other absent =
    ground (arith, lookup-set_default c.task_id id c d, str_eq_iff c.task_id id)

lookup-task_completed :
    (id : Text) (c : TaskCompleted) (d : Dict TaskCompleted)
    → c.task_id ≡ id
    → has_key id d ≡ false
    → lookup id (task_completed c d) ≡ some c
unfolding task_completed get_or has_key
lookup-task_completed id c d same absent =
    ground (arith, lookup-set_default c.task_id id c d, str_eq_iff c.task_id id, str_eq_iff id id)

-- What a wait for a callback comes to, once the callback for its task arrives.
pub record Arrives (id : Text) (c : TaskCompleted) (h : List Event)
    (p : Option Bool × List Event × Dict TaskCompleted) : Type 0 where
  pub woke : p.0 ≡ some true
  pub left : p.1 ≡ h
  pub known : lookup id p.2 ≡ some c

pub sleep-Arrives :
    (id : Text) (c : TaskCompleted) (cs : List TaskCompleted) (h : List Event)
    (d : Dict TaskCompleted)
    → c.task_id ≡ id
    → has_key id d ≡ false
    → All (IsOther id) cs
    → Arrives id c h (sleep id (signals cs (signal c ∷ h)) d)
unfolding sleep
sleep-Arrives id c [] h d same absent tt =
    let known = lookup-task_completed id c d same absent in
    let there : has_key id (task_completed c d) ≡ true = unfold has_key in ground (arith, known) in
    rw there (record { woke = refl; left = refl; known = known })
sleep-Arrives id c (x ∷ cs) h d same absent (other, others) =
    let still = has_key-task_completed_other id x d other absent in
    rw still (sleep-Arrives id c cs h (task_completed x d) same still others)
