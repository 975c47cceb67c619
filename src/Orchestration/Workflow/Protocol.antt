-- ===== src/Orchestration/Workflow/Protocol.antt =====
-- The order of the commands that a run may issue, as a machine, and where an action leads in it.
pub mod Rules
pub mod Waits
pub mod Whole
use docling_serve_ray.Prelude.{
  ℕ, Bool, true, false, Option, none, some, List, [], ◌∷◌, ◌++◌, if◌then◌else◌,
}
use docling_serve_ray.Text.{Text}
use docling_serve_ray.Orchestration.Models.{ErrorType, SubmitConversionInput, CollectOutputsInput}
use docling_serve_ray.Orchestration.Runtime.{
  RetryPolicy, ActivityError, ActivityResult, returned, raised, Event, Command, start_timer,
  submit_conversion, check_task, fetch_outcome, collect_outputs, Instance, activity_error,
  application_error, Run, done, failed, blocked, out_of_fuel, Workflow, continue, ◌>>=◌, pure,
  raise, resume, outcome, execute_activity,
}
use docling_serve_ray.Orchestration.Workflow.{caught, try_except, exhausted}

-- What a run is about, with the id of its task: its submission is scheduled, a timer runs, a poll is
-- scheduled, or the outcome, or the collection.
pub data Phase : Type 0 where
  initial : Phase
  awaiting : Text → Phase
  asleep : Text → Phase
  polling : Text → Phase
  examining : Text → Phase
  collecting : Text → Phase

-- Where the task may turn out to have ended: at once, by a callback that ends a sleep, or by a poll.
pub data MayEnd (id : Text) : Phase → Type 0 where
  at_once : MayEnd id (awaiting id)
  by_callback : MayEnd id (asleep id)
  by_poll : MayEnd id (polling id)

-- Where a sleep may begin, and where a submission may: after a poll it is the next one.
pub data MaySleep (id : Text) : Phase → Type 0 where
  first_sleep : MaySleep id (awaiting id)
  next_sleep : MaySleep id (polling id)

pub data MaySubmit : Phase → Type 0 where
  first_submission : MaySubmit initial
  resubmission : {lost : Text} → MaySubmit (polling lost)

-- The machine. A submission takes an id, which may be any; polls and the outcome keep it.
pub data Step : Phase → Command → Phase → Type 0 where
  submits :
      {p : Phase} {input : SubmitConversionInput} {queue : Text} {timeout : ℕ} {retry : RetryPolicy}
      (id : Text)
      → MaySubmit p
      → Step p (submit_conversion input queue timeout retry) (awaiting id)
  sleeps :
      {p : Phase} {length : ℕ} {id : Text} → MaySleep id p → Step p (start_timer length) (asleep id)
  polls :
      {id : Text} {timeout : ℕ} {retry : RetryPolicy}
      → Step (asleep id) (check_task id timeout retry) (polling id)
  examines :
      {p : Phase} {id : Text} {timeout : ℕ}
      → MayEnd id p
      → Step p (fetch_outcome id timeout) (examining id)
  collects :
      {id : Text} {input : CollectOutputsInput} {timeout : ℕ}
      → Step (examining id) (collect_outputs input timeout) (collecting id)

-- The commands that lead to a phase.
pub data Reaches : List Command → Phase → Type 0 where
  begun : Reaches [] initial
  after :
      {cs : List Command} {c : Command} {p q : Phase}
      → Reaches cs p
      → Step p c q
      → Reaches (cs ++ c ∷ []) q

-- The commands lead to a phase of which `P` holds.
pub record At (P : Phase → Type 0) (cs : List Command) : Type 0 where
  pub phase : Phase
  pub reached : Reaches cs phase
  pub holds : P phase

abbrev pub AnyPhase : Phase → Type 0
AnyPhase p = Unit

pub data Exactly (q : Phase) : Phase → Type 0 where
  exactly : Exactly q q

pub At-map :
    {P Q : Phase → Type 0} {cs : List Command} → ((p : Phase) → P p → Q p) → At P cs → At Q cs
At-map f h = record { phase = h.phase; reached = h.reached; holds = f h.phase h.holds }

-- Where a run went: of its phase, `Q` holds if it returned, `E` if an activity failed; in any case its
-- commands lead to some phase.
abbrev pub Lands :
    {A : Type 0} → (A → Phase → Type 0) → (Phase → Type 0) → Run A × Instance → Type 0
Lands Q E (done a, t) = At (Q a) t.commands
Lands Q E (failed (activity_error e), t) = At E t.commands
Lands Q E (failed (application_error x final), t) = At AnyPhase t.commands
Lands Q E (blocked, t) = At AnyPhase t.commands
Lands Q E (out_of_fuel, t) = At AnyPhase t.commands

-- From every phase of which `P` holds, the action lands so.
pub record Takes {A : Type 0} (P : Phase → Type 0) (m : Workflow A) (Q : A → Phase → Type 0)
    (E : Phase → Type 0) : Type 0 where
  pub at : (s : Instance) → At P s.commands → Lands Q E (m s)
