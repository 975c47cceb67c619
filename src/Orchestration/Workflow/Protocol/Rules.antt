-- ===== src/Orchestration/Workflow/Protocol/Rules.antt =====
-- One rule for each way to build an action: where it leads in the protocol.
use docling_serve_ray.Prelude.{Bool, true, false, Option, none, some, [], ◌∷◌, ◌++◌, if◌then◌else◌}
use docling_serve_ray.Orchestration.Models.{ErrorType}
use docling_serve_ray.Orchestration.Runtime.{
  ActivityError, ActivityResult, returned, raised, Event, Command, Instance, activity_error,
  application_error, Run, done, failed, blocked, out_of_fuel, Workflow, continue, ◌>>=◌, pure,
  raise, resume, outcome, execute_activity,
}
use docling_serve_ray.Orchestration.Workflow.{caught, try_except, exhausted}
use docling_serve_ray.Orchestration.Workflow.Protocol.{
  Phase, Step, Reaches, after, At-map, Lands, Takes,
}

-- The phase after an activity's command, by what the activity comes to.
module _ {A : Type 0} (Q : A → Phase → Type 0) (E : Phase → Type 0)
    (next : Option (ActivityResult A) → Phase) (returns : (a : A) → Q a (next (some (returned a))))
    (raises : (e : ActivityError) → E (next (some (raised e)))) where
  lands :
      (o : Option (ActivityResult A)) (s : Instance)
      → Reaches s.commands (next o)
      → Lands Q E (outcome o, s)
  lands none s h = record { phase = next none; reached = h; holds = tt }
  lands (some (returned a)) s h = record {
    phase = next (some (returned a));
    reached = h;
    holds = returns a;
  }
  lands (some (raised e)) s h = record {
    phase = next (some (raised e));
    reached = h;
    holds = raises e;
  }

module _ {A : Type 0} {Q : A → Phase → Type 0} {E : Phase → Type 0} where
  module _ {B : Type 0} {R : B → Phase → Type 0} where
    continue-Lands :
        (r : Run A) (f : A → Workflow B) (t : Instance)
        → Lands Q E (r, t)
        → ((a : A) → Takes (Q a) (f a) R E)
        → Lands R E (continue r f t)
    continue-Lands (done a) f t h k = (k a).at t h
    continue-Lands (failed (activity_error e)) f t h k = h
    continue-Lands (failed (application_error x final)) f t h k = h
    continue-Lands blocked f t h k = h
    continue-Lands out_of_fuel f t h k = h

  module _ {F : Phase → Type 0} where
    caught-Lands :
        (p : Run A × Instance) (handler : ActivityError → Workflow A)
        → Lands Q E p
        → ((e : ActivityError) → Takes E (handler e) Q F)
        → Lands Q F (caught p handler)
    caught-Lands (done a, t) handler h k = h
    caught-Lands (failed (activity_error e), t) handler h k = (k e).at t h
    caught-Lands (failed (application_error x final), t) handler h k = h
    caught-Lands (blocked, t) handler h k = h
    caught-Lands (out_of_fuel, t) handler h k = h

module _ {A : Type 0} {P : Phase → Type 0} {Q : A → Phase → Type 0} {E : Phase → Type 0} where
  pub Takes-pure : (a : A) → ((p : Phase) → P p → Q a p) → Takes P (pure a) Q E
  unfolding pure
  Takes-pure a f = record { at = λ s h. At-map f h }

  pub Takes-fail : (x : ErrorType) (final : Bool) → Takes P (raise (application_error x final)) Q E
  unfolding raise
  Takes-fail x final = record { at = λ s h. At-map (λ p k. tt) h }

  pub Takes-raise :
      (e : ActivityError) → ((p : Phase) → P p → E p) → Takes P (raise (activity_error e)) Q E
  unfolding raise
  Takes-raise e f = record { at = λ s h. At-map f h }

  pub Takes-exhausted : Takes P exhausted Q E
  unfolding exhausted
  Takes-exhausted = record { at = λ s h. At-map (λ p k. tt) h }

  pub Takes-if :
      (b : Bool) (m n : Workflow A)
      → Takes P m Q E
      → Takes P n Q E
      → Takes P (if b then m else n) Q E
  Takes-if true m n km kn = km
  Takes-if false m n km kn = kn

  pub Takes-from :
      {P' : Phase → Type 0} (m : Workflow A)
      → ((p : Phase) → P p → P' p)
      → Takes P' m Q E
      → Takes P m Q E
  Takes-from m f k = record { at = λ s h. k.at s (At-map f h) }

  pub Takes-execute_activity :
      (c : Command) (pick : Event → Option (ActivityResult A))
      (next : Option (ActivityResult A) → Phase)
      → ((o : Option (ActivityResult A)) (p : Phase) → P p → Step p c (next o))
      → ((a : A) → Q a (next (some (returned a))))
      → ((e : ActivityError) → E (next (some (raised e))))
      → Takes P (execute_activity c pick) Q E
  unfolding execute_activity
  Takes-execute_activity c pick next steps returns raises = record {
    at = λ s h.
        let result = resume pick s.history s.completed in
        lands Q E next returns raises result.0
          (record s { completed = result.2; history = result.1; commands = s.commands ++ c ∷ [] })
          (after h.reached (steps result.0 h.phase h.holds));
  }

  module _ {B : Type 0} {R : B → Phase → Type 0} where
    pub Takes-bind :
        (m : Workflow A) (f : A → Workflow B)
        → Takes P m Q E
        → ((a : A) → Takes (Q a) (f a) R E)
        → Takes P (m >>= f) R E
    unfolding ◌>>=◌
    Takes-bind m f km kf = record { at = λ s h. continue-Lands (m s).0 f (m s).1 (km.at s h) kf }

  module _ {F : Phase → Type 0} where
    pub Takes-try_except :
        (body : Workflow A) (handler : ActivityError → Workflow A)
        → Takes P body Q E
        → ((e : ActivityError) → Takes E (handler e) Q F)
        → Takes P (try_except body handler) Q F
    unfolding try_except
    Takes-try_except body handler kb kh = record {
      at = λ s h. caught-Lands (body s) handler (kb.at s h) kh;
    }
