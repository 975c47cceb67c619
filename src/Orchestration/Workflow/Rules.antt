-- ===== src/Orchestration/Workflow/Rules.antt =====
-- Relations between the instance before and after an action, one rule for each way to build an
-- action; with them, what every part of a run keeps, the whole run keeps.
use docling_serve_ray.Prelude.{ℕ, Option, none, some}
use docling_serve_ray.Text.{Text}
use docling_serve_ray.Dict.{lookup}
use docling_serve_ray.Orchestration.Models.{TaskCompleted}
use docling_serve_ray.Orchestration.Runtime.{
  ActivityError, Instance, WorkflowFailure, activity_error, application_error, Run, done, failed,
  blocked, out_of_fuel, Workflow, continue, ◌>>=◌, pure, raise, wait_condition,
}
use docling_serve_ray.Orchestration.Workflow.{
  next_sleep, sleep_until, caught, try_except, completed_of, exhausted, polls_made,
}
use docling_serve_ray.Orchestration.Workflow.Closed.{IsClosed}

pub record Keeps (R : Instance → Instance → Type 0) {A : Type 0} (m : Workflow A) : Type 0 where
  pub at : (s : Instance) → R s (m s).1

pub record IsPreorder (R : Instance → Instance → Type 0) : Type 0 where
  pub stays : (s : Instance) → R s s
  pub chain : (s t u : Instance) → R s t → R t u → R s u

module _ {R : Instance → Instance → Type 0} (order : IsPreorder R) where
  pub Keeps-pure : {A : Type 0} (a : A) → Keeps R (pure a)
  unfolding pure
  Keeps-pure a = record { at = λ s. order.stays s }

  pub Keeps-raise : {A : Type 0} (e : WorkflowFailure) → Keeps R (raise {A = A} e)
  unfolding raise
  Keeps-raise e = record { at = λ s. order.stays s }

  pub Keeps-exhausted : {A : Type 0} → Keeps R (exhausted {A = A})
  unfolding exhausted
  Keeps-exhausted = record { at = λ s. order.stays s }

  Keeps-polls_made : Keeps R polls_made
  unfolding polls_made
  Keeps-polls_made = record { at = λ s. order.stays s }

  pub Keeps-completed_of : (id : Text) → Keeps R (completed_of id)
  unfolding completed_of
  Keeps-completed_of id = record { at = λ s. kept s (lookup id s.completed) }
    where
      kept :
          (s : Instance) (o : Option TaskCompleted)
          → R s
              (elim o as (λ _. Run TaskCompleted × Instance) [
                | none ↦ (blocked, s)
                | some c ↦ (done c, s)
              ]).1
      kept s none = order.stays s
      kept s (some c) = order.stays s

  Keeps-continue :
      {A B : Type 0} (r : Run A) (f : A → Workflow B) (s : Instance)
      → ((a : A) → Keeps R (f a))
      → R s (continue r f s).1
  Keeps-continue (done a) f s h = (h a).at s
  Keeps-continue (failed e) f s h = order.stays s
  Keeps-continue blocked f s h = order.stays s
  Keeps-continue out_of_fuel f s h = order.stays s

  pub Keeps-bind :
      {A B : Type 0} (m : Workflow A) (f : A → Workflow B)
      → Keeps R m
      → ((a : A) → Keeps R (f a))
      → Keeps R (m >>= f)
  unfolding ◌>>=◌
  Keeps-bind m f km kf = record {
    at = λ s. order.chain s (m s).1 _ (km.at s) (Keeps-continue (m s).0 f (m s).1 kf);
  }

  Keeps-caught :
      {A : Type 0} (r : Run A) (s : Instance) (handler : ActivityError → Workflow A)
      → ((e : ActivityError) → Keeps R (handler e))
      → R s (caught (r, s) handler).1
  Keeps-caught (failed (activity_error e)) s handler h = (h e).at s
  Keeps-caught (failed (application_error t final)) s handler h = order.stays s
  Keeps-caught (done a) s handler h = order.stays s
  Keeps-caught blocked s handler h = order.stays s
  Keeps-caught out_of_fuel s handler h = order.stays s

  pub Keeps-try_except :
      {A : Type 0} (body : Workflow A) (handler : ActivityError → Workflow A)
      → Keeps R body
      → ((e : ActivityError) → Keeps R (handler e))
      → Keeps R (try_except body handler)
  unfolding try_except
  Keeps-try_except body handler kb kh = record {
    at = λ s. order.chain s (body s).1 _ (kb.at s) (Keeps-caught (body s).0 (body s).1 handler kh);
  }

  pub Keeps-sleep_until :
      ((n : ℕ) → Keeps R (next_sleep n))
      → ((id : Text) (n : ℕ) → Keeps R (wait_condition id n))
      → (id : Text) (n : ℕ) → Keeps R (sleep_until id n)
  unfolding sleep_until
  Keeps-sleep_until draws waits id n = Keeps-bind _ _ (draws n) (waits id)

  pub Keeps-IsClosed : IsClosed (λ A m. Keeps R m)
  Keeps-IsClosed = record {
    of_pure = λ A a. Keeps-pure a;
    of_raise = λ A e. Keeps-raise e;
    of_exhausted = λ A. Keeps-exhausted;
    of_completed_of = Keeps-completed_of;
    of_polls_made = Keeps-polls_made;
    of_bind = λ A B m f km kf. Keeps-bind m f km kf;
    of_try_except = λ A body handler kb kh. Keeps-try_except body handler kb kh;
  }
