-- ===== src/Orchestration/Workflow/Recorded.antt =====
-- An activity's result stands in the history.
use docling_serve_ray.Prelude.{◌≡◌, ap, Option, none, some, List, arith, if◌then◌else◌}
use docling_serve_ray.Text.{Text}
use docling_serve_ray.Orchestration.Models.{
  ConvertInput, TaskCompleted, TaskOutcome, CollectedOutputs, Settings,
}
use docling_serve_ray.Orchestration.Runtime.{
  ActivityResult, returned, raised, Event, submitted, checked, fetched, collected, Instance, Run,
  done, failed, blocked, out_of_fuel, outcome, activity_error, application_error, pure, raise,
  resume,
}
use docling_serve_ray.Orchestration.Workflow.{
  pick_submitted, pick_checked, pick_fetched, pick_collected, fetch, collect, submit, is_task_lost,
  check, caught, try_except,
}
use docling_serve_ray.Orchestration.Workflow.Signals.{Occurs, resume-picked}

-- An activity that returned has its result in the history.
resume-done :
    {A : Type 0} (pick : Event → Option (ActivityResult A)) (s : Instance) (a : A)
    → outcome (resume pick s.history s.completed).0 ≡ done a
    → (e : Event) × (pick e ≡ some (returned a)) × Occurs e s.history
resume-done {A} pick s a h =
    resume-picked pick s.history s.completed (returned a)
      (outcome-eq-done (resume pick s.history s.completed).0 h)
  where
    outcome-eq-done : (o : Option (ActivityResult A)) → outcome o ≡ done a → o ≡ some (returned a)
    outcome-eq-done none q = cc
    outcome-eq-done (some (returned b)) q = ground arith
    outcome-eq-done (some (raised x)) q = cc

pick_fetched-eq :
    (e : Event) (r : ActivityResult TaskOutcome) → pick_fetched e ≡ some r → e ≡ fetched r
pick_fetched-eq (fetched r') r h = ap fetched (ground arith)
pick_fetched-eq _ r h = cc

pick_checked-eq :
    (e : Event) (r : ActivityResult (Option TaskCompleted))
    → pick_checked e ≡ some r
    → e ≡ checked r
pick_checked-eq (checked r') r h = ap checked (ground arith)
pick_checked-eq _ r h = cc

pick_collected-eq :
    (e : Event) (r : ActivityResult CollectedOutputs) → pick_collected e ≡ some r → e ≡ collected r
pick_collected-eq (collected r') r h = ap collected (ground arith)
pick_collected-eq _ r h = cc

pick_submitted-eq :
    (e : Event) (r : ActivityResult Text) → pick_submitted e ≡ some r → e ≡ submitted r
pick_submitted-eq (submitted r') r h = ap submitted (ground arith)
pick_submitted-eq _ r h = cc

Occurs-of_eq : {e e' : Event} (h : List Event) → e ≡ e' → Occurs e h → Occurs e' h
Occurs-of_eq h p o = rw (← p) o

module _ (settings : Settings) where
  pub fetch-recorded :
      (id : Text) (s : Instance) (o : TaskOutcome)
      → (fetch settings id s).0 ≡ done o
      → Occurs (fetched (returned o)) s.history
  unfolding fetch
  fetch-recorded id s o h =
      let (e, picked, there) = resume-done pick_fetched s o h in
      Occurs-of_eq s.history (pick_fetched-eq e _ picked) there

  pub collect-recorded :
      (inp : ConvertInput) (s : Instance) (c : CollectedOutputs)
      → (collect settings inp s).0 ≡ done c
      → Occurs (collected (returned c)) s.history
  unfolding collect
  collect-recorded inp s c h =
      let (e, picked, there) = resume-done pick_collected s c h in
      Occurs-of_eq s.history (pick_collected-eq e _ picked) there

  pub submit-recorded :
      (inp : ConvertInput) (s : Instance) (id : Text)
      → (submit settings inp s).0 ≡ done id
      → Occurs (submitted (returned id)) s.history
  unfolding submit
  submit-recorded inp s id h =
      let (e, picked, there) = resume-done pick_submitted s id h in
      Occurs-of_eq s.history (pick_submitted-eq e _ picked) there

  check-caught :
      (r : Run (Option TaskCompleted)) (t : Instance) (c : TaskCompleted)
      → (caught
          (r, t)
          (λ err. if is_task_lost err then raise (activity_error err) else pure none)).0
        ≡ done (some c)
      → r ≡ done (some c)
  unfolding raise pure
  check-caught (failed (activity_error e)) t c h = ground arith
  check-caught (failed (application_error k final)) t c h = cc
  check-caught (done o) t c h = h
  check-caught blocked t c h = cc
  check-caught out_of_fuel t c h = cc

  pub check-recorded :
      (id : Text) (s : Instance) (c : TaskCompleted)
      → (check settings id s).0 ≡ done (some c)
      → Occurs (checked (returned (some c))) s.history
  unfolding check try_except
  check-recorded id s c h =
      let (e, picked, there) = resume-done pick_checked s (some c) (check-caught _ _ c h) in
      Occurs-of_eq s.history (pick_checked-eq e _ picked) there
