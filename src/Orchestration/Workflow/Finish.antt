-- ===== src/Orchestration/Workflow/Finish.antt =====
-- What a successful end of a run rests on.
use docling_serve_ray.Prelude.{ℕ, ◌≡◌, refl, sym, ap, ◌∙◌, if◌then◌else◌, Bool, true, false, arith}
use docling_serve_ray.Text.{Text}
use docling_serve_ray.Dict.{has_key}
use docling_serve_ray.Orchestration.Models.{
  success, failure, required_format, ConvertInput, ConvertResult, TaskCompleted, TaskOutcome,
  CollectedOutputs, Settings, TaskStatus,
}
use docling_serve_ray.Orchestration.Runtime.{
  Instance, Run, done, failed, blocked, out_of_fuel, Workflow, continue, WorkflowFailure, ◌>>=◌,
  pure, raise,
}
use docling_serve_ray.Orchestration.Workflow.{
  is_failure, produced_nothing, fetch, collect, deliver, after_outcome, finish, polls_made,
}

pub continue-eq-done :
    {A B : Type 0} (f : A → Workflow B) (r : Run A) (t : Instance) {b : B}
    → (continue r f t).0 ≡ done b
    → (a : A) × (r ≡ done a) × ((f a t).0 ≡ done b) × ((continue r f t).1 ≡ (f a t).1)
continue-eq-done f (done a) t h = (a, refl, h, refl)
continue-eq-done f (failed e) t h = cc
continue-eq-done f blocked t h = cc
continue-eq-done f out_of_fuel t h = cc

-- Inversion of a chain that returned.
pub >>=-eq-done :
    {A B : Type 0} (m : Workflow A) (f : A → Workflow B) (s : Instance) {b : B}
    → ((m >>= f) s).0 ≡ done b
    → (a : A) × ((m s).0 ≡ done a)
      × ((f a (m s).1).0 ≡ done b)
      × (((m >>= f) s).1 ≡ (f a (m s).1).1)
unfolding ◌>>=◌
>>=-eq-done m f s h = continue-eq-done f (m s).0 (m s).1 h

guard_inv :
    {A : Type 0} (b : Bool) (e : WorkflowFailure) (m : Workflow A) (s : Instance) {r : A}
    → ((if b then raise e else m) s).0 ≡ done r
    → (b ≡ false) × ((if b then raise e else m) s ≡ m s)
unfolding raise
guard_inv true e m s h = cc
guard_inv false e m s h = (refl, refl)

success_of : (t : TaskStatus) → is_failure t ≡ false → t ≡ success
success_of success h = refl
success_of failure h = cc

record Delivered (id : Text) (n : ℕ) (found : CollectedOutputs) (s : Instance) (r : ConvertResult)
    : Type 0 where
  task : r.task_id ≡ id
  count : r.submissions ≡ n
  outputs : r.outputs ≡ found.outputs
  bucket : r.output_bucket ≡ found.bucket
  has_json : has_key required_format found.outputs ≡ true
  polls : r.safety_polls ≡ s.safety_polls
  unchanged : (deliver id n found s).1 ≡ s

deliver-Delivered :
    (id : Text) (n : ℕ) (found : CollectedOutputs) (s : Instance) (r : ConvertResult)
    → (deliver id n found s).0 ≡ done r
    → Delivered id n found s r
unfolding deliver ◌>>=◌ pure raise polls_made
deliver-Delivered id n found s r h = ground arith

-- What a successful end rests on: the activities' results and the fields of the answer.
pub record Ends (settings : Settings) (inp : ConvertInput) (id : Text) (c : TaskCompleted) (n : ℕ)
    (s : Instance) (r : ConvertResult) : Type 0 where
  pub succeeded : c.task_status ≡ success
  pub task : r.task_id ≡ id
  pub count : r.submissions ≡ n
  pub outcome : TaskOutcome
  pub found : CollectedOutputs
  pub outcome_fetched : (fetch settings id s).0 ≡ done outcome
  pub something_produced : produced_nothing outcome ≡ false
  pub outputs_collected : (collect settings inp (fetch settings id s).1).0 ≡ done found
  pub outputs : r.outputs ≡ found.outputs
  pub bucket : r.output_bucket ≡ found.bucket
  pub has_json : has_key required_format r.outputs ≡ true
  pub polls : r.safety_polls ≡ (finish settings inp (id, c, n) s).1.safety_polls

module _ (settings : Settings) (inp : ConvertInput) (id : Text) (n : ℕ) where
  after_outcome_inv :
      (o : TaskOutcome) (s : Instance) {r : ConvertResult}
      → (after_outcome settings inp id n o s).0 ≡ done r
      → (produced_nothing o ≡ false)
        × (found : CollectedOutputs) × ((collect settings inp s).0 ≡ done found)
        × ((deliver id n found (collect settings inp s).1).0 ≡ done r)
        × ((after_outcome settings inp id n o s).1
            ≡ (deliver id n found (collect settings inp s).1).1)
  unfolding after_outcome
  after_outcome_inv o s h =
      let (passed, same) = guard_inv (produced_nothing o) _ _ s h in
      let (found, collected, delivered, state) =
        >>=-eq-done (collect settings inp) (deliver id n) s (ap (λ p. p.0) (sym same) ∙ h) in
      (passed, found, collected, delivered, ap (λ p. p.1) same ∙ state)

  finish_inv :
      (c : TaskCompleted) (s : Instance) {r : ConvertResult}
      → (finish settings inp (id, c, n) s).0 ≡ done r
      → (c.task_status ≡ success)
        × (o : TaskOutcome) × ((fetch settings id s).0 ≡ done o)
        × ((after_outcome settings inp id n o (fetch settings id s).1).0 ≡ done r)
        × ((finish settings inp (id, c, n) s).1
            ≡ (after_outcome settings inp id n o (fetch settings id s).1).1)
  unfolding finish
  finish_inv c s h =
      let (passed, same) = guard_inv (is_failure c.task_status) _ _ s h in
      let (o, fetched, rest, state) =
        >>=-eq-done (fetch settings id) (after_outcome settings inp id n) s
          (ap (λ p. p.0) (sym same) ∙ h) in
      (success_of c.task_status passed, o, fetched, rest, ap (λ p. p.1) same ∙ state)

  pub finish-Ends :
      (c : TaskCompleted) (s : Instance) (r : ConvertResult)
      → (finish settings inp (id, c, n) s).0 ≡ done r
      → Ends settings inp id c n s r
  finish-Ends c s r h =
      let (ok, o, fetched, rest, state) = finish_inv c s h in
      let (produced, found, collected, end, state') =
        after_outcome_inv o (fetch settings id s).1 rest in
      let d = deliver-Delivered id n found _ r end in
      record {
        succeeded = ok;
        task = d.task;
        count = d.count;
        outcome = o;
        found = found;
        outcome_fetched = fetched;
        something_produced = produced;
        outputs_collected = collected;
        outputs = d.outputs;
        bucket = d.bucket;
        has_json = rw (d.outputs) d.has_json;
        polls = d.polls ∙ ap Instance.safety_polls (sym (state ∙ state' ∙ d.unchanged));
      }
