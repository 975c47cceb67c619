-- ===== src/Relay/Laws.antt =====
-- The relay against the submission that registers its callback, and against the workflow.
use docling_serve_ray.Prelude.{
  ℕ, ◌≡◌, ◌≢◌, refl, ap, ◌∙◌, true, false, ◌||◌, not, Option, none, some, List, [], ◌∷◌, arith,
  Bool-cases, inl, inr,
}
use docling_serve_ray.Text.{Text, str_eq}
use docling_serve_ray.Text.Laws.{str_eq_iff}
use docling_serve_ray.Orchestration.Models.{task_completed_signal}
use docling_serve_ray.Relay.{
  SignalArgument, ProgressCallback, CallbackRequest, Signaled, kind_task_completed, is_empty,
  has_terminal_status, argument_of, answer, handle, callback,
}

-- A callback that reports a finished task.
pub record IsTerminal (cb : ProgressCallback) : Type 0 where
  pub kind : cb.kind ≡ kind_task_completed
  pub named : cb.task_id ≢ []
  pub status : has_terminal_status cb ≡ true

pub is_empty-ne : (bs : List ℕ) → bs ≢ [] → is_empty bs ≡ false
is_empty-ne [] h = absurd (h refl)
is_empty-ne (b ∷ bs) h = refl

ne-is_empty : (bs : List ℕ) → is_empty bs ≡ false → bs ≢ []
ne-is_empty [] h e = cc
ne-is_empty (b ∷ bs) h e = cc

module _ {W : Type 0} (signal_workflow : List ℕ → Text → SignalArgument → W → Signaled × W) where
  -- The handler's answer where it signals the workflow.
  abbrev pub after_signal : List ℕ → ProgressCallback → W → ℕ × W
  after_signal id cb w =
      let (outcome, v) = signal_workflow id task_completed_signal (argument_of cb) w in
      (answer outcome, v)

  pub handle-terminal :
      (id : List ℕ) (cb : ProgressCallback) (w : W)
      → IsTerminal cb
      → handle signal_workflow id cb w ≡ after_signal id cb w
  unfolding handle
  handle-terminal id cb w t =
      let kind : str_eq cb.kind kind_task_completed ≡ true = (str_eq_iff _ _).1 t.kind in
      rw (kind, is_empty-ne cb.task_id t.named, t.status) refl

  handle-changed :
      (id : List ℕ) (cb : ProgressCallback) (w : W)
      → (handle signal_workflow id cb w).1 ≢ w
      → IsTerminal cb
  unfolding handle
  handle-changed id cb w changed = elim (Bool-cases (str_eq cb.kind kind_task_completed)) [
    | inr other ↦ absurd (changed (rw other refl))
    | inl kind ↦ elim (Bool-cases (is_empty cb.task_id || not (has_terminal_status cb))) [
      | inl refused ↦ absurd (changed (rw (kind, refused) refl))
      | inr passed ↦ record {
        kind = (str_eq_iff _ _).0 kind;
        named = ne-is_empty cb.task_id (ground (arith, passed));
        status = ground (arith, passed);
      }
    ]
  ]

  module _ (decode : List ℕ → Option ProgressCallback) where
    -- The grounds on which the handler signals a workflow, and what it then answers.
    pub record IsAuthorised (token : List ℕ) (r : CallbackRequest) (w : W) : Type 0 where
      pub cb : ProgressCallback
      pub has_token : token ≢ []
      pub same_token : r.token ≡ token
      pub decoded : decode r.body ≡ some cb
      pub terminal : IsTerminal cb
      pub answered : callback signal_workflow decode token r w ≡ after_signal r.workflow_id cb w

    callback-decoded :
        (token : List ℕ) (r : CallbackRequest) (w : W) (o : Option ProgressCallback)
        → decode r.body ≡ o
        → (is_empty token || not (str_eq r.token token)) ≡ false
        → (callback signal_workflow decode token r w).1 ≢ w
        → IsAuthorised token r w
    unfolding callback
    callback-decoded token r w none d passed changed = absurd (changed (rw (passed, d) refl))
    callback-decoded token r w (some cb) d passed changed =
        let handled : callback signal_workflow decode token r w
            ≡ handle signal_workflow r.workflow_id cb w =
          rw (passed, d) refl in
        let t = handle-changed r.workflow_id cb w (λ e. changed (ap (λ p. p.1) handled ∙ e)) in
        record {
          cb = cb;
          has_token = ne-is_empty token (ground (arith, passed));
          same_token = (str_eq_iff r.token token).0 (ground (arith, passed));
          decoded = d;
          terminal = t;
          answered = handled ∙ handle-terminal r.workflow_id cb w t;
        }

    -- The relay touches the workflows only for a request with the configured token, which is not
    -- empty, and with a body that decodes to the report of a finished task; then it sends the
    -- workflow that the path names the signal that the workflow handles, with that report.
    pub callback-IsAuthorised :
        (token : List ℕ) (r : CallbackRequest) (w : W)
        → (callback signal_workflow decode token r w).1 ≢ w
        → IsAuthorised token r w
    unfolding callback
    callback-IsAuthorised token r w changed =
        elim (Bool-cases (is_empty token || not (str_eq r.token token))) [
          | inl refused ↦ absurd (changed (rw refused refl))
          | inr passed ↦ callback-decoded token r w (decode r.body) refl passed changed
        ]
