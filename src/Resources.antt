-- ===== src/Resources.antt =====
-- Python's `async with` and `try: ... finally: ...`, and what they do to the resources that are open.
use docling_serve_ray.Prelude.{◌≡◌, refl, ap, ◌∙◌, List, ◌∷◌}
use docling_serve_ray.Result.{Result, ok, err}
use docling_serve_ray.Facade.Backend.{Action, Raised, then_run, ◌>>=◌, ◌>>◌}

module _ {W : Type 0} where
  -- After the body, whatever it came to, the clean-up; what that raises takes the body's place.
  abbrev pub after_body :
      {A : Type 0} → Action W (Unit {0}) → Result Raised A × W → Result Raised A × W
  after_body cleanup (r, w) = then_run (cleanup w) (λ _ v. (r, v))

  -- `try: body finally: cleanup`
  unfoldable pub try_finally : {A : Type 0} → Action W A → Action W (Unit {0}) → Action W A
  try_finally body cleanup w = after_body cleanup (body w)

  -- `async with resource: body`: a resource whose opening raises is not closed.
  unfoldable pub async_with :
      {A : Type 0} → Action W (Unit {0}) → Action W (Unit {0}) → Action W A → Action W A
  unfolding try_finally
  async_with enter exit body = enter >> try_finally body exit

-- What is said of the calls that open and close resources: `open` lists the open ones, the last one
-- first. Closing the last one opened closes it, even if it raises.
pub record Tracks {W R : Type 0} (enter exit : R → Action W (Unit {0})) (open_of : W → List R)
    : Type 0 where
  pub entered : (r : R) (w v : W) → enter r w ≡ (ok tt, v) → open_of v ≡ r ∷ open_of w
  pub not_entered : (r : R) (w v : W) (e : Raised) → enter r w ≡ (err e, v) → open_of v ≡ open_of w
  pub exited : (r : R) (rs : List R) (w : W) → open_of w ≡ r ∷ rs → open_of (exit r w).1 ≡ rs

-- An action that, run where just `rs` are open, leaves just them open, whether or not it raises.
pub record Leaves {W R : Type 0} (open_of : W → List R) (rs : List R) {A : Type 0} (m : Action W A)
    : Type 0 where
  pub at : (w : W) → open_of w ≡ rs → open_of (m w).1 ≡ rs

module _ {W R : Type 0} (open_of : W → List R) where
  state_of_cleanup :
      {A : Type 0} (r : Result Raised A) (p : Result Raised (Unit {0}) × W)
      → (then_run p (λ _ v. (r, v))).1 ≡ p.1
  state_of_cleanup r (ok tt, w) = refl
  state_of_cleanup r (err e, w) = refl

  pub state-after_body :
      {A : Type 0} (cleanup : Action W (Unit {0})) (p : Result Raised A × W)
      → (after_body cleanup p).1 ≡ (cleanup p.1).1
  state-after_body cleanup (r, w) = state_of_cleanup r (cleanup w)

  Leaves-then_run :
      {A B : Type 0} (rs : List R) (p : Result Raised A × W) (next : A → Action W B)
      → open_of p.1 ≡ rs
      → ((a : A) → Leaves open_of rs (next a))
      → open_of (then_run p next).1 ≡ rs
  Leaves-then_run rs (ok a, w) next h k = (k a).at w h
  Leaves-then_run rs (err e, w) next h k = h

  pub Leaves-bind :
      {A B : Type 0} (rs : List R) (m : Action W A) (next : A → Action W B)
      → Leaves open_of rs m
      → ((a : A) → Leaves open_of rs (next a))
      → Leaves open_of rs (m >>= next)
  Leaves-bind rs m next h k = record { at = λ w o. Leaves-then_run rs (m w) next (h.at w o) k }

  module _ (enter exit : R → Action W (Unit {0})) (tracks : Tracks enter exit open_of) (r : R)
      (rs : List R) where
    opened :
        {A : Type 0} (body : Action W A) (w : W) (p : Result Raised (Unit {0}) × W)
        → open_of w ≡ rs
        → Leaves open_of (r ∷ rs) body
        → enter r w ≡ p
        → open_of (then_run p (λ _. try_finally body (exit r))).1 ≡ rs
    unfolding try_finally
    opened body w (err x, v) o h e = tracks.not_entered r w v x e ∙ o
    opened body w (ok tt, v) o h e =
        ap open_of (state-after_body (exit r) (body v))
        ∙ tracks.exited r rs (body v).1 (h.at v (tracks.entered r w v e ∙ ap (λ l. r ∷ l) o))

    -- What `async with` opens it closes, whatever its body and the closing itself come to; its body
    -- runs with the resource open.
    pub Leaves-async_with :
        {A : Type 0} (body : Action W A)
        → Leaves open_of (r ∷ rs) body
        → Leaves open_of rs (async_with (enter r) (exit r) body)
    unfolding async_with
    Leaves-async_with body h = record { at = λ w o. opened body w (enter r w) o h refl }
