-- ===== src/Facade/Backend/Laws.antt =====
-- What holds of the value and the services where a coroutine returns, one rule for each way to
-- build a coroutine.
use docling_serve_ray.Prelude.{
  ◌≡◌, refl, subst, Bool, true, false, Option, none, some, if◌then◌else◌,
}
use docling_serve_ray.Result.{Result, ok, err}
use docling_serve_ray.Json.{ShapeError}
use docling_serve_ray.Facade.Backend.{
  Action, Raised, http_exception, transport, unexpected, still_waiting, then_run, expect,
  expect_shape, return, raise, translated,
}
use docling_serve_ray.Resources.{after_body}

pub Ensures : {W A : Type 0} → (A → W → Type 0) → Result Raised A × W → Type 0
Ensures Q (ok a, w) = Q a w
Ensures Q (err e, w) = Unit

pub Ensures-ok :
    {W A : Type 0} (Q : A → W → Type 0) {p : Result Raised A × W} {a : A} {w : W}
    → p ≡ (ok a, w)
    → Ensures Q p
    → Q a w
unfolding Ensures
Ensures-ok Q h q = subst (Ensures Q) h q

pub Ensures-returned :
    {W A : Type 0} (Q : A → W → Type 0) (p : Result Raised A × W) {a : A}
    → p.0 ≡ ok a
    → Ensures Q p
    → Q a p.1
unfolding Ensures
Ensures-returned Q (r, w) h q = subst (λ s. Ensures Q (s, w)) h q

pub Ensures-mono :
    {W A : Type 0} (Q R : A → W → Type 0) (p : Result Raised A × W)
    → Ensures Q p
    → ((a : A) (w : W) → Q a w → R a w)
    → Ensures R p
unfolding Ensures
Ensures-mono Q R (ok a, w) h f = f a w h
Ensures-mono Q R (err e, w) h f = tt

module _ {W B : Type 0} (Q : B → W → Type 0) where
  pub Ensures-raise : (e : Raised) (w : W) → Ensures Q (raise e w)
  unfolding Ensures
  Ensures-raise e w = tt

  pub Ensures-return : (b : B) (w : W) → Q b w → Ensures Q (return b w)
  unfolding Ensures
  Ensures-return b w h = h

  pub Ensures-expect_last :
      (o : Option B) (w : W) → ((b : B) → o ≡ some b → Q b w) → Ensures Q (expect o w)
  unfolding Ensures
  Ensures-expect_last none w h = tt
  Ensures-expect_last (some b) w h = h b refl

  pub Ensures-last :
      (p : Result Raised B × W) → ((b : B) (w : W) → p ≡ (ok b, w) → Q b w) → Ensures Q p
  unfolding Ensures
  Ensures-last (ok b, w) h = h b w refl
  Ensures-last (err e, w) h = tt

  pub Ensures-translated : (p : Result Raised B × W) → Ensures Q p → Ensures Q (translated p)
  unfolding Ensures
  Ensures-translated (ok a, w) h = h
  Ensures-translated (err transport, w) h = tt
  Ensures-translated (err (http_exception n), w) h = tt
  Ensures-translated (err unexpected, w) h = tt
  Ensures-translated (err still_waiting, w) h = tt

  pub Ensures-if :
      (b : Bool) (m n : Action W B) (w : W)
      → (b ≡ true → Ensures Q (m w))
      → (b ≡ false → Ensures Q (n w))
      → Ensures Q ((if b then m else n) w)
  Ensures-if true m n w h k = h refl
  Ensures-if false m n w h k = k refl

  pub Ensures-either :
      (b : Bool) (p q : Result Raised B × W)
      → Ensures Q p
      → Ensures Q q
      → Ensures Q (if b then p else q)
  Ensures-either true p q h k = h
  Ensures-either false p q h k = k

  module _ {A : Type 0} where
    pub Ensures-then_run :
        (p : Result Raised A × W) (next : A → Action W B)
        → ((a : A) (w : W) → p ≡ (ok a, w) → Ensures Q (next a w))
        → Ensures Q (then_run p next)
    unfolding Ensures
    Ensures-then_run (ok a, w) next h = h a w refl
    Ensures-then_run (err e, w) next h = tt

    -- Steps that leave the services alone.
    pub Ensures-expect :
        (o : Option A) (w : W) (next : A → Action W B)
        → ((a : A) → o ≡ some a → Ensures Q (next a w))
        → Ensures Q (then_run (expect o w) next)
    unfolding Ensures
    Ensures-expect none w next h = tt
    Ensures-expect (some a) w next h = h a refl

    pub Ensures-expect_shape :
        (r : Result ShapeError A) (w : W) (next : A → Action W B)
        → ((a : A) → r ≡ ok a → Ensures Q (next a w))
        → Ensures Q (then_run (expect_shape r w) next)
    unfolding Ensures
    Ensures-expect_shape (err e) w next h = tt
    Ensures-expect_shape (ok a) w next h = h a refl

    -- A check that raises where it fails.
    pub Ensures-guard :
        (b : Bool) (a : A) (e : Raised) (w : W) (next : A → Action W B)
        → (b ≡ true → Ensures Q (next a w))
        → Ensures Q (then_run ((if b then return a else raise e) w) next)
    unfolding Ensures
    Ensures-guard true a e w next h = h refl
    Ensures-guard false a e w next h = tt

-- A check with no value.
pub Ensures-check :
    {W B : Type 0} (Q : B → W → Type 0) (b : Bool) (e : Raised) (w : W) (m : Action W B)
    → (b ≡ true → Ensures Q (m w))
    → Ensures Q (then_run ((if b then return tt else raise e) w) (λ _. m))
Ensures-check Q b e w m h = Ensures-guard Q b tt e w (λ _. m) h

-- A body and its clean-up: what holds once the clean-up has returned.
pub Ensures-after_body :
    {W A : Type 0} (Q : A → W → Type 0) (cleanup : Action W (Unit {0})) (p : Result Raised A × W)
    → Ensures (λ a u. (x : W) → cleanup u ≡ (ok tt, x) → Q a x) p
    → Ensures Q (after_body cleanup p)
unfolding Ensures
Ensures-after_body Q cleanup (ok a, u) h =
    Ensures-then_run Q (cleanup u) (λ _ x. (ok a, x)) (λ _ x e. h x e)
Ensures-after_body Q cleanup (err r, u) h =
    Ensures-then_run Q (cleanup u) (λ _ x. (err r, x)) (λ _ x e. tt)
