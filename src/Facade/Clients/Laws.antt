-- ===== src/Facade/Clients/Laws.antt =====
-- What holds after `async with open_s3_client(...)`.
use docling_serve_ray.Prelude.{◌≡◌, sym, subst, []}
use docling_serve_ray.Result.{Result, ok, err}
use docling_serve_ray.Facade.Schemas.{Settings}
use docling_serve_ray.Facade.Backend.{Action, Backend, Raised, then_run}
use docling_serve_ray.Facade.Backend.Laws.{Ensures, Ensures-then_run, Ensures-after_body}
use docling_serve_ray.Resources.{try_finally, async_with, state-after_body}
use docling_serve_ray.Facade.Clients.{s3_client, with_s3_client}

module _ {W A : Type 0} where
  module _ (B : Backend W) (settings : Settings) (body : Action W A) (w : W) where
    -- The client is opened, the body runs, and where that returns, the client is closed.
    pub Ensures-with_s3_client :
        (Q : A → W → Type 0)
        → ((v : W)
            → B.open_s3 (s3_client settings) w ≡ (ok tt, v)
            → Ensures (λ a u. (x : W) → B.close_s3 u ≡ (ok tt, x) → Q a x) (body v))
        → Ensures Q (with_s3_client B settings body w)
    unfolding with_s3_client async_with try_finally
    Ensures-with_s3_client Q h =
        Ensures-then_run Q (B.open_s3 (s3_client settings) w) _
          (λ _ v e. Ensures-after_body Q B.close_s3 (body v) (h v e))

    state_of_opened :
        (P : W → Type 0) (p : Result Raised (Unit {0}) × W)
        → P p.1
        → ((v : W) → P v → P (body v).1)
        → ((u : W) → P u → P (B.close_s3 u).1)
        → P (then_run p (λ _. try_finally body B.close_s3)).1
    unfolding try_finally
    state_of_opened P (err e, v) o b c = o
    state_of_opened P (ok tt, v) o b c =
        subst P (sym (state-after_body {R = Unit} (λ w. []) B.close_s3 (body v))) (c _ (b v o))

    -- Of what the opening, the body and the closing leave as it is, nothing is changed, whatever
    -- raises.
    pub with_s3_client-state :
        (P : W → Type 0)
        → P (B.open_s3 (s3_client settings) w).1
        → ((v : W) → P v → P (body v).1)
        → ((u : W) → P u → P (B.close_s3 u).1)
        → P (with_s3_client B settings body w).1
    unfolding with_s3_client async_with
    with_s3_client-state P o b c = state_of_opened P (B.open_s3 (s3_client settings) w) o b c
