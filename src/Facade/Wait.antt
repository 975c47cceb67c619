-- ===== src/Facade/Wait.antt =====
-- `wait_for_completion` of facade/service.py. `bound` limits the number of polls.
pub mod Laws
use docling_serve_ray.Prelude.{
  ℕ, zero, suc, ◌+◌, Bool, true, false, ◌||◌, Option, none, some, List, [], ◌∷◌, ◌++◌, ltb,
  if◌then◌else◌,
}
use docling_serve_ray.Text.{Text, codes, str_eq}
use docling_serve_ray.Json
use docling_serve_ray.Json.{Json}
use docling_serve_ray.Http.{Request, Response, get}
use docling_serve_ray.Facade.Schemas.{Settings}
use docling_serve_ray.Facade.Backend.{
  Action, Backend, transport, still_waiting, ◌>>=◌, return, raise, expect, expect_shape,
  translate_transport_errors,
}
use docling_serve_ray.Facade.Submit.{facade_headers}

-- `value in {"success", "failure"}`; a list or a dict has no hash, so that the test raises.
unfoldable pub is_terminal : Json → Option Bool
is_terminal (Json.str s) = some (str_eq s (codes "success") || str_eq s (codes "failure"))
is_terminal (Json.arr js) = none
is_terminal (Json.obj fs) = none
is_terminal _ = some false

module _ {W : Type 0} (B : Backend W) (settings : Settings) where
  -- What follows the response to a poll.
  unfoldable pub read_poll : Response → Action W Bool
  unfolding is_terminal
  read_poll r = do
    checked ← if B.is_success r then return r else raise transport
    body ← expect checked.json
    status ← expect_shape (Json.index (codes "task_status") body)
    expect (is_terminal status)

  -- One turn of the loop: whether the task is finished.
  unfoldable pub poll : Text → Option Text → Action W Bool
  unfolding facade_headers read_poll
  poll task_id tenant_id = do
    r ← B.send (
        get (codes "/v1/status/poll/" ++ task_id) (facade_headers settings tenant_id)
          (some settings.sync_poll_interval))
    read_poll r

  unfoldable pub poll_loop : ℕ → Text → Option Text → ℕ → Action W Bool
  unfolding poll
  poll_loop zero task_id tenant_id deadline w =
      if ltb (B.monotonic w) deadline then raise still_waiting w else return false w
  poll_loop (suc bound) task_id tenant_id deadline w =
      let turn : Action W Bool = poll task_id tenant_id >>= λ finished.
      if finished then return true else poll_loop bound task_id tenant_id deadline in
      if ltb (B.monotonic w) deadline then turn w else return false w

  unfoldable pub wait_for_completion : ℕ → Text → Option Text → Action W Bool
  unfolding poll_loop translate_transport_errors
  wait_for_completion bound task_id tenant_id =
      translate_transport_errors
        (λ w. poll_loop bound task_id tenant_id (B.monotonic w + settings.max_sync_wait) w)
