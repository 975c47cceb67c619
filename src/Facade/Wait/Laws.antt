-- ===== src/Facade/Wait/Laws.antt =====
-- How long `wait_for_completion` waits.
use docling_serve_ray.Prelude.{
  subst, ℕ, zero, suc, ◌+◌, ◌≤◌, ◌<◌, ◌≡◌, refl, sym, ◌∙◌, Bool, true, false, Option, none, some,
  ltb, arith, if◌then◌else◌, Bool-cases, inl, inr,
}
use docling_serve_ray.Result.{Result, ok, err}
use docling_serve_ray.Text.{Text, codes}
use docling_serve_ray.Json
use docling_serve_ray.Json.{Json, ShapeError}
use docling_serve_ray.Http.{Request, Response}
use docling_serve_ray.Facade.Schemas.{Settings}
use docling_serve_ray.Facade.Backend.{
  Action, Backend, Raised, http_exception, transport, unexpected, still_waiting, then_run,
  translated, translate_transport_errors, return, raise, expect, expect_shape,
}
use docling_serve_ray.Facade.Wait.{is_terminal, read_poll, poll, poll_loop, wait_for_completion}

-- The loop used up its bound.
unfoldable pub is_waiting : {A : Type 0} → Result Raised A → Bool
is_waiting (err still_waiting) = true
is_waiting r = false

-- A step that leaves the services alone, and does not run out of turns.
IsPure : {W A : Type 0} → Action W A → Type 0
IsPure {W} m = (w : W) → ((m w).1 ≡ w) × (is_waiting (m w).0 ≡ false)

bind-IsPure :
    {W A B : Type 0} (p : Result Raised A × W) (next : A → Action W B) (w : W)
    → (p.1 ≡ w) × (is_waiting p.0 ≡ false)
    → ((a : A) → IsPure (next a))
    → ((then_run p next).1 ≡ w) × (is_waiting (then_run p next).0 ≡ false)
unfolding IsPure is_waiting
bind-IsPure (ok a, v) next w (h, k) f = ((f a v).0 ∙ h, (f a v).1)
bind-IsPure (err still_waiting, v) next w (h, k) f = (h, k)
bind-IsPure (err transport, v) next w (h, k) f = (h, refl)
bind-IsPure (err unexpected, v) next w (h, k) f = (h, refl)
bind-IsPure (err (http_exception n), v) next w (h, k) f = (h, refl)

expect-IsPure : {A : Type 0} (W : Type 0) (o : Option A) → IsPure (expect {W = W} o)
unfolding IsPure is_waiting
expect-IsPure W none w = (refl, refl)
expect-IsPure W (some a) w = (refl, refl)

expect_shape-IsPure :
    {A : Type 0} (W : Type 0) (r : Result ShapeError A) → IsPure (expect_shape {W = W} r)
unfolding IsPure is_waiting
expect_shape-IsPure W (ok a) w = (refl, refl)
expect_shape-IsPure W (err e) w = (refl, refl)

checked-IsPure :
    {A : Type 0} (W : Type 0) (b : Bool) (a : A)
    → IsPure (if◌then◌else◌ {A = Action W A} b (return a) (raise transport))
unfolding IsPure is_waiting
checked-IsPure W true a w = (refl, refl)
checked-IsPure W false a w = (refl, refl)

-- A request takes time: where its response arrives, the clock has advanced by at least a
-- millisecond. It raises no `still_waiting`, which is the loop's own.
pub record IsTicking {W : Type 0} (B : Backend W) : Type 0 where
  pub advances :
      (q : Request) (r : Response) (w v : W)
      → B.send q w ≡ (ok r, v)
      → B.monotonic w < B.monotonic v
  pub ends : (q : Request) (w : W) → is_waiting (B.send q w).0 ≡ false

module _ {W : Type 0} (B : Backend W) (settings : Settings) where
  read_poll-IsPure : (r : Response) → IsPure (read_poll B settings r)
  unfolding read_poll IsPure
  read_poll-IsPure r w =
      bind-IsPure ((if B.is_success r then return r else raise transport) w) _ w
        (checked-IsPure W (B.is_success r) r w)
        λ checked v.
          bind-IsPure (expect checked.json v) _ v (expect-IsPure W checked.json v) λ body u.
            bind-IsPure (expect_shape (Json.index (codes "task_status") body) u) _ u
              (expect_shape-IsPure W (Json.index (codes "task_status") body) u)
              λ status. expect-IsPure W (is_terminal status)

-- How a wait ends: with a finished task, with no finished task once the deadline is reached, or with
-- an exception; never for want of turns.
pub data IsEnded {W : Type 0} (B : Backend W) (deadline : ℕ) : Result Raised Bool × W → Type 0 where
  finished : (w : W) → IsEnded B deadline (ok true, w)
  timed_out : (w : W) → deadline ≤ B.monotonic w → IsEnded B deadline (ok false, w)
  raised :
      (e : Raised) (w : W) → is_waiting {A = Bool} (err e) ≡ false → IsEnded B deadline (err e, w)

module _ {W : Type 0} (B : Backend W) (settings : Settings) where
  turn-IsEnded :
      (deadline : ℕ) (q : Result Raised Bool × W) (next : Action W Bool)
      → is_waiting q.0 ≡ false
      → IsEnded B deadline (next q.1)
      → IsEnded B deadline (then_run q (λ f. if f then return true else next))
  turn-IsEnded deadline (ok true, w) next h k = finished w
  turn-IsEnded deadline (ok false, w) next h k = k
  turn-IsEnded deadline (err e, w) next h k = raised e w h

  -- A turn that begins with this outcome of the request.
  sent-IsEnded :
      (deadline : ℕ) (p : Result Raised Response × W) (next : Action W Bool)
      → is_waiting p.0 ≡ false
      → ((r : Response) (v : W) → p ≡ (ok r, v) → IsEnded B deadline (next v))
      → IsEnded B deadline
          (then_run (then_run p (read_poll B settings)) (λ f. if f then return true else next))
  unfolding IsPure is_waiting
  sent-IsEnded deadline (ok r, v) next h k =
      let pure = read_poll-IsPure B settings r v in
      turn-IsEnded deadline (read_poll B settings r v) next pure.1
        (subst (λ u. IsEnded B deadline (next u)) (sym pure.0) (k r v refl))
  sent-IsEnded deadline (err e, v) next h k = raised e v h

  poll_loop-IsEnded :
      (task_id : Text) (tenant_id : Option Text) (deadline : ℕ)
      → IsTicking B
      → (bound : ℕ) (w : W) → deadline ≤ B.monotonic w + bound
      → IsEnded B deadline (poll_loop B settings bound task_id tenant_id deadline w)
  unfolding poll_loop poll
  poll_loop-IsEnded task_id tenant_id deadline t zero w h =
      let late : ltb (B.monotonic w) deadline ≡ false = ground arith in
      rw late (timed_out w (omega arith))
  poll_loop-IsEnded task_id tenant_id deadline t (suc bound) w h =
      elim (Bool-cases (ltb (B.monotonic w) deadline)) [
        | inr late ↦ rw late (timed_out w (ground arith))
        | inl early ↦ rw early (
            sent-IsEnded deadline _ _ (t.ends _ w) λ r v e.
              poll_loop-IsEnded task_id tenant_id deadline t bound v
                (let ticked = t.advances _ r w v e in omega arith))
      ]

  translated-IsEnded :
      (deadline : ℕ) (p : Result Raised Bool × W)
      → IsEnded B deadline p
      → IsEnded B deadline (translated p)
  unfolding is_waiting
  translated-IsEnded deadline (ok b, w) h = h
  translated-IsEnded deadline (err transport, w) h = raised (http_exception 502) w refl
  translated-IsEnded deadline (err (http_exception n), w) h = h
  translated-IsEnded deadline (err unexpected, w) h = h
  translated-IsEnded deadline (err still_waiting, w) h = h

  -- If every request takes at least a millisecond and the bound is at least the longest wait in
  -- milliseconds, then waiting for a task ends: it finds the task finished, or finds it unfinished
  -- when the longest wait has passed since it began, or raises an exception of a request.
  pub wait_for_completion-IsEnded :
      (bound : ℕ) (task_id : Text) (tenant_id : Option Text) (w : W)
      → IsTicking B
      → settings.max_sync_wait ≤ bound
      → IsEnded B
          (B.monotonic w + settings.max_sync_wait)
          (wait_for_completion B settings bound task_id tenant_id w)
  unfolding wait_for_completion translate_transport_errors
  wait_for_completion-IsEnded bound task_id tenant_id w t h =
      translated-IsEnded (B.monotonic w + settings.max_sync_wait) _ (
        poll_loop-IsEnded task_id tenant_id (B.monotonic w + settings.max_sync_wait) t bound w
          (omega arith))
