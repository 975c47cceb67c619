-- ===== src/Scripts/ChunkChainSpike/Polling.antt =====
-- The script's polling ends once the task does.
use docling_serve_ray.Prelude.{
  ℕ, zero, suc, ◌<◌, ◌≡◌, ◌≢◌, ◌⊎◌, inl, inr, refl, ◌∙◌, true, false, some, ◌++◌, arith,
}
use docling_serve_ray.Text.{Text, codes, str_eq}
use docling_serve_ray.Text.Laws.{str_eq_iff}
use docling_serve_ray.Result.{ok}
use docling_serve_ray.Json
use docling_serve_ray.Json.{Json}
use docling_serve_ray.Http.{Response}
use docling_serve_ray.Scripts.SendPdf.{not_terminal}
use docling_serve_ray.Scripts.ChunkChainSpike.{SpikeTools, poll_until}

module _ {W : Type 0} (tools : SpikeTools W) where
  -- docling-serve finds the task unfinished on `n` polls and finished on the next one, with the
  -- status `s`, which is "success" or "failure"; every other text is a status of an unfinished task.
  pub data Reaches (task_id : Text) : ℕ → W → Json → W → Type 0 where
    now :
        (w v : W) (r : Response) (j s : Json)
        → tools.get (codes "/v1/status/poll/" ++ task_id) (some 5) w ≡ (ok r, v)
        → r.json ≡ some j
        → Json.index (codes "task_status") j ≡ ok s
        → (s ≡ Json.str (codes "success")) ⊎ (s ≡ Json.str (codes "failure"))
        → Reaches task_id 0 w s v
    later :
        (n : ℕ) (w v u : W) (r : Response) (j t : Json) (s : Text)
        → tools.get (codes "/v1/status/poll/" ++ task_id) (some 5) w ≡ (ok r, v)
        → r.json ≡ some j
        → Json.index (codes "task_status") j ≡ ok (Json.str s)
        → s ≢ codes "success"
        → s ≢ codes "failure"
        → Reaches task_id n v t u
        → Reaches task_id (suc n) w t u

  terminal_lem :
      (s : Json)
      → (s ≡ Json.str (codes "success")) ⊎ (s ≡ Json.str (codes "failure"))
      → not_terminal s ≡ some false
  unfolding not_terminal str_eq
  terminal_lem s (inl e) = rw e refl
  terminal_lem s (inr e) = rw e refl

  unfinished_lem :
      (s : Text) → s ≢ codes "success" → s ≢ codes "failure" → not_terminal (Json.str s) ≡ some true
  unfolding not_terminal
  unfinished_lem s h k =
      ground (arith, str_eq_iff s (codes "success"), str_eq_iff s (codes "failure"))

  goes_on :
      (task_id : Text) (turns : ℕ) (w u : W) (r : Response) (j s : Json)
      → tools.get (codes "/v1/status/poll/" ++ task_id) (some 5) w ≡ (ok r, u)
      → r.json ≡ some j
      → Json.index (codes "task_status") j ≡ ok s
      → not_terminal s ≡ some true
      → poll_until tools (suc turns) task_id w ≡ poll_until tools turns task_id u
  unfolding poll_until
  goes_on task_id turns w u r j s got parsed indexed unfinished =
      rw (got, parsed, indexed, unfinished) refl

  -- The polling loop ends once the task does, on any bound that is larger than the number of polls
  -- that find it unfinished: with the final status, after exactly those polls and one more.
  pub poll_until-Reaches :
      (task_id : Text) (n turns : ℕ) (w v : W) (s : Json)
      → Reaches task_id n w s v
      → n < turns
      → poll_until tools turns task_id w ≡ (ok (some s), v)
  unfolding poll_until
  poll_until-Reaches task_id n zero w v s h l = absurd (omega (arith, l))
  poll_until-Reaches task_id zero (suc turns) w v s (now _ _ r j _ got parsed indexed ended) l =
      rw (got, parsed, indexed, terminal_lem s ended) refl
  poll_until-Reaches task_id (suc n) (suc turns) w v s
        (later _ _ u _ r j _ t got parsed indexed no_success no_failure rest) l =
      goes_on task_id turns _ u r j (Json.str t) got parsed indexed
        (unfinished_lem t no_success no_failure)
      ∙ poll_until-Reaches task_id n turns u v s rest (omega (arith, l))
