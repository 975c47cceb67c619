-- ===== src/Facade/History/Origins.antt =====
-- What holds after every history: an open task was submitted.
use docling_serve_ray.Prelude.{
  ◌≡◌, ap, sym, ◌∙◌, ◌⊎◌, inl, inr, Option, none, some, List, [], ◌∷◌, ◌++◌, arith, if◌then◌else◌,
  Bool-cases,
}
use docling_serve_ray.Result.{ok}
use docling_serve_ray.Text.{Text, codes, str_eq}
use docling_serve_ray.Text.Laws.{str_eq_iff}
use docling_serve_ray.Http.{Response, get}
use docling_serve_ray.Facade.Schemas.{TaskRecord, Settings}
use docling_serve_ray.Facade.Backend.{Backend}
use docling_serve_ray.Facade.Stores.{View, IsRedis, IsObjectStore, IsPydantic}
use docling_serve_ray.Facade.Submit.{facade_headers}
use docling_serve_ray.Facade.Resolve.{Resolved, passthrough, Cleanup}
use docling_serve_ray.Facade.Resolve.Rebuilt.{IsReconstructed}
use docling_serve_ray.Facade.Resolve.Laws.{MayRelay}
use docling_serve_ray.Facade.History.{
  Tasks, Label, open_task, close_task, keep_tasks, Moves, tasks, Operation, label, operation-Moves,
}

-- A history from a Redis without tasks.
pub data History {W : Type 0} (B : Backend W) (V : View W) (settings : Settings) : W → Type 0 where
  start : (w : W) → ((id : Text) → tasks B V w id ≡ none) → History B V settings w
  next : (w v : W) → History B V settings w → Operation B settings w v → History B V settings v

-- The labels of its operations, the latest first.
unfoldable pub labels :
    {W : Type 0} {B : Backend W} {V : View W} {settings : Settings} {w : W}
    → History B V settings w
    → List Label
unfolding label
labels (start w h) = []
labels (next w v past o) = label o ∷ labels past

abbrev pub Occurs : Label → List Label → Type 0
Occurs l [] = ⊥
Occurs l (x ∷ xs) = (x ≡ l) ⊎ Occurs l xs

-- Every open task was opened with the files and the choice that its record holds.
abbrev pub AllOpened : Tasks → List Label → Type 0
AllOpened f ls =
    (id : Text) (r : TaskRecord) → f id ≡ some r → Occurs (open_task id r.filenames r.as_zip) ls

Moves-AllOpened :
    (l : Label) (f g : Tasks) (ls : List Label)
    → Moves l f g
    → AllOpened f ls
    → AllOpened g (l ∷ ls)
Moves-AllOpened (open_task id names as_zip) f g ls (s, named, asked, h) all j r e =
    elim (Bool-cases (str_eq id j)) [
      | inl same ↦
          let at : g j ≡ some s = h j ∙ ap (λ b. if b then some s else f j) same in
          let is_r : s ≡ r = cc (at, e) in inl (cc ((str_eq_iff id j).0 same, named, asked, is_r))
      | inr other ↦ inr (all j r (ground (arith, h j)))
    ]
Moves-AllOpened (close_task id) f g ls h all j r e = elim (Bool-cases (str_eq id j)) [
  | inl same ↦ absurd (ground (arith, h j))
  | inr other ↦ inr (all j r (ground (arith, h j)))
]
Moves-AllOpened keep_tasks f g ls h all j r e = inr (all j r (sym (h j) ∙ e))

module _ {W : Type 0} (B : Backend W) (V : View W) (settings : Settings) (redis : IsRedis B V)
    (pydantic : IsPydantic B) (store : IsObjectStore B V) where
  -- After every history of submissions, results and clean-ups that begins without tasks, every task
  -- in Redis was submitted in it under its id, with the files and the choice of an archive that its
  -- record holds.
  pub open_task-Occurs :
      (w : W) (past : History B V settings w) (id : Text) (r : TaskRecord)
      → tasks B V w id ≡ some r
      → Occurs (open_task id r.filenames r.as_zip) (labels past)
  unfolding labels
  open_task-Occurs w (start u none_yet) id r e = absurd (ground (arith, none_yet id))
  open_task-Occurs w (next u v past o) id r e =
      Moves-AllOpened (label o) (tasks B V u) (tasks B V v) (labels past)
        (operation-Moves B V settings redis pydantic store u v o) (open_task-Occurs u past) id r e

  -- A result for a task at `w`, after every such history: docling-serve's response to a request for
  -- that task's result with no clean-up, or one that is reconstructed for a record whose files were
  -- submitted in the history under the task's id.
  pub data IsOwed (ls : List Label) (task_id : Text) (tenant_id : Option Text) (w : W)
      : Resolved × List Cleanup → Type 0 where
    passed :
        (r : Response) (sent_at : W)
        → (B.send
            (get (codes "/v1/result/" ++ task_id) (facade_headers settings tenant_id) none)
            sent_at).0
          ≡ ok r
        → MayRelay B settings task_id w r
        → IsOwed ls task_id tenant_id w (passthrough r, [])
    owed :
        (stored : TaskRecord) (result : Resolved)
        → Occurs (open_task task_id stored.filenames stored.as_zip) ls
        → IsReconstructed B settings stored result
        → IsOwed ls task_id tenant_id w
            (result, record { task_id = task_id; task_record = stored } ∷ [])
