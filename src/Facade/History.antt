-- ===== src/Facade/History.antt =====
-- Histories of the facade: what its operations do to the records in Redis, seen as a table of open
-- tasks. A submission opens a task, a clean-up closes one, and a result leaves the table alone.
pub mod Origins
use docling_serve_ray.Prelude.{
  ◌≡◌, refl, ap, sym, ◌∙◌, Bool, true, false, Option, none, some, List, [], ◌∷◌, ◌++◌, arith,
  if◌then◌else◌, Bool-cases, inl, inr, subst,
}
use docling_serve_ray.Result.{Result, ok, err}
use docling_serve_ray.Text.{Text, codes, str_eq}
use docling_serve_ray.Text.Laws.{str_eq_iff}
use docling_serve_ray.Dict.{Dict}
use docling_serve_ray.Facade.Schemas.{TaskRecord, TaskStatusResponse, Settings}
use docling_serve_ray.Facade.Options.{UploadFile, OptionValue}
use docling_serve_ray.Facade.Backend.{Backend}
use docling_serve_ray.Facade.Stores.{View, IsRedis, IsObjectStore, IsPydantic}
use docling_serve_ray.Facade.Submit.{record_key, submit_file_upload}
use docling_serve_ray.Facade.Submit.Stored.{names_of, IsStored, submit_file_upload-IsStored}
use docling_serve_ray.Facade.Resolve.{
  Resolved, Cleanup, resolve_result, cleanup_steps, cleanup_task_storage,
}
use docling_serve_ray.Facade.Resolve.Reading.{resolve_result-IsUnchanged}
use docling_serve_ray.Facade.Resolve.Cleaning.{IsCleaned, cleanup_task_storage-IsCleaned}

-- The abstract table: the open tasks, by id, with their records.
abbrev pub Tasks : Type 0
Tasks = Text → Option TaskRecord

-- What can happen to the table.
pub data Label : Type 0 where
  open_task : Text → List Text → Bool → Label
  close_task : Text → Label
  keep_tasks : Label

-- The abstract specification: a task is opened with a record of its files and of the choice of an
-- archive, a task is closed, or nothing happens.
abbrev pub Moves : Label → Tasks → Tasks → Type 0
Moves (open_task id names as_zip) f g =
    (r : TaskRecord) × (r.filenames ≡ names)
    × (r.as_zip ≡ as_zip)
    × ((j : Text) → g j ≡ (if str_eq id j then some r else f j))
Moves (close_task id) f g = (j : Text) → g j ≡ (if str_eq id j then none else f j)
Moves keep_tasks f g = (j : Text) → g j ≡ f j

abbrev pub read_record : {W : Type 0} → Backend W → Option Text → Option TaskRecord
read_record B none = none
read_record B (some raw) = B.model_validate_json raw

module _ {W : Type 0} (B : Backend W) (V : View W) where
  -- The table that Redis holds.
  unfoldable pub tasks : W → Tasks
  tasks w id = read_record B (V.stored w (record_key id))

-- What the facade does, each operation where it returns.
pub data Operation {W : Type 0} (B : Backend W) (settings : Settings) (w v : W) : Type 0 where
  submitted :
      (files : List UploadFile) (options : Dict OptionValue) (as_zip : Bool)
      (tenant_id : Option Text) (t : TaskStatusResponse)
      → submit_file_upload B settings files options as_zip tenant_id w ≡ (ok t, v)
      → Operation B settings w v
  resolved :
      (task_id : Text) (tenant_id : Option Text) (result : Resolved × List Cleanup)
      → resolve_result B settings task_id tenant_id w ≡ (ok result, v)
      → Operation B settings w v
  cleaned : (c : Cleanup) → cleanup_steps B settings c w ≡ (ok tt, v) → Operation B settings w v

-- Its label in the specification.
unfoldable pub label :
    {W : Type 0} {B : Backend W} {settings : Settings} {w v : W} → Operation B settings w v → Label
label (submitted files options as_zip tenant_id t h) = open_task t.task_id (names_of files) as_zip
label (resolved task_id tenant_id result h) = keep_tasks
label (cleaned c h) = close_task c.task_id

str_eq_append : (p s t : Text) → str_eq (p ++ s) (p ++ t) ≡ str_eq s t
unfolding str_eq
str_eq_append [] s t = refl
str_eq_append (c ∷ p) s t = ground (arith, str_eq_append p s t)

-- Tasks have different keys.
str_eq-record_key : (i j : Text) → str_eq (record_key i) (record_key j) ≡ str_eq i j
unfolding record_key
str_eq-record_key i j = str_eq_append (codes "facade:task:") i j

module _ {W : Type 0} (B : Backend W) (V : View W) (settings : Settings) where
  read_if :
      (b : Bool) (o p : Option Text)
      → read_record B (if b then o else p) ≡ (if b then read_record B o else read_record B p)
  read_if true o p = refl
  read_if false o p = refl

  -- The table after a value was put in or taken away.
  tasks_at :
      (id : Text) (o : Option Text) (w v : W)
      → ((k : Text) → V.stored v k ≡ (if str_eq (record_key id) k then o else V.stored w k))
      → (j : Text) → tasks B V v j ≡ (if str_eq id j then read_record B o else tasks B V w j)
  unfolding tasks
  tasks_at id o w v h j =
      let before = V.stored w (record_key j) in
      ap (read_record B)
        (h (record_key j) ∙ ap (λ b. if b then o else before) (str_eq-record_key id j))
      ∙ read_if (str_eq id j) o before

  module _ (redis : IsRedis B V) (pydantic : IsPydantic B) where
    opened_at :
        (files : List UploadFile) (as_zip : Bool) (tenant_id : Option Text) (t : TaskStatusResponse)
        (w v : W) (s : IsStored B V files as_zip tenant_id w t v) (j : Text)
        → tasks B V v j ≡ (if str_eq t.task_id j then some s.stored else tasks B V w j)
    opened_at files as_zip tenant_id t w v s j =
        tasks_at t.task_id (some (B.model_dump_json s.stored)) w v s.at j
        ∙ ap (λ o. if str_eq t.task_id j then o else tasks B V w j)
            (pydantic.validate-dump s.stored)

    closed_at :
        (c : Cleanup) (w v : W) (store : IsObjectStore B V)
        → cleanup_steps B settings c w ≡ (ok tt, v)
        → (j : Text) → tasks B V v j ≡ (if str_eq c.task_id j then none else tasks B V w j)
    unfolding cleanup_task_storage
    closed_at c w v store h j =
        let cleaned =
          cleanup_task_storage-IsCleaned B V store settings redis c w (ap (λ p. p.0) h) in
        tasks_at c.task_id none w v (λ k. sym (ap (λ p. V.stored p.1 k) h) ∙ cleaned.forgotten k) j

    kept_at :
        (task_id : Text) (tenant_id : Option Text) (result : Resolved × List Cleanup) (w v : W)
        → resolve_result B settings task_id tenant_id w ≡ (ok result, v)
        → (j : Text) → tasks B V v j ≡ tasks B V w j
    unfolding tasks
    kept_at task_id tenant_id result w v h j = ap (read_record B) (
        resolve_result-IsUnchanged B V settings redis task_id tenant_id w v result h (record_key j))

    -- The facade refines the table: seen through Redis, a submission opens the task that it returns
    -- with the names of its files and the choice of an archive, a clean-up closes its task, and a
    -- result leaves every task as it is.
    pub operation-Moves :
        (store : IsObjectStore B V) (w v : W) (o : Operation B settings w v)
        → Moves (label o) (tasks B V w) (tasks B V v)
    unfolding label
    operation-Moves store w v (submitted files options as_zip tenant_id t h) =
        let s =
          submit_file_upload-IsStored B V settings redis pydantic files options as_zip tenant_id w v
            t h in
        (s.stored, s.filenames, s.as_asked, opened_at files as_zip tenant_id t w v s)
    operation-Moves store w v (resolved task_id tenant_id result h) =
        kept_at task_id tenant_id result w v h
    operation-Moves store w v (cleaned c h) = closed_at c w v store h
