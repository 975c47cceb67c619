-- ===== src/Orchestration/Activities/Laws.antt =====
-- How the activities classify what docling-serve answers.
use docling_serve_ray.Prelude.{
  ◌≤◌, ◌<◌, ◌≡◌, ◌≢◌, ◌↔◌, ◌⊎◌, inl, inr, true, false, none, some, arith, Option-cases, ◌++◌,
}
use docling_serve_ray.Text.{Text, codes}
use docling_serve_ray.Text.Laws.{str_eq_iff}
use docling_serve_ray.Result.{ok, err, Result-cases}
use docling_serve_ray.Json
use docling_serve_ray.Json.{Json}
use docling_serve_ray.Http.{Request, get, Response, IsHttpx, HttpResult, response}
use docling_serve_ray.Orchestration.Models.{
  queue_full, upstream_error, submit_rejected, task_lost, TaskStatus, success, failure,
  TaskCompleted, Settings,
}
use docling_serve_ray.Orchestration.Client.{tenant_headers}
use docling_serve_ray.Orchestration.Activities.{
  application_error, raise_for_upstream_status, check_task, terminal_status,
}

-- Exactly the status 429 raises the retryable QueueFull, exactly 500 to 599 the retryable
-- UpstreamError, exactly the other statuses from 400 to 499 the final SubmitRejected, and exactly
-- the statuses outside 400 to 599 raise nothing.
pub raise_for_upstream_status_lem :
    (r : Response)
    → IsHttpx r
    → ((raise_for_upstream_status r ≡ err (application_error queue_full false))
        ↔ (r.status_code ≡ 429))
      × ((raise_for_upstream_status r ≡ err (application_error upstream_error false))
          ↔ ((500 ≤ r.status_code) × (r.status_code ≤ 599)))
      × ((raise_for_upstream_status r ≡ err (application_error submit_rejected true))
          ↔ ((400 ≤ r.status_code) × (r.status_code ≤ 499) × (r.status_code ≢ 429)))
      × ((raise_for_upstream_status r ≡ ok tt) ↔ ((r.status_code < 400) ⊎ (600 ≤ r.status_code)))
unfolding raise_for_upstream_status
raise_for_upstream_status_lem r h = ground (arith, h.error_iff, h.server_error_iff)

-- The value of a `TaskStatus` member.
abbrev pub status_name : TaskStatus → Text
status_name success = codes "success"
status_name failure = codes "failure"

terminal_status-name :
    (s : Json) (t : TaskStatus) → terminal_status s ≡ ok (some t) → s ≡ Json.str (status_name t)
unfolding terminal_status
terminal_status-name (Json.str s) success h =
    ground (arith, str_eq_iff s (codes "success"), str_eq_iff s (codes "failure"))
terminal_status-name (Json.str s) failure h =
    ground (arith, str_eq_iff s (codes "success"), str_eq_iff s (codes "failure"))
terminal_status-name _ t h = cc

module _ (settings : Settings) (http : Request → HttpResult) (task_id : Text) where
  abbrev status_request : Request
  status_request = get (codes "/v1/status/poll/" ++ task_id) (tenant_headers settings) none

  -- TaskLost is raised exactly where the answer is 404.
  pub check_task-lost_iff :
      (r : Response)
      → http status_request ≡ response r
      → IsHttpx r
      → (check_task settings http task_id ≡ err (application_error task_lost true))
        ↔ (r.status_code ≡ 404)
  unfolding check_task
  check_task-lost_iff r e h = rw e (ground arith)

  -- A finished task is reported under the id that was asked for, with the status that stands in the
  -- answer's "task_status", and only where the answer is no HTTP error.
  pub check_task-completed :
      (r : Response) (c : TaskCompleted)
      → http status_request ≡ response r
      → check_task settings http task_id ≡ ok (some c)
      → (c.task_id ≡ task_id)
        × (r.is_error ≡ false)
        × (j : Json) × (r.json ≡ some j)
        × (Json.index (codes "task_status") j ≡ ok (Json.str (status_name c.task_status)))
  unfolding check_task
  check_task-completed r c e h = elim (Option-cases r.json) [
    | inl missing ↦ absurd (ground (arith, missing))
    | inr (j, found) ↦ elim (Result-cases (Json.index (codes "task_status") j)) [
      | inl (s, at_key) ↦ (
        ground arith,
        ground arith,
        j,
        found,
        ground (arith, terminal_status-name s c.task_status),
      )
      | inr (x, no_key) ↦ absurd (ground (arith, found, no_key))
    ]
  ]
