-- ===== src/Scripts/SendPdf/Laws.antt =====
-- What the script has done when it shows a result.
use docling_serve_ray.Prelude.{◌≡◌, true, none, some, List, [], ◌∷◌, ◌++◌}
use docling_serve_ray.Text.{Text, codes}
use docling_serve_ray.Result.{ok}
use docling_serve_ray.Json
use docling_serve_ray.Json.{Json}
use docling_serve_ray.Http.{Response, get, post}
use docling_serve_ray.Scripts.SendPdf.{Tools, waits, poll_once, base_url, batch_headers, batch_body}

module _ {W : Type 0} (tools : Tools W) where
  -- From the polled status to the payload that is shown, for one task.
  pub record IsShown (task_id : Text) (final : Json) (polled_at : W) (payload : Json) : Type 0 where
    pub succeeded : Json.index (codes "task_status") final ≡ ok (Json.str (codes "success"))
    pub response : Response
    pub after : W
    pub fetched :
        tools.send (get (base_url ++ (codes "/v1/result/" ++ task_id)) batch_headers none) polled_at
        ≡ (ok response, after)
    pub good : tools.is_success response ≡ true
    pub parsed : response.json ≡ some payload

  -- Each of the files was uploaded to the input bucket, under its name behind "incoming/".
  pub data Uploads : List Text → W → W → Type 0 where
    all_uploaded : (w : W) → Uploads [] w w
    one_uploaded :
        (name : Text) (names : List Text) (w u v : W)
        → tools.upload_file name (codes "docling-input") (codes "incoming/" ++ name) w ≡ (ok tt, u)
        → Uploads names u v
        → Uploads (name ∷ names) w v

  -- A whole run that shows a payload: the uploads, the submission, the end of the polling for the
  -- task that the submission returned, and what was shown of it.
  pub record IsConverted (w : W) (payload : Json) : Type 0 where
    pub names : List Text
    pub uploaded_at : W
    pub submitted : Response
    pub submitted_at : W
    pub task : Json
    pub id : Json
    pub task_id : Text
    pub final : Json
    pub polled_at : W
    pub listed : tools.pdf_names w ≡ names
    pub uploaded : Uploads names w uploaded_at
    pub posted :
        tools.send
          (post (base_url ++ codes "/v1/convert/source/batch") batch_headers batch_body)
          uploaded_at
        ≡ (ok submitted, submitted_at)
    pub answered : submitted.json ≡ some task
    pub indexed : Json.index (codes "task_id") task ≡ ok id
    pub named : Json.as_text id ≡ ok task_id
    pub polled :
        tools.retry_while (waits tools) (poll_once tools task_id) submitted_at
        ≡ (ok final, polled_at)
    pub result : IsShown task_id final polled_at payload
