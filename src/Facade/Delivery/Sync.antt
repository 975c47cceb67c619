-- ===== src/Facade/Delivery/Sync.antt =====
-- The synchronous route from the form to the reply.
use docling_serve_ray.Prelude.{◌≡◌, ◌≢◌, refl, Bool, Option, some, List, []}
use docling_serve_ray.Text.{Text}
use docling_serve_ray.Dict.{Dict}
use docling_serve_ray.Json
use docling_serve_ray.Json.{Json}
use docling_serve_ray.Http.{Response}
use docling_serve_ray.Facade.Schemas.{ZipResult, ConvertDocumentResponse, Settings}
use docling_serve_ray.Facade.Options.{UploadFile, OptionValue, Form, parse_submission}
use docling_serve_ray.Facade.Backend.{Backend}
use docling_serve_ray.Facade.Stores.{View}
use docling_serve_ray.Facade.Resolve.{Resolved, passthrough, zipped, converted, Cleanup}
use docling_serve_ray.Facade.Routes.{Reply, relayed, archive, document, zip_headers}
use docling_serve_ray.Facade.Delivery.{IsDelivered}

-- What a reply shows of a result.
pub data IsReplyTo : Resolved → Reply → Type 0 where
  copied :
      (r : Response) → IsReplyTo (passthrough r) (relayed r.content r.status_code r.content_type)
  packed : (z : ZipResult) → IsReplyTo (zipped z) (archive z.content (zip_headers z))
  shown : (d : ConvertDocumentResponse) → IsReplyTo (converted d) (document d)

module _ {W : Type 0} (B : Backend W) (V : View W) (settings : Settings) where
  -- Redis is as it was at `w`.
  record Unchanged {A : Type 0} (w : W) (a : A) (v : W) : Type 0 where
    at : (j : Text) → V.stored v j ≡ V.stored w j

  unchanged : {A : Type 0} (w : W) (a : A) → Unchanged w a w
  unchanged w a = record { at = λ j. refl }

  -- A reply of the synchronous route to a form: the form has files, and the reply and the clean-up
  -- are those of a result for these files.
  pub record IsSyncReply (form : Form) (tenant_id : Option Text) (answer : Reply × List Cleanup)
      (v : W) : Type 0 where
    pub files : List UploadFile
    pub options : Dict OptionValue
    pub as_zip : Bool
    pub task_id : Text
    pub resolved_at : W
    pub result : Resolved
    pub parsed : parse_submission form ≡ some (files, options, as_zip)
    pub some_files : files ≢ []
    pub replied : IsReplyTo result answer.0
    pub is_delivered :
        IsDelivered B settings files as_zip task_id tenant_id resolved_at (result, answer.1)
