-- ===== src/Facade/Artifacts/Archive.antt =====
-- What the two shapes of a result say of its documents.
use docling_serve_ray.Prelude.{
  ◌≡◌, refl, ap, ◌∙◌, Bool, true, false, Option, some, List, [], ◌∷◌, any, map, arith, Option-cases,
  inl, inr,
}
use docling_serve_ray.Text.{Text, codes, str_eq}
use docling_serve_ray.Json.{Json}
use docling_serve_ray.Facade.Schemas.{Bytes, ExportDocumentResponse, DocumentStatus, has_failures}
use docling_serve_ray.Facade.Artifacts.{
  Artifacts, set_field, set_fields, build_export_document_response, statuses, build_zip_archive,
}

-- A document without artifacts.
unfoldable pub is_missing : Text × Text × Artifacts → Bool
is_missing (filename, stem, []) = true
is_missing (filename, stem, a ∷ artifacts) = false

statuses-filenames :
    (documents : List (Text × Text × Artifacts))
    → map (λ s. s.filename) (statuses documents) ≡ map (λ d. d.0) documents
unfolding statuses
statuses-filenames [] = refl
statuses-filenames ((f, s, a) ∷ documents) = ap (λ fs. f ∷ fs) (statuses-filenames documents)

statuses-failed :
    (documents : List (Text × Text × Artifacts))
    → any (λ s. str_eq s.status (codes "failed")) (statuses documents) ≡ any is_missing documents
unfolding statuses is_missing str_eq
statuses-failed [] = refl
statuses-failed ((f, s, []) ∷ documents) = refl
statuses-failed ((f, s, a ∷ artifacts) ∷ documents) = statuses-failed documents

-- The archive of some documents names each of them once in its statuses, in order, and reports a
-- failure exactly if one of them has no artifacts.
pub build_zip_archive_lem :
    (dumps : List DocumentStatus → Bytes) (documents : List (Text × Text × Artifacts))
    → (map (λ s. s.filename) (build_zip_archive dumps documents).document_statuses
        ≡ map (λ d. d.0) documents)
      × (has_failures (build_zip_archive dumps documents) ≡ any is_missing documents)
unfolding build_zip_archive has_failures
build_zip_archive_lem dumps documents = (statuses-filenames documents, statuses-failed documents)

set_field-filename :
    (loads : Text → Option Json) (r r' : ExportDocumentResponse) (field_name text : Text)
    → set_field loads r field_name text ≡ some r'
    → r'.filename ≡ r.filename
unfolding set_field
set_field-filename loads r r' field_name text h = ground arith

set_fields-filename :
    (decode : Bytes → Option Text) (loads : Text → Option Json) (artifacts : Artifacts)
    (r r' : ExportDocumentResponse)
    → set_fields decode loads r artifacts ≡ some r'
    → r'.filename ≡ r.filename
unfolding set_fields
set_fields-filename decode loads [] r r' h = ground arith
set_fields-filename decode loads ((f, (ext, body)) ∷ artifacts) r r' h =
    elim (Option-cases (decode body)) [
      | inl undecoded ↦ ground arith
      | inr (text, decoded) ↦ elim (Option-cases (set_field loads r f text)) [
        | inl unset ↦ ground arith
        | inr (r1, set) ↦
            let rest : set_fields decode loads r1 artifacts ≡ some r' = ground arith in
            set_fields-filename decode loads artifacts r1 r' rest
            ∙ set_field-filename loads r r1 f text set
      ]
    ]

-- The inline document keeps the name that it is built with.
pub build_export_document_response-filename :
    (decode : Bytes → Option Text) (loads : Text → Option Json) (filename : Text)
    (artifacts : Artifacts) (r : ExportDocumentResponse)
    → build_export_document_response decode loads filename artifacts ≡ some r
    → r.filename ≡ filename
unfolding build_export_document_response
build_export_document_response-filename decode loads filename artifacts r h =
    set_fields-filename decode loads artifacts _ r h
