-- ===== src/Facade/Resolve/Rebuilt.antt =====
-- What `reconstruct` builds of the artifacts that it read.
use docling_serve_ray.Prelude.{
  ◌++◌, subst, ◌≡◌, refl, sym, ap, ◌∙◌, true, false, ◌||◌, Option, none, some, List, [], ◌∷◌, map,
  ltb, length, arith, Bool-cases, inl, inr,
}
use docling_serve_ray.Result.{Result, ok, err}
use docling_serve_ray.Text.{Text, codes, first_part}
use docling_serve_ray.Dict.{Dict, get_or}
use docling_serve_ray.Json
use docling_serve_ray.Json.{Json, ShapeError}
use docling_serve_ray.Facade.Schemas.{TaskRecord, ConvertDocumentResponse, ZipResult, Settings}
use docling_serve_ray.Facade.Artifacts.{
  Artifacts, build_export_document_response, build_zip_archive,
}
use docling_serve_ray.Facade.Artifacts.Archive.{
  build_zip_archive_lem, build_export_document_response-filename,
}
use docling_serve_ray.Facade.Backend.{
  Action, Backend, Raised, http_exception, transport, unexpected, still_waiting, expect,
  expect_shape, then_run, translated,
}
use docling_serve_ray.Facade.Resolve.{
  Resolved, converted, zipped, documents, build_inline, build_result, expect_head,
  processing_time_of,
}
use docling_serve_ray.Facade.Resolve.Fetched.{IsFetched}

-- What holds of the value, where a coroutine returns one.
unfoldable pub Returns : {A : Type 0} → (A → Type 0) → Result Raised A → Type 0
Returns Q (ok a) = Q a
Returns Q (err e) = Unit

module _ {W A B : Type 0} where
  -- A step of a coroutine, with what it returned.
  pub then_run-Returns :
      (Q : B → Type 0) (p : Result Raised A × W) (next : A → Action W B)
      → ((a : A) (w : W) → p.0 ≡ ok a → Returns Q (next a w).0)
      → Returns Q (then_run p next).0
  unfolding Returns
  then_run-Returns Q (ok a, w) next h = h a w refl
  then_run-Returns Q (err e, w) next h = tt

pub returned-Returns :
    {A : Type 0} (Q : A → Type 0) {r : Result Raised A} {a : A} → r ≡ ok a → Returns Q r → Q a
unfolding Returns
returned-Returns Q h q = subst (Returns Q) h q

pub translated-Returns :
    {W A : Type 0} (Q : A → Type 0) (p : Result Raised A × W)
    → Returns Q p.0
    → Returns Q (translated p).0
unfolding Returns
translated-Returns Q (ok a, w) h = h
translated-Returns Q (err transport, w) h = tt
translated-Returns Q (err (http_exception n), w) h = tt
translated-Returns Q (err unexpected, w) h = tt
translated-Returns Q (err still_waiting, w) h = tt

pub expect-Returns :
    {W A : Type 0} (o : Option A) (a : A) (w : W) → (expect o w).0 ≡ ok a → o ≡ some a
expect-Returns none a w h = ground arith
expect-Returns (some b) a w h = ground arith

pub expect_shape-Returns :
    {W A : Type 0} (r : Result ShapeError A) (a : A) (w : W)
    → (expect_shape r w).0 ≡ ok a
    → r ≡ ok a
expect_shape-Returns (ok b) a w h = ground arith
expect_shape-Returns (err e) a w h = ground arith

-- The files of a record, each with its stem and the artifacts that are grouped under the stem.
abbrev pub files_of : TaskRecord → Dict Artifacts → List (Text × Text × Artifacts)
files_of stored grouped =
    map (λ f. (f, first_part b'.' f, get_or (first_part b'.' f) grouped [])) stored.filenames

-- A reconstructed result of a task. It is built of the artifacts that the output bucket has under the
-- prefix of the record's own request: an archive of the record's files exactly if one is asked for or
-- there are several files, otherwise the document of the record's only file.
pub data IsReconstructed {W : Type 0} (B : Backend W) (settings : Settings) (stored : TaskRecord)
    : Resolved → Type 0 where
  archived :
      (grouped : Dict Artifacts) (z : ZipResult)
      → IsFetched B settings.s3_output_bucket
          (settings.s3_output_prefix ++ (stored.request_id ++ codes "/"))
          grouped
      → (stored.as_zip || ltb 1 (length stored.filenames)) ≡ true
      → z ≡ build_zip_archive B.dumps_statuses (files_of stored grouped)
      → map (λ s. s.filename) z.document_statuses ≡ stored.filenames
      → IsReconstructed B settings stored (zipped z)
  inlined :
      (grouped : Dict Artifacts) (d : ConvertDocumentResponse)
      → IsFetched B settings.s3_output_bucket
          (settings.s3_output_prefix ++ (stored.request_id ++ codes "/"))
          grouped
      → stored.as_zip ≡ false
      → stored.filenames ≡ d.document.filename ∷ []
      → build_export_document_response B.decode B.loads d.document.filename
          (get_or (first_part b'.' d.document.filename) grouped [])
        ≡ some d.document
      → IsReconstructed B settings stored (converted d)

documents-names :
    (grouped : Dict Artifacts) (filenames : List Text)
    → map (λ d. d.0) (documents grouped filenames) ≡ filenames
unfolding documents
documents-names grouped [] = refl
documents-names grouped (f ∷ fs) = ap (λ t. f ∷ t) (documents-names grouped fs)

module _ {W : Type 0} (B : Backend W) (settings : Settings) where
  module _ (stored : TaskRecord) (grouped : Dict Artifacts)
      (fetched : IsFetched B settings.s3_output_bucket
        (settings.s3_output_prefix ++ (stored.request_id ++ codes "/"))
        grouped) where
    build_inline-Returns :
        (filename : Text) (native : Json) (w : W)
        → stored.as_zip ≡ false
        → stored.filenames ≡ filename ∷ []
        → Returns
            (IsReconstructed B settings stored)
            (build_inline B settings
              (filename, first_part b'.' filename, get_or (first_part b'.' filename) grouped [])
              native
              w).0
    unfolding build_inline Returns
    build_inline-Returns filename native w z one =
        let Q = IsReconstructed B settings stored in
        let artifacts = get_or (first_part b'.' filename) grouped [] in
        let built = build_export_document_response B.decode B.loads filename artifacts in
        then_run-Returns Q (expect built w) _ λ document v is_built.
          then_run-Returns Q (expect_shape (Json.get (codes "processing_time") native) v) _
            λ found u _.
              then_run-Returns Q (expect (B.float_of (processing_time_of B settings found)) u) _
                λ time t _.
                  let made = expect-Returns built document w is_built in
                  let named : document.filename ≡ filename =
                    build_export_document_response-filename B.decode B.loads filename artifacts
                      document made in
                  inlined grouped
                    (record {
                      document = document;
                      status = codes "success";
                      processing_time = time;
                    })
                    fetched z (one ∙ ap (λ f. f ∷ []) (sym named))
                    (ap
                        (λ f.
                          build_export_document_response B.decode B.loads f
                            (get_or (first_part b'.' f) grouped []))
                        named
                      ∙ made)

    -- Where no archive is built, there is at most one file.
    build_single-Returns :
        (native : Json) (w : W) (names : List Text)
        → stored.as_zip ≡ false
        → stored.filenames ≡ names
        → ltb 1 (length names) ≡ false
        → Returns
            (IsReconstructed B settings stored)
            (then_run
              (expect_head (documents grouped names) w)
              (λ d. build_inline B settings d native)).0
    unfolding documents Returns
    build_single-Returns native w [] z e h = tt
    build_single-Returns native w (f ∷ []) z e h = build_inline-Returns f native w z e
    build_single-Returns native w (f ∷ g ∷ fs) z e h = ground arith

    pub build_result-Returns :
        (native : Json) (w : W)
        → Returns
            (IsReconstructed B settings stored)
            (build_result B settings stored native grouped w).0
    unfolding build_result documents Returns
    build_result-Returns native w =
        elim (Bool-cases (stored.as_zip || ltb 1 (length stored.filenames))) [
          | inl zip ↦
              let docs = documents grouped stored.filenames in
              rw zip (
                archived grouped (build_zip_archive B.dumps_statuses docs) fetched zip refl (
                  (build_zip_archive_lem B.dumps_statuses docs).0
                  ∙ documents-names grouped stored.filenames))
          | inr single ↦
              rw single
                (build_single-Returns native w stored.filenames (ground arith) refl (ground arith))
        ]
