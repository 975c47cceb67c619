-- ===== src/Facade/Artifacts.antt =====
-- facade/utils.py: the artifacts of a task in S3, grouped by stem and field, and the two shapes in
-- which they are returned.
pub mod Laws
pub mod Archive
use docling_serve_ray.Prelude.{
  ℕ, Bool, true, false, Option, none, some, List, [], ◌∷◌, ◌++◌, if◌then◌else◌, length, drop,
}
use docling_serve_ray.Text.{Text, codes, str_eq, starts_with, last_part, drop_last}
use docling_serve_ray.Text.Suffix.{find_suffix}
use docling_serve_ray.Dict.{Dict, lookup, insert, get_or}
use docling_serve_ray.Json.{Json}
use docling_serve_ray.Facade.Schemas.{Bytes, ExportDocumentResponse, DocumentStatus, ZipResult}

abbrev pub extension_to_field : List (Text × Text)
extension_to_field =
    (codes ".doctags.txt", codes "doctags_content")
    ∷ (codes ".json", codes "json_content")
    ∷ (codes ".md", codes "md_content")
    ∷ (codes ".html", codes "html_content")
    ∷ (codes ".dclg", codes "doclang_content")
    ∷ (codes ".txt", codes "text_content")
    ∷ []

abbrev pub default_to_formats : List Text
default_to_formats = codes "md" ∷ []

-- `return ext, field_name, filename[: -len(ext)]`
abbrev with_stem : Text → Option (Text × Text) → Option (Text × Text × Text)
with_stem filename none = none
with_stem filename (some (ext, field_name)) =
    some (ext, field_name, drop_last (length ext) filename)

-- The file's name is what follows the last "/" behind the prefix.
abbrev parse_filename : Text → Option (Text × Text × Text)
parse_filename filename = with_stem filename (find_suffix extension_to_field filename)

unfoldable pub parse_artifact_key : Text → Text → Option (Text × Text × Text)
parse_artifact_key prefix key =
    if starts_with key prefix
    then parse_filename (last_part b'/' (drop (length prefix) key))
    else none

-- Artifacts by field: the extension and the content.
abbrev pub Artifacts : Type 0
Artifacts = Dict (Text × Bytes)

-- `grouped.setdefault(stem, {})[field_name] = (ext, content)`
unfoldable pub add_artifact : Dict Artifacts → Text × Text × Text → Bytes → Dict Artifacts
add_artifact grouped (ext, field_name, stem) content =
    insert stem (insert field_name (ext, content) (get_or stem grouped [])) grouped

-- `page.get("Contents", [])` of every page, in order.
unfoldable pub list_artifacts : List (Option (List Text)) → List Text
list_artifacts [] = []
list_artifacts (none ∷ pages) = list_artifacts pages
list_artifacts (some contents ∷ pages) = contents ++ list_artifacts pages

-- The parsed value is an object or null, or the response's validation raises.
abbrev pub set_json : ExportDocumentResponse → Option Json → Option ExportDocumentResponse
set_json r (some (Json.obj fs)) = some (record r { json_content = some (Json.obj fs) })
set_json r (some Json.null) = some (record r { json_content = none })
set_json r _ = none

-- A field of the response; only "json_content" is parsed, and may fail to be.
unfoldable pub set_field :
    (Text → Option Json) → ExportDocumentResponse → Text → Text → Option ExportDocumentResponse
set_field loads r field_name text =
    if str_eq field_name (codes "json_content")
    then set_json r (loads text)
    else if str_eq field_name (codes "md_content")
    then some (record r { md_content = some text })
    else if str_eq field_name (codes "html_content")
    then some (record r { html_content = some text })
    else if str_eq field_name (codes "text_content")
    then some (record r { text_content = some text })
    else if str_eq field_name (codes "doctags_content")
    then some (record r { doctags_content = some text })
    else if str_eq field_name (codes "doclang_content")
    then some (record r { doclang_content = some text })
    else some r

abbrev pub empty_document : Text → ExportDocumentResponse
empty_document filename = record {
  filename = filename;
  md_content = none;
  json_content = none;
  html_content = none;
  text_content = none;
  doctags_content = none;
  doclang_content = none;
}

infixl 5 ◌>>=◌
abbrev ◌>>=◌ : {A B : Type 0} → Option A → (A → Option B) → Option B
none >>= f = none
some a >>= f = f a

-- `decode` and `loads` stand for `bytes.decode("utf-8")` and `json.loads`; `none` is what they raise.
module _ (decode : Bytes → Option Text) (loads : Text → Option Json) where
  unfoldable pub set_fields : ExportDocumentResponse → Artifacts → Option ExportDocumentResponse
  set_fields r [] = some r
  set_fields r ((field_name, (ext, body)) ∷ artifacts) = do
    text ← decode body
    r' ← set_field loads r field_name text
    set_fields r' artifacts

  unfoldable pub build_export_document_response : Text → Artifacts → Option ExportDocumentResponse
  unfolding set_fields set_field
  build_export_document_response filename artifacts = set_fields (empty_document filename) artifacts

-- The archive's entries of one document.
unfoldable pub document_entries : Text → Artifacts → List (Text × Bytes)
document_entries stem [] = []
document_entries stem ((field_name, (ext, body)) ∷ artifacts) =
    (stem ++ ext, body) ∷ document_entries stem artifacts

abbrev pub status_of : Artifacts → Text
status_of [] = codes "failed"
status_of (a ∷ artifacts) = codes "success"

-- The two lists that the loop over the documents builds.
unfoldable pub all_entries : List (Text × Text × Artifacts) → List (Text × Bytes)
all_entries [] = []
all_entries ((filename, stem, artifacts) ∷ documents) =
    document_entries stem artifacts ++ all_entries documents

unfoldable pub statuses : List (Text × Text × Artifacts) → List DocumentStatus
statuses [] = []
statuses ((filename, stem, artifacts) ∷ documents) =
    record { filename = filename; status = status_of artifacts } ∷ statuses documents

-- `dumps` renders the manifest; it is the last entry.
unfoldable pub build_zip_archive :
    (List DocumentStatus → Bytes) → List (Text × Text × Artifacts) → ZipResult
unfolding document_entries all_entries statuses
build_zip_archive dumps documents = record {
  content = all_entries documents ++ (codes "_status.json", dumps (statuses documents)) ∷ [];
  document_statuses = statuses documents;
}
