-- ===== src/Facade/Resolve/Fetched.antt =====
-- What `fetch_artifacts_by_stem` reads: the artifacts of the listed keys, and all of them.
use docling_serve_ray.Prelude.{
  ◌≡◌, ◌≢◌, refl, sym, ap, ◌∙◌, true, ◌&&◌, Option, none, some, List, [], ◌∷◌, arith, if◌then◌else◌,
  Bool-cases, inl, inr,
}
use docling_serve_ray.Result.{ok}
use docling_serve_ray.Text.{Text, str_eq, starts_with}
use docling_serve_ray.Text.Laws.{str_eq_iff}
use docling_serve_ray.Dict.{Dict, lookup, insert, get_or, contains}
use docling_serve_ray.Dict.Laws.{lookup-insert, get_or-insert}
use docling_serve_ray.Facade.Schemas.{Bytes, Settings}
use docling_serve_ray.Facade.Artifacts.{Artifacts, parse_artifact_key, add_artifact, list_artifacts}
use docling_serve_ray.Facade.Backend.{Backend}
use docling_serve_ray.Facade.Backend.Laws.{
  Ensures, Ensures-ok, Ensures-mono, Ensures-return, Ensures-then_run,
}
use docling_serve_ray.Facade.Clients.{with_s3_client}
use docling_serve_ray.Facade.Clients.Laws.{Ensures-with_s3_client}
use docling_serve_ray.Facade.Resolve.{fetch_one, fetch_loop, fetch_artifacts_by_stem}

-- The artifact of a stem and a field.
unfoldable pub artifact_at : Dict Artifacts → Text → Text → Option (Text × Bytes)
artifact_at grouped stem field_name = lookup field_name (get_or stem grouped [])

module _ {W : Type 0} (B : Backend W) (bucket prefix : Text) where
  -- The content was read from the bucket, under a key of the list that is under the prefix and names
  -- the stem, the field and the extension.
  pub record IsRead (keys : List Text) (stem field_name ext : Text) (body : Bytes) : Type 0 where
    pub key : Text
    pub listed : contains key keys ≡ true
    pub under : starts_with key prefix ≡ true
    pub parsed : parse_artifact_key prefix key ≡ some (ext, field_name, stem)
    pub before : W
    pub after : W
    pub read : B.read_object bucket key before ≡ (ok body, after)

  abbrev pub AllRead : List Text → Dict Artifacts → Type 0
  AllRead keys grouped =
      (stem field_name ext : Text) (body : Bytes)
      → artifact_at grouped stem field_name ≡ some (ext, body)
      → IsRead keys stem field_name ext body

  abbrev pub HasAll : List Text → Dict Artifacts → Type 0
  HasAll keys grouped =
      (key ext field_name stem : Text)
      → contains key keys ≡ true
      → parse_artifact_key prefix key ≡ some (ext, field_name, stem)
      → artifact_at grouped stem field_name ≢ none

  -- The artifacts under the prefix: of the keys that the bucket lists under it, each artifact is the
  -- content of one of them, and none of them is left out.
  pub record IsFetched (grouped : Dict Artifacts) : Type 0 where
    pub pages : List (Option (List Text))
    pub before : W
    pub after : W
    pub listed : B.paginate bucket prefix before ≡ (ok pages, after)
    pub all_read : AllRead (list_artifacts pages) grouped
    pub has_all : HasAll (list_artifacts pages) grouped

artifact_at-add :
    (grouped : Dict Artifacts) (ext field_name stem : Text) (body : Bytes) (s f : Text)
    → artifact_at (add_artifact grouped (ext, field_name, stem) body) s f
      ≡ (if str_eq stem s && str_eq field_name f then some (ext, body) else artifact_at grouped s f)
unfolding artifact_at add_artifact
artifact_at-add grouped ext field_name stem body s f =
    let old = get_or stem grouped [] in
    let new = insert field_name (ext, body) old in
    ap (lookup f) (get_or-insert stem s new [] grouped) ∙ elim (Bool-cases (str_eq stem s)) [
      | inr other ↦ rw other refl
      | inl same ↦ rw same (
          lookup-insert field_name f (ext, body) old
          ∙ ap
              (λ t.
                if str_eq field_name f then some (ext, body) else lookup f (get_or t grouped []))
              ((str_eq_iff stem s).0 same))
    ]

parsed_under :
    (prefix key : Text) (part : Text × Text × Text)
    → parse_artifact_key prefix key ≡ some part
    → starts_with key prefix ≡ true
unfolding parse_artifact_key
parsed_under prefix key part h = ground (arith, h)

module _ {W : Type 0} (B : Backend W) (settings : Settings) (bucket prefix : Text) where
  -- What a part of the loop makes of the groups, where `all` are the listed keys.
  record Fetches (all keys : List Text) (old new : Dict Artifacts) (w : W) : Type 0 where
    all_read : AllRead B bucket prefix all new
    has_all : HasAll B bucket prefix keys new
    keeps :
        (stem field_name : Text)
        → artifact_at old stem field_name ≢ none
        → artifact_at new stem field_name ≢ none

  -- One key.
  record FetchesOne (all : List Text) (key : Text) (part : Option (Text × Text × Text))
      (old new : Dict Artifacts) (w : W) : Type 0 where
    all_read : AllRead B bucket prefix all new
    has_it :
        (ext field_name stem : Text)
        → part ≡ some (ext, field_name, stem)
        → artifact_at new stem field_name ≢ none
    keeps :
        (stem field_name : Text)
        → artifact_at old stem field_name ≢ none
        → artifact_at new stem field_name ≢ none

  fetch_one-Ensures :
      (all : List Text) (key : Text) (part : Option (Text × Text × Text)) (old : Dict Artifacts)
      (w : W)
      → contains key all ≡ true
      → parse_artifact_key prefix key ≡ part
      → AllRead B bucket prefix all old
      → Ensures (FetchesOne all key part old) (fetch_one B settings bucket key old part w)
  unfolding fetch_one
  fetch_one-Ensures all key none old w listed parsed read =
      Ensures-return (FetchesOne all key none old) old w (record {
        all_read = read;
        has_it = λ ext f s e. absurd (ground (arith, e));
        keeps = λ s f h. h;
      })
  fetch_one-Ensures all key (some (ext, field_name, stem)) old w listed parsed read =
      let Q = FetchesOne all key (some (ext, field_name, stem)) old in
      Ensures-then_run Q (B.read_object bucket key w) _ λ body v e.
        let at = artifact_at-add old ext field_name stem body in
        Ensures-return Q (add_artifact old (ext, field_name, stem) body) v (record {
          all_read = λ s f x b h. elim (Bool-cases (str_eq stem s && str_eq field_name f)) [
            | inr other ↦ read s f x b (ground (arith, h, at s f, other))
            | inl same ↦
                let found : ◌≡◌ {A = Option (Text × Bytes)} (some (ext, body)) (some (x, b)) =
                  sym (ap (λ t. if t then some (ext, body) else artifact_at old s f) same)
                  ∙ sym (at s f)
                  ∙ h in
                let same_stem : stem ≡ s = (str_eq_iff stem s).0 (ground arith) in
                let same_field : field_name ≡ f = (str_eq_iff field_name f).0 (ground arith) in
                let same_ext : ext ≡ x = cc found in
                let same_body : body ≡ b = cc found in
                record {
                  key = key;
                  listed = listed;
                  under = parsed_under prefix key (ext, field_name, stem) parsed;
                  parsed = parsed ∙ cc (same_stem, same_field, same_ext);
                  before = w;
                  after = v;
                  read = e ∙ ap (λ t. (ok t, v)) same_body;
                }
          ];
          has_it = λ x f s h none_there.
              let is_stem : stem ≡ s = cc h in
              let is_field : field_name ≡ f = cc h in
              ground (
                arith,
                none_there,
                at s f,
                (str_eq_iff stem s).1 is_stem,
                (str_eq_iff field_name f).1 is_field,
              );
          keeps = λ s f h. ground (arith, at s f, h);
        })

  fetch_loop-Ensures :
      (all keys : List Text) (old : Dict Artifacts) (w : W)
      → ((key : Text) → contains key keys ≡ true → contains key all ≡ true)
      → AllRead B bucket prefix all old
      → Ensures (Fetches all keys old) (fetch_loop B settings bucket prefix keys old w)
  unfolding fetch_loop contains
  fetch_loop-Ensures all [] old w among read = Ensures-return (Fetches all [] old) old w (record {
    all_read = read;
    has_all = λ key ext f s h. absurd (ground arith);
    keeps = λ s f h. h;
  })
  fetch_loop-Ensures all (key ∷ keys) old w among read =
      let part = parse_artifact_key prefix key in
      Ensures-then_run (Fetches all (key ∷ keys) old) (fetch_one B settings bucket key old part w) _
        λ more v e.
          let one = Ensures-ok (FetchesOne all key part old) e (
            fetch_one-Ensures all key part old w (among key (ground (arith, str_eq_iff key key)))
              refl read) in
          Ensures-mono (Fetches all keys more) _ (fetch_loop B settings bucket prefix keys more v)
            (fetch_loop-Ensures all keys more v (λ k h. among k (ground (arith, h))) one.all_read)
            λ new u rest. record {
              all_read = rest.all_read;
              has_all = λ k ext f s h parsed. elim (Bool-cases (str_eq key k)) [
                | inl same ↦ rest.keeps s f (
                    one.has_it ext f s
                      (ap (parse_artifact_key prefix) ((str_eq_iff key k).0 same) ∙ parsed))
                | inr other ↦ rest.has_all k ext f s (ground (arith, h, other)) parsed
              ];
              keeps = λ s f h. rest.keeps s f (one.keeps s f h);
            }

  no_artifacts : (stem field_name : Text) → artifact_at [] stem field_name ≡ none
  unfolding artifact_at get_or lookup
  no_artifacts stem field_name = refl

  fetch_artifacts_by_stem-Ensures :
      (w : W)
      → Ensures
          (λ grouped v. IsFetched B bucket prefix grouped)
          (fetch_artifacts_by_stem B settings bucket prefix w)
  unfolding fetch_artifacts_by_stem
  fetch_artifacts_by_stem-Ensures w =
      let Q : Dict Artifacts → W → Type 0 = λ grouped v. IsFetched B bucket prefix grouped in
      Ensures-then_run Q (B.paginate bucket prefix w) _ λ pages v e.
        let keys = list_artifacts pages in
        Ensures-mono (Fetches keys keys []) Q (fetch_loop B settings bucket prefix keys [] v)
          (fetch_loop-Ensures keys keys [] v (λ k h. h)
            (λ s f x b h. absurd (ground (arith, h, no_artifacts s f))))
          λ grouped u f. record {
            pages = pages;
            before = w;
            after = v;
            listed = e;
            all_read = f.all_read;
            has_all = f.has_all;
          }

  -- The same with the client opened for it.
  pub IsFetched-Ensures :
      (w : W)
      → Ensures
          (λ grouped v. IsFetched B bucket prefix grouped)
          (with_s3_client B settings (fetch_artifacts_by_stem B settings bucket prefix) w)
  IsFetched-Ensures w =
      let fetch = fetch_artifacts_by_stem B settings bucket prefix in
      Ensures-with_s3_client B settings fetch w (λ grouped v. IsFetched B bucket prefix grouped)
        λ v e.
          Ensures-mono (λ grouped u. IsFetched B bucket prefix grouped) _ (fetch v)
            (fetch_artifacts_by_stem-Ensures v) λ grouped u f x e'. f
