-- ===== src/Orchestration/Activities/Target.antt =====
-- Where a submission asks docling-serve to write, and where the collection of outputs looks.
use docling_serve_ray.Prelude.{
  ◌≡◌, refl, sym, ap, ◌∙◌, Bool, ◌&&◌, Option, List, [], ◌∷◌, arith, Bool-cases, inl, inr,
}
use docling_serve_ray.Text.{Text, str_eq, starts_with}
use docling_serve_ray.Text.Laws.{str_eq_iff}
use docling_serve_ray.Text.Order.{sorted, insert_sorted}
use docling_serve_ray.Dict.{Dict, get_or, contains}
use docling_serve_ray.Json.{Json}
use docling_serve_ray.Http.{CallbackSpec, S3Coordinates}
use docling_serve_ray.Result.{ok}
use docling_serve_ray.Orchestration.Models.{Settings, CollectOutputsInput, CollectedOutputs}
use docling_serve_ray.Orchestration.Client.{build_batch_convert_body}
use docling_serve_ray.Orchestration.Activities.{Activity, format_of, list_keys}
use docling_serve_ray.Orchestration.Activities.Collect.{
  collect_outputs, of_format, collect_outputs_lem,
}

contains-insert_sorted :
    (k t : Text) (ts : List Text) → contains k (insert_sorted t ts) ≡ contains k (t ∷ ts)
unfolding contains insert_sorted
contains-insert_sorted k t [] = refl
contains-insert_sorted k t (u ∷ us) = ground (arith, contains-insert_sorted k t us)

contains-sorted : (k : Text) (ts : List Text) → contains k (sorted ts) ≡ contains k ts
unfolding sorted contains
contains-sorted k [] = refl
contains-sorted k (t ∷ ts) =
    contains-insert_sorted k t (sorted ts) ∙ unfold contains in ground (arith, contains-sorted k ts)

contains-of_format :
    (k f : Text) (keys : List Text)
    → contains k (of_format f keys) ≡ (contains k keys && str_eq (format_of k) f)
unfolding contains of_format
contains-of_format k f [] = refl
contains-of_format k f (j ∷ keys) = elim (Bool-cases (str_eq j k)) [
  | inl same ↦
      let formats : format_of j ≡ format_of k = ap format_of ((str_eq_iff j k).0 same) in
      rw (formats) (ground (arith, same, contains-of_format k f keys))
  | inr other ↦ ground (arith, other, contains-of_format k f keys)
]

ok_inj : {a b : CollectedOutputs} → ◌≡◌ {A = Activity CollectedOutputs} (ok a) (ok b) → a ≡ b
ok_inj h = cc

-- The target in the body of a document's submission.
abbrev pub target : Settings → Text → Text → Dict Json → List CallbackSpec → S3Coordinates
target settings bucket key options callbacks =
    (build_batch_convert_body settings bucket key options callbacks).target

module _ (settings : Settings) (paginate : Text → Text → Activity (List (Option (List Text))))
    (bucket key : Text) (options : Dict Json) (callbacks : List CallbackSpec) where
  abbrev asked : S3Coordinates
  asked = target settings bucket key options callbacks

  -- The collection looks exactly where the submission of the same document asks docling-serve to
  -- write: where the listing of the submission's target bucket under the target's prefix succeeds,
  -- with pages that hold exactly the keys of the bucket under that prefix, the activity returns,
  -- and a key is among the outputs of a format exactly if the target bucket holds it, it is under
  -- the target's prefix, and it has that format.
  pub collect_outputs-target :
      (pages : List (Option (List Text))) (holds : Text → Text → Bool)
      → paginate asked.bucket asked.key_prefix ≡ ok pages
      → ((k : Text)
          → contains k (list_keys pages) ≡ (holds asked.bucket k && starts_with k asked.key_prefix))
      → (c : CollectedOutputs) × (collect_outputs settings paginate
            (record { bucket = bucket; key = key })
          ≡ ok c)
        × ((f k : Text)
            → contains k (get_or f c.outputs [])
              ≡ (holds asked.bucket k && starts_with k asked.key_prefix && str_eq (format_of k) f))
  unfolding build_batch_convert_body
  collect_outputs-target pages holds listed exact =
      let input : CollectOutputsInput = record { bucket = bucket; key = key } in
      let (c, returns, _, _, _) = collect_outputs_lem settings paginate input pages [] listed in
      (
        c,
        returns,
        λ f k.
            let (c', returns', _, found, _) =
              collect_outputs_lem settings paginate input pages f listed in
            let same : c ≡ c' = ok_inj (sym returns ∙ returns') in
            rw (same, found)
              (ground (
                arith,
                contains-of_format k f (sorted (list_keys pages)),
                contains-sorted k (list_keys pages),
                exact k,
              )),
      )
