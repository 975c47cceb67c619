-- ===== src/Orchestration/Activities/Collect.antt =====
-- `collect_outputs` and the grouping of listed keys by format.
use docling_serve_ray.Prelude.{
  ◌≡◌, refl, sym, ap, ◌||◌, Option, List, [], ◌∷◌, ◌++◌, arith, if◌then◌else◌, any, append_assoc,
  append-nil, ◌≡⟨◌⟩◌, ◌∎,
}
use docling_serve_ray.Text.{Text, str_eq}
use docling_serve_ray.Text.Laws.{str_eq_iff}
use docling_serve_ray.Text.Order.{sorted}
use docling_serve_ray.Dict.{Dict, lookup, get_or, has_key}
use docling_serve_ray.Dict.Laws.{get_or-insert, has_key-insert}
use docling_serve_ray.Result.{ok, ◌>>=◌}
use docling_serve_ray.Orchestration.Models.{Settings, CollectOutputsInput, CollectedOutputs}
use docling_serve_ray.Orchestration.Client.{convert_output_prefix}
use docling_serve_ray.Orchestration.Activities.{
  Activity, format_of, add_output, group_outputs, list_keys,
}

-- `paginate` is the S3 client's listing of a bucket under a prefix: for each page its contents, if
-- the page has any.
unfoldable pub collect_outputs :
    Settings
    → (Text → Text → Activity (List (Option (List Text))))
    → CollectOutputsInput
    → Activity CollectedOutputs
collect_outputs settings paginate inp = do
  let prefix = convert_output_prefix settings inp.bucket inp.key
  pages ← paginate settings.output_bucket prefix
  ok (record {
    bucket = settings.output_bucket;
    outputs = group_outputs [] (sorted (list_keys pages));
  })

-- The keys of one format, in their order.
unfoldable pub of_format : Text → List Text → List Text
of_format f [] = []
of_format f (key ∷ keys) =
    if str_eq (format_of key) f then key ∷ of_format f keys else of_format f keys

get_or-add_output :
    (f key : Text) (outputs : Dict (List Text))
    → get_or f (add_output outputs key) [] ≡ get_or f outputs [] ++ of_format f (key ∷ [])
unfolding add_output of_format
get_or-add_output f key outputs = ground (
  arith,
  get_or-insert (format_of key) f (get_or (format_of key) outputs [] ++ key ∷ []) [] outputs,
  str_eq_iff (format_of key) f,
  append-nil (get_or f outputs []),
)

of_format-cons :
    (f key : Text) (keys : List Text)
    → of_format f (key ∷ keys) ≡ of_format f (key ∷ []) ++ of_format f keys
unfolding of_format
of_format-cons f key keys = ground arith

get_or-group_outputs :
    (f : Text) (outputs : Dict (List Text)) (keys : List Text)
    → get_or f (group_outputs outputs keys) [] ≡ get_or f outputs [] ++ of_format f keys
unfolding group_outputs
get_or-group_outputs f outputs [] = unfold of_format in sym (append-nil _)
get_or-group_outputs f outputs (key ∷ keys) =
    get_or f (group_outputs (add_output outputs key) keys) []
    ≡⟨ get_or-group_outputs f (add_output outputs key) keys ⟩
      get_or f (add_output outputs key) [] ++ of_format f keys
    ≡⟨ ap (λ l. l ++ of_format f keys) (get_or-add_output f key outputs) ⟩
      get_or f outputs [] ++ of_format f (key ∷ []) ++ of_format f keys
    ≡⟨ append_assoc (get_or f outputs []) _ _ ⟩
      get_or f outputs [] ++ (of_format f (key ∷ []) ++ of_format f keys)
    ≡⟨ ap (λ l. get_or f outputs [] ++ l) (sym (of_format-cons f key keys)) ⟩
      get_or f outputs [] ++ of_format f (key ∷ keys) ∎

has_key-group_outputs :
    (f : Text) (outputs : Dict (List Text)) (keys : List Text)
    → has_key f (group_outputs outputs keys)
      ≡ (has_key f outputs || any (λ key. str_eq (format_of key) f) keys)
unfolding group_outputs add_output
has_key-group_outputs f outputs [] = ground arith
has_key-group_outputs f outputs (key ∷ keys) = ground (
  arith,
  has_key-group_outputs f (add_output outputs key) keys,
  has_key-insert (format_of key) f (get_or (format_of key) outputs [] ++ key ∷ []) outputs,
)

module _ (settings : Settings) (paginate : Text → Text → Activity (List (Option (List Text))))
    (inp : CollectOutputsInput) where
  -- What the listing under the document's own output prefix returns.
  abbrev pub listing : Activity (List (Option (List Text)))
  listing = paginate settings.output_bucket (convert_output_prefix settings inp.bucket inp.key)

  -- Where the listing of the document's output prefix succeeds, the activity returns: the bucket
  -- is the output bucket, the outputs of a format are exactly the listed keys of that format in
  -- sorted order, and a format is present exactly when some listed key has it.
  pub collect_outputs_lem :
      (pages : List (Option (List Text))) (f : Text)
      → listing ≡ ok pages
      → (c : CollectedOutputs) × (collect_outputs settings paginate inp ≡ ok c)
        × (c.bucket ≡ settings.output_bucket)
        × (get_or f c.outputs [] ≡ of_format f (sorted (list_keys pages)))
        × (has_key f c.outputs ≡ any (λ key. str_eq (format_of key) f) (sorted (list_keys pages)))
  unfolding collect_outputs
  collect_outputs_lem pages f e = (
    record {
      bucket = settings.output_bucket;
      outputs = group_outputs [] (sorted (list_keys pages));
    },
    rw e,
    refl,
    unfold get_or lookup in get_or-group_outputs f [] (sorted (list_keys pages)),
    unfold has_key lookup in has_key-group_outputs f [] (sorted (list_keys pages)),
  )
