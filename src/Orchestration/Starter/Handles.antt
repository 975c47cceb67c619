-- ===== src/Orchestration/Starter/Handles.antt =====
-- The handles that the starter holds: one for each listed object, under a workflow id of its own.
use docling_serve_ray.Prelude.{
  ℕ, ◌≡◌, refl, sym, ap, ◌∙◌, true, false, ◌||◌, Option, none, some, List, [], ◌∷◌, ◌++◌, arith,
  Bool-cases, inl, inr, subst,
}
use docling_serve_ray.Text.{Text, codes, str_eq, has_char}
use docling_serve_ray.Text.Parts.{first_segment_unique}
use docling_serve_ray.Dict.{Dict, lookup, insert, has_key, contains}
use docling_serve_ray.Dict.Laws.{has_key-insert}
use docling_serve_ray.Orchestration.Models.{ConvertResult, workflow_id_for_convert}
use docling_serve_ray.Orchestration.Starter.{
  Args, Started, handle, already_started, start_raised, finished, Client, list_objects,
  start_conversion, add_handle, start_all, convert, parse_formats, split_commas, input_of,
}
use docling_serve_ray.Orchestration.Starter.Laws.{Finishes, all_done, one_done, convert-Finishes}

module _ {W H : Type 0} (client : Client W H) where
  -- What is known of the handles once the loop is through.
  abbrev HandledFor : Dict H → List Text → Option (Dict H × ℕ) → Type 0
  HandledFor before keys none = Unit
  HandledFor before keys (some (handles, started)) =
      (k : Text) → has_key k handles ≡ (has_key k before || contains k keys)

  HandledFor-insert :
      (key : Text) (h : H) (before : Dict H) (keys : List Text) (r : Option (Dict H × ℕ))
      → HandledFor (insert key h before) keys r
      → HandledFor before (key ∷ keys) r
  unfolding contains
  HandledFor-insert key h before keys none rest = tt
  HandledFor-insert key h before keys (some (handles, started)) rest =
      λ k. ground (arith, rest k, has_key-insert key k h before)

  start_all-HandledFor :
      (bucket : Text) (formats keys : List Text) (before : Dict H) (started : ℕ) (w : W)
      → HandledFor before keys (start_all client bucket formats keys before started w).0
  unfolding start_all contains add_handle
  start_all-HandledFor bucket formats [] before started w = λ k. ground arith
  start_all-HandledFor bucket formats (key ∷ keys) before started w =
      step (λ more count v. start_all-HandledFor bucket formats keys more count v)
        (start_conversion client (input_of bucket key formats) w).0
    where
      step :
          ((more : Dict H) (count : ℕ) (v : W)
            → HandledFor more keys (start_all client bucket formats keys more count v).0)
          → (o : Started H)
          → HandledFor before
              (key ∷ keys)
              (elim (add_handle client bucket key o before started)
                as (λ _. Option (Dict H × ℕ) × W) [
                  | none ↦ (none, (start_conversion client (input_of bucket key formats) w).1)
                  | some (more, count) ↦
                      start_all client bucket formats keys more count
                        (start_conversion client (input_of bucket key formats) w).1
                ]).0
      step rest (handle h) = HandledFor-insert key h before keys _ (rest _ _ _)
      step rest already_started = HandledFor-insert key _ before keys _ (rest _ _ _)
      step rest start_raised = tt

  -- A handle of a dictionary that was awaited returned a result.
  Finishes-lookup :
      (handles : Dict H) (u w : W) (k : Text)
      → Finishes client handles u w
      → has_key k handles ≡ true
      → (h : H) × (v : W) × (r : ConvertResult) × (lookup k handles ≡ some h)
        × ((client.result h v).0 ≡ finished r)
  unfolding has_key lookup
  Finishes-lookup [] u w k (all_done _) there = cc
  Finishes-lookup ((key, h) ∷ handles) u w k (one_done _ _ _ r _ _ e f) there =
      elim (Bool-cases (str_eq key k)) [
        | inl same ↦ (h, u, r, rw (lookup, same) refl, e)
        | inr other ↦
            let (h', v, r', found, e') =
              Finishes-lookup handles _ w k f (ground (arith, there, other)) in
            (h', v, r', rw (lookup, other) found, e')
      ]

  -- If the starter waits and exits with 0, every listed object was converted: for its key, the
  -- starter held a handle, and awaiting that handle returned a result.
  pub convert-each :
      (args : Args) (pages : List (Option (List Text))) (u w : W) (key : Text)
      → args.wait ≡ true
      → convert client args pages u ≡ (some 0, w)
      → contains key (list_objects pages) ≡ true
      → (handles : Dict H) × (started : ℕ) × ((start_all client args.bucket
            (parse_formats (split_commas args.to_formats))
            (list_objects pages)
            []
            0
            u).0
          ≡ some (handles, started))
        × (h : H) × (v : W) × (r : ConvertResult) × (lookup key handles ≡ some h)
        × ((client.result h v).0 ≡ finished r)
  convert-each args pages u w key wait h listed =
      let (_, handles, started, v, e, f) = convert-Finishes client args pages u w wait h in
      let handled =
        start_all-HandledFor args.bucket (parse_formats (split_commas args.to_formats))
          (list_objects pages) [] 0 u in
      let all : HandledFor [] (list_objects pages) (some (handles, started)) =
        subst (HandledFor [] (list_objects pages)) (ap (λ p. p.0) e) handled in
      let (h, v, r, found, result) =
        Finishes-lookup handles v w key f (unfold has_key lookup in all key ∙ listed) in
      (handles, started, ap (λ p. p.0) e, h, v, r, found, result)

append_cancel : (c : ℕ) (s x y : Text) → s ++ c ∷ x ≡ s ++ c ∷ y → x ≡ y
append_cancel c [] x y e = ground (arith, e)
append_cancel c (d ∷ s) x y e = append_cancel c s x y (ground (arith, e))

convert_inj : (s t : Text) → codes "convert:" ++ s ≡ codes "convert:" ++ t → s ≡ t
convert_inj s t e = append_cancel b':' (codes "convert") s t e

-- Two objects share a workflow id only if they are the same object, as long as the names of their
-- buckets hold no "/".
pub workflow_id_for_convert_inj :
    (b b' k k' : Text)
    → has_char b'/' b ≡ false
    → has_char b'/' b' ≡ false
    → workflow_id_for_convert b k ≡ workflow_id_for_convert b' k'
    → (b ≡ b') × (k ≡ k')
unfolding workflow_id_for_convert
workflow_id_for_convert_inj b b' k k' h h' e =
    let rest = convert_inj (b ++ (codes "/" ++ k)) (b' ++ (codes "/" ++ k')) e in
    let bucket : b ≡ b' = first_segment_unique b'/' b b' k k' h h' rest in
    (bucket, append_cancel b'/' b k k' (rest ∙ ap (λ c. c ++ b'/' ∷ k') (sym bucket)))
