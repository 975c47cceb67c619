-- ===== src/Orchestration/Starter/Laws.antt =====
-- What the exit code of the starter says.
use docling_serve_ray.Prelude.{
  ℕ, suc, ◌<◌, ◌≡◌, ◌≢◌, refl, sym, ap, ◌∙◌, true, Option, none, some, List, [], ◌∷◌, arith,
  if◌then◌else◌, ltb, subst,
}
use docling_serve_ray.Text.{Text}
use docling_serve_ray.Dict.{Dict}
use docling_serve_ray.Orchestration.Models.{ConvertResult}
use docling_serve_ray.Orchestration.Starter.{
  Args, Outcome, finished, failed, result_raised, Client, list_objects, start_all, await_all,
  convert, parse_formats, exit_code, conclude, convert_keys, split_commas,
}

-- Every handle, awaited in turn, returned a result.
pub data Finishes {W H : Type 0} (client : Client W H) : Dict H → W → W → Type 0 where
  all_done : (w : W) → Finishes client [] w w
  one_done :
      (key : Text) (h : H) (handles : Dict H) (r : ConvertResult) (u w : W)
      → (client.result h u).0 ≡ finished r
      → Finishes client handles (client.result h u).1 w
      → Finishes client ((key, h) ∷ handles) u w

module _ {W H : Type 0} (client : Client W H) where
  -- The count of failures never falls, and stays only if there is none.
  data IsCounted (handles : Dict H) (failures : ℕ) (u : W) : Option ℕ × W → Type 0 where
    clean : (w : W) → Finishes client handles u w → IsCounted handles failures u (some failures, w)
    dirty : (n : ℕ) (w : W) → failures < n → IsCounted handles failures u (some n, w)
    broken : (w : W) → IsCounted handles failures u (none, w)

  step-IsCounted :
      (key : Text) (h : H) (handles : Dict H) (failures : ℕ) (r : ConvertResult) (u : W)
      (p : Option ℕ × W)
      → (client.result h u).0 ≡ finished r
      → IsCounted handles failures (client.result h u).1 p
      → IsCounted ((key, h) ∷ handles) failures u p
  step-IsCounted key h handles failures r u p e (clean w f) =
      clean w (one_done key h handles r u w e f)
  step-IsCounted key h handles failures r u p e (dirty n w l) = dirty n w l
  step-IsCounted key h handles failures r u p e (broken w) = broken w

  miss-IsCounted :
      (key : Text) (h : H) (handles : Dict H) (failures : ℕ) (u v : W) (p : Option ℕ × W)
      → IsCounted handles (suc failures) v p
      → IsCounted ((key, h) ∷ handles) failures u p
  miss-IsCounted key h handles failures u v p (clean w f) = dirty (suc failures) w (omega arith)
  miss-IsCounted key h handles failures u v p (dirty n w l) = dirty n w (omega arith)
  miss-IsCounted key h handles failures u v p (broken w) = broken w

  await_all-IsCounted :
      (handles : Dict H) (failures : ℕ) (u : W)
      → IsCounted handles failures u (await_all client handles failures u)
  unfolding await_all
  await_all-IsCounted [] failures u = clean u (all_done u)
  await_all-IsCounted ((key, h) ∷ handles) failures u =
      go (λ f v. await_all-IsCounted handles f v) (client.result h u).0 refl
    where
      go :
          ((f : ℕ) (v : W) → IsCounted handles f v (await_all client handles f v))
          → (o : Outcome) → (client.result h u).0 ≡ o
          → IsCounted
              ((key, h) ∷ handles)
              failures
              u
              (await_all client ((key, h) ∷ handles) failures u)
      go rest (finished r) e =
          rw (await_all, e)
            (step-IsCounted key h handles failures r u _ e (rest failures (client.result h u).1))
      go rest failed e =
          rw (await_all, e)
            (miss-IsCounted key h handles failures u (client.result h u).1 _
              (rest (suc failures) (client.result h u).1))
      go rest result_raised e = rw (await_all, e) (broken (client.result h u).1)

  exit_zero :
      (handles : Dict H) (u w : W) (p : Option ℕ × W)
      → IsCounted handles 0 u p
      → exit_code client p ≡ (some 0, w)
      → Finishes client handles u w
  exit_zero handles u w p (clean v f) e = subst (Finishes client handles u) (ap (λ q. q.1) e) f
  exit_zero handles u w p (dirty n v l) e =
      let code : ◌≡◌ {A = Option ℕ} (some (if ltb 0 n then 1 else 0)) (some 0) = ap (λ q. q.0) e in
      ground arith
  exit_zero handles u w p (broken v) e =
      let code : ◌≡◌ {A = Option ℕ} none (some 0) = ap (λ q. q.0) e in ground arith

  concluded :
      (w : W) (p : Option (Dict H × ℕ) × W)
      → conclude client true p ≡ (some 0, w)
      → (handles : Dict H) × (started : ℕ) × (v : W) × (p ≡ (some (handles, started), v))
        × Finishes client handles v w
  concluded w (none, v) e =
      let code : ◌≡◌ {A = Option ℕ} none (some 0) = ap (λ q. q.0) e in ground arith
  concluded w (some (handles, started), v) e =
      (handles, started, v, refl, exit_zero handles v w _ (await_all-IsCounted handles 0 v) e)

  converted_keys :
      (args : Args) (keys : List Text) (u w : W)
      → args.wait ≡ true
      → convert_keys client args keys u ≡ (some 0, w)
      → (keys ≢ [])
        × (handles : Dict H) × (started : ℕ) × (v : W) × (start_all client args.bucket
              (parse_formats (split_commas args.to_formats))
              keys
              []
              0
              u
            ≡ (some (handles, started), v))
        × Finishes client handles v w
  converted_keys args [] u w wait h =
      let code : ◌≡◌ {A = Option ℕ} (some 1) (some 0) = ap (λ q. q.0) h in ground arith
  converted_keys args (key ∷ keys) u w wait h =
      let formats = parse_formats (split_commas args.to_formats) in
      let outcome = start_all client args.bucket formats (key ∷ keys) [] 0 u in
      let (handles, started, v, e, f) =
        concluded w outcome (sym (ap (λ b. conclude client b outcome) wait) ∙ h) in
      (λ none_listed. ground arith, handles, started, v, e, f)

  -- If the starter waits and exits with 0, then it started the listed objects, of which there is at
  -- least one, and every handle that it then had returned a result.
  pub convert-Finishes :
      (args : Args) (pages : List (Option (List Text))) (u w : W)
      → args.wait ≡ true
      → convert client args pages u ≡ (some 0, w)
      → (list_objects pages ≢ [])
        × (handles : Dict H) × (started : ℕ) × (v : W) × (start_all client args.bucket
              (parse_formats (split_commas args.to_formats))
              (list_objects pages)
              []
              0
              u
            ≡ (some (handles, started), v))
        × Finishes client handles v w
  unfolding convert
  convert-Finishes args pages u w wait h = converted_keys args (list_objects pages) u w wait h
