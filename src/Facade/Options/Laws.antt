-- ===== src/Facade/Options/Laws.antt =====
-- Which fields of a form are forwarded, and how.
use docling_serve_ray.Prelude.{
  ◌≡◌, ◌≢◌, refl, sym, ◌∙◌, Bool, true, false, ◌||◌, ◌&&◌, not, Option, none, some, List, [], ◌∷◌,
  arith, ltb, if◌then◌else◌, length, Bool-cases, inl, inr,
}
use docling_serve_ray.Text.{Text, str_eq}
use docling_serve_ray.Text.Laws.{str_eq_iff, str_eq_refl}
use docling_serve_ray.Dict.{Dict, lookup, insert, contains, distinct}
use docling_serve_ray.Dict.Laws.{lookup-insert, contains-distinct}
use docling_serve_ray.Facade.Options.{
  FormItem, Form, OptionValue, intercepted_fields, array_fields, option_value, options_loop,
  build_convert_options,
}

-- A form's own keys have values.
pub record IsForm (form : Form) : Type 0 where
  pub valued : (key : Text) → contains key form.keys ≡ true → form.getlist key ≢ []

option_value-total :
    (key : Text) (values : List FormItem)
    → values ≢ []
    → (v : OptionValue) × (option_value key values ≡ some v)
unfolding option_value
option_value-total key [] h = absurd (h refl)
option_value-total key (x ∷ xs) h =
    elim (Bool-cases (contains key array_fields || ltb 1 (length (x ∷ xs)))) [
      | inl list ↦ (OptionValue.many (x ∷ xs), rw list)
      | inr one ↦ (OptionValue.single x, rw one)
    ]

-- What is forwarded under a key.
abbrev pub forwarded : Form → Text → Option OptionValue
forwarded form key =
    if contains key intercepted_fields then none else option_value key (form.getlist key)

contains-cons :
    (j k : Text) (keys : List Text)
    → contains j (k ∷ keys) ≡ (if str_eq k j then true else contains j keys)
unfolding contains
contains-cons j k keys = refl

head_contained : (k : Text) (keys : List Text) → contains k (k ∷ keys) ≡ true
unfolding contains
head_contained k keys = rw (str_eq_refl k)

tail_contained :
    (j k : Text) (keys : List Text) → contains j keys ≡ true → contains j (k ∷ keys) ≡ true
unfolding contains
tail_contained j k keys h = ground arith

-- What the loop leaves under the key `j`.
module _ (form : Form) (j : Text) where
  record Loops (keys : List Text) (options : Dict OptionValue) : Type 0 where
    result : Dict OptionValue
    returns : options_loop form keys options ≡ some result
    at_key : lookup j result ≡ (
        if contains j keys && not (contains j intercepted_fields)
        then option_value j (form.getlist j)
        else lookup j options)

  Loops-skip :
      (k : Text) (keys : List Text) (options : Dict OptionValue)
      → contains k intercepted_fields ≡ true
      → Loops keys options
      → Loops (k ∷ keys) options
  unfolding options_loop
  Loops-skip k keys options skip l = record {
    result = l.result;
    returns = rw skip l.returns;
    at_key =
        l.at_key
        ∙ contains_skipped (contains j keys) (unfold contains in ground (arith, str_eq_iff k j));
  }
    where
      contains_skipped :
          (b : Bool)
          → (b && not (contains j intercepted_fields))
            ≡ (contains j (k ∷ keys) && not (contains j intercepted_fields))
          → (if b && not (contains j intercepted_fields)
              then option_value j (form.getlist j)
              else lookup j options)
            ≡ (if contains j (k ∷ keys) && not (contains j intercepted_fields)
                then option_value j (form.getlist j)
                else lookup j options)
      contains_skipped b e = rw e refl

  Loops-keep :
      (k : Text) (keys : List Text) (options : Dict OptionValue) (v : OptionValue)
      → contains k intercepted_fields ≡ false
      → option_value k (form.getlist k) ≡ some v
      → Loops keys (insert k v options)
      → Loops (k ∷ keys) options
  unfolding options_loop
  Loops-keep k keys options v keep e l = record {
    result = l.result;
    returns = rw (keep, e) l.returns;
    at_key = ground (
      arith,
      l.at_key,
      contains-cons j k keys,
      lookup-insert k j v options,
      str_eq_iff k j,
      keep,
      e,
    );
  }

  Loops-all :
      (keys : List Text) (options : Dict OptionValue)
      → ((key : Text) → contains key keys ≡ true → form.getlist key ≢ [])
      → Loops keys options
  Loops-all [] options h = record {
    result = options;
    returns = unfold options_loop in refl;
    at_key = unfold contains in refl;
  }
  Loops-all (k ∷ keys) options h =
      let (v, e) = option_value-total k (form.getlist k) (h k (head_contained k keys)) in
      let later =
        λ (key : Text) (c : contains key keys ≡ true). h key (tail_contained key k keys c) in
      elim (Bool-cases (contains k intercepted_fields)) [
        | inl skip ↦ Loops-skip k keys options skip (Loops-all keys options later)
        | inr keep ↦ Loops-keep k keys options v keep e (Loops-all keys (insert k v options) later)
      ]

-- Every field that the form has and the facade does not intercept is forwarded, with the value that
-- `option_value` gives it, and nothing else is; the options are built without an error. The form
-- lists at least one value for each of its keys.
pub build_convert_options_lem :
    (form : Form) (j : Text)
    → IsForm form
    → (d : Dict OptionValue) × (build_convert_options form ≡ some d)
      × (lookup j d ≡ (
          if contains j form.keys && not (contains j intercepted_fields)
          then option_value j (form.getlist j)
          else none))
unfolding build_convert_options
build_convert_options_lem form j h =
    let all =
      Loops-all form j (distinct form.keys) []
        (λ key c. h.valued key (sym (contains-distinct key form.keys) ∙ c)) in
    (all.result, all.returns, unfold lookup in rw (← contains-distinct j form.keys) all.at_key)
