-- ===== src/Orchestration/Client/Laws.antt =====
-- What a callback URL carries.
use docling_serve_ray.Prelude.{
  ℕ, ◌+◌, ◌*◌, ◌-◌, ◌<◌, ◌≡◌, refl, ap, ◌∙◌, true, false, some, List, [], ◌∷◌, ◌++◌, ltb, ◌==◌,
  if◌then◌else◌, arith, Bool-cases, sym, ◌≢◌, inl, inr, ◌/◌, ◌%◌, All, append_assoc,
}
use docling_serve_ray.Text.{Text, has_char, codes, strip_end, last_part}
use docling_serve_ray.Text.Laws.{str_eq_refl}
use docling_serve_ray.Dict.{lookup}
use docling_serve_ray.Http.{CallbackSpec}
use docling_serve_ray.Orchestration.Models.{Settings}
use docling_serve_ray.Text.Parts.{has_char-append, last_part-append}
use docling_serve_ray.Orchestration.Client.{
  utf8_char, utf8, is_unreserved, hex_digit, quote_byte, quote_bytes, quote, callback_specs,
  callback_token_header,
}

-- The value of a hexadecimal digit in upper case.
unfoldable pub hex_value : ℕ → ℕ
hex_value c = if ltb c 65 then c - 48 else c - 55

-- Percent-decoding, as the receiver of a URL does it: the bytes that the text stands for.
unfoldable pub unquote : Text → List ℕ
unquote [] = []
unquote (c ∷ []) = c ∷ []
unquote (c ∷ d ∷ []) = c ∷ d ∷ []
unquote (c ∷ d ∷ e ∷ s) =
    let plain = unquote (d ∷ e ∷ s) in
    let coded = unquote s in
    if c == b'%' then (16 * hex_value d + hex_value e) ∷ coded else c ∷ plain

abbrev pub AreBytes : List ℕ → Type 0
AreBytes = All (λ b. b < 256)

abbrev pub AreCodePoints : Text → Type 0
AreCodePoints = All (λ c. c < 1114112)

hex_value-hex_digit : (n : ℕ) → n < 16 → hex_value (hex_digit n) ≡ n
unfolding hex_value hex_digit
hex_value-hex_digit n h = ground arith

unquote_plain : (c : ℕ) (s : Text) → (c == b'%') ≡ false → unquote (c ∷ s) ≡ c ∷ unquote s
unfolding unquote
unquote_plain c [] h = refl
unquote_plain c (d ∷ []) h = refl
unquote_plain c (d ∷ e ∷ s) h = rw h

is_unreserved-ne-percent : (b : ℕ) → is_unreserved b ≡ true → (b == b'%') ≡ false
unfolding is_unreserved
is_unreserved-ne-percent b h = ground arith

unquote_coded :
    (d e : ℕ) (s : Text) → unquote (b'%' ∷ d ∷ e ∷ s) ≡ (16 * hex_value d + hex_value e) ∷ unquote s
unfolding unquote
unquote_coded d e s = refl

unquote-quote_byte : (b : ℕ) (s : Text) → b < 256 → unquote (quote_byte b ++ s) ≡ b ∷ unquote s
unfolding quote_byte
unquote-quote_byte b s h = elim (Bool-cases (is_unreserved b)) [
  | inl plain ↦ rw plain (unquote_plain b s (is_unreserved-ne-percent b plain))
  | inr coded ↦ rw coded (
      unquote_coded _ _ s
      ∙ ap (λ n. n ∷ unquote s)
          (rw
            (hex_value-hex_digit (b / 16) (omega arith), hex_value-hex_digit (b % 16) (omega arith))
            (omega arith)))
]

unquote-quote_bytes : (bs : List ℕ) → AreBytes bs → unquote (quote_bytes bs) ≡ bs
unfolding quote_bytes unquote
unquote-quote_bytes [] h = refl
unquote-quote_bytes (b ∷ bs) (h, hs) =
    unquote-quote_byte b (quote_bytes bs) h ∙ ap (λ l. b ∷ l) (unquote-quote_bytes bs hs)

utf8_char-AreBytes : (c : ℕ) → c < 1114112 → AreBytes (utf8_char c)
unfolding utf8_char
utf8_char-AreBytes c h = ground arith

All-append {ℓ κ} :
    {A : Type ℓ} (P : A → Type κ) (xs ys : List A) → All P xs → All P ys → All P (xs ++ ys)
All-append P [] ys _ h = h
All-append P (x ∷ xs) ys (p, ps) h = (p, All-append P xs ys ps h)

utf8-AreBytes : (s : Text) → AreCodePoints s → AreBytes (utf8 s)
unfolding utf8
utf8-AreBytes [] _ = tt
utf8-AreBytes (c ∷ s) (h, hs) =
    All-append _ (utf8_char c) (utf8 s) (utf8_char-AreBytes c h) (utf8-AreBytes s hs)

-- Whoever percent-decodes a quoted text has its UTF-8 bytes back.
pub unquote-quote : (s : Text) → AreCodePoints s → unquote (quote s) ≡ utf8 s
unfolding quote
unquote-quote s h = unquote-quote_bytes (utf8 s) (utf8-AreBytes s h)

hex_digit-ne-slash : (n : ℕ) → n < 16 → (b'/' == hex_digit n) ≡ false
unfolding hex_digit
hex_digit-ne-slash n h = ground arith

quote_byte-has-slash : (b : ℕ) → b < 256 → has_char b'/' (quote_byte b) ≡ false
unfolding quote_byte has_char is_unreserved
quote_byte-has-slash b h = ground (arith, hex_digit-ne-slash (b / 16), hex_digit-ne-slash (b % 16))

quote_bytes-has-slash : (bs : List ℕ) → AreBytes bs → has_char b'/' (quote_bytes bs) ≡ false
unfolding quote_bytes has_char
quote_bytes-has-slash [] _ = refl
quote_bytes-has-slash (b ∷ bs) (h, hs) =
    has_char-append b'/' (quote_byte b) (quote_bytes bs)
    ∙ rw (quote_byte-has-slash b h) (quote_bytes-has-slash bs hs)

-- A quoted text is one path segment.
pub quote-has-slash : (s : Text) → AreCodePoints s → has_char b'/' (quote s) ≡ false
unfolding quote
quote-has-slash s h = quote_bytes-has-slash (utf8 s) (utf8-AreBytes s h)

last_segment :
    (base id : Text)
    → AreCodePoints id
    → unquote (last_part b'/' (strip_end b'/' base ++ (codes "/v1/callbacks/" ++ quote id)))
      ≡ utf8 id
last_segment base id h =
    ap (λ t. unquote (last_part b'/' t))
      (sym (append_assoc (strip_end b'/' base) (codes "/v1/callbacks") (b'/' ∷ quote id)))
    ∙ ap unquote (
        last_part-append b'/' (strip_end b'/' base ++ codes "/v1/callbacks") (quote id)
          (quote-has-slash id h))
    ∙ unquote-quote id h

-- With a relay configured and a workflow to signal there is one callback; the last segment of its
-- URL decodes to the workflow's id, and its header carries the token.
pub callback_specs_lem :
    (settings : Settings) (base id : Text)
    → settings.callback_base_url ≡ some base
    → base ≢ []
    → id ≢ []
    → AreCodePoints id
    → (spec : CallbackSpec) × (callback_specs settings (some id) ≡ spec ∷ [])
      × (unquote (last_part b'/' spec.url) ≡ utf8 id)
      × (lookup callback_token_header spec.headers ≡ some settings.callback_token)
unfolding callback_specs lookup
callback_specs_lem settings [] id e hb hi hc = absurd (hb refl)
callback_specs_lem settings (b ∷ base) [] e hb hi hc = absurd (hi refl)
callback_specs_lem settings (b ∷ base) (c ∷ id) e hb hi hc = (
  record {
    url = strip_end b'/' (b ∷ base) ++ (codes "/v1/callbacks/" ++ quote (c ∷ id));
    headers = (callback_token_header, settings.callback_token) ∷ [];
  },
  rw e,
  last_segment (b ∷ base) (c ∷ id) hc,
  rw str_eq_refl,
)
