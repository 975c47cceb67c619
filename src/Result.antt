-- ===== src/Result.antt =====
-- What Python code that may raise comes to: its value, or what it raised. `do` chains such steps.
use docling_serve_ray.Prelude.{◌≡◌, ◌⊎◌, inl, inr, refl}

pub data Result {ℓ κ} (X : Type ℓ) (V : Type κ) : Type (ℓ ⊔ κ) where
  ok : V → Result X V
  err : X → Result X V

module _ {ℓ κ μ} {X : Type ℓ} {V : Type κ} {W : Type μ} where
  infixl 5 ◌>>=◌
  abbrev pub ◌>>=◌ : Result X V → (V → Result X W) → Result X W
  err x >>= next = err x
  ok v >>= next = next v

infixl 5 ◌>>◌
abbrev pub ◌>>◌ {ℓ κ} : {X : Type ℓ} {V : Type κ} → Result X (Unit {0}) → Result X V → Result X V
step >> next = step >>= λ _. next

pub Result-cases {ℓ κ} :
    {X : Type ℓ} {V : Type κ} (r : Result X V) → ((v : V) × (r ≡ ok v)) ⊎ ((x : X) × (r ≡ err x))
Result-cases (ok v) = inl (v, refl)
Result-cases (err x) = inr (x, refl)
