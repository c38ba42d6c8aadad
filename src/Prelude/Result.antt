-- ===== src/Prelude/Result.antt =====
-- Rust's `Result`, with `?` as the bind.
use mathlib.Core.Path.{◌≡◌, refl}
use mathlib.Core.Logic.{◌⊎◌, inl, inr}

pub data Result {ℓ κ} (A : Type ℓ) (E : Type κ) : Type (ℓ ⊔ κ) where
  ok : A → Result A E
  err : E → Result A E

infixl 5 ◌>>=◌
abbrev pub ◌>>=◌ {ℓ κ μ} :
    {A : Type ℓ} {B : Type κ} {E : Type μ} → Result A E → (A → Result B E) → Result B E
ok a >>= f = f a
err e >>= f = err e

pub result_cases :
    {A E : Type 0} → (r : Result A E) → ((e : E) × (r ≡ err e)) ⊎ ((a : A) × (r ≡ ok a))
result_cases (err e) = inl (e, refl)
result_cases (ok a) = inr (a, refl)
