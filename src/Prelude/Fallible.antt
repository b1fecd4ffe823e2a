-- ===== src/Prelude/Fallible.antt =====
-- The result of fallible code, and Go's `(T, error)`.
use mathlib.Core.Path.{◌≡◌, refl}
use mathlib.Core.Logic.{◌⊎◌, inl, inr}

pub data Result {ℓ κ} (E : Type ℓ) (A : Type κ) : Type (ℓ ⊔ κ) where
  ok : A → Result E A
  err : E → Result E A

module _ {ℓ κ κ'} {E : Type ℓ} {A : Type κ} {B : Type κ'} where
  infixl 5 ◌>>=◌
  abbrev pub ◌>>=◌ : Result E A → (A → Result E B) → Result E B
  ok a >>= f = f a
  err e >>= f = err e

pub Result-cases {ℓ κ} :
    {E : Type ℓ} {A : Type κ} (r : Result E A) → ((e : E) × (r ≡ err e)) ⊎ ((a : A) × (r ≡ ok a))
Result-cases (ok a) = inr (a, refl)
Result-cases (err e) = inl (e, refl)

module _ {ℓ κ κ'} {E : Type ℓ} {A : Type κ} {B : Type κ'} {last : B} where
  -- A chain that ends well began well.
  pub >>=-eq-ok :
      (start : Result E A) (next : A → Result E B)
      → (start >>= next) ≡ ok last
      → (first : A) × (start ≡ ok first) × (next first ≡ ok last)
  >>=-eq-ok (err e) next ended = cc
  >>=-eq-ok (ok first) next ended = (first, refl, ended)

pub ok-injective {ℓ κ} :
    {E : Type ℓ} {A : Type κ} {a b : A} → ◌≡◌ {A = Result E A} (ok a) (ok b) → a ≡ b
ok-injective h = cc
