-- ===== src/Prelude/Results.antt =====
-- Rust's `Result`, with its error type as a parameter, and `do` blocks for `?`.
use mathlib.Core.Path.{◌≡◌, refl}
use mathlib.Core.Logic.{◌⊎◌, inl, inr}

pub data Result {ℓ} (E A : Type ℓ) : Type ℓ where
  ok : A → Result E A
  err : E → Result E A

module _ {ℓ} {E A : Type ℓ} where
  pub Result-cases : (r : Result E A) → ((a : A) × (r ≡ ok a)) ⊎ ((e : E) × (r ≡ err e))
  Result-cases (ok a) = inl (a, refl)
  Result-cases (err e) = inr (e, refl)

  pub ok-injective : (a b : A) → Path (Result E A) (ok a) (ok b) → a ≡ b
  ok-injective a b h = cc

  pub err-ne-ok : (e : E) (a : A) → ¬ Path (Result E A) (err e) (ok a)
  err-ne-ok e a h = cc

  -- `r.map_err(g)`
  abbrev pub map_err : {F : Type ℓ} → (E → F) → Result E A → Result F A
  map_err g (ok a) = ok a
  map_err g (err e) = err (g e)

module _ {ℓ} {E A B : Type ℓ} where
  infixl 5 ◌>>=◌ ◌>>◌
  abbrev pub ◌>>=◌ : Result E A → (A → Result E B) → Result E B
  ok value >>= then_do = then_do value
  err e >>= then_do = err e

  abbrev pub ◌>>◌ : Result E A → Result E B → Result E B
  first >> second = first >>= (λ _. second)

  pub >>=-eq-ok :
      (m : Result E A) (then_do : A → Result E B) {result : B}
      → (m >>= then_do) ≡ ok result
      → (value : A) × (m ≡ ok value) × (then_do value ≡ ok result)
  >>=-eq-ok (ok value) then_do h = (value, refl, h)
  >>=-eq-ok (err e) then_do h = cc
