-- ===== src/Prelude/Results.antt =====
-- What an operation that may fail returns.
use mathlib.Core.Path.{◌≡◌, refl}

pub data Result {ℓ κ} (E : Type ℓ) (A : Type κ) : Type (ℓ ⊔ κ) where
  ok : A → Result E A
  err : E → Result E A

module _ {ℓ κ μ} {E : Type ℓ} {X : Type κ} {Y : Type μ} where
  infixl 5 ◌>>=◌
  abbrev pub ◌>>=◌ : Result E X → (X → Result E Y) → Result E Y
  err why >>= next = err why
  ok x >>= next = next x

  infixl 5 ◌>>◌
  abbrev pub ◌>>◌ : Result E X → Result E Y → Result E Y
  err why >> second = err why
  ok x >> second = second

  -- What has succeeded as a whole has succeeded in each part.
  pub ok-bind :
      (first : Result E X) (next : X → Result E Y) {y : Y}
      → first >>= next ≡ ok y
      → (x : X) × (first ≡ ok x) × (next x ≡ ok y)
  ok-bind (err why) next whole = cc
  ok-bind (ok x) next whole = (x, refl, whole)

  pub ok-then :
      (first : Result E X) (second : Result E Y) {y : Y}
      → first >> second ≡ ok y
      → ((x : X) × (first ≡ ok x)) × (second ≡ ok y)
  ok-then (err why) second whole = cc
  ok-then (ok x) second whole = ((x, refl), whole)

module _ {ℓ κ} {E : Type ℓ} {X : Type κ} where
  pub ok-injective : {x x' : X} → let r : Result E X = ok x in r ≡ ok x' → x ≡ x'
  ok-injective same = cc
