-- ===== src/Prelude/Maps.antt =====
-- Go's maps from strings, as association lists with each key once.
use mathlib.Core.Bool.{Bool, true, false}
use mathlib.Core.Option.{Option, none, some}
use mathlib.Core.Path.{◌≡◌, refl}
use mathlib.Core.List.{List, [], ◌∷◌}
use native.Mathlib.Omega.{arith}
use llmsnap.Prelude.Tests.{if◌then◌else◌}
use llmsnap.Prelude.Texts.{Text, text_eq}

module _ {ℓ} {A : Type ℓ} where
  -- `m[key]`.
  unfoldable pub find : Text → List (Text × A) → Option A
  find key [] = none
  find key ((k, v) ∷ entries) =
      let rest = find key entries in if text_eq k key then some v else rest

  -- `_, found := m[key]`.
  unfoldable pub has_key : Text → List (Text × A) → Bool
  has_key key [] = false
  has_key key ((k, v) ∷ entries) =
      let rest = has_key key entries in if text_eq k key then true else rest

  -- `m[key] = v`.
  unfoldable pub put : Text → A → List (Text × A) → List (Text × A)
  put key v [] = (key, v) ∷ []
  put key v ((k, w) ∷ entries) =
      let rest = put key v entries in if text_eq k key then (k, v) ∷ entries else (k, w) ∷ rest

  -- `for key := range m`.
  unfoldable pub keys_of : List (Text × A) → List Text
  keys_of [] = []
  keys_of ((k, v) ∷ entries) = k ∷ keys_of entries

-- Each key once, as in Go's maps.
abbrev pub IsMap : {A : Type 0} → List (Text × A) → Type 0
IsMap [] = Unit {0}
IsMap ((k, v) ∷ entries) = (has_key k entries ≡ false) × IsMap entries

-- The value found, or another.
abbrev pub or_else : {A : Type 0} → Option A → Option A → Option A
or_else none other = other
or_else (some a) other = some a

pub or_else-none : {A : Type 0} → (x : Option A) → or_else x none ≡ x
or_else-none none = refl
or_else-none (some a) = refl

pub or_else_assoc :
    {A : Type 0} → (x y z : Option A) → or_else (or_else x y) z ≡ or_else x (or_else y z)
or_else_assoc none y z = refl
or_else_assoc (some a) y z = refl

pub has_key-find :
    {A : Type 0}
    → (t : Text) (entries : List (Text × A)) → has_key t entries ≡ false
    → find t entries ≡ none
unfolding find has_key
has_key-find t [] h = refl
has_key-find t ((k, v) ∷ entries) h = ground (arith, h, has_key-find t entries)

pub find-has_key :
    {A : Type 0}
    → (t : Text) (entries : List (Text × A)) → find t entries ≡ none
    → has_key t entries ≡ false
unfolding find has_key
find-has_key t [] h = refl
find-has_key t ((k, v) ∷ entries) h = ground (arith, h, find-has_key t entries)
