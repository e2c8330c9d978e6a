-- ===== src/Config/Reserved.antt =====
-- proxy/config/config.go: a macro that cannot be redefined, and what a macro makes of metadata.
use llmsnap.Config.Overrides.{last_of, get_macro-merged_macros}
use llmsnap.Config.Macros.{
  substitute_macro_in_value, substitute, macro_slug, substitute_macro_in_fields, merged_macros,
  substitute_macro_in_values, format_value, is_name_char,
}
use llmsnap.Config.{
  MacroEntry, Fields, Value, str, get_macro, int, field, float, bool, end, slice, mapping, null,
}
use llmsnap.Prelude.{
  true, err, Text, contains_text, List, replace_from, ◌≡◌, Option, false, ok, replace_all, some,
  none, text_eq, ◌∷◌, arith, codes, ◌⊎◌, [], if◌then◌else◌, ok-then, ◌≢◌, refl, ◌∙◌, ap, Bool,
  Bool-cases, leb, Result, byte_length, inl, text_eq_sound, ◌>>◌, ◌||◌, inr, not, every,
  text_eq_refl,
}
use llmsnap.Config.Unknown.{validate_macro, validate_macros, validate_macro_value}

reserved_last :
    {E : Type 0}
    → (a b p q : Bool) (e e' e'' : E) (r : Result E (Unit {0})) {u : Unit {0}}
    → (if a then err e else if b then err e' else (r >> (if p || q then err e'' else ok tt))) ≡ ok u
    → q ≡ false
reserved_last true b p q e e' e'' r h = cc
reserved_last false true p q e e' e'' r h = cc
reserved_last false false true q e e' e'' (ok x) h = cc
reserved_last false false false true e e' e'' (ok x) h = cc
reserved_last false false false false e e' e'' (ok x) h = refl
reserved_last false false p q e e' e'' (err x) h = cc

not_reserved :
    (entry : MacroEntry) {u : Unit {0}}
    → validate_macro entry ≡ ok u
    → text_eq entry.name (codes "MODEL_ID") ≡ false
unfolding validate_macro
not_reserved entry h =
    reserved_last (leb 64 (byte_length entry.name))
      (text_eq entry.name [] || not (every is_name_char entry.name))
      (text_eq entry.name (codes "PORT")) (text_eq entry.name (codes "MODEL_ID")) _ _ _
      (validate_macro_value entry.name entry.value) h

last_of-reserved :
    (model : List MacroEntry) (other : Option Value) {u : Unit {0}}
    → validate_macros model ≡ ok u
    → last_of model (codes "MODEL_ID") other ≡ other
unfolding validate_macros
last_of-reserved [] other h = refl
last_of-reserved (entry ∷ entries) other h =
    let first = ok-then (validate_macro entry) _ h in
    last_of-reserved entries _ first.1
    ∙ ap (λ b. if b then some entry.value else other) (not_reserved entry first.0.1)

-- Whatever macros a configuration and a model define, `MODEL_ID` stands for the model's identifier.
pub model_id_lem :
    (model_id : Text) (global model : List MacroEntry) {u : Unit {0}}
    → validate_macros model ≡ ok u
    → get_macro (merged_macros model_id global model) (codes "MODEL_ID") ≡ some (str model_id)
unfolding text_eq
model_id_lem model_id global model h =
    get_macro-merged_macros model_id global model (codes "MODEL_ID") ∙ last_of-reserved model _ h

-- The value under a key of a mapping.
abbrev pub find_field : Text → Fields → Option Value
find_field k end = none
find_field k (field l v fs) = if text_eq l k then some v else find_field k fs

-- A value after a macro: one that is the macro is replaced by the macro's value with its type, another
-- text stays a text, and what is no text keeps its type.
abbrev pub SameType : MacroEntry → Value → Value → Type 0
SameType entry (str t) v' =
    ((t ≡ macro_slug entry.name) × (v' ≡ entry.value))
    ⊎ ((t ≢ macro_slug entry.name) × (v' ≡ str (substitute entry t)))
SameType entry (int z) v' = v' ≡ int z
SameType entry (float t) v' = v' ≡ float t
SameType entry (bool b) v' = v' ≡ bool b
SameType entry null v' = v' ≡ null
SameType entry (slice vs) v' = v' ≡ slice (substitute_macro_in_values entry vs)
SameType entry (mapping fs) v' = v' ≡ mapping (substitute_macro_in_fields entry fs)

replace_from_absent :
    (t old new : Text) → contains_text t old ≡ false → replace_from 0 t old new ≡ t
unfolding contains_text replace_from
replace_from_absent [] old new h = refl
replace_from_absent (c ∷ cs) old new h = ground (arith, h, replace_from_absent cs old new)

substitute_macro_in_value-SameType :
    (entry : MacroEntry) (v : Value) → SameType entry v (substitute_macro_in_value entry v)
unfolding substitute_macro_in_value substitute replace_all
substitute_macro_in_value-SameType entry (str t) =
    elim (Bool-cases (text_eq t (macro_slug entry.name))) [
      | inl e ↦ inl (text_eq_sound t (macro_slug entry.name) e, ground (arith, e))
      | inr e ↦ inr (
        ground (
          arith,
          e,
          text_eq_refl (macro_slug entry.name),
          ap (λ u. text_eq u (macro_slug entry.name)) {x = t} {y = macro_slug entry.name},
        ),
        ground (arith, e, replace_from_absent t (macro_slug entry.name) (format_value entry.value)),
      )
    ]
substitute_macro_in_value-SameType entry (int z) = refl
substitute_macro_in_value-SameType entry (float t) = refl
substitute_macro_in_value-SameType entry (bool b) = refl
substitute_macro_in_value-SameType entry null = refl
substitute_macro_in_value-SameType entry (slice vs) = refl
substitute_macro_in_value-SameType entry (mapping fs) = refl

find_field-fields :
    (entry : MacroEntry) (fs : Fields) (k : Text) (v : Value)
    → find_field k fs ≡ some v
    → find_field k (substitute_macro_in_fields entry fs) ≡ some (substitute_macro_in_value entry v)
unfolding substitute_macro_in_fields
find_field-fields entry end k v h = ground (arith, h)
find_field-fields entry (field l w fs) k v h =
    ground (
      arith,
      h,
      ap (substitute_macro_in_value entry) {x = w} {y = v},
      find_field-fields entry fs k v,
    )

-- A macro in a mapping changes no key, and under each key the value is as `SameType` says: one that is
-- the macro takes the macro's value with its type, a text stays a text, any other keeps its type.
pub find_field-substitute :
    (entry : MacroEntry) (fs : Fields) (k : Text) (v : Value)
    → find_field k fs ≡ some v
    → (find_field k (substitute_macro_in_fields entry fs)
        ≡ some (substitute_macro_in_value entry v))
      × SameType entry v (substitute_macro_in_value entry v)
find_field-substitute entry fs k v h =
    (find_field-fields entry fs k v h, substitute_macro_in_value-SameType entry v)
