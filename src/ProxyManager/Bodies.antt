-- ===== src/ProxyManager/Bodies.antt =====
-- proxy/proxymanager.go: the model that an upstream is asked for. What gjson and sjson do with a path
-- that is a plain key is a hypothesis.
use llmsnap.Config.Stripped.{sanitized_strip_params_lem, trimmed_params}
use llmsnap.Config.Parameters.{
  sanitized_set_params, param_keys, sanitized_strip_params, unprotected,
}
use llmsnap.Config.{Value, Filters, ModelConfig, str}
use llmsnap.Config.Macros.{is_name_char}
use llmsnap.ProxyManager.Requests.{
  Json, local_body, apply_filters, edit, filters_in, set_all, strip_all, use_model_name_of,
  rename_model, value_or_null,
}
use mathlib.Core.Path.{subst}
use llmsnap.Prelude.{
  List, Text, contains, Option, codes, every, text_eq, ◌∷◌, [], some, ◌≡◌, false, none, true, ◌∙◌,
  arith, find, if◌then◌else◌, refl, text_eq_comm, sort_texts, contains-sort_texts, Bool, ◌&&◌,
  split,
}

-- A key that a JSON path reads as it stands.
abbrev pub IsPlain : Text → Type 0
IsPlain key = every is_name_char key ≡ true

abbrev pub AllPlain : List Text → Type 0
AllPlain [] = Unit {0}
AllPlain (key ∷ keys) = IsPlain key × AllPlain keys

-- An edit of another key leaves the model's name, and setting it sets it.
pub record JsonLaws (json : Json) : Type 0 where
  pub model_of-delete_value :
      (key body body' : Text)
      → IsPlain key
      → text_eq (codes "model") key ≡ false
      → json.delete_value key body ≡ some body'
      → json.model_of body' ≡ json.model_of body
  pub model_of-set_other :
      (key : Text) (v : Value) (body body' : Text)
      → IsPlain key
      → text_eq (codes "model") key ≡ false
      → json.set_value key v body ≡ some body'
      → json.model_of body' ≡ json.model_of body
  pub model_of-set_model :
      (name body body' : Text)
      → json.set_value (codes "model") (str name) body ≡ some body'
      → json.model_of body' ≡ name

-- No key of a list is `model`.
abbrev pub NoModel : List Text → Type 0
NoModel [] = Unit {0}
NoModel (key ∷ keys) = (text_eq (codes "model") key ≡ false) × NoModel keys

contains-NoModel : (keys : List Text) → contains keys (codes "model") ≡ false → NoModel keys
unfolding contains
contains-NoModel [] h = tt
contains-NoModel (key ∷ keys) h =
    ground (arith, h, text_eq_comm (codes "model") key, contains-NoModel keys)

-- The name in a body that may be missing.
abbrev pub Names : Json → Text → Option Text → Type 0
Names json name none = Unit {0}
Names json name (some body) = json.model_of body ≡ name

keys-unprotected :
    (params : List (Text × Value))
    → contains (param_keys (unprotected params)) (codes "model") ≡ false
unfolding param_keys unprotected contains
keys-unprotected [] = refl
keys-unprotected ((key, v) ∷ params) =
    ground (arith, keys-unprotected params, text_eq_comm (codes "model") key)

never_stripped : (f : Filters) → contains (sanitized_strip_params f) (codes "model") ≡ false
unfolding contains text_eq
never_stripped f =
    (sanitized_strip_params_lem f (codes "model")).2
    ∙ and_false (contains (trimmed_params (split 44 f.strip_params)) (codes "model"))
  where
    and_false : (b : Bool) → (b && false) ≡ false
    and_false true = refl
    and_false false = refl

module _ (json : Json) (laws : JsonLaws json) where
  edit-Names :
      (name : Text) (f : Text → Option Text) (body : Option Text)
      → ((b b' : Text) → f b ≡ some b' → json.model_of b' ≡ json.model_of b)
      → Names json name body
      → Names json name (edit f body)
  unfolding edit
  edit-Names name f none keeps h = tt
  edit-Names name f (some b) keeps h = by_result (f b) refl
    where
      by_result : (x : Option Text) → f b ≡ x → Names json name x
      by_result none e = tt
      by_result (some b') e = keeps b b' e ∙ h

  strip_all-Names :
      (name : Text) (params : List Text) (body : Option Text)
      → AllPlain params
      → NoModel params
      → Names json name body
      → Names json name (strip_all json params body)
  unfolding strip_all
  strip_all-Names name [] body plain other h = h
  strip_all-Names name (p ∷ ps) body plain other h =
      strip_all-Names name ps (edit (json.delete_value p) body) plain.1 other.1 (
        edit-Names name (json.delete_value p) body
          (λ b b' e. laws.model_of-delete_value p b b' plain.0 other.0 e) h)

  set_all-Names :
      (name : Text) (params : List (Text × Value)) (ks : List Text) (body : Option Text)
      → AllPlain ks
      → NoModel ks
      → Names json name body
      → Names json name (set_all json params ks body)
  unfolding set_all
  set_all-Names name params [] body plain other h = h
  set_all-Names name params (k ∷ ks) body plain other h =
      set_all-Names name params ks _ plain.1 other.1 (
        edit-Names name (json.set_value k (value_or_null (find k params))) body
          (λ b b' e. laws.model_of-set_other k _ b b' plain.0 other.0 e) h)

  apply_filters-Names :
      (name : Text) (f : Filters) (body : Option Text)
      → AllPlain (sanitized_strip_params f)
      → AllPlain (sanitized_set_params f).1
      → Names json name body
      → Names json name (apply_filters json f body)
  unfolding apply_filters sanitized_set_params
  apply_filters-Names name f body strip_plain set_plain h =
      set_all-Names name (unprotected f.set_params)
        (sort_texts (param_keys (unprotected f.set_params))) _ set_plain
        (contains-NoModel (sort_texts (param_keys (unprotected f.set_params))) (
          contains-sort_texts (param_keys (unprotected f.set_params)) (codes "model")
          ∙ keys-unprotected f.set_params))
        (strip_all-Names name (sanitized_strip_params f) body strip_plain
          (contains-NoModel (sanitized_strip_params f) (never_stripped f)) h)

  rename_model-Names :
      (use_name body : Text)
      → Names json
          (if text_eq use_name [] then json.model_of body else use_name)
          (rename_model json use_name body)
  unfolding rename_model
  rename_model-Names use_name body = by_use (text_eq use_name [])
    where
      set_name : Option Text
      set_name = json.set_value (codes "model") (str use_name) body

      by_result : (x : Option Text) → set_name ≡ x → Names json use_name x
      by_result none e = tt
      by_result (some sent) e = laws.model_of-set_model use_name body sent e

      by_use :
          (b : Bool)
          → Names json
              (if b then json.model_of body else use_name)
              (if b then some body else set_name)
      by_use true = refl
      by_use false = by_result set_name refl

-- Where the packages keep to their laws and the filters name plain keys, a local body that is sent names
-- the model that the configuration asks the upstream for, or else the one that was requested: no filter
-- can change it.
pub model_of-local_body :
    (json : Json) (m : ModelConfig) (body sent : Text)
    → JsonLaws json
    → AllPlain (sanitized_strip_params m.filters)
    → AllPlain (sanitized_set_params m.filters).1
    → local_body json (some m) body ≡ some sent
    → json.model_of sent
      ≡ (if text_eq m.use_model_name [] then json.model_of body else m.use_model_name)
unfolding local_body filters_in use_model_name_of
model_of-local_body json m body sent laws strip_plain set_plain h = subst (Names json name) h (
    apply_filters-Names json laws name m.filters _ strip_plain set_plain
      (rename_model-Names json laws m.use_model_name body))
  where
    name : Text
    name = if text_eq m.use_model_name [] then json.model_of body else m.use_model_name
