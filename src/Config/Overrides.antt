-- ===== src/Config/Overrides.antt =====
-- proxy/config/config.go: which macro a model sees under a name.
use llmsnap.Config.Macros.{merged_macros, set_macros, set_macro}
use llmsnap.Config.{get_macro, MacroEntry, Value, str}
use llmsnap.Prelude.{
  List, Text, Option, ◌≡◌, if◌then◌else◌, ◌∷◌, text_eq, ◌∙◌, ap, codes, some, Bool-cases, [], inl,
  refl, text_eq_sound, arith, inr, text_eq_comm,
}

-- The last of a name in a list, and what else stands there if there is none.
abbrev pub last_of : List MacroEntry → Text → Option Value → Option Value
last_of [] name other = other
last_of (entry ∷ entries) name other =
    last_of entries name (if text_eq entry.name name then some entry.value else other)

get_macro-set_macro :
    (ms : List MacroEntry) (entry : MacroEntry) (name : Text)
    → get_macro (set_macro ms entry) name
      ≡ (if text_eq entry.name name then some entry.value else get_macro ms name)
unfolding get_macro set_macro
get_macro-set_macro [] entry name = refl
get_macro-set_macro (m ∷ ms) entry name = elim (Bool-cases (text_eq m.name entry.name)) [
  | inl e ↦
      let same : m.name ≡ entry.name = text_eq_sound m.name entry.name e in
      ground (arith, e, ap (λ t. text_eq t name) same)
  | inr e ↦ ground (
    arith,
    e,
    text_eq_sound m.name name,
    text_eq_sound entry.name name,
    ap (λ t. text_eq t entry.name) {x = m.name} {y = name},
    text_eq_comm name entry.name,
    get_macro-set_macro ms entry name,
  )
]

get_macro-set_macros :
    (ms entries : List MacroEntry) (name : Text)
    → get_macro (set_macros ms entries) name ≡ last_of entries name (get_macro ms name)
unfolding set_macros
get_macro-set_macros ms [] name = refl
get_macro-set_macros ms (entry ∷ entries) name =
    get_macro-set_macros (set_macro ms entry) entries name
    ∙ ap (last_of entries name) (get_macro-set_macro ms entry name)

-- A name stands for the model's last macro of it, else for the model's identifier if it is `MODEL_ID`,
-- else for the first global macro of it.
pub get_macro-merged_macros :
    (model_id : Text) (global model : List MacroEntry) (name : Text)
    → get_macro (merged_macros model_id global model) name
      ≡ last_of model name
          (if text_eq (codes "MODEL_ID") name then some (str model_id) else get_macro global name)
unfolding merged_macros get_macro
get_macro-merged_macros model_id global model name = get_macro-set_macros _ model name
