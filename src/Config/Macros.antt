-- ===== src/Config/Macros.antt =====
-- proxy/config/config.go: what a macro is, which of them a model sees, and their place in a text or a
-- value.
use llmsnap.Config.{
  MacroEntry, str, Value, int, float, bool, slice, mapping, Values, cons, Fields, field, null, nil,
  end,
}
use llmsnap.Prelude.{
  List, Text, ℕ, Bool, codes, replace_all, ◌∷◌, [], if◌then◌else◌, leb, ◌++◌, text_eq, ◌&&◌, ◌||◌,
  ◌==◌, contains_text, show, join,
}

-- `macroNameRegex`: a rune of a macro's name.
unfoldable pub is_name_char : ℕ → Bool
is_name_char c =
    (leb 97 c && leb c 122)
    || (leb 65 c && leb c 90)
    || (leb 48 c && leb c 57)
    || c == 95
    || c == 45

-- What stands for a macro.
unfoldable pub macro_slug : Text → Text
macro_slug name = codes "${" ++ name ++ codes "}"

-- `fmt.Sprintf("%v", value)`. The fields of a mapping are kept in the order of their keys.
unfoldable mutual
  pub format_value : Value → Text
  format_value (str t) = t
  format_value (int z) = show z
  format_value (float t) = t
  format_value (bool b) = if b then codes "true" else codes "false"
  format_value null = codes "<nil>"
  format_value (slice vs) = codes "[" ++ join (codes " ") (format_values vs) ++ codes "]"
  format_value (mapping fs) = codes "map[" ++ join (codes " ") (format_fields fs) ++ codes "]"

  pub format_values : Values → List Text
  format_values nil = []
  format_values (cons v vs) = format_value v ∷ format_values vs

  pub format_fields : Fields → List Text
  format_fields end = []
  format_fields (field k v fs) = (k ++ codes ":" ++ format_value v) ∷ format_fields fs

-- A model's macro takes the place of the first of its name, or the last place.
unfoldable pub set_macro : List MacroEntry → MacroEntry → List MacroEntry
set_macro [] entry = entry ∷ []
set_macro (existing ∷ merged) entry =
    let rest = set_macro merged entry in
    if text_eq existing.name entry.name then entry ∷ merged else existing ∷ rest

unfoldable pub set_macros : List MacroEntry → List MacroEntry → List MacroEntry
set_macros merged [] = merged
set_macros merged (entry ∷ entries) = set_macros (set_macro merged entry) entries

unfoldable pub merged_macros : Text → List MacroEntry → List MacroEntry → List MacroEntry
merged_macros model_id global model =
    set_macros (record { name = codes "MODEL_ID"; value = str model_id } ∷ global) model

-- `strings.ReplaceAll` of one macro.
unfoldable pub substitute : MacroEntry → Text → Text
substitute entry t = replace_all t (macro_slug entry.name) (format_value entry.value)

-- `substituteMacroInValue`, which never returns its error.
unfoldable mutual
  pub substitute_macro_in_value : MacroEntry → Value → Value
  substitute_macro_in_value entry (str t) =
      if text_eq t (macro_slug entry.name)
      then entry.value
      else if contains_text t (macro_slug entry.name)
      then str (substitute entry t)
      else str t
  substitute_macro_in_value entry (int z) = int z
  substitute_macro_in_value entry (float t) = float t
  substitute_macro_in_value entry (bool b) = bool b
  substitute_macro_in_value entry null = null
  substitute_macro_in_value entry (slice vs) = slice (substitute_macro_in_values entry vs)
  substitute_macro_in_value entry (mapping fs) = mapping (substitute_macro_in_fields entry fs)

  pub substitute_macro_in_values : MacroEntry → Values → Values
  substitute_macro_in_values entry nil = nil
  substitute_macro_in_values entry (cons v vs) =
      cons (substitute_macro_in_value entry v) (substitute_macro_in_values entry vs)

  pub substitute_macro_in_fields : MacroEntry → Fields → Fields
  substitute_macro_in_fields entry end = end
  substitute_macro_in_fields entry (field k v fs) =
      field k (substitute_macro_in_value entry v) (substitute_macro_in_fields entry fs)
