-- ===== src/Config/Unknown.antt =====
-- proxy/config/config.go: the macros that are left in a text, and the checks of names and values.
use llmsnap.Config.Macros.{is_name_char, macro_slug}
use llmsnap.Config.{
  MacroEntry, ConfigError, HttpEndpoint, Value, str, unknown_macro, env_not_set,
  macro_name_too_long, macro_value_too_long, should_have_been_substituted, macro_name_invalid,
  macro_self_reference, slice, macro_invalid_type, mapping, null, Values, cons, Fields,
  macro_reserved, field, nil, end,
}
use llmsnap.Prelude.{
  ◌>>◌, List, Option, Text, Result, none, ℕ, ◌∷◌, Bool, [], err, if◌then◌else◌, ok, ◌++◌, contains,
  has_prefix, leb, text_eq, ◌==◌, byte_length, codes, ◌&&◌, drop, not, ◌||◌, contains_text, every,
  some,
}

-- After `${`: the name that a brace ends, if it has a rune at least.
unfoldable pub name_before : Text → Text → Option Text
name_before read [] = none
name_before read (c ∷ cs) =
    let rest = name_before (read ++ c ∷ []) cs in
    if is_name_char c then rest else if c == 125 && not (text_eq read []) then some read else none

unfoldable pub after_opening : Text → Option Text
after_opening (c ∷ d ∷ cs) = if c == 36 && d == 123 then name_before [] cs else none
after_opening t = none

-- `macroPatternRegex.FindAllStringSubmatch`: no match overlaps another.
unfoldable pub found_with : Option Text → List Text → List Text
found_with none names = names
found_with (some name) names = name ∷ names

unfoldable pub macro_names : Text → List Text
macro_names [] = []
macro_names (c ∷ cs) = found_with (after_opening (c ∷ cs)) (macro_names cs)

-- `envMacroRegex`: after `${env.`, a letter or `_`, then letters, digits and `_`, then the brace.
unfoldable pub is_env_char : Text → ℕ → Bool
is_env_char read c =
    (leb 97 c && leb c 122)
    || (leb 65 c && leb c 90)
    || c == 95
    || (leb 48 c && leb c 57 && not (text_eq read []))

unfoldable pub env_before : Text → Text → Option Text
env_before read [] = none
env_before read (c ∷ cs) =
    let rest = env_before (read ++ c ∷ []) cs in
    if is_env_char read c
    then rest
    else if c == 125 && not (text_eq read [])
    then some read
    else none

unfoldable pub env_names : Text → List Text
env_names [] = []
env_names (c ∷ cs) =
    found_with (if has_prefix (c ∷ cs) (codes "${env.") then env_before [] (drop 5 cs) else none)
      (env_names cs)

unfoldable pub first_unknown : List Text → List Text → Result ConfigError (Unit {0})
first_unknown (name ∷ names) env = err (unknown_macro name)
first_unknown [] (name ∷ names) = err (env_not_set name)
first_unknown [] [] = ok tt

-- `validateNestedForUnknownMacros`.
unfoldable mutual
  pub validate_nested : Value → Result ConfigError (Unit {0})
  validate_nested (str t) = first_unknown (macro_names t) (env_names t)
  validate_nested (slice vs) = validate_nested_values vs
  validate_nested (mapping fs) = validate_nested_fields fs
  validate_nested v = ok tt

  pub validate_nested_values : Values → Result ConfigError (Unit {0})
  validate_nested_values nil = ok tt
  validate_nested_values (cons v vs) = do validate_nested v; validate_nested_values vs

  pub validate_nested_fields : Fields → Result ConfigError (Unit {0})
  validate_nested_fields end = ok tt
  validate_nested_fields (field k v fs) = do validate_nested v; validate_nested_fields fs

-- The error for a macro that is left in a model's field.
unfoldable pub leftover : Text → ConfigError
leftover name =
    if text_eq name (codes "PORT") || text_eq name (codes "MODEL_ID")
    then should_have_been_substituted name
    else unknown_macro name

-- The matches of one field; a macro that is replaced at run time is passed over.
unfoldable pub check_names : List Text → List Text → Result ConfigError (Unit {0})
check_names late [] = ok tt
check_names late (name ∷ names) =
    let rest = check_names late names in if contains late name then rest else err (leftover name)

unfoldable pub validate_endpoint_macros : List HttpEndpoint → Result ConfigError (Unit {0})
validate_endpoint_macros [] = ok tt
validate_endpoint_macros (ep ∷ eps) = do
  check_names [] (macro_names ep.endpoint)
  check_names [] (macro_names ep.body)
  validate_endpoint_macros eps

-- The type switch of `validateMacro`.
unfoldable pub validate_macro_value : Text → Value → Result ConfigError (Unit {0})
validate_macro_value name (str t) =
    if leb 1024 (byte_length t)
    then err (macro_value_too_long name)
    else if contains_text t (macro_slug name)
    then err (macro_self_reference name)
    else ok tt
validate_macro_value name (slice vs) = err (macro_invalid_type name)
validate_macro_value name (mapping fs) = err (macro_invalid_type name)
validate_macro_value name null = err (macro_invalid_type name)
validate_macro_value name v = ok tt

unfoldable pub validate_macro : MacroEntry → Result ConfigError (Unit {0})
validate_macro entry =
    if leb 64 (byte_length entry.name)
    then err (macro_name_too_long entry.name)
    else if text_eq entry.name [] || not (every is_name_char entry.name)
    then err (macro_name_invalid entry.name)
    else do
      validate_macro_value entry.name entry.value
      if text_eq entry.name (codes "PORT") || text_eq entry.name (codes "MODEL_ID")
          then err (macro_reserved entry.name)
          else ok tt

unfoldable pub validate_macros : List MacroEntry → Result ConfigError (Unit {0})
validate_macros [] = ok tt
validate_macros (entry ∷ entries) = do validate_macro entry; validate_macros entries
