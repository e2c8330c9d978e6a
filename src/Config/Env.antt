-- ===== src/Config/Env.antt =====
-- proxy/config/config.go: the environment's variables in the text of a configuration.
use llmsnap.Config.Unknown.{env_names}
use llmsnap.Config.{ConfigError, env_invalid, env_not_set}
use llmsnap.Prelude.{
  none, some, ok, ◌>>=◌, Text, Option, Result, codes, List, some, ◌++◌, if◌then◌else◌, none, ok,
  contains_rune, ◌∷◌, err, ◌||◌, replace_all, ◌>>=◌, [],
}

unfoldable pub sanitize_env_value_for_yaml : Text → Text → Result ConfigError Text
sanitize_env_value_for_yaml value var_name =
    if contains_rune value 10 || contains_rune value 13 || contains_rune value 0
    then err (env_invalid var_name)
    else ok
        (replace_all (replace_all value (codes "\\") (codes "\\\\")) (codes "\"") (codes "\\\""))

unfoldable pub full_match : Text → Text
full_match var_name = codes "${env." ++ var_name ++ codes "}"

-- The rounds for the matches found. `os.LookupEnv` is the argument `lookup_env`.
unfoldable pub substitute_env_names :
    (Text → Option Text) → Text → List Text → Result ConfigError Text
substitute_env_names lookup_env result [] = ok result
substitute_env_names lookup_env result (var_name ∷ var_names) = elim (lookup_env var_name) [
  | none ↦ err (env_not_set var_name)
  | some value ↦ sanitize_env_value_for_yaml value var_name >>= λ safe.
      substitute_env_names lookup_env (replace_all result (full_match var_name) safe) var_names
]

unfoldable pub substitute_env_macros_in_string :
    (Text → Option Text) → Text → Text → Result ConfigError Text
substitute_env_macros_in_string lookup_env target scan_str =
    substitute_env_names lookup_env target (env_names scan_str)

unfoldable pub scanned : Text → Option Text → Text
scanned s none = s
scanned s (some clean) = clean

-- `without_yaml_comments` is what the YAML package makes of a text, read and written again.
unfoldable pub substitute_env_macros :
    (Text → Option Text) → (Text → Option Text) → Text → Result ConfigError Text
substitute_env_macros without_yaml_comments lookup_env s =
    substitute_env_macros_in_string lookup_env s (scanned s (without_yaml_comments s))
