-- ===== src/Config/Tests/Macros.antt =====
-- proxy/config on concrete inputs: macros, commands, filters and endpoints.
use llmsnap.Config.Accepted.{IsReadable, unmarshal_model_lem}
use llmsnap.Config.Grouped.{without, is_grouped-add_default_group}
use llmsnap.Config.Stripped.{Distinct, trimmed_params, may_strip, sanitized_strip_params_lem}
use llmsnap.Config.Quoting.{OneLine, read_quoted, read_quoted-sanitize_env_value_for_yaml}
use llmsnap.Config.Parameters.{sanitized_strip_params}
use llmsnap.Config.Lines.{sanitize_command-strip_comments, strip_comments_lem}
use llmsnap.Config.Overrides.{last_of, get_macro-merged_macros}
use llmsnap.Config.Endpoints.{
  ModelError, unmarshal_model, default_model, validate_sleep_mode, validate_endpoints,
  validate_endpoint,
}
use llmsnap.Config.Env.{sanitize_env_value_for_yaml}
use llmsnap.Config.Reserved.{find_field, model_id_lem, SameType, find_field-substitute}
use llmsnap.Config.Macros.{
  is_name_char, macro_slug, set_macro, set_macros, merged_macros, substitute, format_value,
  format_values, format_fields, substitute_macro_in_value, substitute_macro_in_values,
  substitute_macro_in_fields,
}
use llmsnap.Config.Unknown.{
  name_before, after_opening, found_with, macro_names, leftover, check_names,
  validate_endpoint_macros, validate_macro_value, validate_macro, validate_macros, validate_nested,
  validate_nested_values, validate_nested_fields,
}
use llmsnap.Config.Commands.{is_comment, without_comments, strip_comments, sanitize_command}
use llmsnap.Config.Groups.{
  is_grouped, orphans, add_default_group_to_config, validate_members, validate_groups,
  default_group_id,
}
use llmsnap.Config.Models.{
  substitute_in_endpoint, substitute_in_endpoints, substitute_in_commands, substitute_in_filters,
  substitute_in_model, substitute_macros, port_macro, uses_port, allocate_port, check_model,
  with_timeout, loading_state_or, set_defaults, strip_model, load_model,
}
use llmsnap.Config.Load.{
  at_least, clamp_timeouts, log_outputs, add_aliases, alias_map, real_names, validate_api_keys,
  load_peers, insert_entry, sort_entries, load_models, load_parts,
}
use llmsnap.Prelude.{
  contains_rune, is_space, push_front, split, trim_left, trim_right, trim_space, join_more, join,
  every, has_prefix, contains_text, replace_from, replace_all, leb_text, insert_text, sort_texts,
  byte_length, show_digits, show, find, put, text_eq, Sorted, ◌&&◌, ◌⊎◌, not, ◌++◌, ◌||◌,
}
use llmsnap.Config.Load.{load_config}
use llmsnap.Config.{ModelConfig, real_model_name, str, end, MacroEntry, get_macro, field, int}
use llmsnap.Prelude.{
  Result, Text, has_key, [], codes, contains, pos, ◌≡◌, false, if◌then◌else◌, keys_of, ok, ◌∷◌, err,
  refl, some,
}
use llmsnap.Config.Tests.{plain_model, decoded, endpoint}

get_macro-merged_macros_case :
    get_macro (merged_macros (codes "m") [] plain_model.macros) (codes "args")
    ≡ last_of plain_model.macros (codes "args") (
        if text_eq (codes "MODEL_ID") (codes "args")
        then some (str (codes "m"))
        else get_macro [] (codes "args"))
get_macro-merged_macros_case =
    get_macro-merged_macros (codes "m") [] plain_model.macros (codes "args")

model_id_lem_case :
    get_macro (merged_macros (codes "m") [] plain_model.macros) (codes "MODEL_ID")
    ≡ some (str (codes "m"))
unfolding real_model_name is_name_char macro_slug set_macro set_macros merged_macros substitute
    format_value format_values format_fields substitute_macro_in_value substitute_macro_in_values
    substitute_macro_in_fields name_before after_opening found_with macro_names leftover check_names
    validate_endpoint_macros validate_macro_value validate_macro validate_macros validate_nested
    validate_nested_values validate_nested_fields is_comment without_comments strip_comments
    is_grouped orphans add_default_group_to_config validate_members validate_groups
    substitute_in_endpoint substitute_in_endpoints substitute_in_commands substitute_in_filters
    substitute_in_model substitute_macros port_macro uses_port allocate_port check_model
    with_timeout loading_state_or set_defaults strip_model load_model at_least clamp_timeouts
    log_outputs add_aliases alias_map real_names validate_api_keys load_peers insert_entry
    sort_entries load_models load_parts load_config contains_rune is_space push_front split
    trim_left trim_right trim_space join_more join every has_prefix contains_text replace_from
    replace_all leb_text insert_text sort_texts byte_length show_digits show find has_key put
    keys_of text_eq contains
model_id_lem_case = model_id_lem (codes "m") [] plain_model.macros {u = tt} refl

abbrev size : MacroEntry
size = record { name = codes "size"; value = int (pos 4) }

find_field-substitute_example :
    (find_field
        (codes "k")
        (substitute_macro_in_fields size (field (codes "k") (str (codes "${size}")) end))
      ≡ some (substitute_macro_in_value size (str (codes "${size}"))))
    × SameType size (str (codes "${size}")) (substitute_macro_in_value size (str (codes "${size}")))
unfolding real_model_name is_name_char macro_slug set_macro set_macros merged_macros substitute
    format_value format_values format_fields substitute_macro_in_value substitute_macro_in_values
    substitute_macro_in_fields name_before after_opening found_with macro_names leftover check_names
    validate_endpoint_macros validate_macro_value validate_macro validate_macros validate_nested
    validate_nested_values validate_nested_fields is_comment without_comments strip_comments
    is_grouped orphans add_default_group_to_config validate_members validate_groups
    substitute_in_endpoint substitute_in_endpoints substitute_in_commands substitute_in_filters
    substitute_in_model substitute_macros port_macro uses_port allocate_port check_model
    with_timeout loading_state_or set_defaults strip_model load_model at_least clamp_timeouts
    log_outputs add_aliases alias_map real_names validate_api_keys load_peers insert_entry
    sort_entries load_models load_parts load_config contains_rune is_space push_front split
    trim_left trim_right trim_space join_more join every has_prefix contains_text replace_from
    replace_all leb_text insert_text sort_texts byte_length show_digits show find has_key put
    keys_of text_eq contains
find_field-substitute_example =
    find_field-substitute size (field (codes "k") (str (codes "${size}")) end) (codes "k")
      (str (codes "${size}")) refl

abbrev script : Text
script = codes "# first\nserve\n  # last"

strip_comments_lem_case :
    ((split 10 (strip_comments script) ≡ without_comments (split 10 script))
      ⊎ ((without_comments (split 10 script) ≡ []) × (strip_comments script ≡ [])))
    × (strip_comments (strip_comments script) ≡ strip_comments script)
strip_comments_lem_case = strip_comments_lem script

sanitize_command-strip_comments_example :
    sanitize_command (split 32) (strip_comments script) ≡ sanitize_command (split 32) script
sanitize_command-strip_comments_example = sanitize_command-strip_comments (split 32) script

sanitized_strip_params_lem_example :
    Sorted (sanitized_strip_params plain_model.filters)
    × Distinct (sanitized_strip_params plain_model.filters)
    × (contains (sanitized_strip_params plain_model.filters) (codes "top_k") ≡ (
        contains (trimmed_params (split 44 plain_model.filters.strip_params)) (codes "top_k")
        && may_strip (codes "top_k")))
sanitized_strip_params_lem_example = sanitized_strip_params_lem plain_model.filters (codes "top_k")

read_quoted-sanitize_env_value_for_yaml_example :
    (read_quoted false (codes "a\\\"b" ++ 34 ∷ codes ", x") ≡ some (codes "a\"b", codes ", x"))
    × OneLine (codes "a\"b")
    × OneLine (codes "a\\\"b")
unfolding sanitize_env_value_for_yaml contains_rune replace_all replace_from has_prefix
read_quoted-sanitize_env_value_for_yaml_example =
    read_quoted-sanitize_env_value_for_yaml (codes "a\"b") (codes "V") (codes "a\\\"b")
      (codes ", x") refl

-- A decoder that names an endpoint in each direction and the sleep mode.
abbrev decode : ModelConfig → ModelConfig
decode m = record m {
  sleep_mode = codes "enable";
  sleep_endpoints = endpoint ∷ [];
  wake_endpoints = endpoint ∷ [];
}

abbrev posted : Text → Text
posted t = codes "POST"

abbrev or_default : Result ModelError ModelConfig → ModelConfig
or_default (ok m) = m
or_default (err e) = default_model

abbrev read_model : ModelConfig
read_model = or_default (unmarshal_model posted decode)

unmarshal_model_lem_example : IsReadable read_model
unfolding unmarshal_model validate_sleep_mode validate_endpoints validate_endpoint text_eq contains
    default_model
unmarshal_model_lem_example = unmarshal_model_lem posted decode read_model refl

is_grouped-add_default_group_case :
    is_grouped (add_default_group_to_config decoded).groups (codes "m") ≡ (
      contains (keys_of decoded.models) (codes "m") && not (is_grouped decoded.groups (codes "m"))
      || is_grouped (without default_group_id decoded.groups) (codes "m"))
unfolding has_key
is_grouped-add_default_group_case = is_grouped-add_default_group decoded (codes "m") (refl, tt)
