-- ===== src/Config/Tests.antt =====
-- proxy/config on concrete inputs.
mod Macros
use llmsnap.Config.Accepted.{IsReadable, unmarshal_model_lem}
use llmsnap.Config.Grouped.{without, is_grouped-add_default_group}
use llmsnap.Config.Stripped.{Distinct, trimmed_params, may_strip, sanitized_strip_params_lem}
use llmsnap.Config.Quoting.{read_quoted, read_quoted-sanitize_env_value_for_yaml}
use llmsnap.Config.Parameters.{sanitized_strip_params}
use llmsnap.Config.Lines.{sanitize_command-strip_comments, strip_comments_lem}
use llmsnap.Config.Overrides.{last_of, get_macro-merged_macros}
use llmsnap.Config.Endpoints.{
  ModelError, unmarshal_model, default_model, validate_sleep_mode, validate_endpoints,
  validate_endpoint,
}
use llmsnap.Config.Env.{sanitize_env_value_for_yaml}
use llmsnap.Config.Reserved.{find_field, model_id_lem, SameType, find_field-substitute}
use llmsnap.Config.Ports.{finished, expanded, port_users, IsClosed, load_models_lem, load_model_lem}
use llmsnap.Config.Macros.{
  is_name_char, macro_slug, set_macro, set_macros, merged_macros, substitute, format_value,
  format_values, format_fields, substitute_macro_in_value, substitute_macro_in_values,
  substitute_macro_in_fields,
}
use llmsnap.Config.Unknown.{
  name_before, after_opening, found_with, macro_names, leftover, check_names,
  validate_endpoint_macros, validate_macro_value, validate_macro, validate_macros, validate_nested,
  validate_nested_values, validate_nested_fields, first_unknown, env_names,
}
use llmsnap.Config.Commands.{is_comment, without_comments, strip_comments, sanitize_command}
use llmsnap.Config.Groups.{
  is_grouped, orphans, add_default_group_to_config, validate_members, validate_groups,
  default_group_id,
}
use llmsnap.Config.Models.{
  substitute_in_endpoint, substitute_in_endpoints, substitute_in_commands, substitute_in_filters,
  substitute_in_model, substitute_macros, port_macro, uses_port, allocate_port, check_model,
  with_timeout, loading_state_or, set_defaults, strip_model, load_model,
}
use llmsnap.Config.Load.{
  at_least, clamp_timeouts, log_outputs, add_aliases, alias_map, real_names, validate_api_keys,
  load_peers, insert_entry, sort_entries, load_models, load_parts,
}
use llmsnap.Prelude.{
  contains_rune, is_space, push_front, split, trim_left, trim_right, trim_space, join_more, join,
  every, has_prefix, contains_text, replace_from, replace_all, leb_text, insert_text, sort_texts,
  byte_length, show_digits, show, find, put, text_eq, List, Sorted, get_elem?, ◌&&◌, ◌⊎◌, not, ◌+◌,
  ◌++◌, ◌||◌,
}
use llmsnap.Config.Aliases.{owner}
use llmsnap.Config.Members.{memberships}
use llmsnap.Config.Whole.{load_config-bounds, memberships-load_config, real_model_name-load_config}
use llmsnap.Config.Load.{load_config}
use llmsnap.Config.{
  Config, HttpEndpoint, ModelConfig, real_model_name, ConfigError, str, end, MacroEntry, get_macro,
  field, int, slice, cons, nil,
}
use llmsnap.Prelude.{
  Result, Text, has_key, ltb_ℤ, Bool, [], codes, contains, pos, ◌≡◌, false, if◌then◌else◌, keys_of,
  ok, true, ◌∷◌, err, refl, some, none,
}

abbrev any_url : Text → Bool
any_url t = true

abbrev endpoint : HttpEndpoint
endpoint = record { endpoint = codes "/sleep"; method = codes "post"; body = []; timeout = pos 0 }

abbrev plain_model : ModelConfig
plain_model = record {
  cmd = codes "serve --port ${PORT} ${args}";
  cmd_stop = codes "kill ${PID}";
  proxy = codes "http://localhost:${PORT}";
  aliases = codes "small" ∷ [];
  env = [];
  check_endpoint = codes "/health";
  unload_after = pos 0;
  unlisted = false;
  use_model_name = [];
  sleep_mode = codes "disable";
  sleep_endpoints = [];
  wake_endpoints = [];
  name = [];
  description = [];
  concurrency_limit = pos 0;
  filters = record { strip_params = codes "top_k, model,top_k"; set_params = [] };
  macros = record { name = codes "args"; value = str (codes "-v") } ∷ [];
  metadata = field (codes "tags") (slice (cons (str (codes "on ${args}")) nil)) end;
  send_loading_state = none;
}

abbrev decoded : Config
decoded = record {
  health_check_timeout = pos 1;
  sleep_request_timeout = pos 0;
  wake_request_timeout = pos 10;
  log_requests = false;
  log_level = codes "info";
  log_time_format = [];
  log_to_stdout = codes "proxy";
  metrics_max_in_memory = pos 1000;
  capture_buffer = pos 5;
  models = (codes "m", plain_model) ∷ (codes "a", plain_model_other) ∷ [];
  groups =
      (
        codes "g",
        record { swap = true; exclusive = true; persistent = false; members = codes "a" ∷ [] },
      )
      ∷ [];
  macros = [];
  aliases = [];
  start_port = pos 5800;
  preload = codes " small " ∷ [];
  send_loading_state = false;
  include_aliases_in_list = false;
  required_api_keys = [];
  peers = [];
}
  where
    plain_model_other : ModelConfig
    plain_model_other = record plain_model { aliases = [] }

abbrev or_decoded : Result ConfigError Config → Config
or_decoded (ok config) = config
or_decoded (err e) = decoded

abbrev loaded : Config
loaded = or_decoded (load_config any_url decoded)

loads : load_config any_url decoded ≡ ok loaded
unfolding real_model_name is_name_char macro_slug set_macro set_macros merged_macros substitute
    format_value format_values format_fields substitute_macro_in_value substitute_macro_in_values
    substitute_macro_in_fields name_before after_opening found_with macro_names leftover check_names
    validate_endpoint_macros validate_macro_value validate_macro validate_macros validate_nested
    validate_nested_values validate_nested_fields first_unknown env_names is_comment
    without_comments strip_comments is_grouped orphans add_default_group_to_config validate_members
    validate_groups substitute_in_endpoint substitute_in_endpoints substitute_in_commands
    substitute_in_filters substitute_in_model substitute_macros port_macro uses_port allocate_port
    check_model with_timeout loading_state_or set_defaults strip_model load_model at_least
    clamp_timeouts log_outputs add_aliases alias_map real_names validate_api_keys load_peers
    insert_entry sort_entries load_models load_parts load_config contains_rune is_space push_front
    split trim_left trim_right trim_space join_more join every has_prefix contains_text replace_from
    replace_all leb_text insert_text sort_texts byte_length show_digits show find has_key put
    keys_of text_eq contains
loads = refl

load_config-bounds_example :
    (ltb_ℤ loaded.health_check_timeout (pos 15) ≡ false)
    × (ltb_ℤ loaded.sleep_request_timeout (pos 1) ≡ false)
    × (ltb_ℤ loaded.wake_request_timeout (pos 1) ≡ false)
    × (ltb_ℤ loaded.start_port (pos 1) ≡ false)
load_config-bounds_example = load_config-bounds any_url decoded loaded loads

real_model_name-load_config_example : real_model_name loaded (codes "small") ≡ (
    if has_key (codes "small") loaded.models
    then some (codes "small")
    else owner decoded.models (codes "small"))
real_model_name-load_config_example =
    real_model_name-load_config any_url decoded loaded (codes "small") loads

memberships-load_config_example : memberships loaded.groups (codes "m") ≡ 1
unfolding real_model_name is_name_char macro_slug set_macro set_macros merged_macros substitute
    format_value format_values format_fields substitute_macro_in_value substitute_macro_in_values
    substitute_macro_in_fields name_before after_opening found_with macro_names leftover check_names
    validate_endpoint_macros validate_macro_value validate_macro validate_macros validate_nested
    validate_nested_values validate_nested_fields first_unknown env_names is_comment
    without_comments strip_comments is_grouped orphans add_default_group_to_config validate_members
    validate_groups substitute_in_endpoint substitute_in_endpoints substitute_in_commands
    substitute_in_filters substitute_in_model substitute_macros port_macro uses_port allocate_port
    check_model with_timeout loading_state_or set_defaults strip_model load_model at_least
    clamp_timeouts log_outputs add_aliases alias_map real_names validate_api_keys load_peers
    insert_entry sort_entries load_models load_parts load_config contains_rune is_space push_front
    split trim_left trim_right trim_space join_more join every has_prefix contains_text replace_from
    replace_all leb_text insert_text sort_texts byte_length show_digits show find has_key put
    keys_of text_eq contains
memberships-load_config_example =
    memberships-load_config any_url decoded loaded (codes "m") loads (refl, tt) refl refl

abbrev served : ModelConfig
served = record plain_model {
  cmd = codes "serve --port 5800 -v";
  metadata = field (codes "tags") (slice (cons (str (codes "on -v")) nil)) end;
  proxy = codes "http://localhost:5800";
  send_loading_state = some false;
}

loads_model : load_model any_url decoded (codes "m") 5800 plain_model ≡ ok (served, 5801)
unfolding real_model_name is_name_char macro_slug set_macro set_macros merged_macros substitute
    format_value format_values format_fields substitute_macro_in_value substitute_macro_in_values
    substitute_macro_in_fields name_before after_opening found_with macro_names leftover check_names
    validate_endpoint_macros validate_macro_value validate_macro validate_macros validate_nested
    validate_nested_values validate_nested_fields first_unknown env_names is_comment
    without_comments strip_comments is_grouped orphans add_default_group_to_config validate_members
    validate_groups substitute_in_endpoint substitute_in_endpoints substitute_in_commands
    substitute_in_filters substitute_in_model substitute_macros port_macro uses_port allocate_port
    check_model with_timeout loading_state_or set_defaults strip_model load_model at_least
    clamp_timeouts log_outputs add_aliases alias_map real_names validate_api_keys load_peers
    insert_entry sort_entries load_models load_parts load_config contains_rune is_space push_front
    split trim_left trim_right trim_space join_more join every has_prefix contains_text replace_from
    replace_all leb_text insert_text sort_texts byte_length show_digits show find has_key put
    keys_of text_eq contains
loads_model = refl

load_model_lem_example :
    (served ≡ finished decoded (codes "m") plain_model 5800)
    × (5801 ≡ 5800 + (if uses_port (expanded decoded (codes "m") plain_model).cmd then 1 else 0))
    × IsClosed served
    × (any_url served.proxy ≡ true)
load_model_lem_example =
    load_model_lem any_url decoded (codes "m") 5800 plain_model served 5801 loads_model

abbrev as_list : Result ConfigError (List (Text × ModelConfig)) → List (Text × ModelConfig)
as_list (ok models) = models
as_list (err e) = []

abbrev loaded_models : List (Text × ModelConfig)
loaded_models =
    as_list
      (load_models any_url decoded 5800 ((codes "a", plain_model) ∷ (codes "m", plain_model) ∷ []))

loads_models :
    load_models any_url decoded 5800 ((codes "a", plain_model) ∷ (codes "m", plain_model) ∷ [])
    ≡ ok loaded_models
unfolding real_model_name is_name_char macro_slug set_macro set_macros merged_macros substitute
    format_value format_values format_fields substitute_macro_in_value substitute_macro_in_values
    substitute_macro_in_fields name_before after_opening found_with macro_names leftover check_names
    validate_endpoint_macros validate_macro_value validate_macro validate_macros validate_nested
    validate_nested_values validate_nested_fields first_unknown env_names is_comment
    without_comments strip_comments is_grouped orphans add_default_group_to_config validate_members
    validate_groups substitute_in_endpoint substitute_in_endpoints substitute_in_commands
    substitute_in_filters substitute_in_model substitute_macros port_macro uses_port allocate_port
    check_model with_timeout loading_state_or set_defaults strip_model load_model at_least
    clamp_timeouts log_outputs add_aliases alias_map real_names validate_api_keys load_peers
    insert_entry sort_entries load_models load_parts load_config contains_rune is_space push_front
    split trim_left trim_right trim_space join_more join every has_prefix contains_text replace_from
    replace_all leb_text insert_text sort_texts byte_length show_digits show find has_key put
    keys_of text_eq contains
loads_models = refl

load_models_lem_example :
    get_elem? loaded_models 1
    ≡ some (
      codes "m",
      finished decoded
          (codes "m")
          plain_model
          (5800 + port_users decoded ((codes "a", plain_model) ∷ [])),
    )
load_models_lem_example =
    load_models_lem any_url decoded 5800 ((codes "a", plain_model) ∷ []) (codes "m") plain_model []
      loaded_models loads_models
