-- ===== src/Config/Load.antt =====
-- proxy/config/config.go: the loading of a configuration that the YAML decoder has read.
use llmsnap.Config.Groups.{add_default_group_to_config, validate_groups}
use llmsnap.Config.Models.{load_model}
use llmsnap.Config.Unknown.{macro_names, validate_macros, validate_nested}
use llmsnap.Config.Macros.{substitute, substitute_macro_in_value}
use llmsnap.Prelude.{
  ◌>>◌, ◌>>=◌, none, some, List, Text, ℤ, Bool, Result, codes, if◌then◌else◌, pos, ◌∷◌, [], false,
  ltb_ℤ, trim_space, ℕ, ok, text_eq, err, has_key, contains_text, leb_text, not, pos_part, contains,
}
use llmsnap.Config.{
  Config, MacroEntry, Filters, ModelConfig, PeerConfig, Value, ConfigError, real_model_name,
  duplicate_alias, empty_api_key, unknown_macro, api_key_with_space, start_port_too_small,
  log_to_stdout_invalid,
}

unfoldable pub default_config : Config
default_config = record {
  health_check_timeout = pos 120;
  sleep_request_timeout = pos 10;
  wake_request_timeout = pos 10;
  log_requests = false;
  log_level = codes "info";
  log_time_format = [];
  log_to_stdout = codes "proxy";
  metrics_max_in_memory = pos 1000;
  capture_buffer = pos 5;
  models = [];
  groups = [];
  macros = [];
  aliases = [];
  start_port = pos 5800;
  preload = [];
  send_loading_state = false;
  include_aliases_in_list = false;
  required_api_keys = [];
  peers = [];
}

unfoldable pub at_least : ℤ → ℤ → ℤ
at_least low z = if ltb_ℤ z low then low else z

-- The three minimal timeouts.
unfoldable pub clamp_timeouts : Config → Config
clamp_timeouts config = record config {
  health_check_timeout = at_least (pos 15) config.health_check_timeout;
  sleep_request_timeout = at_least (pos 1) config.sleep_request_timeout;
  wake_request_timeout = at_least (pos 1) config.wake_request_timeout;
}

unfoldable pub log_outputs : List Text
log_outputs = codes "proxy" ∷ codes "upstream" ∷ codes "both" ∷ codes "none" ∷ []

unfoldable pub add_aliases :
    Text → List Text → List (Text × Text) → Result ConfigError (List (Text × Text))
add_aliases model_name [] aliases = ok aliases
add_aliases model_name (alias ∷ more) aliases =
    let rest = add_aliases model_name more ((alias, model_name) ∷ aliases) in
    if has_key alias aliases then err (duplicate_alias alias model_name) else rest

unfoldable pub alias_map :
    List (Text × ModelConfig) → List (Text × Text) → Result ConfigError (List (Text × Text))
alias_map [] aliases = ok aliases
alias_map ((model_name, m) ∷ models) aliases = do
  aliases' ← add_aliases model_name m.aliases aliases
  alias_map models aliases'

-- The preloaded models by their real names; blanks and unknown names are dropped.
unfoldable pub real_names : Config → List Text → List Text
real_names config [] = []
real_names config (model_id ∷ ids) =
    let rest = real_names config ids in
    let trimmed = trim_space model_id in
    if text_eq trimmed []
    then rest
    else elim (real_model_name config trimmed) [ none ↦ rest | some real ↦ real ∷ rest ]

unfoldable pub validate_api_keys : List Text → Result ConfigError (Unit {0})
validate_api_keys [] = ok tt
validate_api_keys (apikey ∷ apikeys) =
    let rest = validate_api_keys apikeys in
    if text_eq apikey []
    then err empty_api_key
    else if contains_text apikey (codes " ")
    then err (api_key_with_space apikey)
    else rest

unfoldable pub substitute_in_params : MacroEntry → List (Text × Value) → List (Text × Value)
substitute_in_params entry [] = []
substitute_in_params entry ((k, v) ∷ params) =
    (k, substitute_macro_in_value entry v) ∷ substitute_in_params entry params

unfoldable pub substitute_in_peer_filters : MacroEntry → Filters → Filters
substitute_in_peer_filters entry f = record {
  strip_params = substitute entry f.strip_params;
  set_params = substitute_in_params entry f.set_params;
}

unfoldable pub substitute_in_peer : MacroEntry → PeerConfig → PeerConfig
substitute_in_peer entry peer = record peer {
  api_key = substitute entry peer.api_key;
  filters = substitute_in_peer_filters entry peer.filters;
}

unfoldable pub substitute_peer_macros : List MacroEntry → PeerConfig → PeerConfig
substitute_peer_macros [] peer = peer
substitute_peer_macros (entry ∷ entries) peer =
    substitute_in_peer entry (substitute_peer_macros entries peer)

unfoldable pub first_left : List Text → Result ConfigError (Unit {0})
first_left [] = ok tt
first_left (name ∷ names) = err (unknown_macro name)

unfoldable pub validate_params : List (Text × Value) → Result ConfigError (Unit {0})
validate_params [] = ok tt
validate_params ((k, v) ∷ params) = do validate_nested v; validate_params params

unfoldable pub load_peer : List MacroEntry → PeerConfig → Result ConfigError PeerConfig
load_peer macros peer =
    let peer' = substitute_peer_macros macros peer in
    do
      first_left (macro_names peer'.api_key)
      first_left (macro_names peer'.filters.strip_params)
      validate_params peer'.filters.set_params
      ok peer'

unfoldable pub load_peers :
    List MacroEntry → List (Text × PeerConfig) → Result ConfigError (List (Text × PeerConfig))
load_peers macros [] = ok []
load_peers macros ((name, peer) ∷ peers) = do
  peer' ← load_peer macros peer
  peers' ← load_peers macros peers
  ok ((name, peer') ∷ peers')

-- The entries in the order of their names, in which the loop takes the models.
unfoldable pub insert_entry : {A : Type 0} → Text × A → List (Text × A) → List (Text × A)
insert_entry (k, v) [] = (k, v) ∷ []
insert_entry (k, v) ((k', v') ∷ entries) =
    let rest = insert_entry (k, v) entries in
    if leb_text k k' then (k, v) ∷ (k', v') ∷ entries else (k', v') ∷ rest

unfoldable pub sort_entries : {A : Type 0} → List (Text × A) → List (Text × A)
sort_entries [] = []
sort_entries (entry ∷ entries) = insert_entry entry (sort_entries entries)

module _ (valid_url : Text → Bool) where
  -- The loop over the models; each passes the next port on.
  unfoldable pub load_models :
      Config → ℕ → List (Text × ModelConfig) → Result ConfigError (List (Text × ModelConfig))
  load_models config next_port [] = ok []
  load_models config next_port ((model_id, m) ∷ models) = do
    done ← load_model valid_url config model_id next_port m
    rest ← load_models config done.1 models
    ok ((model_id, done.0) ∷ rest)

  -- From the models on, with the aliases known.
  unfoldable pub load_parts : Config → Result ConfigError Config
  load_parts config = do
    validate_macros config.macros
    models' ← load_models config (pos_part config.start_port) (sort_entries config.models)
    let grouped = add_default_group_to_config (record config { models = models' })
    validate_groups [] grouped.groups
    validate_api_keys grouped.required_api_keys
    peers' ← load_peers grouped.macros grouped.peers
    ok (record grouped { preload = real_names grouped grouped.preload; peers = peers' })

  -- `LoadConfigFromReader`, after the YAML decoder.
  unfoldable pub load_config : Config → Result ConfigError Config
  load_config decoded =
      let config = clamp_timeouts decoded in
      if ltb_ℤ config.start_port (pos 1)
      then err start_port_too_small
      else if not (contains log_outputs config.log_to_stdout)
      then err log_to_stdout_invalid
      else do
        aliases' ← alias_map config.models []
        load_parts (record config { aliases = aliases' })
