-- ===== src/Config/Models.antt =====
-- proxy/config/config.go: what the loading makes of one model. `url.Parse` succeeds where the argument
-- `valid_url` says so.
use llmsnap.Config.Unknown.{
  check_names, validate_macros, macro_names, validate_endpoint_macros, validate_nested_fields,
}
use llmsnap.Config.Commands.{strip_comments}
use llmsnap.Config.Macros.{substitute, substitute_macro_in_fields, merged_macros}
use llmsnap.Prelude.{
  ◌>>◌, ◌>>=◌, Bool, List, Text, ℕ, ℤ, Option, Result, codes, contains_text, ◌∷◌, [], if◌then◌else◌,
  some, eqb_ℤ, none, ok, pos, suc, err,
}
use llmsnap.Config.{
  Config, MacroEntry, ModelConfig, Filters, HttpEndpoint, ConfigError, int, proxy_port_without_cmd,
  invalid_proxy_url,
}

unfoldable pub substitute_in_endpoint : MacroEntry → HttpEndpoint → HttpEndpoint
substitute_in_endpoint entry ep = record ep {
  endpoint = substitute entry ep.endpoint;
  body = substitute entry ep.body;
}

unfoldable pub substitute_in_endpoints : MacroEntry → List HttpEndpoint → List HttpEndpoint
substitute_in_endpoints entry [] = []
substitute_in_endpoints entry (ep ∷ eps) =
    substitute_in_endpoint entry ep ∷ substitute_in_endpoints entry eps

-- The fields that both loops replace in. An empty metadata has nothing to replace.
unfoldable pub substitute_in_commands : MacroEntry → ModelConfig → ModelConfig
substitute_in_commands entry m = record m {
  cmd = substitute entry m.cmd;
  cmd_stop = substitute entry m.cmd_stop;
  proxy = substitute entry m.proxy;
  sleep_endpoints = substitute_in_endpoints entry m.sleep_endpoints;
  wake_endpoints = substitute_in_endpoints entry m.wake_endpoints;
  metadata = substitute_macro_in_fields entry m.metadata;
}

unfoldable pub substitute_in_filters : MacroEntry → Filters → Filters
substitute_in_filters entry f = record f { strip_params = substitute entry f.strip_params }

-- One round of the loop over the merged macros.
unfoldable pub substitute_in_model : MacroEntry → ModelConfig → ModelConfig
substitute_in_model entry m = record (substitute_in_commands entry m) {
  check_endpoint = substitute entry m.check_endpoint;
  filters = substitute_in_filters entry m.filters;
}

-- The last macro of the list goes first.
unfoldable pub substitute_macros : List MacroEntry → ModelConfig → ModelConfig
substitute_macros [] m = m
substitute_macros (entry ∷ entries) m = substitute_in_model entry (substitute_macros entries m)

unfoldable pub port_macro : ℕ → MacroEntry
port_macro port = record { name = codes "PORT"; value = int (pos port) }

unfoldable pub uses_port : Text → Bool
uses_port t = contains_text t (codes "${PORT}")

-- The model with its port in it, and the port after it.
unfoldable pub allocate_port : Text → ℕ → ModelConfig → Result ConfigError (ModelConfig × ℕ)
allocate_port model_id next_port m =
    if uses_port m.cmd
    then ok (substitute_in_commands (port_macro next_port) m, suc next_port)
    else if uses_port m.proxy
    then err (proxy_port_without_cmd model_id)
    else ok (m, next_port)

-- Go's map of the fields is checked in any order.
unfoldable pub check_model : ModelConfig → Result ConfigError (Unit {0})
check_model m = do
  check_names [] (macro_names m.cmd)
  check_names (codes "PID" ∷ []) (macro_names m.cmd_stop)
  check_names [] (macro_names m.proxy)
  check_names [] (macro_names m.check_endpoint)
  check_names [] (macro_names m.filters.strip_params)
  validate_endpoint_macros m.sleep_endpoints
  validate_endpoint_macros m.wake_endpoints
  validate_nested_fields m.metadata

unfoldable pub with_timeout : ℤ → List HttpEndpoint → List HttpEndpoint
with_timeout default [] = []
with_timeout default (ep ∷ eps) =
    (if eqb_ℤ ep.timeout (pos 0) then record ep { timeout = default } else ep)
    ∷ with_timeout default eps

unfoldable pub loading_state_or : Bool → Option Bool → Option Bool
loading_state_or global none = some global
loading_state_or global (some own) = some own

-- What is set last: the loading state and the timeouts, from the whole configuration.
unfoldable pub set_defaults : Config → ModelConfig → ModelConfig
set_defaults config m = record m {
  send_loading_state = loading_state_or config.send_loading_state m.send_loading_state;
  sleep_endpoints = with_timeout config.sleep_request_timeout m.sleep_endpoints;
  wake_endpoints = with_timeout config.wake_request_timeout m.wake_endpoints;
}

unfoldable pub strip_model : ModelConfig → ModelConfig
strip_model m = record m { cmd = strip_comments m.cmd; cmd_stop = strip_comments m.cmd_stop }

module _ (valid_url : Text → Bool) where
  unfoldable pub load_model : Config → Text → ℕ → ModelConfig → Result ConfigError (ModelConfig × ℕ)
  load_model config model_id next_port m = do
    validate_macros m.macros
    done ←
        allocate_port model_id next_port
          (substitute_macros (merged_macros model_id config.macros m.macros) (strip_model m))
    check_model done.0
    if valid_url done.0.proxy
        then ok (set_defaults config done.0, done.1)
        else err (invalid_proxy_url model_id)
