-- ===== src/Config/Endpoints.antt =====
-- proxy/config/model_config.go: the defaults of a model, and what a configuration of one must hold.
-- `strings.ToUpper` is the argument `to_upper`.
use llmsnap.Config.{ModelConfig, HttpEndpoint, end}
use llmsnap.Prelude.{
  ◌>>=◌, ◌>>◌, List, Text, Result, [], codes, if◌then◌else◌, ok, pos, ◌∷◌, false, text_eq, err,
  length, none, not, ◌==◌, contains, ltb_ℤ,
}

pub data ModelError : Type 0 where
  invalid_sleep_mode sleep_endpoints_required wake_endpoints_required : ModelError
  path_required invalid_method negative_timeout : ModelError

abbrev pub sleep_mode_enable : Text
sleep_mode_enable = codes "enable"

abbrev pub sleep_mode_disable : Text
sleep_mode_disable = codes "disable"

-- What the fields are that the YAML does not name, where `runtime.GOOS` is not windows.
unfoldable pub default_model : ModelConfig
default_model = record {
  cmd = [];
  cmd_stop = [];
  proxy = codes "http://localhost:${PORT}";
  aliases = [];
  env = [];
  check_endpoint = codes "/health";
  unload_after = pos 0;
  unlisted = false;
  use_model_name = [];
  sleep_mode = sleep_mode_disable;
  sleep_endpoints = [];
  wake_endpoints = [];
  name = [];
  description = [];
  concurrency_limit = pos 0;
  filters = record { strip_params = []; set_params = [] };
  macros = [];
  metadata = end;
  send_loading_state = none;
}

abbrev pub valid_methods : List Text
valid_methods = codes "GET" ∷ codes "POST" ∷ codes "PUT" ∷ codes "PATCH" ∷ []

module _ (to_upper : Text → Text) where
  unfoldable pub validate_endpoint : HttpEndpoint → Result ModelError HttpEndpoint
  validate_endpoint ep =
      let upper_method = to_upper (if text_eq ep.method [] then codes "POST" else ep.method) in
      if text_eq ep.endpoint []
      then err path_required
      else if not (contains valid_methods upper_method)
      then err invalid_method
      else if ltb_ℤ ep.timeout (pos 0)
      then err negative_timeout
      else ok (record ep { method = upper_method })

  unfoldable pub validate_endpoints : List HttpEndpoint → Result ModelError (List HttpEndpoint)
  validate_endpoints [] = ok []
  validate_endpoints (ep ∷ eps) = do
    ep' ← validate_endpoint ep
    eps' ← validate_endpoints eps
    ok (ep' ∷ eps')

  -- The tests of the sleep mode.
  unfoldable pub validate_sleep_mode : ModelConfig → Result ModelError (Unit {0})
  validate_sleep_mode m =
      if text_eq m.sleep_mode sleep_mode_enable
      then (if length m.sleep_endpoints == 0
          then err sleep_endpoints_required
          else if length m.wake_endpoints == 0
          then err wake_endpoints_required
          else ok tt)
      else if text_eq m.sleep_mode sleep_mode_disable
      then ok tt
      else err invalid_sleep_mode

  -- `UnmarshalYAML`, where `decode` fills in the fields that the YAML names.
  unfoldable pub unmarshal_model : (ModelConfig → ModelConfig) → Result ModelError ModelConfig
  unmarshal_model decode =
      let m = decode default_model in
      do
        validate_sleep_mode m
        sleeps ← validate_endpoints m.sleep_endpoints
        wakes ← validate_endpoints m.wake_endpoints
        ok (record m { sleep_endpoints = sleeps; wake_endpoints = wakes })
