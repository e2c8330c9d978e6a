-- ===== src/Config/Ports.antt =====
-- proxy/config/config.go: a loaded model, its port, and the macros left in it.
use llmsnap.Config.Closed.{
  OnlyPid, check_names-nil, with_timeout-EndpointsClosed, EndpointsClosed, check_names-OnlyPid,
  FieldsClosed, validate_endpoint_macros-EndpointsClosed, validate_nested-FieldsClosed,
}
use llmsnap.Config.Load.{load_models}
use llmsnap.Config.Macros.{merged_macros}
use mathlib.Core.Path.{subst}
use llmsnap.Prelude.{
  sym, refl, ◌∷◌, false, true, err, some, Text, ◌≡◌, Bool, List, [], ok, arith, codes, ok-then, ℕ,
  if◌then◌else◌, ◌+◌, ok-bind, ◌++◌, ap, get_elem?, length, ◌∙◌, suc,
}
use llmsnap.Config.Unknown.{check_names, macro_names, validate_endpoint_macros, validate_macros}
use llmsnap.Config.Models.{
  check_model, load_model, allocate_port, substitute_macros, set_defaults, strip_model, uses_port,
  substitute_in_commands, port_macro,
}
use llmsnap.Config.{ModelConfig, Config}

-- A model with its macros replaced, but for the port.
abbrev pub expanded : Config → Text → ModelConfig → ModelConfig
expanded config model_id m =
    substitute_macros (merged_macros model_id config.macros m.macros) (strip_model m)

-- A model with its port, whether it uses it or not.
abbrev pub finished : Config → Text → ModelConfig → ℕ → ModelConfig
finished config model_id m port = set_defaults config (
    if uses_port (expanded config model_id m).cmd
    then substitute_in_commands (port_macro port) (expanded config model_id m)
    else expanded config model_id m)

-- How many of the models use a port.
abbrev pub port_users : Config → List (Text × ModelConfig) → ℕ
port_users config [] = 0
port_users config ((model_id, m) ∷ models) =
    (if uses_port (expanded config model_id m).cmd then 1 else 0) + port_users config models

allocate_port_lem :
    (model_id : Text) (port : ℕ) (m m' : ModelConfig) (next : ℕ)
    → allocate_port model_id port m ≡ ok (m', next)
    → (m' ≡ (if uses_port m.cmd then substitute_in_commands (port_macro port) m else m))
      × (next ≡ port + (if uses_port m.cmd then 1 else 0))
unfolding allocate_port
allocate_port_lem model_id port m m' next h = ground (arith, h)

-- No macro is left in the fields, but `PID` in the command that stops, and in the metadata no variable
-- of the environment either.
pub record IsClosed (m : ModelConfig) : Type 0 where
  pub cmd_closed : macro_names m.cmd ≡ []
  pub cmd_stop_closed : OnlyPid (macro_names m.cmd_stop)
  pub proxy_closed : macro_names m.proxy ≡ []
  pub check_endpoint_closed : macro_names m.check_endpoint ≡ []
  pub strip_params_closed : macro_names m.filters.strip_params ≡ []
  pub sleep_endpoints_closed : EndpointsClosed m.sleep_endpoints
  pub wake_endpoints_closed : EndpointsClosed m.wake_endpoints
  pub metadata_closed : FieldsClosed m.metadata

check_model-IsClosed : (m : ModelConfig) {u : Unit {0}} → check_model m ≡ ok u → IsClosed m
unfolding check_model
check_model-IsClosed m h =
    let cmd = ok-then (check_names [] (macro_names m.cmd)) _ h in
    let cmd_stop = ok-then (check_names (codes "PID" ∷ []) (macro_names m.cmd_stop)) _ cmd.1 in
    let proxy = ok-then (check_names [] (macro_names m.proxy)) _ cmd_stop.1 in
    let check = ok-then (check_names [] (macro_names m.check_endpoint)) _ proxy.1 in
    let strip = ok-then (check_names [] (macro_names m.filters.strip_params)) _ check.1 in
    let sleeps = ok-then (validate_endpoint_macros m.sleep_endpoints) _ strip.1 in
    let wakes = ok-then (validate_endpoint_macros m.wake_endpoints) _ sleeps.1 in
    record {
      cmd_closed = check_names-nil (macro_names m.cmd) cmd.0.1;
      cmd_stop_closed = check_names-OnlyPid (macro_names m.cmd_stop) cmd_stop.0.1;
      proxy_closed = check_names-nil (macro_names m.proxy) proxy.0.1;
      check_endpoint_closed = check_names-nil (macro_names m.check_endpoint) check.0.1;
      strip_params_closed = check_names-nil (macro_names m.filters.strip_params) strip.0.1;
      sleep_endpoints_closed =
          validate_endpoint_macros-EndpointsClosed m.sleep_endpoints sleeps.0.1;
      wake_endpoints_closed = validate_endpoint_macros-EndpointsClosed m.wake_endpoints wakes.0.1;
      metadata_closed = validate_nested-FieldsClosed m.metadata wakes.1;
    }

passed :
    {E A : Type 0}
    → (b : Bool) {x y : A} (e : E) → (if b then ok x else err e) ≡ ok y
    → (b ≡ true) × (x ≡ y)
passed true e h = (refl, cc)
passed false e h = cc

set_defaults-IsClosed :
    (config : Config) (m : ModelConfig) → IsClosed m → IsClosed (set_defaults config m)
unfolding set_defaults
set_defaults-IsClosed config m h = record {
  cmd_closed = h.cmd_closed;
  cmd_stop_closed = h.cmd_stop_closed;
  proxy_closed = h.proxy_closed;
  check_endpoint_closed = h.check_endpoint_closed;
  strip_params_closed = h.strip_params_closed;
  sleep_endpoints_closed =
      with_timeout-EndpointsClosed config.sleep_request_timeout m.sleep_endpoints
        h.sleep_endpoints_closed;
  wake_endpoints_closed =
      with_timeout-EndpointsClosed config.wake_request_timeout m.wake_endpoints
        h.wake_endpoints_closed;
  metadata_closed = h.metadata_closed;
}

proxy-set_defaults : (config : Config) (m : ModelConfig) → (set_defaults config m).proxy ≡ m.proxy
unfolding set_defaults
proxy-set_defaults config m = refl

-- A model that is loaded has the port it was given, and the next one is counted up exactly if it used
-- it. No macro is left in its command, address, health check, stripped parameters and endpoints, none
-- and no variable of the environment in any text of its metadata, however deep, and none but PID in its
-- stop command. Its address is one that the URL package reads.
pub load_model_lem :
    (valid_url : Text → Bool) (config : Config) (model_id : Text) (port : ℕ) (m m' : ModelConfig)
    (next : ℕ)
    → load_model valid_url config model_id port m ≡ ok (m', next)
    → (m' ≡ finished config model_id m port)
      × (next ≡ port + (if uses_port (expanded config model_id m).cmd then 1 else 0))
      × IsClosed m'
      × (valid_url m'.proxy ≡ true)
unfolding load_model
load_model_lem valid_url config model_id port m m' next h =
    let macros = ok-then (validate_macros m.macros) _ h in
    let port_done = ok-bind (allocate_port model_id port (expanded config model_id m)) _ macros.1 in
    let given = port_done.0 in
    let is =
      allocate_port_lem model_id port (expanded config model_id m) given.0 given.1 port_done.1 in
    let checked = ok-then (check_model given.0) _ port_done.2 in
    let url = passed (valid_url given.0.proxy) _ checked.1 in
    let same : set_defaults config given.0 ≡ m' = ap (λ p. p.0) url.1 in
    let next_same : given.1 ≡ next = ap (λ p. p.1) url.1 in
    (
      sym same ∙ ap (set_defaults config) is.0,
      sym next_same ∙ is.1,
      subst IsClosed same
          (set_defaults-IsClosed config given.0 (check_model-IsClosed given.0 checked.0.1)),
      ap (λ n. valid_url n.proxy) (sym same)
          ∙ ap valid_url (proxy-set_defaults config given.0)
          ∙ url.0,
    )

load_models-cons :
    (valid_url : Text → Bool) (config : Config) (port : ℕ) (model_id : Text) (m : ModelConfig)
    (models : List (Text × ModelConfig)) {loaded : List (Text × ModelConfig)}
    → load_models valid_url config port ((model_id, m) ∷ models) ≡ ok loaded
    → (rest : List (Text × ModelConfig)) × (loaded
        ≡ (model_id, finished config model_id m port) ∷ rest)
      × (load_models valid_url config
            (port + (if uses_port (expanded config model_id m).cmd then 1 else 0))
            models
          ≡ ok rest)
unfolding load_models
load_models-cons valid_url config port model_id m models {loaded = loaded} h =
    let first = ok-bind (load_model valid_url config model_id port m) _ h in
    let is = load_model_lem valid_url config model_id port m first.0.0 first.0.1 first.1 in
    let more = ok-bind (load_models valid_url config first.0.1 models) _ first.2 in
    let same : (model_id, first.0.0) ∷ more.0 ≡ loaded = cc (more.2) in
    (
      more.0,
      sym same ∙ ap (λ n. (model_id, n) ∷ more.0) is.0,
      ap (λ n. load_models valid_url config n models) (sym is.1) ∙ more.1,
    )

-- When the models load, the model at each place has the port that is given first plus the number of
-- models before it that use one, and is otherwise its own fields, finished.
pub load_models_lem :
    (valid_url : Text → Bool) (config : Config) (port : ℕ) (before : List (Text × ModelConfig))
    (model_id : Text) (m : ModelConfig) (after loaded : List (Text × ModelConfig))
    → load_models valid_url config port (before ++ (model_id, m) ∷ after) ≡ ok loaded
    → get_elem? loaded (length before)
      ≡ some (model_id, finished config model_id m (port + port_users config before))
load_models_lem valid_url config port [] model_id m after loaded h =
    let first = load_models-cons valid_url config port model_id m after h in
    ap (λ l. get_elem? l 0) first.1
    ∙ ap (λ n. some (model_id, finished config model_id m n))
        (let e : port ≡ port + 0 = omega arith in e)
load_models_lem valid_url config port ((k, n) ∷ before) model_id m after loaded h =
    let first = load_models-cons valid_url config port k n (before ++ (model_id, m) ∷ after) h in
    ap (λ l. get_elem? l (suc (length before))) first.1
    ∙ load_models_lem valid_url config
        (port + (if uses_port (expanded config k n).cmd then 1 else 0)) before model_id m after
        first.0 first.2
    ∙ ap (λ q. some (model_id, finished config model_id m q))
        {x = port
          + (if uses_port (expanded config k n).cmd then 1 else 0)
          + port_users config before}
        {y = port + port_users config ((k, n) ∷ before)} (omega arith)
