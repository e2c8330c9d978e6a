-- ===== src/ProxyManager/New.antt =====
-- proxy/proxymanager.go, `New`: where the logs go, their settings, and a group for each of the
-- configuration. `strings.ToLower` is the argument `to_lower`.
use llmsnap.PeerProxy.{new_peer_proxy}
use llmsnap.ProcessGroup.New.{new_process_group}
use llmsnap.ProxyManager.{ProxyManager}
use llmsnap.ProcessGroup.{ProcessGroup}
use llmsnap.Config.{Config, ModelConfig}
use llmsnap.LogMonitor.{
  LogLevel, LogMonitor, set_log_level, level_debug, new_log_monitor, level_info,
  set_log_time_format, level_warn, level_error,
}
use llmsnap.Prelude.{
  List, Text, ℤ, codes, if◌then◌else◌, ℕ, Option, pos, text_eq, trim_space, ◌∷◌, [], contains, suc,
  keys_of, negsuc, some, none, zero,
}

-- What a log monitor writes to.
pub data Sink : Type 0 where
  discards stdout mux_logger : Sink

pub record Sinks : Type 0 where
  pub mux : Sink
  pub upstream : Sink
  pub proxy : Sink

unfoldable pub sinks_of : Text → Sinks
sinks_of log_to_stdout =
    if text_eq log_to_stdout (codes "none")
    then record { mux = discards; upstream = discards; proxy = discards }
    else if text_eq log_to_stdout (codes "both")
    then record { mux = stdout; upstream = mux_logger; proxy = mux_logger }
    else if text_eq log_to_stdout (codes "upstream")
    then record { mux = stdout; upstream = mux_logger; proxy = discards }
    else record { mux = stdout; upstream = discards; proxy = mux_logger }

-- The level that the proxy's and the upstreams' monitors are given.
unfoldable pub level_of : (Text → Text) → Text → LogLevel
level_of to_lower log_level =
    let word = to_lower (trim_space log_level) in
    if text_eq word (codes "debug")
    then level_debug
    else if text_eq word (codes "info")
    then level_info
    else if text_eq word (codes "warn")
    then level_warn
    else if text_eq word (codes "error")
    then level_error
    else level_info

-- The package time's formats are the argument `layout`.
abbrev pub time_format_names : List Text
time_format_names =
    codes "ansic"
    ∷ codes "unixdate"
    ∷ codes "rubydate"
    ∷ codes "rfc822"
    ∷ codes "rfc822z"
    ∷ codes "rfc850"
    ∷ codes "rfc1123"
    ∷ codes "rfc1123z"
    ∷ codes "rfc3339"
    ∷ codes "rfc3339nano"
    ∷ codes "kitchen"
    ∷ codes "stamp"
    ∷ codes "stampmilli"
    ∷ codes "stampmicro"
    ∷ codes "stampnano"
    ∷ []

unfoldable pub with_time_format : (Text → Text) → (Text → Text) → Text → LogMonitor → LogMonitor
with_time_format to_lower layout log_time_format w =
    let word = to_lower (trim_space log_time_format) in
    if contains time_format_names word then set_log_time_format (layout word) w else w

-- The proxy's monitor, and the upstreams', as `New` sets them up; the two get the same settings.
unfoldable pub new_logger : (Text → Text) → (Text → Text) → Config → LogMonitor
new_logger to_lower layout config =
    with_time_format to_lower layout config.log_time_format
      (set_log_level (level_of to_lower config.log_level) new_log_monitor)

unfoldable pub max_metrics_of : ℤ → ℕ
max_metrics_of (pos zero) = 1000
max_metrics_of (pos (suc n)) = suc n
max_metrics_of (negsuc n) = 1000

module _ {P : Type 0} (make : Text → ModelConfig → P) where
  -- `none` is a panic.
  unfoldable pub add_group :
      Text
      → Option (ProcessGroup P)
      → Option (List (Text × ProcessGroup P))
      → Option (List (Text × ProcessGroup P))
  add_group id none groups = none
  add_group id (some group) none = none
  add_group id (some group) (some groups) = some ((id, group) ∷ groups)

  unfoldable pub new_groups : Config → List Text → Option (List (Text × ProcessGroup P))
  new_groups config [] = some []
  new_groups config (id ∷ ids) =
      add_group id (new_process_group make id config) (new_groups config ids)

  unfoldable pub manager_of :
      Config → Option (List (Text × ProcessGroup P)) → Option (ProxyManager P)
  manager_of config none = none
  manager_of config (some groups) = some (record {
    config = config;
    process_groups = groups;
    peer_proxy = some (new_peer_proxy config.peers);
  })

  -- `New`, less the loggers, the routes and the goroutine that preloads, whose requests are later calls
  -- (`preload_models`), with peers that all have a proxy.
  unfoldable pub new_proxy_manager : Config → Option (ProxyManager P)
  new_proxy_manager config = manager_of config (new_groups config (keys_of config.groups))
