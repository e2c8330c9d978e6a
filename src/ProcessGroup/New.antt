-- ===== src/ProcessGroup/New.antt =====
-- proxy/processgroup.go: a new group with a process for each member. `NewProcess`, with its loggers and
-- the health check timeout, is the argument `make`.
use llmsnap.ProcessGroup.{ProcessGroup}
use llmsnap.Prelude.{Option, Text, [], some, List, none, pos, false, find, ◌∷◌, put}
use llmsnap.Config.{ModelConfig, Config, GroupConfig, end, find_config}

-- The zero value of a model's configuration.
unfoldable pub zero_model : ModelConfig
zero_model = record {
  cmd = [];
  cmd_stop = [];
  proxy = [];
  aliases = [];
  env = [];
  check_endpoint = [];
  unload_after = pos 0;
  unlisted = false;
  use_model_name = [];
  sleep_mode = [];
  sleep_endpoints = [];
  wake_endpoints = [];
  name = [];
  description = [];
  concurrency_limit = pos 0;
  filters = record { strip_params = []; set_params = [] };
  macros = [];
  metadata = end;
  send_loading_state = none;
}

unfoldable pub model_or_zero : Option ModelConfig → ModelConfig
model_or_zero none = zero_model
model_or_zero (some m) = m

-- `FindConfig` with its zero values where nothing is found.
unfoldable pub config_or_zero : Option (Option ModelConfig × Text) → Text × ModelConfig
config_or_zero none = ([], zero_model)
config_or_zero (some (m, name)) = (name, model_or_zero m)

module _ {P : Type 0} (make : Text → ModelConfig → P) where
  unfoldable pub new_processes : Config → List Text → List (Text × P) → List (Text × P)
  new_processes config [] processes = processes
  new_processes config (member ∷ members) processes =
      let found = config_or_zero (find_config config member) in
      new_processes config members (put found.0 (make found.0 found.1) processes)

  unfoldable pub new_from : Config → Option GroupConfig → Option (ProcessGroup P)
  new_from config none = none
  new_from config (some g) = some (record {
    swap = g.swap;
    exclusive = g.exclusive;
    persistent = g.persistent;
    members = g.members;
    processes = new_processes config g.members [];
    last_used_process = [];
  })

  -- `NewProcessGroup`; `none` is its panic.
  unfoldable pub new_process_group : Text → Config → Option (ProcessGroup P)
  new_process_group id config = new_from config (find id config.groups)
