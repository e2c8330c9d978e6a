-- ===== src/ProxyManager/Api.antt =====
-- proxy/proxymanager_api.go, and the lists of proxy/proxymanager.go. A process's state is read by the
-- argument `state_of`. JSON, headers and streams are left out.
use llmsnap.Config.Load.{sort_entries}
use llmsnap.PeerProxy.{PeerProxy}
use llmsnap.ProxyManager.{ProxyManager, PeerProxy, find_group_by_model_name, stop_all, set_group}
use llmsnap.Config.{ModelConfig, Fields, PeerConfig, real_model_name, field, str, end}
use llmsnap.Process.{
  ProcessState, stopped, starting, state_eq, ready, stopping, shutdown, sleep_pending, asleep,
  waking,
}
use llmsnap.ProcessGroup.{
  ProcessApi, GroupError, ProcessGroup, find_process, sleep_process, stop_immediately, stop_process,
}
use llmsnap.Prelude.{
  Bool, List, Option, Text, codes, trim_space, ℕ, ◌++◌, ◌∷◌, [], if◌then◌else◌, some, false,
  leb_text, none, text_eq, ◌==◌,
}

-- The status of an answer.
unfoldable pub stopped_status : Option GroupError → ℕ
stopped_status none = 200
stopped_status (some e) = 500

unfoldable pub without_slash : Text → Text
without_slash [] = []
without_slash (c ∷ cs) = if c == 47 then cs else c ∷ cs

module _ {P : Type 0} (api : ProcessApi P) where
  -- What a handler does to the group of a model, with the status of its answer.
  abbrev pub on_found_group :
      (ProcessGroup P → Option GroupError × ProcessGroup P)
      → Option (Text × ProcessGroup P)
      → ProxyManager P
      → ℕ × ProxyManager P
  on_found_group f none pm = (500, pm)
  on_found_group f (some (id, group)) pm =
      let done = f group in (stopped_status done.0, set_group id done.1 pm)

  unfoldable pub unload_found : Option Text → ProxyManager P → ℕ × ProxyManager P
  unload_found none pm = (404, pm)
  unload_found (some real_model_name) pm =
      on_found_group (stop_process api stop_immediately real_model_name)
        (find_group_by_model_name real_model_name pm.process_groups) pm

  unfoldable pub api_unload_single_model_handler : Text → ProxyManager P → ℕ × ProxyManager P
  api_unload_single_model_handler param pm =
      unload_found (real_model_name pm.config (without_slash param)) pm

  unfoldable pub sleep_found_model : Option Text → ProxyManager P → ℕ × ProxyManager P
  sleep_found_model none pm = (404, pm)
  sleep_found_model (some real_model_name) pm =
      on_found_group (sleep_process api real_model_name)
        (find_group_by_model_name real_model_name pm.process_groups) pm

  unfoldable pub api_sleep_single_model_handler : Text → ProxyManager P → ℕ × ProxyManager P
  api_sleep_single_model_handler param pm =
      sleep_found_model (real_model_name pm.config (without_slash param)) pm

  -- `apiUnloadAllModels` and `unloadAllModelsHandler`.
  unfoldable pub unload_all_models : ProxyManager P → ℕ × ProxyManager P
  unload_all_models pm = (200, stop_all api stop_immediately pm)

pub record Model : Type 0 where
  pub id : Text
  pub name : Text
  pub description : Text
  pub state : Text
  pub unlisted : Bool
  pub sleep_mode : Text
  pub peer_id : Text

-- The word for a state, which is the state's own text.
unfoldable pub state_text : ProcessState → Text
state_text stopped = codes "stopped"
state_text starting = codes "starting"
state_text ready = codes "ready"
state_text stopping = codes "stopping"
state_text shutdown = codes "shutdown"
state_text sleep_pending = codes "sleepPending"
state_text asleep = codes "asleep"
state_text waking = codes "waking"

unfoldable pub peer_models : Text → List Text → List Model
peer_models peer_id [] = []
peer_models peer_id (model_id ∷ ids) =
    record {
      id = model_id;
      name = [];
      description = [];
      state = [];
      unlisted = false;
      sleep_mode = [];
      peer_id = peer_id;
    }
    ∷ peer_models peer_id ids

unfoldable pub peers_models : List (Text × PeerConfig) → List Model
peers_models [] = []
peers_models ((id, peer) ∷ peers) = peer_models id peer.models ++ peers_models peers

unfoldable pub listed_peers : Option PeerProxy → List (Text × PeerConfig)
listed_peers none = []
listed_peers (some p) = p.peers

module _ {P : Type 0} (state_of : P → ProcessState) where
  unfoldable pub found_state : Option P → Text
  found_state none = codes "unknown"
  found_state (some p) = state_text (state_of p)

  unfoldable pub state_in : Text → Option (Text × ProcessGroup P) → Text
  state_in model_id none = codes "unknown"
  state_in model_id (some (id, group)) = found_state (find_process model_id group.processes)

  unfoldable pub local_models :
      List (Text × ProcessGroup P) → List (Text × ModelConfig) → List Model
  local_models groups [] = []
  local_models groups ((model_id, m) ∷ models) =
      record {
        id = model_id;
        name = m.name;
        description = m.description;
        state = state_in model_id (find_group_by_model_name model_id groups);
        unlisted = m.unlisted;
        sleep_mode = m.sleep_mode;
        peer_id = [];
      }
      ∷ local_models groups models

  unfoldable pub get_model_status : ProxyManager P → List Model
  get_model_status pm =
      local_models pm.process_groups (sort_entries pm.config.models)
      ++ peers_models (listed_peers pm.peer_proxy)

  -- `listRunningProcessesHandler`: the names of the processes that are ready, group by group.
  unfoldable pub ready_in : List (Text × P) → List Text
  ready_in [] = []
  ready_in ((name, p) ∷ processes) =
      let rest = ready_in processes in if state_eq (state_of p) ready then name ∷ rest else rest

  unfoldable pub running_processes : List (Text × ProcessGroup P) → List Text
  running_processes [] = []
  running_processes ((id, group) ∷ groups) = ready_in group.processes ++ running_processes groups

-- A row of the list of models: the id, the trimmed name and description, the metadata.
pub record Listed : Type 0 where
  pub id : Text
  pub name : Text
  pub description : Text
  pub metadata : Fields

unfoldable pub new_record : Text → ModelConfig → Listed
new_record model_id m = record {
  id = model_id;
  name = trim_space m.name;
  description = trim_space m.description;
  metadata = m.metadata;
}

unfoldable pub alias_records : ModelConfig → List Text → List Listed
alias_records m [] = []
alias_records m (alias ∷ aliases) =
    let rest = alias_records m aliases in
    let trimmed = trim_space alias in
    if text_eq trimmed [] then rest else new_record trimmed m ∷ rest

unfoldable pub model_records : Bool → List (Text × ModelConfig) → List Listed
model_records with_aliases [] = []
model_records with_aliases ((model_id, m) ∷ models) =
    let rest = model_records with_aliases models in
    if m.unlisted
    then rest
    else new_record model_id m ∷ (if with_aliases then alias_records m m.aliases ++ rest else rest)

unfoldable pub peer_records : Text → List Text → List Listed
peer_records peer_id [] = []
peer_records peer_id (model_id ∷ ids) =
    record {
      id = model_id;
      name = trim_space (peer_id ++ codes ": " ++ model_id);
      description = [];
      metadata = field (codes "peerID") (str peer_id) end;
    }
    ∷ peer_records peer_id ids

unfoldable pub peers_records : List (Text × PeerConfig) → List Listed
peers_records [] = []
peers_records ((id, peer) ∷ peers) = peer_records id peer.models ++ peers_records peers

-- The rows in the order of their ids.
unfoldable pub insert_record : Listed → List Listed → List Listed
insert_record l [] = l ∷ []
insert_record l (m ∷ ms) =
    let rest = insert_record l ms in if leb_text l.id m.id then l ∷ m ∷ ms else m ∷ rest

unfoldable pub sort_records : List Listed → List Listed
sort_records [] = []
sort_records (l ∷ ls) = insert_record l (sort_records ls)

-- `listModelsHandler`, less the time.
unfoldable pub list_models : {P : Type 0} → ProxyManager P → List Listed
list_models pm = sort_records (
    model_records pm.config.include_aliases_in_list pm.config.models
    ++ peers_records (listed_peers pm.peer_proxy))
