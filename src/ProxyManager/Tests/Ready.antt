-- ===== src/ProxyManager/Tests/Ready.antt =====
-- proxy/proxymanager.go: a manager with two groups that take turns, over the model of a process.
use llmsnap.Process.Returns.{to_idle, to_stop, to_sleep}
use llmsnap.Process.Stop.{stop, stop_command}
use llmsnap.Process.Sleep.{make_idle, is_sleep_enabled, make_ready}
use llmsnap.Process.Schedule.{
  atomically, interfered, acts, try_acquire, count_request, add_in_flight, act, discount_request,
  done_in_flight, done_starting, fail_start, on_none, on_swap, release_slot, reset_failures,
  set_last_request_handled, wait_from, wait_until,
}
use llmsnap.Process.{
  ready, state_eq, is_valid_transition, add_waiting, close_wait_chan, closed_in, emit, force_state,
  force_stopped_on, install_command, settle_from, swap_state,
}
use mathlib.Core.Bool.{true≢false}
use llmsnap.ProxyManager.OneUp.{Finds}
use llmsnap.ProcessGroup.New.{
  new_process_group, new_from, new_processes, config_or_zero, model_or_zero,
}
use llmsnap.ProxyManager.Requests.{route, route_peer, answer_of, peer_has}
use llmsnap.ProxyManager.New.{new_proxy_manager, manager_of, new_groups, add_group}
use llmsnap.ProxyManager.Handlers.{
  proxy_get_model_handler, get_by, run_local, run_swapped, run_body, run_group,
}
use llmsnap.ProxyManager.Running.{new_member, processes-one_up}
use llmsnap.ProxyManager.Calls.{ManagerCall, gets_model, manages}
use llmsnap.ProxyManager.{
  ProxyManager, swap_process_group, swap_found, find_group_by_model_name, set_group, idle_others,
}
use llmsnap.Process.Settled.{Surroundings}
use llmsnap.Process.Lifecycle.{Succeeds}
use llmsnap.ProcessGroup.OfProcesses.{Member, process_api}
use llmsnap.ProcessGroup.{
  ProcessGroup, find_process, has_member, group_request, make_idle_processes, mark_used, serve_by,
  serve_on, set_process, swap_from, swap_to,
}
use llmsnap.Process.Request.{
  Request, proxy_request, admit, concurrent_limit, serve, finish_request, reply_to,
  sends_loading_state,
}
use llmsnap.PeerProxy.{new_peer_proxy}
use llmsnap.Config.Load.{default_config}
use llmsnap.Prelude.{
  ◌∙◌, ap, sym, List, Option, Text, contains, find, codes, some, text_eq, true, false, none, ◌∷◌,
  ◌⊎◌, [], ◌≡◌, Bool-cases, inl, keys_of, inr, has_key, text_eq_sound, put, refl, text_eq_refl,
  arith,
}
use llmsnap.Config.Endpoints.{default_model}
use llmsnap.Config.{ModelConfig, Config, GroupConfig, real_model_name, find_config, find_real}
use llmsnap.Process.Start.{
  Launch, become_ready, check_health, launch, own_start, start, swap_and_start, unsplit,
}

abbrev quick : Launch
quick = record {
  args = some (codes "serve" ∷ []);
  command_starts = true;
  health_url = true;
  check_endpoint = codes "none";
  max_duration = 1;
  polls = λ k. record { elapsed = k; healthy = true };
  fuel = 3;
}

quick-launches : (m : ModelConfig) → Succeeds m quick ⊎ (m.proxy ≡ []) ⊎ (quick.args ≡ none)
quick-launches m = elim (Bool-cases (text_eq m.proxy [])) [
  | inl e ↦ inr (inl (text_eq_sound m.proxy [] e))
  | inr ne ↦ inl (record {
    proxied = λ e. true≢false (sym (text_eq_refl []) ∙ (ap (λ t. text_eq t []) (sym e) ∙ ne));
    args = λ e. ground (arith, e);
    starts = refl;
    checks = inl refl;
  })
]

abbrev around : (m : ModelConfig) → Surroundings m
around m = record {
  launch = quick;
  launches = quick-launches m;
  sleep_answers = λ i. true;
  wake_answers = λ i. true;
}

abbrev local_model : ModelConfig
unfolding default_model
local_model = record default_model { proxy = codes "p" }

abbrev one_each : Text → GroupConfig
one_each member = record {
  swap = true;
  exclusive = true;
  persistent = false;
  members = member ∷ [];
}

abbrev two_models : Config
unfolding default_config
two_models = record default_config {
  models = (codes "a", local_model) ∷ (codes "b", local_model) ∷ [];
  groups = (codes "g", one_each (codes "a")) ∷ (codes "h", one_each (codes "b")) ∷ [];
}

abbrev first_group : Text → ProcessGroup Member
first_group member = record {
  swap = true;
  exclusive = true;
  persistent = false;
  members = member ∷ [];
  processes = (member, new_member around member local_model) ∷ [];
  last_used_process = [];
}

abbrev first_manager : ProxyManager Member
unfolding new_peer_proxy default_config
first_manager = record {
  config = two_models;
  process_groups = (codes "g", first_group (codes "a")) ∷ (codes "h", first_group (codes "b")) ∷ [];
  peer_proxy = some (new_peer_proxy []);
}

abbrev asks : Request
asks = record {
  reverse_proxy = true;
  streaming = false;
  is_chat_completions = false;
  wake_answers = λ i. true;
  launch = quick;
  ends_at = 4;
}

abbrev gets_both : List ManagerCall
gets_both =
    gets_model (codes "a") (record { authorization = []; x_api_key = [] }) asks
    ∷ gets_model (codes "b") (record { authorization = []; x_api_key = [] }) asks
    ∷ []

abbrev group_or : {A : Type 0} → A → Option A → A
group_or a none = a
group_or a (some b) = b

abbrev last_group : ProcessGroup Member
last_group =
    group_or (first_group (codes "b"))
      (find (codes "h") (manages process_api gets_both first_manager).process_groups)

abbrev last_member : Member
last_member =
    group_or (new_member around (codes "b") local_model)
      (find_process (codes "b") last_group.processes)

found_last :
    Finds
      (manages process_api gets_both first_manager)
      (codes "h")
      (codes "b")
      last_group
      last_member
unfolding find find_process proxy_get_model_handler get_by text_eq route route_peer real_model_name
    has_key first_manager two_models local_model run_local run_swapped swap_process_group swap_found
    find_group_by_model_name has_member contains run_body run_group set_group put idle_others
    group_request make_idle_processes mark_used serve_by serve_on set_process swap_from swap_to
    answer_of peer_has default_config default_model
found_last = record { group = refl; temporary = refl; process = refl }

last_ready : last_member.process.state ≡ ready
unfolding find find_process proxy_get_model_handler get_by text_eq route route_peer real_model_name
    has_key first_manager two_models local_model run_local run_swapped swap_process_group swap_found
    find_group_by_model_name has_member contains run_body run_group set_group put idle_others
    group_request make_idle_processes mark_used serve_by serve_on set_process swap_from swap_to
    answer_of peer_has default_config default_model proxy_request atomically state_eq interfered
    acts make_idle is_sleep_enabled stop is_valid_transition to_idle to_stop admit try_acquire
    concurrent_limit serve count_request add_in_flight finish_request reply_to sends_loading_state
    to_sleep act discount_request done_in_flight done_starting fail_start on_none on_swap
    release_slot reset_failures set_last_request_handled wait_from wait_until make_ready
    become_ready check_health launch own_start start swap_and_start unsplit stop_command
    llmsnap.Process.Stop.stop_immediately add_waiting close_wait_chan closed_in emit force_state
    force_stopped_on install_command settle_from swap_state
last_ready = refl

processes-one_up_example : (codes "h" ≡ codes "h") × (codes "b" ≡ codes "b")
unfolding contains text_eq new_proxy_manager manager_of new_groups two_models local_model keys_of
    add_group new_process_group new_from find first_manager new_processes put config_or_zero
    find_config find_real real_model_name has_key default_config default_model model_or_zero
processes-one_up_example =
    processes-one_up around two_models gets_both first_manager (codes "h") (codes "h") (codes "b")
      (codes "b") last_group last_group last_member last_member
      (inr (refl, refl, refl), (inr (refl, refl, refl), tt)) refl found_last found_last last_ready
      last_ready
