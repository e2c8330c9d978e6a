-- ===== src/ProxyManager/Tests/Up.antt =====
-- proxy/proxymanager.go: a manager with two groups that take turns.
use llmsnap.ProcessGroup.New.{new_process_group, new_from, new_processes, config_or_zero}
use llmsnap.ProxyManager.Requests.{route, route_peer, answer_of, peer_has}
use mathlib.Core.Bool.{true≢false}
use llmsnap.ProxyManager.Started.{new_proxy_manager-one_up}
use llmsnap.ProxyManager.OneUp.{Finds}
use llmsnap.Config.Endpoints.{default_model}
use llmsnap.ProxyManager.New.{new_proxy_manager, manager_of, new_groups, add_group}
use llmsnap.ProxyManager.Handlers.{
  proxy_get_model_handler, get_by, run_local, run_swapped, run_body, run_group,
}
use llmsnap.ProxyManager.Calls.{ManagerCall, gets_model, manages}
use llmsnap.ProxyManager.{
  ProxyManager, swap_process_group, swap_found, find_group_by_model_name, set_group, idle_others,
}
use llmsnap.Config.{Config, GroupConfig, real_model_name, find_config, find_real}
use llmsnap.Process.Request.{Request, proxied}
use llmsnap.PeerProxy.{new_peer_proxy}
use llmsnap.Config.Load.{default_config}
use llmsnap.ProcessGroup.OneUp.{Promises}
use llmsnap.Prelude.{
  Bool, List, Text, contains, find, text_eq, true, ◌≡◌, codes, false, [], none, refl, ◌∷◌, some,
  inr, keys_of, has_key, put,
}
use llmsnap.ProcessGroup.{
  ProcessApi, ProcessGroup, find_process, has_member, group_request, make_idle_processes, mark_used,
  serve_by, serve_on, set_process, swap_from, swap_to,
}

abbrev bulb : ProcessApi Bool
bulb = record {
  proxy_request = λ r p. (proxied, true);
  make_idle = λ p. false;
  stop = λ s p. false;
  sleep = λ p. p;
  shut_down = λ p. false;
  is_sleep_enabled = λ p. true;
}

abbrev IsDark : Bool → Type 0
IsDark b = b ≡ false

bulb-Promises : Promises bulb IsDark
bulb-Promises = record {
  made_idle = λ p. refl;
  stopped = λ s p. refl;
  shut = λ p. refl;
  slept = λ p h. h;
}

abbrev turns : Text → GroupConfig
turns member = record { swap = true; exclusive = true; persistent = false; members = member ∷ [] }

abbrev two_groups : Config
unfolding default_config
two_groups = record default_config {
  models = (codes "a", default_model) ∷ (codes "b", default_model) ∷ [];
  groups = (codes "g", turns (codes "a")) ∷ (codes "h", turns (codes "b")) ∷ [];
}

abbrev group_with : Text → Bool → Text → ProcessGroup Bool
group_with member up last = record {
  swap = true;
  exclusive = true;
  persistent = false;
  members = member ∷ [];
  processes = (member, up) ∷ [];
  last_used_process = last;
}

abbrev fresh_manager : ProxyManager Bool
unfolding new_peer_proxy default_config
fresh_manager = record {
  config = two_groups;
  process_groups =
      (codes "g", group_with (codes "a") false [])
      ∷ (codes "h", group_with (codes "b") false [])
      ∷ [];
  peer_proxy = some (new_peer_proxy []);
}

abbrev got : Request
got = record {
  reverse_proxy = true;
  streaming = false;
  is_chat_completions = false;
  wake_answers = λ i. true;
  launch = record {
    args = none;
    command_starts = true;
    health_url = true;
    check_endpoint = [];
    max_duration = 1;
    polls = λ k. record { elapsed = k; healthy = true };
    fuel = 3;
  };
  ends_at = 4;
}

abbrev both : List ManagerCall
both =
    gets_model (codes "a") (record { authorization = []; x_api_key = [] }) got
    ∷ gets_model (codes "b") (record { authorization = []; x_api_key = [] }) got
    ∷ []

lit :
    Finds
      (manages bulb both fresh_manager)
      (codes "h")
      (codes "b")
      (group_with (codes "b") true (codes "b"))
      true
unfolding find find_process proxy_get_model_handler get_by text_eq route route_peer real_model_name
    has_key fresh_manager run_local run_swapped swap_process_group swap_found
    find_group_by_model_name has_member contains run_body run_group set_group put two_groups
    idle_others group_request make_idle_processes mark_used serve_by serve_on set_process swap_from
    swap_to answer_of peer_has default_config default_model
lit = record { group = refl; temporary = refl; process = refl }

new_proxy_manager-one_up_case : (codes "h" ≡ codes "h") × (codes "b" ≡ codes "b")
unfolding contains text_eq new_proxy_manager manager_of new_groups two_groups keys_of add_group
    new_process_group new_from find fresh_manager new_processes put config_or_zero find_config
    find_real real_model_name has_key default_config
new_proxy_manager-one_up_case =
    new_proxy_manager-one_up bulb IsDark bulb-Promises (λ name m. false) two_groups both
      fresh_manager (codes "h") (codes "h") (codes "b") (codes "b")
      (group_with (codes "b") true (codes "b")) (group_with (codes "b") true (codes "b")) true true
      (λ member m. refl) (inr (refl, refl, refl), (inr (refl, refl, refl), tt)) refl lit lit
      true≢false true≢false
