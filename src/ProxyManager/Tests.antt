-- ===== src/ProxyManager/Tests.antt =====
-- proxy/proxymanager.go on concrete inputs.
mod Up
mod Api
mod Ready
use llmsnap.ProxyManager.Prefixes.{FoundAt, nonempty, find_model_in_path_lem}
use llmsnap.ProxyManager.Routed.{Served, proxy_inference_handler_lem}
use llmsnap.ProxyManager.Exclusive.{swap_process_group_lem}
use llmsnap.Config.Parameters.{
  sanitized_strip_params, sanitized_set_params, unprotected, param_keys,
}
use llmsnap.Config.Endpoints.{default_model}
use llmsnap.Config.{Config, Value, real_model_name, str}
use llmsnap.ProxyManager.Bodies.{JsonLaws, model_of-local_body}
use llmsnap.ProxyManager.Paths.{ModelPath, find_model_in_path, find_in_parts, extend_name}
use llmsnap.ProxyManager.Handlers.{proxy_inference_handler}
use llmsnap.ProxyManager.Requests.{
  Json, local_body, rename_model, use_model_name_of, filters_in, apply_filters, strip_all, set_all,
}
use llmsnap.ProxyManager.{ProxyManager, find_group_by_model_name, Config, swap_process_group}
use llmsnap.Config.Load.{default_config}
use llmsnap.Process.Request.{Request, proxied}
use mathlib.Core.Option.{some-injective}
use llmsnap.Prelude.{
  Text, text_eq, Bool, codes, sym, true, contains, false, ◌∷◌, [], find, has_key, none, some, split,
  ◌≡◌, if◌then◌else◌, push_front, trim_space, ◌&&◌, not, trim_left, trim_right, is_space,
  contains_rune, refl, join, sort_texts, join_more, ◌++◌, ◌∙◌, ap, text_eq_refl,
}
use llmsnap.ProcessGroup.{ProcessApi, ProcessGroup, has_member, make_idle_processes}

-- A process that is up or not.
abbrev lamp : ProcessApi Bool
lamp = record {
  proxy_request = λ r p. (proxied, true);
  make_idle = λ p. false;
  stop = λ s p. false;
  sleep = λ p. p;
  shut_down = λ p. false;
  is_sleep_enabled = λ p. true;
}

abbrev lamps : Text → ProcessGroup Bool
lamps member = record {
  swap = true;
  exclusive = true;
  persistent = false;
  members = member ∷ [];
  processes = (member, true) ∷ [];
  last_used_process = member;
}

abbrev request : Request
request = record {
  reverse_proxy = true;
  streaming = false;
  is_chat_completions = true;
  wake_answers = λ i. true;
  launch = record {
    args = none;
    command_starts = true;
    health_url = true;
    check_endpoint = [];
    max_duration = 1;
    polls = λ k. record { elapsed = k; healthy = true };
    fuel = 3;
  };
  ends_at = 4;
}

abbrev models : Config
unfolding default_config
models = record default_config {
  models =
      (codes "m", record default_model { use_model_name = codes "up" })
      ∷ (codes "org/n", default_model)
      ∷ [];
}

abbrev manager : ProxyManager Bool
manager = record {
  config = models;
  process_groups = (codes "g", lamps (codes "m")) ∷ (codes "h", lamps (codes "org/n")) ∷ [];
  peer_proxy = none;
}

abbrev named : Text → Bool → Value → Text
named body false v = body
named body true (str t) = t
named body true v = body

-- A body that is its model's name, and edits that keep to it.
abbrev name_only : Json
name_only = record {
  model_of = λ body. body;
  stream_of = λ body. false;
  delete_value = λ key body. some body;
  set_value = λ key v body. some (named body (text_eq (codes "model") key) v);
}

swap_process_group_lem_case :
    let swapped = swap_process_group lamp (codes "m") manager in
    (has_member (codes "m") (lamps (codes "m")) ≡ true)
    × (swapped.0 ≡ some (codes "g", lamps (codes "m")))
    × (find (codes "h") swapped.1.process_groups
        ≡ some (
            if true && (not (text_eq (codes "h") (codes "g")) && not false)
            then make_idle_processes lamp (lamps (codes "org/n"))
            else lamps (codes "org/n")))
unfolding find_group_by_model_name has_member contains text_eq find
swap_process_group_lem_case =
    swap_process_group_lem lamp manager (codes "m") (codes "g") (codes "h") (lamps (codes "m"))
      (lamps (codes "org/n")) refl refl

proxy_inference_handler_lem_example :
    let served =
      proxy_inference_handler lamp name_only
        (record { authorization = []; x_api_key = [] })
        request
        (some (codes "m"))
        manager in
    Served lamp manager
      (codes "m")
      (codes "g")
      (lamps (codes "m"))
      (codes "up")
      (record request { streaming = false })
      served
    × (find (codes "h") served.1.process_groups
        ≡ some (
            if true && not false
            then make_idle_processes lamp (lamps (codes "org/n"))
            else lamps (codes "org/n")))
unfolding find_group_by_model_name has_member contains text_eq find real_model_name has_key
    local_body rename_model use_model_name_of filters_in apply_filters strip_all set_all
    sanitized_strip_params sanitized_set_params unprotected param_keys sort_texts default_model
    default_config
proxy_inference_handler_lem_example =
    proxy_inference_handler_lem lamp name_only (record { authorization = []; x_api_key = [] })
      request (codes "m") manager (codes "m") (codes "up") (codes "g") (codes "h")
      (lamps (codes "m")) (lamps (codes "org/n")) refl refl refl refl refl refl

abbrev in_path : ModelPath
in_path = record {
  search_name = codes "org/n";
  real_name = codes "org/n";
  remaining_path = codes "/v1";
}

find_model_in_path_lem_example :
    (at : FoundAt models [] (split 47 (trim_space (codes "/org//n/v1"))) in_path)
    × (in_path.search_name ≡ join (codes "/") (nonempty (at.before ++ at.part ∷ [])))
unfolding find_model_in_path find_in_parts real_model_name has_key find text_eq split push_front
    trim_space trim_left trim_right is_space contains_rune extend_name join join_more default_config
find_model_in_path_lem_example = find_model_in_path_lem models (codes "/org//n/v1") in_path refl

name_only-JsonLaws : JsonLaws name_only
name_only-JsonLaws = record {
  model_of-delete_value = λ key body body' plain other e. sym (some-injective body body' e);
  model_of-set_other = λ key v body body' plain other e.
      sym (some-injective (named body (text_eq (codes "model") key) v) body' e)
      ∙ ap (λ b. named body b v) other;
  model_of-set_model = λ name body body' e.
      sym (some-injective (named body (text_eq (codes "model") (codes "model")) (str name)) body' e)
      ∙ ap (λ b. named body b (str name)) (text_eq_refl (codes "model"));
}

model_of-local_body_example :
    name_only.model_of (codes "up")
    ≡ (if text_eq (codes "up") [] then name_only.model_of (codes "m") else codes "up")
unfolding text_eq local_body rename_model use_model_name_of filters_in apply_filters strip_all
    set_all sanitized_strip_params sanitized_set_params unprotected param_keys sort_texts
    default_model
model_of-local_body_example =
    model_of-local_body name_only (record default_model { use_model_name = codes "up" }) (codes "m")
      (codes "up") name_only-JsonLaws tt tt refl
