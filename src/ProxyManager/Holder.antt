-- ===== src/ProxyManager/Holder.antt =====
-- proxy/proxymanager.go: the place for a process that is up has one holder, whatever is called.
use llmsnap.ProxyManager.Calls.{
  ManagerCall, manage, infers, gets_model, posts_form, goes_upstream, preloads, sleeps_model,
  stops_all_groups, unloads_all, unloads_model, shuts_down_all,
}
use llmsnap.Config.{real_model_name}
use mathlib.Core.Path.{subst}
use mathlib.Core.Bool.{true≢false}
use llmsnap.ProxyManager.Api.{
  on_found_group, api_unload_single_model_handler, api_sleep_single_model_handler,
  unload_all_models, unload_found, sleep_found_model, without_slash,
}
use llmsnap.ProxyManager.Paths.{ModelPath, find_model_in_path}
use llmsnap.PeerProxy.{KeyHeaders}
use llmsnap.Process.Request.{Request}
use llmsnap.ProcessGroup.Kept.{IsNoRequest, call-SameKind}
use llmsnap.ProxyManager.Requests.{
  Json, Route, to_local, local_body, form_values, to_peer, nowhere, route,
}
use llmsnap.ProcessGroup.Calls.{GroupCall, requests, call, stops, sleeps, stops_all, shuts_down}
use llmsnap.ProxyManager.Handlers.{
  form_by, get_by, inference_by, preload_models, run_body, run_group, run_local, upstream_by,
  preload_by, run_swapped, form_model, proxy_inference_handler, proxy_get_model_handler,
  proxy_oai_post_form_handler, proxy_to_upstream,
}
use llmsnap.ProxyManager.Fits.{
  AllFit, Fits, on_groups-AllFit, call-Fits, put-AllFit, idle_others-AllFit,
  find_group_by_model_name-Fits,
}
use llmsnap.ProcessGroup.OneUp.{Promises}
use llmsnap.Prelude.{
  sym, refl, false, [], Text, Bool, List, Option, ◌∷◌, ◌≡◌, some, ◌⊎◌, find, if◌then◌else◌, true,
  inr, none, text_eq, codes, inl, ◌&&◌, not, ◌∙◌, ends_in_slash,
}
use llmsnap.ProcessGroup.{
  ProcessApi, ProcessGroup, GroupError, group_request, stop_processes, shut_down_group,
  stop_process, sleep_process, stop_immediately,
}
use llmsnap.ProxyManager.{
  ProxyManager, set_group, on_groups, swap_process_group, swap_found, find_group_by_model_name,
  idle_others, stop_all, shut_down_all,
}

-- The groups fit, with a place for one holder.
pub record HasHolder {P : Type 0} (Idle : P → Type 0) (pm : ProxyManager P) : Type 0 where
  pub holder : Text
  pub fit : AllFit Idle holder pm.process_groups

module _ {P : Type 0} (api : ProcessApi P) (Idle : P → Type 0) (promises : Promises api Idle) where
  if-HasHolder :
      {A : Type 0} (b : Bool) (x y : A × ProxyManager P)
      → HasHolder Idle x.1
      → HasHolder Idle y.1
      → HasHolder Idle (if b then x else y).1
  if-HasHolder true x y h h' = h
  if-HasHolder false x y h h' = h'

  run_group-HasHolder :
      {B : Type 0} (id name : Text) (g : ProcessGroup P) (body : B) (r : Request)
      (pm : ProxyManager P) (holder : Text)
      → ((id ≡ holder) ⊎ (g.persistent ≡ true))
      → Fits Idle holder id g
      → AllFit Idle holder pm.process_groups
      → HasHolder Idle (run_group api id g name body r pm).1
  unfolding run_group set_group
  run_group-HasHolder id name g body r pm holder either fits h = record {
    holder = holder;
    fit =
        put-AllFit Idle holder id (group_request api name r g).1 pm.process_groups (served either)
          h;
  }
    where
      served :
          ((id ≡ holder) ⊎ (g.persistent ≡ true))
          → Fits Idle holder id (group_request api name r g).1
      served (inl e) = call-Fits Idle api promises (requests name r) holder id g (inl e) fits
      served (inr kept) = inl ((call-SameKind api (requests name r) g).1 ∙ kept)

  run_body-HasHolder :
      {B : Type 0} (id name : Text) (g : ProcessGroup P) (body : Option B) (r : B → Request)
      (pm : ProxyManager P) (holder : Text)
      → ((id ≡ holder) ⊎ (g.persistent ≡ true))
      → Fits Idle holder id g
      → AllFit Idle holder pm.process_groups
      → HasHolder Idle (run_body api id g name body r pm).1
  unfolding run_body
  run_body-HasHolder id name g none r pm holder either fits h = record { holder = holder; fit = h }
  run_body-HasHolder id name g (some body) r pm holder either fits h =
      run_group-HasHolder id name g body (r body) pm holder either fits h

  -- A request to a model's group takes the place for it, unless the group is persistent.
  run_local-HasHolder :
      {B : Type 0} (name : Text) (body : Option B) (r : B → Request) (pm : ProxyManager P)
      → HasHolder Idle pm
      → HasHolder Idle (run_local api name body r pm).1
  unfolding run_local run_swapped swap_process_group swap_found
  run_local-HasHolder {B = B} name body r pm h =
      by_group (find_group_by_model_name name pm.process_groups) refl
    where
      by_kind :
          (id : Text) (g : ProcessGroup P) (b : Bool)
          → g.exclusive ≡ b
          → Fits Idle h.holder id g
          → HasHolder Idle
              (run_body api id g name body r (
                if b
                then record pm { process_groups = idle_others api id pm.process_groups }
                else pm)).1
      by_kind id g true e fits =
          run_body-HasHolder id name g body r
            (record pm { process_groups = idle_others api id pm.process_groups }) id (inl refl)
            (taken fits) (idle_others-AllFit Idle api promises h.holder id pm.process_groups h.fit)
        where
          taken : Fits Idle h.holder id g → Fits Idle id id g
          taken (inl kept) = inl kept
          taken (inr fits) =
              inr (record { exclusive = fits.exclusive; swapped = fits.swapped; alone = inl refl })
      by_kind id g false e (inl kept) =
          run_body-HasHolder id name g body r pm h.holder (inr kept) (inl kept) h.fit
      by_kind id g false e (inr fits) = absurd (true≢false (sym fits.exclusive ∙ e))

      by_group :
          (o : Option (Text × ProcessGroup P))
          → find_group_by_model_name name pm.process_groups ≡ o
          → HasHolder Idle (run_swapped api name body r (swap_found api o pm)).1
      by_group none e = h
      by_group (some (id, g)) e =
          by_kind id g g.exclusive refl
            (find_group_by_model_name-Fits Idle h.holder name id g pm.process_groups h.fit e)

  infers-HasHolder :
      (json : Json) (headers : KeyHeaders) (r : Request) (body : Text) (to : Route)
      (pm : ProxyManager P)
      → HasHolder Idle pm
      → HasHolder Idle (inference_by api json to headers r body pm).1
  unfolding inference_by
  infers-HasHolder json headers r body (to_local name) pm h =
      run_local-HasHolder name (local_body json (find name pm.config.models) body)
        (λ sent. record r { streaming = json.stream_of sent }) pm h
  infers-HasHolder json headers r body (to_peer name) pm h = h
  infers-HasHolder json headers r body nowhere pm h = h

  gets-HasHolder :
      (to : Route) (headers : KeyHeaders) (r : Request) (pm : ProxyManager P)
      → HasHolder Idle pm
      → HasHolder Idle (get_by api to headers r pm).1
  unfolding get_by
  gets-HasHolder (to_local name) headers r pm h = run_local-HasHolder name (some tt) (λ b. r) pm h
  gets-HasHolder (to_peer name) headers r pm h = h
  gets-HasHolder nowhere headers r pm h = h

  posts-HasHolder :
      (to : Route) (name : Text) (headers : KeyHeaders) (r : Request) (fields : List (Text × Text))
      (pm : ProxyManager P)
      → HasHolder Idle pm
      → HasHolder Idle (form_by api to name headers r fields pm).1
  unfolding form_by
  posts-HasHolder (to_local id) name headers r fields pm h =
      run_local-HasHolder id
        (some (form_values (form_model api (find id pm.config.models) name) fields)) (λ b. r) pm h
  posts-HasHolder (to_peer id) name headers r fields pm h = h
  posts-HasHolder nowhere name headers r fields pm h = h

  upstream-HasHolder :
      (path : Text) (reads : Bool) (raw_query : Text) (r : Request) (o : Option ModelPath)
      (pm : ProxyManager P)
      → HasHolder Idle pm
      → HasHolder Idle (upstream_by api path reads raw_query r o pm).1
  unfolding upstream_by
  upstream-HasHolder path reads raw_query r none pm h = h
  upstream-HasHolder path reads raw_query r (some found) pm h =
      if-HasHolder (text_eq found.remaining_path (codes "/") && not (ends_in_slash path)) _ _ h
        (run_local-HasHolder found.real_name (some found.remaining_path) (λ p. r) pm h)

  preload-HasHolder :
      (o : Option Text) (r : Request) (pm : ProxyManager P)
      → HasHolder Idle pm
      → HasHolder Idle (preload_by api o r pm)
  unfolding preload_by
  preload-HasHolder none r pm h = h
  preload-HasHolder (some name) r pm h = run_local-HasHolder name (some tt) (λ b. r) pm h

  preloads-HasHolder :
      (names : List Text) (r : Request) (pm : ProxyManager P)
      → HasHolder Idle pm
      → HasHolder Idle (preload_models api names r pm)
  unfolding preload_models
  preloads-HasHolder [] r pm h = h
  preloads-HasHolder (name ∷ names) r pm h =
      preloads-HasHolder names r (preload_by api (real_model_name pm.config name) r pm)
        (preload-HasHolder (real_model_name pm.config name) r pm h)

  -- A call that is no request, to the group of a model.
  on_found_group-HasHolder :
      (c : GroupCall) (f : ProcessGroup P → Option GroupError × ProcessGroup P) (name : Text)
      (pm : ProxyManager P)
      → ((g : ProcessGroup P) → (f g).1 ≡ call api c g)
      → IsNoRequest api Idle promises c
      → HasHolder Idle pm
      → HasHolder Idle (on_found_group api f (find_group_by_model_name name pm.process_groups) pm).1
  unfolding set_group
  on_found_group-HasHolder c f name pm same quiet h =
      by_group (find_group_by_model_name name pm.process_groups) refl
    where
      by_group :
          (o : Option (Text × ProcessGroup P))
          → find_group_by_model_name name pm.process_groups ≡ o
          → HasHolder Idle (on_found_group api f o pm).1
      by_group none e = h
      by_group (some (id, g)) e = record {
        holder = h.holder;
        fit =
            put-AllFit Idle h.holder id (f g).1 pm.process_groups
              (subst (Fits Idle h.holder id) (sym (same g)) (
                call-Fits Idle api promises c h.holder id g (inr quiet) (
                  find_group_by_model_name-Fits Idle h.holder name id g pm.process_groups h.fit e)))
              h.fit;
      }

  on_all_groups-HasHolder :
      (c : GroupCall) (pm : ProxyManager P)
      → IsNoRequest api Idle promises c
      → HasHolder Idle pm
      → HasHolder Idle (record pm { process_groups = on_groups api (call api c) pm.process_groups })
  on_all_groups-HasHolder c pm quiet h = record {
    holder = h.holder;
    fit =
        on_groups-AllFit Idle api h.holder (call api c) pm.process_groups
          (λ id g. call-Fits Idle api promises c h.holder id g (inr quiet)) h.fit;
  }

  -- Whatever is called, the groups have a place for one holder after it if they had it before.
  pub manage-HasHolder :
      (c : ManagerCall) (pm : ProxyManager P) → HasHolder Idle pm → HasHolder Idle (manage api c pm)
  unfolding proxy_inference_handler proxy_get_model_handler proxy_oai_post_form_handler
      proxy_to_upstream api_unload_single_model_handler api_sleep_single_model_handler
      unload_all_models stop_all shut_down_all unload_found sleep_found_model stop_processes
      shut_down_group stop_process sleep_process
  manage-HasHolder (infers json headers r none) pm h = h
  manage-HasHolder (infers json headers r (some body)) pm h =
      if-HasHolder (text_eq (json.model_of body) []) _ _ h
        (infers-HasHolder json headers r body (route (json.model_of body) pm) pm h)
  manage-HasHolder (gets_model model headers r) pm h =
      if-HasHolder (text_eq model []) _ _ h (gets-HasHolder (route model pm) headers r pm h)
  manage-HasHolder (posts_form model headers r none) pm h = h
  manage-HasHolder (posts_form model headers r (some fields)) pm h =
      if-HasHolder (text_eq model []) _ _ h
        (posts-HasHolder (route model pm) model headers r fields pm h)
  manage-HasHolder (goes_upstream path reads raw_query r) pm h =
      upstream-HasHolder path reads raw_query r (find_model_in_path pm.config path) pm h
  manage-HasHolder (preloads names r) pm h = preloads-HasHolder names r pm h
  manage-HasHolder (unloads_model param) pm h =
      by_name (real_model_name pm.config (without_slash param))
    where
      by_name : (o : Option Text) → HasHolder Idle (unload_found api o pm).1
      by_name none = h
      by_name (some name) =
          on_found_group-HasHolder (stops stop_immediately name)
            (stop_process api stop_immediately name) name pm (λ g. refl) tt h
  manage-HasHolder (sleeps_model param) pm h =
      by_name (real_model_name pm.config (without_slash param))
    where
      by_name : (o : Option Text) → HasHolder Idle (sleep_found_model api o pm).1
      by_name none = h
      by_name (some name) =
          on_found_group-HasHolder (sleeps name) (sleep_process api name) name pm (λ g. refl) tt h
  manage-HasHolder unloads_all pm h = on_all_groups-HasHolder (stops_all stop_immediately) pm tt h
  manage-HasHolder (stops_all_groups strategy) pm h =
      on_all_groups-HasHolder (stops_all strategy) pm tt h
  manage-HasHolder shuts_down_all pm h = on_all_groups-HasHolder shuts_down pm tt h
