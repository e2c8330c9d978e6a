-- ===== src/ProxyManager/Calls.antt =====
-- proxy/proxymanager.go: any sequence of calls that reach the processes.
use llmsnap.ProxyManager.Api.{
  api_unload_single_model_handler, api_sleep_single_model_handler, unload_all_models,
}
use llmsnap.ProxyManager.Handlers.{
  proxy_inference_handler, proxy_get_model_handler, proxy_oai_post_form_handler, proxy_to_upstream,
  preload_models,
}
use llmsnap.Process.Request.{Request}
use llmsnap.Prelude.{List, ◌∷◌, Option, Text, Bool, []}
use llmsnap.ProxyManager.{ProxyManager, stop_all, shut_down_all}
use llmsnap.PeerProxy.{KeyHeaders}
use llmsnap.ProcessGroup.{ProcessApi, StopStrategy}
use llmsnap.ProxyManager.Requests.{Json}

-- The requests to the handlers, with what each reads of its request.
pub data ManagerCall : Type 0 where
  infers : Json → KeyHeaders → Request → Option Text → ManagerCall
  gets_model : Text → KeyHeaders → Request → ManagerCall
  posts_form : Text → KeyHeaders → Request → Option (List (Text × Text)) → ManagerCall
  goes_upstream : Text → Bool → Text → Request → ManagerCall
  preloads : List Text → Request → ManagerCall
  unloads_model sleeps_model : Text → ManagerCall
  unloads_all : ManagerCall
  stops_all_groups : StopStrategy → ManagerCall
  shuts_down_all : ManagerCall

module _ {P : Type 0} (api : ProcessApi P) where
  abbrev pub manage : ManagerCall → ProxyManager P → ProxyManager P
  manage (infers json headers r body) pm = (proxy_inference_handler api json headers r body pm).1
  manage (gets_model model headers r) pm = (proxy_get_model_handler api model headers r pm).1
  manage (posts_form model headers r fields) pm =
      (proxy_oai_post_form_handler api model headers r fields pm).1
  manage (goes_upstream path reads raw_query r) pm =
      (proxy_to_upstream api path reads raw_query r pm).1
  manage (preloads names r) pm = preload_models api names r pm
  manage (unloads_model param) pm = (api_unload_single_model_handler api param pm).1
  manage (sleeps_model param) pm = (api_sleep_single_model_handler api param pm).1
  manage unloads_all pm = (unload_all_models api pm).1
  manage (stops_all_groups strategy) pm = stop_all api strategy pm
  manage shuts_down_all pm = shut_down_all api pm

  abbrev pub manages : List ManagerCall → ProxyManager P → ProxyManager P
  manages [] pm = pm
  manages (c ∷ cs) pm = manages cs (manage c pm)
