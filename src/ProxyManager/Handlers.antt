-- ===== src/ProxyManager/Handlers.antt =====
-- proxy/proxymanager.go: the handlers that hand a request to a process or to a peer.
use llmsnap.ProxyManager.Paths.{ModelPath, find_model_in_path}
use llmsnap.Process.Request.{Request}
use llmsnap.ProxyManager.{ProxyManager, swap_process_group, set_group}
use llmsnap.PeerProxy.{KeyHeaders}
use llmsnap.ProcessGroup.{ProcessApi, ProcessGroup, group_request}
use llmsnap.Config.{ModelConfig, real_model_name}
use llmsnap.Prelude.{
  List, Option, Text, Bool, if◌then◌else◌, some, ◌∷◌, [], find, none, text_eq, codes, ◌++◌, ◌&&◌,
  not, ends_in_slash,
}
use llmsnap.ProxyManager.Requests.{
  Json, Route, route, apply_filters, use_model_name_of, local_body, answer_of, send_to_peer,
  peer_filters, form_values, failed, redirected, to_local, to_peer, nowhere, Answer,
}

module _ {P : Type 0} (api : ProcessApi P) where
  -- The group of the map takes the request.
  unfoldable pub run_group :
      {B : Type 0}
      → Text
      → ProcessGroup P
      → Text
      → B
      → Request
      → ProxyManager P
      → Answer B × ProxyManager P
  run_group id group model_id body r pm =
      let done = group_request api model_id r group in
      (answer_of id model_id body done.0, set_group id done.1 pm)

  unfoldable pub run_body :
      {B : Type 0}
      → Text
      → ProcessGroup P
      → Text
      → Option B
      → (B → Request)
      → ProxyManager P
      → Answer B × ProxyManager P
  run_body id group model_id none r pm = (failed 500, pm)
  run_body id group model_id (some body) r pm = run_group id group model_id body (r body) pm

  -- After the swap: an error if the model has no group.
  unfoldable pub run_swapped :
      {B : Type 0}
      → Text
      → Option B
      → (B → Request)
      → Option (Text × ProcessGroup P) × ProxyManager P
      → Answer B × ProxyManager P
  run_swapped model_id body r (none, pm) = (failed 500, pm)
  run_swapped model_id body r (some (id, group), pm) = run_body id group model_id body r pm

  unfoldable pub run_local :
      {B : Type 0} → Text → Option B → (B → Request) → ProxyManager P → Answer B × ProxyManager P
  run_local model_id body r pm = run_swapped model_id body r (swap_process_group api model_id pm)

  unfoldable pub inference_by :
      Json → Route → KeyHeaders → Request → Text → ProxyManager P → Answer Text × ProxyManager P
  inference_by json (to_local model_id) headers r body pm =
      run_local model_id (local_body json (find model_id pm.config.models) body)
        (λ sent. record r { streaming = json.stream_of sent }) pm
  inference_by json (to_peer model_id) headers r body pm = (
    elim (apply_filters json (peer_filters pm.peer_proxy model_id) (some body)) [
      | none ↦ failed 500
      | some sent ↦ send_to_peer model_id headers sent pm.peer_proxy
    ],
    pm,
  )
  inference_by json nowhere headers r body pm = (failed 400, pm)

  -- `proxyInferenceHandler`; `none` is a body that cannot be read.
  unfoldable pub proxy_inference_handler :
      Json → KeyHeaders → Request → Option Text → ProxyManager P → Answer Text × ProxyManager P
  proxy_inference_handler json headers r none pm = (failed 400, pm)
  proxy_inference_handler json headers r (some body) pm =
      let requested_model = json.model_of body in
      if text_eq requested_model []
      then (failed 400, pm)
      else inference_by json (route requested_model pm) headers r body pm

  unfoldable pub get_by :
      Route → KeyHeaders → Request → ProxyManager P → Answer (Unit {0}) × ProxyManager P
  get_by (to_local model_id) headers r pm = run_local model_id (some tt) (λ b. r) pm
  get_by (to_peer model_id) headers r pm = (send_to_peer model_id headers tt pm.peer_proxy, pm)
  get_by nowhere headers r pm = (failed 400, pm)

  unfoldable pub proxy_get_model_handler :
      Text → KeyHeaders → Request → ProxyManager P → Answer (Unit {0}) × ProxyManager P
  proxy_get_model_handler requested_model headers r pm =
      if text_eq requested_model []
      then (failed 400, pm)
      else get_by (route requested_model pm) headers r pm

  -- The name in the form that is sent on: the configured one, or the one requested.
  unfoldable pub form_model : Option ModelConfig → Text → Text
  form_model m requested_model =
      if text_eq (use_model_name_of m) [] then requested_model else use_model_name_of m

  unfoldable pub form_by :
      Route
      → Text
      → KeyHeaders
      → Request
      → List (Text × Text)
      → ProxyManager P
      → Answer (List (Text × Text)) × ProxyManager P
  form_by (to_local model_id) requested_model headers r fields pm =
      run_local model_id
        (some (form_values (form_model (find model_id pm.config.models) requested_model) fields))
        (λ b. r) pm
  form_by (to_peer model_id) requested_model headers r fields pm =
      (send_to_peer model_id headers (form_values requested_model fields) pm.peer_proxy, pm)
  form_by nowhere requested_model headers r fields pm = (failed 400, pm)

  -- `proxyOAIPostFormHandler`; `none` is a form that cannot be parsed. Its values are written again; its
  -- files and the errors in writing them are left out.
  unfoldable pub proxy_oai_post_form_handler :
      Text
      → KeyHeaders
      → Request
      → Option (List (Text × Text))
      → ProxyManager P
      → Answer (List (Text × Text)) × ProxyManager P
  proxy_oai_post_form_handler requested_model headers r none pm = (failed 400, pm)
  proxy_oai_post_form_handler requested_model headers r (some fields) pm =
      if text_eq requested_model []
      then (failed 400, pm)
      else form_by (route requested_model pm) requested_model headers r fields pm

  unfoldable pub upstream_by :
      Text
      → Bool
      → Text
      → Request
      → Option ModelPath
      → ProxyManager P
      → Answer Text × ProxyManager P
  upstream_by upstream_path reads raw_query r none pm = (failed 400, pm)
  upstream_by upstream_path reads raw_query r (some found) pm =
      let new_path = codes "/upstream/" ++ found.search_name ++ codes "/" in
      if text_eq found.remaining_path (codes "/") && not (ends_in_slash upstream_path)
      then (
        redirected (if reads then 301 else 308)
            (if text_eq raw_query [] then new_path else new_path ++ codes "?" ++ raw_query),
        pm,
      )
      else run_local found.real_name (some found.remaining_path) (λ path. r) pm

  -- `proxyToUpstream`; `reads` is whether the method is GET or HEAD.
  unfoldable pub proxy_to_upstream :
      Text → Bool → Text → Request → ProxyManager P → Answer Text × ProxyManager P
  proxy_to_upstream upstream_path reads raw_query r pm =
      upstream_by upstream_path reads raw_query r (find_model_in_path pm.config upstream_path) pm

  unfoldable pub preload_by : Option Text → Request → ProxyManager P → ProxyManager P
  preload_by none r pm = pm
  preload_by (some model_id) r pm = (run_local model_id (some tt) (λ b. r) pm).1

  -- The startup hook: each model in turn, with a request whose answer is thrown away.
  unfoldable pub preload_models : List Text → Request → ProxyManager P → ProxyManager P
  preload_models [] r pm = pm
  preload_models (name ∷ names) r pm =
      preload_models names r (preload_by (real_model_name pm.config name) r pm)
