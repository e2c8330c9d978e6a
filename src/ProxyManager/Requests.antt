-- ===== src/ProxyManager/Requests.antt =====
-- proxy/proxymanager.go: what a handler makes of a request before a group or a peer takes it. The packages
-- gjson and sjson are a record of what is called of them.
use llmsnap.Config.Parameters.{sanitized_set_params, sanitized_strip_params}
use llmsnap.ProxyManager.{ProxyManager}
use llmsnap.PeerProxy.{
  KeyHeaders, PeerProxy, PeerProxyMember, no_filters, peer_request, get_peer_filters,
  has_peer_model,
}
use llmsnap.ProcessGroup.{Proxied, replied, not_part_of_group, nil_process}
use llmsnap.Config.{Filters, ModelConfig, Value, null, real_model_name, str}
use llmsnap.Prelude.{
  List, Option, Text, ℕ, Bool, if◌then◌else◌, some, ◌∷◌, [], false, find, none, text_eq, codes,
}

-- What is read of a JSON body, and the edits, which may fail.
pub record Json : Type 0 where
  pub model_of : Text → Text
  pub stream_of : Text → Bool
  pub delete_value : Text → Text → Option Text
  pub set_value : Text → Value → Text → Option Text

-- What becomes of a request with a body of the type `B`: an error with its status, a redirect with its
-- status, what a group's process did, or a request sent to a peer.
pub data Answer (B : Type 0) : Type 0 where
  failed : ℕ → Answer B
  redirected : ℕ → Text → Answer B
  by_process : Text → Text → B → Proxied → Answer B
  by_peer : PeerProxyMember → Text → B → KeyHeaders → Answer B

-- `RealModelName`, else a model that a peer has, else neither.
pub data Route : Type 0 where
  to_local to_peer : Text → Route
  nowhere : Route

unfoldable pub peer_has : Option PeerProxy → Text → Bool
peer_has none requested_model = false
peer_has (some p) requested_model = has_peer_model requested_model p

unfoldable pub route_peer : Option Text → Bool → Text → Route
route_peer (some model_id) has requested_model = to_local model_id
route_peer none has requested_model = if has then to_peer requested_model else nowhere

unfoldable pub route : {P : Type 0} → Text → ProxyManager P → Route
route requested_model pm =
    route_peer (real_model_name pm.config requested_model) (peer_has pm.peer_proxy requested_model)
      requested_model

unfoldable pub edit : (Text → Option Text) → Option Text → Option Text
edit f none = none
edit f (some body) = f body

unfoldable pub strip_all : Json → List Text → Option Text → Option Text
strip_all json [] body = body
strip_all json (param ∷ params) body = strip_all json params (edit (json.delete_value param) body)

unfoldable pub value_or_null : Option Value → Value
value_or_null none = null
value_or_null (some v) = v

unfoldable pub set_all : Json → List (Text × Value) → List Text → Option Text → Option Text
set_all json params [] body = body
set_all json params (key ∷ keys) body =
    set_all json params keys (edit (json.set_value key (value_or_null (find key params))) body)

-- The parameters that are stripped, then those that are set.
unfoldable pub apply_filters : Json → Filters → Option Text → Option Text
apply_filters json f body =
    let set_params = sanitized_set_params f in
    set_all json set_params.0 set_params.1 (strip_all json (sanitized_strip_params f) body)

unfoldable pub use_model_name_of : Option ModelConfig → Text
use_model_name_of none = []
use_model_name_of (some m) = m.use_model_name

unfoldable pub filters_in : Option ModelConfig → Filters
filters_in none = no_filters
filters_in (some m) = m.filters

unfoldable pub rename_model : Json → Text → Text → Option Text
rename_model json use_model_name body =
    if text_eq use_model_name []
    then some body
    else json.set_value (codes "model") (str use_model_name) body

unfoldable pub local_body : Json → Option ModelConfig → Text → Option Text
local_body json m body =
    apply_filters json (filters_in m) (rename_model json (use_model_name_of m) body)

-- An error of the group is answered with 500.
unfoldable pub answer_of : {B : Type 0} → Text → Text → B → Proxied → Answer B
answer_of id model_id body not_part_of_group = failed 500
answer_of id model_id body nil_process = by_process id model_id body nil_process
answer_of id model_id body (replied reply) = by_process id model_id body (replied reply)

unfoldable pub send_to_peer : {B : Type 0} → Text → KeyHeaders → B → Option PeerProxy → Answer B
send_to_peer model_id headers body none = failed 500
send_to_peer model_id headers body (some p) = elim (peer_request model_id headers p) [
  | none ↦ failed 500
  | some sent ↦ by_peer sent.0 model_id body sent.1
]

unfoldable pub peer_filters : Option PeerProxy → Text → Filters
peer_filters none model_id = no_filters
peer_filters (some p) model_id = get_peer_filters model_id p

-- The values of a form, with the model's name that the upstream knows.
unfoldable pub form_values : Text → List (Text × Text) → List (Text × Text)
form_values model [] = []
form_values model ((key, value) ∷ fields) =
    (key, if text_eq key (codes "model") then model else value) ∷ form_values model fields
