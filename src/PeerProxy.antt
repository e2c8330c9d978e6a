-- ===== src/PeerProxy.antt =====
-- proxy/peerproxy.go: the models that other servers have. The reverse proxies are not modelled.
pub mod First
mod Tests
use llmsnap.Config.Load.{sort_entries}
use llmsnap.Config.{Filters, PeerConfig}
use llmsnap.Prelude.{
  List, Option, Text, if◌then◌else◌, Bool, [], find, some, text_eq, ◌∷◌, codes, has_key, none, ◌++◌,
}

pub record PeerProxyMember : Type 0 where
  pub peer_id : Text
  pub api_key : Text

pub record PeerProxy : Type 0 where
  pub peers : List (Text × PeerConfig)
  pub proxy_map : List (Text × PeerProxyMember)

-- The headers that carry a key; the empty text means that there is none.
pub record KeyHeaders : Type 0 where
  pub authorization : Text
  pub x_api_key : Text

-- A model that is mapped already is skipped.
unfoldable pub map_models :
    PeerProxyMember → List Text → List (Text × PeerProxyMember) → List (Text × PeerProxyMember)
map_models pp [] proxy_map = proxy_map
map_models pp (model_id ∷ ids) proxy_map =
    map_models pp ids (if has_key model_id proxy_map then proxy_map else (model_id, pp) ∷ proxy_map)

unfoldable pub map_peers :
    List (Text × PeerConfig) → List (Text × PeerProxyMember) → List (Text × PeerProxyMember)
map_peers [] proxy_map = proxy_map
map_peers ((id, peer) ∷ peers) proxy_map =
    map_peers peers
      (map_models (record { peer_id = id; api_key = peer.api_key }) peer.models proxy_map)

unfoldable pub new_peer_proxy : List (Text × PeerConfig) → PeerProxy
new_peer_proxy peers = record { peers = peers; proxy_map = map_peers (sort_entries peers) [] }

unfoldable pub has_peer_model : Text → PeerProxy → Bool
has_peer_model model_id p = has_key model_id p.proxy_map

abbrev pub no_filters : Filters
no_filters = record { strip_params = []; set_params = [] }

unfoldable pub filters_of : Option PeerConfig → Filters
filters_of none = no_filters
filters_of (some peer) = peer.filters

unfoldable pub filters_by : Option PeerProxyMember → PeerProxy → Filters
filters_by none p = no_filters
filters_by (some pp) p = filters_of (find pp.peer_id p.peers)

unfoldable pub get_peer_filters : Text → PeerProxy → Filters
get_peer_filters model_id p = filters_by (find model_id p.proxy_map) p

-- The headers of a request to a peer.
unfoldable pub inject_key : PeerProxyMember → KeyHeaders → KeyHeaders
inject_key pp headers =
    if text_eq pp.api_key []
    then headers
    else record { authorization = codes "Bearer " ++ pp.api_key; x_api_key = pp.api_key }

unfoldable pub peer_member_request :
    Option PeerProxyMember → KeyHeaders → Option (PeerProxyMember × KeyHeaders)
peer_member_request none headers = none
peer_member_request (some pp) headers = some (pp, inject_key pp headers)

-- `ProxyRequest`: the peer that is asked, and the headers it is sent; or an error.
unfoldable pub peer_request : Text → KeyHeaders → PeerProxy → Option (PeerProxyMember × KeyHeaders)
peer_request model_id headers p = peer_member_request (find model_id p.proxy_map) headers
