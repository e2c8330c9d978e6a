-- ===== src/PeerProxy/Tests.antt =====
-- proxy/peerproxy.go on concrete inputs.
use llmsnap.Config.Load.{sort_entries}
use llmsnap.PeerProxy.First.{SentTo, first_peer, peer_request_lem}
use llmsnap.Config.{PeerConfig}
use llmsnap.PeerProxy.{KeyHeaders, PeerConfig, sort_entries}
use llmsnap.Prelude.{refl, List, Text, has_key, [], text_eq, codes, ◌∷◌}

abbrev peer : Text → PeerConfig
peer key = record {
  proxy = codes "http://host";
  api_key = key;
  models = codes "m" ∷ [];
  filters = record { strip_params = []; set_params = [] };
}

abbrev two_peers : List (Text × PeerConfig)
two_peers = (codes "b", peer []) ∷ (codes "a", peer (codes "secret")) ∷ []

abbrev no_headers : KeyHeaders
no_headers = record { authorization = []; x_api_key = [] }

peer_request_lem_example :
    SentTo two_peers (codes "m") no_headers (first_peer (sort_entries two_peers) (codes "m"))
unfolding has_key text_eq
peer_request_lem_example = peer_request_lem two_peers (codes "m") no_headers (refl, (refl, tt))
