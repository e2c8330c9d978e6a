-- ===== src/WolProxy/Tests.antt =====
-- cmd/wol-proxy/wol-proxy.go on concrete inputs.
use llmsnap.WolProxy.Waits.{serve_http-upstream}
use llmsnap.Prelude.{text_eq, has_prefix, ◌∷◌, [], ◌≡◌, none, true, codes, refl, not, inr}
use llmsnap.WolProxy.{
  magic_packet, is_page, serve_http, connect_failed, refused, connected, new_proxy, upstream,
  is_ready,
}

packet : magic_packet (1 ∷ 2 ∷ 3 ∷ 4 ∷ 5 ∷ []) ≡ none
unfolding magic_packet
packet = refl

serve_http-upstream_example :
    serve_http true
      (codes "/v1/models")
      ((connect_failed ∷ []) ∷ (refused ∷ connected ∷ []) ∷ [])
      new_proxy
    ≡ (upstream, not (is_ready new_proxy.status))
unfolding text_eq has_prefix is_page
serve_http-upstream_example =
    serve_http-upstream true (codes "/v1/models")
      ((connect_failed ∷ []) ∷ (refused ∷ connected ∷ []) ∷ []) new_proxy refl
      (inr (record {
        not_events = refl;
        not_page = refl;
        connects = record {
          before = (connect_failed ∷ []) ∷ [];
          es = refused ∷ [];
          after = [];
          is = refl;
        };
      }))
