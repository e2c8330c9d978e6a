-- ===== src/PeerProxy/First.antt =====
-- proxy/peerproxy.go: which peer has a model.
use llmsnap.Config.Load.{insert_entry, sort_entries}
use llmsnap.Config.{PeerConfig}
use llmsnap.PeerProxy.{
  map_models, map_peers, PeerConfig, PeerProxyMember, new_peer_proxy, sort_entries, has_peer_model,
  get_peer_filters, peer_request, KeyHeaders, no_filters, filters_by, filters_of,
  peer_member_request, inject_key,
}
use mathlib.Core.Option.{some-injective}
use llmsnap.Prelude.{
  refl, false, true, List, Option, Text, find, contains, none, ◌≡◌, or_else, if◌then◌else◌, sym,
  or_else-none, some, ◌∷◌, [], arith, ◌∙◌, ap, has_key-find, find-has_key, or_else_assoc,
  text_eq_sound, has_key, IsMap, text_eq, text_eq_comm, ◌||◌, codes, ◌++◌, Bool-cases, inl,
  text_eq_refl, inr,
}

-- The first peer that lists a model.
abbrev pub first_peer : List (Text × PeerConfig) → Text → Option (Text × PeerConfig)
first_peer [] model_id = none
first_peer ((id, peer) ∷ peers) model_id =
    if contains peer.models model_id then some (id, peer) else first_peer peers model_id

abbrev pub member_of : Option (Text × PeerConfig) → Option PeerProxyMember
member_of none = none
member_of (some (id, peer)) = some (record { peer_id = id; api_key = peer.api_key })

find-map_models :
    (pp : PeerProxyMember) (ids : List Text) (proxy_map : List (Text × PeerProxyMember)) (m : Text)
    → find m (map_models pp ids proxy_map)
      ≡ or_else (find m proxy_map) (if contains ids m then some pp else none)
unfolding map_models find contains
find-map_models pp [] proxy_map m = sym (or_else-none (find m proxy_map))
find-map_models pp (id ∷ ids) proxy_map m = ground (
  arith,
  has_key-find id proxy_map,
  find-has_key id proxy_map,
  text_eq_sound id m,
  ap (λ u. find u proxy_map) {x = id} {y = m},
  find-map_models pp ids proxy_map m,
  find-map_models pp ids ((id, pp) ∷ proxy_map) m,
)

find-map_peers :
    (peers : List (Text × PeerConfig)) (proxy_map : List (Text × PeerProxyMember)) (m : Text)
    → find m (map_peers peers proxy_map)
      ≡ or_else (find m proxy_map) (member_of (first_peer peers m))
unfolding map_peers
find-map_peers [] proxy_map m = sym (or_else-none (find m proxy_map))
find-map_peers ((id, peer) ∷ peers) proxy_map m =
    let pp : PeerProxyMember = record { peer_id = id; api_key = peer.api_key } in
    find-map_peers peers (map_models pp peer.models proxy_map) m
    ∙ ap (λ x. or_else x (member_of (first_peer peers m)))
        (find-map_models pp peer.models proxy_map m)
    ∙ or_else_assoc (find m proxy_map) _ _
    ∙ ap (or_else (find m proxy_map)) (ground (arith))

has_key-insert_entry :
    {A : Type 0}
    → (a : Text) (v : A) (es : List (Text × A)) (t : Text)
    → has_key t (insert_entry (a, v) es) ≡ (text_eq a t || has_key t es)
unfolding insert_entry has_key
has_key-insert_entry a v [] t = ground arith
has_key-insert_entry a v ((k, w) ∷ es) t = ground (arith, has_key-insert_entry a v es t)

has_key-sort_entries :
    {A : Type 0} → (es : List (Text × A)) (t : Text) → has_key t (sort_entries es) ≡ has_key t es
unfolding sort_entries has_key
has_key-sort_entries [] t = refl
has_key-sort_entries ((k, v) ∷ es) t =
    ground (arith, has_key-insert_entry k v (sort_entries es) t, has_key-sort_entries es t)

find-insert_entry :
    {A : Type 0}
    → (a : Text) (v : A) (es : List (Text × A)) (t : Text) → has_key a es ≡ false
    → find t (insert_entry (a, v) es) ≡ (if text_eq a t then some v else find t es)
unfolding insert_entry has_key find
find-insert_entry a v [] t h = refl
find-insert_entry a v ((k, w) ∷ es) t h = ground (
  arith,
  h,
  find-insert_entry a v es t,
  text_eq_comm k a,
  text_eq_sound k t,
  ap (text_eq a) {x = k} {y = t},
)

find-sort_entries :
    {A : Type 0}
    → (es : List (Text × A)) (t : Text) → IsMap es
    → find t (sort_entries es) ≡ find t es
unfolding sort_entries find
find-sort_entries [] t h = refl
find-sort_entries ((k, v) ∷ es) t h = ground (
  arith,
  find-insert_entry k v (sort_entries es) t (has_key-sort_entries es k ∙ h.0),
  find-sort_entries es t h.1,
)

insert_entry-IsMap :
    {A : Type 0}
    → (a : Text) (v : A) (es : List (Text × A)) → has_key a es ≡ false
    → IsMap es
    → IsMap (insert_entry (a, v) es)
unfolding insert_entry has_key
insert_entry-IsMap a v [] h is = (refl, tt)
insert_entry-IsMap a v ((k, w) ∷ es) h is =
    ground
      (arith, h, is, has_key-insert_entry a v es k, text_eq_comm k a, insert_entry-IsMap a v es)

sort_entries-IsMap : {A : Type 0} → (es : List (Text × A)) → IsMap es → IsMap (sort_entries es)
unfolding sort_entries
sort_entries-IsMap [] h = tt
sort_entries-IsMap ((k, v) ∷ es) h =
    insert_entry-IsMap k v (sort_entries es) (has_key-sort_entries es k ∙ h.0)
      (sort_entries-IsMap es h.1)

first_peer_found :
    (es : List (Text × PeerConfig)) (m id : Text) (peer : PeerConfig)
    → IsMap es
    → first_peer es m ≡ some (id, peer)
    → (find id es ≡ some peer) × (contains peer.models m ≡ true)
unfolding find has_key
first_peer_found [] m id peer h e = cc
first_peer_found ((k, p) ∷ es) m id peer h e = elim (Bool-cases (contains p.models m)) [
  | inl here ↦
      let found : Option (Text × PeerConfig) = some (k, p) in
      let is : found ≡ some (id, peer) = ground (arith, here, e) in
      let same : (k, p) ≡ (id, peer) = some-injective (k, p) (id, peer) is in
      (
        ap (λ b. if b then some p else find id es)
              (ap (text_eq k) (sym (ap (λ q. q.0) same)) ∙ text_eq_refl k)
            ∙ ap some (ap (λ q. q.1) same),
        ap (λ q. contains q.1.models m) (sym same) ∙ here,
      )
  | inr away ↦
      let rest = first_peer_found es m id peer h.1 (ground (arith, away, e)) in
      (
        ground (
          arith,
          rest.0,
          h.0,
          has_key-find k es,
          text_eq_sound k id,
          ap (λ u. find u es) {x = k} {y = id},
        ),
        rest.1,
      )
]

-- What a request for a model that the peer has becomes.
abbrev pub SentTo :
    List (Text × PeerConfig) → Text → KeyHeaders → Option (Text × PeerConfig) → Type 0
SentTo peers m headers none =
    let p = new_peer_proxy peers in
    (has_peer_model m p ≡ false)
    × (get_peer_filters m p ≡ no_filters)
    × (peer_request m headers p ≡ none)
SentTo peers m headers (some (id, peer)) =
    let p = new_peer_proxy peers in
    (contains peer.models m ≡ true)
    × (has_peer_model m p ≡ true)
    × (get_peer_filters m p ≡ peer.filters)
    × (peer_request m headers p
        ≡ some (
          record { peer_id = id; api_key = peer.api_key },
          if text_eq peer.api_key [] then headers else record {
            authorization = codes "Bearer " ++ peer.api_key;
            x_api_key = peer.api_key;
          },
        ))

find_has :
    {A : Type 0}
    → (t : Text) (es : List (Text × A)) {a : A} → find t es ≡ some a
    → has_key t es ≡ true
unfolding find has_key
find_has t [] h = cc
find_has t ((k, v) ∷ es) {a = a} h = ground (arith, h, find_has t es {a = a})

sent_to :
    (peers : List (Text × PeerConfig)) (m : Text) (headers : KeyHeaders)
    (x : Option (Text × PeerConfig))
    → IsMap peers
    → first_peer (sort_entries peers) m ≡ x
    → find m (map_peers (sort_entries peers) []) ≡ member_of x
    → SentTo peers m headers x
unfolding new_peer_proxy has_peer_model get_peer_filters peer_request filters_by filters_of
    peer_member_request inject_key
sent_to peers m headers none h e f = (
  find-has_key m (map_peers (sort_entries peers) []) f,
  ap (λ x. filters_by x (new_peer_proxy peers)) f,
  ap (λ x. peer_member_request x headers) f,
)
sent_to peers m headers (some (id, peer)) h e f =
    let is = first_peer_found (sort_entries peers) m id peer (sort_entries-IsMap peers h) e in
    (
      is.1,
      find_has m (map_peers (sort_entries peers) []) f,
      ap (λ x. filters_by x (new_peer_proxy peers)) f
          ∙ ap filters_of (sym (find-sort_entries peers id h) ∙ is.0),
      ap (λ x. peer_member_request x headers) f,
    )

-- A model goes to the first peer in the order of their names that lists it, with that peer's key in the
-- headers if it has one; the filters are that peer's; a model that no peer lists is an error.
pub peer_request_lem :
    (peers : List (Text × PeerConfig)) (m : Text) (headers : KeyHeaders)
    → IsMap peers
    → SentTo peers m headers (first_peer (sort_entries peers) m)
unfolding find
peer_request_lem peers m headers h =
    sent_to peers m headers (first_peer (sort_entries peers) m) h refl
      (find-map_peers (sort_entries peers) [] m)
