-- ===== src/ProxyManager/Groups.antt =====
-- proxy/proxymanager.go, `New`: each group of the configuration is made.
use mathlib.Core.Bool.{true≢false}
use llmsnap.PeerProxy.{new_peer_proxy}
use llmsnap.ProcessGroup.{ProcessGroup}
use llmsnap.ProxyManager.{ProxyManager, ProcessGroup}
use llmsnap.ProcessGroup.New.{new_process_group, new_from, new_processes}
use llmsnap.ProxyManager.New.{new_groups, new_proxy_manager, manager_of, add_group}
use llmsnap.Config.{ModelConfig, Config}
use llmsnap.Prelude.{
  sym, inr, inl, List, Text, has_key, keys_of, find, ◌∷◌, arith, ◌≡◌, [], text_eq_refl, true, some,
  ap, ◌∙◌, refl, Bool-cases, text_eq,
}

abbrev HasKeys : {A : Type 0} → List Text → List (Text × A) → Type 0
HasKeys [] entries = Unit {0}
HasKeys (id ∷ ids) entries = (has_key id entries ≡ true) × HasKeys ids entries

HasKeys-later :
    {A : Type 0} (k : Text) (v : A) (ids : List Text) (entries : List (Text × A))
    → HasKeys ids entries
    → HasKeys ids ((k, v) ∷ entries)
unfolding has_key
HasKeys-later k v [] entries h = tt
HasKeys-later k v (id ∷ ids) entries h = (ground (arith, h.0), HasKeys-later k v ids entries h.1)

keys_of-HasKeys : {A : Type 0} (entries : List (Text × A)) → HasKeys (keys_of entries) entries
unfolding keys_of has_key
keys_of-HasKeys [] = tt
keys_of-HasKeys ((k, v) ∷ entries) = (
  ground (arith, text_eq_refl k),
  HasKeys-later k v (keys_of entries) entries (keys_of-HasKeys entries),
)

has_key-found :
    {A : Type 0} (id : Text) (entries : List (Text × A))
    → has_key id entries ≡ true
    → (v : A) × (find id entries ≡ some v)
unfolding has_key find
has_key-found id [] h = absurd (true≢false (sym h))
has_key-found id ((k, v) ∷ entries) h = elim (Bool-cases (text_eq k id)) [
  | inl e ↦ (v, ground (arith, e))
  | inr ne ↦
      let later = has_key-found id entries (ground (arith, ne, h)) in
      (later.0, ground (arith, ne, later.1))
]

module _ {P : Type 0} (make : Text → ModelConfig → P) where
  new_groups-some :
      (config : Config) (ids : List Text)
      → HasKeys ids config.groups
      → (groups : List (Text × ProcessGroup P)) × (new_groups make config ids ≡ some groups)
        × (keys_of groups ≡ ids)
  unfolding new_groups new_process_group new_from add_group keys_of
  new_groups-some config [] h = ([], refl, refl)
  new_groups-some config (id ∷ ids) h =
      let found = has_key-found id config.groups h.0 in
      let rest = new_groups-some config ids h.1 in
      let group : ProcessGroup P = record {
        swap = found.0.swap;
        exclusive = found.0.exclusive;
        persistent = found.0.persistent;
        members = found.0.members;
        processes = new_processes make config found.0.members [];
        last_used_process = [];
      } in
      (
        (id, group) ∷ rest.0,
        ap (λ o. add_group make id (new_from make config o) (new_groups make config ids)) found.1
            ∙ ap (add_group make id (some group)) rest.1,
        ap (λ t. id ∷ t) rest.2,
      )

  -- `New` makes a manager for any configuration, without a panic: it has a group under the id of each
  -- group of the configuration, in their order.
  pub new_proxy_manager_lem :
      (config : Config)
      → (pm : ProxyManager P) × (new_proxy_manager make config ≡ some pm)
        × (keys_of pm.process_groups ≡ keys_of config.groups)
  unfolding new_proxy_manager manager_of
  new_proxy_manager_lem config =
      let made = new_groups-some config (keys_of config.groups) (keys_of-HasKeys config.groups) in
      (
        record {
          config = config;
          process_groups = made.0;
          peer_proxy = some (new_peer_proxy config.peers);
        },
        ap (manager_of make config) made.1,
        made.2,
      )
