-- ===== src/ProxyManager/Fresh.antt =====
-- proxy/proxymanager.go, proxy/processgroup.go: the groups of a new manager.
use llmsnap.PeerProxy.{new_peer_proxy}
use llmsnap.ProxyManager.Holder.{HasHolder}
use llmsnap.ProxyManager.Fits.{AllFit, Fits}
use llmsnap.ProxyManager.{ProxyManager}
use llmsnap.ProcessGroup.{ProcessGroup}
use llmsnap.ProcessGroup.Idle.{IdleBut}
use llmsnap.ProxyManager.New.{new_groups, new_proxy_manager, add_group, manager_of}
use llmsnap.ProcessGroup.New.{new_process_group, new_processes, new_from, config_or_zero}
use llmsnap.Config.{GroupConfig, ModelConfig, Config, find_config}
use mathlib.Core.Path.{subst}
use mathlib.Core.Option.{some-injective}
use llmsnap.Prelude.{
  ◌⊎◌, ◌≡◌, inr, inl, refl, false, true, some, none, ◌∷◌, [], List, Text, find, arith, contains,
  Bool, put, if◌then◌else◌, Bool-cases, text_eq, Option, keys_of,
}

-- A group that is persistent, or swaps, is exclusive, and has no member with the empty name.
abbrev pub TakesTurns : GroupConfig → Type 0
TakesTurns g =
    (g.persistent ≡ true)
    ⊎ ((g.swap ≡ true) × (g.exclusive ≡ true) × (contains g.members [] ≡ false))

abbrev pub AllTakeTurns : List (Text × GroupConfig) → Type 0
AllTakeTurns [] = Unit {0}
AllTakeTurns ((id, g) ∷ groups) = TakesTurns g × AllTakeTurns groups

find-TakesTurns :
    (id : Text) (groups : List (Text × GroupConfig)) {g : GroupConfig}
    → AllTakeTurns groups
    → find id groups ≡ some g
    → TakesTurns g
unfolding find
find-TakesTurns id [] h e = absurd (ground (arith, e))
find-TakesTurns id ((k, g') ∷ groups) {g} h e =
    by_name (text_eq k id) e (find-TakesTurns id groups h.1)
  where
    by_name :
        (b : Bool)
        → (if b then some g' else find id groups) ≡ some g
        → (find id groups ≡ some g → TakesTurns g)
        → TakesTurns g
    by_name true e later = subst TakesTurns (some-injective g' g e) h.0
    by_name false e later = later e

module _ {P : Type 0} (make : Text → ModelConfig → P) (Idle : P → Type 0)
    (fresh : (name : Text) (m : ModelConfig) → Idle (make name m)) where
  put-idle :
      (name : Text) (p : P) (processes : List (Text × P))
      → Idle p
      → IdleBut Idle [] processes
      → IdleBut Idle [] (put name p processes)
  unfolding put
  put-idle name p [] idle h = (inr idle, tt)
  put-idle name p ((k, q) ∷ processes) idle h = elim (Bool-cases (text_eq k name)) [
    | inl e ↦ rw e (inr idle, h.1)
    | inr ne ↦ rw ne (h.0, put-idle name p processes idle h.1)
  ]

  new_processes-idle :
      (config : Config) (members : List Text) (processes : List (Text × P))
      → IdleBut Idle [] processes
      → IdleBut Idle [] (new_processes make config members processes)
  unfolding new_processes
  new_processes-idle config [] processes h = h
  new_processes-idle config (member ∷ members) processes h =
      let found = config_or_zero (find_config config member) in
      new_processes-idle config members (put found.0 (make found.0 found.1) processes)
        (put-idle found.0 (make found.0 found.1) processes (fresh found.0 found.1) h)

  new_process_group-Fits :
      (holder id : Text) (config : Config) {g : ProcessGroup P}
      → AllTakeTurns config.groups
      → new_process_group make id config ≡ some g
      → Fits Idle holder id g
  unfolding new_process_group new_from
  new_process_group-Fits holder id config {g} h e = by_config (find id config.groups) refl e
    where
      idle : (members : List Text) → IdleBut Idle [] (new_processes make config members [])
      idle members = new_processes-idle config members [] tt

      by_kind :
          (gc : GroupConfig)
          → TakesTurns gc
          → new_from make config (some gc) ≡ some g
          → Fits Idle holder id g
      by_kind gc (inl kept) e = inl (
          subst (λ x. x.persistent ≡ true)
            (some-injective
              (record {
                swap = gc.swap;
                exclusive = gc.exclusive;
                persistent = gc.persistent;
                members = gc.members;
                processes = new_processes make config gc.members [];
                last_used_process = [];
              })
              g e)
            kept)
      by_kind gc (inr turns) e =
          subst (Fits Idle holder id)
            (some-injective
              (record {
                swap = gc.swap;
                exclusive = gc.exclusive;
                persistent = gc.persistent;
                members = gc.members;
                processes = new_processes make config gc.members [];
                last_used_process = [];
              })
              g e)
            (inr (record {
              exclusive = turns.1;
              swapped = record { swaps = turns.0; named = turns.2; idle = idle gc.members };
              alone = inr (idle gc.members);
            }))

      by_config :
          (o : Option GroupConfig)
          → find id config.groups ≡ o
          → new_from make config o ≡ some g
          → Fits Idle holder id g
      by_config none found e = absurd (ground (arith, e))
      by_config (some gc) found e = by_kind gc (find-TakesTurns id config.groups h found) e

  new_groups-AllFit :
      (holder : Text) (config : Config) (ids : List Text) {groups : List (Text × ProcessGroup P)}
      → AllTakeTurns config.groups
      → new_groups make config ids ≡ some groups
      → AllFit Idle holder groups
  unfolding new_groups add_group
  new_groups-AllFit holder config [] {groups} h e =
      subst (AllFit Idle holder) (some-injective [] groups e) tt
  new_groups-AllFit holder config (id ∷ ids) {groups} h e =
      by_group (new_process_group make id config) refl (new_groups make config ids) refl e
        (λ gs. new_groups-AllFit holder config ids {groups = gs} h)
    where
      by_group :
          (o : Option (ProcessGroup P))
          → new_process_group make id config ≡ o
          → (rest : Option (List (Text × ProcessGroup P))) → new_groups make config ids ≡ rest
          → add_group make id o rest ≡ some groups
          → ((gs : List (Text × ProcessGroup P))
              → new_groups make config ids ≡ some gs
              → AllFit Idle holder gs)
          → AllFit Idle holder groups
      by_group none made rest others e later = absurd (ground (arith, e))
      by_group (some g) made none others e later = absurd (ground (arith, e))
      by_group (some g) made (some gs) others e later =
          subst (AllFit Idle holder) (some-injective ((id, g) ∷ gs) groups e)
            (new_process_group-Fits holder id config h made, later gs others)

  -- The first place may be any group's.
  pub new_proxy_manager-HasHolder :
      (config : Config) (holder : Text) {pm : ProxyManager P}
      → AllTakeTurns config.groups
      → new_proxy_manager make config ≡ some pm
      → HasHolder Idle pm
  unfolding new_proxy_manager manager_of
  new_proxy_manager-HasHolder config holder {pm} h e =
      by_groups (new_groups make config (keys_of config.groups)) refl e
    where
      by_groups :
          (o : Option (List (Text × ProcessGroup P)))
          → new_groups make config (keys_of config.groups) ≡ o
          → manager_of make config o ≡ some pm
          → HasHolder Idle pm
      by_groups none made e = absurd (ground (arith, e))
      by_groups (some groups) made e =
          subst (HasHolder Idle)
            (some-injective
              (record {
                config = config;
                process_groups = groups;
                peer_proxy = some (new_peer_proxy config.peers);
              })
              pm e)
            (record {
              holder = holder;
              fit = new_groups-AllFit holder config (keys_of config.groups) h made;
            })
