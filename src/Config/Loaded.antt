-- ===== src/Config/Loaded.antt =====
-- proxy/config/config.go: the parts of a loading.
use llmsnap.Config.Unknown.{validate_macros}
use llmsnap.Config.Groups.{add_default_group_to_config, validate_groups}
use llmsnap.Config.{Config, ModelConfig, PeerConfig}
use llmsnap.Config.Load.{
  load_config, load_parts, clamp_timeouts, alias_map, log_outputs, load_models, sort_entries,
  validate_api_keys, load_peers, real_names,
}
use llmsnap.Prelude.{
  sym, ok-injective, Bool, Text, Result, List, if◌then◌else◌, err, not, ◌≡◌, ltb_ℤ, ok, false, pos,
  contains, true, [], refl, ok-bind, pos_part, ok-then,
}

-- The parts of a loading that succeeds.
pub record Steps (valid_url : Text → Bool) (decoded config : Config) : Type 0 where
  pub aliases' : List (Text × Text)
  pub models' : List (Text × ModelConfig)
  pub peers' : List (Text × PeerConfig)
  pub usage : List (Text × Text)
  pub grouped : Config
  pub port_ok : ltb_ℤ decoded.start_port (pos 1) ≡ false
  pub aliases_ok : alias_map decoded.models [] ≡ ok aliases'
  pub models_ok :
      load_models valid_url
        (record (clamp_timeouts decoded) { aliases = aliases' })
        (pos_part decoded.start_port)
        (sort_entries decoded.models)
      ≡ ok models'
  pub grouped_is :
      grouped
      ≡ add_default_group_to_config
          (record (clamp_timeouts decoded) { aliases = aliases'; models = models' })
  pub groups_ok : validate_groups [] grouped.groups ≡ ok usage
  pub keys_ok : validate_api_keys decoded.required_api_keys ≡ ok tt
  pub config_is :
      config ≡ record grouped { preload = real_names grouped grouped.preload; peers = peers' }

checked_first :
    {E A : Type 0}
    → (b c : Bool) (e f : E) (r : Result E A) {a : A}
    → (if b then err e else if not c then err f else r) ≡ ok a
    → (b ≡ false) × (c ≡ true) × (r ≡ ok a)
checked_first true c e f r h = cc
checked_first false true e f r h = (refl, refl, h)
checked_first false false e f r h = cc

pub load_config-Steps :
    (valid_url : Text → Bool) (decoded config : Config)
    → load_config valid_url decoded ≡ ok config
    → Steps valid_url decoded config
unfolding load_config load_parts clamp_timeouts add_default_group_to_config
load_config-Steps valid_url decoded config h =
    let first =
      checked_first (ltb_ℤ decoded.start_port (pos 1)) (contains log_outputs decoded.log_to_stdout)
        _ _ _ h in
    let aliases = ok-bind (alias_map decoded.models []) _ first.2 in
    let macros = ok-then (validate_macros decoded.macros) _ aliases.2 in
    let models =
      ok-bind
        (load_models valid_url (record (clamp_timeouts decoded) { aliases = aliases.0 })
          (pos_part decoded.start_port) (sort_entries decoded.models))
        _ macros.1 in
    let grouped : Config =
      add_default_group_to_config
        (record (clamp_timeouts decoded) { aliases = aliases.0; models = models.0 }) in
    let groups = ok-then (validate_groups [] grouped.groups) _ models.2 in
    let keys = ok-then (validate_api_keys decoded.required_api_keys) _ groups.1 in
    let peers = ok-bind (load_peers decoded.macros decoded.peers) _ keys.1 in
    record {
      aliases' = aliases.0;
      models' = models.0;
      peers' = peers.0;
      usage = groups.0.0;
      grouped = grouped;
      port_ok = first.0;
      aliases_ok = aliases.1;
      models_ok = models.1;
      grouped_is = refl;
      groups_ok = groups.0.1;
      keys_ok = keys.0.1;
      config_is = sym (ok-injective peers.2);
    }
