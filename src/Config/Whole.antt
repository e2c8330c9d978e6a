-- ===== src/Config/Whole.antt =====
-- proxy/config/config.go: a configuration that loads, as a whole.
use llmsnap.Config.Loaded.{load_config-Steps, Steps}
use llmsnap.Config.Members.{memberships, memberships_le, memberships_pos}
use llmsnap.Config.Aliases.{owner, find-alias_map}
use llmsnap.Config.Groups.{default_group_id, add_default_group_to_config, is_grouped}
use llmsnap.Prelude.{IsMap}
use llmsnap.Config.Grouped.{is_grouped-add_default_group, without_absent}
use llmsnap.Config.{real_model_name, Config}
use llmsnap.Prelude.{
  [], Text, Bool, ℤ, ltb_ℤ, ◌≡◌, false, ok, if◌then◌else◌, pos, arith, has_key, some, true,
  contains, refl, keys_of, find, ap, ◌∙◌, sym, ◌&&◌, not, ◌||◌,
}
use llmsnap.Config.Load.{at_least, load_config, clamp_timeouts, real_names}

-- No less than a bound, which the loading sets.
at_least_lem : (low z : ℤ) → ltb_ℤ (at_least low z) low ≡ false
unfolding at_least
at_least_lem low z = branch (ltb_ℤ z low) refl
  where
    branch : (b : Bool) → ltb_ℤ z low ≡ b → ltb_ℤ (if b then low else z) low ≡ false
    branch true e = ground arith
    branch false e = e

-- The fields that the checks and the groups leave as they were read.
fields :
    (valid_url : Text → Bool) (decoded config : Config)
    → (s : Steps valid_url decoded config)
    → (config.health_check_timeout ≡ at_least (pos 15) decoded.health_check_timeout)
      × (config.sleep_request_timeout ≡ at_least (pos 1) decoded.sleep_request_timeout)
      × (config.wake_request_timeout ≡ at_least (pos 1) decoded.wake_request_timeout)
      × (config.start_port ≡ decoded.start_port)
      × (config.aliases ≡ s.aliases')
      × (config.models ≡ s.models')
      × (config.groups ≡ s.grouped.groups)
unfolding clamp_timeouts add_default_group_to_config
fields valid_url decoded config s = (
  via (λ c. c.health_check_timeout) ∙ through (λ c. c.health_check_timeout),
  via (λ c. c.sleep_request_timeout) ∙ through (λ c. c.sleep_request_timeout),
  via (λ c. c.wake_request_timeout) ∙ through (λ c. c.wake_request_timeout),
  via (λ c. c.start_port) ∙ through (λ c. c.start_port),
  via (λ c. c.aliases) ∙ through (λ c. c.aliases),
  via (λ c. c.models) ∙ through (λ c. c.models),
  ap (λ c. c.groups) s.config_is,
)
  where
    via :
        {A : Type 0}
        → (f : Config → A)
        → f config
          ≡ f (record s.grouped {
            preload = real_names s.grouped s.grouped.preload;
            peers = s.peers';
          })
    via f = ap f s.config_is

    through :
        {A : Type 0}
        → (f : Config → A)
        → f s.grouped
          ≡ f (
              add_default_group_to_config
                (record (clamp_timeouts decoded) { aliases = s.aliases'; models = s.models' }))
    through f = ap f s.grouped_is

-- A configuration loads with a health check timeout of at least 15 seconds, sleep and wake timeouts of
-- at least one, and a start port of at least one.
pub load_config-bounds :
    (valid_url : Text → Bool) (decoded config : Config)
    → load_config valid_url decoded ≡ ok config
    → (ltb_ℤ config.health_check_timeout (pos 15) ≡ false)
      × (ltb_ℤ config.sleep_request_timeout (pos 1) ≡ false)
      × (ltb_ℤ config.wake_request_timeout (pos 1) ≡ false)
      × (ltb_ℤ config.start_port (pos 1) ≡ false)
load_config-bounds valid_url decoded config h =
    let s = load_config-Steps valid_url decoded config h in
    let are = fields valid_url decoded config s in
    (
      ap (λ z. ltb_ℤ z (pos 15)) are.0 ∙ at_least_lem (pos 15) decoded.health_check_timeout,
      ap (λ z. ltb_ℤ z (pos 1)) are.1 ∙ at_least_lem (pos 1) decoded.sleep_request_timeout,
      ap (λ z. ltb_ℤ z (pos 1)) are.2 ∙ at_least_lem (pos 1) decoded.wake_request_timeout,
      ap (λ z. ltb_ℤ z (pos 1)) are.3 ∙ s.port_ok,
    )

-- In a configuration that loads, a name stands for the model of that name if there is one, else for
-- the first model that lists it among its aliases, if any does.
pub real_model_name-load_config :
    (valid_url : Text → Bool) (decoded config : Config) (name : Text)
    → load_config valid_url decoded ≡ ok config
    → real_model_name config name
      ≡ (if has_key name config.models then some name else owner decoded.models name)
unfolding real_model_name find
real_model_name-load_config valid_url decoded config name h =
    let s = load_config-Steps valid_url decoded config h in
    let are = fields valid_url decoded config s in
    ap (λ x. if has_key name config.models then some name else x)
      (ap (find name) are.4 ∙ find-alias_map decoded.models [] name s.aliases_ok)

-- In a configuration that loads from groups with distinct names, none of which is the default group's,
-- every model is a member of exactly one group, once.
pub memberships-load_config :
    (valid_url : Text → Bool) (decoded config : Config) (t : Text)
    → load_config valid_url decoded ≡ ok config
    → IsMap decoded.groups
    → has_key default_group_id decoded.groups ≡ false
    → contains (keys_of config.models) t ≡ true
    → memberships config.groups t ≡ 1
unfolding clamp_timeouts
memberships-load_config valid_url decoded config t h map_groups no_default is_model =
    let s = load_config-Steps valid_url decoded config h in
    let are = fields valid_url decoded config s in
    let at_most = memberships_le s.grouped.groups t s.groups_ok in
    let before : Config = record (clamp_timeouts decoded) {
      aliases = s.aliases';
      models = s.models';
    } in
    let in_models : contains (keys_of s.models') t ≡ true =
      ap (λ ms. contains (keys_of ms) t) (sym are.5) ∙ is_model in
    let in_group : is_grouped s.grouped.groups t ≡ (
        contains (keys_of s.models') t && not (is_grouped decoded.groups t)
        || is_grouped decoded.groups t) =
      ap (λ c. is_grouped c.groups t) s.grouped_is
      ∙ is_grouped-add_default_group before t map_groups
      ∙ ap
          (λ gs.
            contains (keys_of s.models') t && not (is_grouped decoded.groups t) || is_grouped gs t)
          (without_absent default_group_id decoded.groups no_default) in
    let grouped : is_grouped s.grouped.groups t ≡ true = ground (arith, in_group, in_models) in
    ap (λ gs. memberships gs t) are.6
    ∙ (let e : memberships s.grouped.groups t ≡ 1 =
          omega (arith, at_most, memberships_pos s.grouped.groups t grouped) in
        e)
