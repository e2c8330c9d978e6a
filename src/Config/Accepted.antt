-- ===== src/Config/Accepted.antt =====
-- proxy/config/model_config.go: a model that is read.
use llmsnap.Config.Endpoints.{
  unmarshal_model, validate_endpoint, validate_endpoints, sleep_mode_disable, valid_methods,
  sleep_mode_enable, default_model, validate_sleep_mode,
}
use mathlib.Core.Path.{subst}
use llmsnap.Prelude.{
  inr, inl, refl, err, List, Text, text_eq, ◌∷◌, [], ◌≡◌, false, ok, contains, length, ◌⊎◌, true,
  ltb_ℤ, ◌<◌, pos, ok-injective, ok-bind, suc, ap, Bool, arith, if◌then◌else◌, ok-then, not,
  text_eq_sound,
}
use llmsnap.Config.{HttpEndpoint, ModelConfig}

-- An endpoint that the proxy can call.
pub record IsUsable (ep : HttpEndpoint) : Type 0 where
  pub has_path : text_eq ep.endpoint [] ≡ false
  pub has_method : contains valid_methods ep.method ≡ true
  pub no_negative : ltb_ℤ ep.timeout (pos 0) ≡ false

abbrev pub AllUsable : List HttpEndpoint → Type 0
AllUsable [] = Unit {0}
AllUsable (ep ∷ eps) = IsUsable ep × AllUsable eps

endpoint_tests :
    {E A : Type 0}
    → (a b c : Bool) (e e' e'' : E) {x y : A}
    → (if a then err e else if not b then err e' else if c then err e'' else ok x) ≡ ok y
    → (a ≡ false) × (b ≡ true) × (c ≡ false) × (x ≡ y)
endpoint_tests true b c e e' e'' h = cc
endpoint_tests false false c e e' e'' h = cc
endpoint_tests false true true e e' e'' h = cc
endpoint_tests false true false e e' e'' h = (refl, refl, refl, ok-injective h)

validate_endpoint-IsUsable :
    (to_upper : Text → Text) (ep ep' : HttpEndpoint)
    → validate_endpoint to_upper ep ≡ ok ep'
    → IsUsable ep'
unfolding validate_endpoint
validate_endpoint-IsUsable to_upper ep ep' h =
    let tests = endpoint_tests (text_eq ep.endpoint []) _ (ltb_ℤ ep.timeout (pos 0)) _ _ _ h in
    subst IsUsable (tests.3)
      (record { has_path = tests.0; has_method = tests.1; no_negative = tests.2 })

validate_endpoints-AllUsable :
    (to_upper : Text → Text) (eps eps' : List HttpEndpoint)
    → validate_endpoints to_upper eps ≡ ok eps'
    → AllUsable eps' × (length eps' ≡ length eps)
unfolding validate_endpoints
validate_endpoints-AllUsable to_upper [] eps' h =
    subst (λ l. AllUsable l × (length l ≡ 0)) (ok-injective h) (tt, refl)
validate_endpoints-AllUsable to_upper (ep ∷ eps) eps' h =
    let first = ok-bind (validate_endpoint to_upper ep) _ h in
    let more = ok-bind (validate_endpoints to_upper eps) _ first.2 in
    let rest = validate_endpoints-AllUsable to_upper eps more.0 more.1 in
    subst (λ l. AllUsable l × (length l ≡ suc (length eps))) (ok-injective more.2)
      ((validate_endpoint-IsUsable to_upper ep first.0 first.1, rest.0), ap suc rest.1)

validate_sleep_mode_lem :
    (to_upper : Text → Text) (m : ModelConfig) {u : Unit {0}}
    → validate_sleep_mode to_upper m ≡ ok u
    → (m.sleep_mode ≡ sleep_mode_disable)
      ⊎ ((m.sleep_mode ≡ sleep_mode_enable)
          × (0 < length m.sleep_endpoints)
          × (0 < length m.wake_endpoints))
unfolding validate_sleep_mode
validate_sleep_mode_lem to_upper m h = ground (
  arith,
  h,
  text_eq_sound m.sleep_mode sleep_mode_enable,
  text_eq_sound m.sleep_mode sleep_mode_disable,
)

abbrev pub IsReadable : ModelConfig → Type 0
IsReadable m =
    AllUsable m.sleep_endpoints
    × AllUsable m.wake_endpoints
    × ((m.sleep_mode ≡ sleep_mode_disable)
        ⊎ ((m.sleep_mode ≡ sleep_mode_enable)
            × (0 < length m.sleep_endpoints)
            × (0 < length m.wake_endpoints)))

-- A model that is read has endpoints with a path, a known method and no negative timeout; and either
-- its sleep mode is off, or it is on and there is an endpoint to sleep and one to wake.
pub unmarshal_model_lem :
    (to_upper : Text → Text) (decode : ModelConfig → ModelConfig) (m : ModelConfig)
    → unmarshal_model to_upper decode ≡ ok m
    → IsReadable m
unfolding unmarshal_model
unmarshal_model_lem to_upper decode m h =
    let raw : ModelConfig = decode default_model in
    let mode = ok-then (validate_sleep_mode to_upper raw) _ h in
    let sleeps = ok-bind (validate_endpoints to_upper raw.sleep_endpoints) _ mode.1 in
    let wakes = ok-bind (validate_endpoints to_upper raw.wake_endpoints) _ sleeps.2 in
    let sleeps_are = validate_endpoints-AllUsable to_upper raw.sleep_endpoints sleeps.0 sleeps.1 in
    let wakes_are = validate_endpoints-AllUsable to_upper raw.wake_endpoints wakes.0 wakes.1 in
    subst IsReadable (ok-injective wakes.2) (
      sleeps_are.0,
      wakes_are.0,
      elim (validate_sleep_mode_lem to_upper raw mode.0.1) [
        | inl off ↦ inl off
        | inr (on, some_sleep, some_wake) ↦ inr (
          on,
          (let e : 0 < length sleeps.0 = omega (arith, some_sleep, sleeps_are.1) in e),
          (let e : 0 < length wakes.0 = omega (arith, some_wake, wakes_are.1) in e),
        )
      ],
    )
