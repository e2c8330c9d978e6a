-- ===== src/Config/Closed.antt =====
-- proxy/config/config.go: what the checks of a model's fields for macros that are left come to.
use llmsnap.Prelude.{
  List, contains, ℤ, ◌≡◌, Text, [], ok, ◌∷◌, Bool, arith, codes, ok-then, refl, if◌then◌else◌,
  text_eq_sound, eqb_ℤ, pos, true, false,
}
use llmsnap.Config.{
  HttpEndpoint, Value, Values, Fields, str, slice, mapping, nil, cons, end, field, int, float, bool,
  null,
}
use llmsnap.Config.Unknown.{
  macro_names, env_names, check_names, first_unknown, validate_nested, validate_nested_values,
  validate_nested_fields, validate_endpoint_macros,
}
use llmsnap.Config.Models.{with_timeout}

-- Every one of the names is PID.
abbrev pub OnlyPid : List Text → Type 0
OnlyPid [] = Unit {0}
OnlyPid (name ∷ names) = (name ≡ codes "PID") × OnlyPid names

-- No macro in the path or the body of an endpoint.
abbrev pub EndpointsClosed : List HttpEndpoint → Type 0
EndpointsClosed [] = Unit {0}
EndpointsClosed (ep ∷ eps) =
    (macro_names ep.endpoint ≡ []) × (macro_names ep.body ≡ []) × EndpointsClosed eps

-- No macro and no variable of the environment in any text of a value, however deep it lies.
unfoldable mutual
  pub ValueClosed : Value → Type 0
  ValueClosed (str t) = (macro_names t ≡ []) × (env_names t ≡ [])
  ValueClosed (slice vs) = ValuesClosed vs
  ValueClosed (mapping fs) = FieldsClosed fs
  ValueClosed v = Unit {0}

  pub ValuesClosed : Values → Type 0
  ValuesClosed nil = Unit {0}
  ValuesClosed (cons v vs) = ValueClosed v × ValuesClosed vs

  pub FieldsClosed : Fields → Type 0
  FieldsClosed end = Unit {0}
  FieldsClosed (field k v fs) = ValueClosed v × FieldsClosed fs

pub check_names-nil : (names : List Text) {u : Unit {0}} → check_names [] names ≡ ok u → names ≡ []
unfolding check_names contains
check_names-nil [] h = refl
check_names-nil (n ∷ ns) h = ground (arith, h)

pub check_names-OnlyPid :
    (names : List Text) {u : Unit {0}} → check_names (codes "PID" ∷ []) names ≡ ok u → OnlyPid names
unfolding check_names contains
check_names-OnlyPid [] h = tt
check_names-OnlyPid (n ∷ ns) h =
    ground (
      arith,
      h,
      text_eq_sound n (codes "PID"),
      text_eq_sound (codes "PID") n,
      check_names-OnlyPid ns,
    )

pub validate_endpoint_macros-EndpointsClosed :
    (eps : List HttpEndpoint) {u : Unit {0}}
    → validate_endpoint_macros eps ≡ ok u
    → EndpointsClosed eps
unfolding validate_endpoint_macros
validate_endpoint_macros-EndpointsClosed [] h = tt
validate_endpoint_macros-EndpointsClosed (ep ∷ eps) h =
    let path = ok-then (check_names [] (macro_names ep.endpoint)) _ h in
    let body = ok-then (check_names [] (macro_names ep.body)) _ path.1 in
    (
      check_names-nil (macro_names ep.endpoint) path.0.1,
      check_names-nil (macro_names ep.body) body.0.1,
      validate_endpoint_macros-EndpointsClosed eps body.1,
    )

first_unknown_none :
    (names env : List Text) {u : Unit {0}}
    → first_unknown names env ≡ ok u
    → (names ≡ []) × (env ≡ [])
unfolding first_unknown
first_unknown_none [] [] h = (refl, refl)
first_unknown_none [] (n ∷ ns) h = cc
first_unknown_none (n ∷ ns) env h = cc

mutual
  unfolding validate_nested validate_nested_values validate_nested_fields ValueClosed ValuesClosed
      FieldsClosed

  pub validate_nested-ValueClosed :
      (v : Value) {u : Unit {0}} → validate_nested v ≡ ok u → ValueClosed v
  validate_nested-ValueClosed (str t) h = first_unknown_none (macro_names t) (env_names t) h
  validate_nested-ValueClosed (slice vs) h = validate_nested-ValuesClosed vs h
  validate_nested-ValueClosed (mapping fs) h = validate_nested-FieldsClosed fs h
  validate_nested-ValueClosed (int n) h = tt
  validate_nested-ValueClosed (float t) h = tt
  validate_nested-ValueClosed (bool b) h = tt
  validate_nested-ValueClosed null h = tt

  pub validate_nested-ValuesClosed :
      (vs : Values) {u : Unit {0}} → validate_nested_values vs ≡ ok u → ValuesClosed vs
  validate_nested-ValuesClosed nil h = tt
  validate_nested-ValuesClosed (cons v vs) h =
      let first = ok-then (validate_nested v) _ h in
      (validate_nested-ValueClosed v first.0.1, validate_nested-ValuesClosed vs first.1)

  pub validate_nested-FieldsClosed :
      (fs : Fields) {u : Unit {0}} → validate_nested_fields fs ≡ ok u → FieldsClosed fs
  validate_nested-FieldsClosed end h = tt
  validate_nested-FieldsClosed (field k v fs) h =
      let first = ok-then (validate_nested v) _ h in
      (validate_nested-ValueClosed v first.0.1, validate_nested-FieldsClosed fs first.1)

-- A timeout that is set leaves the texts of an endpoint alone.
pub with_timeout-EndpointsClosed :
    (default : ℤ) (eps : List HttpEndpoint)
    → EndpointsClosed eps
    → EndpointsClosed (with_timeout default eps)
unfolding with_timeout
with_timeout-EndpointsClosed default [] h = tt
with_timeout-EndpointsClosed default (ep ∷ eps) h =
    by_test (eqb_ℤ ep.timeout (pos 0)) (with_timeout-EndpointsClosed default eps h.2)
  where
    by_test :
        (b : Bool)
        → EndpointsClosed (with_timeout default eps)
        → EndpointsClosed
            ((if b then record ep { timeout = default } else ep) ∷ with_timeout default eps)
    by_test true later = (h.0, h.1, later)
    by_test false later = (h.0, h.1, later)
