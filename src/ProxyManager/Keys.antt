-- ===== src/ProxyManager/Keys.antt =====
-- proxy/proxymanager.go: the check of an API key. `base64.StdEncoding.DecodeString` is the argument
-- `decode`.
use llmsnap.Config.Load.{validate_api_keys}
use llmsnap.PeerProxy.{KeyHeaders}
use llmsnap.Prelude.{
  refl, inr, inl, Option, Text, List, [], drop, if◌then◌else◌, ◌∷◌, has_prefix, length, not, some,
  ◌==◌, codes, contains, none, text_eq, ◌≡◌, ok, ◌⊎◌, true, ◌≢◌, false, Bool-cases, arith, ap,
}

-- `strings.TrimPrefix` of a text that has the prefix.
unfoldable pub trim_prefix : Text → Text → Text
trim_prefix t prefix = drop (length prefix) t

-- The second part of `strings.SplitN(t, ":", 2)`; the empty text if there is none.
unfoldable pub after_colon : Text → Text
after_colon [] = []
after_colon (c ∷ cs) = let rest = after_colon cs in if c == 58 then cs else rest

unfoldable pub password : Option Text → Text
password none = []
password (some decoded) = after_colon decoded

unfoldable pub bearer_key : Text → Text
bearer_key auth =
    if has_prefix auth (codes "Bearer ") then trim_prefix auth (codes "Bearer ") else []

-- The basic key is read where there is no bearer prefix.
unfoldable pub basic_key : (Text → Option Text) → Text → Text
basic_key decode auth =
    if has_prefix auth (codes "Bearer ")
    then []
    else if has_prefix auth (codes "Basic ")
    then password (decode (trim_prefix auth (codes "Basic ")))
    else []

unfoldable pub provided_key : (Text → Option Text) → KeyHeaders → Text
provided_key decode headers =
    let basic = basic_key decode headers.authorization in
    let bearer = bearer_key headers.authorization in
    if not (text_eq basic [])
    then basic
    else if not (text_eq bearer [])
    then bearer
    else headers.x_api_key

-- `apiKeyAuth`: the headers that the next handler sees; `none` is the answer 401.
unfoldable pub api_key_auth : (Text → Option Text) → List Text → KeyHeaders → Option KeyHeaders
api_key_auth decode [] headers = some headers
api_key_auth decode (key ∷ keys) headers =
    if contains (key ∷ keys) (provided_key decode headers)
    then some (record { authorization = []; x_api_key = [] })
    else none

no_empty_key :
    (keys : List Text) {u : Unit {0}} → validate_api_keys keys ≡ ok u → contains keys [] ≡ false
unfolding validate_api_keys contains
no_empty_key [] h = refl
no_empty_key (key ∷ keys) h = ground (arith, h, no_empty_key keys)

pub api_key_auth_lem :
    (decode : Text → Option Text) (keys : List Text) (headers : KeyHeaders) {u : Unit {0}}
    → validate_api_keys keys ≡ ok u
    → ((keys ≡ []) × (api_key_auth decode keys headers ≡ some headers))
      ⊎ ((contains keys (provided_key decode headers) ≡ true)
          × (provided_key decode headers ≢ [])
          × (api_key_auth decode keys headers
              ≡ some (record { authorization = []; x_api_key = [] })))
      ⊎ ((contains keys (provided_key decode headers) ≡ false)
          × (api_key_auth decode keys headers ≡ none))
unfolding api_key_auth
api_key_auth_lem decode [] headers h = inl (refl, refl)
api_key_auth_lem decode (key ∷ keys) headers h =
    elim (Bool-cases (contains (key ∷ keys) (provided_key decode headers))) [
      | inl e ↦ inr (
          inl (
            e,
            ground (
              arith,
              e,
              no_empty_key (key ∷ keys) h,
              ap (contains (key ∷ keys)) {x = provided_key decode headers} {y = []},
            ),
            ground (arith, e),
          ))
      | inr e ↦ inr (inr (e, ground (arith, e)))
    ]
