-- ===== src/ProxyManager/Guarded.antt =====
-- proxy/proxymanager.go: no request gets past the check of a key to what it protects.
use mathlib.Core.Bool.{true≢false}
use mathlib.Core.Option.{some-injective}
use llmsnap.Config.Load.{validate_api_keys}
use llmsnap.ProxyManager.Keys.{provided_key, api_key_auth, api_key_auth_lem}
use llmsnap.PeerProxy.{KeyHeaders}
use llmsnap.Prelude.{
  ap, ◌∙◌, sym, inr, inl, some, none, List, Bool, ◌∷◌, Text, true, ◌||◌, false, ◌≡◌, [], refl,
  Option, arith, ◌&&◌, ◌⊎◌, contains, ok, if◌then◌else◌,
}
use llmsnap.ProxyManager.Routes.{
  Handler, protected_entries, route_table, Entry, inference_routes, protected_entry, Method,
  other_routes, redirects_to, api_routes, public_entry, says_ok, favicon, ui_file, Reached, enter,
  handled, reach, authorized, enter_found, no_route, preflight, options_headers, is_options,
}

-- The handlers that read or change nothing but the user interface's files.
abbrev pub is_public : Handler → Bool
is_public (redirects_to t) = true
is_public says_ok = true
is_public favicon = true
is_public ui_file = true
is_public _ = false

-- Each route is protected or leads to such a handler.
unfoldable pub all_guarded : List Entry → Bool
all_guarded [] = true
all_guarded (e ∷ es) = (e.protected || is_public e.handler) && all_guarded es

route_table-guarded : all_guarded route_table ≡ true
unfolding route_table inference_routes other_routes api_routes protected_entries protected_entry
    public_entry all_guarded
route_table-guarded = refl

abbrev pub IsMember : Entry → List Entry → Type 0
IsMember e [] = ⊥
IsMember e (x ∷ es) = (e ≡ x) ⊎ IsMember e es

member-guarded :
    (e : Entry) (es : List Entry)
    → all_guarded es ≡ true
    → IsMember e es
    → (e.protected || is_public e.handler) ≡ true
unfolding all_guarded
member-guarded e [] h m = absurd m
member-guarded e (x ∷ es) h (inl same) =
    ap (λ y. y.protected || is_public y.handler) same ∙ ground (arith, h)
member-guarded e (x ∷ es) h (inr later) = member-guarded e es (ground (arith, h)) later

is_handled : Reached → Bool
is_handled (handled h headers) = true
is_handled _ = false

no_route-handled : (path : Text) → is_handled (no_route path) ≡ false
unfolding no_route is_handled
no_route-handled path = ground arith

handler_of : Reached → Handler
handler_of (handled h headers) = h
handler_of _ = says_ok

headers_of : KeyHeaders → Reached → KeyHeaders
headers_of other (handled h headers) = headers
headers_of other _ = other

abbrev no_keys : KeyHeaders
no_keys = record { authorization = []; x_api_key = [] }

module _ (decode : Text → Option Text) (keys : List Text) where
  -- What a handler is reached with.
  abbrev pub Passed : KeyHeaders → Handler → KeyHeaders → Type 0
  Passed headers h headers' =
      (is_public h ≡ true)
      ⊎ ((keys ≡ []) × (headers' ≡ headers))
      ⊎ ((contains keys (provided_key decode headers) ≡ true)
          × (headers' ≡ record { authorization = []; x_api_key = [] }))

  enter-guarded :
      (e : Entry) (headers headers' : KeyHeaders) (h : Handler) {u : Unit {0}}
      → validate_api_keys keys ≡ ok u
      → (e.protected || is_public e.handler) ≡ true
      → enter decode keys e headers ≡ handled h headers'
      → Passed headers h headers'
  unfolding enter authorized handler_of headers_of is_handled
  enter-guarded e headers headers' h valid guarded reached = by_kind e.protected guarded reached
    where
      same_handler : (k : Handler) (hs : KeyHeaders) → handled k hs ≡ handled h headers' → k ≡ h
      same_handler k hs eq = ap handler_of eq

      same_headers :
          (k : Handler) (hs : KeyHeaders) → handled k hs ≡ handled h headers' → hs ≡ headers'
      same_headers k hs eq = ap (headers_of hs) eq

      by_auth :
          (o : Option KeyHeaders)
          → api_key_auth decode keys headers ≡ o
          → authorized decode keys e.handler o ≡ handled h headers'
          → Passed headers h headers'
      by_auth none auth eq = absurd (true≢false (sym (ap is_handled eq)))
      by_auth (some passed) auth eq = elim (api_key_auth_lem decode keys headers valid) [
        | inl free ↦ inr (
            inl (
              free.0,
              sym (same_headers e.handler passed eq)
                  ∙ some-injective passed headers (sym auth ∙ free.1),
            ))
        | inr (inl given) ↦ inr (
            inr (
              given.0,
              sym (same_headers e.handler passed eq)
                  ∙ some-injective passed no_keys (sym auth ∙ given.2),
            ))
        | inr (inr missing) ↦ absurd (ground (arith, auth, missing.1))
      ]

      by_kind :
          (b : Bool)
          → (b || is_public e.handler) ≡ true
          → (if b
              then authorized decode keys e.handler (api_key_auth decode keys headers)
              else handled e.handler headers)
            ≡ handled h headers'
          → Passed headers h headers'
      by_kind true g eq = by_auth (api_key_auth decode keys headers) refl eq
      by_kind false g eq = inl (ap is_public (sym (same_handler e.handler headers eq)) ∙ g)

  -- Keys that the configuration's check let through, and a way to find a route that gives one of the
  -- table: a request that reaches a handler reaches one that only redirects, says that the server is
  -- there or sends files of the user interface; or no key is required; or it has provided a required key,
  -- which the handler does not see.
  pub reach-guarded :
      (find_route : List Entry → Method → Text → Option Entry) (method : Method)
      (path requested : Text) (headers headers' : KeyHeaders) (h : Handler) {u : Unit {0}}
      → validate_api_keys keys ≡ ok u
      → ((es : List Entry) (m : Method) (p : Text) (e : Entry)
          → find_route es m p ≡ some e
          → IsMember e es)
      → reach decode keys find_route method path requested headers ≡ handled h headers'
      → Passed headers h headers'
  unfolding reach enter_found is_handled
  reach-guarded find_route method path requested headers headers' h valid finds reached =
      by_options (is_options decode keys method) reached
    where
      by_route :
          (o : Option Entry)
          → find_route route_table method path ≡ o
          → enter_found decode keys o path headers ≡ handled h headers'
          → Passed headers h headers'
      by_route none found eq = absurd (true≢false (sym (ap is_handled eq) ∙ no_route-handled path))
      by_route (some e) found eq =
          enter-guarded e headers headers' h valid
            (member-guarded e route_table route_table-guarded
              (finds route_table method path e found))
            eq

      by_options :
          (b : Bool)
          → (if b
              then preflight (options_headers requested)
              else enter_found decode keys (find_route route_table method path) path headers)
            ≡ handled h headers'
          → Passed headers h headers'
      by_options true eq = absurd (true≢false (sym (ap is_handled eq)))
      by_options false eq = by_route (find_route route_table method path) refl eq
