-- ===== src/ProxyManager/Tests/Api.antt =====
-- proxy/proxymanager.go, proxy/proxymanager_loghandlers.go and proxy/proxymanager_api.go: streams, routes
-- and captures on concrete inputs.
use llmsnap.MetricsMonitor.Captures.{IsValid}
use mathlib.Core.Option.{some-injective}
use llmsnap.ProxyManager.Keys.{api_key_auth, provided_key, basic_key, bearer_key, trim_prefix}
use llmsnap.ProxyManager.Guarded.{IsMember, Passed, reach-guarded}
use llmsnap.ProxyManager.CaptureApi.{api_get_capture, api_get_capture-add_capture}
use llmsnap.ProxyManager.Routes.{
  Entry, reach, Method, route_table, inference_routes, protected_entries, protected_entry,
  other_routes, api_routes, enter_found, enter, authorized, is_options, running, get_method,
  public_entry,
}
use llmsnap.MetricsMonitor.{
  MetricsMonitor, ReqRespCapture, size, headers_size, get_capture_by_id, lookup, add_capture,
}
use llmsnap.Config.Load.{validate_api_keys}
use llmsnap.Prelude.{
  inr, List, [], codes, true, ◌∷◌, Text, Option, false, ◌≡◌, none, show, some, ◌++◌, if◌then◌else◌,
  length, pos, text_eq, arith, ◌≤◌, Bool, inl, sym, contains, has_prefix, refl, contains_text, ℕ,
  byte_length,
}
use llmsnap.ProxyManager.Queued.{accepted, IsThinned, offered, run_stream_lem}
use llmsnap.ProxyManager.Streams.{run_stream, offers, takes, StreamStep}

abbrev three_lines : List (StreamStep ℕ)
three_lines = offers 7 ∷ offers 8 ∷ takes ∷ offers 9 ∷ []

-- Three lines, one of which finds no room.
run_stream_lem_example :
    let s = run_stream 1 three_lines (record { sent = 1 ∷ []; queue = []; ended = false }) in
    ((s.sent ++ s.queue) ≡ (1 ∷ []) ++ accepted 1 0 three_lines)
    × (length s.queue ≤ 1)
    × IsThinned (offered three_lines) (accepted 1 0 three_lines)
run_stream_lem_example = run_stream_lem 1 three_lines (1 ∷ [])

one_left_out : accepted 1 0 three_lines ≡ (7 ∷ 9 ∷ [])
one_left_out = refl

-- The first route of the table for a path, whatever the method.
abbrev first_route : List Entry → Method → Text → Option Entry
first_route [] method path = none
first_route (e ∷ es) method path =
    let rest = first_route es method path in if text_eq e.path path then some e else rest

first_route-IsMember :
    (es : List Entry) (method : Method) (path : Text) (e : Entry)
    → first_route es method path ≡ some e
    → IsMember e es
first_route-IsMember [] method path e h = absurd (ground (arith, h))
first_route-IsMember (x ∷ es) method path e h =
    by_path (text_eq x.path path) h (first_route-IsMember es method path e)
  where
    by_path :
        (b : Bool)
        → (if b then some x else first_route es method path) ≡ some e
        → (first_route es method path ≡ some e → IsMember e es)
        → IsMember e (x ∷ es)
    by_path true h' later = inl (sym (some-injective x e h'))
    by_path false h' later = inr (later h')

reach-guarded_example :
    Passed
      (λ t. none)
      (codes "k" ∷ [])
      (record { authorization = codes "Bearer k"; x_api_key = [] })
      running
      (record { authorization = []; x_api_key = [] })
unfolding validate_api_keys contains_text public_entry trim_prefix reach route_table
    inference_routes protected_entries protected_entry text_eq other_routes api_routes enter_found
    enter authorized api_key_auth contains provided_key basic_key bearer_key has_prefix is_options
reach-guarded_example =
    reach-guarded (λ t. none) (codes "k" ∷ []) first_route get_method (codes "/running") []
      (record { authorization = codes "Bearer k"; x_api_key = [] })
      (record { authorization = []; x_api_key = [] }) running {u = tt} refl first_route-IsMember
      refl

abbrev page : ReqRespCapture
page = record {
  id = 41;
  req_path = codes "/v1";
  req_headers = [];
  req_body = 1 ∷ 2 ∷ [];
  resp_headers = [];
  resp_body = 3 ∷ [];
}

abbrev capturing : MetricsMonitor
capturing = record {
  metrics = [];
  max_metrics = 10;
  next_id = 41;
  enable_captures = true;
  captures = [];
  capture_order = [];
  capture_size = 0;
  max_capture_size = 100;
  emitted = [];
}

capturing-IsValid : IsValid capturing
capturing-IsValid = record { ordered = refl; counted = refl; bounded = omega arith }

api_get_capture-add_capture_example :
    api_get_capture (show (pos 41)) (add_capture page capturing) ≡ (200, some page)
unfolding size headers_size byte_length get_capture_by_id lookup
api_get_capture-add_capture_example =
    api_get_capture-add_capture page capturing capturing-IsValid refl (omega arith) refl
      (omega arith)
