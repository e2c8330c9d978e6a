-- ===== src/ProxyManager/Routes.antt =====
-- proxy/proxymanager.go, `setupGinEngine`, and `addApiHandlers`: the routes, and what stands before a
-- handler. How the package gin finds a route is the argument `find_route`.
use llmsnap.SanitizeCors.{sanitize_access_control_request_header_values}
use llmsnap.ProxyManager.Keys.{api_key_auth}
use llmsnap.PeerProxy.{KeyHeaders}
use llmsnap.Prelude.{
  List, Text, Bool, Option, codes, false, if◌then◌else◌, true, ◌++◌, ◌∷◌, [], not, some, text_eq, ℕ,
  has_prefix, none, contains_text, ◌&&◌, ends_in_slash,
}

pub data Method : Type 0 where
  get_method post_method options_method any_method : Method
  other_method : Text → Method

-- The functions that a route ends in.
pub data Handler : Type 0 where
  inference get_model post_form models logs logs_stream upstream unload_all running : Handler
  unload_model sleep_one events metrics version capture : Handler
  redirects_to : Text → Handler
  says_ok favicon ui_file : Handler

-- A route; `protected` is whether `apiKeyAuth` stands before the handler.
pub record Entry : Type 0 where
  pub method : Method
  pub path : Text
  pub protected : Bool
  pub handler : Handler

unfoldable pub protected_entry : Method → Handler → Text → Entry
protected_entry method handler path = record {
  method = method;
  path = path;
  protected = true;
  handler = handler;
}

unfoldable pub public_entry : Method → Handler → Text → Entry
public_entry method handler path = record {
  method = method;
  path = path;
  protected = false;
  handler = handler;
}

unfoldable pub protected_entries : Method → Handler → List Text → List Entry
protected_entries method handler [] = []
protected_entries method handler (path ∷ paths) =
    protected_entry method handler path ∷ protected_entries method handler paths

unfoldable pub inference_routes : List Entry
inference_routes = protected_entries post_method inference (
    codes "/v1/chat/completions"
    ∷ codes "/v1/responses"
    ∷ codes "/v1/completions"
    ∷ codes "/v1/messages"
    ∷ codes "/v1/messages/count_tokens"
    ∷ codes "/v1/embeddings"
    ∷ codes "/reranking"
    ∷ codes "/rerank"
    ∷ codes "/v1/rerank"
    ∷ codes "/v1/reranking"
    ∷ codes "/infill"
    ∷ codes "/completion"
    ∷ codes "/v1/audio/speech"
    ∷ codes "/v1/audio/voices"
    ∷ codes "/v1/images/generations"
    ∷ [])

unfoldable pub other_routes : List Entry
other_routes =
    protected_entry get_method get_model (codes "/v1/audio/voices")
    ∷ protected_entry post_method post_form (codes "/v1/audio/transcriptions")
    ∷ protected_entry post_method post_form (codes "/v1/images/edits")
    ∷ protected_entry get_method models (codes "/v1/models")
    ∷ protected_entry get_method logs (codes "/logs")
    ∷ protected_entry get_method logs_stream (codes "/logs/stream")
    ∷ protected_entry get_method logs_stream (codes "/logs/stream/*logMonitorID")
    ∷ public_entry get_method (redirects_to (codes "/ui")) (codes "/")
    ∷ public_entry get_method (redirects_to (codes "/ui/models")) (codes "/upstream")
    ∷ protected_entry any_method upstream (codes "/upstream/*upstreamPath")
    ∷ protected_entry get_method unload_all (codes "/unload")
    ∷ protected_entry get_method running (codes "/running")
    ∷ public_entry get_method says_ok (codes "/health")
    ∷ public_entry get_method says_ok (codes "/wol-health")
    ∷ public_entry get_method favicon (codes "/favicon.ico")
    ∷ public_entry get_method ui_file (codes "/ui/*filepath")
    ∷ []

unfoldable pub api_routes : List Entry
api_routes =
    protected_entry post_method unload_all (codes "/api/models/unload")
    ∷ protected_entry post_method unload_model (codes "/api/models/unload/*model")
    ∷ protected_entry post_method sleep_one (codes "/api/models/sleep/*model")
    ∷ protected_entry get_method events (codes "/api/events")
    ∷ protected_entry get_method metrics (codes "/api/metrics")
    ∷ protected_entry get_method version (codes "/api/version")
    ∷ protected_entry get_method capture (codes "/api/captures/:id")
    ∷ []

unfoldable pub route_table : List Entry
route_table = inference_routes ++ other_routes ++ api_routes

-- What a request reaches: the answer to OPTIONS with its headers, a handler with the key headers that it
-- sees, an error with its status, or the page for a path that no route has.
pub data Reached : Type 0 where
  preflight : List (Text × Text) → Reached
  handled : Handler → KeyHeaders → Reached
  refused : ℕ → Reached
  index_page : Reached

-- The answer to OPTIONS; `requested` is the header Access-Control-Request-Headers.
unfoldable pub allowed_headers : Text → Text
allowed_headers requested =
    if text_eq requested []
    then codes "Content-Type, Authorization, Accept, X-Requested-With"
    else sanitize_access_control_request_header_values requested

unfoldable pub options_headers : Text → List (Text × Text)
options_headers requested =
    (codes "Access-Control-Allow-Origin", codes "*")
    ∷ (codes "Access-Control-Allow-Methods", codes "GET, POST, PUT, PATCH, DELETE, OPTIONS")
    ∷ (codes "Access-Control-Allow-Headers", allowed_headers requested)
    ∷ (codes "Access-Control-Max-Age", codes "86400")
    ∷ []

-- `NoRoute`.
unfoldable pub no_route : Text → Reached
no_route path =
    if not (has_prefix path (codes "/ui"))
    then refused 404
    else if contains_text path (codes ".") && not (ends_in_slash path)
    then refused 404
    else index_page

module _ (decode : Text → Option Text) (keys : List Text) where
  unfoldable pub authorized : Handler → Option KeyHeaders → Reached
  authorized handler none = refused 401
  authorized handler (some headers) = handled handler headers

  unfoldable pub enter : Entry → KeyHeaders → Reached
  enter e headers =
      if e.protected
      then authorized e.handler (api_key_auth decode keys headers)
      else handled e.handler headers

  unfoldable pub enter_found : Option Entry → Text → KeyHeaders → Reached
  enter_found none path headers = no_route path
  enter_found (some e) path headers = enter e headers

  unfoldable pub is_options : Method → Bool
  is_options options_method = true
  is_options _ = false

  -- A request through the middleware to what it reaches.
  unfoldable pub reach :
      (List Entry → Method → Text → Option Entry) → Method → Text → Text → KeyHeaders → Reached
  reach find_route method path requested headers =
      if is_options method
      then preflight (options_headers requested)
      else enter_found (find_route route_table method path) path headers
