-- ===== src/MetricsMonitor/Wrap.antt =====
-- proxy/metrics_monitor.go: `wrapHandler` around one request.
use llmsnap.MetricsMonitor.Headers.{redact_headers, without_header}
use llmsnap.Prelude.{
  List, Option, Text, pos, ℕ, Bool, false, if◌then◌else◌, ℤ, not, ◌&&◌, leb, some, none, ◌==◌, ◌||◌,
  length, codes,
}
use llmsnap.MetricsMonitor.{
  ReqRespCapture, MetricsMonitor, TokenMetrics, size, add_capture, add_metrics,
}

-- The token counts that `parseMetrics` finds.
pub record Parsed : Type 0 where
  pub at : ℕ
  pub cached : ℤ
  pub input : ℤ
  pub output : ℤ
  pub duration : ℕ

-- One request and its response: whether the body of the request can be read, whether the handler
-- returns an error, what it writes, the body decompressed (`none` if that fails) and the counts in it
-- (`none` if it has none that can be parsed). The headers are each name with its first value.
pub record Exchange : Type 0 where
  pub model : Text
  pub readable : Bool
  pub handler_fails : Bool
  pub status_code : ℕ
  pub body : List ℕ
  pub decompressed : Option (List ℕ)
  pub parsed : Option Parsed
  pub now : ℕ
  pub since_start : ℕ
  pub path : Text
  pub request_headers : List (Text × Text)
  pub request_body : List ℕ
  pub response_headers : List (Text × Text)

pub data WrapError : Type 0 where
  unreadable_request handler_failed : WrapError

-- The metrics that are always recorded.
unfoldable pub minimal : Exchange → TokenMetrics
minimal x = record {
  id = 0;
  timestamp = x.now;
  model = x.model;
  cached_tokens = pos 0;
  input_tokens = pos 0;
  output_tokens = pos 0;
  duration_ms = x.since_start;
  has_capture = false;
}

unfoldable pub parse_metrics : Text → Parsed → TokenMetrics
parse_metrics model p = record {
  id = 0;
  timestamp = p.at;
  model = model;
  cached_tokens = p.cached;
  input_tokens = p.input;
  output_tokens = p.output;
  duration_ms = p.duration;
  has_capture = false;
}

unfoldable pub metrics_of : Exchange → Option Parsed → TokenMetrics
metrics_of x none = minimal x
metrics_of x (some p) = parse_metrics x.model p

-- The capture with its id. `strings.ToLower` is the argument `to_lower`.
unfoldable pub capture_of : (Text → Text) → Exchange → List ℕ → ℕ → ReqRespCapture
capture_of to_lower x body id = record {
  id = id;
  req_path = x.path;
  req_headers = redact_headers to_lower x.request_headers;
  req_body = x.request_body;
  resp_headers =
      without_header (codes "Content-Encoding") (redact_headers to_lower x.response_headers);
  resp_body = body;
}

-- From the capture on, for the body decompressed.
unfoldable pub record_response : (Text → Text) → Exchange → List ℕ → MetricsMonitor → MetricsMonitor
record_response to_lower x body mp =
    let tm = metrics_of x x.parsed in
    if not mp.enable_captures
    then (add_metrics tm mp).1
    else let fits = leb (size (capture_of to_lower x body 0)) mp.max_capture_size in
      let added = add_metrics (record tm { has_capture = fits || tm.has_capture }) mp in
      add_capture (capture_of to_lower x body added.0) added.1

unfoldable pub record_body :
    (Text → Text) → Exchange → Option (List ℕ) → MetricsMonitor → MetricsMonitor
record_body to_lower x none mp = (add_metrics (minimal x) mp).1
record_body to_lower x (some body) mp = record_response to_lower x body mp

unfoldable pub wrap_handler :
    (Text → Text) → Exchange → MetricsMonitor → Option WrapError × MetricsMonitor
wrap_handler to_lower x mp =
    if mp.enable_captures && not x.readable
    then (some unreadable_request, mp)
    else if x.handler_fails
    then (some handler_failed, mp)
    else if not (x.status_code == 200)
    then (none, mp)
    else if length x.body == 0
    then (none, (add_metrics (minimal x) mp).1)
    else (none, record_body to_lower x x.decompressed mp)
