-- ===== src/MetricsMonitor.antt =====
-- proxy/metrics_monitor.go: the monitor's metrics and captures. A Go map is an association list with
-- each key once. Times and durations are naturals, and the two rates, which are floats, are left out.
pub mod Metrics
pub mod Captures
pub mod Wrap
pub mod Secrets
pub mod Stored
pub mod Headers
pub mod Stream
mod Tests
use llmsnap.Prelude.{
  List, if◌then◌else◌, ℕ, Bool, Option, Text, [], length, not, ◌++◌, ◌∷◌, ltb, none, some, ◌+◌,
  ◌==◌, drop, ◌*◌, ◌-◌, ℤ, byte_length,
}

pub record TokenMetrics : Type 0 where
  pub id : ℕ
  pub timestamp : ℕ
  pub model : Text
  pub cached_tokens : ℤ
  pub input_tokens : ℤ
  pub output_tokens : ℤ
  pub duration_ms : ℕ
  pub has_capture : Bool

pub record ReqRespCapture : Type 0 where
  pub id : ℕ
  pub req_path : Text
  pub req_headers : List (Text × Text)
  pub req_body : List ℕ
  pub resp_headers : List (Text × Text)
  pub resp_body : List ℕ

unfoldable pub headers_size : List (Text × Text) → ℕ
headers_size [] = 0
headers_size ((k, v) ∷ hs) = byte_length k + byte_length v + headers_size hs

-- `Size`, in bytes: the bodies are bytes already.
unfoldable pub size : ReqRespCapture → ℕ
size c =
    byte_length c.req_path
    + length c.req_body
    + length c.resp_body
    + headers_size c.req_headers
    + headers_size c.resp_headers

-- `emitted` are the events, newest first.
pub record MetricsMonitor : Type 0 where
  pub metrics : List TokenMetrics
  pub max_metrics : ℕ
  pub next_id : ℕ
  pub enable_captures : Bool
  pub captures : List (ℕ × ReqRespCapture)
  pub capture_order : List ℕ
  pub capture_size : ℕ
  pub max_capture_size : ℕ
  pub emitted : List TokenMetrics

unfoldable pub new_metrics_monitor : ℕ → ℕ → MetricsMonitor
new_metrics_monitor max_metrics capture_buffer_mb = record {
  metrics = [];
  max_metrics = max_metrics;
  next_id = 0;
  enable_captures = ltb 0 capture_buffer_mb;
  captures = [];
  capture_order = [];
  capture_size = 0;
  max_capture_size = capture_buffer_mb * 1024 * 1024;
  emitted = [];
}

-- `addMetrics`: the metric's id, and the monitor.
unfoldable pub add_metrics : TokenMetrics → MetricsMonitor → ℕ × MetricsMonitor
add_metrics metric mp =
    let added = record metric { id = mp.next_id } in
    let all = mp.metrics ++ (added ∷ []) in
    (
      mp.next_id,
      record mp {
        next_id = mp.next_id + 1;
        metrics =
            if ltb mp.max_metrics (length all) then drop (length all - mp.max_metrics) all else all;
        emitted = added ∷ mp.emitted;
      },
    )

unfoldable pub lookup : ℕ → List (ℕ × ReqRespCapture) → Option ReqRespCapture
lookup id [] = none
lookup id ((k, c) ∷ cs) = if k == id then some c else lookup id cs

-- `captures[id] = c`.
unfoldable pub insert : ℕ → ReqRespCapture → List (ℕ × ReqRespCapture) → List (ℕ × ReqRespCapture)
insert id c [] = (id, c) ∷ []
insert id c ((k, d) ∷ cs) = if k == id then (k, c) ∷ cs else (k, d) ∷ insert id c cs

-- `delete(captures, id)`.
unfoldable pub delete : ℕ → List (ℕ × ReqRespCapture) → List (ℕ × ReqRespCapture)
delete id [] = []
delete id ((k, c) ∷ cs) = if k == id then cs else (k, c) ∷ delete id cs

-- One turn of the eviction loop, for the id at the front of the order.
unfoldable pub forget : ℕ → Option ReqRespCapture → MetricsMonitor → MetricsMonitor
forget id none mp = mp
forget id (some c) mp = record mp {
  capture_size = mp.capture_size - size c;
  captures = delete id mp.captures;
}

-- The eviction loop over the ids in order, to make room for `n` bytes.
unfoldable pub evict : ℕ → List ℕ → MetricsMonitor → MetricsMonitor
evict n [] mp = record mp { capture_order = [] }
evict n (id ∷ order) mp =
    let rest = evict n order (forget id (lookup id mp.captures) mp) in
    if ltb mp.max_capture_size (mp.capture_size + n)
    then rest
    else record mp { capture_order = id ∷ order }

unfoldable pub add_capture : ReqRespCapture → MetricsMonitor → MetricsMonitor
add_capture capture mp =
    if not mp.enable_captures
    then mp
    else if ltb mp.max_capture_size (size capture)
    then mp
    else let room = evict (size capture) mp.capture_order mp in
      record room {
        captures = insert capture.id capture room.captures;
        capture_order = room.capture_order ++ (capture.id ∷ []);
        capture_size = room.capture_size + size capture;
      }

unfoldable pub get_capture_by_id : ℕ → MetricsMonitor → Option ReqRespCapture
get_capture_by_id id mp = lookup id mp.captures
