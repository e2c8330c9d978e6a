-- ===== src/MetricsMonitor/Tests.antt =====
-- proxy/metrics_monitor.go: the monitor on concrete inputs.
use llmsnap.MetricsMonitor.Headers.{redact_headers, without_header}
use llmsnap.MetricsMonitor.Secrets.{ascii_lower, HidesSecrets, wrap_all-HidesSecrets}
use llmsnap.Prelude.{
  Text, [], arith, codes, ℕ, ◌∷◌, ◌≡◌, List, none, pos, refl, true, false, some, byte_length,
  contains, text_eq,
}
use llmsnap.MetricsMonitor.{
  ReqRespCapture, MetricsMonitor, TokenMetrics, size, add_capture, get_capture_by_id, lookup,
  headers_size, new_metrics_monitor, add_metrics, insert, evict,
}
use llmsnap.MetricsMonitor.Captures.{IsValid, Stored, add_capture_lem}
use llmsnap.MetricsMonitor.Wrap.{Exchange, wrap_handler, capture_of, record_body, record_response}
use llmsnap.MetricsMonitor.Stored.{Recorded, wrap_handler_lem}
use llmsnap.MetricsMonitor.Metrics.{metrics_of_adds, add_all}

abbrev metric : Text → TokenMetrics
metric model = record {
  id = 0;
  timestamp = 5;
  model = model;
  cached_tokens = pos 0;
  input_tokens = pos 3;
  output_tokens = pos 4;
  duration_ms = 7;
  has_capture = false;
}

abbrev capture : ℕ → List ℕ → ReqRespCapture
capture id body = record {
  id = id;
  req_path = codes "/v1";
  req_headers = [];
  req_body = [];
  resp_headers = [];
  resp_body = body;
}

-- Two captures of five and six bytes, of twelve.
abbrev monitor : MetricsMonitor
monitor = record {
  metrics = [];
  max_metrics = 2;
  next_id = 4;
  enable_captures = true;
  captures = (1, capture 1 (8 ∷ 9 ∷ [])) ∷ (3, capture 3 (7 ∷ 7 ∷ 7 ∷ [])) ∷ [];
  capture_order = 1 ∷ 3 ∷ [];
  capture_size = 11;
  max_capture_size = 12;
  emitted = [];
}

monitor-IsValid : IsValid monitor
unfolding size headers_size byte_length
monitor-IsValid = record { ordered = refl; counted = refl; bounded = omega arith }

metrics_of_adds_example :
    (add_all
      (metric (codes "a") ∷ metric (codes "b") ∷ metric (codes "c") ∷ [])
      (new_metrics_monitor 2 1)).metrics
    ≡ record (metric (codes "b")) { id = 1 } ∷ record (metric (codes "c")) { id = 2 } ∷ []
metrics_of_adds_example =
    metrics_of_adds 2 1 (metric (codes "a") ∷ metric (codes "b") ∷ metric (codes "c") ∷ [])

add_capture_lem_example :
    Stored (capture 4 (1 ∷ 2 ∷ [])) monitor (add_capture (capture 4 (1 ∷ 2 ∷ [])) monitor)
unfolding size headers_size byte_length get_capture_by_id lookup
add_capture_lem_example =
    add_capture_lem (capture 4 (1 ∷ 2 ∷ [])) monitor monitor-IsValid refl (omega arith) refl

abbrev exchange : Exchange
exchange = record {
  model = codes "a";
  readable = true;
  handler_fails = false;
  status_code = 200;
  body = 1 ∷ 2 ∷ [];
  decompressed = some (1 ∷ 2 ∷ []);
  parsed = none;
  now = 9;
  since_start = 3;
  path = codes "/v1";
  request_headers = (codes "Cookie", codes "id=7") ∷ (codes "Accept", codes "gzip") ∷ [];
  request_body = [];
  response_headers = [];
}

wrap_handler_lem_example :
    ((wrap_handler ascii_lower exchange monitor).0 ≡ none)
    × Recorded ascii_lower exchange
        (1 ∷ 2 ∷ [])
        monitor
        (wrap_handler ascii_lower exchange monitor).1
unfolding get_capture_by_id lookup
wrap_handler_lem_example =
    wrap_handler_lem ascii_lower exchange (1 ∷ 2 ∷ []) monitor monitor-IsValid refl refl refl refl
      (ground arith) refl

wrap_all-HidesSecrets_example : HidesSecrets (capture_of ascii_lower exchange (1 ∷ 2 ∷ []) 0)
unfolding get_capture_by_id lookup wrap_handler new_metrics_monitor record_body record_response
    add_capture add_metrics size byte_length capture_of headers_size redact_headers contains text_eq
    without_header insert evict
wrap_all-HidesSecrets_example =
    wrap_all-HidesSecrets ascii_lower (λ t h. refl) 10 1 (exchange ∷ []) 0
      (capture_of ascii_lower exchange (1 ∷ 2 ∷ []) 0) refl
