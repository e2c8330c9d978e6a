-- ===== src/MetricsMonitor/Stored.antt =====
-- proxy/metrics_monitor.go: a metric that says it has a capture has one.
use mathlib.Core.Path.{subst, sym}
use llmsnap.Prelude.{
  List, ℕ, ◌≡◌, none, ◌∷◌, true, false, some, ◌≢◌, ◌⊎◌, [], arith, inr, leb, refl, ◌≤◌, inl,
  Option-cases, Bool, if◌then◌else◌, leb→le, not, ◌||◌, last, ◌∙◌, ◌++◌, ◌+◌, Text,
}
use llmsnap.MetricsMonitor.{
  MetricsMonitor, TokenMetrics, size, add_capture, add_metrics, get_capture_by_id,
}
use llmsnap.MetricsMonitor.Captures.{IsValid, add_capture_lem}
use llmsnap.MetricsMonitor.Metrics.{kept}
use llmsnap.MetricsMonitor.Wrap.{
  Exchange, capture_of, record_response, metrics_of, wrap_handler, record_body, minimal,
  parse_metrics,
}

-- What a response with status 200 leaves: one metric more at the end of the metrics, of which the last
-- `max_metrics` are kept, with the next id, which is counted up. It has the counts that were parsed, and
-- it is emitted. It says that it has a capture and the capture is found under its id, or it says that it
-- has none and there is none.
pub record Recorded (to_lower : Text → Text) (x : Exchange) (body : List ℕ)
    (mp after : MetricsMonitor) : Type 0 where
  pub metric : TokenMetrics
  pub listed : after.metrics ≡ last mp.max_metrics (mp.metrics ++ (metric ∷ []))
  pub next : after.next_id ≡ mp.next_id + 1
  pub counts :
      metric ≡ record (metrics_of x x.parsed) { id = metric.id; has_capture = metric.has_capture }
  pub emits : after.emitted ≡ metric ∷ mp.emitted
  pub numbered : metric.id ≡ mp.next_id
  pub captured :
      ((metric.has_capture ≡ true)
        × (get_capture_by_id metric.id after ≡ some (capture_of to_lower x body metric.id)))
      ⊎ ((metric.has_capture ≡ false) × (get_capture_by_id metric.id after ≡ none))
  pub valid : IsValid after

-- The monitor with one metric more.
abbrev counted_up : TokenMetrics → MetricsMonitor → MetricsMonitor
counted_up tm mp = (add_metrics tm mp).1

counted_up-IsValid :
    (tm : TokenMetrics) (mp : MetricsMonitor) → IsValid mp → IsValid (counted_up tm mp)
unfolding add_metrics
counted_up-IsValid tm mp valid = record {
  ordered = valid.ordered;
  counted = valid.counted;
  bounded = valid.bounded;
}

uncaptured : (x : Exchange) → (metrics_of x x.parsed).has_capture ≡ false
unfolding metrics_of minimal parse_metrics
uncaptured x = elim (Option-cases x.parsed) [ inl e ↦ rw e refl | inr (p, e) ↦ rw e refl ]

module _ (to_lower : Text → Text) (x : Exchange) (body : List ℕ) (mp : MetricsMonitor)
    (valid : IsValid mp) (fresh : get_capture_by_id mp.next_id mp ≡ none) where
  -- The metric without a capture.
  bare_lem :
      (metrics_of x x.parsed).has_capture ≡ false
      → Recorded to_lower x body mp (counted_up (metrics_of x x.parsed) mp)
  unfolding add_metrics get_capture_by_id
  bare_lem bare = record {
    metric = record (metrics_of x x.parsed) { id = mp.next_id };
    listed = kept mp (metrics_of x x.parsed);
    next = refl;
    counts = refl;
    emits = refl;
    numbered = refl;
    captured = inr (bare, fresh);
    valid = record { ordered = valid.ordered; counted = valid.counted; bounded = valid.bounded };
  }

  with_capture : TokenMetrics
  with_capture = record (metrics_of x x.parsed) { has_capture = true }

  -- The metric with its capture.
  captured_lem :
      mp.enable_captures ≡ true
      → size (capture_of to_lower x body mp.next_id) ≤ mp.max_capture_size
      → Recorded to_lower x body mp
          (add_capture (capture_of to_lower x body mp.next_id) (counted_up with_capture mp))
  unfolding add_metrics get_capture_by_id capture_of with_capture
  captured_lem on le =
      let done =
        add_capture_lem (capture_of to_lower x body mp.next_id) (counted_up with_capture mp)
          (counted_up-IsValid with_capture mp valid) on le fresh in
      record {
        metric = record with_capture { id = mp.next_id };
        listed = done.uncounted.0 ∙ kept mp with_capture;
        next = done.uncounted.1;
        counts = refl;
        emits = done.unemitted;
        numbered = refl;
        captured = inl (refl, done.found);
        valid = done.valid;
      }

  same_size : (id : ℕ) → size (capture_of to_lower x body id) ≡ size (capture_of to_lower x body 0)
  unfolding size capture_of
  same_size id = refl

  too_large_lem :
      (tm : TokenMetrics)
      → leb (size (capture_of to_lower x body 0)) mp.max_capture_size ≡ false
      → add_capture (capture_of to_lower x body mp.next_id) (counted_up tm mp) ≡ counted_up tm mp
  unfolding add_capture add_metrics
  too_large_lem tm large = ground (arith, large, same_size mp.next_id)

  marked : Bool → TokenMetrics
  marked b = record (metrics_of x x.parsed) {
    has_capture = b || (metrics_of x x.parsed).has_capture;
  }

  kept_apart : Bool → MetricsMonitor
  kept_apart b = add_capture (capture_of to_lower x body mp.next_id) (counted_up (marked b) mp)

  by_captures : record_response to_lower x body mp ≡ (
      if not mp.enable_captures
      then counted_up (metrics_of x x.parsed) mp
      else kept_apart (leb (size (capture_of to_lower x body 0)) mp.max_capture_size))
  unfolding record_response kept_apart marked add_metrics
  by_captures = refl

  kept_apart_lem :
      (b : Bool)
      → mp.enable_captures ≡ true
      → leb (size (capture_of to_lower x body 0)) mp.max_capture_size ≡ b
      → Recorded to_lower x body mp (kept_apart b)
  unfolding kept_apart marked with_capture
  kept_apart_lem true on fits = captured_lem on (
      leb→le (size (capture_of to_lower x body mp.next_id)) mp.max_capture_size
        (rw (same_size mp.next_id) fits))
  kept_apart_lem false on large =
      subst (Recorded to_lower x body mp) (sym (too_large_lem (metrics_of x x.parsed) large))
        (bare_lem (uncaptured x))

  enabled_or_not :
      (enabled : Bool)
      → mp.enable_captures ≡ enabled
      → Recorded to_lower x body mp (
          if not enabled
          then counted_up (metrics_of x x.parsed) mp
          else kept_apart (leb (size (capture_of to_lower x body 0)) mp.max_capture_size))
  enabled_or_not true on =
      kept_apart_lem (leb (size (capture_of to_lower x body 0)) mp.max_capture_size) on refl
  enabled_or_not false off = bare_lem (uncaptured x)

  record_response_lem : Recorded to_lower x body mp (record_response to_lower x body mp)
  record_response_lem =
      subst (Recorded to_lower x body mp) (sym by_captures) (enabled_or_not mp.enable_captures refl)

to_recorded :
    (to_lower : Text → Text) (x : Exchange) (body : List ℕ) (mp : MetricsMonitor)
    → x.readable ≡ true
    → x.handler_fails ≡ false
    → x.status_code ≡ 200
    → x.body ≢ []
    → x.decompressed ≡ some body
    → wrap_handler to_lower x mp ≡ (none, record_response to_lower x body mp)
unfolding wrap_handler record_body
to_recorded to_lower x body mp read ok status some_body plain =
    ground (arith, read, ok, status, some_body, plain)

-- A readable request whose response has status 200 and a body that is decompressed, in a valid monitor
-- without a capture under the next id: there is no error, and one metric more at the end of the metrics,
-- of which the last `max_metrics` are kept. It has the next id, which is counted up, and the counts that
-- were parsed, and it is emitted. It says that it has a capture, which is found under its id, or that it
-- has none, and there is none. The monitor stays valid.
pub wrap_handler_lem :
    (to_lower : Text → Text) (x : Exchange) (body : List ℕ) (mp : MetricsMonitor)
    → IsValid mp
    → get_capture_by_id mp.next_id mp ≡ none
    → x.readable ≡ true
    → x.handler_fails ≡ false
    → x.status_code ≡ 200
    → x.body ≢ []
    → x.decompressed ≡ some body
    → ((wrap_handler to_lower x mp).0 ≡ none)
      × Recorded to_lower x body mp (wrap_handler to_lower x mp).1
wrap_handler_lem to_lower x body mp valid fresh read ok status some_body plain =
    rw (to_recorded to_lower x body mp read ok status some_body plain)
      (refl, record_response_lem to_lower x body mp valid fresh)
