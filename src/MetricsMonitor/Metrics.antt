-- ===== src/MetricsMonitor/Metrics.antt =====
-- proxy/metrics_monitor.go: the metrics kept, and their ids.
use mathlib.Core.List.{append-nil, append_assoc}
use llmsnap.Prelude.{
  List, ℕ, ◌≡◌, last, length, ◌+◌, ◌∷◌, [], refl, ◌++◌, ◌≤◌, Bool-cases, sym, ap, ltb, inl, inr,
  ◌-◌, arith, last_all, length-drop, ◌∙◌, last-last,
}
use llmsnap.MetricsMonitor.{TokenMetrics, MetricsMonitor, new_metrics_monitor, add_metrics}

abbrev pub add_all : List TokenMetrics → MetricsMonitor → MetricsMonitor
add_all [] mp = mp
add_all (m ∷ ms) mp = add_all ms (add_metrics m mp).1

-- The metrics with the ids from `n` on.
abbrev pub numbered : ℕ → List TokenMetrics → List TokenMetrics
numbered n [] = []
numbered n (m ∷ ms) = record m { id = n } ∷ numbered (n + 1) ms

-- The monitor's metrics and counter after one more metric, with no test.
pub kept :
    (mp : MetricsMonitor) (m : TokenMetrics)
    → (add_metrics m mp).1.metrics
      ≡ last mp.max_metrics (mp.metrics ++ (record m { id = mp.next_id } ∷ []))
unfolding add_metrics
kept mp m =
    elim (Bool-cases
      (ltb mp.max_metrics (length (mp.metrics ++ (record m { id = mp.next_id } ∷ []))))) [
        | inl over ↦ rw over refl
        | inr fits ↦ rw fits (
            sym (
              last_all mp.max_metrics (mp.metrics ++ (record m { id = mp.next_id } ∷ []))
                (ground (arith, fits))))
      ]

next :
    (mp : MetricsMonitor) (m : TokenMetrics)
    → ((add_metrics m mp).1.next_id ≡ mp.next_id + 1)
      × ((add_metrics m mp).1.max_metrics ≡ mp.max_metrics)
unfolding add_metrics
next mp m = (refl, refl)

kept_all :
    (ms : List TokenMetrics) (mp : MetricsMonitor)
    → length mp.metrics ≤ mp.max_metrics
    → (add_all ms mp).metrics ≡ last mp.max_metrics (mp.metrics ++ numbered mp.next_id ms)
kept_all [] mp le = rw (append-nil mp.metrics) (sym (last_all mp.max_metrics mp.metrics le))
kept_all (m ∷ ms) mp le =
    kept_all ms (add_metrics m mp).1 (rw (kept mp m) (within mp.max_metrics _ (next mp m).1))
    ∙ (rw (kept mp m) (
        rw ((next mp m).1) (
          rw ((next mp m).0) (
            last-last mp.max_metrics (mp.metrics ++ (record m { id = mp.next_id } ∷ []))
              (numbered (mp.next_id + 1) ms)
            ∙ ap (λ xs. last mp.max_metrics xs)
                (append_assoc mp.metrics (record m { id = mp.next_id } ∷ [])
                  (numbered (mp.next_id + 1) ms))))))
  where
    within : (n : ℕ) (xs : List TokenMetrics) {k : ℕ} → k ≡ n → length (last n xs) ≤ k
    within n xs e = omega (arith, length-drop (length xs - n) xs)

-- After any run of `addMetrics` on a new monitor the metrics are the last `max_metrics` of all that
-- were added, in order, and each has its place in that order as its id.
pub metrics_of_adds :
    (max_metrics capture_buffer_mb : ℕ) (ms : List TokenMetrics)
    → (add_all ms (new_metrics_monitor max_metrics capture_buffer_mb)).metrics
      ≡ last max_metrics (numbered 0 ms)
unfolding new_metrics_monitor
metrics_of_adds max_metrics capture_buffer_mb ms =
    kept_all ms (new_metrics_monitor max_metrics capture_buffer_mb) (omega arith)
