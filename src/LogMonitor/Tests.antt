-- ===== src/LogMonitor/Tests.antt =====
-- proxy/logMonitor.go: a log monitor on concrete inputs.
use llmsnap.Prelude.{List, ◌≡◌, [], ℕ, Bool, ◌∷◌, length, ◌==◌, codes}
use llmsnap.LogMonitor.{log_history, new_log_monitor, level_debug, level_warn}
use llmsnap.LogMonitor.Remembers.{
  LogCall, run_log, remembered, log_history_lem, writes, clears, logs,
}

-- A sink that fails on messages of one byte.
abbrev sink : List ℕ → ℕ × Bool
sink p = (length p, length p == 1)

abbrev log_calls : List LogCall
log_calls =
    writes (1 ∷ [])
    ∷ writes (7 ∷ 8 ∷ [])
    ∷ clears
    ∷ logs level_debug (codes "no")
    ∷ logs level_warn (codes "up")
    ∷ []

log_history_lem_example :
    log_history (run_log sink (λ f. f) log_calls new_log_monitor)
    ≡ remembered sink (λ f. f) new_log_monitor log_calls []
log_history_lem_example = log_history_lem sink (λ f. f) log_calls
