-- ===== src/LogMonitor/Remembers.antt =====
-- proxy/logMonitor.go: what a log monitor remembers.
use llmsnap.Prelude.{
  List, Option, length, ℕ, Bool, Text, ◌≡◌, [], if◌then◌else◌, length-replicate, ◌≤◌, last, ltb,
  ◌++◌, arith, refl, sym, true, ◌∙◌, ap, false, suc, length-drop, ◌==◌, Bool-cases, ◌-◌, inl, inr,
}
use mathlib.Core.Path.{subst}
use mathlib.Core.List.{append-nil}
use llmsnap.Prelude.{some, none, ◌∷◌, [], last_all, last}
use llmsnap.LogMonitor.{
  LogMonitor, LogLevel, log, clear, write_log, log_history, new_log_monitor, format_message,
  history_of, allocated, log_buffer_size, rank, set_log_level, set_log_time_format, set_prefix,
}
use llmsnap.CircularBuffer.{CircularBuffer, new_circular_buffer, write, get_history}
use llmsnap.CircularBuffer.History.{IsValid}
use llmsnap.CircularBuffer.Writes.{write_lem, new-IsValid}

pub data LogCall : Type 0 where
  writes : List ℕ → LogCall
  logs : LogLevel → Text → LogCall
  clears : LogCall
  sets_prefix sets_format : Text → LogCall
  sets_level : LogLevel → LogCall

abbrev pub run_log : (List ℕ → ℕ × Bool) → (Text → Text) → List LogCall → LogMonitor → LogMonitor
run_log sink now [] w = w
run_log sink now (writes p ∷ cs) w = run_log sink now cs (write_log sink p w).1
run_log sink now (logs level msg ∷ cs) w = run_log sink now cs (log sink now level msg w)
run_log sink now (clears ∷ cs) w = run_log sink now cs (clear w)
run_log sink now (sets_prefix t ∷ cs) w = run_log sink now cs (set_prefix t w)
run_log sink now (sets_format t ∷ cs) w = run_log sink now cs (set_log_time_format t w)
run_log sink now (sets_level l ∷ cs) w = run_log sink now cs (set_log_level l w)

-- The history after a message, as a list: what the sink takes is remembered, within the size.
abbrev pub remember : (List ℕ → ℕ × Bool) → List ℕ → List ℕ → List ℕ
remember sink p h = if (sink p).1 then h else last log_buffer_size (h ++ p)

-- The history after some calls on `w`, from the history `h`.
abbrev pub remembered :
    (List ℕ → ℕ × Bool) → (Text → Text) → LogMonitor → List LogCall → List ℕ → List ℕ
remembered sink now w [] h = h
remembered sink now w (writes p ∷ cs) h = remembered sink now w cs (remember sink p h)
remembered sink now w (logs level msg ∷ cs) h = remembered sink now w cs (
    if ltb (rank level) (rank w.level) then h else remember sink (format_message now w level msg) h)
remembered sink now w (clears ∷ cs) h = remembered sink now w cs []
remembered sink now w (sets_prefix t ∷ cs) h = remembered sink now (set_prefix t w) cs h
remembered sink now w (sets_format t ∷ cs) h = remembered sink now (set_log_time_format t w) cs h
remembered sink now w (sets_level l ∷ cs) h = remembered sink now (set_log_level l w) cs h

abbrev BufferIsValid : Option CircularBuffer → Type 0
BufferIsValid none = Unit {0}
BufferIsValid (some b) = IsValid b × (length b.bytes ≡ log_buffer_size)

-- A monitor that has the settings of `v` and the history `h`.
record Holds (v : LogMonitor) (h : List ℕ) (w : LogMonitor) : Type 0 where
  same_level : w.level ≡ v.level
  same_prefix : w.prefix ≡ v.prefix
  same_format : w.time_format ≡ v.time_format
  valid : BufferIsValid w.buffer
  history : log_history w ≡ h
  short : length h ≤ log_buffer_size

allocated_lem :
    (o : Option CircularBuffer)
    → BufferIsValid o
    → IsValid (allocated o)
      × (length (allocated o).bytes ≡ log_buffer_size)
      × (get_history (allocated o) ≡ history_of o)
unfolding allocated history_of new_circular_buffer get_history
allocated_lem none h =
    (new-IsValid log_buffer_size, length-replicate {A = ℕ} log_buffer_size 0, refl)
allocated_lem (some b) h = (h.0, h.1, refl)

stored-Holds :
    (p : List ℕ) (v w : LogMonitor) (h : List ℕ)
    → Holds v h w
    → Holds v
        (last log_buffer_size (h ++ p))
        (record w { buffer = some (write (allocated w.buffer) p); published = p ∷ w.published })
unfolding log_history history_of
stored-Holds p v w h holds =
    let ready = allocated_lem w.buffer holds.valid in
    let done = write_lem (allocated w.buffer) p ready.0 in
    record {
      same_level = holds.same_level;
      same_prefix = holds.same_prefix;
      same_format = holds.same_format;
      valid = (done.valid, done.capacity ∙ ready.1);
      history =
          done.history
          ∙ (ap (λ n. last n (get_history (allocated w.buffer) ++ p)) ready.1
              ∙ ap (λ l. last log_buffer_size (l ++ p)) (ready.2 ∙ holds.history));
      short = omega (arith, length-drop (length (h ++ p) - log_buffer_size) (h ++ p));
    }

-- Nothing new to remember.
nothing_new :
    (b : Bool) (h : List ℕ)
    → length h ≤ log_buffer_size
    → (if b then h else last log_buffer_size (h ++ [])) ≡ h
nothing_new true h le = refl
nothing_new false h le = rw (append-nil h) (last_all log_buffer_size h le)

write_log-Holds :
    (sink : List ℕ → ℕ × Bool) (p : List ℕ) (v w : LogMonitor) (h : List ℕ)
    → Holds v h w
    → Holds v (remember sink p h) (write_log sink p w).1
unfolding write_log
write_log-Holds sink [] v w h holds =
    subst (λ l. Holds v l w) (sym (nothing_new (sink []).1 h holds.short)) holds
write_log-Holds sink (b ∷ p) v w h holds = elim (Bool-cases (sink (b ∷ p)).1) [
  | inl fails ↦ rw (some_bytes (length p)) (rw fails holds)
  | inr takes ↦ rw (some_bytes (length p)) (rw takes (stored-Holds (b ∷ p) v w h holds))
]
  where
    some_bytes : (n : ℕ) → (suc n == 0) ≡ false
    some_bytes n = ground arith

same_message :
    (now : Text → Text) (level : LogLevel) (msg : Text) (v w : LogMonitor) (h : List ℕ)
    → Holds v h w
    → format_message now w level msg ≡ format_message now v level msg
unfolding format_message
same_message now level msg v w h holds = rw (holds.same_prefix) (rw (holds.same_format) refl)

log-Holds :
    (sink : List ℕ → ℕ × Bool) (now : Text → Text) (level : LogLevel) (msg : Text)
    (v w : LogMonitor) (h : List ℕ)
    → Holds v h w
    → Holds v
        (if ltb (rank level) (rank v.level)
          then h
          else remember sink (format_message now v level msg) h)
        (log sink now level msg w)
unfolding log
log-Holds sink now level msg v w h holds =
    subst
      (λ l.
        Holds v
          (if ltb (rank level) (rank l)
            then h
            else remember sink (format_message now v level msg) h)
          (log sink now level msg w))
      holds.same_level
      (subst
        (λ m.
          Holds v (if ltb (rank level) (rank w.level) then h else remember sink m h)
            (log sink now level msg w))
        (same_message now level msg v w h holds)
        (by_level (ltb (rank level) (rank w.level)) (format_message now w level msg)))
  where
    by_level :
        (b : Bool) (m : List ℕ)
        → Holds v (if b then h else remember sink m h) (if b then w else (write_log sink m w).1)
    by_level true m = holds
    by_level false m = write_log-Holds sink m v w h holds

clear-Holds : (v w : LogMonitor) (h : List ℕ) → Holds v h w → Holds v [] (clear w)
unfolding clear log_history history_of
clear-Holds v w h holds = record {
  same_level = holds.same_level;
  same_prefix = holds.same_prefix;
  same_format = holds.same_format;
  valid = tt;
  history = refl;
  short = omega arith;
}

set_prefix-Holds :
    (x : Text) (v w : LogMonitor) (h : List ℕ)
    → Holds v h w
    → Holds (set_prefix x v) h (set_prefix x w)
unfolding set_prefix log_history
set_prefix-Holds x v w h holds = record {
  same_level = holds.same_level;
  same_prefix = refl;
  same_format = holds.same_format;
  valid = holds.valid;
  history = holds.history;
  short = holds.short;
}

set_log_time_format-Holds :
    (x : Text) (v w : LogMonitor) (h : List ℕ)
    → Holds v h w
    → Holds (set_log_time_format x v) h (set_log_time_format x w)
unfolding set_log_time_format log_history
set_log_time_format-Holds x v w h holds = record {
  same_level = holds.same_level;
  same_prefix = holds.same_prefix;
  same_format = refl;
  valid = holds.valid;
  history = holds.history;
  short = holds.short;
}

set_log_level-Holds :
    (x : LogLevel) (v w : LogMonitor) (h : List ℕ)
    → Holds v h w
    → Holds (set_log_level x v) h (set_log_level x w)
unfolding set_log_level log_history
set_log_level-Holds x v w h holds = record {
  same_level = refl;
  same_prefix = holds.same_prefix;
  same_format = holds.same_format;
  valid = holds.valid;
  history = holds.history;
  short = holds.short;
}

run_log_lem :
    (sink : List ℕ → ℕ × Bool) (now : Text → Text) (cs : List LogCall) (v w : LogMonitor)
    (h : List ℕ)
    → Holds v h w
    → log_history (run_log sink now cs w) ≡ remembered sink now v cs h
run_log_lem sink now [] v w h holds = holds.history
run_log_lem sink now (writes p ∷ cs) v w h holds =
    run_log_lem sink now cs v _ _ (write_log-Holds sink p v w h holds)
run_log_lem sink now (logs level msg ∷ cs) v w h holds =
    run_log_lem sink now cs v _ _ (log-Holds sink now level msg v w h holds)
run_log_lem sink now (clears ∷ cs) v w h holds =
    run_log_lem sink now cs v _ _ (clear-Holds v w h holds)
run_log_lem sink now (sets_prefix t ∷ cs) v w h holds =
    run_log_lem sink now cs (set_prefix t v) _ _ (set_prefix-Holds t v w h holds)
run_log_lem sink now (sets_format t ∷ cs) v w h holds =
    run_log_lem sink now cs (set_log_time_format t v) _ _ (set_log_time_format-Holds t v w h holds)
run_log_lem sink now (sets_level l ∷ cs) v w h holds =
    run_log_lem sink now cs (set_log_level l v) _ _ (set_log_level-Holds l v w h holds)

-- After any writes, log calls, clears and settings on a new monitor, `GetHistory` returns what a list
-- would hold: each message that the sink takes and the level does not filter, put behind the rest and
-- cut to the last `log_buffer_size` bytes, and nothing from before a clear.
pub log_history_lem :
    (sink : List ℕ → ℕ × Bool) (now : Text → Text) (cs : List LogCall)
    → log_history (run_log sink now cs new_log_monitor) ≡ remembered sink now new_log_monitor cs []
unfolding log_history history_of
log_history_lem sink now cs = run_log_lem sink now cs new_log_monitor new_log_monitor [] (record {
  same_level = refl;
  same_prefix = refl;
  same_format = refl;
  valid = tt;
  history = refl;
  short = omega arith;
})
