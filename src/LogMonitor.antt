-- ===== src/LogMonitor.antt =====
-- proxy/logMonitor.go: a log monitor over its lazily made buffer.
pub mod Remembers
mod Tests
use llmsnap.Prelude.{
  List, Option, Text, none, ℕ, Bool, [], codes, if◌then◌else◌, some, ◌*◌, length, ltb, text_eq,
  ◌++◌, ◌==◌, false, ◌∷◌, true,
}
use llmsnap.CircularBuffer.{CircularBuffer, new_circular_buffer, write, get_history}

pub data LogLevel : Type 0 where
  level_debug level_info level_warn level_error : LogLevel

abbrev pub rank : LogLevel → ℕ
rank level_debug = 0
rank level_info = 1
rank level_warn = 2
rank level_error = 3

-- `String`.
unfoldable pub level_string : LogLevel → Text
level_string level_debug = codes "DEBUG"
level_string level_info = codes "INFO"
level_string level_warn = codes "WARN"
level_string level_error = codes "ERROR"

-- `LogBufferSize`; it is not to be computed in a proof.
unfoldable pub log_buffer_size : ℕ
log_buffer_size = 100 * 1024

-- `published` are the messages broadcast, newest first.
pub record LogMonitor : Type 0 where
  pub buffer : Option CircularBuffer
  pub level : LogLevel
  pub prefix : Text
  pub time_format : Text
  pub published : List (List ℕ)

abbrev pub new_log_monitor : LogMonitor
new_log_monitor = record {
  buffer = none;
  level = level_info;
  prefix = [];
  time_format = [];
  published = [];
}

unfoldable pub allocated : Option CircularBuffer → CircularBuffer
allocated none = new_circular_buffer log_buffer_size
allocated (some b) = b

-- `Write`, for a sink that says how many bytes it took and whether it failed.
unfoldable pub write_log : (List ℕ → ℕ × Bool) → List ℕ → LogMonitor → (ℕ × Bool) × LogMonitor
write_log sink p w =
    if length p == 0 then ((0, false), w) else if (sink p).1 then (((sink p).0, true), w) else (
      ((sink p).0, false),
      record w { buffer = some (write (allocated w.buffer) p); published = p ∷ w.published },
    )

unfoldable pub history_of : Option CircularBuffer → List ℕ
history_of none = []
history_of (some b) = get_history b

-- `GetHistory`.
unfoldable pub log_history : LogMonitor → List ℕ
log_history w = history_of w.buffer

-- `Clear`.
unfoldable pub clear : LogMonitor → LogMonitor
clear w = record w { buffer = none }

-- `formatMessage`, with the present time as it is printed in a format.
unfoldable pub format_message : (Text → Text) → LogMonitor → LogLevel → Text → List ℕ
format_message now w level msg =
    (if text_eq w.time_format [] then [] else now w.time_format ++ codes " ")
    ++ (if text_eq w.prefix [] then [] else codes "[" ++ w.prefix ++ codes "] ")
    ++ codes "["
    ++ level_string level
    ++ codes "] "
    ++ msg
    ++ (10 ∷ [])

unfoldable pub log : (List ℕ → ℕ × Bool) → (Text → Text) → LogLevel → Text → LogMonitor → LogMonitor
log sink now level msg w =
    if ltb (rank level) (rank w.level)
    then w
    else (write_log sink (format_message now w level msg) w).1

unfoldable pub set_prefix : Text → LogMonitor → LogMonitor
set_prefix prefix w = record w { prefix = prefix }

unfoldable pub set_log_level : LogLevel → LogMonitor → LogMonitor
set_log_level level w = record w { level = level }

unfoldable pub set_log_time_format : Text → LogMonitor → LogMonitor
set_log_time_format time_format w = record w { time_format = time_format }

-- `Debug`, `Info`, `Warn` and `Error`.
module _ (sink : List ℕ → ℕ × Bool) (now : Text → Text) where
  unfoldable pub debug : Text → LogMonitor → LogMonitor
  debug msg = log sink now level_debug msg

  unfoldable pub info : Text → LogMonitor → LogMonitor
  info msg = log sink now level_info msg

  unfoldable pub warn : Text → LogMonitor → LogMonitor
  warn msg = log sink now level_warn msg

  unfoldable pub error : Text → LogMonitor → LogMonitor
  error msg = log sink now level_error msg

  -- The calls with a format, which `fmt.Sprintf` fills.
  module _ {A : Type 0} (sprintf : Text → A → Text) where
    unfoldable pub debugf : Text → A → LogMonitor → LogMonitor
    debugf format args = log sink now level_debug (sprintf format args)

    unfoldable pub infof : Text → A → LogMonitor → LogMonitor
    infof format args = log sink now level_info (sprintf format args)

    unfoldable pub warnf : Text → A → LogMonitor → LogMonitor
    warnf format args = log sink now level_warn (sprintf format args)

    unfoldable pub errorf : Text → A → LogMonitor → LogMonitor
    errorf format args = log sink now level_error (sprintf format args)
