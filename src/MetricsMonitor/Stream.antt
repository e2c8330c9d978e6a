-- ===== src/MetricsMonitor/Stream.antt =====
-- proxy/metrics_monitor.go: the counts in a response. What gjson reads of a body is the argument
-- `parse`; the speeds are left out.
use llmsnap.MetricsMonitor.Wrap.{Parsed}
use llmsnap.Prelude.{
  negsuc, pos, false, true, none, some, ◌∷◌, [], List, Option, Text, ℕ, ℤ, Bool, trim_space, drop,
  if◌then◌else◌, split, not, has_prefix, codes, text_eq, ◌||◌,
}

-- The fields of `usage`, each if it is there.
pub record Usage : Type 0 where
  pub prompt_tokens : Option ℤ
  pub input_tokens : Option ℤ
  pub completion_tokens : Option ℤ
  pub output_tokens : Option ℤ
  pub cache_read_input_tokens : Option ℤ

-- The fields of `timings`; `duration` is the sum of its two times.
pub record Timings : Type 0 where
  pub prompt_n : ℤ
  pub predicted_n : ℤ
  pub cache_n : Option ℤ
  pub duration : ℕ

-- The first of two fields that is there, or a default.
unfoldable pub one_of : Option ℤ → Option ℤ → ℤ → ℤ
one_of (some n) other default = n
one_of none (some n) default = n
one_of none none default = default

unfoldable pub count_usage : ℕ → ℕ → Option Usage → Parsed
count_usage now elapsed none = record {
  at = now;
  cached = negsuc 0;
  input = pos 0;
  output = pos 0;
  duration = elapsed;
}
count_usage now elapsed (some u) = record {
  at = now;
  cached = one_of u.cache_read_input_tokens none (negsuc 0);
  input = one_of u.prompt_tokens u.input_tokens (pos 0);
  output = one_of u.completion_tokens u.output_tokens (pos 0);
  duration = elapsed;
}

-- The timings of the server take the place of what the usage says.
unfoldable pub count_timings : Option Timings → Parsed → Parsed
count_timings none p = p
count_timings (some t) p = record p {
  cached = one_of t.cache_n none p.cached;
  input = t.prompt_n;
  output = t.predicted_n;
  duration = t.duration;
}

unfoldable pub counts : ℕ → ℕ → Option Usage → Option Timings → Parsed
counts now elapsed usage timings = count_timings timings (count_usage now elapsed usage)

-- The payload of a line of the stream, if it is one to read.
unfoldable pub payload : Text → Option Text
payload line =
    let text = trim_space (drop 5 (trim_space line)) in
    if not (has_prefix (trim_space line) (codes "data:"))
    then none
    else if text_eq text [] || text_eq text (codes "[DONE]")
    then none
    else some text

abbrev pub Parse : Type 0
Parse = Text → Option (Option Usage × Option Timings)

unfoldable pub parse_payload : Parse → Option Text → Option (Option Usage × Option Timings)
parse_payload parse none = none
parse_payload parse (some text) = parse text

-- What a line decides: `none` is to go on, after a payload that is valid JSON or not.
unfoldable pub after_line :
    ℕ → ℕ → Option (Option Usage × Option Timings) → (Bool → Option Parsed) → Bool → Option Parsed
after_line now elapsed none go_on found = go_on found
after_line now elapsed (some (none, none)) go_on found = go_on true
after_line now elapsed (some (some u, timings)) go_on found =
    some (counts now elapsed (some u) timings)
after_line now elapsed (some (none, some t)) go_on found = some (counts now elapsed none (some t))

-- The lines from the last to the first.
unfoldable pub scan_lines : Parse → ℕ → ℕ → List Text → Bool → Option Parsed
scan_lines parse now elapsed [] found = if found then some (counts now elapsed none none) else none
scan_lines parse now elapsed (line ∷ lines) found =
    after_line now elapsed (parse_payload parse (payload line))
      (λ f. scan_lines parse now elapsed lines f) found

unfoldable pub backwards : List Text → List Text → List Text
backwards [] done = done
backwards (line ∷ lines) done = backwards lines (line ∷ done)

-- `processStreamingResponse`; `none` is its error.
unfoldable pub process_streaming_response : Parse → ℕ → ℕ → Text → Option Parsed
process_streaming_response parse now elapsed body =
    scan_lines parse now elapsed (backwards (split 10 body) []) false

-- A body that is one JSON value, with the timings of `/infill` taken from the last entry by `parse`.
unfoldable pub process_body : Parse → ℕ → ℕ → Text → Option Parsed
process_body parse now elapsed body = elim (parse body) [
  | none ↦ none
  | some found ↦ some (counts now elapsed found.0 found.1)
]
