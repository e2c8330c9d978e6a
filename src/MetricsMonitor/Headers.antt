-- ===== src/MetricsMonitor/Headers.antt =====
-- proxy/metrics_monitor.go: the headers of a capture, and the encodings that are asked for.
-- `strings.ToLower` is the argument `to_lower`.
use llmsnap.Prelude.{List, Text, Bool, codes, if◌then◌else◌, ◌∷◌, [], contains, text_eq}
use llmsnap.Prelude.{split, trim_space, join}

abbrev pub sensitive_headers : List Text
sensitive_headers =
    codes "authorization"
    ∷ codes "proxy-authorization"
    ∷ codes "cookie"
    ∷ codes "set-cookie"
    ∷ codes "x-api-key"
    ∷ []

-- `delete(headers, name)`.
unfoldable pub without_header : Text → List (Text × Text) → List (Text × Text)
without_header name [] = []
without_header name ((k, v) ∷ hs) =
    let rest = without_header name hs in if text_eq k name then rest else (k, v) ∷ rest

module _ (to_lower : Text → Text) where
  unfoldable pub redact_headers : List (Text × Text) → List (Text × Text)
  redact_headers [] = []
  redact_headers ((k, v) ∷ hs) =
      (k, if contains sensitive_headers (to_lower k) then codes "[REDACTED]" else v)
      ∷ redact_headers hs

  unfoldable pub front : List Text → Text
  front [] = []
  front (t ∷ ts) = t

  -- The encoding of a part, without its quality value, can be decompressed.
  unfoldable pub is_supported : Text → Bool
  is_supported part =
      contains (codes "gzip" ∷ codes "deflate" ∷ []) (to_lower (trim_space (front (split 59 part))))

  unfoldable pub supported_parts : List Text → List Text
  supported_parts [] = []
  supported_parts (p ∷ ps) =
      let rest = supported_parts ps in if is_supported p then trim_space p ∷ rest else rest

  unfoldable pub filter_accept_encoding : Text → Text
  filter_accept_encoding accept_encoding =
      if text_eq accept_encoding []
      then []
      else join (codes ", ") (supported_parts (split 44 accept_encoding))
