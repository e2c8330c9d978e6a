-- ===== src/MetricsMonitor/Secrets.antt =====
-- proxy/metrics_monitor.go: no secret is left in the headers of a capture.
use mathlib.Core.Path.{subst, sym}
use mathlib.Core.Option.{some-injective}
use llmsnap.Prelude.{
  ℕ, Text, List, ◌++◌, not, length, Bool-cases, refl, [], ◌∷◌, some, none, true, false, inl, inr,
  ap, ◌≡◌, Bool, ◌∙◌, ◌&&◌, ◌||◌, if◌then◌else◌, ◌⊎◌, ltb, leb, ◌+◌, every, text_eq, codes, ◌==◌,
  Option, contains,
}
use llmsnap.MetricsMonitor.{
  MetricsMonitor, ReqRespCapture, new_metrics_monitor, add_capture, add_metrics, insert, delete,
  evict, forget, lookup, get_capture_by_id, size,
}
use llmsnap.MetricsMonitor.Headers.{redact_headers, sensitive_headers, without_header}
use llmsnap.MetricsMonitor.Wrap.{
  Exchange, capture_of, record_response, record_body, wrap_handler, minimal, metrics_of, WrapError,
  unreadable_request, handler_failed,
}

abbrev pub ascii_lower : Text → Text
ascii_lower [] = []
ascii_lower (c ∷ cs) = (if leb 65 c && leb c 90 then c + 32 else c) ∷ ascii_lower cs

-- The name of a header that carries credentials, in upper or lower case.
abbrev pub is_secret : Text → Bool
is_secret name =
    every (λ c. ltb c 128) name
    && contains
        (codes "authorization"
          ∷ codes "proxy-authorization"
          ∷ codes "cookie"
          ∷ codes "set-cookie"
          ∷ codes "x-api-key"
          ∷ [])
        (ascii_lower name)

-- A header that carries credentials has its value hidden.
abbrev pub Redacted : List (Text × Text) → Type 0
Redacted [] = Unit {0}
Redacted ((k, v) ∷ hs) = ((is_secret k ≡ false) ⊎ (v ≡ codes "[REDACTED]")) × Redacted hs

abbrev pub HidesSecrets : ReqRespCapture → Type 0
HidesSecrets c = Redacted c.req_headers × Redacted c.resp_headers

abbrev AllHide : List (ℕ × ReqRespCapture) → Type 0
AllHide [] = Unit {0}
AllHide ((k, c) ∷ cs) = HidesSecrets c × AllHide cs

without_header-Redacted :
    (name : Text) (hs : List (Text × Text)) → Redacted hs → Redacted (without_header name hs)
unfolding without_header
without_header-Redacted name [] r = tt
without_header-Redacted name ((k, v) ∷ hs) r =
    by_test (text_eq k name) (without_header-Redacted name hs r.1)
  where
    by_test :
        (b : Bool)
        → Redacted (without_header name hs)
        → Redacted (if b then without_header name hs else (k, v) ∷ without_header name hs)
    by_test true later = later
    by_test false later = (r.0, later)

lookup-AllHide :
    (id : ℕ) (cs : List (ℕ × ReqRespCapture)) (c : ReqRespCapture)
    → AllHide cs
    → lookup id cs ≡ some c
    → HidesSecrets c
unfolding lookup
lookup-AllHide id [] c h e = cc
lookup-AllHide id ((k, d) ∷ cs) c h e = by_test (k == id) (lookup-AllHide id cs c h.1) e
  where
    by_test :
        (b : Bool)
        → (lookup id cs ≡ some c → HidesSecrets c)
        → (if b then some d else lookup id cs) ≡ some c
        → HidesSecrets c
    by_test true later e = subst HidesSecrets (some-injective d c e) h.0
    by_test false later e = later e

insert-AllHide :
    (id : ℕ) (c : ReqRespCapture) (cs : List (ℕ × ReqRespCapture))
    → HidesSecrets c
    → AllHide cs
    → AllHide (insert id c cs)
unfolding insert
insert-AllHide id c [] hc h = (hc, tt)
insert-AllHide id c ((k, d) ∷ cs) hc h = by_test (k == id) (insert-AllHide id c cs hc h.1)
  where
    by_test :
        (b : Bool)
        → AllHide (insert id c cs)
        → AllHide (if b then (k, c) ∷ cs else (k, d) ∷ insert id c cs)
    by_test true later = (hc, h.1)
    by_test false later = (h.0, later)

delete-AllHide : (id : ℕ) (cs : List (ℕ × ReqRespCapture)) → AllHide cs → AllHide (delete id cs)
unfolding delete
delete-AllHide id [] h = tt
delete-AllHide id ((k, d) ∷ cs) h = by_test (k == id) (delete-AllHide id cs h.1)
  where
    by_test :
        (b : Bool) → AllHide (delete id cs) → AllHide (if b then cs else (k, d) ∷ delete id cs)
    by_test true later = h.1
    by_test false later = (h.0, later)

forget-AllHide :
    (id : ℕ) (mp : MetricsMonitor) (o : Option ReqRespCapture)
    → AllHide mp.captures
    → AllHide (forget id o mp).captures
unfolding forget
forget-AllHide id mp none h = h
forget-AllHide id mp (some c) h = delete-AllHide id mp.captures h

evict-AllHide :
    (n : ℕ) (order : List ℕ) (mp : MetricsMonitor)
    → AllHide mp.captures
    → AllHide (evict n order mp).captures
unfolding evict
evict-AllHide n [] mp h = h
evict-AllHide n (id ∷ order) mp h = by_test (ltb mp.max_capture_size (mp.capture_size + n)) (
    evict-AllHide n order (forget id (lookup id mp.captures) mp)
      (forget-AllHide id mp (lookup id mp.captures) h))
  where
    by_test :
        (b : Bool)
        → AllHide (evict n order (forget id (lookup id mp.captures) mp)).captures
        → AllHide
            (if b
              then evict n order (forget id (lookup id mp.captures) mp)
              else record mp { capture_order = id ∷ order }).captures
    by_test true later = later
    by_test false later = h

module _ (to_lower : Text → Text)
    (lowers : (t : Text) → every (λ c. ltb c 128) t ≡ true → to_lower t ≡ ascii_lower t) where
  secret_is_sensitive :
      (k : Text) → contains sensitive_headers (to_lower k) ≡ false → is_secret k ≡ false
  secret_is_sensitive k h = elim (Bool-cases (every (λ c. ltb c 128) k)) [
    | inl ascii ↦
        ap (λ b. b && contains sensitive_headers (ascii_lower k)) ascii
        ∙ (ap (contains sensitive_headers) (sym (lowers k ascii)) ∙ h)
    | inr wide ↦ ap (λ b. b && contains sensitive_headers (ascii_lower k)) wide
  ]

  redact_headers-Redacted : (hs : List (Text × Text)) → Redacted (redact_headers to_lower hs)
  unfolding redact_headers
  redact_headers-Redacted [] = tt
  redact_headers-Redacted ((k, v) ∷ hs) =
      by_test (contains sensitive_headers (to_lower k)) refl (redact_headers-Redacted hs)
    where
      by_test :
          (b : Bool)
          → contains sensitive_headers (to_lower k) ≡ b
          → Redacted (redact_headers to_lower hs)
          → Redacted ((k, if b then codes "[REDACTED]" else v) ∷ redact_headers to_lower hs)
      by_test true e later = (inr refl, later)
      by_test false e later = (inl (secret_is_sensitive k e), later)

  add_capture-AllHide :
      (c : ReqRespCapture) (mp : MetricsMonitor)
      → HidesSecrets c
      → AllHide mp.captures
      → AllHide (add_capture c mp).captures
  unfolding add_capture
  add_capture-AllHide c mp hc h =
      by_tests (not mp.enable_captures) (ltb mp.max_capture_size (size c))
    where
      by_tests :
          (a b : Bool)
          → AllHide
              (if a
                then mp
                else if b
                then mp
                else let room = evict (size c) mp.capture_order mp in
                  record room {
                    captures = insert c.id c room.captures;
                    capture_order = room.capture_order ++ (c.id ∷ []);
                    capture_size = room.capture_size + size c;
                  }).captures
      by_tests true b = h
      by_tests false true = h
      by_tests false false =
          insert-AllHide c.id c (evict (size c) mp.capture_order mp).captures hc
            (evict-AllHide (size c) mp.capture_order mp h)

  capture_of-HidesSecrets :
      (x : Exchange) (body : List ℕ) (id : ℕ) → HidesSecrets (capture_of to_lower x body id)
  unfolding capture_of
  capture_of-HidesSecrets x body id = (
    redact_headers-Redacted x.request_headers,
    without_header-Redacted (codes "Content-Encoding") (redact_headers to_lower x.response_headers)
        (redact_headers-Redacted x.response_headers),
  )

  record_body-AllHide :
      (x : Exchange) (body : Option (List ℕ)) (mp : MetricsMonitor)
      → AllHide mp.captures
      → AllHide (record_body to_lower x body mp).captures
  unfolding record_body record_response add_metrics
  record_body-AllHide x none mp h = h
  record_body-AllHide x (some body) mp h = by_test (not mp.enable_captures)
    where
      kept : MetricsMonitor
      kept =
          (add_metrics
            (record (metrics_of x x.parsed) {
              has_capture =
                  leb (size (capture_of to_lower x body 0)) mp.max_capture_size
                  || (metrics_of x x.parsed).has_capture;
            })
            mp).1

      by_test :
          (b : Bool)
          → AllHide
              (if b
                then (add_metrics (metrics_of x x.parsed) mp).1
                else add_capture (capture_of to_lower x body mp.next_id) kept).captures
      by_test true = h
      by_test false =
          add_capture-AllHide (capture_of to_lower x body mp.next_id) kept
            (capture_of-HidesSecrets x body mp.next_id) h

  wrap_handler-AllHide :
      (x : Exchange) (mp : MetricsMonitor)
      → AllHide mp.captures
      → AllHide (wrap_handler to_lower x mp).1.captures
  unfolding wrap_handler add_metrics
  wrap_handler-AllHide x mp h =
      by_tests (mp.enable_captures && not x.readable) x.handler_fails (not (x.status_code == 200))
        (length x.body == 0)
    where
      by_tests :
          (a b c d : Bool)
          → let after : Option WrapError × MetricsMonitor =
              if a
              then (some unreadable_request, mp)
              else if b
              then (some handler_failed, mp)
              else if c
              then (none, mp)
              else if d
              then (none, (add_metrics (minimal x) mp).1)
              else (none, record_body to_lower x x.decompressed mp) in
            AllHide after.1.captures
      by_tests true b c d = h
      by_tests false true c d = h
      by_tests false false true d = h
      by_tests false false false true = h
      by_tests false false false false = record_body-AllHide x x.decompressed mp h

-- The monitor after the requests.
abbrev pub wrap_all : (Text → Text) → List Exchange → MetricsMonitor → MetricsMonitor
wrap_all to_lower [] mp = mp
wrap_all to_lower (x ∷ xs) mp = wrap_all to_lower xs (wrap_handler to_lower x mp).1

wrap_all-AllHide :
    (to_lower : Text → Text)
    (lowers : (t : Text) → every (λ c. ltb c 128) t ≡ true → to_lower t ≡ ascii_lower t)
    (xs : List Exchange) (mp : MetricsMonitor)
    → AllHide mp.captures
    → AllHide (wrap_all to_lower xs mp).captures
wrap_all-AllHide to_lower lowers [] mp h = h
wrap_all-AllHide to_lower lowers (x ∷ xs) mp h =
    wrap_all-AllHide to_lower lowers xs (wrap_handler to_lower x mp).1
      (wrap_handler-AllHide to_lower lowers x mp h)

-- In every capture that a monitor holds after any requests, from a new one on, the value of each header
-- that carries credentials - Authorization, Proxy-Authorization, Cookie, Set-Cookie, X-Api-Key, in upper
-- or lower case - is "[REDACTED]", in the request's headers and in the response's. `strings.ToLower`
-- turns the letters of an ASCII text to lower case.
pub wrap_all-HidesSecrets :
    (to_lower : Text → Text)
    (lowers : (t : Text) → every (λ c. ltb c 128) t ≡ true → to_lower t ≡ ascii_lower t)
    (max_metrics capture_buffer_mb : ℕ) (xs : List Exchange) (id : ℕ) (c : ReqRespCapture)
    → get_capture_by_id id
        (wrap_all to_lower xs (new_metrics_monitor max_metrics capture_buffer_mb))
      ≡ some c
    → HidesSecrets c
unfolding new_metrics_monitor get_capture_by_id
wrap_all-HidesSecrets to_lower lowers max_metrics capture_buffer_mb xs id c held =
    let mp = new_metrics_monitor max_metrics capture_buffer_mb in
    lookup-AllHide id (wrap_all to_lower xs mp).captures c
      (wrap_all-AllHide to_lower lowers xs mp tt) held
