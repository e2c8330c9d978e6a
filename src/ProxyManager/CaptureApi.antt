-- ===== src/ProxyManager/CaptureApi.antt =====
-- proxy/proxymanager_api.go: a capture by the number in the path, and the version.
use llmsnap.MetricsMonitor.Captures.{IsValid, add_capture_lem}
use native.Mathlib.Omega.{pow_step}
use llmsnap.MetricsMonitor.{MetricsMonitor, ReqRespCapture, get_capture_by_id, size, add_capture}
use llmsnap.Prelude.{
  refl, Bool, Option, Text, show_digits, ℕ, none, some, ℤ, ◌<◌, if◌then◌else◌, pos, ◌^◌, ◌∷◌, [],
  leb, ◌*◌, ◌==◌, ◌≡◌, ap, negsuc, true, ◌+◌, arith, false, ◌-◌, suc, ◌&&◌, Bool-cases, ◌/◌, inl,
  inr, ◌%◌, ◌∙◌, zero, ltb, show, ◌≢◌, ◌≤◌,
}

-- `strconv.Atoi` for an `int` of 64 bits.
unfoldable pub digits_from : ℕ → Text → Option ℕ
digits_from n [] = some n
digits_from n (c ∷ cs) =
    let rest = digits_from (n * 10 + (c - 48)) cs in if leb 48 c && leb c 57 then rest else none

unfoldable pub minus : ℕ → ℤ
minus zero = pos 0
minus (suc n) = negsuc n

unfoldable pub in_int : Bool → Option ℕ → Option ℤ
in_int negative none = none
in_int true (some n) = if leb n 9223372036854775808 then some (minus n) else none
in_int false (some n) = if ltb n 9223372036854775808 then some (pos n) else none

unfoldable pub digits_of : Text → Option ℕ
digits_of [] = none
digits_of (c ∷ cs) = digits_from 0 (c ∷ cs)

unfoldable pub atoi : Text → Option ℤ
atoi [] = none
atoi (c ∷ cs) =
    if c == 45
    then in_int true (digits_of cs)
    else if c == 43
    then in_int false (digits_of cs)
    else in_int false (digits_of (c ∷ cs))

unfoldable pub capture_answer : Option ReqRespCapture → ℕ × Option ReqRespCapture
capture_answer none = (404, none)
capture_answer (some c) = (200, some c)

-- No capture has a negative number.
unfoldable pub capture_of_int : Option ℤ → MetricsMonitor → ℕ × Option ReqRespCapture
capture_of_int none mp = (400, none)
capture_of_int (some (pos id)) mp = capture_answer (get_capture_by_id id mp)
capture_of_int (some (negsuc n)) mp = (404, none)

-- The status, and the capture that is sent.
unfoldable pub api_get_capture : Text → MetricsMonitor → ℕ × Option ReqRespCapture
api_get_capture param mp = capture_of_int (atoi param) mp

digits_from-show_digits :
    (fuel n : ℕ) (out : Text)
    → n < 10 ^ fuel
    → digits_from 0 (show_digits fuel n out) ≡ digits_from n out
unfolding show_digits digits_from
digits_from-show_digits zero n out h = ap (λ k. digits_from k out) (omega (arith, h))
digits_from-show_digits (suc fuel) n out h = elim (Bool-cases (n / 10 == 0)) [
  | inl e ↦ rw e (ground arith)
  | inr ne ↦ rw ne (
      digits_from-show_digits fuel (n / 10) ((48 + n % 10) ∷ out)
        (omega (arith, pow_step 10 fuel, h))
      ∙ ground (
        arith,
        ap (λ k. digits_from k out) {x = n / 10 * 10 + (48 + n % 10 - 48)} {y = n} (omega arith),
      ))
]

show_digits-nonempty : (fuel n c : ℕ) (out : Text) → show_digits fuel n (c ∷ out) ≢ []
unfolding show_digits
show_digits-nonempty zero n c out = λ e. cc
show_digits-nonempty (suc fuel) n c out =
    ground (arith, show_digits-nonempty fuel (n / 10) (48 + n % 10) (c ∷ out))

show_digits-suc : (fuel n : ℕ) → show_digits (suc fuel) n [] ≢ []
unfolding show_digits
show_digits-suc fuel n = ground (arith, show_digits-nonempty fuel (n / 10) (48 + n % 10) [])

shown_digits : (n : ℕ) → n < 10 ^ 20 → digits_from 0 (show_digits 20 n []) ≡ some n
unfolding digits_from
shown_digits n h = digits_from-show_digits 20 n [] h

atoi-digits :
    (t : Text) (n : ℕ)
    → t ≢ []
    → digits_from 0 t ≡ some n
    → n < 9223372036854775808
    → atoi t ≡ some (pos n)
unfolding atoi digits_of digits_from in_int
atoi-digits [] n some_text h small = absurd (some_text refl)
atoi-digits (c ∷ cs) n some_text h small =
    ground (arith, h, small, ap (in_int false) {x = digits_from 0 (c ∷ cs)} {y = some n})

-- A number that fits an `int` is read back from its decimal digits.
pub atoi-show : (n : ℕ) → n < 9223372036854775808 → atoi (show (pos n)) ≡ some (pos n)
unfolding show
atoi-show n small =
    atoi-digits (show_digits 20 n []) n (show_digits-suc 19 n)
      (shown_digits n (omega (arith, small))) small

-- A capture that fits and has a new number, stored by a valid monitor that captures: a request for its
-- number in decimal digits is answered with 200 and the capture.
pub api_get_capture-add_capture :
    (c : ReqRespCapture) (mp : MetricsMonitor)
    → IsValid mp
    → mp.enable_captures ≡ true
    → size c ≤ mp.max_capture_size
    → get_capture_by_id c.id mp ≡ none
    → c.id < 9223372036854775808
    → api_get_capture (show (pos c.id)) (add_capture c mp) ≡ (200, some c)
unfolding api_get_capture capture_of_int capture_answer
api_get_capture-add_capture c mp valid on le fresh small =
    ap (λ o. capture_of_int o (add_capture c mp)) (atoi-show c.id small)
    ∙ ap capture_answer (add_capture_lem c mp valid on le fresh).found
