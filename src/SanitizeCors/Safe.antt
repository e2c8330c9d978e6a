-- ===== src/SanitizeCors/Safe.antt =====
-- proxy/sanitize_cors.go: nothing but tokens and separators is sent back.
use llmsnap.Prelude.{
  List, Text, ℕ, Bool, codes, ◌∷◌, ◌≡◌, if◌then◌else◌, true, ◌||◌, [], ◌++◌, refl, contains_rune,
  leb, not, suc, ◌<◌, zero, ◌&&◌,
}
use llmsnap.Prelude.{arith, false, text_eq}
use llmsnap.SanitizeCors.{is_token_char, valid_parts, sanitize_access_control_request_header_values}
use llmsnap.Prelude.{split, join, join_more, every, trim_space}

-- A printable ASCII character that is none of the delimiters of RFC 7230, 3.2.6, but for the comma
-- and the blank.
abbrev pub is_safe : ℕ → Bool
is_safe c = leb 32 c && leb c 126 && not (contains_rune (codes "\"()/:;<=>?@[\\]{}") c)

-- A test that holds for every number below `n`.
abbrev all_below : ℕ → (ℕ → Bool) → Bool
all_below zero test = true
all_below (suc n) test = test n && all_below n test

all_below_sound :
    (n : ℕ) (test : ℕ → Bool) (c : ℕ) → all_below n test ≡ true → c < n → test c ≡ true
all_below_sound zero test c h lt = absurd (omega arith)
all_below_sound (suc n) test c h lt = ground (arith, h, all_below_sound n test c)

token_chars : all_below 127 (λ c. not (is_token_char c) || is_safe c) ≡ true
unfolding is_token_char contains_rune
token_chars = refl

token_char_ascii : (c : ℕ) → is_token_char c ≡ true → c < 127
unfolding is_token_char contains_rune
token_char_ascii c h = ground (arith, h)

token_char_safe : (c : ℕ) → is_token_char c ≡ true → is_safe c ≡ true
token_char_safe c h = by_table (is_token_char c) (is_safe c) h (
    all_below_sound 127 (λ c. not (is_token_char c) || is_safe c) c token_chars
      (token_char_ascii c h))
  where
    by_table : (a b : Bool) → a ≡ true → (not a || b) ≡ true → b ≡ true
    by_table true b h t = t
    by_table false b h t = cc

every-append :
    (test : ℕ → Bool) (xs ys : Text)
    → every test xs ≡ true
    → every test ys ≡ true
    → every test (xs ++ ys) ≡ true
unfolding every
every-append test [] ys hx hy = hy
every-append test (x ∷ xs) ys hx hy = ground (arith, hx, every-append test xs ys, hy)

token_safe : (t : Text) → every is_token_char t ≡ true → every is_safe t ≡ true
unfolding every
token_safe [] h = refl
token_safe (c ∷ cs) h = ground (arith, h, token_safe cs, token_char_safe c)

-- Every text of a list is safe.
abbrev AllSafe : List Text → Type 0
AllSafe [] = Unit {0}
AllSafe (t ∷ ts) = (every is_safe t ≡ true) × AllSafe ts

valid_parts-AllSafe : (ps : List Text) → AllSafe (valid_parts ps)
unfolding valid_parts
valid_parts-AllSafe [] = tt
valid_parts-AllSafe (p ∷ ps) =
    by_tests (text_eq (trim_space p) []) (every is_token_char (trim_space p)) refl
      (valid_parts-AllSafe ps)
  where
    by_tests :
        (b t : Bool)
        → every is_token_char (trim_space p) ≡ t
        → AllSafe (valid_parts ps)
        → AllSafe (
            if b
            then valid_parts ps
            else if t
            then trim_space p ∷ valid_parts ps
            else valid_parts ps)
    by_tests true t e rest = rest
    by_tests false true e rest = (token_safe (trim_space p) e, rest)
    by_tests false false e rest = rest

separator : every is_safe (codes ", ") ≡ true
unfolding every contains_rune
separator = refl

join_more_safe : (ts : List Text) → AllSafe ts → every is_safe (join_more (codes ", ") ts) ≡ true
unfolding join_more every
join_more_safe [] h = refl
join_more_safe (t ∷ ts) h =
    every-append is_safe (codes ", " ++ t) _ (every-append is_safe (codes ", ") t separator h.0)
      (join_more_safe ts h.1)

join_safe : (ts : List Text) → AllSafe ts → every is_safe (join (codes ", ") ts) ≡ true
unfolding join every
join_safe [] h = refl
join_safe (t ∷ ts) h = every-append is_safe t _ h.0 (join_more_safe ts h.1)

-- Whatever the header holds, line breaks and control characters included, every character of the
-- sanitized value is printable ASCII, and none is a delimiter other than a comma or a blank.
pub sanitized_safe :
    (header_values : Text)
    → every is_safe (sanitize_access_control_request_header_values header_values) ≡ true
unfolding sanitize_access_control_request_header_values
sanitized_safe header_values =
    join_safe (valid_parts (split 44 header_values)) (valid_parts-AllSafe (split 44 header_values))
