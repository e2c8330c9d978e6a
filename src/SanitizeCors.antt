-- ===== src/SanitizeCors.antt =====
-- proxy/sanitize_cors.go: the header values that are sent back to a browser.
pub mod Safe
mod Tests
use llmsnap.Prelude.{
  List, Text, ℕ, Bool, codes, ◌∷◌, [], false, if◌then◌else◌, leb, true, ◌++◌, text_eq, ◌&&◌, ◌==◌,
  ◌||◌, contains_rune, join, trim_space, every, split,
}

-- `isTokenChar`.
unfoldable pub is_token_char : ℕ → Bool
is_token_char r =
    (leb 97 r && leb r 122)
    || (leb 65 r && leb r 90)
    || (leb 48 r && leb r 57)
    || contains_rune (codes "!#$%&'*+-.^_`|~") r

-- The loop over the parts.
unfoldable pub valid_parts : List Text → List Text
valid_parts [] = []
valid_parts (p ∷ ps) =
    let rest = valid_parts ps in
    let v = trim_space p in
    if text_eq v [] then rest else if every is_token_char v then v ∷ rest else rest

unfoldable pub sanitize_access_control_request_header_values : Text → Text
sanitize_access_control_request_header_values header_values =
    join (codes ", ") (valid_parts (split 44 header_values))
