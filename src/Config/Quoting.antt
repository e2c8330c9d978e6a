-- ===== src/Config/Quoting.antt =====
-- proxy/config/config.go: a variable's value between double quotes.
use llmsnap.Config.Env.{sanitize_env_value_for_yaml}
use llmsnap.Prelude.{
  none, some, true, false, [], ◌∷◌, inl, inr, refl, Bool, Text, replace_all, ℕ, Option, codes,
  replace_from, has_prefix, none, some, false, ◌∷◌, if◌then◌else◌, ◌++◌, ◌==◌, ◌≡◌, Bool-cases,
  ◌||◌, [], inl, arith, true, inr, refl, contains_rune, ok, ◌∙◌,
}

pub add_rune : ℕ → Option (Text × Text) → Option (Text × Text)
add_rune c none = none
add_rune c (some (t, rest)) = some (c ∷ t, rest)

-- How YAML reads a text up to its closing quote: what it stands for, and what follows the quote.
-- `escaped` is after a backslash; other escapes than those of a quote and a backslash are refused, and so
-- are a line break, a carriage return and a NUL.
abbrev pub read_quoted : Bool → Text → Option (Text × Text)
unfolding add_rune
read_quoted escaped [] = none
read_quoted true (c ∷ cs) =
    let rest = read_quoted false cs in if c == 34 || c == 92 then add_rune c rest else none
read_quoted false (c ∷ cs) =
    let rest = read_quoted (c == 92) cs in
    if c == 34
    then some ([], cs)
    else if c == 92
    then rest
    else if c == 10 || c == 13 || c == 0
    then none
    else add_rune c rest

pub escape : Text → Text
escape v = replace_all (replace_all v (codes "\\") (codes "\\\\")) (codes "\"") (codes "\\\"")

-- No line break, no carriage return and no NUL.
abbrev pub OneLine : Text → Type 0
OneLine t =
    (contains_rune t 10 ≡ false) × (contains_rune t 13 ≡ false) × (contains_rune t 0 ≡ false)

OneLine-front :
    (c : ℕ) (cs : Text) → OneLine (c ∷ cs) → OneLine cs × ((c == 10 || c == 13 || c == 0) ≡ false)
unfolding contains_rune
OneLine-front c cs h = ground (arith, h)

read-escape :
    (v rest : Text) → OneLine v → read_quoted false (escape v ++ 34 ∷ rest) ≡ some (v, rest)
unfolding escape replace_all replace_from has_prefix add_rune
read-escape [] rest h = refl
read-escape (c ∷ cs) rest h =
    let more = OneLine-front c cs h in
    let later = read-escape cs rest more.0 in
    elim (Bool-cases (c == 92)) [
      | inl e ↦ ground (arith, later)
      | inr e ↦ elim (Bool-cases (c == 34)) [
        | inl q ↦ ground (arith, later)
        | inr q ↦ ground (arith, later, more.1)
      ]
    ]

contains_rune-escape :
    (r : ℕ) (v : Text)
    → (r == 92) ≡ false
    → (r == 34) ≡ false
    → contains_rune (escape v) r ≡ contains_rune v r
unfolding escape replace_all replace_from has_prefix contains_rune
contains_rune-escape r [] p s = refl
contains_rune-escape r (c ∷ cs) p s = elim (Bool-cases (c == 92)) [
  | inl e ↦ ground (arith, contains_rune-escape r cs p s)
  | inr e ↦ elim (Bool-cases (c == 34)) [
    | inl q ↦ ground (arith, contains_rune-escape r cs p s)
    | inr q ↦ ground (arith, contains_rune-escape r cs p s)
  ]
]

OneLine-escape : (v : Text) → OneLine v → OneLine (escape v)
OneLine-escape v h = (
  contains_rune-escape 10 v refl refl ∙ h.0,
  contains_rune-escape 13 v refl refl ∙ h.1,
  contains_rune-escape 0 v refl refl ∙ h.2,
)

sanitized :
    (value var_name safe : Text)
    → sanitize_env_value_for_yaml value var_name ≡ ok safe
    → (safe ≡ escape value) × OneLine value
unfolding sanitize_env_value_for_yaml escape
sanitized value var_name safe h = ground (arith, h)

-- A value that is accepted and put between double quotes is read back as it was, with what follows the
-- quotes left alone; neither it nor what is put there holds a line break, a carriage return or a NUL.
pub read_quoted-sanitize_env_value_for_yaml :
    (value var_name safe rest : Text)
    → sanitize_env_value_for_yaml value var_name ≡ ok safe
    → (read_quoted false (safe ++ 34 ∷ rest) ≡ some (value, rest)) × OneLine value × OneLine safe
read_quoted-sanitize_env_value_for_yaml value var_name safe rest h =
    let is = sanitized value var_name safe h in
    rw (is.0) ((read-escape value rest is.1, is.1, OneLine-escape value is.1))
