-- ===== src/Config/Lines.antt =====
-- proxy/config/config.go: the lines of a command without its comments.
use llmsnap.Config.Commands.{
  cleaned_lines, without_comments, is_comment, cleaned, without_backslash, sanitize_command,
  strip_comments, or_empty,
}
use mathlib.Core.List.{append-nil}
use llmsnap.Prelude.{
  List, join, join_more, push_front, split, Text, contains_rune, codes, has_prefix, ℕ, ◌∷◌, ◌≡◌,
  Bool, arith, false, trim_space, ◌++◌, ◌==◌, ◌⊎◌, [], if◌then◌else◌, trim_left, inr, refl,
  trim_right, true, inl, ◌∙◌, ap, sym,
}

-- What stands before the first line break, and the rest, of lines put together.
split-line :
    (l rest : Text) → contains_rune l 10 ≡ false → split 10 (l ++ 10 ∷ rest) ≡ l ∷ split 10 rest
unfolding split push_front contains_rune
split-line [] rest h = ground arith
split-line (c ∷ cs) rest h = ground (arith, split-line cs rest)

split_one : (l : Text) → contains_rune l 10 ≡ false → split 10 l ≡ l ∷ []
unfolding split push_front contains_rune
split_one [] h = refl
split_one (c ∷ cs) h = ground (arith, split_one cs)

-- No line holds a line break.
abbrev pub Lines : List Text → Type 0
Lines [] = Unit {0}
Lines (l ∷ ls) = (contains_rune l 10 ≡ false) × Lines ls

split-join_more :
    (l : Text) (ls : List Text)
    → Lines (l ∷ ls)
    → split 10 (l ++ join_more (codes "\n") ls) ≡ l ∷ ls
unfolding join_more
split-join_more l [] h = rw (append-nil l) (split_one l h.0)
split-join_more l (m ∷ ms) h =
    split-line l (m ++ join_more (codes "\n") ms) h.0 ∙ ap (λ t. l ∷ t) (split-join_more m ms h.1)

push_front-Lines : (c : ℕ) (ls : List Text) → (c == 10) ≡ false → Lines ls → Lines (push_front c ls)
unfolding push_front contains_rune
push_front-Lines c [] e h = ground arith
push_front-Lines c (l ∷ ls) e h = (ground (arith, h.0, e), h.1)

split-Lines : (t : Text) → Lines (split 10 t)
unfolding split contains_rune
split-Lines [] = (refl, tt)
split-Lines (c ∷ cs) = branch (c == 10) refl (split-Lines cs)
  where
    branch :
        (b : Bool)
        → c == 10 ≡ b
        → Lines (split 10 cs)
        → Lines (if b then [] ∷ split 10 cs else push_front c (split 10 cs))
    branch true e k = (refl, k)
    branch false e k = push_front-Lines c (split 10 cs) e k

without_comments-Lines : (ls : List Text) → Lines ls → Lines (without_comments ls)
unfolding without_comments
without_comments-Lines [] h = tt
without_comments-Lines (l ∷ ls) h = branch (is_comment l) (without_comments-Lines ls h.1)
  where
    branch :
        (b : Bool)
        → Lines (without_comments ls)
        → Lines (if b then without_comments ls else l ∷ without_comments ls)
    branch true k = k
    branch false k = (h.0, k)

without_comments-without_comments :
    (ls : List Text) → without_comments (without_comments ls) ≡ without_comments ls
unfolding without_comments
without_comments-without_comments [] = refl
without_comments-without_comments (l ∷ ls) = ground (arith, without_comments-without_comments ls)

cleaned_lines-without_comments :
    (ls : List Text) → cleaned_lines (without_comments ls) ≡ cleaned_lines ls
unfolding without_comments cleaned_lines
cleaned_lines-without_comments [] = refl
cleaned_lines-without_comments (l ∷ ls) = ground (arith, cleaned_lines-without_comments ls)

-- The lines of lines put together again; no line at all becomes an empty one.
split-join :
    (ls : List Text)
    → Lines ls
    → (split 10 (join (codes "\n") ls) ≡ ls)
      ⊎ ((ls ≡ []) × (split 10 (join (codes "\n") ls) ≡ [] ∷ []))
unfolding join split
split-join [] h = inr (refl, refl)
split-join (l ∷ ls) h = inl (split-join_more l ls h)

empty_line : without_comments ([] ∷ []) ≡ [] ∷ []
unfolding without_comments is_comment has_prefix trim_space trim_left trim_right
empty_line = refl

empty_cleaned : join (codes "\n") (cleaned_lines ([] ∷ [])) ≡ join (codes "\n") (cleaned_lines [])
unfolding cleaned_lines is_comment has_prefix trim_space trim_left trim_right join join_more cleaned
    without_backslash
empty_cleaned = refl

-- Stripping leaves the lines that are no comments, in their order, with no comment among them; where
-- every line is a comment the result is empty. Stripping again changes nothing.
pub strip_comments_lem :
    (t : Text)
    → ((split 10 (strip_comments t) ≡ without_comments (split 10 t))
        ⊎ ((without_comments (split 10 t) ≡ []) × (strip_comments t ≡ [])))
      × (strip_comments (strip_comments t) ≡ strip_comments t)
unfolding strip_comments join without_comments split join_more
strip_comments_lem t =
    let kept = without_comments (split 10 t) in
    let clean = without_comments-without_comments (split 10 t) in
    elim (split-join kept (without_comments-Lines (split 10 t) (split-Lines t))) [
      | inl e ↦ (
        inl e,
        ap (λ ls. join (codes "\n") (without_comments ls)) e ∙ ap (join (codes "\n")) clean,
      )
      | inr (none, e) ↦ (
        inr (none, ap (join (codes "\n")) none),
        ap (λ ls. join (codes "\n") (without_comments ls)) e
            ∙ ap (join (codes "\n")) empty_line
            ∙ sym (ap (join (codes "\n")) none),
      )
    ]

-- A command without its comments splits into the same arguments as before, or the same error.
pub sanitize_command-strip_comments :
    (shlex : Text → List Text) (t : Text)
    → sanitize_command shlex (strip_comments t) ≡ sanitize_command shlex t
unfolding sanitize_command strip_comments
sanitize_command-strip_comments shlex t =
    ap (λ u. or_empty (shlex u))
      (elim (split-join kept (without_comments-Lines (split 10 t) (split-Lines t))) [
        | inl e ↦
            ap command e ∙ ap (join (codes "\n")) (cleaned_lines-without_comments (split 10 t))
        | inr (none, e) ↦
            ap command e
            ∙ empty_cleaned
            ∙ sym (ap command none)
            ∙ ap (join (codes "\n")) (cleaned_lines-without_comments (split 10 t))
      ])
  where
    kept : List Text
    kept = without_comments (split 10 t)

    command : List Text → Text
    command ls = join (codes "\n") (cleaned_lines ls)
