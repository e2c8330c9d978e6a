-- ===== src/Config/Commands.antt =====
-- proxy/config/config.go: the lines of a command. `shlex.Posix.Split` is the argument `shlex`.
use llmsnap.Config.{ConfigError, empty_command}
use llmsnap.Prelude.{
  List, Text, Bool, Option, Result, join, ◌∷◌, codes, has_prefix, if◌then◌else◌, none, some, [],
  err, split, text_eq, trim_space, ◌==◌, ok, ℕ,
}

-- A line whose first rune after blanks is `#`.
unfoldable pub is_comment : Text → Bool
is_comment line = has_prefix (trim_space line) (codes "#")

unfoldable pub without_comments : List Text → List Text
without_comments [] = []
without_comments (line ∷ lines) =
    let rest = without_comments lines in if is_comment line then rest else line ∷ rest

unfoldable pub strip_comments : Text → Text
strip_comments cmd_str = join (codes "\n") (without_comments (split 10 cmd_str))

unfoldable pub put_before : ℕ → Option Text → Option Text
put_before c none = none
put_before c (some t) = some (c ∷ t)

-- A trailing backslash, with a blank in its place.
unfoldable pub without_backslash : Text → Option Text
without_backslash [] = none
without_backslash (c ∷ cs) =
    let rest = without_backslash cs in
    if text_eq cs [] then (if c == 92 then some (codes " ") else none) else put_before c rest

unfoldable pub cleaned : Text → Option Text → Text
cleaned line none = line
cleaned line (some t) = t

unfoldable pub cleaned_lines : List Text → List Text
cleaned_lines [] = []
cleaned_lines (line ∷ lines) =
    let rest = cleaned_lines lines in
    if is_comment line then rest else cleaned line (without_backslash (trim_space line)) ∷ rest

unfoldable pub or_empty : List Text → Result ConfigError (List Text)
or_empty [] = err empty_command
or_empty (arg ∷ args) = ok (arg ∷ args)

unfoldable pub sanitize_command : (Text → List Text) → Text → Result ConfigError (List Text)
sanitize_command shlex cmd_str =
    or_empty (shlex (join (codes "\n") (cleaned_lines (split 10 cmd_str))))
