-- ===== src/Prelude/Strings.antt =====
-- What the code uses of Go's package strings, on code points.
use Prim.Native.Nat.{ℕ, zero, suc, ◌+◌, ◌-◌, ◌/◌, ◌%◌}
use mathlib.Core.Bool.{Bool, true, false, ◌&&◌, ◌||◌}
use mathlib.Core.List.{List, [], ◌∷◌, ◌++◌}
use llmsnap.Prelude.Tests.{◌==◌, leb, ltb, if◌then◌else◌}
use llmsnap.Prelude.Lists.{length}
use llmsnap.Prelude.Texts.{Text, text_eq}
use llmsnap.Prelude.Int.{ℤ, pos, negsuc}

unfoldable pub contains_rune : Text → ℕ → Bool
contains_rune [] r = false
contains_rune (c ∷ cs) r = c == r || contains_rune cs r

-- `unicode.IsSpace`.
unfoldable pub is_space : ℕ → Bool
is_space r =
    (leb 9 r && leb r 13)
    || contains_rune (32 ∷ 133 ∷ 160 ∷ 5760 ∷ 8232 ∷ 8233 ∷ 8239 ∷ 8287 ∷ 12288 ∷ []) r
    || (leb 8192 r && leb r 8202)

-- A rune put at the front of the first part.
unfoldable pub push_front : ℕ → List Text → List Text
push_front r [] = (r ∷ []) ∷ []
push_front r (p ∷ ps) = (r ∷ p) ∷ ps

-- `strings.Split` at a rune.
unfoldable pub split : ℕ → Text → List Text
split sep [] = [] ∷ []
split sep (c ∷ cs) = let rest = split sep cs in if c == sep then [] ∷ rest else push_front c rest

unfoldable pub trim_left : Text → Text
trim_left [] = []
trim_left (c ∷ cs) = let rest = trim_left cs in if is_space c then rest else c ∷ cs

unfoldable pub trim_right : Text → Text
trim_right [] = []
trim_right (c ∷ cs) =
    let rest = trim_right cs in if is_space c && text_eq rest [] then [] else c ∷ rest

-- `strings.TrimSpace`.
unfoldable pub trim_space : Text → Text
trim_space t = trim_right (trim_left t)

-- `strings.Join`.
unfoldable pub join_more : Text → List Text → Text
join_more sep [] = []
join_more sep (p ∷ ps) = sep ++ p ++ join_more sep ps

unfoldable pub join : Text → List Text → Text
join sep [] = []
join sep (p ∷ ps) = p ++ join_more sep ps

unfoldable pub every : (ℕ → Bool) → Text → Bool
every test [] = true
every test (c ∷ cs) = let rest = every test cs in if test c then rest else false

-- `strings.HasPrefix`.
unfoldable pub has_prefix : Text → Text → Bool
has_prefix s [] = true
has_prefix [] (p ∷ ps) = false
has_prefix (c ∷ cs) (p ∷ ps) = c == p && has_prefix cs ps

-- `strings.Contains`.
unfoldable pub contains_text : Text → Text → Bool
contains_text [] sub = text_eq sub []
contains_text (c ∷ cs) sub = has_prefix (c ∷ cs) sub || contains_text cs sub

-- `strings.ReplaceAll` of a text that is not empty, after `skip` more runes.
unfoldable pub replace_from : ℕ → Text → Text → Text → Text
replace_from skip [] old new = []
replace_from (suc skip) (c ∷ cs) old new = replace_from skip cs old new
replace_from zero (c ∷ cs) old new =
    let hit = has_prefix (c ∷ cs) old in
    let rest = replace_from (if hit then length old - 1 else 0) cs old new in
    if hit then new ++ rest else c ∷ rest

unfoldable pub replace_all : Text → Text → Text → Text
replace_all s old new = replace_from 0 s old new

-- The order of Go's `<` on strings.
unfoldable pub leb_text : Text → Text → Bool
leb_text [] t = true
leb_text (c ∷ cs) [] = false
leb_text (c ∷ cs) (d ∷ ds) = if c == d then leb_text cs ds else leb c d

-- `sort.Strings`.
unfoldable pub insert_text : Text → List Text → List Text
insert_text t [] = t ∷ []
insert_text t (x ∷ xs) =
    let rest = insert_text t xs in if leb_text t x then t ∷ x ∷ xs else x ∷ rest

unfoldable pub sort_texts : List Text → List Text
sort_texts [] = []
sort_texts (t ∷ ts) = insert_text t (sort_texts ts)

-- `len` of a string: the bytes of its UTF-8.
unfoldable pub byte_length : Text → ℕ
byte_length [] = 0
byte_length (c ∷ cs) =
    (if ltb c 128 then 1 else if ltb c 2048 then 2 else if ltb c 65536 then 3 else 4)
    + byte_length cs

-- The decimal digits of a number put before `out`. An `int` has 19 digits at most.
unfoldable pub show_digits : ℕ → ℕ → Text → Text
show_digits zero n out = out
show_digits (suc fuel) n out =
    let next = (48 + n % 10) ∷ out in
    let rest = show_digits fuel (n / 10) next in if n / 10 == 0 then next else rest

unfoldable pub show : ℤ → Text
show (pos n) = show_digits 20 n []
show (negsuc n) = 45 ∷ show_digits 20 (suc n) []

-- `strings.HasSuffix` of a slash.
unfoldable pub ends_in_slash : Text → Bool
ends_in_slash [] = false
ends_in_slash (c ∷ cs) = if text_eq cs [] then c == 47 else ends_in_slash cs
