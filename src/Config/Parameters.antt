-- ===== src/Config/Parameters.antt =====
-- proxy/config/filters.go: the parameters that are stripped from a request, and those that are set.
use llmsnap.Config.{Filters, Value}
use llmsnap.Prelude.{
  List, Text, codes, if◌then◌else◌, ◌∷◌, [], contains, sort_texts, text_eq, trim_space, split, ◌||◌,
}

abbrev pub protected_params : List Text
protected_params = codes "model" ∷ []

-- The loop, with the parameters `seen` so far.
unfoldable pub clean_params : List Text → List Text → List Text
clean_params seen [] = []
clean_params seen (param ∷ params) =
    let trimmed = trim_space param in
    let skip = contains protected_params trimmed || text_eq trimmed [] || contains seen trimmed in
    let rest = clean_params (if skip then seen else trimmed ∷ seen) params in
    if skip then rest else trimmed ∷ rest

-- The empty list stands for nil too.
unfoldable pub sanitized_strip_params : Filters → List Text
sanitized_strip_params f =
    if text_eq f.strip_params [] then [] else sort_texts (clean_params [] (split 44 f.strip_params))

unfoldable pub unprotected : List (Text × Value) → List (Text × Value)
unprotected [] = []
unprotected ((key, value) ∷ params) =
    let rest = unprotected params in
    if contains protected_params key then rest else (key, value) ∷ rest

unfoldable pub param_keys : List (Text × Value) → List Text
param_keys [] = []
param_keys ((key, value) ∷ params) = key ∷ param_keys params

unfoldable pub sanitized_set_params : Filters → List (Text × Value) × List Text
sanitized_set_params f = let kept = unprotected f.set_params in (kept, sort_texts (param_keys kept))
