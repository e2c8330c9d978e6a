-- ===== src/Config/Stripped.antt =====
-- proxy/config/filters.go: what is left of the parameters to strip.
use llmsnap.Config.{Filters}
use llmsnap.Config.Parameters.{clean_params, protected_params, sanitized_strip_params}
use llmsnap.Prelude.{
  List, Text, insert_text, sort_texts, Bool, contains, map, ◌∷◌, contains-sort_texts, not,
  trim_space, ◌≡◌, false, ◌&&◌, ◌∙◌, [], arith, ◌||◌, contains-insert_text, refl, text_eq,
  text_eq_comm, Bool-cases, text_eq_refl, inl, Sorted, text_eq_sound, ap, split, codes, inr,
  if◌then◌else◌, sort_texts-Sorted, trim_left, trim_right,
}

-- The texts are different from each other.
abbrev pub Distinct : List Text → Type 0
Distinct [] = Unit {0}
Distinct (t ∷ ts) = (contains ts t ≡ false) × Distinct ts

insert_text-Distinct :
    (t : Text) (ts : List Text) → contains ts t ≡ false → Distinct ts → Distinct (insert_text t ts)
unfolding insert_text contains
insert_text-Distinct t [] e h = (refl, tt)
insert_text-Distinct t (x ∷ xs) e h =
    ground (arith, e, h, insert_text-Distinct t xs, contains-insert_text t xs x, text_eq_comm t x)

sort_texts-Distinct : (ts : List Text) → Distinct ts → Distinct (sort_texts ts)
unfolding sort_texts
sort_texts-Distinct [] h = tt
sort_texts-Distinct (t ∷ ts) h =
    insert_text-Distinct t (sort_texts ts) (contains-sort_texts ts t ∙ h.0)
      (sort_texts-Distinct ts h.1)

-- Whether a parameter may be stripped.
abbrev pub may_strip : Text → Bool
may_strip t = not (contains protected_params t || text_eq t [])

-- The parameters as they stand between the commas.
abbrev pub trimmed_params : List Text → List Text
trimmed_params params = map trim_space params

contains-clean_params :
    (seen params : List Text) (t : Text)
    → contains (clean_params seen params) t
      ≡ (contains (trimmed_params params) t && may_strip t && not (contains seen t))
unfolding clean_params contains
contains-clean_params seen [] t = refl
contains-clean_params seen (p ∷ ps) t = elim (Bool-cases (text_eq (trim_space p) t)) [
  | inl e ↦
      let same : trim_space p ≡ t = text_eq_sound (trim_space p) t e in
      ground (
        arith,
        e,
        ap (λ u. text_eq (codes "model") u) same,
        ap (λ u. text_eq u []) same,
        ap (contains seen) same,
        contains-clean_params seen ps t,
        contains-clean_params (trim_space p ∷ seen) ps t,
      )
  | inr e ↦
      ground (
        arith,
        e,
        contains-clean_params seen ps t,
        contains-clean_params (trim_space p ∷ seen) ps t,
      )
]

clean_params-Distinct : (seen params : List Text) → Distinct (clean_params seen params)
unfolding clean_params contains
clean_params-Distinct seen [] = tt
clean_params-Distinct seen (p ∷ ps) = ground (
  arith,
  contains-clean_params (trim_space p ∷ seen) ps (trim_space p),
  text_eq_refl (trim_space p),
  clean_params-Distinct seen ps,
  clean_params-Distinct (trim_space p ∷ seen) ps,
)

of_text :
    (s t : Text)
    → let params = if text_eq s [] then [] else sort_texts (clean_params [] (split 44 s)) in
      Sorted params
      × Distinct params
      × (contains params t ≡ (contains (trimmed_params (split 44 s)) t && may_strip t))
unfolding contains text_eq split trim_space trim_left trim_right
of_text [] t = (tt, tt, ground (arith, text_eq_comm t []))
of_text (c ∷ cs) t =
    let params = clean_params [] (split 44 (c ∷ cs)) in
    (
      sort_texts-Sorted params,
      sort_texts-Distinct params (clean_params-Distinct [] (split 44 (c ∷ cs))),
      contains-sort_texts params t ∙ ground (arith, contains-clean_params [] (split 44 (c ∷ cs)) t),
    )

-- The parameters to strip are in order, each once, and they are exactly those between the commas that
-- are neither empty nor protected: `model` is never stripped.
pub sanitized_strip_params_lem :
    (f : Filters) (t : Text)
    → Sorted (sanitized_strip_params f)
      × Distinct (sanitized_strip_params f)
      × (contains (sanitized_strip_params f) t
          ≡ (contains (trimmed_params (split 44 f.strip_params)) t && may_strip t))
unfolding sanitized_strip_params
sanitized_strip_params_lem f t = of_text f.strip_params t
