-- ===== src/Prelude/Sorting.antt =====
-- Texts in the order of `sort.Strings`.
use mathlib.Core.Path.{◌≡◌, refl}
use mathlib.Core.Logic.{◌⊎◌, inl, inr}
use mathlib.Core.Bool.{true, ◌||◌}
use mathlib.Core.List.{List, [], ◌∷◌}
use native.Mathlib.Omega.{arith}
use llmsnap.Prelude.Texts.{Text, text_eq, contains}
use llmsnap.Prelude.Strings.{leb_text, insert_text, sort_texts}

abbrev pub Sorted : List Text → Type 0
Sorted [] = Unit {0}
Sorted (t ∷ []) = Unit {0}
Sorted (t ∷ u ∷ ts) = (leb_text t u ≡ true) × Sorted (u ∷ ts)

leb_text_total : (s t : Text) → (leb_text s t ≡ true) ⊎ (leb_text t s ≡ true)
unfolding leb_text
leb_text_total [] t = inl refl
leb_text_total (c ∷ cs) [] = inr refl
leb_text_total (c ∷ cs) (d ∷ ds) = ground (arith, leb_text_total cs ds)

insert_text-Sorted : (t : Text) (ts : List Text) → Sorted ts → Sorted (insert_text t ts)
unfolding insert_text
insert_text-Sorted t [] h = tt
insert_text-Sorted t (x ∷ []) h = elim (leb_text_total t x) [
  | inl e ↦ ground (arith, e)
  | inr e ↦ ground (arith, e)
]
insert_text-Sorted t (x ∷ y ∷ ts) h = elim (leb_text_total t x) [
  | inl e ↦ ground (arith, e, h, insert_text-Sorted t (y ∷ ts) h.1)
  | inr e ↦ ground (arith, e, h, insert_text-Sorted t (y ∷ ts) h.1)
]

pub sort_texts-Sorted : (ts : List Text) → Sorted (sort_texts ts)
unfolding sort_texts
sort_texts-Sorted [] = tt
sort_texts-Sorted (t ∷ ts) = insert_text-Sorted t (sort_texts ts) (sort_texts-Sorted ts)

pub contains-insert_text :
    (t : Text) (ts : List Text) (u : Text)
    → contains (insert_text t ts) u ≡ (text_eq t u || contains ts u)
unfolding contains insert_text
contains-insert_text t [] u = refl
contains-insert_text t (x ∷ xs) u = ground (arith, contains-insert_text t xs u)

pub contains-sort_texts : (ts : List Text) (u : Text) → contains (sort_texts ts) u ≡ contains ts u
unfolding contains sort_texts
contains-sort_texts [] u = refl
contains-sort_texts (t ∷ ts) u =
    ground (arith, contains-insert_text t (sort_texts ts) u, contains-sort_texts ts u)
