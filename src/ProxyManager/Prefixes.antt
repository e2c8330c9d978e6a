-- ===== src/ProxyManager/Prefixes.antt =====
-- proxy/proxymanager.go: the model that a path starts with.
use llmsnap.ProxyManager.Paths.{find_in_parts, ModelPath, extend_name, find_model_in_path}
use llmsnap.Config.{Config, real_model_name}
use mathlib.Core.Path.{subst}
use mathlib.Core.List.{append-nil, append_assoc}
use mathlib.Core.Option.{some-injective}
use llmsnap.Prelude.{
  sym, refl, false, List, Text, join_more, if◌then◌else◌, ◌∷◌, [], text_eq, ◌≡◌, some, true, ℕ,
  ◌++◌, Option, codes, ◌⊎◌, Bool, join, none, ap, inl, inr, ◌∙◌, split, trim_space,
}

-- The parts of a path that are not empty.
abbrev pub nonempty : List Text → List Text
nonempty [] = []
nonempty (p ∷ ps) = if text_eq p [] then nonempty ps else p ∷ nonempty ps

-- A name with one more part, if that is not empty.
abbrev pub longer : Text → Text → Text
longer searched part = if text_eq part [] then searched else extend_name searched part

-- A name with more parts.
abbrev pub name_of : Text → List Text → Text
name_of searched [] = searched
name_of searched (p ∷ ps) = name_of (longer searched p) ps

-- No name on the way is a model's.
abbrev pub NoneNamed : Config → Text → List Text → Type 0
NoneNamed config searched [] = Unit {0}
NoneNamed config searched (p ∷ ps) =
    ((text_eq p [] ≡ true) ⊎ (real_model_name config (longer searched p) ≡ none))
    × NoneNamed config (longer searched p) ps

-- Where in the parts a model is found.
pub record FoundAt (config : Config) (searched : Text) (parts : List Text) (found : ModelPath)
    : Type 0 where
  pub before : List Text
  pub part : Text
  pub after : List Text
  pub parts_are : parts ≡ before ++ part ∷ after
  pub name_is : found.search_name ≡ name_of searched (before ++ part ∷ [])
  pub remaining_is : found.remaining_path ≡ codes "/" ++ join (codes "/") after
  pub real_is : real_model_name config found.search_name ≡ some found.real_name
  pub first : NoneNamed config searched before

later :
    (config : Config) (searched p : Text) (parts : List Text) (found : ModelPath)
    → ((text_eq p [] ≡ true) ⊎ (real_model_name config (longer searched p) ≡ none))
    → FoundAt config (longer searched p) parts found
    → FoundAt config searched (p ∷ parts) found
later config searched p parts found not_here at = record {
  before = p ∷ at.before;
  part = at.part;
  after = at.after;
  parts_are = ap (λ l. p ∷ l) at.parts_are;
  name_is = at.name_is;
  remaining_is = at.remaining_is;
  real_is = at.real_is;
  first = (not_here, at.first);
}

found_in_parts :
    (config : Config) (searched : Text) (parts : List Text) (found : ModelPath)
    → find_in_parts config searched parts ≡ some found
    → FoundAt config searched parts found
unfolding find_in_parts
found_in_parts config searched [] found h = cc
found_in_parts config searched (p ∷ parts) found h =
    by_part (text_eq p []) refl (found_in_parts config (longer searched p) parts found)
      (real_model_name config (longer searched p)) refl h
  where
    rest : Option ModelPath
    rest = find_in_parts config (longer searched p) parts

    by_part :
        (b : Bool)
        → text_eq p [] ≡ b
        → (rest ≡ some found → FoundAt config (longer searched p) parts found)
        → (x : Option Text) → real_model_name config (longer searched p) ≡ x
        → (if b then rest else elim x [
          | none ↦ rest
          | some model_id ↦ some (record {
            search_name = longer searched p;
            real_name = model_id;
            remaining_path = codes "/" ++ join (codes "/") parts;
          })
        ])
          ≡ some found
        → FoundAt config searched (p ∷ parts) found
    by_part true e more x f g = later config searched p parts found (inl e) (more g)
    by_part false e more none f g = later config searched p parts found (inr f) (more g)
    by_part false e more (some model_id) f g =
        let here : ModelPath = record {
          search_name = longer searched p;
          real_name = model_id;
          remaining_path = codes "/" ++ join (codes "/") parts;
        } in
        let same : here ≡ found = some-injective here found g in
        subst (FoundAt config searched (p ∷ parts)) same (record {
          before = [];
          part = p;
          after = parts;
          parts_are = refl;
          name_is = refl;
          remaining_is = refl;
          real_is = f;
          first = tt;
        })

-- The name of parts is the parts that are not empty, with slashes between them.
name_of_started :
    (c : ℕ) (cs : Text) (ps : List Text)
    → name_of (c ∷ cs) ps ≡ (c ∷ cs) ++ join_more (codes "/") (nonempty ps)
unfolding join_more extend_name text_eq
name_of_started c cs [] = sym (append-nil (c ∷ cs))
name_of_started c cs ([] ∷ ps) = name_of_started c cs ps
name_of_started c cs ((d ∷ ds) ∷ ps) =
    name_of_started c (cs ++ codes "/" ++ d ∷ ds) ps
    ∙ append_assoc (c ∷ (cs ++ codes "/")) (d ∷ ds) (join_more (codes "/") (nonempty ps))
    ∙ append_assoc (c ∷ cs) (codes "/") ((d ∷ ds) ++ join_more (codes "/") (nonempty ps))

name_of_all : (ps : List Text) → name_of [] ps ≡ join (codes "/") (nonempty ps)
unfolding join extend_name text_eq
name_of_all [] = refl
name_of_all ([] ∷ ps) = name_of_all ps
name_of_all ((d ∷ ds) ∷ ps) = name_of_started d ds ps

-- A model that is found in a path is named by the parts up to one of them, empty ones left out, with
-- slashes between them; what remains is the parts after it; and no shorter run of parts names a model.
pub find_model_in_path_lem :
    (config : Config) (path : Text) (found : ModelPath)
    → find_model_in_path config path ≡ some found
    → (at : FoundAt config [] (split 47 (trim_space path)) found) × (found.search_name
        ≡ join (codes "/") (nonempty (at.before ++ at.part ∷ [])))
unfolding find_model_in_path
find_model_in_path_lem config path found h =
    let at = found_in_parts config [] (split 47 (trim_space path)) found h in
    (at, at.name_is ∙ name_of_all (at.before ++ at.part ∷ []))
