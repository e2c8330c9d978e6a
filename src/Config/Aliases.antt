-- ===== src/Config/Aliases.antt =====
-- proxy/config/config.go: what an alias stands for.
use llmsnap.Config.{ConfigError, ModelConfig}
use llmsnap.Config.Load.{add_aliases, alias_map}
use llmsnap.Prelude.{
  none, some, refl, ◌∷◌, [], false, true, err, ok, Bool, List, Option, find, Text, contains,
  has_key, Result, ◌≡◌, arith, if◌then◌else◌, text_eq_sound, ap, sym, ok-injective, ◌∙◌, ok-bind,
  or_else, or_else-none, has_key-find, or_else_assoc,
}

-- The first model that lists an alias.
abbrev pub owner : List (Text × ModelConfig) → Text → Option Text
owner [] a = none
owner ((model_name, m) ∷ models) a =
    if contains m.aliases a then some model_name else owner models a

alias_step :
    {A : Type 0}
    → (seen : Bool) (e : ConfigError) (rest : Result ConfigError A) {a : A}
    → (if seen then err e else rest) ≡ ok a
    → (seen ≡ false) × (rest ≡ ok a)
alias_step true e rest h = cc
alias_step false e rest h = (refl, h)

find-add_aliases :
    (model_name : Text) (more : List Text) (aliases : List (Text × Text)) (a : Text)
    {aliases' : List (Text × Text)}
    → add_aliases model_name more aliases ≡ ok aliases'
    → find a aliases' ≡ or_else (find a aliases) (if contains more a then some model_name else none)
unfolding add_aliases find contains
find-add_aliases model_name [] aliases a h =
    ap (find a) (sym (ok-injective h)) ∙ sym (or_else-none (find a aliases))
find-add_aliases model_name (b ∷ more) aliases a h =
    let both = alias_step (has_key b aliases) _ _ h in
    ground (
      arith,
      has_key-find b aliases both.0,
      text_eq_sound b a,
      ap (λ u. find u aliases) {x = b} {y = a},
      find-add_aliases model_name more ((b, model_name) ∷ aliases) a both.1,
    )

pub find-alias_map :
    (models : List (Text × ModelConfig)) (aliases : List (Text × Text)) (a : Text)
    {aliases' : List (Text × Text)}
    → alias_map models aliases ≡ ok aliases'
    → find a aliases' ≡ or_else (find a aliases) (owner models a)
unfolding alias_map
find-alias_map [] aliases a h =
    ap (find a) (sym (ok-injective h)) ∙ sym (or_else-none (find a aliases))
find-alias_map ((model_name, m) ∷ models) aliases a h =
    let first = ok-bind (add_aliases model_name m.aliases aliases) _ h in
    find-alias_map models first.0 a first.2
    ∙ ap (λ x. or_else x (owner models a)) (find-add_aliases model_name m.aliases aliases a first.1)
    ∙ or_else_assoc (find a aliases) _ (owner models a)
    ∙ ap (or_else (find a aliases)) (chosen (contains m.aliases a))
  where
    chosen :
        (b : Bool)
        → or_else (if b then some model_name else none) (owner models a)
          ≡ (if b then some model_name else owner models a)
    chosen true = refl
    chosen false = refl
