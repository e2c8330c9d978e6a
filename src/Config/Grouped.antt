-- ===== src/Config/Grouped.antt =====
-- proxy/config/config.go: the groups after the default one is added.
use llmsnap.Config.{Config, GroupConfig}
use llmsnap.Prelude.{
  List, Text, has_key, contains, put, ◌≡◌, false, keys_of, ◌&&◌, ◌||◌, not, ◌∷◌, Bool-cases, [],
  arith, if◌then◌else◌, ◌∙◌, ap, refl, text_eq, text_eq_sound, contains-sort_texts, inl, inr, IsMap,
}
use llmsnap.Config.Groups.{add_default_group_to_config, is_grouped, orphans, default_group_id}

contains-orphans :
    (groups : List (Text × GroupConfig)) (names : List Text) (t : Text)
    → contains (orphans groups names) t ≡ (contains names t && not (is_grouped groups t))
unfolding orphans contains
contains-orphans groups [] t = refl
contains-orphans groups (n ∷ ns) t =
    ground (
      arith,
      contains-orphans groups ns t,
      text_eq_sound n t,
      ap (is_grouped groups) {x = n} {y = t},
    )

-- The groups of other names.
abbrev pub without : Text → List (Text × GroupConfig) → List (Text × GroupConfig)
without id [] = []
without id ((k, g) ∷ groups) =
    if text_eq k id then without id groups else (k, g) ∷ without id groups

pub without_absent :
    (id : Text) (groups : List (Text × GroupConfig))
    → has_key id groups ≡ false
    → without id groups ≡ groups
unfolding has_key
without_absent id [] h = refl
without_absent id ((k, g) ∷ groups) h = ground (arith, h, without_absent id groups)

is_grouped-put :
    (id : Text) (g : GroupConfig) (groups : List (Text × GroupConfig)) (t : Text)
    → IsMap groups
    → is_grouped (put id g groups) t ≡ (contains g.members t || is_grouped (without id groups) t)
unfolding is_grouped put
is_grouped-put id g [] t h = refl
is_grouped-put id g ((k, k_group) ∷ groups) t h = elim (Bool-cases (text_eq k id)) [
  | inl e ↦
      ground
        (arith, e, without_absent id groups, ap (λ u. has_key u groups) (text_eq_sound k id e), h.0)
  | inr e ↦ ground (arith, e, is_grouped-put id g groups t h.1)
]

-- After the default group is set, a model is in a group where a group of another name has it, or where
-- it is a model that no group of the configuration had.
pub is_grouped-add_default_group :
    (config : Config) (t : Text)
    → IsMap config.groups
    → is_grouped (add_default_group_to_config config).groups t ≡ (
        contains (keys_of config.models) t && not (is_grouped config.groups t)
        || is_grouped (without default_group_id config.groups) t)
unfolding add_default_group_to_config
is_grouped-add_default_group config t h =
    is_grouped-put default_group_id _ config.groups t h
    ∙ ap (λ b. b || is_grouped (without default_group_id config.groups) t)
        (contains-sort_texts (orphans config.groups (keys_of config.models)) t
          ∙ contains-orphans config.groups (keys_of config.models) t)
