-- ===== src/Config/Members.antt =====
-- proxy/config/config.go: what the check of the groups' members lets through.
use llmsnap.Config.{GroupConfig, ConfigError}
use llmsnap.Config.Groups.{validate_members, is_grouped, validate_groups}
use llmsnap.Prelude.{
  some, Bool, List, find, Text, has_key, ℕ, if◌then◌else◌, ◌∷◌, ◌≡◌, none, ok, text_eq, ◌+◌, [],
  arith, false, refl, Option, contains, ok-bind, text_eq_sound, true, ◌≤◌, Result, ap, err,
  find-has_key,
}

-- How often a text stands in a list.
abbrev pub count : List Text → Text → ℕ
count [] t = 0
count (u ∷ us) t = (if text_eq u t then 1 else 0) + count us t

-- How often a model is a member, in all groups.
abbrev pub memberships : List (Text × GroupConfig) → Text → ℕ
memberships [] t = 0
memberships ((id, g) ∷ groups) t = count g.members t + memberships groups t

abbrev pub mark : Bool → ℕ
mark b = if b then 1 else 0

accepted :
    {A : Type 0}
    → (seen : Bool) (found : Option Text) (e : ConfigError) (e' : Text → ConfigError)
      (rest : Result ConfigError A) {a : A}
    → (if seen then err e else elim found [ some g ↦ err (e' g) | none ↦ rest ]) ≡ ok a
    → (found ≡ none) × (rest ≡ ok a)
accepted true found e e' rest h = cc
accepted false none e e' rest h = (refl, h)
accepted false (some g) e e' rest h = cc

count-validate_members :
    (id : Text) (seen : List Text) (usage : List (Text × Text)) (members : List Text) (t : Text)
    {usage' : List (Text × Text)}
    → validate_members id seen usage members ≡ ok usage'
    → count members t + mark (has_key t usage) ≡ mark (has_key t usage')
unfolding validate_members has_key
count-validate_members id seen usage [] t h = ground (arith, h)
count-validate_members id seen usage (m ∷ ms) t h =
    let both = accepted (contains seen m) (find m usage) _ _ _ h in
    ground (
      arith,
      find-has_key m usage both.0,
      text_eq_sound m t,
      ap (λ u. has_key u usage) {x = m} {y = t},
      count-validate_members id (m ∷ seen) ((m, id) ∷ usage) ms t both.1,
    )

memberships-validate_groups :
    (usage : List (Text × Text)) (groups : List (Text × GroupConfig)) (t : Text)
    {usage' : List (Text × Text)}
    → validate_groups usage groups ≡ ok usage'
    → memberships groups t + mark (has_key t usage) ≡ mark (has_key t usage')
unfolding validate_groups
memberships-validate_groups usage [] t h = ground (arith, h)
memberships-validate_groups usage ((id, g) ∷ groups) t h =
    let parts = ok-bind (validate_members id [] usage g.members) _ h in
    omega (
      arith,
      count-validate_members id [] usage g.members t parts.1,
      memberships-validate_groups parts.0 groups t parts.2,
    )

-- Groups that pass the check have each model as a member once at most, in all groups together.
pub memberships_le :
    (groups : List (Text × GroupConfig)) (t : Text) {usage : List (Text × Text)}
    → validate_groups [] groups ≡ ok usage
    → memberships groups t ≤ 1
memberships_le groups t {usage = usage} h =
    ground (arith, memberships-validate_groups [] groups t h)

count_pos : (ts : List Text) (t : Text) → contains ts t ≡ true → 1 ≤ count ts t
unfolding contains
count_pos [] t h = ground (arith, h)
count_pos (u ∷ us) t h = ground (arith, h, count_pos us t)

pub memberships_pos :
    (groups : List (Text × GroupConfig)) (t : Text)
    → is_grouped groups t ≡ true
    → 1 ≤ memberships groups t
unfolding is_grouped
memberships_pos [] t h = ground (arith, h)
memberships_pos ((id, g) ∷ groups) t h =
    ground (arith, h, count_pos g.members t, memberships_pos groups t)
