-- ===== src/Config/Groups.antt =====
-- proxy/config/config.go: the default group, and the check of the groups' members.
use llmsnap.Config.{Config, GroupConfig, ConfigError, duplicate_member, member_in_groups}
use llmsnap.Prelude.{
  some, none, ◌>>=◌, List, Text, Bool, Result, codes, true, ◌∷◌, false, if◌then◌else◌, [], contains,
  ok, sort_texts, err, keys_of, ◌||◌, put, find,
}

abbrev pub default_group_id : Text
default_group_id = codes "(default)"

-- `UnmarshalYAML` of a group, where `decode` fills in what the YAML names.
unfoldable pub unmarshal_group : (GroupConfig → GroupConfig) → GroupConfig
unmarshal_group decode =
    decode (record { swap = true; exclusive = true; persistent = false; members = [] })

-- The search for a model in the groups.
unfoldable pub is_grouped : List (Text × GroupConfig) → Text → Bool
is_grouped [] model_name = false
is_grouped ((id, g) ∷ groups) model_name =
    contains g.members model_name || is_grouped groups model_name

unfoldable pub orphans : List (Text × GroupConfig) → List Text → List Text
orphans groups [] = []
orphans groups (model_name ∷ names) =
    let rest = orphans groups names in
    if is_grouped groups model_name then rest else model_name ∷ rest

-- `AddDefaultGroupToConfig`; with no group, every model is an orphan.
unfoldable pub add_default_group_to_config : Config → Config
add_default_group_to_config config =
    let default_group : GroupConfig = record {
      swap = true;
      exclusive = true;
      persistent = false;
      members = sort_texts (orphans config.groups (keys_of config.models));
    } in
    record config { groups = put default_group_id default_group config.groups }

-- The loop over a group's members: those `seen` in the group, and the group that uses each.
unfoldable pub validate_members :
    Text → List Text → List (Text × Text) → List Text → Result ConfigError (List (Text × Text))
validate_members group_id seen usage [] = ok usage
validate_members group_id seen usage (member ∷ members) =
    let rest = validate_members group_id (member ∷ seen) ((member, group_id) ∷ usage) members in
    if contains seen member
    then err (duplicate_member member group_id)
    else elim (find member usage) [
      | some existing ↦ err (member_in_groups member existing group_id)
      | none ↦ rest
    ]

unfoldable pub validate_groups :
    List (Text × Text) → List (Text × GroupConfig) → Result ConfigError (List (Text × Text))
validate_groups usage [] = ok usage
validate_groups usage ((group_id, g) ∷ groups) = do
  usage' ← validate_members group_id [] usage g.members
  validate_groups usage' groups
