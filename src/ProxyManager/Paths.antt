-- ===== src/ProxyManager/Paths.antt =====
-- proxy/proxymanager.go: a model's name at the front of a path.
use llmsnap.Config.{Config, real_model_name}
use llmsnap.Prelude.{
  Text, List, Option, if◌then◌else◌, [], none, text_eq, split, ◌++◌, ◌∷◌, codes, trim_space, some,
  join,
}

pub record ModelPath : Type 0 where
  pub search_name : Text
  pub real_name : Text
  pub remaining_path : Text

unfoldable pub extend_name : Text → Text → Text
extend_name searched part = if text_eq searched [] then part else searched ++ codes "/" ++ part

-- The loop over the parts, with the name searched for so far.
unfoldable pub find_in_parts : Config → Text → List Text → Option ModelPath
find_in_parts config searched [] = none
find_in_parts config searched (part ∷ parts) =
    let name = if text_eq part [] then searched else extend_name searched part in
    let rest = find_in_parts config name parts in
    if text_eq part [] then rest else elim (real_model_name config name) [
      | none ↦ rest
      | some model_id ↦ some (record {
        search_name = name;
        real_name = model_id;
        remaining_path = codes "/" ++ join (codes "/") parts;
      })
    ]

unfoldable pub find_model_in_path : Config → Text → Option ModelPath
find_model_in_path config path = find_in_parts config [] (split 47 (trim_space path))
