-- ===== src/Config.antt =====
-- proxy/config: the data of a configuration. Machine integers are ℤ, strings are texts, and a map is
-- an association list with each key once.
pub mod Macros
pub mod Unknown
pub mod Commands
pub mod Endpoints
pub mod Decoded
pub mod Parameters
pub mod Groups
pub mod Models
pub mod Load
pub mod Env
pub mod Quoting
pub mod Lines
pub mod Overrides
pub mod Stripped
pub mod Grouped
pub mod Members
pub mod Loaded
pub mod Aliases
pub mod Whole
pub mod Reserved
pub mod Accepted
pub mod Closed
pub mod Ports
mod Tests
use llmsnap.Prelude.{
  ℤ, Bool, Option, none, some, List, [], ◌∷◌, Text, text_eq, if◌then◌else◌, find, has_key,
}

-- `any`, as the YAML decoder fills it. Numbers keep the text that `%v` prints.
mutual
  pub data Value : Type 0 where
    str : Text → Value
    int : ℤ → Value
    float : Text → Value
    bool : Bool → Value
    null : Value
    slice : Values → Value
    mapping : Fields → Value

  pub data Values : Type 0 where
    nil : Values
    cons : Value → Values → Values

  pub data Fields : Type 0 where
    end : Fields
    field : Text → Value → Fields → Fields

pub record MacroEntry : Type 0 where
  pub name : Text
  pub value : Value

pub record HttpEndpoint : Type 0 where
  pub endpoint : Text
  pub method : Text
  pub body : Text
  pub timeout : ℤ

pub record Filters : Type 0 where
  pub strip_params : Text
  pub set_params : List (Text × Value)

pub record ModelConfig : Type 0 where
  pub cmd : Text
  pub cmd_stop : Text
  pub proxy : Text
  pub aliases : List Text
  pub env : List Text
  pub check_endpoint : Text
  pub unload_after : ℤ
  pub unlisted : Bool
  pub use_model_name : Text
  pub sleep_mode : Text
  pub sleep_endpoints : List HttpEndpoint
  pub wake_endpoints : List HttpEndpoint
  pub name : Text
  pub description : Text
  pub concurrency_limit : ℤ
  pub filters : Filters
  pub macros : List MacroEntry
  pub metadata : Fields
  pub send_loading_state : Option Bool

pub record GroupConfig : Type 0 where
  pub swap : Bool
  pub exclusive : Bool
  pub persistent : Bool
  pub members : List Text

-- `MacroList.Get`.
unfoldable pub get_macro : List MacroEntry → Text → Option Value
get_macro [] name = none
get_macro (entry ∷ entries) name =
    if text_eq entry.name name then some entry.value else get_macro entries name

-- The errors that a configuration is refused with, by what their messages name.
pub data ConfigError : Type 0 where
  start_port_too_small log_to_stdout_invalid empty_api_key empty_command : ConfigError
  api_key_with_space : Text → ConfigError
  duplicate_alias : Text → Text → ConfigError
  macro_name_too_long macro_name_invalid macro_value_too_long : Text → ConfigError
  macro_self_reference env_invalid macro_invalid_type macro_reserved : Text → ConfigError
  unknown_macro env_not_set should_have_been_substituted : Text → ConfigError
  proxy_port_without_cmd invalid_proxy_url : Text → ConfigError
  duplicate_member : Text → Text → ConfigError
  member_in_groups : Text → Text → Text → ConfigError

pub record PeerConfig : Type 0 where
  pub proxy : Text
  pub api_key : Text
  pub models : List Text
  pub filters : Filters

-- `preload` is `Hooks.OnStartup.Preload`. The aliases are filled in by the loading.
pub record Config : Type 0 where
  pub health_check_timeout : ℤ
  pub sleep_request_timeout : ℤ
  pub wake_request_timeout : ℤ
  pub log_requests : Bool
  pub log_level : Text
  pub log_time_format : Text
  pub log_to_stdout : Text
  pub metrics_max_in_memory : ℤ
  pub capture_buffer : ℤ
  pub models : List (Text × ModelConfig)
  pub groups : List (Text × GroupConfig)
  pub macros : List MacroEntry
  pub aliases : List (Text × Text)
  pub start_port : ℤ
  pub preload : List Text
  pub send_loading_state : Bool
  pub include_aliases_in_list : Bool
  pub required_api_keys : List Text
  pub peers : List (Text × PeerConfig)

-- `RealModelName`: a model's own name, or what an alias stands for.
unfoldable pub real_model_name : Config → Text → Option Text
real_model_name config search =
    if has_key search config.models then some search else find search config.aliases

unfoldable pub find_real : Config → Option Text → Option (Option ModelConfig × Text)
find_real config none = none
find_real config (some name) = some (find name config.models, name)

-- `FindConfig`; the model is the zero one if the map has none of the name.
unfoldable pub find_config : Config → Text → Option (Option ModelConfig × Text)
find_config config model_name = find_real config (real_model_name config model_name)
