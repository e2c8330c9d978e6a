-- ===== src/Config/Decoded.antt =====
-- proxy/config: what the YAML hooks of peers, filters and macros make of what is decoded. The URL
-- package reads a text where the argument `valid_url` says so.
use llmsnap.Config.{Fields, Filters, Value, MacroEntry, PeerConfig, mapping, field, end}
use llmsnap.Prelude.{
  List, Text, Bool, Option, [], if◌then◌else◌, ◌∷◌, Result, not, put, some, none, text_eq, err,
  length, ◌==◌, ok,
}

pub data PeerError : Type 0 where
  proxy_required invalid_peer_url models_required : PeerError

-- `PeerConfig.UnmarshalYAML`, where `decode` fills in what the YAML names.
unfoldable pub unmarshal_peer :
    (Text → Bool) → (PeerConfig → PeerConfig) → Result PeerError PeerConfig
unmarshal_peer valid_url decode =
    let peer = decode (record {
      proxy = [];
      api_key = [];
      models = [];
      filters = record { strip_params = []; set_params = [] };
    }) in
    if text_eq peer.proxy []
    then err proxy_required
    else if not (valid_url peer.proxy)
    then err invalid_peer_url
    else if length peer.models == 0
    then err models_required
    else ok peer

-- `ModelFilters.UnmarshalYAML`, with what the old name of the field holds; `none` is a value there that
-- is no text.
unfoldable pub unmarshal_filters : Filters → Option Text → Option Filters
unmarshal_filters decoded legacy =
    if not (text_eq decoded.strip_params [])
    then some decoded
    else elim legacy [ none ↦ none | some t ↦ some (record decoded { strip_params = t }) ]

-- `MacroList.UnmarshalYAML`: the entries of a mapping in their order; another node is an error.
unfoldable pub macro_entries : Fields → List MacroEntry
macro_entries end = []
macro_entries (field name value fs) = record { name = name; value = value } ∷ macro_entries fs

unfoldable pub unmarshal_macros : Value → Option (List MacroEntry)
unmarshal_macros (mapping fs) = some (macro_entries fs)
unmarshal_macros v = none

-- `MacroList.ToMap`: the last entry of a name stays.
unfoldable pub to_map_from : List (Text × Value) → List MacroEntry → List (Text × Value)
to_map_from result [] = result
to_map_from result (entry ∷ entries) = to_map_from (put entry.name entry.value result) entries

unfoldable pub to_map : List MacroEntry → List (Text × Value)
to_map entries = to_map_from [] entries
