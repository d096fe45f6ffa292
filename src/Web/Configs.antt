-- ===== src/Web/Configs.antt =====
-- The inverter's configurations, as they are read and written back: the helpers of
-- froniuswebclient.py on them.
pub mod Laws
use Prim.Native.Char.{code}
use Prim.Native.String.{String}
use text.Mathlib.Text.{◌==◌}
use fronius_modbus.Common.{
  Bool, true, false, not, Option, none, some, List, [], ◌∷◌, ◌++◌, if◌then◌else◌,
}
use fronius_modbus.Common
use fronius_modbus.Json.{
  Json, null, bool, int, str, arr, obj, Items, nil, cons, Members, end, member, get, find,
  as_object,
}

-- `key.startswith("_")`
unfoldable pub is_description : String → Bool
is_description String.[] = false
is_description (String.◌∷◌ c s) = Common.◌==◌ (code c) b'_'

-- `_without_descriptions`, with its two comprehensions.
unfoldable mutual
  unfolding is_description

  pub without_descriptions : Json → Json
  without_descriptions (obj ms) = obj (described_members ms)
  without_descriptions (arr xs) = arr (described_items xs)
  without_descriptions null = null
  without_descriptions (bool b) = bool b
  without_descriptions (int n) = int n
  without_descriptions (Json.float x) = Json.float x
  without_descriptions (str s) = str s

  pub described_items : Items → Items
  described_items nil = nil
  described_items (cons v vs) = cons (without_descriptions v) (described_items vs)

  pub described_members : Members → Members
  described_members end = end
  described_members (member k v ms) =
      let rest = described_members ms in
      if is_description k then rest else member k (without_descriptions v) rest

-- `_config_object`; none is the error of an answer that is no object
unfoldable pub config_object : Json → Option Members
config_object payload = as_object (without_descriptions payload)

-- `config.get(key, default)`
abbrev pub or_else : Option Json → Json → Json
or_else (some v) d = v
or_else none d = d

-- `_nested_object`
unfoldable pub nested_object : Members → String → Option Members
nested_object config key = config_object (or_else (find key config) (obj end))

-- One key of the path of `_body_data`
abbrev pub step_into : String → Json → Json
step_into key (obj ms) = get key ms
step_into key _ = null

unfoldable pub walk_into : List String → Json → Json
walk_into [] v = v
walk_into (key ∷ path) v = walk_into path (step_into key v)

-- `_body_data`, without the name of the path; a payload that is no dict, and a path that ends at
-- no dict, have none
unfoldable pub body_data : Json → List String → Option Members
body_data (obj payload) path = as_object (walk_into path (obj payload))
body_data _ path = none

-- `_config_part` of web_control.py
unfoldable pub config_part : Option Members → String → Option Members
config_part none key = none
config_part (some config) key = as_object (or_else (find key config) (obj end))
