-- ===== src/Json.antt =====
-- What json.loads returns, as the code looks at it: an object is a list of its members, in order.
pub mod Laws
use fronius_modbus.Common.{Bool, true, false, Option, none, some, ℤ, pos, Float, if◌then◌else◌}
use Prim.Native.String.{String}
use text.Mathlib.Text.{◌==◌}

mutual
  pub data Json : Type 0 where
    null : Json
    bool : Bool → Json
    int : ℤ → Json
    float : Float → Json
    str : String → Json
    arr : Items → Json
    obj : Members → Json

  pub data Items : Type 0 where
    nil : Items
    cons : Json → Items → Items

  pub data Members : Type 0 where
    end : Members
    member : String → Json → Members → Members

-- `members.get(key)`, where None also stands for a member that is null.
unfoldable pub get : String → Members → Json
get key end = null
get key (member k v rest) = if k == key then v else get key rest

-- `value if isinstance(value, int) else None`: a bool is an int.
abbrev pub as_int : Json → Option ℤ
as_int (int n) = some n
as_int (bool true) = some (pos 1)
as_int (bool false) = some (pos 0)
as_int _ = none

-- `value if isinstance(value, str) else None`
abbrev pub as_text : Json → Option String
as_text (str s) = some s
as_text _ = none

-- `members.get(key, default)`, and `key in members`: a member that is null is there.
unfoldable pub find : String → Members → Option Json
find key end = none
find key (member k v rest) = if k == key then some v else find key rest

-- `{**members, key: value}`: a known key keeps its place.
unfoldable pub put : String → Json → Members → Members
put key v end = member key v end
put key v (member k w rest) =
    let others = put key v rest in if k == key then member k v rest else member k w others

-- `isinstance(value, dict)`
abbrev pub as_object : Json → Option Members
as_object (obj ms) = some ms
as_object _ = none

-- `value if isinstance(value, dict) else {}`
abbrev pub object_or_empty : Json → Members
object_or_empty (obj ms) = ms
object_or_empty _ = end

-- `{**members, **changes}`
unfoldable pub put_all : Members → Members → Members
put_all end ms = ms
put_all (member k v rest) ms = put_all rest (put k v ms)
