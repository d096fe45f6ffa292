-- ===== src/Web/Modbus/Restriction.antt =====
-- The list of hosts that may use Modbus: `_restriction_with` of froniuswebclient.py.
pub mod Laws
use Prim.Native.Char.{Char, code}
use Prim.Native.String.{String, ◌++◌}
use text.Mathlib.Text.{◌==◌}
use fronius_modbus.Common
use fronius_modbus.Common.{Bool, true, false, not, ◌||◌, List, [], ◌∷◌, if◌then◌else◌}
use fronius_modbus.Json.{Json, null, bool, int, str, arr, obj, Members, get, put}
use fronius_modbus.Events.Parse.{is_empty}
use fronius_modbus.Web.Text.{Text}
use fronius_modbus.Web.Flags.{is_enabled}

-- `client in _network(entry)`, of the library ipaddress; false where the entry is no network
abbrev pub Networks : Type 0
Networks = String → String → Bool

-- A character in front of the first segment.
abbrev pub extend : Char → List String → List String
extend c [] = (String.◌∷◌ c "") ∷ []
extend c (w ∷ ws) = String.◌∷◌ c w ∷ ws

-- `text.split(RESTRICTION_LIST_SEPARATOR)`
unfoldable pub split : String → List String
split String.[] = "" ∷ []
split (String.◌∷◌ c s) =
    let rest = split s in if Common.◌==◌ (code c) b',' then "" ∷ rest else extend c rest

-- `[entry for entry in segments if entry]`
unfoldable pub nonempty : List String → List String
nonempty [] = []
nonempty (w ∷ ws) = let rest = nonempty ws in if w == "" then rest else w ∷ rest

-- `RESTRICTION_LIST_SEPARATOR.join(entries)`
unfoldable pub join : List String → String
join [] = ""
join (w ∷ []) = w
join (w ∷ v ∷ ws) = w ++ ("," ++ join (v ∷ ws))

unfoldable pub any_network : Networks → List String → String → Bool
any_network n [] address = false
any_network n (e ∷ es) address = n e address || any_network n es address

-- The list with the address, where no entry has it.
unfoldable pub with_address : Networks → List String → String → List String
with_address n es address = if any_network n es address then es else Common.◌++◌ es (address ∷ [])

module _ (t : Text) where
  -- `str(value or "")`
  abbrev pub text_of : Json → String
  text_of (str s) = s
  text_of v = if is_empty v then "" else t.to_str v

  unfoldable pub entries_of : Members → List String
  entries_of restriction =
      if is_enabled t (get "on" restriction)
      then nonempty (split (text_of (get "ip" restriction)))
      else []

  unfoldable pub restriction_with : Networks → Members → String → Members
  restriction_with n restriction address =
      put "ip" (str (join (with_address n (entries_of restriction) address)))
        (put "on" (bool true) restriction)
