-- ===== src/Web/Tests.antt =====
-- The theorems of the client and of its parsers at concrete inputs, and runs of the code.
use Prim.Native.String.{String}
use text.Mathlib.Text.{◌==◌}
use fronius_modbus.Common.{◌≡◌, refl, Bool, true, false, none, some, [], ◌∷◌, pos, if◌then◌else◌}
use fronius_modbus.Exec.Meets.{Meets}
use fronius_modbus.Json.{Json, null, bool, int, str, obj, Members, end, member, get, find, put}
use fronius_modbus.MeterTopology.{Info, has_unit}
use fronius_modbus.Web.Simulated.{plain_words, server, kept_config}
use fronius_modbus.Web.Text.{Text}
use fronius_modbus.Web.Flags.{number, word, flag_value, is_enabled}
use fronius_modbus.Web.Client.{Settings, batteries_path, post_changes}
use fronius_modbus.Web.Configs.{
  is_description, body_data, walk_into, config_object, nested_object, without_descriptions,
}
use fronius_modbus.Web.Client.Changes.Merged.{Once, named}
use fronius_modbus.Web.Client.Changes.{Written, Others, post_changes-Written}
use fronius_modbus.Web.Client.Batteries.{soc_limits, set_soc_limits}
use fronius_modbus.Web.Client.Window.{Limited, set_soc_limits-Limited}
use fronius_modbus.Web.Tokens.{
  TokenStore, Token, api_usernames, canonical_host, token_key, load_all, move_roles, any_moved,
  move_tokens, load_token, save_token,
}
use fronius_modbus.Web.Tokens.Laws.{load_token-save_token, load_token-move_tokens}
use fronius_modbus.Web.ExportLimit.{soft_limit_place, with_block, limited, shown_soft_limit}
use fronius_modbus.Web.ExportLimit.Laws.{written-shown}
use fronius_modbus.Web.Meters.{
  first_of, parse_power_meter_info, info_of, with_primary, take_meters, take_meter, sorted_into,
  insert, no_later, meters_in, some_unplaced, read_node,
}
use fronius_modbus.Web.Meters.Laws.{OnceEach, parse_power_meter_info-Placed}
use fronius_modbus.Web.Modbus.{
  Wish, home_assistant, Decision, settled, writes, fails, decide, decide_parts, decide_wanted,
  parts_of, is_settled, needs_consent, mode_with_tcp, wanted_restriction,
}
use fronius_modbus.Web.Modbus.Restriction.{restriction_with, entries_of}
use fronius_modbus.Web.Modbus.Restriction.Laws.{comma_free}
use fronius_modbus.Web.Modbus.Laws.{IsAddress, decide_settles}

abbrev battery : Members
battery =
    member "BAT_M0_SOC_MIN" (int (pos 10))
      (member "BAT_M0_SOC_MAX" (int (pos 90)) (member "HYB_EM_MODE" (int (pos 0)) end))

abbrev manual_at_20 : Settings
manual_at_20 = ("BAT_M0_SOC_MODE", word "manual") ∷ ("BAT_M0_SOC_MIN", number (pos 20)) ∷ []

once : Once manual_at_20
unfolding named is_description
once = ((refl, refl), ((refl, refl), tt))

post_changes-Written_example :
    Meets
      (Written server batteries_path (kept_config batteries_path) plain_words manual_at_20 battery)
      (λ e.
        Others server batteries_path (kept_config batteries_path) plain_words manual_at_20 battery)
      (post_changes server plain_words batteries_path manual_at_20 battery)
post_changes-Written_example =
    post_changes-Written server batteries_path (kept_config batteries_path) plain_words manual_at_20
      once battery

set_soc_limits-Limited_example :
    Meets
      (Limited server (kept_config batteries_path) plain_words (some (pos 20)) none battery)
      (λ e.
        Others server batteries_path
          (kept_config batteries_path)
          plain_words
          (soc_limits (some (pos 20)) none)
          battery)
      (set_soc_limits server plain_words (some (pos 20)) none battery)
set_soc_limits-Limited_example =
    set_soc_limits-Limited server (kept_config batteries_path) plain_words (some (pos 20)) none
      battery

-- Firmware 1.42 and later: the limit stands in the block.
abbrev block : Members
block = member "exportLimit" (int (pos 5000)) (member "softLimit" (obj end) end)

written-shown_example :
    shown_soft_limit plain_words
      (some (with_block end end (limited (soft_limit_place block) block end (pos 3000))))
    ≡ some (pos 3000)
written-shown_example = written-shown plain_words end (pos 3000) end end block

-- Two meters; the second stands at the grid connection.
abbrev meter_at : String → String → Members
meter_at addr location =
    member "attributes"
      (obj (
        member "model" (str "Smart meter")
          (member "addr" (str addr) (member "meter-location" (str location) end))))
      end

abbrev two_meters : Json
two_meters = obj (
    member "Body"
      (obj (
        member "Data"
          (obj (member "0" (obj (meter_at "2" "1")) (member "1" (obj (meter_at "1" "0")) end)))
          end))
      end)

abbrev digit_words : Text
digit_words = record plain_words {
  int_of_text = λ s.
      if s == "1"
      then some (pos 1)
      else if s == "2"
      then some (pos 2)
      else if s == "0"
      then some (pos 0)
      else none;
}

abbrev two_units : Info
two_units = record {
  unit_ids = pos 200 ∷ pos 201 ∷ [];
  primary_unit_id = some (pos 200);
  locations_by_unit_id = (pos 200, pos 0) ∷ (pos 201, pos 1) ∷ [];
  incomplete = false;
}

two_meters_read : parse_power_meter_info digit_words (pos 200) two_meters ≡ some two_units
unfolding parse_power_meter_info body_data walk_into get find info_of with_primary take_meters
    take_meter sorted_into insert no_later meters_in some_unplaced read_node has_unit
two_meters_read = refl

parse_power_meter_info-Placed_example :
    (two_units.primary_unit_id ≡ first_of two_units.unit_ids) × OnceEach two_units.unit_ids
parse_power_meter_info-Placed_example =
    parse_power_meter_info-Placed digit_words (pos 200) two_meters two_units two_meters_read

-- Modbus is off, and one other host is on the list.
abbrev modbus_off : Members
modbus_off =
    member "slave"
      (obj (
        member "mode" (str "off") (
          member "ctr"
            (obj (
              member "on" (bool false) (
                member "restriction"
                  (obj (member "on" (bool true) (member "ip" (str "10.0.0.2") end))) end)))
            end)))
      end

abbrev asked : Wish
asked = record {
  port = pos 502;
  meter_address = pos 200;
  inverter_unit_id = pos 1;
  restriction = home_assistant;
  switch_sunspec_mode = false;
}

abbrev same_host : String → String → Bool
same_host entry address = entry == address

abbrev sent_of : Decision → Members
sent_of (writes p) = p
sent_of settled = end
sent_of (fails e) = end

abbrev modbus_written : Members
modbus_written = sent_of (decide plain_words same_host asked "10.0.0.7" modbus_off)

modbus_is_written : decide plain_words same_host asked "10.0.0.7" modbus_off ≡ writes modbus_written
unfolding decide decide_parts decide_wanted parts_of find get config_object nested_object
    without_descriptions is_settled needs_consent mode_with_tcp wanted_restriction restriction_with
    entries_of is_enabled flag_value
modbus_is_written = refl

own_host-IsAddress : IsAddress plain_words same_host home_assistant "10.0.0.7"
unfolding comma_free
own_host-IsAddress = ((refl, refl), refl)

decide_settles_example : decide plain_words same_host asked "10.0.0.7" modbus_written ≡ settled
decide_settles_example =
    decide_settles plain_words same_host asked modbus_written "10.0.0.7" own_host-IsAddress
      (λ v. refl) modbus_off modbus_is_written

-- One host in two spellings, on a store that was loaded.
abbrev small : String → String
small s = if s == "http://INV" then "http://inv" else s

abbrev kept_token : Token
kept_token = record { realm = "webinterface"; secret = "abc" }

abbrev loaded : TokenStore
loaded = record { cache = some end; file = null; save_due = false }

abbrev stored : TokenStore
stored = save_token (λ u. u) small "inv" kept_token "customer" loaded

load_token-save_token_example : (load_token (λ u. u) small "INV" "customer" stored).0 ≡ (
    if token_key (λ u. u) small "inv" "customer" == token_key (λ u. u) small "INV" "customer"
    then some kept_token
    else (load_token (λ u. u) small "INV" "customer" loaded).0)
load_token-save_token_example =
    load_token-save_token (λ u. u) small "inv" "customer" "INV" "customer" kept_token loaded

abbrev after_move : TokenStore
after_move = record stored {
  cache = some (
      move_roles (λ u. u) small api_usernames "inv" "INV"
        (put (token_key (λ u. u) small "inv" "customer")
          (obj (member "realm" (str "webinterface") (member "token" (str "abc") end))) end));
  save_due = true;
}

it_moved : move_tokens (λ u. u) small "inv" "INV" stored ≡ some after_move
unfolding move_tokens save_token load_all any_moved token_key canonical_host put get
it_moved = refl

one_host : canonical_host (λ u. u) small "inv" ≡ canonical_host (λ u. u) small "INV"
unfolding canonical_host
one_host = refl

load_token-move_tokens_example :
    (load_token (λ u. u) small "inv" "customer" after_move).0
    ≡ (load_token (λ u. u) small "inv" "customer" stored).0
load_token-move_tokens_example =
    load_token-move_tokens (λ u. u) small "inv" "INV" one_host "inv" "customer" stored after_move
      it_moved
