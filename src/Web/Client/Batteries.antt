-- ===== src/Web/Client/Batteries.antt =====
-- The battery settings that FroniusWebClient of froniuswebclient.py reads and writes.
use Prim.Native.String.{String}
use fronius_modbus.Common.{
  Bool, true, false, not, ◌&&◌, Option, none, some, [], ◌∷◌, ◌++◌, ℤ, ltb_ℤ,
}
use fronius_modbus.Exec.{
  Exec, web, response, refused, soc_minimum_above_maximum, ◌>>=◌, ◌>>◌, pure, guard,
}
use fronius_modbus.Json.{Json, int, Members, get}
use fronius_modbus.Web.Text.{Text}
use fronius_modbus.Web.Flags.{flag, number, word, is_number}
use fronius_modbus.Web.Client.{
  Http, Settings, batteries_path, get_json, get_config, post_changes, post_changes_to,
}

-- `value if value is not None else current.get(key)`
abbrev pub or_held : Option ℤ → String → Members → Json
or_held (some n) key current = int n
or_held none key current = get key current

-- `lower > upper` of two numbers
unfoldable pub is_above : Text → Json → Json → Bool
is_above t (int a) (int b) = ltb_ℤ b a
is_above t (int a) (Json.float y) = t.int_above a y
is_above t (Json.float x) (int b) = t.int_below b x
is_above t (Json.float x) (Json.float y) = ltb_ℤ y x
is_above t _ _ = false

-- `{key: int(value) for ... if value is not None}` of one key
abbrev pub number_if : String → Option ℤ → Settings
number_if key (some n) = (key, number n) ∷ []
number_if key none = []

abbrev pub flag_if : String → Option Bool → Settings
flag_if key (some b) = (key, flag b) ∷ []
flag_if key none = []

-- `wanted` of `set_soc_limits`
unfoldable pub soc_limits : Option ℤ → Option ℤ → Settings
soc_limits soc_min soc_max =
    number_if "BAT_M0_SOC_MIN" soc_min ++ number_if "BAT_M0_SOC_MAX" soc_max

module _ {W : Type 0} (h : Http W) (t : Text) where
  unfoldable pub check_soc_window : Option ℤ → Option ℤ → Exec W Members
  check_soc_window soc_min soc_max = do
    current ← get_config h batteries_path
    let lower = or_held soc_min "BAT_M0_SOC_MIN" current
    let upper = or_held soc_max "BAT_M0_SOC_MAX" current
    guard (is_number lower && is_number upper) (web (response 200))
    guard (not (is_above t lower upper)) (refused soc_minimum_above_maximum)
    pure current

  unfoldable pub set_soc_limits : Option ℤ → Option ℤ → Exec W Bool
  set_soc_limits soc_min soc_max = do
    current ← check_soc_window soc_min soc_max
    post_changes_to h t batteries_path (soc_limits soc_min soc_max) current

  unfoldable pub set_battery_config : ℤ → Exec W Bool
  set_battery_config mode = post_changes h t batteries_path (("HYB_EM_MODE", number mode) ∷ [])

  unfoldable pub set_battery_power : ℤ → Exec W Bool
  set_battery_power power = post_changes h t batteries_path (("HYB_EM_POWER", number power) ∷ [])

  unfoldable pub set_soc_mode : String → Exec W Bool
  set_soc_mode mode = post_changes h t batteries_path (("BAT_M0_SOC_MODE", word mode) ∷ [])

  unfoldable pub set_backup_reserve : ℤ → Exec W Bool
  set_backup_reserve percent =
      post_changes h t batteries_path (("HYB_BACKUP_RESERVED", number percent) ∷ [])

  unfoldable pub set_battery_charge_sources : Option Bool → Option Bool → Exec W Bool
  set_battery_charge_sources from_grid from_ac =
      post_changes h t batteries_path
        (flag_if "HYB_EVU_CHARGEFROMGRID" from_grid ++ flag_if "HYB_BM_CHARGEFROMAC" from_ac)

  unfoldable pub get_battery_config : Exec W Json
  get_battery_config = get_json h true batteries_path
