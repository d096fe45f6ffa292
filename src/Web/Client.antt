-- ===== src/Web/Client.antt =====
-- The requests of FroniusWebClient of froniuswebclient.py. The library requests, with the login
-- digest that it carries, is the parameter Http.
pub mod Batteries
pub mod Changes
pub mod Window
pub mod Reads
use Prim.Native.String.{String}
use text.Mathlib.Text.{◌==◌}
use fronius_modbus.Common.{
  ℕ, Bool, true, false, not, ◌&&◌, ◌||◌, Option, none, some, List, [], ◌∷◌, ◌++◌, if◌then◌else◌,
  leb, ltb,
}
use fronius_modbus.Common
use fronius_modbus.Exec.{
  Exec, Error, web, auth_failed, response, modbus, bad_value, cancelled, sunspec, map_shift,
  refused, Result, ok, err, ◌>>=◌, ◌>>◌, pure, raise, gets, or_raise, guard, attempt,
}
use fronius_modbus.Json.{Json, null, obj, Members, end, member, get, find, put}
use fronius_modbus.Events.Parse.{is_empty}
use fronius_modbus.Web.Text.{Text}
use fronius_modbus.Web.Flags.{Setting, json_of, same}
use fronius_modbus.Web.Configs.{config_object}

-- `body` is none where `response.json()` raises a ValueError.
pub record Response : Type 0 where
  pub status : ℕ
  pub body : Option Json

pub record Http (W : Type 0) : Type 0 where
  -- `_http("get", url, auth=self._auth or None)` and `_http("post", url, json=payload)`
  pub fetch : Bool → String → Exec W Response
  pub send : String → Option Json → Exec W Response

abbrev pub batteries_path : String
batteries_path = "/api/config/batteries"

abbrev pub solar_api_path : String
solar_api_path = "/api/config/solar_api"

abbrev pub modbus_path : String
modbus_path = "/api/config/modbus"

abbrev pub power_limits_path : String
power_limits_path = "/api/config/limit_settings/powerLimits"

-- WRITE_REFUSALS
abbrev pub write_refusals : List String
write_refusals =
    "errors" ∷ "permissionFailure" ∷ "unknownNodes" ∷ "validationErrors" ∷ "writeFailure" ∷ []

-- Whether `{key: body[key] for key in WRITE_REFUSALS if body.get(key)}` names a field.
unfoldable pub names_refused : List String → Members → Bool
names_refused [] body = false
names_refused (key ∷ keys) body = not (is_empty (get key body)) || names_refused keys body

-- Whether `_refusal(response)` is not "".
unfoldable pub is_refusal : Option Json → Bool
unfolding names_refused
is_refusal (some (obj body)) = names_refused write_refusals body
is_refusal _ = false

-- `_without_refusal`: the two statuses of a rejected login, and those of `raise_for_status`
abbrev pub is_rejected : ℕ → Bool
is_rejected n = Common.◌==◌ n 401 || Common.◌==◌ n 403

abbrev pub is_error_status : ℕ → Bool
is_error_status n = leb 400 n && ltb n 600

-- The end of `_request`.
unfoldable pub checked : {W : Type 0} → Response → Exec W Response
checked r = do
  guard (not (is_rejected r.status)) (web auth_failed)
  guard (not (is_error_status r.status)) (web (response r.status))
  pure r

-- A dict of what a write sets.
abbrev pub Settings : Type 0
Settings = List (String × Setting)

-- `payload`, a dict that is sent
unfoldable pub payload_of : Settings → Members
payload_of [] = end
payload_of ((key, v) ∷ rest) = member key (json_of v) (payload_of rest)

-- The fields of `wanted` that `current` does not hold.
unfoldable pub changes_in : Text → Settings → Members → Settings
changes_in t [] current = []
changes_in t ((key, v) ∷ rest) current =
    let others = changes_in t rest current in
    if same t (get key current) v then others else (key, v) ∷ others

module _ {W : Type 0} (h : Http W) where
  unfoldable pub json : Response → Exec W Json
  json r = or_raise r.body bad_value

  -- `_get_json`, and with false `_get_public_json`
  unfoldable pub get_json : Bool → String → Exec W Json
  get_json authenticated path = do r ← h.fetch authenticated path; r' ← checked r; json r'

  -- `_post`
  unfoldable pub post : String → Option Json → Exec W (Unit {0})
  post path payload = do
    r ← h.send path payload
    r' ← checked r
    guard (not (is_refusal r'.body)) (web (response r'.status))

  -- `_config_object(self._get_json(path), path)`
  unfoldable pub get_config : String → Exec W Members
  get_config path = do v ← get_json true path; or_raise (config_object v) (web (response 200))

  -- `except FroniusWebResponseError, ValueError: return {}`
  unfoldable pub empty_if_unread : Result Members → Exec W Members
  empty_if_unread (ok ms) = pure ms
  empty_if_unread (err (web (response n))) = pure end
  empty_if_unread (err bad_value) = pure end
  empty_if_unread (err e) = raise e

  unfoldable pub read_or_nothing : String → Exec W Members
  read_or_nothing path = attempt (get_config path) empty_if_unread

  unfoldable pub post_if_any : String → Settings → Exec W Bool
  post_if_any path [] = pure false
  post_if_any path (c ∷ cs) = do post path (some (obj (payload_of (c ∷ cs)))); pure true

  module _ (t : Text) where
    -- `_post_changes` against a config that was read
    unfoldable pub post_changes_to : String → Settings → Members → Exec W Bool
    post_changes_to path wanted current = post_if_any path (changes_in t wanted current)

    -- `_post_changes` with no config given
    unfoldable pub post_changes : String → Settings → Exec W Bool
    post_changes path wanted = do
      current ← read_or_nothing path
      post_changes_to path wanted current
