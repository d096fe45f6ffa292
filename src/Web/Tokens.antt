-- ===== src/Web/Tokens.antt =====
-- The stored logins of token_store.py: FroniusTokenStore, and async_forget_unused_tokens on the
-- config entries. The host application's Store is the field `file`; urlparse is a parameter.
pub mod Laws
use Prim.Native.String.{String, ◌++◌}
use text.Mathlib.Text.{◌==◌, find?}
use fronius_modbus.Common.{
  Bool, true, false, not, ◌||◌, Option, none, some, List, [], ◌∷◌, if◌then◌else◌,
}
use fronius_modbus.Json.{
  Json, null, bool, int, str, arr, obj, Members, end, member, get, put, object_or_empty,
}

-- API_USERNAMES
abbrev pub api_usernames : List String
api_usernames = "customer" ∷ "technician" ∷ []

-- `self._cache`, what the file holds, and whether a delayed save of the cache is due.
pub record TokenStore : Type 0 where
  pub cache : Option Members
  pub file : Json
  pub save_due : Bool

pub record Token : Type 0 where
  pub realm : String
  pub secret : String

-- A config entry: its host, and the role that it logs in with, if it has one.
pub record Entry : Type 0 where
  pub host : String
  pub role : Option String

-- `tokens.pop(key, None)`, of what stays
unfoldable pub remove : String → Members → Members
remove key end = end
remove key (member k v rest) =
    let others = remove key rest in if k == key then others else member k v others

abbrev pub has_scheme : String → Bool
has_scheme host = elim (find? host "://") [ none ↦ false | some i ↦ true ]

module _ (netloc lower : String → String) where
  unfoldable pub canonical_host : String → String
  canonical_host host =
      if has_scheme host then lower (netloc host) else lower (netloc ("http://" ++ host))

  unfoldable pub token_key : String → String → String
  unfolding canonical_host
  token_key host user = canonical_host host ++ (":" ++ user)

abbrev pub saved : Members → TokenStore → TokenStore
saved tokens s = record s { cache = some tokens; file = obj tokens }

-- A file that is there is written again, for its mode.
abbrev pub kept_file : Members → Json → Json
kept_file end file = file
kept_file (member k v rest) file = obj (member k v rest)

-- `_async_load_all` after its read of the file: a cache that came up meanwhile is kept.
abbrev pub loaded_over : Option Members → Members → TokenStore → Members × TokenStore
loaded_over (some tokens) loaded s = (tokens, s)
loaded_over none loaded s =
    (loaded, record s { cache = some loaded; file = kept_file loaded s.file })

-- `_async_load_all`
unfoldable pub load_all : TokenStore → Members × TokenStore
load_all s = loaded_over s.cache (object_or_empty s.file) s

abbrev pub token_of : Json → Json → Option Token
token_of (str realm) (str secret) = some (record { realm = realm; secret = secret })
token_of _ _ = none

-- The token in an entry of the store.
unfoldable pub token_in : Json → Option Token
token_in (obj token) = token_of (get "realm" token) (get "token" token)
token_in _ = none

abbrev pub is_none : Json → Bool
is_none null = true
is_none _ = false

-- One role of `move_tokens`
unfoldable pub move_token : String → String → Members → Members
move_token old_key new_key tokens =
    let token = get old_key tokens in
    let rest = remove old_key tokens in if is_none token then rest else put new_key token rest

module _ (netloc lower : String → String) where
  abbrev key_of : String → String → String
  key_of = token_key netloc lower

  -- The loop of `move_tokens`, and its `moved`
  unfoldable pub move_roles : List String → String → String → Members → Members
  move_roles [] old_host new_host tokens = tokens
  move_roles (role ∷ roles) old_host new_host tokens = move_roles roles old_host new_host (
      move_token (token_key netloc lower old_host role) (token_key netloc lower new_host role)
        tokens)

  unfoldable pub any_moved : List String → String → String → Members → Bool
  any_moved [] old_host new_host tokens = false
  any_moved (role ∷ roles) old_host new_host tokens =
      not (is_none (get (token_key netloc lower old_host role) tokens))
      || any_moved roles old_host new_host (
          move_token (token_key netloc lower old_host role) (token_key netloc lower new_host role)
            tokens)

  -- `move_tokens` on a cache; none is the error of a store that was not loaded
  abbrev pub move_in : String → String → TokenStore → Option Members → Option TokenStore
  move_in old_host new_host s none = none
  move_in old_host new_host s (some tokens) = some (record s {
    cache = some (move_roles api_usernames old_host new_host tokens);
    save_due = s.save_due || any_moved api_usernames old_host new_host tokens;
  })

  unfoldable pub move_tokens : String → String → TokenStore → Option TokenStore
  move_tokens old_host new_host s = move_in old_host new_host s s.cache

  unfoldable pub load_token : String → String → TokenStore → Option Token × TokenStore
  unfolding load_all
  load_token host user s =
      let (tokens, s') = load_all s in
      (token_in (get (token_key netloc lower host user) tokens), s')

  unfoldable pub save_token : String → Token → String → TokenStore → TokenStore
  unfolding load_all
  save_token host t user s =
      let (tokens, s') = load_all s in
      let token = member "realm" (str t.realm) (member "token" (str t.secret) end) in
      saved (put (token_key netloc lower host user) (obj token) tokens) s'

  unfoldable pub delete_token : String → String → TokenStore → TokenStore
  unfolding load_all
  delete_token host user s =
      let (tokens, s') = load_all s in
      let key = token_key netloc lower host user in
      if is_none (get key tokens)
      then record s' { cache = some (remove key tokens) }
      else saved (remove key tokens) s'

  -- Whether `in_use` has a role, of the entries that stand on the host.
  abbrev pub logs_in : Option String → String → Bool
  logs_in none role = true
  logs_in (some r) role = r == role

  unfoldable pub in_use : List Entry → String → String → Bool
  in_use [] host role = false
  in_use (e ∷ es) host role =
      let others = in_use es host role in
      if canonical_host netloc lower e.host == canonical_host netloc lower host
      then logs_in e.role role || others
      else others

  unfoldable pub forget_roles : List String → List Entry → String → TokenStore → TokenStore
  forget_roles [] es host s = s
  forget_roles (role ∷ roles) es host s =
      let kept = forget_roles roles es host s in
      let deleted = forget_roles roles es host (delete_token host role s) in
      if in_use es host role then kept else deleted

  -- `async_forget_unused_tokens`
  unfoldable pub forget_unused_tokens : List Entry → String → TokenStore → TokenStore
  forget_unused_tokens es host s = forget_roles api_usernames es host s
