-- ===== src/Web/Tokens/Laws.antt =====
-- What the operations of token_store.py leave to be loaded.
use Prim.Native.String.{String, ◌++◌}
use text.Mathlib.Text.{◌==◌}
use text.Mathlib.TextEquality.{eq_iff}
use fronius_modbus.Common.{
  ◌≡◌, refl, sym, ap, ◌∙◌, true, Option, none, some, List, [], ◌∷◌, if◌then◌else◌, arith,
}
use fronius_modbus.Json.{Json, null, bool, int, str, arr, obj, Members, end, member, get}
use fronius_modbus.Json.Laws.{get-put}
use fronius_modbus.Web.Tokens.{
  TokenStore, Token, remove, canonical_host, token_key, load_all, token_in, is_none, move_token,
  move_roles, move_tokens, move_in, load_token, save_token, api_usernames,
}

get-remove :
    (key j : String) (ms : Members) → get j (remove key ms) ≡ (if key == j then null else get j ms)
unfolding get remove
get-remove key j end = ground arith
get-remove key j (member k v rest) =
    ground (arith, eq_iff key j, eq_iff k key, eq_iff k j, get-remove key j rest)

null_if_none : (v : Json) → is_none v ≡ true → null ≡ v
null_if_none null e = refl
null_if_none (bool b) e = absurd (cc e)
null_if_none (int n) e = absurd (cc e)
null_if_none (Json.float x) e = absurd (cc e)
null_if_none (str s) e = absurd (cc e)
null_if_none (arr xs) e = absurd (cc e)
null_if_none (obj ms) e = absurd (cc e)

-- A token that moves to its own key stays.
move_token-same : (key j : String) (ms : Members) → get j (move_token key key ms) ≡ get j ms
unfolding move_token
move_token-same key j ms = ground (
  arith,
  eq_iff key j,
  get-remove key j ms,
  null_if_none (get key ms),
  get-put key j (get key ms) (remove key ms),
)

module _ (netloc lower : String → String) where
  abbrev read_token : String → String → TokenStore → Option Token
  read_token host user s = (load_token netloc lower host user s).0

  abbrev written : Token → Json
  written t = obj (member "realm" (str t.realm) (member "token" (str t.secret) end))

  written_is_read : (t : Token) → token_in (written t) ≡ some t
  unfolding token_in get
  written_is_read t = refl

  -- What is loaded behind a save: for the same host, in whatever spelling, and the same role the
  -- token that was saved, and for every other key what was loaded before.
  pub load_token-save_token :
      (host user other_host other_user : String) (t : Token) (s : TokenStore)
      → read_token other_host other_user (save_token netloc lower host t user s) ≡ (
          if token_key netloc lower host user == token_key netloc lower other_host other_user
          then some t
          else read_token other_host other_user s)
  unfolding load_token save_token load_all
  load_token-save_token host user other_host other_user t s =
      let key = token_key netloc lower host user in
      let other = token_key netloc lower other_host other_user in
      ground (arith, written_is_read t, get-put key other (written t) (load_all s).0)

  module _ (old_host new_host : String)
      (same : canonical_host netloc lower old_host ≡ canonical_host netloc lower new_host) where
    same_key :
        (role : String)
        → token_key netloc lower old_host role ≡ token_key netloc lower new_host role
    unfolding token_key
    same_key role = ap (λ h. h ++ (":" ++ role)) same

    -- Moving a host to another spelling of it.
    moved_roles :
        (roles : List String) (j : String) (ms : Members)
        → get j (move_roles netloc lower roles old_host new_host ms) ≡ get j ms
    unfolding move_roles
    moved_roles [] j ms = refl
    moved_roles (role ∷ roles) j ms =
        let old_key = token_key netloc lower old_host role in
        moved_roles roles j _
        ∙ ap (λ key. get j (move_token old_key key ms)) (sym (same_key role))
        ∙ move_token-same old_key j ms

    moved_cache :
        (host user : String) (c : Option Members) (s t : TokenStore)
        → s.cache ≡ c
        → move_in netloc lower old_host new_host s c ≡ some t
        → read_token host user t ≡ read_token host user s
    unfolding load_token load_all
    moved_cache host user none s t e m = absurd (cc m)
    moved_cache host user (some ms) s t e m =
        let key = token_key netloc lower host user in
        let moved : some (move_roles netloc lower api_usernames old_host new_host ms) ≡ t.cache =
          cc m in
        ground (arith, moved, e, moved_roles api_usernames key ms)

    -- Moving a host to another spelling of itself loses no token: whatever is loaded afterwards is
    -- what was loaded before.
    pub load_token-move_tokens :
        (host user : String) (s t : TokenStore)
        → move_tokens netloc lower old_host new_host s ≡ some t
        → read_token host user t ≡ read_token host user s
    unfolding move_tokens
    load_token-move_tokens host user s t m = moved_cache host user s.cache s t refl m
