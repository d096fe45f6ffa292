-- ===== src/Web/Simulated.antt =====
-- An inverter that keeps one flat configuration, and plain texts, to try the models on.
use Prim.Native.String.{String}
use mathlib.Core.Path.{subst}
use fronius_modbus.Common.{
  Bool-cases, ◌≡◌, refl, sym, ap, ◌∙◌, inl, inr, Bool, true, false, not, ◌&&◌, Option, none, some,
  arith, if◌then◌else◌, leb, ◌-◌,
}
use fronius_modbus.Exec.{Result, ok}
use fronius_modbus.Json.{Json, null, bool, int, str, arr, obj, Members, end, member, get, put_all}
use fronius_modbus.Web.Text.{Text}
use fronius_modbus.Web.Configs.{
  is_description, config_object, without_descriptions, described_members,
}
use fronius_modbus.Web.Client.{Http, Response}
use fronius_modbus.Web.Client.Changes.{Keeper, config_in, is_good}

-- Texts as they are, decimal digits, and no parser.
abbrev pub plain_words : Text
plain_words = record {
  strip = λ s. s;
  lower = λ s. s;
  upper = λ s. s;
  casefold = λ s. s;
  to_str = λ v. "";
  equal = λ v w. true;
  digit = λ c. if leb b'0' c && leb c b'9' then some (c - b'0') else none;
  loads = λ s. none;
  int_of_text = λ s. none;
  float_of_text = λ s. none;
  int_of_float = λ x. none;
  int_below = λ n x. false;
  int_above = λ n x. false;
  int_is = λ n x. false;
}

abbrev pub is_scalar : Json → Bool
is_scalar (arr xs) = false
is_scalar (obj ms) = false
is_scalar _ = true

-- Only plain fields, and no descriptions.
unfoldable pub is_flat : Members → Bool
is_flat end = true
is_flat (member k v ms) = not (is_description k) && is_scalar v && is_flat ms

scalar_kept : (v : Json) → is_scalar v ≡ true → without_descriptions v ≡ v
unfolding without_descriptions
scalar_kept (arr xs) h = absurd (cc h)
scalar_kept (obj ms) h = absurd (cc h)
scalar_kept null h = refl
scalar_kept (bool b) h = refl
scalar_kept (int n) h = refl
scalar_kept (Json.float x) h = refl
scalar_kept (str s) h = refl

flat_kept : (ms : Members) → is_flat ms ≡ true → described_members ms ≡ ms
unfolding is_flat described_members
flat_kept end h = refl
flat_kept (member k v ms) h = ground (arith, scalar_kept v, flat_kept ms)

-- A flat configuration is answered; one that is not is an error of the server.
abbrev pub answer : Members → Response
answer s =
    if is_flat s
    then record { status = 200; body = some (obj s) }
    else record { status = 500; body = none }

abbrev pub merge : Option Json → Members → Members
merge (some (obj p)) s = put_all p s
merge _ s = s

abbrev pub server : Http Members
server = record {
  fetch = λ a path s. (ok (answer s), s);
  send = λ path payload s. (ok (record { status = 200; body = none }), merge payload s);
}

response-eq : (a b : Response) → Result.ok a ≡ ok b → a ≡ b
response-eq a b e = cc e

members-eq : (a b : Members) → some a ≡ some b → a ≡ b
members-eq a b e = cc e

read_back : (s : Members) → some (described_members s) ≡ config_object (obj s)
unfolding config_object without_descriptions
read_back s = refl

unread :
    (r : Response) → Result.ok (record { status = 500; body = none }) ≡ ok r → is_good r ≡ true → ⊥
unread r e g = cc (subst (λ x. is_good x ≡ true) (sym (response-eq _ r e)) g)

pub server_shows :
    (s : Members) (r : Response) (ms : Members)
    → Result.ok (answer s) ≡ ok r
    → is_good r ≡ true
    → config_in r.body ≡ some ms
    → (key : String) → is_description key ≡ false
    → get key ms ≡ get key s
server_shows s r ms e g c key d = elim (Bool-cases (is_flat s)) [
  | inl flat ↦
      let shown : record { status = 200; body = some (obj s) } ≡ r = response-eq _ r (
        subst
          (λ b.
            Result.ok (
              if b
              then record { status = 200; body = some (obj s) }
              else record { status = 500; body = none })
            ≡ ok r)
          flat e) in
      ap (get key) (
        sym (members-eq _ ms (read_back s ∙ ap (λ x. config_in x.body) shown ∙ c))
        ∙ flat_kept s flat)
  | inr wild ↦ absurd (
      unread r
        (subst
          (λ b.
            Result.ok (
              if b
              then record { status = 200; body = some (obj s) }
              else record { status = 500; body = none })
            ≡ ok r)
          wild e)
        g)
]

abbrev pub kept_config : (path : String) → Keeper server path
kept_config path = record {
  view = λ s. s;
  reads = λ a p s. refl;
  shows = server_shows;
  takes = λ p s r e g n. refl;
  whole = λ p s. inr refl;
}
