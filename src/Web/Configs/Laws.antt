-- ===== src/Web/Configs/Laws.antt =====
-- What is written back holds no description, at any depth, and nothing else is lost.
use Prim.Native.String.{String}
use text.Mathlib.Text.{◌==◌}
use mathlib.Core.Path.{subst}
use fronius_modbus.Common.{◌≡◌, refl, false, some, ap, Bool-cases, inl, inr}
use fronius_modbus.Json.{
  Json, null, bool, int, str, arr, obj, Items, nil, cons, Members, end, member, find, put,
  as_object,
}
use fronius_modbus.Web.Configs.{
  is_description, without_descriptions, described_items, described_members, config_object,
  nested_object, or_else,
}

some-eq : {A : Type 0} (a b : A) → some a ≡ some b → a ≡ b
some-eq a b e = cc e

-- No key of the value is a description.
abbrev mutual
  IsBare : Json → Type 0
  IsBare (obj ms) = BareMembers ms
  IsBare (arr xs) = BareItems xs
  IsBare _ = Unit

  BareItems : Items → Type 0
  BareItems nil = Unit
  BareItems (cons v vs) = IsBare v × BareItems vs

  pub BareMembers : Members → Type 0
  BareMembers end = Unit
  BareMembers (member k v ms) = (is_description k ≡ false) × IsBare v × BareMembers ms

mutual
  unfolding without_descriptions described_items described_members

  value-IsBare : (v : Json) → IsBare (without_descriptions v)
  value-IsBare (obj ms) = members-IsBare ms
  value-IsBare (arr xs) = items-IsBare xs
  value-IsBare null = tt
  value-IsBare (bool b) = tt
  value-IsBare (int n) = tt
  value-IsBare (Json.float x) = tt
  value-IsBare (str s) = tt

  items-IsBare : (xs : Items) → BareItems (described_items xs)
  items-IsBare nil = tt
  items-IsBare (cons v vs) = (value-IsBare v, items-IsBare vs)

  members-IsBare : (ms : Members) → BareMembers (described_members ms)
  members-IsBare end = tt
  members-IsBare (member k v ms) = elim (Bool-cases (is_description k)) [
    | inl h ↦ rw h (members-IsBare ms)
    | inr h ↦ rw h (h, value-IsBare v, members-IsBare ms)
  ]

mutual
  unfolding without_descriptions described_items described_members

  bare_value : (v : Json) → IsBare v → without_descriptions v ≡ v
  bare_value (obj ms) h = ap (λ x. obj x) (bare_members ms h)
  bare_value (arr xs) h = ap (λ x. arr x) (bare_items xs h)
  bare_value null h = refl
  bare_value (bool b) h = refl
  bare_value (int n) h = refl
  bare_value (Json.float x) h = refl
  bare_value (str s) h = refl

  bare_items : (xs : Items) → BareItems xs → described_items xs ≡ xs
  bare_items nil h = refl
  bare_items (cons v vs) h = cc (bare_value v h.0, bare_items vs h.1)

  bare_members : (ms : Members) → BareMembers ms → described_members ms ≡ ms
  bare_members end h = refl
  bare_members (member k v ms) h = rw h.0 (cc (bare_value v h.1, bare_members ms h.2))

-- A config as it is written back has no description at any depth; one that has none is kept as it
-- is, so a second pass changes nothing.
without_descriptions-IsBare :
    (v : Json)
    → IsBare (without_descriptions v)
      × (without_descriptions (without_descriptions v) ≡ without_descriptions v)
without_descriptions-IsBare v =
    (value-IsBare v, bare_value (without_descriptions v) (value-IsBare v))

bare_kept : (v : Json) → IsBare v → without_descriptions v ≡ v
bare_kept = bare_value

-- A part that was read has no description.
pub config_object-IsBare : (v : Json) (ms : Members) → config_object v ≡ some ms → BareMembers ms
unfolding config_object without_descriptions
config_object-IsBare (obj xs) ms e = subst BareMembers (some-eq _ ms e) (members-IsBare xs)
config_object-IsBare (arr xs) ms e = absurd (cc e)
config_object-IsBare null ms e = absurd (cc e)
config_object-IsBare (bool b) ms e = absurd (cc e)
config_object-IsBare (int n) ms e = absurd (cc e)
config_object-IsBare (Json.float x) ms e = absurd (cc e)
config_object-IsBare (str s) ms e = absurd (cc e)

pub put-IsBare :
    (k : String) (v : Json) (ms : Members)
    → is_description k ≡ false
    → IsBare v
    → BareMembers ms
    → BareMembers (put k v ms)
unfolding put
put-IsBare k v end d b h = (d, b, tt)
put-IsBare k v (member j w ms) d b h = elim (Bool-cases (j == k)) [
  | inl e ↦ rw e (h.0, b, h.2)
  | inr e ↦ rw e (h.0, h.1, put-IsBare k v ms d b h.2)
]

pub find-IsBare :
    (k : String) (d : Json) (ms : Members)
    → IsBare d
    → BareMembers ms
    → IsBare (or_else (find k ms) d)
unfolding find
find-IsBare k d end b h = b
find-IsBare k d (member j w ms) b h = elim (Bool-cases (j == k)) [
  | inl e ↦ rw e h.1
  | inr e ↦ rw e (find-IsBare k d ms b h.2)
]

pub object_back : (ms : Members) → BareMembers ms → config_object (obj ms) ≡ some ms
unfolding config_object
object_back ms h = ap as_object (bare_value (obj ms) h)

-- A part without descriptions is read as it is.
pub nested_back :
    (config : Members) (k : String) (ms : Members)
    → find k config ≡ some (obj ms)
    → BareMembers ms
    → nested_object config k ≡ some ms
unfolding nested_object
nested_back config k ms e h = rw e (object_back ms h)
