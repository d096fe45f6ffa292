-- ===== src/Events/Parse.antt =====
-- Event entries and their texts: the first half of inverter_events.py.
use Prim.Native.String.{String}
use text.Mathlib.Text.{◌==◌}
use fronius_modbus.Common.{
  Bool, true, false, Option, none, some, List, [], ◌∷◌, ℤ, pos, eqb_ℤ, if◌then◌else◌,
}
use fronius_modbus.Json.{
  Json, null, bool, int, str, arr, obj, Items, nil, cons, Members, end, member, get, as_int,
}

-- SEVERITIES and VIEWERS, by their values.
pub data Severity : Type 0 where
  error warning info : Severity

pub data Viewer : Type 0 where
  customer technician service : Viewer

pub record InverterEvent : Type 0 where
  pub uuid : String
  pub code : String
  pub label : String
  pub text_shown : String
  pub severity : Option Severity
  pub visible_to : Option Viewer
  pub started : ℤ
  pub ended : Option ℤ
  pub confirmable : Bool

-- A mapping from codes to texts.
abbrev pub Texts : Type 0
Texts = List (String × String)

unfoldable pub text_of : String → Texts → Option String
text_of code [] = none
text_of code ((k, t) ∷ rest) = if k == code then some t else text_of code rest

-- What Python's `str` and `str.replace(_SOFT_HYPHEN, "")` give, and the f-string of a code.
pub record Strings : Type 0 where
  pub to_str : Json → String
  pub without_hyphens : String → String
  pub code_of : Json → ℤ → String

-- `_level`, at the two tables
unfoldable pub severity_level : Json → Option Severity
severity_level v = elim (as_int v) [
  | none ↦ none
  | some n ↦
      if eqb_ℤ n (pos 1)
      then some error
      else if eqb_ℤ n (pos 2)
      then some warning
      else if eqb_ℤ n (pos 3)
      then some info
      else none
]

unfoldable pub viewer_level : Json → Option Viewer
viewer_level v = elim (as_int v) [
  | none ↦ none
  | some n ↦
      if eqb_ℤ n (pos 1)
      then some customer
      else if eqb_ℤ n (pos 2)
      then some technician
      else if eqb_ℤ n (pos 3)
      then some service
      else none
]

-- _NO_CODE
abbrev pub no_code : ℤ
no_code = pos 0xFFFFFFFF

-- `value is True`
abbrev pub is_true : Json → Bool
is_true (bool b) = b
is_true _ = false

-- `text or other`, of texts
abbrev pub or_text : Option String → String → String
or_text none other = other
or_text (some t) other = if t == "" then other else t

-- Whether `value or ""` is "": the values that Python takes for false.
abbrev pub is_empty : Json → Bool
is_empty null = true
is_empty (bool false) = true
is_empty (bool true) = false
is_empty (int n) = eqb_ℤ n (pos 0)
is_empty (Json.float x) = eqb_ℤ x (pos 0)
is_empty (str s) = s == ""
is_empty (arr nil) = true
is_empty (arr (cons _ _)) = false
is_empty (obj end) = true
is_empty (obj (member _ _ _)) = false

module _ (strings : Strings) where
  -- `{str(code): text.replace(...) for code, text in section.items() if isinstance(text, str)}`
  unfoldable pub texts_in : Members → Texts
  texts_in end = []
  texts_in (member k (str t) rest) = (k, strings.without_hyphens t) ∷ texts_in rest
  texts_in (member k null rest) = texts_in rest
  texts_in (member k (bool b) rest) = texts_in rest
  texts_in (member k (int n) rest) = texts_in rest
  texts_in (member k (Json.float x) rest) = texts_in rest
  texts_in (member k (arr xs) rest) = texts_in rest
  texts_in (member k (obj ms) rest) = texts_in rest

  unfoldable pub event_texts : Json → Texts
  unfolding texts_in
  event_texts (obj payload) = elim (get "StateCodes" payload) [
    | obj section ↦ texts_in section
    | _ ↦ []
  ]
  event_texts _ = []

  -- `str(entry.get("label") or "")`
  abbrev pub label_of : Json → String
  label_of v = if is_empty v then "" else strings.to_str v

  abbrev event_at : Members → Texts → ℤ → ℤ → InverterEvent
  event_at entry texts event_id started =
      let code = strings.code_of (get "prefix" entry) event_id in
      let label = label_of (get "label" entry) in
      record {
        uuid = strings.to_str (get "uuid" entry);
        code = code;
        label = label;
        text_shown = or_text (text_of code texts) (or_text (some label) code);
        severity = severity_level (get "severity" entry);
        visible_to = viewer_level (get "viewer" entry);
        started = started;
        ended = as_int (get "activeUntil" entry);
        confirmable = is_true (get "confirmable" entry);
      }

  -- `_event`
  unfoldable pub event_of : Members → Texts → Option InverterEvent
  event_of entry texts = elim (as_int (get "eventID" entry)) [
    | none ↦ none
    | some event_id ↦
        if eqb_ℤ event_id no_code then none else elim (as_int (get "timestamp" entry)) [
          | none ↦ none
          | some started ↦ some (event_at entry texts event_id started)
        ]
  ]

  -- The entries of the list that are events; an entry that is no object is passed over.
  unfoldable pub events_in : Items → Texts → List InverterEvent
  events_in nil texts = []
  events_in (cons entry rest) texts =
      let others = events_in rest texts in
      elim entry [
        | obj ms ↦ elim (event_of ms texts) [ none ↦ others | some e ↦ e ∷ others ]
        | _ ↦ others
      ]

  unfoldable pub parse_events : Json → Texts → Option (List InverterEvent)
  parse_events (arr entries) texts = some (events_in entries texts)
  parse_events _ texts = none
