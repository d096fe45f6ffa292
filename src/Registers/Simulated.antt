-- ===== src/Registers/Simulated.antt =====
-- A component over a simulated device, to try the models on: registers of one word, no scale
-- register, and a script of what the coming transactions do.
use fronius_modbus.Common.{ℕ, false, none, some, List, [], ◌∷◌, pos, if◌then◌else◌, ◌==◌}
use fronius_modbus.Exec.{Exec, ModbusError, modbus, ok, err}
use fronius_modbus.Registers.{Component}

-- `loses`: the device took the write, and its answer was lost.
pub data Outcome : Type 0 where
  answers fails loses : Outcome

-- A register by its number; the transactions after the script answer. The log holds the writes
-- that reached the device, the newest first.
pub record Device : Type 0 where
  pub word : ℕ → ℕ
  pub script : List Outcome
  pub log : List (ℕ × ℕ)

abbrev next : Device → Outcome × Device
next d = elim d.script [ [] ↦ (answers, d) | o ∷ rest ↦ (o, record d { script = rest }) ]

abbrev read : {A : Type 0} → (Device → A) → Exec Device A
read f d =
    let (o, d') = next d in
    elim o [ answers ↦ (ok (f d'), d') | _ ↦ (err (modbus ModbusError.timeout), d') ]

abbrev put : ℕ → ℕ → Device → Device
put n w d = record d { word = λ m. if n == m then w else d.word m; log = (n, w) ∷ d.log }

abbrev store : ℕ → ℕ → Exec Device (Unit {0})
store n w d =
    let (o, d') = next d in
    elim o [
      | answers ↦ (ok tt, put n w d')
      | fails ↦ (err (modbus ModbusError.timeout), d')
      | loses ↦ (err (modbus ModbusError.timeout), put n w d')
    ]

module _ {F V : Type 0} (number : F → ℕ) (to_word : V → ℕ) (of_word : F → ℕ → V) where
  abbrev pub simulated : Component Device F V
  simulated = record {
    has_scale = λ f. false;
    decode_int = λ w. pos w;
    encode = λ f v e. some (to_word v ∷ []);
    decode = λ f ws e. elim ws [ [] ↦ none | w ∷ _ ↦ some (of_word f w) ];
    read_words = λ f. read (λ d. d.word (number f) ∷ []);
    read_scale = λ f. read (λ d. 0);
    write = λ f v. store (number f) (to_word v);
    update = read (λ d. tt);
  }
