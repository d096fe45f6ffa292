-- ===== src/Web/Modbus/Laws.antt =====
-- Once `ensure_modbus_enabled` of froniuswebclient.py has written, nothing is left to write.
use Prim.Native.String.{String}
use text.Mathlib.Text.{◌==◌}
use mathlib.Core.Path.{subst}
use fronius_modbus.Common.{
  ◌≡◌, refl, sym, ap, ◌∙◌, ◌⊎◌, inl, inr, Bool, true, false, ◌||◌, Option, none, some, ℤ, eqb_ℤ,
  arith, Bool-cases,
}
use fronius_modbus.Json.{Json, null, bool, int, str, arr, obj, nil, Members, get, find, put}
use fronius_modbus.Json.Laws.{get-put, find-put}
use fronius_modbus.Web.Text.{Text}
use fronius_modbus.Web.Flags.{is_enabled, flag_value, int_or, int_of, eqb}
use fronius_modbus.Web.Configs.{is_description, nested_object}
use fronius_modbus.Web.Configs.Laws.{
  BareMembers, config_object-IsBare, put-IsBare, find-IsBare, nested_back, object_back,
}
use fronius_modbus.Web.Modbus.{
  Wish, ModbusRestriction, keep, home_assistant, off, Parts, with_restriction, with_ctr, with_slave,
  with_master, parts_of, is_text, mode_with_tcp, is_settled, slave_of, payload, settled, writes,
  write_in, decide_wanted, wanted_restriction, decide_parts, decide_read, decide,
}
use fronius_modbus.Web.Modbus.Restriction.{
  Networks, restriction_with, entries_of, with_address, join,
}
use fronius_modbus.Web.Modbus.Restriction.Laws.{IsEntry, entries_back, with_address_settles}

record BareParts (p : Parts) : Type 0 where
  master : BareMembers p.master
  slave : BareMembers p.slave
  ctr : BareMembers p.ctr
  restriction : BareMembers p.restriction

some-parts : (a b : Parts) → some a ≡ some b → a ≡ b
some-parts a b e = cc e

module _ (p : Parts) where
  restriction-Bare :
      (m s c : Members) (o : Option Members)
      → BareMembers m
      → BareMembers s
      → BareMembers c
      → ((r : Members) → o ≡ some r → BareMembers r)
      → with_restriction m s c o ≡ some p
      → BareParts p
  restriction-Bare m s c none hm hs hc h e = absurd (cc e)
  restriction-Bare m s c (some r) hm hs hc h e =
      subst BareParts (some-parts _ p e)
        (record { master = hm; slave = hs; ctr = hc; restriction = h r refl })

  ctr-Bare :
      (m s : Members) (o : Option Members)
      → BareMembers m
      → BareMembers s
      → ((c : Members) → o ≡ some c → BareMembers c)
      → with_ctr m s o ≡ some p
      → BareParts p
  ctr-Bare m s none hm hs h e = absurd (cc e)
  ctr-Bare m s (some c) hm hs h e =
      restriction-Bare m s c (nested_object c "restriction") hm hs (h c refl)
        (unfold nested_object in config_object-IsBare _) e

  slave-Bare :
      (m : Members) (o : Option Members)
      → BareMembers m
      → ((s : Members) → o ≡ some s → BareMembers s)
      → with_slave m o ≡ some p
      → BareParts p
  slave-Bare m none hm h e = absurd (cc e)
  slave-Bare m (some s) hm h e =
      ctr-Bare m s (nested_object s "ctr") hm (h s refl)
        (unfold nested_object in config_object-IsBare _) e

  master-Bare :
      (config : Members) (o : Option Members)
      → ((m : Members) → o ≡ some m → BareMembers m)
      → with_master config o ≡ some p
      → BareParts p
  master-Bare config none h e = absurd (cc e)
  master-Bare config (some m) h e =
      slave-Bare m (nested_object config "slave") (h m refl)
        (unfold nested_object in config_object-IsBare _) e

  -- The parts that were read have no description.
  parts-Bare : (config : Members) → parts_of config ≡ some p → BareParts p
  unfolding parts_of
  parts-Bare config e = master-Bare config _ (config_object-IsBare _) e

tcp_mode :
    (mode : String)
    → (mode ≡ "tcp") ⊎ (mode ≡ "both")
    → (is_text "tcp" (str mode) || is_text "both" (str mode)) ≡ true
tcp_mode mode (inl e) = rw e
tcp_mode mode (inr e) = rw e

enabled_true : (t : Text) → is_enabled t (bool true) ≡ true
unfolding is_enabled flag_value
enabled_true t = refl

int_or_int : (t : Text) (n d : ℤ) → int_or t (int n) d ≡ n
unfolding int_or int_of
int_or_int t n d = refl

eqb_ℤ_refl : (n : ℤ) → eqb_ℤ n n ≡ true
eqb_ℤ_refl n = ground arith

module _ (w : Wish) (p : Parts) (wanted : Members) (mode : String) where
  ctr_of : Members
  ctr_of = put "restriction" (obj wanted) (put "on" (bool true) p.ctr)

  -- The parts of what was written, as they are read back.
  written : Parts
  unfolding ctr_of
  written = record {
    master = p.master;
    slave = slave_of w p wanted mode;
    ctr = ctr_of;
    restriction = wanted;
  }

  module _ (b : BareParts p) (bw : BareMembers wanted) where
    ctr_of-Bare : BareMembers ctr_of
    unfolding ctr_of is_description
    ctr_of-Bare = put-IsBare "restriction" _ _ refl bw (put-IsBare "on" _ _ refl tt b.ctr)

    slave_of-Bare : BareMembers (slave_of w p wanted mode)
    unfolding slave_of is_description
    slave_of-Bare = put-IsBare "ctr" _ _ refl (unfold ctr_of in ctr_of-Bare) (
        put-IsBare "rtu_inverter_slave_id" _ _ refl tt (
          put-IsBare "meterAddress" _ _ refl tt (
            put-IsBare "sunspecMode" _ _ refl tt (
              put-IsBare "port" _ _ refl tt (
                put-IsBare "mode" _ _ refl tt (
                  put-IsBare "rtuif" _ _ refl (find-IsBare "rtuif" (arr nil) p.slave tt b.slave)
                    b.slave))))))

    parts_back : parts_of (payload w p wanted mode) ≡ some written
    unfolding parts_of payload written find
    parts_back =
        let sent = payload w p wanted mode in
        let slave = slave_of w p wanted mode in
        ap (with_master sent) (object_back p.master b.master)
        ∙ ap (with_slave p.master) (nested_back sent "slave" slave refl slave_of-Bare)
        ∙ ap (with_ctr p.master slave)
            (nested_back slave "ctr" ctr_of (unfold slave_of ctr_of in simp find-put) ctr_of-Bare)
        ∙ ap (with_restriction p.master slave ctr_of)
            (nested_back ctr_of "restriction" wanted (unfold ctr_of in simp find-put) bw)

  module _ (t : Text) (wanted' : Members) where
    -- Nothing is left to write, when the restriction that is wanted is the one that is there.
    settled_back :
        (mode ≡ "tcp") ⊎ (mode ≡ "both")
        → eqb (is_enabled t (get "on" wanted)) (is_enabled t (get "on" wanted')) ≡ true
        → t.equal (get "ip" wanted) (get "ip" wanted') ≡ true
        → is_settled t w written wanted' ≡ true
    unfolding is_settled written slave_of ctr_of
    settled_back m on ip =
        simp (get-put, tcp_mode mode m, enabled_true t, int_or_int t, eqb_ℤ_refl, on, ip)

mode_with_tcp_mode :
    (v : Json) (mode : String) → mode_with_tcp v ≡ some mode → (mode ≡ "tcp") ⊎ (mode ≡ "both")
unfolding mode_with_tcp
mode_with_tcp_mode (str s) mode e = elim (Bool-cases (s == "rtu")) [
  | inl a ↦ inr (ground (arith, e, a))
  | inr a ↦ elim (Bool-cases (s == "both")) [
    | inl b ↦ inr (ground (arith, e, a, b))
    | inr b ↦ inl (ground (arith, e, a, b))
  ]
]
mode_with_tcp_mode (arr xs) mode e = absurd (cc e)
mode_with_tcp_mode (obj ms) mode e = absurd (cc e)
mode_with_tcp_mode null mode e = inl (cc e)
mode_with_tcp_mode (bool b) mode e = inl (cc e)
mode_with_tcp_mode (int n) mode e = inl (cc e)
mode_with_tcp_mode (Json.float x) mode e = inl (cc e)

module _ (t : Text) (n : Networks) where
  -- The address of this host, where it is put on the list: an entry, and a network with itself.
  abbrev pub IsAddress : ModbusRestriction → String → Type 0
  IsAddress keep address = Unit
  IsAddress off address = Unit
  IsAddress home_assistant address = IsEntry address × (n address address ≡ true)

  wanted-Bare :
      (r : ModbusRestriction) (address : String) (cur : Members)
      → BareMembers cur
      → BareMembers (wanted_restriction t n r address cur)
  unfolding wanted_restriction restriction_with is_description
  wanted-Bare keep address cur b = b
  wanted-Bare off address cur b = put-IsBare "on" _ _ refl tt b
  wanted-Bare home_assistant address cur b =
      put-IsBare "ip" _ _ refl tt (put-IsBare "on" _ _ refl tt b)

  eqb_refl : (b : Bool) → eqb b b ≡ true
  eqb_refl true = refl
  eqb_refl false = refl

  same_on :
      (r : ModbusRestriction) (address : String) (cur : Members)
      → let wanted = wanted_restriction t n r address cur in
        eqb
          (is_enabled t (get "on" wanted))
          (is_enabled t (get "on" (wanted_restriction t n r address wanted)))
        ≡ true
  unfolding wanted_restriction restriction_with
  same_on keep address cur = eqb_refl (is_enabled t (get "on" cur))
  same_on off address cur = simp (get-put, eqb_refl)
  same_on home_assistant address cur = simp (get-put, eqb_refl)

  ip_listed :
      (address : String) (r : Members)
      → get "ip" (restriction_with t n r address)
        ≡ str (join (with_address n (entries_of t r) address))
  unfolding restriction_with
  ip_listed address r = simp get-put

  same_ip :
      (r : ModbusRestriction) (address : String) (cur : Members)
      → IsAddress r address
      → let wanted = wanted_restriction t n r address cur in
        get "ip" wanted ≡ get "ip" (wanted_restriction t n r address wanted)
  unfolding wanted_restriction
  same_ip keep address cur h = refl
  same_ip off address cur h = simp get-put
  same_ip home_assistant address cur h =
      ip_listed address cur
      ∙ ap (λ es. str (join es))
          (sym (with_address_settles t n address (entries_of t cur) h.1)
            ∙ ap (λ es. with_address n es address) (sym (entries_back t n address cur h.0)))
      ∙ sym (ip_listed address (restriction_with t n cur address))

  module _ (w : Wish) (q : Members) where
    -- What a write comes from.
    write_in_cases :
        (p : Parts) (wanted : Members) (o : Option String)
        → write_in w p wanted o ≡ writes q
        → (mode : String) × (o ≡ some mode) × (q ≡ payload w p wanted mode)
    write_in_cases p wanted none e = absurd (cc e)
    write_in_cases p wanted (some mode) e = (mode, refl, cc e)

    wanted_cases :
        (p : Parts) (wanted : Members)
        → decide_wanted t w p wanted ≡ writes q
        → write_in w p wanted (mode_with_tcp (get "mode" p.slave)) ≡ writes q
    unfolding decide_wanted
    wanted_cases p wanted e = ground (arith, e)

    read_cases :
        (address : String) (o : Option Parts)
        → decide_read t n w address o ≡ writes q
        → (p : Parts) × (o ≡ some p) × (decide_parts t n w address p ≡ writes q)
    read_cases address none e = absurd (cc e)
    read_cases address (some p) e = (p, refl, e)

    module _ (address : String) (ok : IsAddress w.restriction address)
        (same : (v : Json) → t.equal v v ≡ true) where
      written_settled :
          (p : Parts) (mode : String)
          → (mode ≡ "tcp") ⊎ (mode ≡ "both")
          → BareParts p
          → let wanted = wanted_restriction t n w.restriction address p.restriction in
            decide t n w address (payload w p wanted mode) ≡ settled
      unfolding decide decide_parts decide_wanted
      written_settled p mode m b =
          let wanted = wanted_restriction t n w.restriction address p.restriction in
          let again = wanted_restriction t n w.restriction address wanted in
          let bare = wanted-Bare w.restriction address p.restriction b.restriction in
          ap (decide_read t n w address) (parts_back w p wanted mode b bare)
          ∙ unfold written in
            rw (
              settled_back w p wanted mode t again m (same_on w.restriction address p.restriction) (
                subst (λ v. t.equal (get "ip" wanted) v ≡ true)
                  (same_ip w.restriction address p.restriction ok) (same (get "ip" wanted))))

      pub decide_settles :
          (config : Members)
          → decide t n w address config ≡ writes q
          → decide t n w address q ≡ settled
      unfolding decide decide_parts
      decide_settles config e =
          let (p, read, wrote) = read_cases address (parts_of config) e in
          let wanted = wanted_restriction t n w.restriction address p.restriction in
          let (mode, m, sent) =
            write_in_cases p wanted (mode_with_tcp (get "mode" p.slave))
              (wanted_cases p wanted wrote) in
          subst (λ x. decide t n w address x ≡ settled) (sym sent)
            (written_settled p mode (mode_with_tcp_mode _ mode m) (parts-Bare p config read))
