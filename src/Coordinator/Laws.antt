-- ===== src/Coordinator/Laws.antt =====
-- What the polls of FroniusModbusCoordinator (coordinator.py) promise the entities.
use mathlib.Core.List.{append-nil}
use mathlib.Core.Path.{subst}
use fronius_modbus.Common.{
  ℕ, ◌≡◌, ◌≢◌, refl, ◌∙◌, ap, sym, ◌⊎◌, true, ◌||◌, Option, none, some, List, [], ◌∷◌, ◌++◌, arith,
  Option-cases, inl, inr,
}
use fronius_modbus.Numbers.{Numbers}
use fronius_modbus.Device.Library.{Name, inverter, meter}
use fronius_modbus.Device.State.{UpdateReport, has_name, same_name}
use fronius_modbus.Coordinator.{
  Readings, Coordinator, without, add_new, reload_beyond, reload_for_new_sub_systems,
}
use fronius_modbus.Coordinator.Values.{load_w, poll_grid_status, primary_meter_fresh}

has_name-eq : (n m : Name) (ks : List Name) → same_name n m ≡ true → has_name n ks ≡ has_name m ks
has_name-eq n m [] h = refl
has_name-eq n m (k ∷ ks) h = ground (arith, has_name-eq n m ks h)

has_name-append :
    (n : Name) (xs ys : List Name) → has_name n (xs ++ ys) ≡ (has_name n xs || has_name n ys)
has_name-append n [] ys = refl
has_name-append n (x ∷ xs) ys = ground (arith, has_name-append n xs ys)

-- A name that answered is known, or new.
known_or_new :
    (n : Name) (known ns : List Name)
    → has_name n ns ≡ true
    → (has_name n known || has_name n (without known ns)) ≡ true
unfolding without
known_or_new n known [] h = cc h
known_or_new n known (m ∷ ns) h = ground (arith, known_or_new n known ns, has_name-eq n m known)

same_name_refl : (n : Name) → same_name n n ≡ true
same_name_refl n = ground arith

here : (n : Name) (ns : List Name) → has_name n (n ∷ ns) ≡ true
here n ns = ground (arith, same_name_refl n)

there : (m n : Name) (ns : List Name) → has_name m ns ≡ true → has_name m (n ∷ ns) ≡ true
there m n ns h = ground arith

without-all :
    (known ns : List Name)
    → ((n : Name) → has_name n ns ≡ true → has_name n known ≡ true)
    → without known ns ≡ []
unfolding without
without-all known [] h = refl
without-all known (n ∷ ns) h =
    rw (h n (here n ns)) (without-all known ns (λ m p. h m (there m n ns p)))

-- Once the new names are added, none of the poll is new.
nothing_left : (known ns : List Name) → without (known ++ without known ns) ns ≡ []
nothing_left known ns =
    without-all (known ++ without known ns) ns
      (λ n h. has_name-append n known (without known ns) ∙ known_or_new n known ns h)

self_known : (ns : List Name) → without ns ns ≡ []
self_known ns = without-all ns ns (λ n h. h)

module _ {W : Type 0} where
  add_new-settled :
      (known ns new : List Name) (s : Coordinator W)
      → without (known ++ new) ns ≡ []
      → s.built_for ≡ some known
      → let t = add_new known new s in (t.built_for ≡ some (known ++ new))
  unfolding add_new
  add_new-settled known ns [] s h e = e ∙ ap (λ k. some k) (sym (append-nil known))
  add_new-settled known ns (n ∷ new) s h e = refl

  settled :
      (r : UpdateReport) (known : List Name) (s : Coordinator W)
      → s.built_for ≡ some known
      → without known r.updated ≡ []
      → reload_for_new_sub_systems r s ≡ s
  unfolding reload_for_new_sub_systems reload_beyond add_new
  settled r known s e h =
      subst (λ o. reload_beyond r o s ≡ s) (sym e)
        (subst (λ ns. add_new known ns s ≡ s) (sym h) refl)

  pub reloads_once :
      (r : UpdateReport) (s : Coordinator W)
      → reload_for_new_sub_systems r (reload_for_new_sub_systems r s)
        ≡ reload_for_new_sub_systems r s
  reloads_once r s = elim (Option-cases s.built_for) [
    | inl e ↦
        settled r r.updated (reload_for_new_sub_systems r s) (first_built r s e)
          (self_known r.updated)
    | inr (known, e) ↦
        settled r (known ++ without known r.updated) (reload_for_new_sub_systems r s)
          (later_built r known s e) (nothing_left known r.updated)
  ]
    where
      first_built :
          (q : UpdateReport) (t : Coordinator W)
          → t.built_for ≡ none
          → (reload_for_new_sub_systems q t).built_for ≡ some q.updated
      first_built q t e =
          unfold reload_for_new_sub_systems reload_beyond in
          subst (λ o. (reload_beyond q o t).built_for ≡ some q.updated) (sym e) refl

      later_built :
          (q : UpdateReport) (known : List Name) (t : Coordinator W)
          → t.built_for ≡ some known
          → (reload_for_new_sub_systems q t).built_for ≡ some (known ++ without known q.updated)
      later_built q known t e =
          unfold reload_for_new_sub_systems reload_beyond in
          subst (λ o. (reload_beyond q o t).built_for ≡ some (known ++ without known q.updated))
            (sym e)
            (add_new-settled known q.updated (without known q.updated) t
              (nothing_left known q.updated) e)

-- Both halves of a derived value are of this poll.
abbrev pub BothFresh : ℕ → UpdateReport → Type 0
BothFresh primary report =
    (has_name inverter report.updated ≡ true) × (has_name (meter primary) report.updated ≡ true)

module _ (numbers : Numbers) (primary : ℕ) (location : Option ℕ) where
  -- A poll that shows a household load or a grid status read both the inverter and the primary
  -- meter: no derived value mixes in what an earlier poll read.
  pub derived_are_fresh :
      (r : Readings) (report : UpdateReport)
      → (load_w numbers primary location r report ≢ none)
        ⊎ (poll_grid_status numbers primary location r report ≢ none)
      → BothFresh primary report
  unfolding load_w poll_grid_status primary_meter_fresh
  derived_are_fresh r report h = ground arith
