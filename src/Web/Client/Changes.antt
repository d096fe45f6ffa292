-- ===== src/Web/Client/Changes.antt =====
-- A server that keeps a configuration, and what `_post_changes` of froniuswebclient.py leaves there.
pub mod Merged
use Prim.Native.String.{String}
use text.Mathlib.Text.{◌==◌}
use mathlib.Core.Path.{subst}
use fronius_modbus.Common.{
  ◌≡◌, refl, sym, ap, ◌∙◌, ◌⊎◌, inl, inr, Bool, true, false, not, ◌&&◌, ◌||◌, Option, none, some,
  List, [], ◌∷◌, arith, All, Bool-cases,
}
use fronius_modbus.Exec.{
  Exec, Error, Result, ok, err, web, unreachable, auth_failed, mode_change_needed, no_client_ip,
  malformed, response, modbus, bad_value, cancelled, sunspec, map_shift, refused, ◌>>=◌, pure,
  raise,
}
use fronius_modbus.Exec.Meets.{
  Meets, bind-Meets, attempt-Meets, guard-Meets, guard_last, or_raise_last, answered-Meets,
  pure-Meets, weaken-Meets,
}
use fronius_modbus.Json.{Json, null, obj, Members, end, get, put_all}
use fronius_modbus.Web.Text.{Text}
use fronius_modbus.Web.Flags.{same}
use fronius_modbus.Web.Configs.{config_object, is_description}
use fronius_modbus.Web.Client.{
  Http, Response, Settings, is_rejected, is_error_status, is_refusal, checked, json, get_json,
  get_config, post, payload_of, changes_in, post_if_any, post_changes_to, empty_if_unread,
  read_or_nothing, post_changes,
}
use Merged.{Once, named, Holds, Shown, named_plain, changes-Holds, others_kept}

-- Whether an answer is neither a rejected login nor an error status.
abbrev pub is_good : Response → Bool
is_good r = not (is_rejected r.status) && not (is_error_status r.status)

abbrev pub config_in : Option Json → Option Members
config_in none = none
config_in (some v) = config_object v

module _ {W : Type 0} (h : Http W) (path : String) where
  -- What is relied on of the inverter: it keeps the configuration of the path. Reading changes
  -- nothing, an answered read shows what is kept, a write that is answered and names no field as
  -- refused is merged in, and one that ends otherwise is merged in or is not.
  pub record Keeper : Type 0 where
    pub view : W → Members
    pub reads : (a : Bool) (p : String) (s : W) → view (h.fetch a p s).1 ≡ view s
    pub shows :
        (s : W) (r : Response) (ms : Members)
        → (h.fetch true path s).0 ≡ ok r
        → is_good r ≡ true
        → config_in r.body ≡ some ms
        → (key : String) → is_description key ≡ false
        → get key ms ≡ get key (view s)
    pub takes :
        (p : Members) (s : W) (r : Response)
        → (h.send path (some (obj p)) s).0 ≡ ok r
        → is_good r ≡ true
        → is_refusal r.body ≡ false
        → view (h.send path (some (obj p)) s).1 ≡ put_all p (view s)
    pub whole :
        (p : Members) (s : W)
        → (view (h.send path (some (obj p)) s).1 ≡ view s)
          ⊎ (view (h.send path (some (obj p)) s).1 ≡ put_all p (view s))

-- What a call of the writes leaves: in `Same` the configuration is the one before.
module _ {W : Type 0} (h : Http W) (path : String) (k : Keeper h path) where
  abbrev pub Same : Members → W → Type 0
  Same ms s = k.view s ≡ ms

  -- The configuration read is the one that is kept.
  abbrev pub Reads : Members → Members → W → Type 0
  Reads ms read s =
      Same ms s × ((key : String) → is_description key ≡ false → get key read ≡ get key ms)

  abbrev Fetched : W → Members → Json → W → Type 0
  Fetched s ms v t =
      Same ms t
      × ((r : Response) × ((h.fetch true path s).0 ≡ ok r) × (is_good r ≡ true) × (r.body ≡ some v))

  good :
      (r : Response)
      → not (is_rejected r.status) ≡ true
      → not (is_error_status r.status) ≡ true
      → is_good r ≡ true
  good r a b = cc (a, b)

  checked-Meets :
      (r : Response) (s : W) (P : W → Type 0)
      → P s
      → Meets (λ r' t. (r' ≡ r) × (is_good r ≡ true) × P t) (λ e t. P t) (checked r s)
  unfolding checked
  checked-Meets r s P p =
      guard-Meets (λ r' t. (r' ≡ r) × (is_good r ≡ true) × P t) (λ e t. P t) _ _ _ s
        (λ a.
          guard-Meets (λ r' t. (r' ≡ r) × (is_good r ≡ true) × P t) (λ e t. P t) _ _ _ s
            (λ b.
              pure-Meets (λ r' t. (r' ≡ r) × (is_good r ≡ true) × P t) (λ e t. P t) r s
                (refl, good r a b, p))
            (λ _. p))
        (λ _. p)

  get_json-Meets :
      (s : W) → Meets (Fetched s (k.view s)) (λ e. Same (k.view s)) (get_json h true path s)
  unfolding get_json json
  get_json-Meets s =
      let ms = k.view s in
      let E = λ (e : Error). Same ms in
      bind-Meets (λ r t. ((h.fetch true path s).0 ≡ ok r) × Same ms t) (Fetched s ms) E _ _ s
        (answered-Meets (Same ms) (h.fetch true path s) (k.reads true path s))
        λ r t f.
          bind-Meets (λ r' u. (r' ≡ r) × (is_good r ≡ true) × Same ms u) (Fetched s ms) E _ _ t
            (checked-Meets r t (Same ms) f.1)
            λ r' u g.
              or_raise_last (Fetched s ms) E r'.body bad_value u
                (λ v b. (g.2, (r, f.0, g.1, ap (λ (x : Response). x.body) (sym g.0) ∙ b)))
                (λ _. g.2)

  pub get_config-Meets :
      (s : W) → Meets (Reads (k.view s)) (λ e. Same (k.view s)) (get_config h path s)
  unfolding get_config
  get_config-Meets s =
      let ms = k.view s in
      bind-Meets (Fetched s ms) (Reads ms) (λ e. Same ms) _ _ s (get_json-Meets s)
        λ v t f.
          or_raise_last (Reads ms) (λ e. Same ms) (config_object v) _ t
            (λ read c. (f.0, k.shows s f.1.0 read f.1.1 f.1.2 (ap config_in f.1.3 ∙ c))) (λ _. f.0)

  -- A write that raised was merged in or was not.
  abbrev Unsure : Members → Members → W → Type 0
  Unsure ms p s = Same ms s ⊎ Same (put_all p ms) s

  module _ (p : Members) (s : W) where
    abbrev After : W → Type 0
    After t = t ≡ (h.send path (some (obj p)) s).1

    -- Only a write that was answered as taken returns.
    sent-Meets :
        Meets
          (λ _ t. After t × Same (put_all p (k.view s)) t)
          (λ e. After)
          (post h path (some (obj p)) s)
    unfolding post
    sent-Meets =
        let Q = λ (u : Unit {0}) (t : W). After t × Same (put_all p (k.view s)) t in
        let E = λ (e : Error). After in
        bind-Meets (λ r t. ((h.send path (some (obj p)) s).0 ≡ ok r) × After t) Q E _ _ s
          (answered-Meets After (h.send path (some (obj p)) s) refl)
          λ r t f.
            bind-Meets (λ r' u. (r' ≡ r) × (is_good r ≡ true) × After u) Q E _ _ t
              (checked-Meets r t After f.1)
              λ r' u g.
                guard_last Q E _ _ u
                  (λ b. (
                    g.2,
                    subst (Same (put_all p (k.view s))) (sym g.2) (
                        k.takes p s r f.0 g.1
                          (ground (arith, ap (λ (x : Response). is_refusal x.body) g.0))),
                  ))
                  (λ _. g.2)

    post-Meets :
        Meets
          (λ _. Same (put_all p (k.view s)))
          (λ e. Unsure (k.view s) p)
          (post h path (some (obj p)) s)
    post-Meets =
        weaken-Meets (λ _ t. After t × Same (put_all p (k.view s)) t)
          (λ _. Same (put_all p (k.view s))) (λ e. After) (λ e. Unsure (k.view s) p) _
          (λ _ t g. g.1) (λ e t g. subst (Unsure (k.view s) p) (sym g) (k.whole p s)) sent-Meets

  module _ (t : Text) (wanted : Settings) where
    -- What a write of settings leaves, from a configuration `ms`.
    abbrev pub Others : Members → W → Type 0
    Others ms s = (j : String) → (named j wanted ≡ true) ⊎ (get j (k.view s) ≡ get j ms)

    abbrev pub Written : Members → Bool → W → Type 0
    Written ms b s = Holds t wanted (k.view s) × Others ms s × ((b ≡ true) ⊎ (k.view s ≡ ms))

    kept_or_named :
        (current ms : Members) (j : String)
        → (named j wanted ≡ true)
          ⊎ (get j (put_all (payload_of (changes_in t wanted current)) ms) ≡ get j ms)
    kept_or_named current ms j = elim (Bool-cases (named j wanted)) [
      | inl n ↦ inl n
      | inr n ↦ inr (others_kept t j wanted current ms n)
    ]

    unsure_others :
        (current ms : Members) (s : W)
        → Unsure ms (payload_of (changes_in t wanted current)) s
        → Others ms s
    unsure_others current ms s (inl e) j = inr (ap (get j) e)
    unsure_others current ms s (inr e) j =
        subst (λ x. (named j wanted ≡ true) ⊎ (get j x ≡ get j ms)) (sym e)
          (kept_or_named current ms j)

    module _ (once : Once wanted) (current : Members) (s : W)
        (shown : Shown wanted current (k.view s)) where
      merged :
          (u : W)
          → Same (put_all (payload_of (changes_in t wanted current)) (k.view s)) u
          → Holds t wanted (k.view u) × Others (k.view s) u
      merged u e = (
        subst (Holds t wanted) (sym e) (changes-Holds t wanted current (k.view s) once shown),
        unsure_others current (k.view s) u (inr e),
      )

      post_if_any-Meets :
          (cs : Settings)
          → cs ≡ changes_in t wanted current
          → Meets (Written (k.view s)) (λ e. Others (k.view s)) (post_if_any h path cs s)
      unfolding post_if_any put_all payload_of
      post_if_any-Meets [] e =
          let m = merged s (ap (λ x. put_all (payload_of x) (k.view s)) e) in
          pure-Meets (Written (k.view s)) (λ e. Others (k.view s)) false s (m.0, m.1, inr refl)
      post_if_any-Meets (c ∷ cs) e =
          let sent = payload_of (c ∷ cs) in
          let moved = ap payload_of e in
          bind-Meets (λ _. Same (put_all sent (k.view s))) (Written (k.view s))
            (λ e. Others (k.view s)) _ _ s
            (weaken-Meets (λ _. Same (put_all sent (k.view s)))
              (λ _. Same (put_all sent (k.view s))) (λ e. Unsure (k.view s) sent)
              (λ e. Others (k.view s)) _ (λ _ u g. g)
              (λ x u g.
                unsure_others current (k.view s) u (subst (λ y. Unsure (k.view s) y u) moved g))
              (post-Meets sent s))
            λ _ u g.
              let m = merged u (subst (λ y. Same (put_all y (k.view s)) u) moved g) in
              pure-Meets (Written (k.view s)) (λ e. Others (k.view s)) true u (m.0, m.1, inl refl)

      pub post_changes_to-Meets :
          Meets
            (Written (k.view s))
            (λ e. Others (k.view s))
            (post_changes_to h t path wanted current s)
      unfolding post_changes_to
      post_changes_to-Meets = post_if_any-Meets _ refl

    module _ (ms : Members) where
      abbrev Compared : Members → W → Type 0
      Compared current s = Same ms s × Shown wanted current ms

      unread : (s : W) → Same ms s → Compared end s
      unfolding get
      unread s e = (e, λ j n. inr refl)

      empty_if_unread-Meets :
          (e : Error) (s : W)
          → Same ms s
          → Meets Compared (λ e. Same ms) (empty_if_unread h (err e) s)
      unfolding empty_if_unread ◌>>=◌
      empty_if_unread-Meets (web (response n)) s e = unread s e
      empty_if_unread-Meets bad_value s e = unread s e
      empty_if_unread-Meets (web unreachable) s e = e
      empty_if_unread-Meets (web auth_failed) s e = e
      empty_if_unread-Meets (web mode_change_needed) s e = e
      empty_if_unread-Meets (web no_client_ip) s e = e
      empty_if_unread-Meets (web malformed) s e = e
      empty_if_unread-Meets (modbus m) s e = e
      empty_if_unread-Meets cancelled s e = e
      empty_if_unread-Meets sunspec s e = e
      empty_if_unread-Meets map_shift s e = e
      empty_if_unread-Meets (refused r) s e = e

    read_or_nothing-Meets :
        (once : Once wanted) (s : W)
        → Meets (Compared (k.view s)) (λ e. Same (k.view s)) (read_or_nothing h path s)
    unfolding read_or_nothing
    read_or_nothing-Meets once s =
        attempt-Meets (Reads (k.view s)) (Compared (k.view s)) (λ e. Same (k.view s))
          (λ e. Same (k.view s)) _ _ s (get_config-Meets s)
          (λ read u r.
            unfold empty_if_unread ◌>>=◌ in (r.0, λ j n. inl (r.1 j (named_plain j wanted once n))))
          (λ e u g. empty_if_unread-Meets (k.view s) e u g)

    -- Against an inverter that keeps its configuration, a write of settings that returns leaves
    -- every one of them held there, and says that nothing was written only where nothing changed;
    -- whether it returns or raises, no other field of the configuration changes. It holds although
    -- only the fields that differ are sent, and when the comparison could not be read.
    pub post_changes-Written :
        Once wanted
        → (s : W)
        → Meets (Written (k.view s)) (λ e. Others (k.view s)) (post_changes h t path wanted s)
    unfolding post_changes
    post_changes-Written once s =
        bind-Meets (Compared (k.view s)) (Written (k.view s)) (λ e. Others (k.view s)) _ _ s
          (weaken-Meets (Compared (k.view s)) (Compared (k.view s)) (λ e. Same (k.view s))
            (λ e. Others (k.view s)) _ (λ c u g. g) (λ e u g j. inr (ap (get j) g))
            (read_or_nothing-Meets once s))
          λ current u g.
            subst
              (λ ms.
                Meets (Written ms) (λ e. Others ms) (post_changes_to h t path wanted current u))
              g.0
              (post_changes_to-Meets once current u (subst (Shown wanted current) (sym g.0) g.1))
