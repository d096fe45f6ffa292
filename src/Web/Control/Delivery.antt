-- ===== src/Web/Control/Delivery.antt =====
-- No event is lost between the log and the entities: `async_refresh` of web_control.py over the
-- tracker of inverter_events.py.
use Prim.Native.String.{String}
use fronius_modbus.Common.{
  ◌≡◌, refl, ap, ◌∙◌, Bool, true, false, not, Option, none, some, List, [], ◌∷◌, ltb_ℤ, arith,
}
use fronius_modbus.Exec.{
  Exec, Error, modbus, bad_value, cancelled, sunspec, map_shift, refused, web, unreachable,
  auth_failed, mode_change_needed, no_client_ip, malformed, response, Result, ok, err, ◌>>=◌,
  modify, zoom,
}
use fronius_modbus.Exec.Keeps.{
  Keeps, Keeps-pure, Keeps-raise, Keeps-gets, Keeps-if, Keeps-bind, Keeps-attempt, Keeps-modify,
}
use fronius_modbus.Exec.Meets.{Meets, bind-Meets, attempt-Meets, Keeps-Meets}
use fronius_modbus.Events.Parse.{InverterEvent, Texts}
use fronius_modbus.Events.Tracker.{read, batch}
use fronius_modbus.Events.Tracker.Queue.{uuid_in}
use fronius_modbus.Events.Tracker.Laws.{pending-read, missed-pending, pending-delivered}
use fronius_modbus.Web.Client.{Http}
use fronius_modbus.Web.Control.{Site, WebControl, WebData}
use fronius_modbus.Web.Control.Jobs.{
  on_bus, handle_auth_failure, after_client_job, client_job, public_with, public_job,
  sync_solar_api_warning, ask_for_login,
}
use fronius_modbus.Web.Control.Refresh.{
  on_data, public_read, read_texts, known_event_texts, texts_or_read, read_log, track,
  refresh_events, refresh_storage, read_web, refresh_all, refresh_if, refresh_locked, miss, deliver,
  after_refresh, async_refresh, logged, remember,
}

module _ {W : Type 0} (site : Site W) (x : String) where
  -- The entry with the id waits to be published.
  abbrev pub Waits : WebControl W → Type 0
  Waits s = uuid_in x s.tracker.pending ≡ true

  on_bus-Keeps : {A : Type 0} (m : Exec W A) → Keeps Waits (on_bus site m)
  unfolding zoom
  on_bus-Keeps m = record { at = λ s h. h }

  on_data-Keeps : (f : WebData → WebData) → Keeps Waits (modify (on_data site f))
  on_data-Keeps f = Keeps-modify _ λ s h. h

  sync-Keeps : Keeps Waits (modify (sync_solar_api_warning site))
  unfolding sync_solar_api_warning
  sync-Keeps = Keeps-modify _ λ s h. ground arith

  ask-Keeps : Keeps Waits (modify (ask_for_login site))
  ask-Keeps = Keeps-modify _ λ s h. ground arith

  handle-Keeps : Keeps Waits (handle_auth_failure site)
  unfolding handle_auth_failure
  handle-Keeps = Keeps-bind _ _ (Keeps-gets _) λ s.
      Keeps-if s.has_client _ _
        (λ _.
          Keeps-bind _ _
            (Keeps-bind _ _ (Keeps-bind _ _ (Keeps-modify _ λ s h. h) λ _. on_bus-Keeps _)
              λ _. sync-Keeps)
            λ _. ask-Keeps)
        (λ _. Keeps-pure tt)

  module _ (A : Type 0) where
    after_client_job-Keeps : (r : Result A) → Keeps Waits (after_client_job site r)
    unfolding after_client_job
    after_client_job-Keeps (ok a) = Keeps-pure _
    after_client_job-Keeps (err (web auth_failed)) =
        Keeps-bind _ _ handle-Keeps λ _. Keeps-pure none
    after_client_job-Keeps (err (web unreachable)) = Keeps-raise _
    after_client_job-Keeps (err (web mode_change_needed)) = Keeps-raise _
    after_client_job-Keeps (err (web no_client_ip)) = Keeps-raise _
    after_client_job-Keeps (err (web malformed)) = Keeps-raise _
    after_client_job-Keeps (err (web (response n))) = Keeps-raise _
    after_client_job-Keeps (err (modbus m)) = Keeps-raise _
    after_client_job-Keeps (err bad_value) = Keeps-raise _
    after_client_job-Keeps (err cancelled) = Keeps-raise _
    after_client_job-Keeps (err sunspec) = Keeps-raise _
    after_client_job-Keeps (err map_shift) = Keeps-raise _
    after_client_job-Keeps (err (refused k)) = Keeps-raise _

  module _ {A : Type 0} where
    client_job-Keeps : (m : Exec W A) → Keeps Waits (client_job site m)
    unfolding client_job
    client_job-Keeps m = Keeps-bind _ _ (Keeps-gets _) λ s.
        Keeps-if s.has_client _ _
          (λ _. Keeps-attempt _ _ (on_bus-Keeps m) (after_client_job-Keeps A))
          (λ _. Keeps-pure none)

    public_with-Keeps :
        (m : Http W → Exec W A) (o : Option (Http W)) → Keeps Waits (public_with site m o)
    public_with-Keeps m none = Keeps-pure none
    public_with-Keeps m (some h) = Keeps-attempt _ _ (on_bus-Keeps (m h)) (after_client_job-Keeps A)

    public_job-Keeps : (m : Http W → Exec W A) → Keeps Waits (public_job site m)
    unfolding public_job
    public_job-Keeps m = public_with-Keeps m site.public_client

  public_read-Keeps : (path : String) → Keeps Waits (public_read site path)
  unfolding public_read
  public_read-Keeps path = Keeps-bind _ _ (public_job-Keeps _) λ a. Keeps-pure _

  read_texts-Keeps :
      (ls : List String) (merged : Texts) (all : Bool) → Keeps Waits (read_texts site ls merged all)
  unfolding read_texts
  read_texts-Keeps [] merged all = Keeps-pure _
  read_texts-Keeps (l ∷ ls) merged all =
      Keeps-bind _ _ (public_read-Keeps _) λ a. read_texts-Keeps ls _ _

  remember-Keeps : (found : Texts × Bool) → Keeps Waits (modify (remember site found))
  remember-Keeps (texts, all) = Keeps-modify _ λ s h. ground arith

  texts_or_read-Keeps : (o : Option Texts) → Keeps Waits (texts_or_read site o)
  texts_or_read-Keeps none =
      Keeps-bind _ _ (read_texts-Keeps _ _ _)
        λ found. Keeps-bind _ _ (remember-Keeps found) λ _. Keeps-pure _
  texts_or_read-Keeps (some texts) = Keeps-pure _

  known_event_texts-Keeps : Keeps Waits (known_event_texts site)
  unfolding known_event_texts
  known_event_texts-Keeps = Keeps-bind _ _ (Keeps-gets _) λ s. texts_or_read-Keeps s.known_texts

  track-Keeps : (log : Option (List InverterEvent)) → Keeps Waits (modify (track site log))
  unfolding read
  track-Keeps none = Keeps-modify _ λ s h.
      ap (uuid_in x) (
        missed-pending site.at_or_after (site.wall_clock s.bus)
          (record s.tracker { readable = false }))
      ∙ h
  track-Keeps (some log) =
      Keeps-modify _
        λ s h. ground (arith, pending-read site.at_or_after x log (site.wall_clock s.bus) s.tracker)

  logged-Keeps : (log : Option (List InverterEvent)) → Keeps Waits (modify (logged site log))
  logged-Keeps none = Keeps-modify _ λ s h. h
  logged-Keeps (some log) = Keeps-modify _ λ s h. h

  read_log-Keeps : (texts : Texts) → Keeps Waits (read_log site texts)
  unfolding read_log
  read_log-Keeps texts =
      Keeps-bind _ _ (public_read-Keeps _) λ a. Keeps-bind _ _ (track-Keeps _) λ _. logged-Keeps _

  refresh_events-Keeps : Keeps Waits (refresh_events site)
  unfolding refresh_events
  refresh_events-Keeps = Keeps-bind _ _ known_event_texts-Keeps λ texts.
      Keeps-bind _ _ (public_read-Keeps _) λ a. Keeps-bind _ _ (on_data-Keeps _) λ _.
        Keeps-bind _ _ (Keeps-gets _) λ s.
          Keeps-if (ltb_ℤ (site.monotonic s.bus) s.next_event_log_read) _ _ (λ _. Keeps-pure tt)
            (λ _. read_log-Keeps texts)

  refresh_storage-Keeps : Keeps Waits (refresh_storage site)
  unfolding refresh_storage
  refresh_storage-Keeps = Keeps-bind _ _ (public_job-Keeps _) λ info.
      Keeps-bind _ _ (on_data-Keeps _)
        λ _. Keeps-bind _ _ (client_job-Keeps _) λ config. on_data-Keeps _

  read_web-Keeps : Keeps Waits (read_web site)
  unfolding read_web
  read_web-Keeps = Keeps-bind _ _ (public_job-Keeps _) λ info. Keeps-bind _ _ (on_data-Keeps _) λ _.
      Keeps-bind _ _ refresh_events-Keeps λ _. Keeps-bind _ _ (client_job-Keeps _) λ config.
        Keeps-bind _ _ (on_data-Keeps _) λ _. Keeps-bind _ _ (client_job-Keeps _) λ solar.
          Keeps-bind _ _ (on_data-Keeps _) λ _.
            Keeps-bind _ _
              (Keeps-if site.storage_present _ _ (λ _. refresh_storage-Keeps) (λ _. Keeps-pure tt))
              λ _.
                Keeps-bind _ _ (client_job-Keeps _)
                  λ limits. Keeps-bind _ _ (on_data-Keeps _) λ _. sync-Keeps

  -- A snapshot carries the tracker's entries.
  abbrev Carries : WebData → WebControl W → Type 0
  Carries d s =
      Waits s × (d.new_events ≡ batch s.tracker) × (d.event_log_readable ≡ s.tracker.readable)

  refresh_all-Meets : (s : WebControl W) → Waits s → Meets Carries (λ e. Waits) (refresh_all site s)
  unfolding refresh_all ◌>>=◌
  refresh_all-Meets s h =
      bind-Meets (λ _. Waits) Carries (λ e. Waits) (read_web site) _ s
        (Keeps-Meets Waits (read_web site) read_web-Keeps s h) λ _ t w. (w, refl, refl)

  -- How a poll ends for an entry that waits: published, if the log could be read, and else waiting.
  abbrev pub Settles : WebData → WebControl W → Type 0
  Settles d s =
      (uuid_in x d.new_events ≡ d.event_log_readable)
      × (uuid_in x s.tracker.pending ≡ not d.event_log_readable)

  delivered-Settles : (d : WebData) (s : WebControl W) → Carries d s → Settles d (deliver site d s)
  unfolding batch uuid_in
  delivered-Settles d s c =
      ground (arith, pending-delivered site.at_or_after x d.new_events s.tracker)

  missed-Waits : (s : WebControl W) → Waits s → Waits (miss site s)
  missed-Waits s h =
      ap (uuid_in x) (missed-pending site.at_or_after (site.wall_clock s.bus) s.tracker) ∙ h

  failed-Meets :
      (e : Error) (s : WebControl W)
      → Waits s
      → Meets Settles (λ e. Waits) (after_refresh site (err e) s)
  unfolding after_refresh ◌>>=◌
  failed-Meets cancelled s h = h
  failed-Meets (web w) s h = missed-Waits s h
  failed-Meets (modbus m) s h = missed-Waits s h
  failed-Meets bad_value s h = missed-Waits s h
  failed-Meets sunspec s h = missed-Waits s h
  failed-Meets map_shift s h = missed-Waits s h
  failed-Meets (refused k) s h = missed-Waits s h

  refresh_if-Meets :
      (o : Option (Http W)) (h : Http W) (s : WebControl W)
      → o ≡ some h
      → Waits s
      → Meets Carries (λ e. Waits) (refresh_if site o s)
  refresh_if-Meets none h s e w = absurd (cc e)
  refresh_if-Meets (some g) h s e w = refresh_all-Meets s w

  -- An event that waits to be published is carried by a poll that returns with a readable log, and
  -- waits no more; where the log could not be read, and where the poll raises, at whichever of its
  -- requests, or is cancelled, it still waits and was not carried. It needs a client that reads
  -- without a login.
  pub waiting-Settles :
      (h : Http W) (s : WebControl W)
      → site.public_client ≡ some h
      → Waits s
      → Meets Settles (λ e. Waits) (async_refresh site s)
  unfolding async_refresh refresh_locked
  waiting-Settles h s e w =
      attempt-Meets Carries Settles (λ e. Waits) (λ e. Waits) _ _ s
        (refresh_if-Meets site.public_client h s e w)
        (λ d t c. unfold after_refresh ◌>>=◌ in delivered-Settles d t c) failed-Meets
