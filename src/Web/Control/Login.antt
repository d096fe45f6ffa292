-- ===== src/Web/Control/Login.antt =====
-- What a rejected login leaves of web_control.py.
use fronius_modbus.Common.{◌≡◌, true, false, arith}
use fronius_modbus.Exec.{
  Exec, Error, modbus, bad_value, cancelled, sunspec, map_shift, refused, web, unreachable,
  auth_failed, mode_change_needed, no_client_ip, malformed, response, web_api_auth_failed, ok, err,
  ◌>>=◌, attempt, zoom,
}
use fronius_modbus.Exec.Stops.{Fails, raise-Fails}
use fronius_modbus.Web.Control.{Site, WebControl, public_part}
use fronius_modbus.Web.Control.Jobs.{
  web_job, after_web_job, handle_auth_failure, sync_solar_api_warning,
}

module _ {W : Type 0} (A : Type 0) (site : Site W) where
  -- A job of a setter raises whenever its call of the client does.
  after_web_job-Fails :
      (e : Error) (s : WebControl W) → Fails (after_web_job site {A = A} (err e) s)
  unfolding after_web_job ◌>>=◌
  after_web_job-Fails (web auth_failed) s =
      unfold after_web_job in
      raise-Fails A (refused web_api_auth_failed) (handle_auth_failure site) s
  after_web_job-Fails (web unreachable) s = tt
  after_web_job-Fails (web mode_change_needed) s = tt
  after_web_job-Fails (web no_client_ip) s = tt
  after_web_job-Fails (web malformed) s = tt
  after_web_job-Fails (web (response n)) s = tt
  after_web_job-Fails (modbus m) s = tt
  after_web_job-Fails bad_value s = tt
  after_web_job-Fails cancelled s = tt
  after_web_job-Fails sunspec s = tt
  after_web_job-Fails map_shift s = tt
  after_web_job-Fails (refused k) s = tt

  pub web_job-Fails :
      (m : Exec W A) (s : WebControl W) (e : Error)
      → s.has_client ≡ true
      → (m s.bus).0 ≡ err e
      → Fails (web_job site m s)
  unfolding web_job attempt zoom ◌>>=◌
  web_job-Fails m s e c h = rw (c, h) (after_web_job-Fails e _)

-- What is left once a login was rejected: no client, and the public part of the data.
pub record Lost {W : Type 0} (s t : WebControl W) : Type 0 where
  pub no_client : t.has_client ≡ false
  pub public_only : t.web_data ≡ public_part s.web_data

module _ {W : Type 0} (site : Site W) (forgets : (w : W) → (site.forget_login w).0 ≡ ok tt) where
  handled-Lost :
      (s : WebControl W)
      → s.has_client ≡ true
      → ((handle_auth_failure site s).0 ≡ ok tt) × Lost s (handle_auth_failure site s).1
  unfolding handle_auth_failure zoom ◌>>=◌ sync_solar_api_warning
  handled-Lost s c = ground (arith, forgets s.bus)

  module _ {A : Type 0} (m : Exec W A) (s : WebControl W) where
    pub web_job-Lost :
        s.has_client ≡ true
        → (m s.bus).0 ≡ err (web auth_failed)
        → ((web_job site m s).0 ≡ err (refused web_api_auth_failed)) × Lost s (web_job site m s).1
    unfolding web_job after_web_job attempt zoom ◌>>=◌
    web_job-Lost c e = ground (arith, handled-Lost (record s { bus = (m s.bus).1 }))
