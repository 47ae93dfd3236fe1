-- ===== src/Server/Routes.antt =====
-- internal/server/server.go, `handle` and `enroll`: what a request makes the server do, and for whom.
pub mod Admission
use lab_gate.Prelude.{
  ℕ, ◌-◌, Text, codes, String, List, [], ◌∷◌, Option, none, some, Bool, true, false, not, ◌&&◌,
  ◌||◌, ◌==◌, text_eq, if◌then◌else◌, has_prefix, has_suffix, drop_bytes, take, length, Error,
  Result, ok, err,
}
use lab_gate.Config.{Config, admin}
use lab_gate.Core.Report.{
  Endpoint, heartbeat, session_open, session_close, credential_expired, Report,
}
use lab_gate.Core.Enrollment.{Identity}
use lab_gate.Server.Tables.{User, Site}
use lab_gate.Server.Request.{
  Request, Json, body, token, equal, Answer, status, failure, problem, Moment,
}
use lab_gate.Server.Auth.{session, csrf}

-- What the JSON library makes of a body, for each operation that reads one.
pub record Payload : Type 0 where
  pub report : Json Report
  pub machine_id : Json Text
  pub hidden : Json (Option Bool)
  pub identity : Json Identity

-- What the server does: it answers at once, or calls the operation named, for the person named.
pub data Action : Type 0 where
  refused : Answer → Action
  health authenticate pair static login_page home readiness sweep logs : Action
  receive : Text → Endpoint → Report → Action
  enroll : Identity → Bool → Text → Action
  describe : User → Text → Action
  list : Bool → Action
  checkout : Text → Text → Action
  lapse : Text → Text → Action
  visibility : Text → Bool → Text → Action

abbrev pub with_body : {A : Type 0} → Result A → (A → Action) → Action
with_body (ok a) f = f a
with_body (err e) f = refused (problem e)

-- `strings.TrimPrefix`, of a prefix that is there, and `strings.TrimSuffix`
abbrev pub trim_prefix : Text → Text → Text
trim_prefix s p = drop_bytes (length p) s

abbrev pub trim_suffix : Text → Text → Text
trim_suffix s p = if has_suffix s p then take (length s - length p) s else s

abbrev pub endpoint_of : Text → Option Endpoint
endpoint_of e =
    if e == codes "heartbeat"
    then some heartbeat
    else if e == codes "session-open"
    then some session_open
    else if e == codes "session-close"
    then some session_close
    else if e == codes "credential-expired"
    then some credential_expired
    else none

abbrev pub report_to : Request Payload → Option Endpoint → Action
report_to r none = refused (status 404)
report_to r (some e) =
    with_body (body r.json.report) (λ report. receive (token r.authorization) e report)

unfoldable pub route_report : Request Payload → Action
route_report r =
    if not (r.method == codes "POST")
    then refused (status 405)
    else report_to r (endpoint_of (trim_prefix r.path (codes "/api/webhook/")))

unfoldable pub route_sweep : Config → Request Payload → Action
route_sweep c r =
    if not (r.method == codes "POST")
    then refused (status 405)
    else if not (equal (token r.authorization) c.cron_secret)
    then refused (failure 401 "Unauthorized")
    else sweep

-- `enroll`
unfoldable pub route_enroll : Request Payload → Text → Action
route_enroll r email =
    if r.method == codes "GET"
    then readiness
    else if not (r.method == codes "POST") && not (r.method == codes "PATCH")
    then refused (status 405)
    else with_body (body r.json.identity) (λ i. enroll i (r.method == codes "PATCH") email)

-- A page; those of the administrators are for them.
abbrev pub route_page : Config → Request Payload → Option (User × Text) → Action
route_page c r none = if has_prefix r.path (codes "/admin") then login_page else static
route_page c r (some (u, raw)) =
    if has_prefix r.path (codes "/admin") && not (admin c u.email) then home else static

abbrev pub named_machine : (Text → Action) → Text → Action
named_machine f mid = if mid == [] then refused (failure 400 "machineId is required") else f mid

abbrev pub set_hidden : Text → Text → Option Bool → Action
set_hidden path email none = refused (failure 400 "hidden must be boolean")
set_hidden path email (some hidden) =
    visibility (trim_suffix (trim_prefix path (codes "/api/admin/machines/")) (codes "/visibility"))
      hidden email

abbrev pub is_get : Request Payload → Bool
is_get r = r.method == codes "GET"

abbrev pub registration : Text
registration = codes "/api/admin/register-machine"

-- The switch over the paths, for a user who is admitted to it.
unfoldable pub route_switch : Request Payload → User → Text → Action
unfolding route_enroll
route_switch r u raw =
    if r.path == codes "/api/session" && is_get r
    then describe u raw
    else if r.path == codes "/api/machines" && is_get r
    then list false
    else if r.path == codes "/api/checkout" && r.method == codes "POST"
    then with_body (body r.json.machine_id) (named_machine (λ mid. checkout mid u.email))
    else if r.path == codes "/api/checkout/expire" && r.method == codes "POST"
    then with_body (body r.json.machine_id) (named_machine (λ mid. lapse mid u.email))
    else if r.path == codes "/api/admin/machines" && is_get r
    then list true
    else if r.path == codes "/api/admin/logs" && is_get r
    then logs
    else if has_prefix r.path (codes "/api/admin/machines/")
        && has_suffix r.path (codes "/visibility")
        && r.method == codes "PATCH"
    then with_body (body r.json.hidden) (set_hidden r.path u.email)
    else if r.path == registration
    then route_enroll r u.email
    else refused (failure 404 "Not found")

module _ (hash : Text → Text) (c : Config) where
  abbrev pub route_api : Request Payload → Option (User × Text) → Action
  unfolding route_switch
  route_api r none = refused (failure 401 "Unauthorized")
  route_api r (some (u, raw)) =
      if has_prefix r.path (codes "/api/admin/") && not (admin c u.email)
      then refused (failure 403 "Administrator required")
      else if not (is_get r) && not (csrf hash c r raw u.kind)
      then refused (failure 403 "Invalid request origin or CSRF token")
      else route_switch r u raw

  -- The installer's secret enrolls, and does no more.
  abbrev pub route_installer : Request Payload → Action
  route_installer r =
      if not (is_get r) && not (r.method == codes "POST")
      then refused (failure 403 "Administrator required")
      else route_enroll r []

  -- `handle`
  unfoldable pub route : Moment → Request Payload → Site → Action
  route w r s =
      if r.path == codes "/api/health" && is_get r
      then health
      else if has_prefix r.path (codes "/api/auth/")
      then authenticate
      else if has_prefix r.path (codes "/api/cli/")
      then pair
      else if has_prefix r.path (codes "/api/webhook/")
      then route_report r
      else if r.path == codes "/api/cron/sweep"
      then route_sweep c r
      else if r.path == registration && equal (token r.authorization) c.registration_secret
      then route_installer r
      else if not (has_prefix r.path (codes "/api/"))
      then route_page c r (session hash c w r s)
      else route_api r (session hash c w r s)
