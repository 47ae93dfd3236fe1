-- ===== src/Server/Routes/Admission.antt =====
-- internal/server/server.go, `handle`: what a request carries, and what it makes the server do.
use lab_gate.Prelude.{Text, codes, [], ◌++◌, some, true, false, has_prefix, ◌≡◌, ◌≢◌, ◌⊎◌}
use lab_gate.Config.{Config, admin}
use lab_gate.Server.Tables.{cli, User, Site}
use lab_gate.Server.Request.{Request, token, equal, Moment}
use lab_gate.Server.Auth.{session}
use lab_gate.Server.Routes.{
  Payload, Action, static, readiness, sweep, logs, receive, enroll, describe, list, checkout, lapse,
  visibility, is_get,
}

module _ (hash : Text → Text) (c : Config) (w : Moment) (r : Request Payload) (s : Site) where
  -- What keeps another site from sending the request with the session of its visitor: it only reads,
  -- or a command line sends it with a bearer token, or it names the server's own origin and has the
  -- token that the page computed from the session.
  pub data IsGuarded (u : User) (raw : Text) : Type 0 where
    reads : is_get r ≡ true → IsGuarded u raw
    bearer : u.kind ≡ cli → token r.authorization ≢ [] → IsGuarded u raw
    tagged : r.origin ≡ c.origin → r.csrf_token ≡ hash (raw ++ codes "csrf") → IsGuarded u raw

  -- The request is from a session of this person, and is guarded.
  pub record IsFrom (u : User) (raw : Text) : Type 0 where
    signed_in : session hash c w r s ≡ some (u, raw)
    guarded : IsGuarded u raw

  pub record IsFromUser (email : Text) : Type 0 where
    user : User
    raw : Text
    is_from : IsFrom user raw
    named : user.email ≡ email

  pub record IsFromAdmin (email : Text) : Type 0 where
    user : User
    raw : Text
    is_from : IsFrom user raw
    named : user.email ≡ email
    entitled : admin c user.email ≡ true

  -- The session of an administrator, for a page.
  pub record IsAdminPage : Type 0 where
    user : User
    raw : Text
    signed_in : session hash c w r s ≡ some (user, raw)
    entitled : admin c user.email ≡ true

  pub record IsFromInstaller : Type 0 where
    secret : equal (token r.authorization) c.registration_secret ≡ true

  -- What each action needs: a sweep the secret of the timer, an enrollment an administrator or, for a
  -- new machine, the installer's secret, all else in the administrators' routes an administrator, and
  -- a checkout and a return the user they are for.
  unfoldable pub Needs : Action → Type 0
  Needs sweep = equal (token r.authorization) c.cron_secret ≡ true
  Needs readiness = IsFromInstaller ⊎ ((email : Text) × IsFromAdmin email)
  Needs (enroll i false email) = (IsFromInstaller × email ≡ []) ⊎ IsFromAdmin email
  Needs (enroll i true email) = IsFromAdmin email
  Needs (receive t e report) = t ≡ token r.authorization
  Needs (describe u raw) = IsFrom u raw
  Needs (list false) = (email : Text) × IsFromUser email
  Needs (list true) = (email : Text) × IsFromAdmin email
  Needs logs = (email : Text) × IsFromAdmin email
  Needs (checkout mid email) = IsFromUser email
  Needs (lapse mid email) = IsFromUser email
  Needs (visibility id hidden email) = IsFromAdmin email
  Needs static = (has_prefix r.path (codes "/admin") ≡ false) ⊎ IsAdminPage
  Needs a = Unit {0}

  pub record Allows (a : Action) : Type 0 where
    met : Needs a
