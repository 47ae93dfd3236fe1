-- ===== src/Core/Report.antt =====
-- internal/core/lifecycle.go: a machine's report and what makes it valid. A negative version stands
-- as 0, which is no version either.
use lab_gate.Prelude.{
  ℕ, Text, codes, Option, none, some, Bool, true, false, not, ◌&&◌, ◌==◌, text_eq, nat_eq,
  if◌then◌else◌,
}
use lab_gate.Core.Identity.{credential_id}

-- The endpoints that the server routes to `Webhook`; any other is answered 404.
pub data Endpoint : Type 0 where
  heartbeat session_open session_close credential_expired : Endpoint

abbrev pub is_heartbeat : Endpoint → Bool
is_heartbeat heartbeat = true
is_heartbeat e = false

pub record Report : Type 0 where
  pub id : Option Text
  pub version : Option ℕ
  pub locked : Option Bool
  pub active : Option Bool
  pub state : Option Text

abbrev id_fits : Option Text → Bool
id_fits none = true
id_fits (some id) = credential_id id

-- The version that an event carries.
abbrev pub event_version : Endpoint → ℕ
event_version session_open = 2
event_version e = 3

event_valid : Endpoint → Option Text → Option ℕ → Bool
event_valid e none version = false
event_valid e (some id) none = false
event_valid e (some id) (some v) = v == event_version e

state_valid : Text → ℕ → Bool → Bool → Bool
state_valid s v locked active =
    if s == codes "pending"
    then v == 1 && not active && not locked
    else if s == codes "active"
    then v == 2 && active && not locked
    else if s == codes "revoked"
    then v == 3 && not active && locked
    else false

generation_valid : Option Text → Option ℕ → Bool → Bool → Bool
unfolding state_valid
generation_valid none version locked active = false
generation_valid (some s) none locked active = false
generation_valid (some s) (some v) locked active = state_valid s v locked active

heartbeat_valid : Report → Option Bool → Option Bool → Bool
unfolding generation_valid
heartbeat_valid r none active = false
heartbeat_valid r (some locked) none = false
heartbeat_valid r (some locked) (some active) = elim r.id [
  | none ↦ elim r.state [
    | none ↦ elim r.version [ none ↦ not active | some v ↦ false ]
    | some s ↦ false
  ]
  | some id ↦ generation_valid r.state r.version locked active
]

unfoldable pub valid : Endpoint → Report → Bool
unfolding event_valid heartbeat_valid
valid e r =
    id_fits r.id
    && (if is_heartbeat e
        then heartbeat_valid r r.locked r.active
        else event_valid e r.id r.version)
