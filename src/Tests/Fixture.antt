-- ===== src/Tests/Fixture.antt =====
-- Two machines, one of them on offer at time 2000000, and a student who may reserve it.
use lab_gate.Prelude.{
  ℕ, zero, suc, Text, codes, List, [], ◌∷◌, Option, none, some, Bool, true, false, ◌≡◌, refl, arith,
}
use lab_gate.Store.{available, occupied, Machine, Credential, Db, unique_keys}
use lab_gate.Config.{Config}
use lab_gate.Core.Invariant.{IsSafe, CredentialIsSafe}
use lab_gate.Core.Booking.{Turn}
use lab_gate.Core.Booking.Safety.{OthersAreSafe}

abbrev pub desk : Machine
desk = record {
  id = codes "m1";
  name = codes "Desk 1";
  ip = codes "100.64.0.1";
  pin = some (codes "SHA256:1");
  token = codes "t1";
  status = available;
  hidden = false;
  heartbeat = some 1990000;
  hold = none;
}

abbrev pub in_use : Machine
in_use = record {
  id = codes "m2";
  name = codes "Desk 2";
  ip = codes "100.64.0.2";
  pin = some (codes "SHA256:2");
  token = codes "t2";
  status = occupied;
  hidden = false;
  heartbeat = some 1990000;
  hold = none;
}

-- A generation of `in_use` that nobody has opened, and whose time is over.
abbrev pub lapsed : Credential
lapsed = record {
  id = codes "generation-of-desk-2";
  machine_id = codes "m2";
  email = codes "b@ubu.ac.th";
  created = 1700000;
  expires = 1900000;
  revoked = none;
  opened = none;
  version = 1;
}

abbrev pub tables : Db
tables = record { machines = desk ∷ in_use ∷ []; credentials = lapsed ∷ []; audit = [] }

lapsed-IsSafe : CredentialIsSafe lapsed
lapsed-IsSafe = record {
  running = λ h. omega arith;
  ended = λ h. cc;
  reached = λ h. cc;
  active = λ h. absurd (omega arith);
}

pub tables-IsSafe : IsSafe tables
unfolding unique_keys lab_gate.Prelude.text_eq
tables-IsSafe = record {
  keyed = refl;
  rows = (λ e. record { unheld = refl; pinned = refl; idle = (refl, tt) }, ((λ e. cc), tt));
  generations = (lapsed-IsSafe, tt);
}

abbrev pub config : Config
config = record {
  origin = codes "https://labgate.ubu.ac.th";
  google_id = codes "id";
  google_secret = codes "secret";
  domain = codes "ubu.ac.th";
  admins = codes "admin@ubu.ac.th" ∷ [];
  registration_secret = codes "registration-secret-0001";
  cron_secret = codes "cron-secret-000000000001";
  password_length = 5;
  ttl = 180000;
}

-- A call that meets no fault and no other request.
abbrev pub turn : Turn
turn = record {
  now = 2000000;
  now_active = 2000100;
  now_failed = 2000200;
  id = codes "c1";
  draws = λ i. some i;
  audit_reserve = codes "a1";
  audit_active = codes "a2";
  audit_failed = codes "a3";
  issues = λ m id deadline word. true;
  locks = λ m id. true;
  fault_reserve = false;
  fault_active = false;
  fault_prepare = false;
  fault_finish = false;
  during_issue = λ db. db;
  before_prepare = λ db. db;
  during_lock = λ db. db;
}

-- The same call, where the machine does not answer.
abbrev pub unreachable : Turn
unreachable = record turn { issues = λ m id deadline word. false; locks = λ m id. false }

pub alone : OthersAreSafe turn (codes "m1")
alone = record {
  safe_issue = λ db v. v;
  safe_prepare = λ db v. v;
  safe_lock = λ db v. v;
  of_issue = λ db o. o;
  of_prepare = λ db o. o;
}

pub alone_unreachable : OthersAreSafe unreachable (codes "m1")
alone_unreachable = record {
  safe_issue = λ db v. v;
  safe_prepare = λ db v. v;
  safe_lock = λ db v. v;
  of_issue = λ db o. o;
  of_prepare = λ db o. o;
}
