-- ===== src/Tests/Signing.antt =====
-- The theorems on an administrator who signs in, and pairs a command line.
use lab_gate.Prelude.{
  ◌+◌, ◌-◌, ◌≤◌, ap, codes, Text, [], ◌∷◌, text_eq, nat_eq, Option, none, some, true, false, ◌≡◌,
  refl, ok, map, length, lower, count, All, Lacks, arith, has_prefix, has_suffix,
}
use lab_gate.Config.{allowed, admin}
use lab_gate.Store.{distinct, unique_keys, constrained, audit, tx}
use lab_gate.Server.Tables.{web, User, Pairing, Site, is_unapproved, insert_login, log_event}
use lab_gate.Server.Request.{
  Request, Json, object, undecodable, body, token, equal, granted, failure, plain, Moment,
}
use lab_gate.Server.Binding.{bind, unbind}
use lab_gate.Server.Binding.Trust.{IsOurs, unbind-IsOurs, unbind-bind}
use lab_gate.Server.Auth.{session, csrf, Provider, handle_auth}
use lab_gate.Server.Auth.Admission.{Entitled, AllEntitled, handle_auth-AllEntitled}
use lab_gate.Server.Pairing.{Bodies, Poll, poll, redeem, handle_pair}
use lab_gate.Server.Pairing.Bound.{unapproved_are_bounded}
use lab_gate.Server.Pairing.Redeeming.{
  IsRedeemed, granted-IsRedeemed, granted_once, handle_pair-AllEntitled,
}
use lab_gate.Server.Routes.{Payload, visibility, route, route_switch}
use lab_gate.Server.Lapse.{lapse, expires, IsOwnLapsed, expires-IsOwnLapsed}
use lab_gate.Tests.Fixture.{tables, config}

-- A hash that marks what it is given, and a MAC and base64 that change nothing.
abbrev hash : Text → Text
hash s = b'#' ∷ s

abbrev unchanged : Text → Text
unchanged s = s

abbrev read_same : Text → Option Text
read_same s = some s

abbrev boss : User
boss = record { email = codes "admin@ubu.ac.th"; name = codes "Ad Min"; kind = web }

abbrev approved : Pairing
approved = record {
  id = codes "p1";
  secret_hash = hash (codes "s1");
  code = codes "AB12";
  expires = 900;
  approval = some (record { email = codes "admin@ubu.ac.th"; name = codes "Ad Min"; at = 500 });
}

abbrev waiting : Pairing
waiting = record approved { id = codes "p2"; code = codes "CD34"; approval = none }

abbrev site : Site
site = record {
  db = tables;
  logins = record { token_hash = hash (codes "raw"); user = boss; expires = 9000 } ∷ [];
  pairings = approved ∷ waiting ∷ [];
  people = [];
}

site-AllEntitled : AllEntitled config site.logins
unfolding Entitled allowed has_suffix lower nat_eq text_eq
site-AllEntitled = (refl, tt)

abbrev moment : Moment
moment = record { clock = λ i. 600 + i; random = λ i. i ∷ []; unread = false; fault = false }

abbrev poll_body : Poll
poll_body = record { id = codes "p1"; secret = codes "s1" }

abbrev request : {B : Type 0} → Text → Text → B → Request B
request method path json = record {
  method = method;
  path = path;
  authorization = [];
  session_cookie = some (codes "raw");
  oauth_cookie = none;
  origin = config.origin;
  csrf_token = hash (codes "rawcsrf");
  query_state = [];
  query_code = [];
  json = json;
}

abbrev bodies : Bodies
bodies = record { secret = undecodable; code = undecodable; poll = object poll_body true }

abbrev poll_request : Request (Json Poll)
poll_request = request (codes "POST") (codes "/api/cli/poll") (object poll_body true)

abbrev pair_request : Request Bodies
pair_request = request (codes "POST") (codes "/api/cli/poll") bodies

abbrev after_poll : Site
after_poll = (poll hash config moment poll_request site).1

poll_body_read : body poll_request.json ≡ ok poll_body
unfolding body
poll_body_read = refl

token_granted : poll hash config moment poll_request site ≡ (plain (granted (0 ∷ [])), after_poll)
unfolding poll redeem body equal tx admin allowed has_suffix lower insert_login log_event audit
    constrained distinct unique_keys nat_eq text_eq
token_granted = refl

granted-IsRedeemed_example : IsRedeemed hash config moment poll_body site (0 ∷ []) after_poll
granted-IsRedeemed_example =
    granted-IsRedeemed hash config moment poll_request poll_body site (0 ∷ []) after_poll
      poll_body_read token_granted

granted_once_example :
    (poll hash config moment poll_request after_poll).0
    ≡ plain (failure 400 "Pairing expired or invalid")
granted_once_example =
    granted_once hash config moment moment poll_request poll_request poll_body poll_body site
      (0 ∷ []) after_poll poll_body_read token_granted poll_body_read refl refl

unapproved_are_bounded_example :
    count is_unapproved (handle_pair hash config moment pair_request site).1.pairings ≤ 1024
unapproved_are_bounded_example =
    unapproved_are_bounded hash config moment pair_request site (omega arith)

handle_pair-AllEntitled_example :
    AllEntitled config (handle_pair hash config moment pair_request site).1.logins
handle_pair-AllEntitled_example =
    handle_pair-AllEntitled hash config moment pair_request site site-AllEntitled

abbrev provider : Provider
provider = record { exchange = λ code verifier. none; discovered = true; verify = λ raw. none }

abbrev sign_out_request : Request Bodies
sign_out_request = request (codes "POST") (codes "/api/auth/sign-out") bodies

handle_auth-AllEntitled_example :
    AllEntitled config
      (handle_auth hash unchanged unchanged read_same config moment provider sign_out_request
        site).1.logins
handle_auth-AllEntitled_example =
    handle_auth-AllEntitled hash unchanged unchanged read_same config moment provider
      sign_out_request site site-AllEntitled

-- An encoding that writes no dot.
abbrev raised : Text → Text
raised s = map (λ c. c + 47) s

abbrev lowered : Text → Option Text
lowered s = some (map (λ c. c - 47) s)

raised-Lacks : (s : Text) → Lacks b'.' (raised s)
raised-Lacks [] = refl
raised-Lacks (c ∷ s) = ground (arith, raised-Lacks s)

lowered-raised : (s : Text) → lowered (raised s) ≡ some s
lowered-raised s = ap some (back s)
  where
    back : (s : Text) → map (λ c. c - 47) (raised s) ≡ s
    back [] = refl
    back (c ∷ s) = let head : c + 47 - 47 ≡ c = omega arith in cc (head, back s)

no_dots : All (Lacks b'.') (codes "st" ∷ codes "no" ∷ codes "ve" ∷ [])
unfolding nat_eq
no_dots = (refl, (refl, (refl, tt)))

not_empty : All (λ s. 1 ≤ length s) (codes "st" ∷ codes "no" ∷ codes "ve" ∷ [])
not_empty = (omega arith, (omega arith, (omega arith, tt)))

abbrev cookie : Text
cookie = bind unchanged raised lowered (codes "st") (codes "no") (codes "ve") 900

unbind-bind_example :
    unbind unchanged raised lowered 600 cookie (codes "st") ≡ some (codes "no", codes "ve")
unbind-bind_example =
    unbind-bind unchanged raised lowered (codes "st") (codes "no") (codes "ve") 600 900 raised-Lacks
      lowered-raised no_dots not_empty (omega arith) (omega arith)

cookie_taken :
    unbind unchanged raised lowered 600 cookie (codes "st") ≡ some (codes "no", codes "ve")
cookie_taken =
    unbind-bind unchanged raised lowered (codes "st") (codes "no") (codes "ve") 600 900 raised-Lacks
      lowered-raised no_dots not_empty (omega arith) (omega arith)

unbind-IsOurs_example :
    IsOurs unchanged raised lowered 600 cookie (codes "st") (codes "no") (codes "ve")
unbind-IsOurs_example =
    unbind-IsOurs unchanged raised lowered 600 cookie (codes "st") (codes "no") (codes "ve")
      cookie_taken

abbrev hide_request : Request Payload
hide_request = record {
  method = codes "PATCH";
  path = codes "/api/admin/machines/m1/visibility";
  authorization = [];
  session_cookie = some (codes "raw");
  oauth_cookie = none;
  origin = config.origin;
  csrf_token = hash (codes "rawcsrf");
  query_state = [];
  query_code = [];
  json = record {
    report = undecodable;
    machine_id = undecodable;
    hidden = object (some true) true;
    identity = undecodable;
  };
}

hides_m1 :
    route hash config moment hide_request site
    ≡ visibility (codes "m1") true (codes "admin@ubu.ac.th")
unfolding route route_switch session csrf token equal body admin allowed has_prefix has_suffix lower
    nat_eq text_eq
hides_m1 = refl

lapsed_now :
    lapse false false 1950000 (codes "m2") (codes "B@ubu.ac.th") tables
    ≡ expires (codes "generation-of-desk-2")
unfolding lapse lower text_eq nat_eq
lapsed_now = refl

expires-IsOwnLapsed_example :
    IsOwnLapsed 1950000 (codes "m2") (codes "B@ubu.ac.th") tables (codes "generation-of-desk-2")
expires-IsOwnLapsed_example =
    expires-IsOwnLapsed false false 1950000 (codes "m2") (codes "B@ubu.ac.th") tables
      (codes "generation-of-desk-2") lapsed_now
