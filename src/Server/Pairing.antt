-- ===== src/Server/Pairing.antt =====
-- internal/server/auth.go, `Pair`: a command line starts a pairing, an administrator approves it in a
-- browser, and the command line's poll takes a session for it.
pub mod Steps
pub mod Eviction
pub mod Refinement
pub mod Bound
pub mod Redeeming
use lab_gate.Prelude.{
  ℕ, zero, suc, ◌+◌, ◌-◌, leb, ltb, is_lower, precedes, Text, codes, List, [], ◌∷◌, ◌++◌, map,
  Option, none, some, Bool, true, false, not, ◌&&◌, ◌||◌, ◌==◌, text_eq, nat_eq, if◌then◌else◌,
  first, any, select, update, count, length, Error, fail, Result, ok, err, ◌>>=◌, drop,
}
use lab_gate.Config.{Config, admin}
use lab_gate.Store.{login, tx}
use lab_gate.Server.Tables.{
  Kind, web, cli, is_web, User, Login, Approval, Pairing, Site, is_unapproved, remove, insert_login,
  insert_pairing, log_event,
}
use lab_gate.Server.Request.{
  Request, Json, body, equal, Answer, status, failure, pending, confirmed, started, granted,
  Response, plain, problem, Moment,
}
use lab_gate.Server.Auth.{week, session, csrf}

-- `strings.ToUpper`, on ASCII.
abbrev pub upper_byte : ℕ → ℕ
upper_byte c = if is_lower c then c - 32 else c

-- ORDER BY expires_at DESC,id DESC
abbrev pub is_after : Pairing → Pairing → Bool
is_after p q = ltb q.expires p.expires || p.expires == q.expires && precedes q.id p.id

unfoldable pub place : Pairing → List Pairing → List Pairing
place p [] = p ∷ []
place p (q ∷ qs) = let rest = place p qs in if is_after p q then p ∷ q ∷ qs else q ∷ rest

unfoldable pub latest_first : List Pairing → List Pairing
unfolding place
latest_first [] = []
latest_first (p ∷ ps) = place p (latest_first ps)

-- `maxPendingPairings`
abbrev pub max_pending_pairings : ℕ
max_pending_pairings = 1024

-- The unapproved pairings behind the first `n` are deleted.
unfoldable pub evict : ℕ → List Pairing → List Pairing
unfolding latest_first
evict n ps =
    let old = drop n (latest_first (select is_unapproved ps)) in
    remove (λ p. any (λ q. q.id == p.id) old) ps

unfoldable pub start_pairing : Moment → Text → Text → Text → Site → Result (Unit {0} × Site)
unfolding evict
start_pairing w id secret_hash code s = do
  s' ←
      insert_pairing
        (record {
          id = id;
          secret_hash = secret_hash;
          code = code;
          expires = w.clock 0 + 300000;
          approval = none;
        })
        (record s {
          pairings =
              evict (max_pending_pairings - 1) (remove (λ p. leb p.expires (w.clock 1)) s.pairings);
        })
  ok (tt, s')

-- code=? AND expires_at>? AND approved_at IS NULL
abbrev pub is_code : Text → ℕ → Pairing → Bool
is_code code now p = p.code == code && ltb now p.expires && is_unapproved p

-- id=? AND expires_at>?
abbrev pub is_open : Text → ℕ → Pairing → Bool
is_open id now p = p.id == id && ltb now p.expires

-- What the three requests carry.
pub record Poll : Type 0 where
  pub id : Text
  pub secret : Text

module _ (hash : Text → Text) where
  abbrev pub was_started : Text → Text → Result (Unit {0}) × Site → Response × Site
  was_started id code (ok u, s) = (plain (started id code), s)
  was_started id code (err e, s) = (plain (problem e), s)

  abbrev pub start_with : Moment → Result Text → Site → Response × Site
  unfolding start_pairing
  start_with w (err e) s = (plain (problem e), s)
  start_with w (ok secret) s =
      if ltb (length secret) 32 || ltb 128 (length secret)
      then (plain (status 400), s)
      else (let code = map upper_byte (w.random 1) in
          was_started (w.random 0) code
            (tx w.fault (start_pairing w (w.random 0) (hash secret) code) s))

  unfoldable pub start : Moment → Request (Json Text) → Site → Response × Site
  start w r s = start_with w (body r.json) s

  abbrev pub approval_of : Moment → User → Approval
  approval_of w u = record { email = u.email; name = u.name; at = w.clock 1 }

  unfoldable pub approve_code : Moment → User → Text → Site → Response × Site
  approve_code w u code s =
      if w.fault
      then (plain (failure 500 "Operation failed; retry or check server diagnostics"), s)
      else (let n = count (is_code code (w.clock 2)) s.pairings in
          let s' = record s {
            pairings =
                update (is_code code (w.clock 2))
                  (λ p. record p { approval = some (approval_of w u) }) s.pairings;
          } in
          (
            plain (
                if n == 1
                then confirmed
                else failure 400 "Pairing code expired, unknown, or already approved"),
            s',
          ))

  abbrev pub approve_body : Moment → User → Result Text → Site → Response × Site
  approve_body w u (err e) s = (plain (problem e), s)
  approve_body w u (ok code) s = approve_code w u code s

  abbrev pub approve_by :
      Config → Moment → Request (Json Text) → Option (User × Text) → Site → Response × Site
  approve_by c w r none s = (plain (status 401), s)
  approve_by c w r (some (u, raw)) s =
      if not (admin c u.email) || not (is_web u.kind) || not (csrf hash c r raw u.kind)
      then (plain (status 403), s)
      else approve_body w u (body r.json) s

  unfoldable pub approve : Config → Moment → Request (Json Text) → Site → Response × Site
  approve c w r s = approve_by c w r (session hash c w r s) s

  abbrev pub expired {ℓ} : {A : Type ℓ} → Result A
  expired = err (fail 400 "Pairing expired or invalid")

  -- The token, or none while the pairing is unapproved.
  unfoldable pub redeem : Config → Moment → Pairing → Site → Result (Option Text × Site)
  redeem c w p s = elim p.approval [
    | none ↦ ok (none, s)
    | some a ↦
        (if not (admin c a.email) then err (fail 403 "Administrator access removed") else do
          s' ←
              insert_login
                (record {
                  token_hash = hash (w.random 0);
                  user = record { email = a.email; name = a.name; kind = cli };
                  expires = w.clock 1 + week;
                })
                (record s { pairings = remove (λ q. q.id == p.id) s.pairings })
          s'' ← log_event (w.random 1) a.email login (codes "CLI login") (w.clock 2) s'
          ok (some (w.random 0), s''))
  ]

  abbrev pub redeem_found :
      Config → Moment → Text → Option Pairing → Site → Result (Option Text × Site)
  redeem_found c w secret none s = expired
  redeem_found c w secret (some p) s =
      if w.unread || not (equal p.secret_hash (hash secret)) then expired else redeem c w p s

  abbrev pub polled : Result (Option Text) × Site → Response × Site
  polled (err e, s) = (plain (problem e), s)
  polled (ok none, s) = (plain pending, s)
  polled (ok (some raw), s) = (plain (granted raw), s)

  abbrev pub poll_for : Config → Moment → Result Poll → Site → Response × Site
  poll_for c w (err e) s = (plain (problem e), s)
  poll_for c w (ok b) s = polled (
      tx w.fault (λ s. redeem_found c w b.secret (first (is_open b.id (w.clock 0)) s.pairings) s) s)

  unfoldable pub poll : Config → Moment → Request (Json Poll) → Site → Response × Site
  poll c w r s = poll_for c w (body r.json) s

-- What the JSON library makes of a body, for each of the three requests.
pub record Bodies : Type 0 where
  pub secret : Json Text
  pub code : Json Text
  pub poll : Json Poll

abbrev pub with_json : {B C : Type 0} → Request B → C → Request C
with_json r json = record {
  method = r.method;
  path = r.path;
  authorization = r.authorization;
  session_cookie = r.session_cookie;
  oauth_cookie = r.oauth_cookie;
  origin = r.origin;
  csrf_token = r.csrf_token;
  query_state = r.query_state;
  query_code = r.query_code;
  json = json;
}

-- `Pair`
unfoldable pub handle_pair :
    (Text → Text) → Config → Moment → Request Bodies → Site → Response × Site
handle_pair hash c w r s =
    if not (r.method == codes "POST")
    then (plain (status 405), s)
    else if r.path == codes "/api/cli/start"
    then start hash w (with_json r r.json.secret) s
    else if r.path == codes "/api/cli/approve"
    then approve hash c w (with_json r r.json.code) s
    else if r.path == codes "/api/cli/poll"
    then poll hash c w (with_json r r.json.poll) s
    else (plain (status 404), s)
