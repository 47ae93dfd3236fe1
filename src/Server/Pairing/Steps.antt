-- ===== src/Server/Pairing/Steps.antt =====
-- internal/server/auth.go, `Pair`: what a request makes of the sessions and the pairings.
use lab_gate.Prelude.{
  ◌+◌, ◌-◌, ℕ, leb, ltb, Text, codes, List, [], ◌∷◌, ◌++◌, map, Option, none, some, Bool, true,
  false, not, ◌||◌, ◌==◌, text_eq, nat_eq, if◌then◌else◌, first, update, length, fail, Result, ok,
  err, Ensures, Ensures-ok, Ensures-err, Ensures-then, Ensures-if, ◌≡◌, refl, Bool-cases, inl, inr,
  arith,
}
use lab_gate.Config.{Config, admin}
use lab_gate.Store.{login, tx}
use lab_gate.Server.Tables.{
  cli, is_web, User, Login, Approval, Pairing, Site, is_unapproved, remove,
}
use lab_gate.Server.Tables.Transactions.{
  tx-keeps, insert_login-Leaves, insert_pairing-Leaves, log_event-Leaves,
}
use lab_gate.Server.Request.{Request, Json, body, equal, status, plain, Response, Moment}
use lab_gate.Server.Auth.{week, session, csrf}
use lab_gate.Server.Pairing.{
  max_pending_pairings, upper_byte, evict, start_pairing, is_code, is_open, Poll, was_started,
  start_with, start, approval_of, approve_code, approve_body, approve_by, approve, redeem,
  redeem_found, polled, poll_for, poll, Bodies, with_json, handle_pair,
}

-- A request to `Pair` leaves the tables, makes room for a new pairing that is unapproved, has an
-- administrator approve the pairing of a code, or turns one that an administrator approved into a
-- session of theirs.
pub data Steps (c : Config) (ls : List Login) (ps : List Pairing) (ls' : List Login)
    (ps' : List Pairing) : Type 0 where
  stays : ls' ≡ ls → ps' ≡ ps → Steps c ls ps ls' ps'
  starts :
      (now : ℕ) (p : Pairing)
      → is_unapproved p ≡ true
      → ls' ≡ ls
      → ps' ≡ evict 1023 (remove (λ q. leb q.expires now) ps) ++ p ∷ []
      → Steps c ls ps ls' ps'
  approves :
      (code : Text) (now : ℕ) (a : Approval)
      → admin c a.email ≡ true
      → ls' ≡ ls
      → ps' ≡ update (is_code code now) (λ p. record p { approval = some a }) ps
      → Steps c ls ps ls' ps'
  redeems :
      (id : Text) (now : ℕ) (p : Pairing) (a : Approval) (l : Login)
      → first (is_open id now) ps ≡ some p
      → p.approval ≡ some a
      → admin c a.email ≡ true
      → l.user ≡ record { email = a.email; name = a.name; kind = cli }
      → ls' ≡ ls ++ l ∷ []
      → ps' ≡ remove (λ q. q.id == p.id) ps
      → Steps c ls ps ls' ps'

module _ (hash : Text → Text) (c : Config) (w : Moment) where
  abbrev StepsTo : Site → Site → Type 0
  StepsTo s s' = Steps c s.logins s.pairings s'.logins s'.pairings

  -- An answer with the tables that a move leaves.
  record Makes (s : Site) (x : Response × Site) : Type 0 where
    move : StepsTo s x.1

  if-Makes :
      (b : Bool) (s : Site) (x y : Response × Site)
      → StepsTo s x.1
      → Makes s y
      → Makes s (if b then x else y)
  if-Makes true s x y m n = record { move = m }
  if-Makes false s x y m n = n

  still : (s : Site) → StepsTo s s
  still s = stays refl refl

  start_pairing-StepsTo :
      (id secret_hash code : Text) (s : Site)
      → Ensures (λ (x : Unit {0} × Site). StepsTo s x.1) (start_pairing w id secret_hash code s)
  unfolding start_pairing
  start_pairing-StepsTo id secret_hash code s =
      Ensures-then (λ (x : Unit {0} × Site). StepsTo s x.1)
        (insert_pairing-Leaves (Steps c s.logins s.pairings)
          (record {
            id = id;
            secret_hash = secret_hash;
            code = code;
            expires = w.clock 0 + 300000;
            approval = none;
          })
          (record s {
            pairings =
                evict (max_pending_pairings - 1)
                  (remove (λ p. leb p.expires (w.clock 1)) s.pairings);
          })
          (starts (w.clock 1) _ refl refl refl))
        (λ s' m. Ensures-ok (λ (x : Unit {0} × Site). StepsTo s x.1) (tt, s') m)

  was_started-StepsTo :
      (id code : Text) (s : Site) (x : Result (Unit {0}) × Site)
      → StepsTo s x.1
      → StepsTo s (was_started hash id code x).1
  was_started-StepsTo id code s (ok u, s') m = m
  was_started-StepsTo id code s (err e, s') m = m

  start-StepsTo : (b : Result Text) (s : Site) → StepsTo s (start_with hash w b s).1
  unfolding start_with
  start-StepsTo (err e) s = still s
  start-StepsTo (ok secret) s =
      elim (Bool-cases (ltb (length secret) 32 || ltb 128 (length secret))) [
        | inl refused ↦ rw refused (still s)
        | inr fits ↦
            rw fits (was_started-StepsTo (w.random 0) (map upper_byte (w.random 1)) s _ made)
      ]
    where
      made :
          StepsTo s
            (tx w.fault
              (start_pairing w (w.random 0) (hash secret) (map upper_byte (w.random 1)))
              s).1
      made =
          tx-keeps (StepsTo s) w.fault
            (start_pairing w (w.random 0) (hash secret) (map upper_byte (w.random 1))) s (still s)
            (start_pairing-StepsTo (w.random 0) (hash secret) (map upper_byte (w.random 1)) s)

  approve_code-StepsTo :
      (u : User) (code : Text) (s : Site)
      → admin c u.email ≡ true
      → StepsTo s (approve_code hash w u code s).1
  unfolding approve_code
  approve_code-StepsTo u code s h = elim (Bool-cases w.fault) [
    | inl broken ↦ rw broken (still s)
    | inr fine ↦ rw fine (approves code (w.clock 2) (approval_of hash w u) h refl refl)
  ]

  approve_body-StepsTo :
      (u : User) (b : Result Text) (s : Site)
      → admin c u.email ≡ true
      → StepsTo s (approve_body hash w u b s).1
  approve_body-StepsTo u (err e) s h = still s
  approve_body-StepsTo u (ok code) s h = approve_code-StepsTo u code s h

  approve_by-StepsTo :
      (r : Request (Json Text)) (u : Option (User × Text)) (s : Site)
      → StepsTo s (approve_by hash c w r u s).1
  approve_by-StepsTo r none s = still s
  approve_by-StepsTo r (some (u, raw)) s =
      elim (Bool-cases
        (not (admin c u.email) || not (is_web u.kind) || not (csrf hash c r raw u.kind))) [
          | inl refused ↦ rw refused (still s)
          | inr admitted ↦
              rw admitted (approve_body-StepsTo u (body r.json) s (ground (arith, admitted)))
        ]

  redeem-StepsTo :
      (id : Text) (p : Pairing) (s : Site)
      → first (is_open id (w.clock 0)) s.pairings ≡ some p
      → Ensures (λ (x : Option Text × Site). StepsTo s x.1) (redeem hash c w p s)
  unfolding redeem
  redeem-StepsTo id p s f = by_approval p.approval refl
    where
      Q : Option Text × Site → Type 0
      Q x = StepsTo s x.1

      row : Approval → Login
      row a = record {
        token_hash = hash (w.random 0);
        user = record { email = a.email; name = a.name; kind = cli };
        expires = w.clock 1 + week;
      }

      by_approval :
          (a : Option Approval)
          → p.approval ≡ a
          → Ensures (λ (x : Option Text × Site). StepsTo s x.1) (redeem hash c w p s)
      by_approval none e =
          rw e (Ensures-ok (λ (x : Option Text × Site). StepsTo s x.1) (none, s) (still s))
      by_approval (some a) e = elim (Bool-cases (admin c a.email)) [
        | inr removed ↦
            rw (e, removed)
              (Ensures-err (λ (x : Option Text × Site). StepsTo s x.1)
                (fail 403 "Administrator access removed"))
        | inl good ↦
            rw (e, good)
              (Ensures-then Q
                (insert_login-Leaves (Steps c s.logins s.pairings) (row a)
                  (record s { pairings = remove (λ q. q.id == p.id) s.pairings })
                  (redeems id (w.clock 0) p a (row a) f e good refl refl refl))
                (λ s' m.
                  Ensures-then Q
                    (log_event-Leaves (Steps c s.logins s.pairings) (w.random 1) a.email login
                      (codes "CLI login") (w.clock 2) s' m)
                    (λ s'' m'. Ensures-ok Q (some (w.random 0), s'') m')))
      ]

  polled-StepsTo :
      (s : Site) (x : Result (Option Text) × Site) → StepsTo s x.1 → StepsTo s (polled hash x).1
  polled-StepsTo s (err e, s') m = m
  polled-StepsTo s (ok none, s') m = m
  polled-StepsTo s (ok (some raw), s') m = m

  poll-StepsTo : (b : Result Poll) (s : Site) → StepsTo s (poll_for hash c w b s).1
  poll-StepsTo (err e) s = still s
  poll-StepsTo (ok b) s = polled-StepsTo s _ (
      tx-keeps (StepsTo s) w.fault
        (λ s. redeem_found hash c w b.secret (first (is_open b.id (w.clock 0)) s.pairings) s) s
        (still s) (found (first (is_open b.id (w.clock 0)) s.pairings) refl))
    where
      found :
          (p : Option Pairing)
          → first (is_open b.id (w.clock 0)) s.pairings ≡ p
          → Ensures (λ (x : Option Text × Site). StepsTo s x.1) (redeem_found hash c w b.secret p s)
      found none e =
          Ensures-err (λ (x : Option Text × Site). StepsTo s x.1)
            (fail 400 "Pairing expired or invalid")
      found (some p) e =
          Ensures-if (λ (x : Option Text × Site). StepsTo s x.1)
            (w.unread || not (equal p.secret_hash (hash b.secret)))
            (err (fail 400 "Pairing expired or invalid")) (redeem hash c w p s)
            (λ h.
              Ensures-err (λ (x : Option Text × Site). StepsTo s x.1)
                (fail 400 "Pairing expired or invalid"))
            (λ h. redeem-StepsTo b.id p s e)

  handle_pair-Makes : (r : Request Bodies) (s : Site) → Makes s (handle_pair hash c w r s)
  unfolding handle_pair start approve poll
  handle_pair-Makes r s =
      if-Makes (not (r.method == codes "POST")) s (plain (status 405), s) _ (still s)
        (if-Makes (r.path == codes "/api/cli/start") s (start hash w (with_json r r.json.secret) s)
          _ (start-StepsTo (body r.json.secret) s)
          (if-Makes (r.path == codes "/api/cli/approve") s
            (approve hash c w (with_json r r.json.code) s) _
            (approve_by-StepsTo (with_json r r.json.code)
              (session hash c w (with_json r r.json.code) s) s)
            (if-Makes (r.path == codes "/api/cli/poll") s
              (poll hash c w (with_json r r.json.poll) s) (plain (status 404), s)
              (poll-StepsTo (body r.json.poll) s) (record { move = still s }))))

pub handle_pair-Steps :
    (hash : Text → Text) (c : Config) (w : Moment) (r : Request Bodies) (s : Site)
    → let s' = (handle_pair hash c w r s).1 in Steps c s.logins s.pairings s'.logins s'.pairings
handle_pair-Steps hash c w r s = let m = handle_pair-Makes hash c w r s in m.move
