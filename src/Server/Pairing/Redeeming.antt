-- ===== src/Server/Pairing/Redeeming.antt =====
-- internal/server/auth.go, `Pair`: a poll that is answered with a token.
use lab_gate.Prelude.{
  ℕ, ◌+◌, Text, codes, List, [], ◌∷◌, ◌++◌, Option, none, some, true, false, not, ◌||◌, ◌==◌,
  ==_iff, text_eq, nat_eq, first, first-eq-some, All-append, fail, unique, no_rows, io, other,
  Error, Result, ok, err, Ensures, Ensures-ok, Ensures-err, Ensures-then, Ensures-if, ◌≡◌, refl,
  sym, ap, ◌∙◌, Bool-cases, inl, inr, arith,
}
use lab_gate.Config.{Config, admin}
use lab_gate.Store.{login, tx}
use lab_gate.Server.Tables.{cli, Login, Approval, Pairing, Site, remove}
use lab_gate.Server.Tables.Transactions.{tx-ok, insert_login-Leaves, log_event-Leaves}
use lab_gate.Server.Request.{
  Request, Json, body, equal, Answer, failure, granted, Response, plain, problem, Moment,
}
use lab_gate.Server.Auth.{week}
use lab_gate.Server.Auth.Admission.{Entitled, AllEntitled}
use lab_gate.Server.Pairing.{is_open, Poll, redeem, redeem_found, polled, poll, Bodies, handle_pair}
use lab_gate.Server.Pairing.Steps.{Steps, stays, starts, approves, redeems, handle_pair-Steps}

-- A pairing of the id with the secret, which an administrator approved, gave way to a session of
-- theirs under the token, for a week.
pub record IsRedeemed (hash : Text → Text) (c : Config) (w : Moment) (b : Poll) (s : Site)
    (raw : Text) (s' : Site) : Type 0 where
  pairing : Pairing
  approval : Approval
  was_open : first (is_open b.id (w.clock 0)) s.pairings ≡ some pairing
  knows_secret : equal pairing.secret_hash (hash b.secret) ≡ true
  approved : pairing.approval ≡ some approval
  by_admin : admin c approval.email ≡ true
  used_up : s'.pairings ≡ remove (λ q. q.id == pairing.id) s.pairings
  opened :
      s'.logins
      ≡ s.logins
        ++ record {
          token_hash = hash raw;
          user = record { email = approval.email; name = approval.name; kind = cli };
          expires = w.clock 1 + week;
        }
          ∷ []

abbrev token_of : Answer → Option Text
token_of (granted raw) = some raw
token_of a = none

problem_grants_nothing : (e : Error) → token_of (problem e) ≡ none
unfolding problem
problem_grants_nothing (fail code message) = refl
problem_grants_nothing unique = refl
problem_grants_nothing no_rows = refl
problem_grants_nothing io = refl
problem_grants_nothing (other message) = refl

module _ (hash : Text → Text) (c : Config) (w : Moment) (b : Poll) (s : Site) where
  abbrev Outcome : Option Text × Site → Type 0
  Outcome (none, s') = Unit {0}
  Outcome (some raw, s') = IsRedeemed hash c w b s raw s'

  redeem-Outcome :
      (p : Pairing)
      → first (is_open b.id (w.clock 0)) s.pairings ≡ some p
      → equal p.secret_hash (hash b.secret) ≡ true
      → Ensures Outcome (redeem hash c w p s)
  unfolding redeem
  redeem-Outcome p f k = by_approval p.approval refl
    where
      row : Approval → Login
      row a = record {
        token_hash = hash (w.random 0);
        user = record { email = a.email; name = a.name; kind = cli };
        expires = w.clock 1 + week;
      }

      rest : Site
      rest = record s { pairings = remove (λ q. q.id == p.id) s.pairings }

      Left : Approval → List Login → List Pairing → Type 0
      Left a ls ps = (ps ≡ rest.pairings) × (ls ≡ s.logins ++ row a ∷ [])

      by_approval : (a : Option Approval) → p.approval ≡ a → Ensures Outcome (redeem hash c w p s)
      by_approval none e = rw e (Ensures-ok Outcome (none, s) tt)
      by_approval (some a) e = elim (Bool-cases (admin c a.email)) [
        | inr removed ↦
            rw (e, removed) (Ensures-err Outcome (fail 403 "Administrator access removed"))
        | inl good ↦
            rw (e, good)
              (Ensures-then Outcome (insert_login-Leaves (Left a) (row a) rest (refl, refl))
                (λ s' m.
                  Ensures-then Outcome
                    (log_event-Leaves (Left a) (w.random 1) a.email login (codes "CLI login")
                      (w.clock 2) s' m)
                    (λ s'' m'.
                      Ensures-ok Outcome (some (w.random 0), s'')
                        (record {
                          pairing = p;
                          approval = a;
                          was_open = f;
                          knows_secret = k;
                          approved = e;
                          by_admin = good;
                          used_up = m'.0;
                          opened = m'.1;
                        }))))
      ]

  found-Outcome :
      (p : Option Pairing)
      → first (is_open b.id (w.clock 0)) s.pairings ≡ p
      → Ensures Outcome (redeem_found hash c w b.secret p s)
  found-Outcome none e = Ensures-err Outcome (fail 400 "Pairing expired or invalid")
  found-Outcome (some p) e =
      Ensures-if Outcome (w.unread || not (equal p.secret_hash (hash b.secret)))
        (err (fail 400 "Pairing expired or invalid")) (redeem hash c w p s)
        (λ h. Ensures-err Outcome (fail 400 "Pairing expired or invalid"))
        (λ h. redeem-Outcome p e (ground (arith, h)))

  granted_by :
      (x : Result (Option Text) × Site) (raw : Text) (s' : Site)
      → polled hash x ≡ (plain (granted raw), s')
      → x ≡ (ok (some raw), s')
  granted_by (ok (some raw'), s'') raw s' h =
      let token : some raw' ≡ some raw = ap (λ (x : Response × Site). token_of x.0.answer) h in
      let left : s'' ≡ s' = ap (λ (x : Response × Site). x.1) h in
      ap (λ t. (ok t, s'')) token ∙ ap (λ z. (ok (some raw), z)) left
  granted_by (ok none, s'') raw s' h =
      let token : none ≡ some raw = ap (λ (x : Response × Site). token_of x.0.answer) h in cc
  granted_by (err e, s'') raw s' h =
      let token : token_of (problem e) ≡ some raw =
        ap (λ (x : Response × Site). token_of x.0.answer) h in
      let nothing = problem_grants_nothing e in cc (token, nothing)

-- A poll that is answered with a token has redeemed the pairing it names, under the secret it carries.
pub granted-IsRedeemed :
    (hash : Text → Text) (c : Config) (w : Moment) (r : Request (Json Poll)) (b : Poll) (s : Site)
    (raw : Text) (s' : Site)
    → body r.json ≡ ok b
    → poll hash c w r s ≡ (plain (granted raw), s')
    → IsRedeemed hash c w b s raw s'
unfolding poll
granted-IsRedeemed hash c w r b s raw s' e h =
    let x = granted_by hash c w b s _ raw s' (rw e at h) in
    let done =
      tx-ok w.fault
        (λ s. redeem_found hash c w b.secret (first (is_open b.id (w.clock 0)) s.pairings) s) s s'
        (some raw) x in
    let o = found-Outcome hash c w b s (first (is_open b.id (w.clock 0)) s.pairings) refl in
    o.at (some raw, s') done

gone :
    (id : Text) (now : ℕ) (p : Pairing) (ps : List Pairing)
    → p.id ≡ id
    → first (is_open id now) (remove (λ q. q.id == p.id) ps) ≡ none
gone id now p [] e = refl
gone id now p (q ∷ ps) e = ground (arith, e, gone id now p ps e)

-- A pairing gives one token: after a poll that is answered with one, a poll of the same pairing that
-- the database does not fail is refused, whatever secret it carries and whenever it comes.
pub granted_once :
    (hash : Text → Text) (c : Config) (w w' : Moment) (r r' : Request (Json Poll)) (b b' : Poll)
    (s : Site) (raw : Text) (s' : Site)
    → body r.json ≡ ok b
    → poll hash c w r s ≡ (plain (granted raw), s')
    → body r'.json ≡ ok b'
    → b'.id ≡ b.id
    → w'.fault ≡ false
    → (poll hash c w' r' s').0 ≡ plain (failure 400 "Pairing expired or invalid")
unfolding poll tx problem
granted_once hash c w w' r r' b b' s raw s' e h e' same fine =
    let d = granted-IsRedeemed hash c w r b s raw s' e h in
    let hit = first-eq-some (is_open b.id (w.clock 0)) s.pairings {a = d.pairing} d.was_open in
    let named : d.pairing.id ≡ b'.id =
      (==_iff d.pairing.id b.id).0 (ground (arith, hit)) ∙ sym same in
    rw (e', fine, d.used_up, gone b'.id (w'.clock 0) d.pairing s.pairings named) refl

-- Where each session's user is entitled to it, each is after a request to `Pair`, whatever it answers.
pub handle_pair-AllEntitled :
    (hash : Text → Text) (c : Config) (w : Moment) (r : Request Bodies) (s : Site)
    → AllEntitled c s.logins
    → AllEntitled c (handle_pair hash c w r s).1.logins
handle_pair-AllEntitled hash c w r s a = by_move (handle_pair-Steps hash c w r s)
  where
    by_move :
        {ls' : List Login} {ps' : List Pairing}
        → Steps c s.logins s.pairings ls' ps'
        → AllEntitled c ls'
    by_move (stays el ep) = rw el a
    by_move (starts now p u el ep) = rw el a
    by_move (approves code now ap good el ep) = rw el a
    by_move (redeems id now p ap l f e good u el ep) = rw el (
        All-append (λ l. Entitled c l.user) s.logins (l ∷ []) a
          (unfold Entitled in (rw u good), tt))
