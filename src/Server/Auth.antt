-- ===== src/Server/Auth.antt =====
-- internal/server/auth.go, `Session`, `CSRF`, `createSession` and `Handle`: who a request is from, and
-- how a browser signs in and out. The hash, the MAC, base64 and the OAuth client are parameters.
pub mod Admission
use lab_gate.Prelude.{
  ℕ, suc, ◌+◌, ◌*◌, leb, ltb, Text, codes, String, List, [], ◌∷◌, ◌++◌, lower, Option, none, some,
  Bool, true, false, not, ◌&&◌, ◌||◌, ◌==◌, text_eq, nat_eq, if◌then◌else◌, first, any, Error, fail,
  Result, ok, err, ◌>>=◌,
}
use lab_gate.Config.{Config, allowed}
use lab_gate.Store.{login, logout, tx}
use lab_gate.Server.Tables.{
  Kind, web, cli, is_web, User, Login, Person, Site, remove, insert_login, insert_person, log_event,
}
use lab_gate.Server.Request.{
  Request, token, equal, Cookie, kept, deleted, Answer, status, failure, redirect, to_provider,
  signed_out, Response, plain, problem, Moment,
}
use lab_gate.Server.Binding.{bind, unbind}

abbrev pub week : ℕ
week = 604800000

module _ (hash : Text → Text) where
  -- The token of a request, or else its cookie.
  abbrev pub raw_token : {B : Type 0} → Request B → Text
  raw_token r =
      let t = token r.authorization in
      if t == [] then elim r.session_cookie [ none ↦ [] | some c ↦ c ] else t

  -- token_hash=? AND expires_at>?
  abbrev pub is_login : Text → ℕ → Login → Bool
  is_login raw now l = l.token_hash == hash raw && ltb now l.expires

  -- A token belongs to a command line, a cookie to a browser.
  abbrev pub fits_kind : Text → Kind → Bool
  fits_kind t web = t == []
  fits_kind t cli = not (t == [])

  abbrev pub admitted : Config → Text → Text → Option Login → Option (User × Text)
  admitted c t raw none = none
  admitted c t raw (some l) =
      if allowed c l.user.email && fits_kind t l.user.kind then some (l.user, raw) else none

  unfoldable pub session : {B : Type 0} → Config → Moment → Request B → Site → Option (User × Text)
  session c w r s =
      let raw = raw_token r in
      if raw == [] || w.unread
      then none
      else admitted c (token r.authorization) raw (first (is_login raw (w.clock 0)) s.logins)

  unfoldable pub csrf : {B : Type 0} → Config → Request B → Text → Kind → Bool
  csrf c r raw kind =
      if not (is_web kind) && not (token r.authorization == [])
      then true
      else r.origin == c.origin && equal r.csrf_token (hash (raw ++ codes "csrf"))

  -- LOWER(email)=?
  abbrev pub has_email : Text → Person → Bool
  has_email email p = lower p.email == email

  -- The user is written at the first sign-in.
  unfoldable pub know : User → ℕ → Text → Site → Result Site
  know u now id s =
      let known = any (has_email u.email) s.people in
      if known
      then ok s
      else insert_person (record { id = id; name = u.name; email = u.email; created = now }) s

  -- The statements of `createSession`.
  unfoldable pub open_session : Moment → User → Site → Result (Text × Site)
  unfolding know
  open_session w u s = do
    s' ←
        insert_login
          (record { token_hash = hash (w.random 0); user = u; expires = w.clock 2 + week }) s
    s'' ← know u (w.clock 1) (w.random 1) s'
    s3 ← log_event (w.random 2) u.email login [] (w.clock 1) s''
    ok (w.random 0, s3)

  unfoldable pub create_session : Moment → User → Site → Result Text × Site
  unfolding open_session
  create_session w u s = tx w.fault (open_session w u) s

  -- The row is deleted, and that it was is logged.
  unfoldable pub forget : Moment → User → Text → Site → Result (Unit {0} × Site)
  forget w u raw s =
      let was = any (λ l. l.token_hash == hash raw) s.logins in
      let s' = record s { logins = remove (λ l. l.token_hash == hash raw) s.logins } in
      if was
      then (do s'' ← log_event (w.random 0) u.email logout [] (w.clock 1) s'; ok (tt, s''))
      else ok (tt, s')

  abbrev pub over : Response
  over = record { cookies = deleted (codes "labgate_session") ∷ []; answer = signed_out }

  abbrev pub ended : Result (Unit {0}) × Site → Response × Site
  ended (ok u, s) = (over, s)
  ended (err e, s) = (plain (problem e), s)

  abbrev pub leave :
      {B : Type 0} → Config → Moment → Request B → Option (User × Text) → Site → Response × Site
  unfolding forget
  leave c w r none s = (over, s)
  leave c w r (some (u, raw)) s =
      if not (csrf c r raw u.kind)
      then (plain (status 403), s)
      else ended (tx w.fault (forget w u raw) s)

  unfoldable pub sign_out : {B : Type 0} → Config → Moment → Request B → Site → Response × Site
  sign_out c w r s =
      if not (r.method == codes "POST")
      then (plain (status 405), s)
      else leave c w r (session c w r s) s

-- What the provider's token says of a person.
pub record Claims : Type 0 where
  pub email : Text
  pub verified : Bool
  pub name : Text
  pub domain : Text

-- The OAuth client: the exchange of a code, with the identity token if there is one, the discovery of
-- the provider, and a token's nonce and claims.
pub record Provider : Type 0 where
  pub exchange : Text → Text → Option (Option Text)
  pub discovered : Bool
  pub verify : Text → Option (Text × Option Claims)

module _ (hash mac encode : Text → Text) (decode : Text → Option Text) where
  -- The state, the nonce and the verifier are the moment's random texts.
  unfoldable pub sign_in : {B : Type 0} → Moment → Request B → Response
  sign_in w r = if not (r.method == codes "GET") then plain (status 405) else record {
    cookies =
        kept (codes "labgate_oauth")
          (bind mac encode decode (w.random 0) (w.random 1) (w.random 2) (w.clock 0 + 300000)) 300
        ∷ [];
    answer = to_provider (w.random 0) (w.random 1) (w.random 2);
  }

  -- Once the cookie is taken, every answer deletes it.
  abbrev pub spent : Answer → Response
  spent a = record { cookies = deleted (codes "labgate_oauth") ∷ []; answer = a }

  abbrev pub opened : Result Text × Site → Response × Site
  opened (err e, s) = (spent (problem e), s)
  opened (ok raw, s) = (
    record {
      cookies = deleted (codes "labgate_oauth") ∷ kept (codes "labgate_session") raw 604800 ∷ [];
      answer = redirect "/";
    },
    s,
  )

  abbrev pub is_university : Config → Claims → Bool
  is_university c k = k.verified && allowed c k.email && k.domain == c.domain

  abbrev pub claimed : Config → Moment → Option Claims → Site → Response × Site
  claimed c w none s = (spent (failure 403 "A verified university Google account is required"), s)
  claimed c w (some k) s =
      if not (is_university c k)
      then (spent (failure 403 "A verified university Google account is required"), s)
      else opened
          (create_session hash w (record { email = lower k.email; name = k.name; kind = web }) s)

  abbrev pub identified :
      Config → Moment → Text → Option (Text × Option Claims) → Site → Response × Site
  identified c w nonce none s = (spent (failure 403 "Google identity could not be verified"), s)
  identified c w nonce (some (n, claims)) s =
      if not (equal n nonce)
      then (spent (failure 403 "Google identity could not be verified"), s)
      else claimed c w claims s

  abbrev pub exchanged :
      Config → Moment → Provider → Text → Option (Option Text) → Site → Response × Site
  exchanged c w p nonce none s =
      (spent (failure 502 "Google token exchange failed; retry sign-in"), s)
  exchanged c w p nonce (some none) s = (spent (status 403), s)
  exchanged c w p nonce (some (some raw)) s =
      if not p.discovered
      then (spent (failure 502 "Google identity discovery failed"), s)
      else identified c w nonce (p.verify raw) s

  abbrev pub unbound : {B : Type 0} → ℕ → Request B → Option Text → Option (Text × Text)
  unbound now r none = none
  unbound now r (some cookie) = unbind mac encode decode now cookie r.query_state

  abbrev pub returned :
      Config → Moment → Provider → Text → Option (Text × Text) → Site → Response × Site
  returned c w p code none s =
      (plain (failure 400 "Invalid or expired OAuth state; sign in again"), s)
  returned c w p code (some (nonce, verifier)) s =
      exchanged c w p nonce (p.exchange code verifier) s

  unfoldable pub callback :
      {B : Type 0} → Config → Moment → Provider → Request B → Site → Response × Site
  callback c w p r s =
      if not (r.method == codes "GET")
      then (plain (status 405), s)
      else returned c w p r.query_code (unbound (w.clock 0) r r.oauth_cookie) s

  -- `Handle`
  unfoldable pub handle_auth :
      {B : Type 0} → Config → Moment → Provider → Request B → Site → Response × Site
  handle_auth c w p r s =
      if r.path == codes "/api/auth/sign-in/google"
      then (sign_in w r, s)
      else if r.path == codes "/api/auth/callback/google"
      then callback c w p r s
      else if r.path == codes "/api/auth/sign-out"
      then sign_out hash c w r s
      else (plain (status 404), s)
