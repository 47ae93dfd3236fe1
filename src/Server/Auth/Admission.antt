-- ===== src/Server/Auth/Admission.antt =====
-- internal/server/auth.go: for whom sessions are made.
use lab_gate.Prelude.{
  ℕ, ◌+◌, Text, codes, List, [], ◌∷◌, lower, lower_idem, count_byte, Option, none, some, true, not,
  ◌==◌, text_eq, nat_eq, any, All, All-append, All-select, Result, ok, err, Ensures, Ensures-ok,
  Ensures-then, Ensures-if, ◌≡◌, refl, Bool-cases, inl, inr, arith,
}
use lab_gate.Config.{Config, allowed, admin}
use lab_gate.Store.{login, logout, tx}
use lab_gate.Server.Tables.{web, cli, User, Login, Pairing, Site, remove}
use lab_gate.Server.Tables.Transactions.{
  tx-keeps, insert_login-Leaves, insert_person-Leaves, log_event-Leaves, Leaves,
}
use lab_gate.Server.Request.{Request, equal, Response, Moment}
use lab_gate.Server.Auth.{
  session, csrf, know, has_email, open_session, create_session, forget, ended, leave, sign_out,
  Claims, Provider, opened, claimed, identified, exchanged, returned, callback, handle_auth, week,
  unbound, is_university,
}

-- A session's user is one whom the configuration lets have it.
unfoldable pub Entitled : Config → User → Type 0
Entitled c u = elim u.kind [ web ↦ allowed c u.email ≡ true | cli ↦ admin c u.email ≡ true ]

abbrev pub AllEntitled : Config → List Login → Type 0
AllEntitled c ls = All (λ l. Entitled c l.user) ls

count-lower : (s : Text) → count_byte b'@' (lower s) ≡ count_byte b'@' s
unfolding lower
count-lower [] = refl
count-lower (c ∷ s) = ground (arith, count-lower s)

allowed-lower :
    (c : Config) (email : Text) → allowed c email ≡ true → allowed c (lower email) ≡ true
unfolding allowed
allowed-lower c email h = rw (lower_idem email, count-lower email) h

module _ (hash : Text → Text) (c : Config) (w : Moment) where
  record Keeps (x : Response × Site) : Type 0 where
    kept : AllEntitled c x.1.logins

  abbrev Kept : List Login → List Pairing → Type 0
  Kept ls ps = AllEntitled c ls

  abbrev KeptBy {ℓ} : {A : Type ℓ} → A × Site → Type 0
  KeptBy x = AllEntitled c x.1.logins

  know-Kept :
      (u : User) (now : ℕ) (id : Text) (s : Site)
      → AllEntitled c s.logins
      → Leaves Kept (know hash u now id s)
  unfolding know
  know-Kept u now id s a =
      Ensures-if (λ s. AllEntitled c s.logins) (any (has_email hash u.email) s.people) (ok s) _
        (λ e. Ensures-ok (λ s. AllEntitled c s.logins) s a)
        (λ e.
          insert_person-Leaves Kept
            (record { id = id; name = u.name; email = u.email; created = now }) s a)

  open_session-KeptBy :
      (u : User) (s : Site)
      → Entitled c u
      → AllEntitled c s.logins
      → Ensures KeptBy (open_session hash w u s)
  unfolding open_session
  open_session-KeptBy u s e a =
      Ensures-then KeptBy
        (insert_login-Leaves Kept (row u) s
          (All-append (λ l. Entitled c l.user) s.logins (row u ∷ []) a (e, tt)))
        (λ s' a'. Ensures-then KeptBy (know-Kept u (w.clock 1) (w.random 1) s' a') (λ s'' a''.
          Ensures-then KeptBy
            (log_event-Leaves Kept (w.random 2) u.email login [] (w.clock 1) s'' a'')
            (λ s3 a3. Ensures-ok KeptBy (w.random 0, s3) a3)))
    where
      row : User → Login
      row u = record { token_hash = hash (w.random 0); user = u; expires = w.clock 2 + week }

  forget-KeptBy :
      (u : User) (raw : Text) (s : Site)
      → AllEntitled c s.logins
      → Ensures KeptBy (forget hash w u raw s)
  unfolding forget
  forget-KeptBy u raw s a =
      Ensures-if KeptBy (any (λ l. l.token_hash == hash raw) s.logins) _ (ok (tt, rest))
        (λ e.
          Ensures-then KeptBy
            (log_event-Leaves Kept (w.random 0) u.email logout [] (w.clock 1) rest fewer)
            (λ s' a'. Ensures-ok KeptBy (tt, s') a'))
        (λ e. Ensures-ok KeptBy (tt, rest) fewer)
    where
      rest : Site
      rest = record s { logins = remove (λ l. l.token_hash == hash raw) s.logins }

      fewer : AllEntitled c rest.logins
      fewer = All-select (λ l. Entitled c l.user) (λ l. not (l.token_hash == hash raw)) s.logins a

  ended-Kept : (x : Result (Unit {0}) × Site) → KeptBy x → KeptBy (ended hash x)
  ended-Kept (ok u, s) a = a
  ended-Kept (err e, s) a = a

  leave-Kept :
      {B : Type 0} (r : Request B) (u : Option (User × Text)) (s : Site)
      → AllEntitled c s.logins
      → KeptBy (leave hash c w r u s)
  unfolding leave
  leave-Kept r none s a = a
  leave-Kept r (some (u, raw)) s a = elim (Bool-cases (not (csrf hash c r raw u.kind))) [
    | inl refused ↦ rw refused a
    | inr fine ↦ rw fine (
        ended-Kept (tx w.fault (forget hash w u raw) s) (
          tx-keeps (λ s. AllEntitled c s.logins) w.fault (forget hash w u raw) s a
            (forget-KeptBy u raw s a)))
  ]

  sign_out-Kept :
      {B : Type 0} (r : Request B) (s : Site)
      → AllEntitled c s.logins
      → KeptBy (sign_out hash c w r s)
  unfolding sign_out
  sign_out-Kept r s a = elim (Bool-cases (not (r.method == codes "POST"))) [
    | inl refused ↦ rw refused a
    | inr fine ↦ rw fine (leave-Kept r (session hash c w r s) s a)
  ]

module _ (hash mac encode : Text → Text) (decode : Text → Option Text) (c : Config)
    (w : Moment) where
  abbrev KeptIn : Response × Site → Type 0
  KeptIn x = AllEntitled c x.1.logins

  opened-KeptIn :
      (x : Result Text × Site) → AllEntitled c x.1.logins → KeptIn (opened hash mac encode decode x)
  opened-KeptIn (ok raw, s) a = a
  opened-KeptIn (err e, s) a = a

  claimed-KeptIn :
      (k : Option Claims) (s : Site)
      → AllEntitled c s.logins
      → KeptIn (claimed hash mac encode decode c w k s)
  claimed-KeptIn none s a = a
  claimed-KeptIn (some k) s a = elim (Bool-cases (is_university hash mac encode decode c k)) [
    | inr refused ↦ rw refused a
    | inl good ↦ rw good (
        opened-KeptIn (create_session hash w (person k) s) (
          unfold create_session in
          (tx-keeps (λ s. AllEntitled c s.logins) w.fault (open_session hash w (person k)) s a
            (open_session-KeptBy hash c w (person k) s (entitled k good) a))))
  ]
    where
      person : Claims → User
      person k = record { email = lower k.email; name = k.name; kind = web }

      entitled :
          (k : Claims) → is_university hash mac encode decode c k ≡ true → Entitled c (person k)
      entitled k good = unfold Entitled in allowed-lower c k.email (ground (arith, good))

  identified-KeptIn :
      (nonce : Text) (v : Option (Text × Option Claims)) (s : Site)
      → AllEntitled c s.logins
      → KeptIn (identified hash mac encode decode c w nonce v s)
  identified-KeptIn nonce none s a = a
  identified-KeptIn nonce (some (n, k)) s a = elim (Bool-cases (equal n nonce)) [
    | inr refused ↦ rw refused a
    | inl good ↦ rw good (claimed-KeptIn k s a)
  ]

  exchanged-KeptIn :
      (p : Provider) (nonce : Text) (t : Option (Option Text)) (s : Site)
      → AllEntitled c s.logins
      → KeptIn (exchanged hash mac encode decode c w p nonce t s)
  exchanged-KeptIn p nonce none s a = a
  exchanged-KeptIn p nonce (some none) s a = a
  exchanged-KeptIn p nonce (some (some raw)) s a = elim (Bool-cases p.discovered) [
    | inr unknown ↦ rw unknown a
    | inl good ↦ rw good (identified-KeptIn nonce (p.verify raw) s a)
  ]

  returned-KeptIn :
      (p : Provider) (code : Text) (b : Option (Text × Text)) (s : Site)
      → AllEntitled c s.logins
      → KeptIn (returned hash mac encode decode c w p code b s)
  returned-KeptIn p code none s a = a
  returned-KeptIn p code (some (nonce, verifier)) s a =
      exchanged-KeptIn p nonce (p.exchange code verifier) s a

  callback-KeptIn :
      {B : Type 0} (p : Provider) (r : Request B) (s : Site)
      → AllEntitled c s.logins
      → KeptIn (callback hash mac encode decode c w p r s)
  unfolding callback
  callback-KeptIn p r s a = elim (Bool-cases (not (r.method == codes "GET"))) [
    | inl refused ↦ rw refused a
    | inr fine ↦ rw fine (
        returned-KeptIn p r.query_code (unbound hash mac encode decode (w.clock 0) r r.oauth_cookie)
          s a)
  ]

  -- Where each session's user is entitled to it, each is after a request to sign in, to return from
  -- the provider or to sign out, whatever it answers.
  pub handle_auth-AllEntitled :
      {B : Type 0} (p : Provider) (r : Request B) (s : Site)
      → AllEntitled c s.logins
      → AllEntitled c (handle_auth hash mac encode decode c w p r s).1.logins
  unfolding handle_auth
  handle_auth-AllEntitled p r s a = elim (Bool-cases (r.path == codes "/api/auth/sign-in/google")) [
    | inl e ↦ rw e a
    | inr n ↦ rw n elim (Bool-cases (r.path == codes "/api/auth/callback/google")) [
      | inl e ↦ rw e (callback-KeptIn p r s a)
      | inr n ↦ rw n elim (Bool-cases (r.path == codes "/api/auth/sign-out")) [
        | inl e ↦ rw e (sign_out-Kept hash c w r s a)
        | inr n ↦ rw n a
      ]
    ]
  ]
