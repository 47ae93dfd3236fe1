-- ===== src/Core/Expiry/Lapsed.antt =====
-- internal/core/checkout.go, `Expire`: the one generation that it revokes, and the machine it frees.
use lab_gate.Prelude.{
  ℕ, ltb, ◌≤◌, Text, List, [], ◌∷◌, ◌++◌, map, some, Bool, true, false, not, ◌&&◌, ◌||◌, ◌==◌,
  ==_iff, ◌≡◌, ◌≢◌, ◌⊎◌, ◌∙◌, refl, sym, ap, subst, text_eq, nat_eq, length, any, first,
  some-injective, update, Result, ok, err, ok-injective, Ensures, Ensures-ok, Ensures-if,
  Ensures-bind, Ensures-then, Bool-cases, inl, inr, arith,
}
use lab_gate.Store.{
  Machine, Credential, Event, Db, audit, live, distinct, unique_keys, is_credential, has_id,
  machine, credential, current, set_credentials, settle, tx,
}
use lab_gate.Store.Keys.{audit-eq-ok, keyed-credential_ids}
use lab_gate.Store.Rows.{IsIdle, credential-eq-ok, machine-eq-ok, current-IsIdle}
use lab_gate.Core.Expiry.Sessions.{answers}
use lab_gate.Core.Hold.{same}
use lab_gate.Core.Checkout.{is_null, moved, revoke_at, free}
use lab_gate.Core.Expiry.{
  Expiry, already_released, active, retry, held, released, is_unopened, expire_row, commit_expiry,
  Meeting, Reading, answer, lapsed, read_lapsed, after_lock, after_read, expire,
}

-- Of the rows `cs` the row `a` alone is revoked in `cs'`.
pub record Revokes (a : Credential) (now : ℕ) (cs cs' : List Credential) : Type 0 where
  pub pre : List Credential
  pub post : List Credential
  pub before : cs ≡ pre ++ a ∷ post
  pub after : cs' ≡ pre ++ revoke_at now a ∷ post

-- The row of this id is live, was never opened and is past its deadline, and is revoked; the machine
-- is freed if it is left without a live generation, or it stays as it was.
pub record IsRevoked (id mid : Text) (now : ℕ) (x : Expiry) (db db' : Db) : Type 0 where
  pub row : Credential
  pub named : row.id ≡ id
  pub running : live row ≡ true
  pub unopened : is_null row.opened ≡ true
  pub over : row.expires ≤ now
  pub alone : Revokes row now db.credentials db'.credentials
  pub freed :
      (x ≡ held × db'.machines ≡ db.machines)
      ⊎ (x ≡ released
          × db'.machines ≡ update (has_id mid) free db.machines
          × IsIdle mid db'.credentials)

update_absent :
    (id : Text) (f : Credential → Credential) (cs : List Credential)
    → any (λ y. y == id) (map (λ c. c.id) cs) ≡ false
    → update (is_unopened id) f cs ≡ cs
unfolding is_unopened
update_absent id f [] h = refl
update_absent id f (c ∷ cs) h = ground (arith, h, update_absent id f cs)

only-Revokes :
    (id : Text) (now : ℕ) (cs : List Credential) (a : Credential)
    → distinct (map (λ c. c.id) cs) ≡ true
    → first (is_credential id) cs ≡ some a
    → is_unopened id a ≡ true
    → Revokes a now cs (update (is_unopened id) (revoke_at now) cs)
unfolding distinct
only-Revokes id now [] a d e h = cc
only-Revokes id now (c ∷ cs) a d e h = elim (Bool-cases (c.id == id)) [
  | inl hit ↦
      let i : c ≡ a = some-injective c a (rw hit at e) in
      let k : is_unopened id c ≡ true = subst (λ z. is_unopened id z ≡ true) (sym i) h in
      let other : any (λ y. y == id) (map (λ c. c.id) cs) ≡ false =
        subst (λ z. any (λ y. y == z) (map (λ c. c.id) cs) ≡ false) ((==_iff c.id id).0 hit)
          (ground (arith, d)) in
      record {
        pre = [];
        post = cs;
        before = ap (λ z. z ∷ cs) i;
        after =
            rw (k, update_absent id (revoke_at now) cs other) (ap (λ z. revoke_at now z ∷ cs) i);
      }
  | inr miss ↦
      let rest = only-Revokes id now cs a (ground (arith, d)) (rw miss at e) h in
      let skipped : is_unopened id c ≡ false = unfold is_unopened in ground (arith, miss) in
      record {
        pre = c ∷ rest.pre;
        post = rest.post;
        before = ap (λ z. c ∷ z) rest.before;
        after = rw skipped (ap (λ z. c ∷ z) rest.after);
      }
]

-- What one transaction leaves.
data Commits (id mid : Text) (now : ℕ) (db : Db) (r : Expiry × Db) : Type 0 where
  as_was : r.0 ≢ released → r.0 ≢ held → r.1 ≡ db → Commits id mid now db r
  revoked : IsRevoked id mid now r.0 db r.1 → Commits id mid now db r

expire_row-IsRevoked :
    (row : Machine) (id : Text) (now : ℕ) (db : Db) (a : Credential)
    → unique_keys db ≡ true
    → credential id db ≡ ok a
    → is_null a.opened ≡ true
    → live a ≡ true
    → a.expires ≤ now
    → let x = expire_row row id now db in IsRevoked id row.id now x.0 db x.1
unfolding expire_row
expire_row-IsRevoked row id now db a keys e closed running over =
    let (found, same_id) = credential-eq-ok id db e in
    let there : first (is_credential id) db.credentials ≡ some a =
      subst (λ (k : Text). first (is_credential k) db.credentials ≡ some a) same_id found in
    let hit : is_unopened id a ≡ true =
      unfold is_unopened in ground (arith, (==_iff a.id id).1 same_id, closed, running) in
    let one = only-Revokes id now db.credentials a (keyed-credential_ids db keys) there hit in
    let left = set_credentials (is_unopened id) (revoke_at now) db in
    elim (Bool-cases
      (length (current row.id left) == 0 && (is_null row.hold || same row.hold (some id)))) [
        | inl clear ↦ rw clear (record {
          row = a;
          named = same_id;
          running = running;
          unopened = closed;
          over = over;
          alone = one;
          freed = inr (refl, refl, current-IsIdle row.id left (ground arith));
        })
        | inr other ↦ rw other (record {
          row = a;
          named = same_id;
          running = running;
          unopened = closed;
          over = over;
          alone = one;
          freed = inl (refl, refl);
        })
      ]

-- The two entries of the log change no machine and no generation.
logged-IsRevoked :
    (id mid : Text) (now : ℕ) (x : Expiry) (db db' db'' : Db)
    → db''.machines ≡ db'.machines
    → db''.credentials ≡ db'.credentials
    → IsRevoked id mid now x db db'
    → IsRevoked id mid now x db db''
logged-IsRevoked id mid now x db db' db'' ms cs r = record {
  row = r.row;
  named = r.named;
  running = r.running;
  unopened = r.unopened;
  over = r.over;
  alone = subst (λ (l : List Credential). Revokes r.row now db.credentials l) (sym cs) r.alone;
  freed = rw (ms, cs) r.freed;
}

audit-rows :
    (id mid email : Text) (event : Event) (detail : Text) (now : ℕ) (db : Db)
    → Ensures
        (λ db'. (db'.machines ≡ db.machines) × (db'.credentials ≡ db.credentials))
        (audit id mid email event detail now db)
audit-rows id mid email event detail now db = record {
  at = λ db' e. let (ms, cs, _) = audit-eq-ok id mid email event detail now db e in (ms, cs);
}

live_null : (c : Credential) → is_null c.revoked ≡ true → live c ≡ true
live_null c h = ground (arith, h)

commit-Commits :
    (m : Machine) (c : Credential) (id audit_id audit_id' : Text) (now : ℕ) (db : Db)
    → unique_keys db ≡ true
    → Ensures (Commits id m.id now db) (commit_expiry m c id audit_id audit_id' now db)
unfolding commit_expiry
commit-Commits m c id audit_id audit_id' now db keys =
    let Q : Expiry × Db → Type 0 = Commits id m.id now db in
    Ensures-bind Q (credential id db) _ λ latest e.
      Ensures-if Q (not (is_null latest.opened) && is_null latest.revoked) _ _
        (λ _. Ensures-ok Q (active, db) (as_was (λ q. cc) (λ q. cc) refl))
        λ closed.
          Ensures-if Q (not (is_null latest.revoked) || ltb now latest.expires) _ _
            (λ _. Ensures-ok Q (already_released, db) (as_was (λ q. cc) (λ q. cc) refl))
            λ due. Ensures-bind Q (machine m.id db) _ λ row found.
              Ensures-if Q (moved m row) _ _
                (λ _. Ensures-ok Q (retry, db) (as_was (λ q. cc) (λ q. cc) refl))
                λ here.
                  let x = expire_row row id now db in
                  let (_, named) = machine-eq-ok m.id db found in
                  let unrevoked : is_null latest.revoked ≡ true = ground (arith, due) in
                  let done : IsRevoked id row.id now x.0 db x.1 =
                    expire_row-IsRevoked row id now db latest keys e
                      (ground (arith, closed, unrevoked)) (live_null latest unrevoked)
                      (ground (arith, due)) in
                  Ensures-then Q (audit-rows audit_id m.id c.email Event.force_revoke _ now x.1)
                    λ forced k.
                      Ensures-then Q
                        (audit-rows audit_id' m.id c.email Event.password_timeout _ now forced)
                        λ timed k'.
                          Ensures-ok Q (x.0, timed)
                            (revoked (
                              subst (λ (k : Text). IsRevoked id k now x.0 db timed) named
                                (logged-IsRevoked id row.id now x.0 db x.1 timed (k'.0 ∙ k.0)
                                  (k'.1 ∙ k.1) done)))

-- The answer of an expiry, and the tables: they are those that the other requests left, or the
-- lock of the machine `mid` was confirmed before one generation was revoked.
pub data Lapses (w : Meeting) (id : Text) (now : ℕ) (db : Db) (r : Result Expiry × Db)
    : Type 0 where
  keeps :
      r.0 ≢ ok released
      → r.0 ≢ ok held
      → (r.1 ≡ w.before_machine db) ⊎ (r.1 ≡ w.before_commit (w.before_machine db))
      → Lapses w id now db r
  revokes :
      (m : Machine) (x : Expiry)
      → w.locks m id ≡ true
      → r.0 ≡ ok x
      → IsRevoked id m.id now x (w.before_commit (w.before_machine db)) r.1
      → Lapses w id now db r

module _ (w : Meeting) (id : Text) (now : ℕ) (db : Db) where
  settled :
      (m : Machine) (r : Result (Expiry × Db))
      → w.locks m id ≡ true
      → Ensures (Commits id m.id now (w.before_commit (w.before_machine db))) r
      → Lapses w id now db (settle r (w.before_commit (w.before_machine db)))
  settled m (err e) locked k = keeps (λ q. cc) (λ q. cc) (inr refl)
  settled m (ok (x, db')) locked k = by_commit (k.at (x, db') refl)
    where
      by_commit :
          Commits id m.id now (w.before_commit (w.before_machine db)) (x, db')
          → Lapses w id now db (ok x, db')
      by_commit (as_was n n' e) =
          keeps (λ q. n (ok-injective x released q)) (λ q. n' (ok-injective x held q)) (inr e)
      by_commit (revoked r) = revokes m x locked refl r

  transaction-Lapses :
      (fault : Bool) (m : Machine) (c : Credential)
      → w.locks m id ≡ true
      → unique_keys (w.before_commit (w.before_machine db)) ≡ true
      → Lapses w id now db (
          tx fault
            (commit_expiry m c id w.audit_id w.audit_id' now)
            (w.before_commit (w.before_machine db)))
  unfolding tx
  transaction-Lapses true m c locked keys = keeps (λ q. cc) (λ q. cc) (inr refl)
  transaction-Lapses false m c locked keys = settled m _ locked (
      commit-Commits m c id w.audit_id w.audit_id' now (w.before_commit (w.before_machine db)) keys)

  read-Lapses :
      (r : Result Reading)
      → ((a : Expiry) → r ≡ ok (answer a) → (a ≢ released) × (a ≢ held))
      → unique_keys (w.before_commit (w.before_machine db)) ≡ true
      → Lapses w id now db (after_read w r id now (w.before_machine db))
  unfolding after_read after_lock
  read-Lapses (err e) k keys = keeps (λ q. cc) (λ q. cc) (inl refl)
  read-Lapses (ok (answer a)) k keys =
      let (n, n') = k a refl in
      keeps (λ q. n (ok-injective a released q)) (λ q. n' (ok-injective a held q)) (inl refl)
  read-Lapses (ok (lapsed c m)) k keys = elim (Bool-cases (is_null m.pin || not (w.locks m id))) [
    | inl kept ↦ rw kept (keeps (λ q. cc) (λ q. cc) (inl refl))
    | inr locked ↦ rw locked (transaction-Lapses w.fault m c (ground (arith, locked)) keys)
  ]

-- An expiry whose transaction finds the keys unique revokes the generation it is for, and no other
-- row, and only if that is live, was never opened and is past its deadline when the transaction
-- reads it, and some machine confirmed the lock; it answers `released` if it frees that machine, which
-- has then no live generation, and else `held`. With any other answer, or an error, it leaves the
-- tables as the other requests made them.
pub expire-Lapses :
    (w : Meeting) (id : Text) (now : ℕ) (db : Db)
    → unique_keys (w.before_commit (w.before_machine db)) ≡ true
    → Lapses w id now db (expire w id now db)
unfolding expire
expire-Lapses w id now db keys =
    read-Lapses w id now db (read_lapsed id now db (w.before_machine db))
      (answers id now db (w.before_machine db)) keys
