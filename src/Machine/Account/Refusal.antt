-- ===== src/Machine/Account/Refusal.antt =====
-- internal/machine/lifecycle.go, `Account`: the issue of a generation that has a tombstone.
use lab_gate.Prelude.{
  ℕ, Text, none, some, Bool, true, false, ◌≡◌, refl, ◌∙◌, ap, Error, other, Result, ok, err, length,
  if◌then◌else◌, String,
}
use lab_gate.Machine.State.{State}
use lab_gate.Machine.Runtime.{
  File, absent, unreadable, holds, Call, take_lock, sessions, Answer, yes, no, lost, Disk, World,
  Step, ◌>>=◌, after, done, failed, ask, now, look, lift, must, succeed, written, write,
  recovery_file, recovery,
}
use lab_gate.Machine.Account.{
  deadline_of, length_fits, record_of, no_session, enter, unburied, unclaimed, in_service,
  hand_over, issue, read_password,
}

-- A disk with the same record and tombstones.
pub record IsSame (d d' : Disk) : Type 0 where
  pub state : d'.state ≡ d.state
  pub tombstones : d'.tombstones ≡ d.tombstones

IsSame-refl : (d : Disk) → IsSame d d
IsSame-refl d = record { state = refl; tombstones = refl }

IsSame-trans : (d d' d'' : Disk) → IsSame d d' → IsSame d' d'' → IsSame d d''
IsSame-trans d d' d'' h k = record {
  state = k.state ∙ h.state;
  tombstones = k.tombstones ∙ h.tombstones;
}

-- A step that writes neither a record nor a tombstone.
pub record IsQuiet {A : Type 0} (m : Step A) : Type 0 where
  pub same : (w : World) (d : Disk) → IsSame d (m.run w d).1

-- A step that fails, and writes no record.
pub record Refuses {A : Type 0} (m : Step A) (w : World) (d : Disk) : Type 0 where
  pub refused : ((e : Error) × ((m.run w d).0 ≡ err e)) × ((m.run w d).1.state ≡ d.state)

module _ {A B : Type 0} where
  bind-IsQuiet :
      (m : Step A) (f : A → Step B) → IsQuiet m → ((a : A) → IsQuiet (f a)) → IsQuiet (m >>= f)
  bind-IsQuiet m f q r = record { same = λ w d. go w d (m.run w d) (q.same w d) }
    where
      go : (w : World) (d : Disk) (x : Result A × Disk) → IsSame d x.1 → IsSame d (after f w x).1
      go w d (ok a, d') h = IsSame-trans d d' _ h ((r a).same w d')
      go w d (err e, d') h = h

  -- A quiet step and then, on any disk with the same tombstone, a refusal.
  then-Refuses :
      (id : Text) (t : ℕ) (m : Step A) (f : A → Step B)
      → IsQuiet m
      → ((a : A) (w : World) (d : Disk) → d.tombstones id ≡ holds t → Refuses (f a) w d)
      → (w : World) (d : Disk) → d.tombstones id ≡ holds t
      → Refuses (m >>= f) w d
  then-Refuses id t m f q r w d e = record { refused = go (m.run w d) (q.same w d) }
    where
      go :
          (x : Result A × Disk)
          → IsSame d x.1
          → ((e' : Error) × ((after f w x).0 ≡ err e')) × ((after f w x).1.state ≡ d.state)
      go (err e', d') h = ((e', refl), h.state)
      go (ok a, d') h =
          let r' = (r a w d' (ap (λ g. g id) h.tombstones ∙ e)).refused in (r'.0, r'.1 ∙ h.state)

module _ {A : Type 0} where
  done-IsQuiet : (a : A) → IsQuiet (done a)
  done-IsQuiet a = record { same = λ w d. IsSame-refl d }

  failed-IsQuiet : (s : String) → IsQuiet (failed {A = A} s)
  failed-IsQuiet s = record { same = λ w d. IsSame-refl d }

  look-IsQuiet : (f : Disk → A) → IsQuiet (look f)
  look-IsQuiet f = record { same = λ w d. IsSame-refl d }

  lift-IsQuiet : (r : Result A) → IsQuiet (lift r)
  lift-IsQuiet r = record { same = λ w d. IsSame-refl d }

ask-IsQuiet : (c : Call) → IsQuiet (ask c)
ask-IsQuiet c = record { same = λ w d. record { state = refl; tombstones = refl } }

now-IsQuiet : IsQuiet now
now-IsQuiet = record { same = λ w d. record { state = refl; tombstones = refl } }

test-IsQuiet :
    (b : Bool) (m n : Step (Unit {0})) → IsQuiet m → IsQuiet n → IsQuiet (if b then m else n)
test-IsQuiet true m n q q' = q
test-IsQuiet false m n q q' = q'

succeed-IsQuiet : (s : String) (a : Answer) → IsQuiet (succeed s a)
succeed-IsQuiet s yes = done-IsQuiet tt
succeed-IsQuiet s no = failed-IsQuiet s
succeed-IsQuiet s lost = failed-IsQuiet s

must-IsQuiet : (c : Call) (s : String) → IsQuiet (must c s)
must-IsQuiet c s = bind-IsQuiet (ask c) (succeed s) (ask-IsQuiet c) (succeed-IsQuiet s)

marked :
    (a : Answer) (d : Disk)
    → IsSame d (written (write recovery_file) (λ x. record x { needs_recovery = true }) a d).1
marked yes d = record { state = refl; tombstones = refl }
marked no d = record { state = refl; tombstones = refl }
marked lost d = record { state = refl; tombstones = refl }

recovery-IsQuiet : IsQuiet recovery
recovery-IsQuiet = record { same = λ w d. marked (w.answer (write recovery_file) d.history) d }

length_fits-IsQuiet : (n : ℕ) (f : File ℕ) → IsQuiet (length_fits n f)
length_fits-IsQuiet n absent = failed-IsQuiet _
length_fits-IsQuiet n unreadable = failed-IsQuiet _
length_fits-IsQuiet n (holds k) = test-IsQuiet _ _ _ (failed-IsQuiet _) (done-IsQuiet tt)

record_of-IsQuiet : (f : File State) → IsQuiet (record_of f)
record_of-IsQuiet absent = done-IsQuiet none
record_of-IsQuiet (holds s) = done-IsQuiet (some s)
record_of-IsQuiet unreadable =
    bind-IsQuiet recovery _ recovery-IsQuiet λ u. failed-IsQuiet "corrupt credential state"

no_session-IsQuiet : (a : Answer) → IsQuiet (no_session a)
no_session-IsQuiet yes = failed-IsQuiet _
no_session-IsQuiet no = done-IsQuiet tt
no_session-IsQuiet lost = failed-IsQuiet _

enter-IsQuiet : IsQuiet enter
unfolding enter
enter-IsQuiet =
    bind-IsQuiet _ _
      (bind-IsQuiet (look (λ d. d.state)) record_of (look-IsQuiet _) record_of-IsQuiet)
      λ s.
        bind-IsQuiet _ _
          (bind-IsQuiet (ask sessions) no_session (ask-IsQuiet sessions) no_session-IsQuiet)
          λ u. done-IsQuiet s

in_service-IsQuiet : (b : Bool) → IsQuiet (in_service b)
in_service-IsQuiet true = failed-IsQuiet _
in_service-IsQuiet false = done-IsQuiet tt

-- The test of the tombstone, whatever would come after it.
tombstone-Refuses :
    {B : Type 0} (id : Text) (t : ℕ) (f : Unit {0} → Step B) (w : World) (d : Disk)
    → d.tombstones id ≡ holds t
    → Refuses (look (λ x. x.tombstones id) >>= unburied >>= f) w d
tombstone-Refuses id t f w d e = record {
  refused = rw e ((other "terminal generation cannot be reissued", refl), refl);
}

pub issue-Refuses :
    (id digits input : Text) (w : World) (d : Disk) (t : ℕ)
    → d.tombstones id ≡ holds t
    → Refuses (issue id digits input) w d
unfolding issue
issue-Refuses id digits input w d t e =
    then-Refuses id t now _ now-IsQuiet
      (λ a. then-Refuses id t now _ now-IsQuiet (λ b.
        then-Refuses id t (lift (deadline_of digits a b)) _ (lift-IsQuiet _) (λ deadline.
          then-Refuses id t (lift (read_password input)) _ (lift-IsQuiet _) (λ password.
            then-Refuses id t _ _
              (bind-IsQuiet (look (λ x. x.password_length)) (length_fits (length password))
                (look-IsQuiet _) (length_fits-IsQuiet _))
              (λ u.
                then-Refuses id t (must take_lock "lock") _ (must-IsQuiet take_lock "lock") (λ v.
                  then-Refuses id t _ _
                    (bind-IsQuiet (look (λ x. x.decommissioned)) in_service (look-IsQuiet _)
                      in_service-IsQuiet)
                    (λ x. then-Refuses id t enter _ enter-IsQuiet (λ s.
                      tombstone-Refuses id t
                        (λ y. unclaimed id deadline s >>= λ z. hand_over id deadline)))))))))
      w d e
