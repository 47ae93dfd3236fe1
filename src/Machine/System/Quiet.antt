-- ===== src/Machine/System/Quiet.antt =====
-- internal/machine/lifecycle.go: the loop that ends the guest's processes.
use lab_gate.Prelude.{
  ℕ, zero, suc, ◌+◌, ◌≤◌, ◌<◌, Text, Bool, true, ◌&&◌, nat_eq, if◌then◌else◌, other, Result, ok,
  err, ◌>>=◌, ◌≡◌, refl, Ensures, Ensures-ok, Ensures-err, Ensures-bind, Ensures-if, arith,
}
use lab_gate.Machine.System.{Output, uid, found_nothing, Look, absent, is_ok, looks, kill}

-- A look at the processes of a user with a number above zero that found none, by either id.
pub record IsQuiet (l : Look) : Type 0 where
  user : Text
  known : uid l.id_output ≡ ok user
  none_of_user : found_nothing l.by_user ≡ true
  none_of_real_user : found_nothing l.by_real_user ≡ true

-- One of the looks below a bound found none.
pub record SomeQuiet (look : ℕ → Look) (n : ℕ) : Type 0 where
  turn : ℕ
  below : turn < n
  quiet : IsQuiet (look turn)

absent-IsQuiet : (l : Look) → is_ok (absent l) ≡ true → IsQuiet l
unfolding absent
absent-IsQuiet l h = go (uid l.id_output) refl h
  where
    go :
        (u : Result Text)
        → uid l.id_output ≡ u
        → is_ok (
            u >>= λ v.
            if found_nothing l.by_user && found_nothing l.by_real_user
            then ok tt
            else err (other "guest processes exist or inventory failed"))
          ≡ true
        → IsQuiet l
    go (err e) k g = cc
    go (ok v) k g = record {
      user = v;
      known = k;
      none_of_user = ground (arith, g);
      none_of_real_user = ground (arith, g);
    }

looks-SomeQuiet :
    (look : ℕ → Look) (cancelled : ℕ → Bool) (n i m : ℕ) (next : Result (Unit {0}))
    → i + n ≤ m
    → Ensures (λ u. SomeQuiet look m) next
    → Ensures (λ u. SomeQuiet look m) (looks look cancelled n i next)
unfolding looks
looks-SomeQuiet look cancelled zero i m next le k = k
looks-SomeQuiet look cancelled (suc n) i m next le k =
    Ensures-if (λ u. SomeQuiet look m) (is_ok (absent (look i))) (ok tt) _
      (λ h.
        Ensures-ok (λ u. SomeQuiet look m) tt
          (record { turn = i; below = omega (arith, le); quiet = absent-IsQuiet (look i) h }))
      (λ h.
        Ensures-if (λ u. SomeQuiet look m) (cancelled i) (err (other "context cancelled")) _
          (λ c. Ensures-err (λ u. SomeQuiet look m) (other "context cancelled"))
          (λ c. looks-SomeQuiet look cancelled n (suc i) m next (omega (arith, le)) k))

-- The guest's processes are reported ended only when one of forty looks found none, neither by the
-- user nor by the real user, of a user whose number was read.
pub kill-SomeQuiet :
    (id_output : Output) (look : ℕ → Look) (cancelled : ℕ → Bool)
    → kill id_output look cancelled ≡ ok tt
    → SomeQuiet look 40
unfolding kill
kill-SomeQuiet id_output look cancelled h = let e = whole in e.at tt h
  where
    last : Ensures {A = Unit {0}} (λ u. SomeQuiet look 40) (err (other "guest processes remain"))
    last = Ensures-err (λ u. SomeQuiet look 40) (other "guest processes remain")

    whole : Ensures {A = Unit {0}} (λ u. SomeQuiet look 40) (kill id_output look cancelled)
    whole =
        Ensures-bind (λ u. SomeQuiet look 40) (uid id_output) _
          (λ v e.
            looks-SomeQuiet look cancelled 20 0 40 _ (omega arith)
              (looks-SomeQuiet look cancelled 20 20 40 _ (omega arith) last))
