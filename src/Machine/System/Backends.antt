-- ===== src/Machine/System/Backends.antt =====
-- internal/machine/lifecycle.go, `resetAuthentication`.
use lab_gate.Prelude.{
  Text, codes, List, [], ◌∷◌, true, false, not, ◌||◌, ◌==◌, ==_iff, text_eq, any, split, other,
  Result, ok, ◌>>=◌, ◌≡◌, refl, Bool-cases, inl, inr, ◌⊎◌, refuses_not, arith,
}
use lab_gate.Machine.System.{
  Output, printed, exited, not_run, text_of, is_backend, reset_all, reset_backends,
}

-- A backend that is one of the three, and whose reset succeeded.
pub record IsReset (reset : Text → Output) (b : Text) : Type 0 where
  known : is_backend b ≡ true
  printout : Text
  done : reset b ≡ printed printout

-- Each of the backends was reset, and none of them is among those before it.
abbrev pub AllReset : (Text → Output) → List Text → List Text → Type 0
AllReset reset seen [] = Unit
AllReset reset seen (b ∷ bs) =
    IsReset reset b × (any (λ s. s == b) seen ≡ false) × AllReset reset (b ∷ seen) bs

answered :
    (o : Output) (r : Result (Unit {0}))
    → (text_of o >>= λ v. r) ≡ ok tt
    → ((v : Text) × (o ≡ printed v)) × (r ≡ ok tt)
answered (printed v) r h = ((v, refl), h)
answered (exited n) r h = cc
answered not_run r h = cc

all-AllReset :
    (reset : Text → Output) (seen bs : List Text)
    → reset_all reset seen bs ≡ ok tt
    → AllReset reset seen bs
unfolding reset_all
all-AllReset reset seen [] h = tt
all-AllReset reset seen (b ∷ bs) h =
    let (fresh, h') =
      refuses_not (not (is_backend b) || any (λ s. s == b) seen)
        (other "unknown failure-counter backend") _ tt h in
    let ((v, printout), rest) = answered (reset b) (reset_all reset (b ∷ seen) bs) h' in
    (
      record { known = ground (arith, fresh); printout = v; done = printout },
      ground (arith, fresh),
      all-AllReset reset (b ∷ seen) bs rest,
    )

-- A reset of the failure counters succeeds only if there is nothing to reset or each backend that is
-- listed is one of the three there are, is listed once, and was reset.
pub backends-AllReset :
    (reset : Text → Output) (backends : Text)
    → reset_backends reset backends ≡ ok tt
    → (backends ≡ codes "none") ⊎ AllReset reset [] (split b',' backends)
unfolding reset_backends
backends-AllReset reset backends h = elim (Bool-cases (backends == codes "none")) [
  | inl nothing ↦ inl ((==_iff _ _).0 nothing)
  | inr listed ↦ inr (all-AllReset reset [] (split b',' backends) (rw listed at h))
]
