-- ===== src/Machine/System.antt =====
-- internal/machine/system.go and `resetAuthentication` of internal/machine/lifecycle.go: what is read of
-- the output of the system's commands, and the loop that ends the guest's processes.
pub mod Quiet
pub mod Backends
use lab_gate.Prelude.{
  ℕ, zero, suc, ◌+◌, Text, codes, List, [], ◌∷◌, ◌++◌, Option, none, some, Bool, true, false, not,
  ◌&&◌, ◌||◌, ◌==◌, text_eq, nat_eq, if◌then◌else◌, any, split, has_prefix, atoi, Error, other,
  Result, ok, err, ◌>>=◌,
}
use lab_gate.Core.Provision.{fields}

-- What became of a command: its output, without the space around it, an exit with a code that is not
-- zero, or a failure to run it.
pub data Output : Type 0 where
  printed : Text → Output
  exited : ℕ → Output
  not_run : Output

abbrev pub failed_command {ℓ} : {A : Type ℓ} → Result A
failed_command = err (other "command failed")

abbrev pub text_of : Output → Result Text
text_of (printed v) = ok v
text_of o = failed_command

-- A number above zero.
abbrev pub is_uid : Option ℕ → Bool
is_uid none = false
is_uid (some zero) = false
is_uid (some (suc n)) = true

unfoldable pub uid : Output → Result Text
uid o = do v ← text_of o; if is_uid (atoi v) then ok v else err (other "invalid guest UID")

abbrev pub lock_state : List Text → Result Bool
lock_state (name ∷ state ∷ more) =
    if not (name == codes "guest")
    then err (other "unknown account lock state")
    else if state == codes "L" || state == codes "LK"
    then ok true
    else if state == codes "P" || state == codes "PS"
    then ok false
    else err (other "unknown account lock state")
lock_state words = err (other "unknown account lock state")

-- `locked`, of the output of passwd -S
unfoldable pub locked : Output → Result Bool
locked o = do v ← text_of o; lock_state (fields v)

abbrev pub is_session_of : Text → List Text → Bool
is_session_of id (name ∷ owner ∷ more) = owner == id
is_session_of id words = false

-- `sessions`, of the outputs of id and of loginctl list-sessions
unfoldable pub sessions : Output → Output → Result Bool
unfolding uid
sessions id_output listing = do
  id ← uid id_output
  v ← text_of listing
  ok (any (λ line. is_session_of id (fields line)) (split 10 v))

-- An exit with code 1: pgrep has found nothing.
abbrev pub found_nothing : Output → Bool
found_nothing (exited n) = n == 1
found_nothing o = false

-- What one look at the processes returns: of id, and of pgrep by real and by effective user.
pub record Look : Type 0 where
  pub id_output : Output
  pub by_user : Output
  pub by_real_user : Output

unfoldable pub absent : Look → Result (Unit {0})
unfolding uid
absent l = uid l.id_output >>= λ u.
    if found_nothing l.by_user && found_nothing l.by_real_user
    then ok tt
    else err (other "guest processes exist or inventory failed")

abbrev pub is_ok : Result (Unit {0}) → Bool
is_ok (ok u) = true
is_ok (err e) = false

-- `n` looks, from the look `i` on, each but the one that finds nothing followed by a wait that may be
-- cancelled; then what comes next.
unfoldable pub looks : (ℕ → Look) → (ℕ → Bool) → ℕ → ℕ → Result (Unit {0}) → Result (Unit {0})
unfolding absent
looks look cancelled zero i next = next
looks look cancelled (suc n) i next =
    let rest = looks look cancelled n (suc i) next in
    if is_ok (absent (look i))
    then ok tt
    else if cancelled i
    then err (other "context cancelled")
    else rest

-- Twenty looks after -TERM, and twenty after -KILL.
unfoldable pub kill : Output → (ℕ → Look) → (ℕ → Bool) → Result (Unit {0})
unfolding uid looks
kill id_output look cancelled = do
  _ ← uid id_output
  looks look cancelled 20 0 (looks look cancelled 20 20 (err (other "guest processes remain")))

-- `strings.Contains`
unfoldable pub contains : Text → Text → Bool
contains [] part = has_prefix [] part
contains (c ∷ s) part = has_prefix (c ∷ s) part || contains s part

-- The arguments of chage, of which some versions know no --mindays.
unfoldable pub aging_arguments : Text → List Text
unfolding contains
aging_arguments help =
    codes "--maxdays"
    ∷ codes "-1"
    ∷ codes "--warndays"
    ∷ codes "0"
    ∷ codes "--inactive"
    ∷ codes "-1"
    ∷ codes "--expiredate"
    ∷ codes "-1"
    ∷ (if contains help (codes "--mindays")
        then codes "--mindays" ∷ codes "0" ∷ codes "guest" ∷ []
        else codes "guest" ∷ [])

-- The shadow entry of a password that never expires.
abbrev pub never_expires : List Text → Bool
never_expires (name ∷ word ∷ changed ∷ min ∷ max ∷ warn ∷ inactive ∷ expires ∷ flag ∷ []) =
    name == codes "guest"
    && (min == codes "0" || min == [])
    && max == []
    && warn == codes "0"
    && inactive == []
    && expires == []
never_expires words = false

abbrev pub is_backend : Text → Bool
is_backend b = b == codes "faillock" || b == codes "pam_tally2" || b == codes "pam_tally"

-- Each backend that is listed is reset, once.
unfoldable pub reset_all : (Text → Output) → List Text → List Text → Result (Unit {0})
reset_all reset seen [] = ok tt
reset_all reset seen (b ∷ bs) =
    let rest = reset_all reset (b ∷ seen) bs in
    if not (is_backend b) || any (λ s. s == b) seen
    then err (other "unknown failure-counter backend")
    else text_of (reset b) >>= λ v. rest

unfoldable pub reset_backends : (Text → Output) → Text → Result (Unit {0})
unfolding reset_all
reset_backends reset backends =
    if backends == codes "none" then ok tt else reset_all reset [] (split b',' backends)

abbrev pub aging_checked : Bool → Result (Unit {0})
aging_checked b = if b then ok tt else err (other "guest password aging is not nonexpiring")

-- `resetAuthentication`, of the output of each command and the file of the backends.
unfoldable pub reset_authentication :
    Output → (List Text → Output) → Output → Result Text → (Text → Output) → Result (Unit {0})
unfolding aging_arguments reset_backends
reset_authentication help chage shadow backends reset = do
  h ← text_of help
  _ ← text_of (chage (aging_arguments h))
  v ← text_of shadow
  _ ← aging_checked (never_expires (split b':' v))
  backends >>= reset_backends reset
