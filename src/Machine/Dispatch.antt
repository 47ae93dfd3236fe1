-- ===== src/Machine/Dispatch.antt =====
-- internal/machine/network.go, `Dispatch`: the commands that the provisioner's key may run.
pub mod Commands
use lab_gate.Prelude.{
  ℕ, leb, Text, codes, List, [], ◌∷◌, ◌++◌, Bool, true, false, not, ◌&&◌, ◌==◌, text_eq, nat_eq,
  if◌then◌else◌, all, length, is_digit, split, join, Error, other, Result, ok, err, ◌>>=◌,
}
use lab_gate.Core.Identity.{credential_id}
use lab_gate.Machine.Account.{read_password}

abbrev denied {ℓ} : {A : Type ℓ} → Result A
denied = err (other "command denied")

-- `regexpDigits`
abbrev pub is_digits : Text → Bool
is_digits [] = false
is_digits (c ∷ s) = all is_digit (c ∷ s)

-- sudo, and the program it may run.
abbrev pub is_account_call : Text → Text → Bool
is_account_call sudo path = sudo == codes "sudo" && path == codes "/usr/local/sbin/guest-account.sh"

-- A command of four words, and one of five.
unfoldable pub dispatch_four : Text → Text → Text → Text → Result (List Text × Text)
dispatch_four sudo path action id =
    if not (is_account_call sudo path && credential_id id)
    then denied
    else if action == codes "revoke"
    then ok (codes "--" ∷ path ∷ action ∷ id ∷ [], [])
    else denied

unfoldable pub dispatch_five : Text → Text → Text → Text → Text → Text → Result (List Text × Text)
dispatch_five sudo path action id deadline input =
    if not (is_account_call sudo path && credential_id id)
    then denied
    else if action == codes "issue"
    then (if not (leb (length deadline) 12 && is_digits deadline)
        then err (other "invalid deadline")
        else do
          p ← read_password input
          ok (codes "--" ∷ path ∷ action ∷ id ∷ deadline ∷ [], p ++ 10 ∷ []))
    else denied

unfoldable pub dispatch_words : List Text → Text → Result (List Text × Text)
dispatch_words (a ∷ b ∷ c ∷ d ∷ []) input = dispatch_four a b c d
dispatch_words (a ∷ b ∷ c ∷ d ∷ e ∷ []) input = dispatch_five a b c d e input
dispatch_words words input = denied

unfoldable pub dispatch : Text → Text → Result (List Text × Text)
dispatch original input =
    let f = split 32 original in
    if not (join 32 f == original) then denied else dispatch_words f input
