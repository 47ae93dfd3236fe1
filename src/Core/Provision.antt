-- ===== src/Core/Provision.antt =====
-- internal/core/provision.go: the command and the input that `SSH.Issue` and `SSH.Revoke` send to an
-- endpoint. The dial, the handshake and the run of the command are one parameter.
pub mod Issuable
use lab_gate.Prelude.{
  ℕ, suc, ◌+◌, ltb, leb, Text, codes, List, [], ◌∷◌, ◌++◌, Option, none, some, Bool, true, false,
  not, ◌&&◌, ◌||◌, ◌==◌, nat_eq, if◌then◌else◌, length, any, count_byte, print, Error, other,
  Result, ok, err, ◌>>=◌,
}
use lab_gate.Store.{Machine}
use lab_gate.Core.Identity.{credential_id}

-- The characters of a password that may be sent.
unfoldable pub issuable_chars : Text
issuable_chars = codes "ABCDEFGHJKLMNPQRSTUVWXYZabcdefghijkmnopqrstuvwxyz23456789"

-- The test on passwords: their length, and `IndexFunc` of a character that is none of the set.
unfoldable pub is_issuable : Text → Bool
is_issuable p =
    leb 5 (length p) && leb (length p) 128 && not (any (λ c. count_byte c issuable_chars == 0) p)

abbrev pub is_space : ℕ → Bool
is_space c = c == 32 || leb 9 c && leb c 13

abbrev pub grow : ℕ → List Text → List Text
grow c [] = (c ∷ []) ∷ []
grow c (w ∷ ws) = (c ∷ w) ∷ ws

-- The words of the text that follows the open word, and whether a word is open at its head.
words_in : Text → List Text × Bool
words_in [] = ([], false)
words_in (c ∷ s) =
    let (ws, open_word) = words_in s in
    if is_space c then (ws, false) else (if open_word then grow c ws else (c ∷ []) ∷ ws, true)

-- `strings.Fields` of ASCII.
unfoldable pub fields : Text → List Text
unfolding words_in
fields s = (words_in s).0

abbrev pub account_path : Text
account_path = codes "/usr/local/sbin/guest-account.sh"

unfoldable pub issue_command : Text → ℕ → Text
issue_command id deadline =
    codes "sudo /usr/local/sbin/guest-account.sh issue " ++ id ++ 32 ∷ print deadline

unfoldable pub revoke_command : Text → Text
revoke_command id = codes "sudo /usr/local/sbin/guest-account.sh revoke " ++ id

-- The fourth word of a command is the generation.
abbrev pub names_generation : List Text → Bool
names_generation (a ∷ b ∷ c ∷ id ∷ more) = credential_id id
names_generation words = false

module _ (valid_ip valid_pin : Text → Bool) where
  abbrev pub has_valid_pin : Option Text → Bool
  has_valid_pin none = false
  has_valid_pin (some p) = valid_pin p

  -- The checks of `run` on what it is to send.
  unfoldable pub checked : Machine → Text → Text → Result (Text × Text)
  checked m command input =
      if names_generation (fields command) && has_valid_pin m.pin && valid_ip m.ip
      then ok (command, input)
      else err (other "invalid provisioning target or generation")

  -- What is sent to issue a generation.
  unfoldable pub issue_request : ℕ → Machine → Text → ℕ → Text → Result (Text × Text)
  unfolding checked
  issue_request now m id deadline password =
      if not (is_issuable password)
      then err (other "invalid password")
      else if leb deadline now || ltb (now + 86460) deadline
      then err (other "invalid deadline")
      else checked m (issue_command id deadline) (password ++ 10 ∷ [])

  unfoldable pub revoke_request : Machine → Text → Result (Text × Text)
  unfolding checked
  revoke_request m id = checked m (revoke_command id) []

  module _ (deliver : Machine → Text → Text → Bool) where
    abbrev pub sent : Machine → Text × Text → Result (Unit {0})
    sent m (command, input) =
        if deliver m command input then ok tt else err (other "SSH lifecycle command failed")

    unfoldable pub ssh_issue : ℕ → Machine → Text → ℕ → Text → Result (Unit {0})
    ssh_issue now m id deadline password = issue_request now m id deadline password >>= sent m

    unfoldable pub ssh_revoke : Machine → Text → Result (Unit {0})
    ssh_revoke m id = revoke_request m id >>= sent m
