-- ===== src/Machine/State.antt =====
-- internal/machine/files.go: the record of the current generation, as it is written and as it is
-- parsed. A byte that is not ASCII fails each pattern, as it does in the source.
pub mod Record
use lab_gate.Prelude.{
  ℕ, suc, ◌+◌, ◌<◌, ◌≤◌, leb, ltb, Text, codes, List, [], ◌∷◌, ◌++◌, Option, none, some, Bool, true,
  false, not, ◌&&◌, ◌||◌, ◌==◌, ◌!=◌, text_eq, nat_eq, if◌then◌else◌, all, length, is_digit,
  is_alnum, split, join, print, value, Result, ok, err, other,
}
use lab_gate.Core.Identity.{credential_id}

-- The life of a generation, with the version that each state has: `version`.
pub data Phase : Type 0 where
  pending active revoked : Phase

abbrev pub version : Phase → ℕ
version pending = 1
version active = 2
version revoked = 3

abbrev pub phase_name : Phase → Text
phase_name pending = codes "pending"
phase_name active = codes "active"
phase_name revoked = codes "revoked"

-- The state that a field names; the source keeps the text, and gives any other version 0.
pub read_phase : Text → Option Phase
read_phase s =
    if s == codes "pending"
    then some pending
    else if s == codes "active"
    then some active
    else if s == codes "revoked"
    then some revoked
    else none

pub record State : Type 0 where
  pub id : Text
  pub deadline : ℕ
  pub phase : Phase
  pub changed : ℕ

abbrev tab : ℕ
tab = 9

-- One to `n` digits: `regexpDigits` with the limit on the length that goes with it.
pub is_number : ℕ → Text → Bool
is_number n s = leb 1 (length s) && leb (length s) n && all is_digit s

-- A positive time of at most twelve digits, which `ParseInt` reads with no overflow.
pub read_time : Text → Result ℕ
read_time s =
    if is_number 12 s && ltb 0 (value s) then ok (value s) else err (other "invalid deadline")

pub parse_fields : Text → Text → Text → Text → Text → Result State
unfolding read_phase read_time is_number
parse_fields id deadline phase ver changed =
    if not (credential_id id)
    then err (other "corrupt credential state")
    else elim (read_time deadline) [
      | err e ↦ err e
      | ok d ↦ elim (read_time changed) [
        | err e ↦ err (other "invalid lifecycle version")
        | ok c ↦ elim (read_phase phase) [
          | none ↦ err (other "invalid lifecycle version")
          | some p ↦
              if ver == print (version p)
              then ok (record { id = id; deadline = d; phase = p; changed = c })
              else err (other "invalid lifecycle version")
        ]
      ]
    ]

fields_of : List Text → Result State
unfolding parse_fields
fields_of (a ∷ b ∷ c ∷ d ∷ e ∷ []) = parse_fields a b c d e
fields_of fields = err (other "corrupt credential state")

unfoldable pub parse_state : Text → Result State
unfolding fields_of
parse_state v = fields_of (split tab v)

-- The line that `writeState` writes, without its newline.
unfoldable pub format_state : State → Text
format_state s =
    join tab (
      s.id ∷ print s.deadline ∷ phase_name s.phase ∷ print (version s.phase) ∷ print s.changed ∷ [])
