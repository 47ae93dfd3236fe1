-- ===== src/Machine/State/Record.antt =====
-- internal/machine/files.go, `ParseState`, on what the record of a generation is written as.
use lab_gate.Prelude.{
  ℕ, ◌<◌, ◌^◌, Text, [], ◌∷◌, some, true, ◌≡◌, refl, ◌∙◌, ap, ==_self, text_eq, nat_eq, all,
  is_digit, print, ok, Lacks, split-join, value-print, print_are_digits, length-print, print-ne-nil,
  arith,
}
use lab_gate.Core.Identity.{credential_id, is_id_byte}
use lab_gate.Machine.State.{
  Phase, pending, active, revoked, version, phase_name, read_phase, State, tab, is_number,
  read_time, parse_fields, fields_of, parse_state, format_state,
}

-- A generation id, and times that are positive and below 10 ^ 12 seconds.
pub record IsWritable (s : State) : Type 0 where
  pub ident : credential_id s.id ≡ true
  pub deadline_pos : 0 < s.deadline
  pub deadline_fits : s.deadline < 10 ^ 12
  pub changed_pos : 0 < s.changed
  pub changed_fits : s.changed < 10 ^ 12

pub id_bytes-Lacks : (s : Text) → all is_id_byte s ≡ true → Lacks tab s
unfolding nat_eq
id_bytes-Lacks [] h = refl
id_bytes-Lacks (c ∷ s) h = ground (arith, id_bytes-Lacks s)

pub digits-Lacks : (s : Text) → all is_digit s ≡ true → Lacks tab s
unfolding nat_eq
digits-Lacks [] h = refl
digits-Lacks (c ∷ s) h = ground (arith, digits-Lacks s)

phase_name-Lacks : (p : Phase) → Lacks tab (phase_name p)
unfolding nat_eq
phase_name-Lacks pending = refl
phase_name-Lacks active = refl
phase_name-Lacks revoked = refl

read_phase_name : (p : Phase) → read_phase (phase_name p) ≡ some p
unfolding read_phase text_eq
read_phase_name pending = refl
read_phase_name active = refl
read_phase_name revoked = refl

read_time-print : (n : ℕ) → 0 < n → n < 10 ^ 12 → read_time (print n) ≡ ok n
unfolding read_time is_number
read_time-print n p h =
    rw (value-print n) (ground (arith, print_are_digits n, length-print n 11 h, print-ne-nil n))

parse_fields_lem :
    (s : State)
    → IsWritable s
    → parse_fields s.id
        (print s.deadline)
        (phase_name s.phase)
        (print (version s.phase))
        (print s.changed)
      ≡ ok s
unfolding parse_fields
parse_fields_lem s w = ground (
  arith,
  w.ident,
  read_time-print s.deadline w.deadline_pos w.deadline_fits,
  read_time-print s.changed w.changed_pos w.changed_fits,
  read_phase_name s.phase,
  ==_self (print (version s.phase)),
)

-- A state with the id of a generation and with times that are positive and below 10 ^ 12 is read
-- back as it was written, field for field.
pub parse-format_state : (s : State) → IsWritable s → parse_state (format_state s) ≡ ok s
unfolding parse_state format_state credential_id
parse-format_state s w =
    ap fields_of (
      split-join tab s.id _ (
        id_bytes-Lacks s.id (ground arith),
        (
          digits-Lacks (print s.deadline) (print_are_digits s.deadline),
          (
            phase_name-Lacks s.phase,
            (
              digits-Lacks (print (version s.phase)) (print_are_digits (version s.phase)),
              (digits-Lacks (print s.changed) (print_are_digits s.changed), tt),
            ),
          ),
        ),
      ))
    ∙ parse_fields_lem s w
