-- ===== src/Tests/Records.antt =====
-- The theorem on records, at an id that has the form of a generation's.
use lab_gate.Prelude.{codes, Text, true, ◌≡◌, refl, ok, arith, nat_eq}
use lab_gate.Core.Identity.{credential_id}
use lab_gate.Machine.State.{State, active, parse_state, format_state}
use lab_gate.Machine.State.Record.{IsWritable, parse-format_state}

abbrev id : Text
id = codes "generation-of-desk-2"

id_matches : credential_id id ≡ true
unfolding credential_id nat_eq
id_matches = refl

abbrev state : State
state = record { id = id; deadline = 2180; phase = active; changed = 2000 }

state-IsWritable : IsWritable state
state-IsWritable = record {
  ident = id_matches;
  deadline_pos = omega arith;
  deadline_fits = omega arith;
  changed_pos = omega arith;
  changed_fits = omega arith;
}

parse-format_state_example : parse_state (format_state state) ≡ ok state
parse-format_state_example = parse-format_state state state-IsWritable
