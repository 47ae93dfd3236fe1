-- ===== src/Machine/Outbox/Keeping.antt =====
-- The record and the tombstones of an endpoint through internal/machine/files.go, `Queue`.
use lab_gate.Prelude.{ℕ, ◌+◌, leb, Text, Bool, true, false, not, ◌&&◌, if◌then◌else◌, Result, refl}
use lab_gate.Core.Identity.{credential_id}
use lab_gate.Machine.Runtime.{take_lock, list_outbox, write, sequence_file, event_file, Step, lift}
use lab_gate.Machine.Runtime.Burial.{
  IsKept-refl, Keeps, Any, failed-Keeps, look-Keeps, then-Keeps, change-Keeps,
}
use lab_gate.Machine.Runtime.Writing.{must-Keeps}
use lab_gate.Machine.Outbox.{
  max_sequence, is_event, event_name, highest, read_sequence, event_entry, set_sequence, add_entry,
  publish, enqueue,
}

pub lift-Keeps : {A : Type 0} (r : Result A) → Keeps Any (lift r)
lift-Keeps r = record { kept = λ w d. IsKept-refl d; gives = λ w d a e. tt }

-- A test that lets the operation go on or fails.
pub test-Keeps :
    (b : Bool) (m n : Step (Unit {0})) → Keeps Any m → Keeps Any n → Keeps Any (if b then m else n)
test-Keeps true m n k k' = k
test-Keeps false m n k k' = k'

publish-Keeps : (endpoint id : Text) (ver top : ℕ) → Keeps Any (publish endpoint id ver top)
unfolding publish
publish-Keeps endpoint id ver top =
    test-Keeps (leb max_sequence top) _ _ (failed-Keeps Any "sequence exhausted") (
      then-Keeps Any _ _
        (change-Keeps (write sequence_file) (set_sequence (top + 1)) (λ d. refl) (λ d. refl))
        λ _.
          change-Keeps (write (event_file (event_name (top + 1))))
            (add_entry (event_entry (top + 1) endpoint id ver)) (λ d. refl) (λ d. refl))

pub enqueue-Keeps : (endpoint id : Text) (ver : ℕ) → Keeps Any (enqueue endpoint id ver)
unfolding enqueue
enqueue-Keeps endpoint id ver =
    test-Keeps (not (credential_id id && is_event endpoint ver)) _ _
      (failed-Keeps Any "invalid event")
      (then-Keeps Any _ _ (must-Keeps take_lock "lock") λ _.
        then-Keeps Any _ _ (look-Keeps (λ d. d.sequence)) λ f.
          then-Keeps Any _ _ (lift-Keeps (read_sequence f)) λ seq.
            then-Keeps Any _ _ (must-Keeps list_outbox "outbox") λ _.
              then-Keeps Any _ _ (look-Keeps (λ d. d.outbox)) λ es.
                then-Keeps Any _ _ (lift-Keeps (highest seq es))
                  λ top. publish-Keeps endpoint id ver top)
