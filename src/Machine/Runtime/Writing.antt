-- ===== src/Machine/Runtime/Writing.antt =====
-- The writes of internal/machine/files.go, under `Burial`.
use lab_gate.Prelude.{
  ℕ, Text, true, false, not, ◌==◌, text_eq, ◌≡◌, ◌≢◌, refl, ap, subst, ◌∙◌, String, Bool-cases, inl,
  inr,
}
use lab_gate.Core.Identity.{credential_id}
use lab_gate.Machine.State.{Phase, revoked, pending, active, State}
use lab_gate.Machine.Runtime.{
  File, absent, unreadable, holds, Call, write, remove, state_file, marker_file, recovery_file,
  clock, Answer, yes, no, lost, Disk, Step, ask, look, change, must, written, tombstone, is_revoked,
  displace, bury_revoked, write_state, called, succeed, clear_marker, clear_recovery, recovery,
}
use lab_gate.Machine.Runtime.Burial.{
  IsKept, IsKept-refl, IsKept-trans, IsKept-same, Keeps, Any, done-Keeps, failed-Keeps, look-Keeps,
  outcome-Keeps, ask-Keeps, bind-Keeps, then-Keeps, written-Keeps, change-Keeps, Buried,
  tombstone-Keeps,
}

abbrev put_state : State → Disk → Disk
put_state s d = record d { state = holds s }

put_state-IsKept :
    (s : State) (d : Disk) → (s.phase ≡ revoked → Buried s.id d) → IsKept d (put_state s d)
put_state-IsKept s d b = record { stays = λ id t e. e; buried = λ before. own }
  where
    same : (s' : State) → holds s ≡ holds s' → s ≡ s'
    same s' e = cc

    own : (s' : State) → holds s ≡ holds s' → s'.phase ≡ revoked → Buried s'.id d
    own s' e p = subst (λ x. Buried x.id d) (same s' e) (b (ap (λ x. x.phase) (same s' e) ∙ p))

-- The weakest that a step is known to do: it keeps what `Burial` says.
pub weakened : {A : Type 0} {P : A → Disk → Type 0} (m : Step A) → Keeps P m → Keeps Any m
weakened m k = record { kept = k.kept; gives = λ w d a e. tt }

displace-Keeps : (id : Text) (f : File State) → Keeps Any (displace id f)
displace-Keeps id absent = done-Keeps tt
displace-Keeps id unreadable = failed-Keeps Any "corrupt credential state"
displace-Keeps id (holds old) = elim (Bool-cases (old.id == id)) [
  | inl same ↦ rw same (done-Keeps tt)
  | inr other ↦ rw other (elim (Bool-cases (not (is_revoked old.phase))) [
    | inl l ↦ rw l (failed-Keeps Any "another generation is live")
    | inr ended ↦ rw ended (weakened (tombstone old.id) (tombstone-Keeps old.id))
  ])
]

-- What holds once a revoked generation is to be recorded.
abbrev Ready : Text → Phase → Disk → Type 0
Ready id p d = p ≡ revoked → Buried id d

bury_revoked-Keeps : (id : Text) (p : Phase) → Keeps (λ u. Ready id p) (bury_revoked id p)
bury_revoked-Keeps id revoked = record {
  kept = (tombstone-Keeps id).kept;
  gives = λ w d u e p. (tombstone-Keeps id).gives w d u e;
}
bury_revoked-Keeps id pending = record {
  kept = λ w d. IsKept-refl d;
  gives = λ w d u e p. absurd (pending-ne p);
}
  where
    pending-ne : pending ≢ revoked
    pending-ne e = cc
bury_revoked-Keeps id active = record {
  kept = λ w d. IsKept-refl d;
  gives = λ w d u e p. absurd (active-ne p);
}
  where
    active-ne : active ≢ revoked
    active-ne e = cc

record_written :
    (id : Text) (deadline : ℕ) (p : Phase) (t : ℕ) (x : Answer) (d : Disk)
    → Ready id p d
    → IsKept d
        (written
          (write state_file)
          (put_state (record { id = id; deadline = deadline; phase = p; changed = t }))
          x
          d).1
record_written id deadline p t x d b =
    let s : State = record { id = id; deadline = deadline; phase = p; changed = t } in
    let asked : Disk = called (write state_file) d in
    (written-Keeps (λ d'. Unit {0}) (write state_file) (put_state s) x d
      (IsKept-trans d asked _ (IsKept-same d asked refl refl) (put_state-IsKept s asked b)) tt).0

pub write_state-Keeps :
    (id : Text) (deadline : ℕ) (p : Phase) → Keeps Any (write_state id deadline p)
unfolding write_state
write_state-Keeps id deadline p = elim (Bool-cases (not (credential_id id))) [
  | inl bad ↦ rw bad (failed-Keeps Any "invalid state")
  | inr good ↦ rw good (
      then-Keeps Any _ _
        (then-Keeps Any (look (λ d. d.state)) (displace id) (look-Keeps (λ d. d.state))
          (displace-Keeps id))
        λ u. bind-Keeps Any (bury_revoked id p) _ (bury_revoked-Keeps id p) λ v w d b.
          let told : Disk = called clock d in
          (
            IsKept-trans d told _ (IsKept-same d told refl refl) (
                record_written id deadline p (w.time d.history)
                  (w.answer (write state_file) told.history) told b),
            λ x e. tt,
          ))
]

succeed-Keeps : (s : String) (x : Answer) → Keeps Any (succeed s x)
succeed-Keeps s yes = done-Keeps tt
succeed-Keeps s no = failed-Keeps Any s
succeed-Keeps s lost = failed-Keeps Any s

pub must-Keeps : (c : Call) (s : String) → Keeps Any (must c s)
must-Keeps c s = then-Keeps Any (ask c) (succeed s) (ask-Keeps c) (succeed-Keeps s)

pub clear_marker-Keeps : Keeps Any clear_marker
clear_marker-Keeps =
    change-Keeps (remove marker_file) (λ d. record d { marker = absent }) (λ d. refl) (λ d. refl)

pub clear_recovery-Keeps : Keeps Any clear_recovery
clear_recovery-Keeps =
    change-Keeps (remove recovery_file) (λ d. record d { needs_recovery = false }) (λ d. refl)
      (λ d. refl)

pub recovery-Keeps : Keeps Any recovery
recovery-Keeps =
    outcome-Keeps Any (change (write recovery_file) (λ d. record d { needs_recovery = true })) (
      change-Keeps (write recovery_file) (λ d. record d { needs_recovery = true }) (λ d. refl)
        (λ d. refl))
