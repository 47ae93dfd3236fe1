-- ===== src/Tests/Commands.antt =====
-- The theorems on the output of commands: processes that are gone at the third look, and two failure
-- counters that are reset.
use lab_gate.Prelude.{
  ℕ, [], codes, Text, split, value, ltb, nat_eq, text_eq, if◌then◌else◌, Bool, false, ok, ◌≡◌, refl,
  ◌⊎◌,
}
use lab_gate.Machine.System.{
  Output, printed, exited, Look, uid, absent, looks, kill, reset_all, reset_backends,
}
use lab_gate.Machine.System.Quiet.{SomeQuiet, kill-SomeQuiet}
use lab_gate.Machine.System.Backends.{AllReset, backends-AllReset}

abbrev looked : ℕ → Look
looked i = record {
  id_output = printed (codes "1001");
  by_user = exited (if ltb i 2 then 0 else 1);
  by_real_user = exited 1;
}

abbrev never : ℕ → Bool
never i = false

processes_ended : kill (printed (codes "1001")) looked never ≡ ok tt
unfolding kill looks absent uid value nat_eq
processes_ended = refl

kill-SomeQuiet_example : SomeQuiet looked 40
kill-SomeQuiet_example = kill-SomeQuiet (printed (codes "1001")) looked never processes_ended

abbrev silent : Text → Output
silent b = printed (codes "")

counters_reset : reset_backends silent (codes "faillock,pam_tally2") ≡ ok tt
unfolding reset_backends reset_all text_eq nat_eq split
counters_reset = refl

backends-AllReset_example :
    (codes "faillock,pam_tally2" ≡ codes "none")
    ⊎ AllReset silent [] (split b',' (codes "faillock,pam_tally2"))
backends-AllReset_example = backends-AllReset silent (codes "faillock,pam_tally2") counters_reset
