-- ===== src/Machine/Dispatch/Commands.antt =====
-- The command and the input that the provisioner sends (internal/core/provision.go), read by the
-- `Dispatch` of the endpoint (internal/machine/network.go).
use lab_gate.Prelude.{
  ℕ, zero, suc, ◌+◌, ◌^◌, ◌≤◌, ◌<◌, ltb, leb, Text, codes, [], ◌∷◌, ◌++◌, Bool, true, false, not,
  ◌&&◌, ◌||◌, ◌==◌, nat_eq, text_eq, ◌≡◌, refl, subst, ap, length, take, all, any, count_byte,
  is_digit, Lacks, split, join, split-join, print, print_are_digits, length-print, print-ne-nil,
  other, ok, ok-injective, arith, ==_iff, passes, refuses_not,
}
use lab_gate.Store.{Machine}
use lab_gate.Core.Identity.{credential_id, is_id_byte}
use lab_gate.Core.Provision.{
  issuable_chars, is_issuable, account_path, issue_command, checked, issue_request,
}
use lab_gate.Machine.Account.{is_password_byte, is_password, line_of, read_password}
use lab_gate.Machine.Dispatch.{dispatch_five, dispatch_words, dispatch, is_digits}

counted_byte :
    (f : ℕ → Bool) (s : Text) (c : ℕ) → all f s ≡ true → (count_byte c s == 0) ≡ false → f c ≡ true
unfolding nat_eq
counted_byte f [] c a h = cc
counted_byte f (b ∷ s) c a h = ground (arith, counted_byte f s c)

chars_fit : all is_password_byte issuable_chars ≡ true
unfolding issuable_chars
chars_fit = refl

issuable_bytes :
    (p : Text)
    → any (λ c. count_byte c issuable_chars == 0) p ≡ false
    → all is_password_byte p ≡ true
issuable_bytes [] h = refl
issuable_bytes (c ∷ p) h =
    ground (arith, h, counted_byte is_password_byte issuable_chars c chars_fit, issuable_bytes p)

issuable-is_password : (p : Text) → is_issuable p ≡ true → is_password p ≡ true
unfolding is_issuable
issuable-is_password p h = ground (arith, h, issuable_bytes p)

line_of-append : (p : Text) → all is_password_byte p ≡ true → line_of (p ++ 10 ∷ []) ≡ ok p
unfolding line_of nat_eq
line_of-append [] h = refl
line_of-append (c ∷ []) h = ground (arith, h)
line_of-append (c ∷ x ∷ p) h =
    let rest = line_of-append (x ∷ p) (tail_fits h) in rw rest ground (arith, h)
  where
    tail_fits : all is_password_byte (c ∷ x ∷ p) ≡ true → all is_password_byte (x ∷ p) ≡ true
    tail_fits k = ground (arith, k)

take-short : (n : ℕ) (s : Text) → length s ≤ n → take n s ≡ s
take-short zero [] h = refl
take-short zero (c ∷ s) h = absurd (omega (arith, h))
take-short (suc n) [] h = refl
take-short (suc n) (c ∷ s) h = ap (λ r. c ∷ r) (take-short n s (omega (arith, h)))

length-line : (p : Text) → length (p ++ 10 ∷ []) ≡ suc (length p)
length-line [] = refl
length-line (c ∷ p) = ap suc (length-line p)

reads_password : (p : Text) → is_password p ≡ true → read_password (p ++ 10 ∷ []) ≡ ok p
unfolding read_password
reads_password p h =
    let short : length p ≤ 128 = ground (arith, h) in
    let bytes : all is_password_byte p ≡ true = ground (arith, h) in
    rw
      (
        take-short 131 (p ++ 10 ∷ []) (omega (arith, short, length-line p)),
        length-line p,
        line_of-append p bytes,
        h,
      )
      ground (arith, short)

id_bytes-Lacks_space : (s : Text) → all is_id_byte s ≡ true → Lacks 32 s
unfolding nat_eq
id_bytes-Lacks_space [] h = refl
id_bytes-Lacks_space (c ∷ s) h = ground (arith, id_bytes-Lacks_space s)

digits-Lacks_space : (s : Text) → all is_digit s ≡ true → Lacks 32 s
unfolding nat_eq
digits-Lacks_space [] h = refl
digits-Lacks_space (c ∷ s) h = ground (arith, digits-Lacks_space s)

split_issue :
    (id : Text) (deadline : ℕ)
    → credential_id id ≡ true
    → split 32 (issue_command id deadline)
      ≡ codes "sudo" ∷ account_path ∷ codes "issue" ∷ id ∷ print deadline ∷ []
unfolding issue_command join nat_eq
split_issue id deadline c =
    split-join 32 (codes "sudo") (account_path ∷ codes "issue" ∷ id ∷ print deadline ∷ []) (
      refl,
      (
        refl,
        (
          refl,
          (
            id_bytes-Lacks_space id (id_bytes id c),
            (digits-Lacks_space (print deadline) (print_are_digits deadline), tt),
          ),
        ),
      ),
    )
  where
    id_bytes : (id : Text) → credential_id id ≡ true → all is_id_byte id ≡ true
    id_bytes id c = unfold credential_id in ground (arith, c)

sent_as_checked :
    (vip vpin : Text → Bool) (m : Machine) (c i c' i' : Text)
    → checked vip vpin m c i ≡ ok (c', i')
    → ◌≡◌ {A = Text × Text} (c, i) (c', i')
unfolding checked
sent_as_checked vip vpin m c i c' i' h =
    ok-injective (c, i) (c', i')
      ((passes _ (other "invalid provisioning target or generation") (ok (c, i)) (c', i') h).1)

issue_accepted :
    (vip vpin : Text → Bool) (now deadline : ℕ) (m : Machine) (id p command input : Text)
    → issue_request vip vpin now m id deadline p ≡ ok (command, input)
    → (is_issuable p ≡ true)
      × ◌≡◌ {A = Text × Text} (issue_command id deadline, p ++ 10 ∷ []) (command, input)
unfolding issue_request
issue_accepted vip vpin now deadline m id p command input h =
    let (weak, h') =
      refuses_not (not (is_issuable p)) (other "invalid password") _ (command, input) h in
    let (late, h'') =
      refuses_not (leb deadline now || ltb (now + 86460) deadline) (other "invalid deadline") _
        (command, input) h' in
    (ground (arith, weak), sent_as_checked vip vpin m _ _ command input h'')

fits_deadline :
    (deadline : ℕ)
    → deadline < 10 ^ 12
    → (leb (length (print deadline)) 12 && is_digits (print deadline)) ≡ true
fits_deadline deadline small = ground (
  arith,
  length-print deadline 11 small,
  digits (print deadline) (print-ne-nil deadline) (print_are_digits deadline),
)
  where
    digits : (s : Text) → 1 ≤ length s → all is_digit s ≡ true → is_digits s ≡ true
    digits [] le h = absurd (omega (arith, le))
    digits (c ∷ s) le h = h

passed_on :
    (id : Text) (deadline : ℕ) (p : Text)
    → credential_id id ≡ true
    → is_password p ≡ true
    → deadline < 10 ^ 12
    → dispatch_five (codes "sudo") account_path (codes "issue") id (print deadline) (p ++ 10 ∷ [])
      ≡ ok (codes "--" ∷ account_path ∷ codes "issue" ∷ id ∷ print deadline ∷ [], p ++ 10 ∷ [])
unfolding dispatch_five text_eq nat_eq
passed_on id deadline p c good small =
    rw (c, fits_deadline deadline small, reads_password p good) refl

issued :
    (id : Text) (deadline : ℕ) (p : Text)
    → credential_id id ≡ true
    → is_password p ≡ true
    → deadline < 10 ^ 12
    → dispatch (issue_command id deadline) (p ++ 10 ∷ [])
      ≡ ok (codes "--" ∷ account_path ∷ codes "issue" ∷ id ∷ print deadline ∷ [], p ++ 10 ∷ [])
unfolding dispatch
issued id deadline p c good small =
    rw (split_issue id deadline c, (==_iff _ _).1 (joined id deadline))
      unfold dispatch_words in passed_on id deadline p c good small
  where
    joined :
        (id : Text) (deadline : ℕ)
        → join 32 (codes "sudo" ∷ account_path ∷ codes "issue" ∷ id ∷ print deadline ∷ [])
          ≡ issue_command id deadline
    joined id deadline = unfold join issue_command in refl

-- Whatever request `SSH.Issue` accepts for a well-formed generation and a deadline of at most twelve
-- digits, `Dispatch` on the endpoint runs the account program to issue that generation until that
-- deadline, with the password on its input.
pub dispatch-issue_request :
    (vip vpin : Text → Bool) (now : ℕ) (m : Machine) (id : Text) (deadline : ℕ)
    (p command input : Text)
    → credential_id id ≡ true
    → deadline < 10 ^ 12
    → issue_request vip vpin now m id deadline p ≡ ok (command, input)
    → dispatch command input
      ≡ ok (codes "--" ∷ account_path ∷ codes "issue" ∷ id ∷ print deadline ∷ [], p ++ 10 ∷ [])
dispatch-issue_request vip vpin now m id deadline p command input c small h =
    let (good, same) = issue_accepted vip vpin now deadline m id p command input h in
    subst
      (λ (q : Text × Text).
        dispatch q.0 q.1
        ≡ ok (codes "--" ∷ account_path ∷ codes "issue" ∷ id ∷ print deadline ∷ [], p ++ 10 ∷ []))
      same (issued id deadline p c (issuable-is_password p good) small)
