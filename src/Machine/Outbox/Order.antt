-- ===== src/Machine/Outbox/Order.antt =====
-- internal/machine/files.go, `Queue`: the place of an event among the files of the outbox.
use lab_gate.Prelude.{
  ℕ, ◌+◌, ◌≤◌, ◌<◌, leb, Text, List, [], ◌∷◌, ◌++◌, Option, none, some, true, false, not, ◌&&◌,
  ◌==◌, text_eq, nat_eq, ==_iff, ◌≡◌, refl, sym, ap, subst, some-injective, ◌⊎◌, ◌∙◌, all, length,
  is_digit, has_prefix, drop_bytes, precedes, padded, value, value-padded, padded_are_digits,
  length-padded, precedes-numerals, precedes-append, All, All-mono, print, Result, ok, err,
  Bool-cases, inl, inr, arith, ◌^◌,
}
use lab_gate.Machine.Runtime.{
  holds, take_lock, list_outbox, write, sequence_file, event_file, Entry, Disk, World,
}
use lab_gate.Machine.Runtime.Yielding.{
  Yields, failed-Yields, look-Yields, lift-Yields, if-Yields, bind-Yields, must-Yields,
  change-Yields,
}
use lab_gate.Core.Identity.{credential_id}
use lab_gate.Machine.Outbox.{
  max_sequence, is_event, event_prefix, event_name, event_number, is_hidden, numbered, raise,
  highest, read_sequence, put_entry, event_entry, set_sequence, add_entry, publish, enqueue,
}

-- A name that comes before another, and is not it.
abbrev IsBefore : Text → Text → Type 0
IsBefore s t = (precedes s t ≡ true) × ((s == t) ≡ false)

-- A text that begins with a prefix of nine bytes is that prefix and the rest.
prefix-split : (p s : Text) → has_prefix s p ≡ true → s ≡ p ++ drop_bytes (length p) s
unfolding has_prefix
prefix-split [] s h = refl
prefix-split (c ∷ p) [] h = cc
prefix-split (c ∷ p) (b ∷ s) h = ground (arith, prefix-split p s, ==_iff b c)

max_fits : (n : ℕ) → n ≤ max_sequence → n < 10 ^ 18
max_fits n h = omega arith

-- The file that is written under a number is read as of that number.
pub event_number-name : (seq : ℕ) → seq < 10 ^ 18 → event_number (event_name seq) ≡ some seq
unfolding event_number event_name has_prefix nat_eq
event_number-name seq h =
    rw (length-padded 18 seq [], padded_are_digits 18 seq [] refl, value-padded 18 seq h) refl

named :
    (name : Text) (n : ℕ)
    → event_number name ≡ some n
    → (has_prefix name event_prefix ≡ true)
      × (length (drop_bytes 9 name) ≡ 18)
      × (all is_digit (drop_bytes 9 name) ≡ true)
      × (value (drop_bytes 9 name) ≡ n)
unfolding event_number
named name n e = ground (arith, e)

number-IsBefore :
    (name : Text) (n seq : ℕ)
    → event_number name ≡ some n
    → n < seq
    → seq < 10 ^ 18
    → IsBefore name (event_name seq)
unfolding event_name
number-IsBefore name n seq e l h =
    let (p, len, digits, val) = named name n e in
    let rest = drop_bytes 9 name in
    let lower : precedes rest (padded 18 seq []) ≡ true =
      precedes-numerals rest (padded 18 seq []) (len ∙ sym (length-padded 18 seq [])) digits
        (padded_are_digits 18 seq [] refl) (rw (val, value-padded 18 seq h) l) in
    (
      subst (λ s. precedes s (event_name seq) ≡ true) (sym (prefix-split event_prefix name p))
          (precedes-append event_prefix rest (padded 18 seq []) lower),
      apart (Bool-cases (name == event_name seq)),
    )
  where
    apart :
        ((name == event_name seq) ≡ true) ⊎ ((name == event_name seq) ≡ false)
        → (name == event_name seq) ≡ false
    apart (inr differs) = differs
    apart (inl same) =
        let again : event_number name ≡ some seq =
          ap event_number ((==_iff name (event_name seq)).0 same) ∙ event_number-name seq h in
        absurd (omega (arith, some-injective n seq (sym e ∙ again)))

hidden-IsBefore : (name : Text) (seq : ℕ) → is_hidden name ≡ true → IsBefore name (event_name seq)
unfolding has_prefix precedes event_name
hidden-IsBefore [] seq h = cc
hidden-IsBefore (c ∷ s) seq h = ground (arith, h)

put_entry-last :
    (e : Entry) (xs : List Entry)
    → All (λ x. IsBefore x.name e.name) xs
    → put_entry e xs ≡ xs ++ e ∷ []
unfolding put_entry
put_entry-last e [] h = refl
put_entry-last e (x ∷ xs) ((p, q), t) = rw (q, p) (ap (λ r. x ∷ r) (put_entry-last e xs t))

-- A name whose number is `top` at most.
abbrev Below : ℕ → Text → Type 0
Below top name = (is_hidden name ≡ true) ⊎ ((n : ℕ) × (event_number name ≡ some n) × (n ≤ top))

raise-le : (o : Option ℕ) (seq : ℕ) → seq ≤ raise o seq
raise-le none seq = omega arith
raise-le (some n) seq = ground arith

raised : (n seq : ℕ) → n ≤ raise (some n) seq
raised n seq = ground arith

numbered-none : (name : Text) → numbered name ≡ ok none → is_hidden name ≡ true
unfolding numbered
numbered-none name e = ground (arith, e)

numbered-some : (name : Text) (n : ℕ) → numbered name ≡ ok (some n) → event_number name ≡ some n
unfolding numbered
numbered-some name n e = ground (arith, e)

abbrev Above : ℕ → ℕ → List Entry → Type 0
Above seq top es = (seq ≤ top) × All (λ e. Below top e.name) es

-- What the first name adds to what is known of the rest.
Above-cons :
    (x : Entry) (xs : List Entry) (seq top : ℕ) (r : Result (Option ℕ))
    → numbered x.name ≡ r
    → ((n : Option ℕ) → highest (raise n seq) xs ≡ ok top → Above (raise n seq) top xs)
    → (elim r [ ok n ↦ highest (raise n seq) xs | err y ↦ err y ]) ≡ ok top
    → Above seq top (x ∷ xs)
Above-cons x xs seq top (err y) k ih e = cc
Above-cons x xs seq top (ok none) k ih e =
    let (low, rest) = ih none e in (low, (inl (numbered-none x.name k), rest))
Above-cons x xs seq top (ok (some n)) k ih e =
    let (low, rest) = ih (some n) e in
    (
      omega (arith, low, raise-le (some n) seq),
      (inr (n, numbered-some x.name n k, omega (arith, low, raised n seq)), rest),
    )

highest-Above : (seq : ℕ) (es : List Entry) (top : ℕ) → highest seq es ≡ ok top → Above seq top es
unfolding highest
highest-Above seq [] top e = (ground (arith, e), tt)
highest-Above seq (x ∷ xs) top e =
    Above-cons x xs seq top (numbered x.name) refl (λ n. highest-Above (raise n seq) xs top) e

Below-IsBefore :
    (top : ℕ) (name : Text)
    → top < max_sequence
    → Below top name
    → IsBefore name (event_name (top + 1))
Below-IsBefore top name h (inl hidden) = hidden-IsBefore name (top + 1) hidden
Below-IsBefore top name h (inr (n, e, low)) =
    number-IsBefore name n (top + 1) e (omega arith) (omega arith)

-- The event stands behind every file that was there, under the number that is stored.
pub record IsLast (endpoint id : Text) (ver : ℕ) (d d' : Disk) : Type 0 where
  pub number : ℕ
  pub fits : number ≤ max_sequence
  pub outbox : d'.outbox ≡ d.outbox ++ event_entry number endpoint id ver ∷ []
  pub later : All (λ e. IsBefore e.name (event_name number)) d.outbox
  pub stored : d'.sequence ≡ holds (print number)

publish-IsLast :
    (endpoint id : Text) (ver top : ℕ) (w : World) (d d0 : Disk)
    → d.outbox ≡ d0.outbox
    → All (λ e. Below top e.name) d0.outbox
    → Yields (λ u. IsLast endpoint id ver d0) (publish endpoint id ver top) w d
unfolding publish
publish-IsLast endpoint id ver top w d d0 same below =
    if-Yields _ w d (leb max_sequence top) _ _ (λ full. failed-Yields _ w d "sequence exhausted")
      λ room.
        bind-Yields {P = λ u d'. (d'.outbox ≡ d0.outbox) × (d'.sequence ≡ holds (print (top + 1)))}
          _ w d _ _
          (change-Yields _ w d (write sequence_file) (set_sequence (top + 1)) (same, refl))
          λ u d' (kept, stored).
            change-Yields _ w d' (write (event_file (event_name (top + 1))))
              (add_entry (event_entry (top + 1) endpoint id ver))
              (let later : All (λ e. IsBefore e.name (event_name (top + 1))) d0.outbox =
                  All-mono _ _ (λ e. Below-IsBefore top e.name (ground arith)) d0.outbox below in
                record {
                  number = top + 1;
                  fits = ground arith;
                  outbox =
                      rw kept
                        (put_entry-last (event_entry (top + 1) endpoint id ver) d0.outbox later);
                  later = later;
                  stored = stored;
                })

-- An event that is queued stands last in the outbox, behind all that was there and still is, and
-- its number, which no other file has, is the one that is stored.
pub enqueue-IsLast :
    (endpoint id : Text) (ver : ℕ) (w : World) (d d' : Disk)
    → (enqueue endpoint id ver).run w d ≡ (ok tt, d')
    → IsLast endpoint id ver d d'
unfolding enqueue
enqueue-IsLast endpoint id ver w d d' e =
    subst (IsLast endpoint id ver d) (ap (λ r. r.1) e) (run.at tt (ap (λ r. r.0) e))
  where
    run : Yields (λ u. IsLast endpoint id ver d) (enqueue endpoint id ver) w d
    run =
        if-Yields _ w d (not (credential_id id && is_event endpoint ver)) _ _
          (λ bad. failed-Yields _ w d "invalid event")
          λ good.
            bind-Yields {P = λ u d1. d1.outbox ≡ d.outbox} _ w d _ _
              (must-Yields _ w d take_lock "lock" (λ x. refl))
              λ u d1 k1.
                bind-Yields {P = λ f d2. d2.outbox ≡ d.outbox} _ w d1 _ _
                  (look-Yields _ w d1 (λ d. d.sequence) k1)
                  λ f d2 k2.
                    bind-Yields {P = λ seq d3. d3.outbox ≡ d.outbox} _ w d2 _ _
                      (lift-Yields _ w d2 (read_sequence f) (λ seq x. k2))
                      λ seq d3 k3.
                        bind-Yields {P = λ v d4. d4.outbox ≡ d.outbox} _ w d3 _ _
                          (must-Yields _ w d3 list_outbox "outbox" (λ x. k3))
                          λ v d4 k4.
                            bind-Yields {P = λ es d5. (d5.outbox ≡ d.outbox) × (es ≡ d.outbox)} _ w
                              d4 _ _ (look-Yields _ w d4 (λ d. d.outbox) (k4, k4))
                              λ es d5 (k5, same).
                                bind-Yields
                                  {P = λ top d6. (d6.outbox ≡ d.outbox) × (highest seq es ≡ ok top)}
                                  _ w d5 _ _
                                  (lift-Yields _ w d5 (highest seq es) (λ top x. (k5, x)))
                                  λ top d6 (k6, high).
                                    publish-IsLast endpoint id ver top w d6 d k6
                                      (subst (All _) same (highest-Above seq es top high).1)
