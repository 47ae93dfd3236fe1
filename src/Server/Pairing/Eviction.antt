-- ===== src/Server/Pairing/Eviction.antt =====
-- internal/server/auth.go, `Pair`: the pairings that are kept when one starts.
use lab_gate.Prelude.{
  ℕ, zero, suc, ◌+◌, ◌-◌, ◌≤◌, leb, ltb, Text, List, [], ◌∷◌, map, Bool, true, false, not, ◌&&◌,
  ◌||◌, ◌==◌, ==_iff, ◌≡◌, refl, sym, ap, subst, ◌∙◌, text_eq, nat_eq, length, any, select, drop,
  count, count-drop, All, if◌then◌else◌, Bool-cases, inl, inr, arith,
}
use lab_gate.Store.{distinct}
use lab_gate.Server.Tables.{Pairing, is_unapproved, remove}
use lab_gate.Server.Pairing.{latest_first, evict}
use lab_gate.Server.Pairing.Bound.{latest_first-count, named}

abbrev pub ids : List Pairing → List Text
ids ps = map (λ p. p.id) ps

abbrev pub is_approved : Pairing → Bool
is_approved p = not (is_unapproved p)

-- The rows that are kept when a pairing starts are rows that have not expired: all that are approved,
-- and of the others as many as leave the new one at most the 1024th.
pub record IsKept (now : ℕ) (ps kept : List Pairing) : Type 0 where
  keep : Pairing → Bool
  chosen : kept ≡ select keep (select (λ q. ltb now q.expires) ps)
  approved : select is_approved kept ≡ select is_approved (select (λ q. ltb now q.expires) ps)
  unapproved :
      let n = count is_unapproved (select (λ q. ltb now q.expires) ps) in
      count is_unapproved kept ≡ (if ltb n 1024 then n else 1023)

any-select :
    (x : Text) (f : Pairing → Bool) (ps : List Pairing)
    → any (λ y. y == x) (ids ps) ≡ false
    → any (λ y. y == x) (ids (select f ps)) ≡ false
any-select x f [] h = refl
any-select x f (p ∷ ps) h = ground (arith, h, any-select x f ps)

distinct-select :
    (f : Pairing → Bool) (ps : List Pairing)
    → distinct (ids ps) ≡ true
    → distinct (ids (select f ps)) ≡ true
unfolding distinct
distinct-select f [] h = refl
distinct-select f (p ∷ ps) h = ground (arith, h, distinct-select f ps, any-select p.id f ps)

-- Of rows with distinct ids one at most has a given id, and as many at most are named by a list as it
-- has items.
count-absent :
    (x : Text) (ps : List Pairing)
    → any (λ y. y == x) (ids ps) ≡ false
    → count (λ p. p.id == x) ps ≡ 0
count-absent x [] h = refl
count-absent x (p ∷ ps) h = ground (arith, h, count-absent x ps)

count-id : (x : Text) (ps : List Pairing) → distinct (ids ps) ≡ true → count (λ p. p.id == x) ps ≤ 1
unfolding distinct
count-id x [] h = omega arith
count-id x (p ∷ ps) h = elim (Bool-cases (p.id == x)) [
  | inl hit ↦
      let other : any (λ y. y == x) (ids ps) ≡ false =
        subst (λ z. any (λ y. y == z) (ids ps) ≡ false) ((==_iff p.id x).0 hit)
          (ground (arith, h)) in
      rw (hit, count-absent x ps other) (omega arith)
  | inr miss ↦ rw miss (count-id x ps (ground (arith, h)))
]

abbrev among : List Pairing → Pairing → Bool
among old p = any (λ q. q.id == p.id) old

count-either :
    (f g : Pairing → Bool) (ps : List Pairing)
    → count (λ p. f p || g p) ps ≤ count f ps + count g ps
count-either f g [] = omega arith
count-either f g (p ∷ ps) = ground (arith, count-either f g ps)

eq_sym : (x y : Text) → (x == y) ≡ (y == x)
eq_sym x y = elim (Bool-cases (x == y)) [
  | inl h ↦ h ∙ sym ((==_iff y x).1 (sym ((==_iff x y).0 h)))
  | inr h ↦ elim (Bool-cases (y == x)) [
    | inl k ↦ absurd (let e = (==_iff x y).1 (sym ((==_iff y x).0 k)) in cc (e, h))
    | inr k ↦ h ∙ sym k
  ]
]

flip : (x : Text) (ps : List Pairing) → count (λ p. x == p.id) ps ≡ count (λ p. p.id == x) ps
flip x [] = refl
flip x (p ∷ ps) = rw (eq_sym x p.id) ground (arith, flip x ps)

count-no : (ps : List Pairing) → count (among []) ps ≡ 0
count-no [] = refl
count-no (p ∷ ps) = count-no ps

count-among : (old ps : List Pairing) → distinct (ids ps) ≡ true → count (among old) ps ≤ length old
count-among [] ps h = omega (arith, count-no ps)
count-among (o ∷ old) ps h = omega (
  arith,
  count-either (λ p. o.id == p.id) (among old) ps,
  flip o.id ps,
  count-id o.id ps h,
  count-among old ps h,
)

count-every :
    (f : Pairing → Bool) (ps : List Pairing) → All (λ p. f p ≡ true) ps → count f ps ≡ length ps
count-every f [] a = refl
count-every f (p ∷ ps) (h, a) = rw h (ap suc (count-every f ps a))

module _ (hit : Pairing → Bool) where
  count-chosen :
      (ps : List Pairing)
      → count hit (select is_unapproved ps) ≡ count (λ p. hit p && is_unapproved p) ps
  count-chosen [] = refl
  count-chosen (p ∷ ps) = ground (arith, count-chosen ps)

  count-both :
      (ps : List Pairing)
      → count hit ps
        ≡ count (λ p. hit p && is_unapproved p) ps + count (λ p. hit p && is_approved p) ps
  count-both [] = refl
  count-both (p ∷ ps) = ground (arith, count-both ps)

  count-left :
      (ps : List Pairing)
      → count is_unapproved (remove hit ps) + count (λ p. hit p && is_unapproved p) ps
        ≡ count is_unapproved ps
  count-left [] = refl
  count-left (p ∷ ps) = ground (arith, count-left ps)

  select-left :
      (ps : List Pairing)
      → count (λ p. hit p && is_approved p) ps ≡ 0
      → select is_approved (remove hit ps) ≡ select is_approved ps
  select-left [] h = refl
  select-left (p ∷ ps) h = ground (arith, h, select-left ps)

length-drop : (n : ℕ) (ps : List Pairing) → length (drop n ps) ≡ length ps - n
length-drop zero ps = omega arith
length-drop (suc n) [] = omega arith
length-drop (suc n) (p ∷ ps) = omega (arith, length-drop n ps)

length-select : (f : Pairing → Bool) (ps : List Pairing) → length (select f ps) ≡ count f ps
length-select f [] = refl
length-select f (p ∷ ps) = ground (arith, length-select f ps)

count-true : (ps : List Pairing) → count (λ p. true) ps ≡ length ps
count-true [] = refl
count-true (p ∷ ps) = ap suc (count-true ps)

abbrev evicted : ℕ → List Pairing → List Pairing
evicted n ps = drop n (latest_first (select is_unapproved ps))

length-evicted : (n : ℕ) (ps : List Pairing) → length (evicted n ps) ≡ count is_unapproved ps - n
length-evicted n ps =
    let us = select is_unapproved ps in
    omega (
      arith,
      length-drop n (latest_first us),
      count-true (latest_first us),
      latest_first-count (λ p. true) us,
      count-true us,
      length-select is_unapproved ps,
    )

evicted_are_hit :
    (n : ℕ) (ps : List Pairing)
    → length (evicted n ps) ≤ count (λ p. among (evicted n ps) p && is_unapproved p) ps
evicted_are_hit n ps =
    let us = select is_unapproved ps in
    let old = evicted n ps in
    omega (
      arith,
      count-every (among old) old (named old),
      count-drop (among old) n (latest_first us),
      count-suffix (among old) n (latest_first us),
      latest_first-count (among old) us,
      count-chosen (among old) ps,
    )
  where
    count-suffix :
        (f : Pairing → Bool) (n : ℕ) (ps : List Pairing) → count f (drop n ps) ≤ count f ps
    count-suffix f zero ps = omega arith
    count-suffix f (suc n) [] = omega arith
    count-suffix f (suc n) (p ∷ ps) = ground (arith, count-suffix f n ps)

pub fresh :
    (now : ℕ) (ps : List Pairing)
    → remove (λ q. leb q.expires now) ps ≡ select (λ q. ltb now q.expires) ps
fresh now [] = refl
fresh now (p ∷ ps) = ground (arith, fresh now ps)

capped :
    (n gone left : ℕ) → gone ≡ n - 1023 → left + gone ≡ n → left ≡ (if ltb n 1024 then n else 1023)
capped n gone left e h = elim (Bool-cases (ltb n 1024)) [
  | inl few ↦ rw few (let below : n ≤ 1023 = ground (arith, few) in omega (arith, e, h, below))
  | inr many ↦ rw many (let above : 1024 ≤ n = ground (arith, many) in omega (arith, e, h, above))
]

pub evict-IsKept :
    (now : ℕ) (ps : List Pairing)
    → distinct (ids ps) ≡ true
    → IsKept now ps (evict 1023 (select (λ q. ltb now q.expires) ps))
unfolding evict
evict-IsKept now ps h =
    let xs : List Pairing = select (λ q. ltb now q.expires) ps in
    let old : List Pairing = evicted 1023 xs in
    let all = count-among old xs (distinct-select (λ q. ltb now q.expires) ps h) in
    let most = evicted_are_hit 1023 xs in
    let both = count-both (among old) xs in
    let none : count (λ p. among old p && is_approved p) xs ≡ 0 = omega (arith, all, most, both) in
    let gone : count (λ p. among old p && is_unapproved p) xs ≡ count is_unapproved xs - 1023 =
      omega (arith, all, most, both, length-evicted 1023 xs) in
    let left = count-left (among old) xs in
    record {
      keep = λ p. not (among old p);
      chosen = refl;
      approved = select-left (among old) xs none;
      unapproved = capped (count is_unapproved xs) _ _ gone left;
    }
