-- ===== src/Store/Rows.antt =====
-- What the queries find, and the generations that are live on a machine.
use lab_gate.Prelude.{
  Text, List, [], ◌∷◌, ◌++◌, some, Bool, true, false, ◌≡◌, ◌≢◌, refl, ◌==◌, text_eq, nat_eq,
  if◌then◌else◌, All, length, update, map, select, first, first-eq-some, any, subst, ==_iff, sym,
  Option-cases, some-injective, arith, Bool-cases, inl, inr, ap, ok,
}
use lab_gate.Store.{
  Machine, Credential, Db, live_on, current, machine, credential, has_id, is_credential, distinct,
}

-- No live generation of the machine is left.
abbrev pub IsIdle : Text → List Credential → Type 0
IsIdle mid cs = All (λ c. live_on mid c ≡ false) cs

pub select_none-IsIdle :
    (mid : Text) (cs : List Credential)
    → length (map (λ c. c.id) (select (live_on mid) cs)) ≡ 0
    → IsIdle mid cs
select_none-IsIdle mid [] h = tt
select_none-IsIdle mid (c ∷ cs) h = ground (arith, select_none-IsIdle mid cs)

pub current-IsIdle :
    (mid : Text) (db : Db) → (length (current mid db) == 0) ≡ true → IsIdle mid db.credentials
unfolding current
current-IsIdle mid db h = select_none-IsIdle mid db.credentials (ground arith)

pub IsIdle-current :
    (mid : Text) (cs : List Credential)
    → IsIdle mid cs
    → map (λ c. c.id) (select (live_on mid) cs) ≡ []
IsIdle-current mid [] h = refl
IsIdle-current mid (c ∷ cs) h = ground (arith, IsIdle-current mid cs)

-- A change that makes no generation of the machine live leaves it idle.
pub IsIdle-update :
    (mid : Text) (p : Credential → Bool) (f : Credential → Credential)
    → ((c : Credential) → p c ≡ true → live_on mid (f c) ≡ true → live_on mid c ≡ true)
    → (cs : List Credential) → IsIdle mid cs
    → IsIdle mid (update p f cs)
IsIdle-update mid p f shrinks [] h = tt
IsIdle-update mid p f shrinks (c ∷ cs) h =
    ground (arith, shrinks c, IsIdle-update mid p f shrinks cs h.1)

pub machine-eq-ok :
    (id : Text) (db : Db) {m : Machine}
    → machine id db ≡ ok m
    → (first (has_id m.id) db.machines ≡ some m) × (m.id ≡ id)
unfolding machine
machine-eq-ok id db {m} h = elim (Option-cases (first (has_id id) db.machines)) [
  | inl missing ↦ cc
  | inr (x, e) ↦
      let i : x.id ≡ id = ground (arith, first-eq-some (has_id id) db.machines e) in
      ground (arith, i, ap (λ (k : Text). first (has_id k) db.machines) i)
]

pub credential-eq-ok :
    (id : Text) (db : Db) {c : Credential}
    → credential id db ≡ ok c
    → (first (is_credential c.id) db.credentials ≡ some c) × (c.id ≡ id)
unfolding credential
credential-eq-ok id db {c} h = elim (Option-cases (first (is_credential id) db.credentials)) [
  | inl missing ↦ cc
  | inr (x, e) ↦
      let i : x.id ≡ id = ground (arith, first-eq-some (is_credential id) db.credentials e) in
      ground (arith, i, ap (λ (k : Text). first (is_credential k) db.credentials) i)
]

-- Rows whose keys are distinct: what holds of the row that is found holds of every row with its key.
module _ {A : Type 0} (key : A → Text) (P : A → Type 0) where
  absent :
      (id x : Text) (xs : List A)
      → x ≡ id
      → any (λ y. y == x) (map key xs) ≡ false
      → All (λ a. key a ≡ id → P a) xs
  absent id x [] e h = tt
  absent id x (a ∷ xs) e h = (λ q. absurd (ground arith), absent id x xs e (ground arith))

  pub only_row :
      (id : Text) (xs : List A) {c : A}
      → distinct (map key xs) ≡ true
      → first (λ a. key a == id) xs ≡ some c
      → P c
      → All (λ a. key a ≡ id → P a) xs
  unfolding distinct
  only_row id [] d e h = tt
  only_row id (x ∷ xs) {c} d e h = elim (Bool-cases (key x == id)) [
    | inl hit ↦ (
      λ q. subst P (sym (some-injective x c (rw hit at e))) h,
      absent id (key x) xs (ground arith) (ground arith),
    )
    | inr miss ↦
        (λ q. absurd (ground arith), only_row id xs {c = c} (ground arith) (rw miss at e) h)
  ]

-- A row that is found by another test is found by its key too.
missing-first :
    {A : Type 0} (key : A → Text) (p : A → Bool) (x : Text) (xs : List A) (a : A)
    → any (λ y. y == x) (map key xs) ≡ false
    → first p xs ≡ some a
    → key a ≢ x
missing-first key p x [] a h e = cc
missing-first key p x (y ∷ ys) a h e = elim (Bool-cases (p y)) [
  | inl hit ↦ subst (λ z. key z ≢ x) (some-injective y a (rw hit at e)) (ground arith)
  | inr miss ↦ missing-first key p x ys a (ground arith) (rw miss at e)
]

pub first_by_key :
    {A : Type 0} (key : A → Text) (p : A → Bool) (xs : List A) (a : A)
    → distinct (map key xs) ≡ true
    → first p xs ≡ some a
    → first (λ b. key b == key a) xs ≡ some a
unfolding distinct
first_by_key key p [] a d e = cc
first_by_key key p (x ∷ xs) a d e = elim (Bool-cases (p x)) [
  | inl hit ↦ ground (arith, some-injective x a (rw hit at e))
  | inr miss ↦ ground (
    arith,
    first_by_key key p xs a (ground arith) (rw miss at e),
    missing-first key p (key x) xs a (ground arith) (rw miss at e),
  )
]

-- A row read after an UPDATE that keeps keys is the row read before, changed if it is concerned.
pub first-update :
    {A : Type 0} (key : A → Text) (k : Text) (p : A → Bool) (f : A → A)
    → ((a : A) → key (f a) ≡ key a)
    → (xs : List A) (a : A) → first (λ b. key b == k) xs ≡ some a
    → first (λ b. key b == k) (update p f xs) ≡ some (if p a then f a else a)
first-update key k p f same [] a e = cc
first-update key k p f same (x ∷ xs) a e = elim (Bool-cases (key x == k)) [
  | inl hit ↦
      let i : x ≡ a = some-injective x a (rw hit at e) in
      subst (λ z. first (λ b. key b == k) (update p f (x ∷ xs)) ≡ some (if p z then f z else z)) i
        (ground (arith, same x))
  | inr miss ↦ let rest = first-update key k p f same xs a (rw miss at e) in ground (arith, same x)
]

any-append :
    {A : Type 0} (p : A → Bool) (xs : List A) (a : A) → any p (xs ++ a ∷ []) ≡ false → p a ≡ false
any-append p [] a h = ground arith
any-append p (x ∷ xs) a h = any-append p xs a (ground arith)

map-append_one :
    {A : Type 0} (key : A → Text) (xs : List A) (a : A)
    → map key (xs ++ a ∷ []) ≡ map key xs ++ key a ∷ []
map-append_one key [] a = refl
map-append_one key (x ∷ xs) a = rw (map-append_one key xs a)

distinct-head :
    (x : Text) (xs : List Text) → distinct (x ∷ xs) ≡ true → any (λ y. y == x) xs ≡ false
unfolding distinct
distinct-head x xs d = ground arith

-- A row that is inserted under a primary key has a key that no row had.
pub absent_append :
    {A : Type 0} (key : A → Text) (xs : List A) (a : A)
    → distinct (map key (xs ++ a ∷ [])) ≡ true
    → All (λ x. key x ≢ key a) xs
unfolding distinct
absent_append key [] a d = tt
absent_append key (x ∷ xs) a d = (
  λ e.
      let h : any (λ y. y == key x) (map key xs ++ key a ∷ []) ≡ false =
        rw (map-append_one key xs a) at (distinct-head (key x) (map key (xs ++ a ∷ [])) d) in
      cc (any-append (λ y. y == key x) (map key xs) (key a) h, (==_iff (key a) (key x)).1 (sym e)),
  absent_append key xs a (ground arith),
)

-- The row that a test finds, read by its key after the UPDATE of the rows that pass.
pub first-update_found :
    {A : Type 0} (key : A → Text) (k : Text) (p : A → Bool) (f : A → A)
    → ((a : A) → key (f a) ≡ key a)
    → (xs : List A) (a : A) → distinct (map key xs) ≡ true
    → first p xs ≡ some a
    → key a ≡ k
    → first (λ b. key b == k) (update p f xs) ≡ some (f a)
first-update_found key k p f same xs a d e i =
    let found : first (λ b. key b == k) xs ≡ some a =
      subst (λ z. first (λ b. key b == z) xs ≡ some a) i (first_by_key key p xs a d e) in
    subst (λ z. first (λ b. key b == k) (update p f xs) ≡ some (if z then f a else a))
      (first-eq-some p xs e) (first-update key k p f same xs a found)
