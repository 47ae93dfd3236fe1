-- ===== src/Core/Activity/Pages.antt =====
-- internal/core/activity.go: the entries of a page, and the cursor behind it.
use lab_gate.Prelude.{
  ℕ, zero, suc, ◌≤◌, ◌<◌, ◌^◌, ltb, lower, Text, codes, List, [], ◌∷◌, Option, none, some, Bool,
  true, false, not, ◌&&◌, ◌||◌, ◌==◌, ==_self, text_eq, nat_eq, select, map, take, length, any, all,
  All, All-mono, fail, io, ok, Ensures, Ensures-ok, Ensures-err, Ensures-bind, Ensures-if, ◌≡◌,
  refl, subst, Bool-cases, inl, inr, arith,
}
use lab_gate.Store.{AuditRow, Machine, Db}
use lab_gate.Core.Identity.{credential_id, is_id_byte}
use lab_gate.Core.Activity.{
  Kind, mapping, Cursor, Entry, Page, Query, is_filter, get, is_source, is_action, admits, is_shown,
  all_events, is_of, is_behind, is_newer, place_newest, newest_first, entry_of, is_admitted,
  rows_of, Codec, decoded, read_cursor, write_cursor, page_of, empty_page, queried, activity,
}

-- An entry that the filters of a query admit.
pub record Matches (q : Query) (e : Entry) : Type 0 where
  of_source : admits (get (codes "source") q) e.kind.source ≡ true
  of_action : admits (get (codes "action") q) e.kind.action ≡ true
  of_email : (get (codes "email") q == [] || lower e.email == lower (get (codes "email") q)) ≡ true

pub record IsPage (q : Query) (p : Page) : Type 0 where
  short : length p.entries ≤ 50
  fitting : All (Matches q) p.entries

passing : (p : AuditRow → Bool) (rows : List AuditRow) → All (λ a. p a ≡ true) (select p rows)
passing p [] = tt
passing p (a ∷ rows) = elim (Bool-cases (p a)) [
  | inl hit ↦ rw hit (hit, passing p rows)
  | inr miss ↦ rw miss (passing p rows)
]

module _ (P : AuditRow → Type 0) where
  place_newest-All :
      (a : AuditRow) (rows : List AuditRow) → P a → All P rows → All P (place_newest a rows)
  unfolding place_newest
  place_newest-All a [] h t = (h, tt)
  place_newest-All a (b ∷ rows) h (k, t) = elim (Bool-cases (is_newer a b)) [
    | inl before ↦ rw before (h, (k, t))
    | inr behind ↦ rw behind (k, place_newest-All a rows h t)
  ]

  newest_first-All : (rows : List AuditRow) → All P rows → All P (newest_first rows)
  unfolding newest_first
  newest_first-All [] t = tt
  newest_first-All (a ∷ rows) (h, t) =
      place_newest-All a (newest_first rows) h (newest_first-All rows t)

take-All : {A : Type 0} (P : A → Type 0) (n : ℕ) (xs : List A) → All P xs → All P (take n xs)
take-All P zero xs a = tt
take-All P (suc n) [] a = tt
take-All P (suc n) (x ∷ xs) (h, a) = (h, take-All P n xs a)

length-take : {A : Type 0} (n : ℕ) (xs : List A) → length (take n xs) ≤ n
length-take zero xs = omega arith
length-take (suc n) [] = omega arith
length-take (suc n) (x ∷ xs) = omega (arith, length-take n xs)

map-All :
    {A B : Type 0} (P : A → Type 0) (Q : B → Type 0) (f : A → B)
    → ((a : A) → P a → Q (f a))
    → (xs : List A) → All P xs
    → All Q (map f xs)
map-All P Q f h [] a = tt
map-All P Q f h (x ∷ xs) (k, a) = (h x k, map-All P Q f h xs a)

row-Matches :
    (q : Query) (ms : List Machine) (a : AuditRow)
    → is_admitted (get (codes "source") q) (get (codes "action") q) (get (codes "email") q) a ≡ true
    → Matches q (entry_of ms a)
unfolding is_admitted
row-Matches q ms a h = go a.email (mapping a.event) refl refl h
  where
    go :
        (e : Option Text) (k : Option Kind)
        → a.email ≡ e
        → mapping a.event ≡ k
        → (is_of (get (codes "email") q) e
            && is_shown (get (codes "source") q) (get (codes "action") q) k)
          ≡ true
        → Matches q (entry_of ms a)
    go none k ee ke g = cc
    go (some e) none ee ke g = unfold is_shown in ground (arith, g)
    go (some e) (some k) ee ke g =
        rw (ee, ke)
          (unfold is_shown in
            record {
              of_source = ground (arith, g);
              of_action = ground (arith, g);
              of_email = ground (arith, g);
            })

page_of-IsPage :
    (x : Codec) (q : Query) (es : List Entry) → All (Matches q) es → IsPage q (page_of x es)
unfolding page_of
page_of-IsPage x q es a = elim (Bool-cases (ltb 50 (length es))) [
  | inl more ↦
      rw more (record { short = length-take 50 es; fitting = take-All (Matches q) 50 es a })
  | inr fits ↦ rw fits (record { short = ground (arith, fits); fitting = a })
]

queried-IsPage :
    (x : Codec) (fault : Bool) (q : Query) (db : Db) (behind : Option (ℕ × Text))
    → Ensures (IsPage q) (
        queried x fault
          (get (codes "source") q)
          (get (codes "action") q)
          (get (codes "email") q)
          db
          behind)
unfolding rows_of queried
queried-IsPage x true q db behind = Ensures-err (IsPage q) io
queried-IsPage x false q db behind =
    Ensures-ok (IsPage q) (page_of x (map (entry_of db.machines) rows)) (
      page_of-IsPage x q (map (entry_of db.machines) rows) (
        map-All Admitted (Matches q) (entry_of db.machines) (row-Matches q db.machines) rows
          fitting))
  where
    Admitted : AuditRow → Type 0
    Admitted a =
        is_admitted (get (codes "source") q) (get (codes "action") q) (get (codes "email") q) a
        ≡ true

    test : AuditRow → Bool
    test a =
        is_admitted (get (codes "source") q) (get (codes "action") q) (get (codes "email") q) a
        && is_behind behind a

    rows : List AuditRow
    rows = take 51 (newest_first (select test db.audit))

    fitting : All Admitted rows
    fitting = take-All Admitted 51 (newest_first (select test db.audit)) (
        newest_first-All Admitted (select test db.audit) (
          All-mono (λ a. test a ≡ true) Admitted (λ a h. ground (arith, h)) (select test db.audit)
            (passing test db.audit)))

empty-IsPage : (x : Codec) (q : Query) → IsPage q (empty_page x)
empty-IsPage x q = record { short = omega arith; fitting = tt }

-- A page has at most 50 entries, and each is of an event that the filters of the query admit and of
-- the address it asks for, if it asks for one.
pub activity-IsPage :
    (x : Codec) (fault : Bool) (q : Query) (db : Db) (p : Page)
    → activity x fault q db ≡ ok p
    → IsPage q p
unfolding activity
activity-IsPage x fault q db p h = let e = whole in e.at p h
  where
    whole : Ensures (IsPage q) (activity x fault q db)
    whole =
        Ensures-if (IsPage q) (not (all is_filter q)) _ _
          (λ a. Ensures-err (IsPage q) (fail 400 "Invalid or repeated activity filter"))
          (λ b.
            Ensures-if (IsPage q) (not (is_source (get (codes "source") q))) _ _
              (λ a. Ensures-err (IsPage q) (fail 400 "Invalid source"))
              (λ b.
                Ensures-if (IsPage q) (not (is_action (get (codes "action") q))) _ _
                  (λ a. Ensures-err (IsPage q) (fail 400 "Invalid action"))
                  (λ b.
                    Ensures-if (IsPage q)
                      (not (
                        any
                          (λ e.
                            is_shown (get (codes "source") q) (get (codes "action") q) (mapping e))
                          all_events))
                      _ _ (λ a. Ensures-ok (IsPage q) (empty_page x) (empty-IsPage x q))
                      (λ b.
                        Ensures-if (IsPage q) (ltb 254 (length (get (codes "email") q))) _ _
                          (λ a. Ensures-err (IsPage q) (fail 400 "Email too long"))
                          (λ b.
                            Ensures-bind (IsPage q) (read_cursor x (get (codes "cursor") q))
                              (queried x fault (get (codes "source") q) (get (codes "action") q)
                                (get (codes "email") q) db)
                              (λ behind e. queried-IsPage x fault q db behind))))))

-- A character that JSON writes and reads as it is.
abbrev pub is_ascii : ℕ → Bool
is_ascii b = ltb b 128

id_bytes-ascii : (s : Text) → all is_id_byte s ≡ true → all is_ascii s ≡ true
id_bytes-ascii [] h = refl
id_bytes-ascii (c ∷ s) h = ground (arith, h, id_bytes-ascii s)

id-ascii : (id : Text) → credential_id id ≡ true → all is_ascii id ≡ true
unfolding credential_id
id-ascii id h = id_bytes-ascii id (ground (arith, h))

-- A cursor names the entry it was made of: if the entry's time lies between 1970 and the year 10000
-- and its id is well-formed, the cursor, where it is a text of one to 512 bytes, is read back as that
-- time and id. This is under the JSON library's reading a cursor of ASCII texts as it was written,
-- base64's decoding what it encoded, and the time library's writing a time before the year 10000 in
-- ASCII and reading it back.
pub read_cursor-write_cursor :
    (x : Codec) (e : Entry)
    → ((c : Cursor)
        → c.version < 2 ^ 63
        → all is_ascii c.created ≡ true
        → all is_ascii c.id ≡ true
        → x.unmarshal (x.marshal c) ≡ some c)
    → ((s : Text) → x.decode (x.encode s) ≡ some s)
    → ((t : ℕ) → t < 253402300800000 → x.parse_time (x.stamp t) ≡ some t)
    → ((t : ℕ) → t < 253402300800000 → all is_ascii (x.stamp t) ≡ true)
    → e.at < 253402300800000
    → credential_id e.id ≡ true
    → 1 ≤ length (write_cursor x e)
    → length (write_cursor x e) ≤ 512
    → read_cursor x (write_cursor x e) ≡ ok (some (e.at, e.id))
unfolding write_cursor nat_eq
read_cursor-write_cursor x e json base time plain early good low high =
    go (write_cursor x e) refl low
  where
    c : Cursor
    c = record { version = 1; created = x.stamp e.at; id = e.id }

    fits : ltb 512 (length (write_cursor x e)) ≡ false
    fits = ground (arith, high)

    read : decoded x (x.encode (x.marshal c)) (x.decode (x.encode (x.marshal c))) ≡ ok (e.at, e.id)
    read =
        rw
          (
            base (x.marshal c),
            fits,
            ==_self (x.encode (x.marshal c)),
            json c (omega arith) (plain e.at early) (id-ascii e.id good),
            good,
            time e.at early,
            ==_self (x.stamp e.at),
          )
          refl

    go :
        (v : Text)
        → x.encode (x.marshal c) ≡ v
        → 1 ≤ length v
        → read_cursor x v ≡ ok (some (e.at, e.id))
    go [] s le = absurd (omega (arith, le))
    go (b ∷ v) s le =
        let same : decoded x (b ∷ v) (x.decode (b ∷ v)) ≡ ok (e.at, e.id) =
          subst (λ t. decoded x t (x.decode t) ≡ ok (e.at, e.id)) s read in
        unfold read_cursor in rw same refl
