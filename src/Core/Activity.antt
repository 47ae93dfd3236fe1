-- ===== src/Core/Activity.antt =====
-- internal/core/activity.go: a page of the log, the newest events first, under a filter and behind a
-- cursor. JSON, base64 and the format of times are parameters.
pub mod Pages
use lab_gate.Prelude.{
  String, ℕ, zero, suc, ◌+◌, leb, ltb, precedes, lower, Text, codes, List, [], ◌∷◌, Option, none,
  some, Bool, true, false, not, ◌&&◌, ◌||◌, ◌==◌, text_eq, nat_eq, if◌then◌else◌, select, first,
  map, take, length, any, all, fail, io, Error, Result, ok, err, ◌>>=◌,
}
use lab_gate.Store.{
  Event, checkout, password_timeout, session_open, session_close, login, logout, AuditRow, Machine,
  Db, has_id,
}
use lab_gate.Core.Identity.{credential_id}

-- How an event is shown: where it took place, what was done and what became of it.
pub record Kind : Type 0 where
  pub source : Text
  pub action : Text
  pub status : Text

abbrev kind : String → String → String → Option Kind
kind source action status =
    some (record { source = codes source; action = codes action; status = codes status })

-- `mapping`; the other events are not shown.
unfoldable pub mapping : Event → Option Kind
mapping checkout = kind "web" "checkout" "reserved"
mapping login = kind "web" "login" "logged_in"
mapping logout = kind "web" "logout" "logged_out"
mapping session_open = kind "physical" "login" "logged_in"
mapping session_close = kind "physical" "logout" "logged_out"
mapping password_timeout = kind "physical" "timeout" "password_timeout"
mapping e = none

-- `cursor`
pub record Cursor : Type 0 where
  pub version : ℕ
  pub created : Text
  pub id : Text

pub record Entry : Type 0 where
  pub id : Text
  pub kind : Kind
  pub email : Text
  pub at : ℕ
  pub machine : Option (Text × Text)

pub record Page : Type 0 where
  pub entries : List Entry
  pub cursor : Option Text

-- The query of a request, `url.Values`; a key that is missing reads as "".
abbrev pub Query : Type 0
Query = List (Text × List Text)

abbrev pub is_filter : Text × List Text → Bool
is_filter (k, values) =
    (k == codes "source" || k == codes "action" || k == codes "email" || k == codes "cursor")
    && length values == 1

abbrev pub head_value : Option (Text × List Text) → Text
head_value none = []
head_value (some (k, [])) = []
head_value (some (k, v ∷ vs)) = v

abbrev pub get : Text → Query → Text
get key q = head_value (first (λ p. p.0 == key) q)

abbrev pub is_source : Text → Bool
is_source s = s == [] || s == codes "all" || s == codes "web" || s == codes "physical"

abbrev pub is_action : Text → Bool
is_action a =
    a == []
    || a == codes "all"
    || a == codes "checkout"
    || a == codes "login"
    || a == codes "logout"
    || a == codes "timeout"

abbrev pub admits : Text → Text → Bool
admits filter value = filter == [] || filter == codes "all" || filter == value

-- event IN (…), of the events that the two filters admit
unfoldable pub is_shown : Text → Text → Option Kind → Bool
is_shown source action none = false
is_shown source action (some k) = admits source k.source && admits action k.action

abbrev pub all_events : List Event
all_events = checkout ∷ login ∷ logout ∷ session_open ∷ session_close ∷ password_timeout ∷ []

-- student_email IS NOT NULL, and LOWER(student_email)=? when an address is asked for
abbrev pub is_of : Text → Option Text → Bool
is_of email none = false
is_of email (some e) = email == [] || lower e == lower email

-- created_at<? OR (created_at=? AND id<?)
abbrev pub is_older : ℕ × Text → AuditRow → Bool
is_older (t, id) a = ltb a.created t || a.created == t && not (precedes id a.id)

abbrev pub is_behind : Option (ℕ × Text) → AuditRow → Bool
is_behind none a = true
is_behind (some c) a = is_older c a

-- ORDER BY created_at DESC,id DESC
unfoldable pub is_newer : AuditRow → AuditRow → Bool
is_newer a b = ltb b.created a.created || a.created == b.created && precedes b.id a.id

unfoldable pub place_newest : AuditRow → List AuditRow → List AuditRow
place_newest a [] = a ∷ []
place_newest a (b ∷ bs) =
    let rest = place_newest a bs in if is_newer a b then a ∷ b ∷ bs else b ∷ rest

unfoldable pub newest_first : List AuditRow → List AuditRow
unfolding place_newest
newest_first [] = []
newest_first (a ∷ rows) = place_newest a (newest_first rows)

abbrev pub joined : List Machine → Option Text → Option (Text × Text)
joined ms none = none
joined ms (some mid) = elim (first (has_id mid) ms) [ none ↦ none | some m ↦ some (m.id, m.name) ]

-- A row that is selected has a kind and an address.
abbrev pub entry_of : List Machine → AuditRow → Entry
entry_of ms a = record {
  id = a.id;
  kind = elim (mapping a.event) [
    | none ↦ record { source = []; action = []; status = [] }
    | some k ↦ k
  ];
  email = elim a.email [ none ↦ [] | some e ↦ e ];
  at = a.created;
  machine = joined ms a.machine_id;
}

-- The rows that the filters admit.
unfoldable pub is_admitted : Text → Text → Text → AuditRow → Bool
unfolding is_shown mapping
is_admitted source action email a = is_of email a.email && is_shown source action (mapping a.event)

-- The rows that the query returns, one more than a page has.
unfoldable pub rows_of : Text → Text → Text → Option (ℕ × Text) → Db → List AuditRow
unfolding is_admitted newest_first
rows_of source action email behind db =
    take 51 (
      newest_first (select (λ a. is_admitted source action email a && is_behind behind a) db.audit))

abbrev pub last_of : List Entry → Option Entry
last_of [] = none
last_of (e ∷ []) = some e
last_of (e ∷ d ∷ es) = last_of (d ∷ es)

-- The texts of a cursor, written and read.
pub record Codec : Type 0 where
  pub marshal : Cursor → Text
  pub unmarshal : Text → Option Cursor
  pub encode : Text → Text
  pub decode : Text → Option Text
  pub stamp : ℕ → Text
  pub parse_time : Text → Option ℕ

module _ (x : Codec) where
  abbrev pub bad_cursor {ℓ} : {A : Type ℓ} → Result A
  bad_cursor = err (fail 400 "Invalid cursor")

  abbrev pub cursor_time : Cursor → Option ℕ → Result (ℕ × Text)
  cursor_time c none = bad_cursor
  cursor_time c (some t) = if x.stamp t == c.created then ok (t, c.id) else bad_cursor

  abbrev pub cursor_of : Option Cursor → Result (ℕ × Text)
  cursor_of none = bad_cursor
  cursor_of (some c) =
      if not (c.version == 1) || not (credential_id c.id)
      then bad_cursor
      else cursor_time c (x.parse_time c.created)

  abbrev pub decoded : Text → Option Text → Result (ℕ × Text)
  decoded v none = bad_cursor
  decoded v (some b) =
      if ltb 512 (length v) || not (x.encode b == v) then bad_cursor else cursor_of (x.unmarshal b)

  unfoldable pub read_cursor : Text → Result (Option (ℕ × Text))
  read_cursor [] = ok none
  read_cursor (c ∷ v) = do p ← decoded (c ∷ v) (x.decode (c ∷ v)); ok (some p)

  unfoldable pub write_cursor : Entry → Text
  write_cursor e = x.encode (x.marshal (record { version = 1; created = x.stamp e.at; id = e.id }))

  abbrev pub next_cursor : Option Entry → Option Text
  next_cursor none = none
  next_cursor (some e) = some (write_cursor e)

  -- At most 50 entries, with a cursor when there are more.
  unfoldable pub page_of : List Entry → Page
  page_of es =
      if ltb 50 (length es)
      then record { entries = take 50 es; cursor = next_cursor (last_of (take 50 es)) }
      else record { entries = es; cursor = none }

  abbrev pub empty_page : Page
  empty_page = record { entries = []; cursor = none }

  -- `fault` is set where the query fails.
  abbrev pub queried : Bool → Text → Text → Text → Db → Option (ℕ × Text) → Result Page
  unfolding rows_of page_of
  queried fault source action email db behind =
      if fault
      then err io
      else ok (page_of (map (entry_of db.machines) (rows_of source action email behind db)))

  unfoldable pub activity : Bool → Query → Db → Result Page
  unfolding queried read_cursor is_shown mapping
  activity fault q db =
      let source = get (codes "source") q in
      let action = get (codes "action") q in
      let email = get (codes "email") q in
      if not (all is_filter q)
      then err (fail 400 "Invalid or repeated activity filter")
      else if not (is_source source)
      then err (fail 400 "Invalid source")
      else if not (is_action action)
      then err (fail 400 "Invalid action")
      else if not (any (λ e. is_shown source action (mapping e)) all_events)
      then ok empty_page
      else if ltb 254 (length email)
      then err (fail 400 "Email too long")
      else read_cursor (get (codes "cursor") q) >>= queried fault source action email db
