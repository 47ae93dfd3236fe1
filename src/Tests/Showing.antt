-- ===== src/Tests/Showing.antt =====
-- The theorems on the listing of the machines and on a page of the log.
use lab_gate.Prelude.{
  ℕ, ◌≤◌, codes, Text, [], ◌∷◌, ◌++◌, take, drop, length, all, is_digit, value, print, value-print,
  print_are_digits, Option, none, some, true, false, lower, ◌≡◌, refl, ap, ok, arith, text_eq,
  nat_eq,
}
use lab_gate.Core.Identity.{credential_id}
use lab_gate.Core.Listing.Privacy.{list_machines, shown_alike}
use lab_gate.Core.Activity.{
  Cursor, Entry, Page, Query, Codec, mapping, is_shown, is_admitted, newest_first, rows_of, page_of,
  read_cursor, write_cursor, activity,
}
use lab_gate.Core.Activity.Pages.{is_ascii, IsPage, activity-IsPage, read_cursor-write_cursor}
use lab_gate.Store.{login, AuditRow, Db}
use lab_gate.Tests.Fixture.{desk, in_use, tables}

-- The tables with another address, another pin and no generation.
abbrev altered : Db
altered = record {
  machines = record desk { ip = codes "100.64.0.9"; pin = some (codes "SHA256:9") } ∷ in_use ∷ [];
  credentials = [];
  audit = [];
}

abbrev clock : ℕ → ℕ
clock i = 2000000

shown_alike_example :
    list_machines clock (λ i. some tables) ≡ list_machines clock (λ i. some altered)
shown_alike_example =
    shown_alike clock (λ i. some tables) (λ i. some altered) tables altered refl refl refl

-- Cursors as a version, the length of the time, the time and the id.
abbrev marshal : Cursor → Text
marshal c = c.version ∷ length c.created ∷ (c.created ++ c.id)

abbrev unmarshal : Text → Option Cursor
unmarshal (v ∷ n ∷ s) = some (record { version = v; created = take n s; id = drop n s })
unmarshal s = none

-- Times in decimal.
abbrev parse_time : Text → Option ℕ
parse_time s = some (value s)

abbrev codec : Codec
codec = record {
  marshal = marshal;
  unmarshal = unmarshal;
  encode = λ s. s;
  decode = some;
  stamp = print;
  parse_time = parse_time;
}

take-append : (s t : Text) → take (length s) (s ++ t) ≡ s
take-append [] t = refl
take-append (c ∷ s) t = ap (λ r. c ∷ r) (take-append s t)

drop-append : (s t : Text) → drop (length s) (s ++ t) ≡ t
drop-append [] t = refl
drop-append (c ∷ s) t = drop-append s t

unmarshal-marshal : (c : Cursor) → unmarshal (marshal c) ≡ some c
unmarshal-marshal c = rw (take-append c.created c.id, drop-append c.created c.id) refl

digits-ascii : (s : Text) → all is_digit s ≡ true → all is_ascii s ≡ true
digits-ascii [] h = refl
digits-ascii (c ∷ s) h = ground (arith, h, digits-ascii s)

abbrev signed_in : AuditRow
signed_in = record {
  id = codes "entry-of-the-log-0001";
  machine_id = some (codes "m1");
  email = some (codes "b@ubu.ac.th");
  event = login;
  detail = [];
  created = 1700000;
}

abbrev logged : Db
logged = record tables { audit = signed_in ∷ [] }

abbrev query : Query
query = (codes "action", codes "login" ∷ []) ∷ (codes "email", codes "B@ubu.ac.th" ∷ []) ∷ []

abbrev entry : Entry
entry = record {
  id = codes "entry-of-the-log-0001";
  kind = record { source = codes "web"; action = codes "login"; status = codes "logged_in" };
  email = codes "b@ubu.ac.th";
  at = 1700000;
  machine = some (codes "m1", codes "Desk 1");
}

abbrev page : Page
page = record { entries = entry ∷ []; cursor = none }

one_page : activity codec false query logged ≡ ok page
unfolding activity rows_of page_of read_cursor is_admitted is_shown mapping newest_first lower
    text_eq nat_eq
one_page = refl

activity-IsPage_example : IsPage query page
activity-IsPage_example = activity-IsPage codec false query logged page one_page

entry_id : credential_id entry.id ≡ true
unfolding credential_id nat_eq
entry_id = refl

some_text : (1 ≤ length (write_cursor codec entry)) × (length (write_cursor codec entry) ≤ 512)
unfolding write_cursor print
some_text = (omega arith, omega arith)

read_cursor-write_cursor_example :
    read_cursor codec (write_cursor codec entry)
    ≡ ok (some (1700000, codes "entry-of-the-log-0001"))
read_cursor-write_cursor_example =
    read_cursor-write_cursor codec entry (λ c small created id. unmarshal-marshal c) (λ s. refl)
      (λ t early. ap some (value-print t)) (λ t early. digits-ascii (print t) (print_are_digits t))
      (omega arith) entry_id some_text.0 some_text.1
