-- ===== src/Machine/Outbox.antt =====
-- internal/machine/files.go, `Queue`: an event is written to the outbox under the next sequence
-- number, behind all that is there.
pub mod Keeping
pub mod Order
use lab_gate.Prelude.{
  ℕ, suc, ◌+◌, ltb, leb, Text, codes, List, [], ◌∷◌, ◌++◌, Option, none, some, Bool, true, false,
  not, ◌&&◌, ◌||◌, ◌==◌, text_eq, nat_eq, if◌then◌else◌, all, length, is_digit, has_prefix,
  drop_bytes, precedes, padded, print, value, join, Error, other, Result, ok, err,
}
use lab_gate.Core.Identity.{credential_id}
use lab_gate.Machine.Runtime.{
  File, absent, unreadable, holds, take_lock, list_outbox, write, sequence_file, event_file, Entry,
  Disk, World, Step, ◌>>=◌, done, failed, look, lift, change, must,
}

-- const maxSequence
abbrev pub max_sequence : ℕ
max_sequence = 999999999999999999

-- The endpoint of an event, with the version that goes with it.
unfoldable pub is_event : Text → ℕ → Bool
is_event endpoint ver =
    endpoint == codes "session-open" && ver == 2
    || (endpoint == codes "session-close" || endpoint == codes "credential-expired") && ver == 3

abbrev event_prefix : Text
event_prefix = codes "event-v2-"

-- event-v2-%018d
unfoldable pub event_name : ℕ → Text
event_name seq = event_prefix ++ padded 18 seq []

-- ^event-v2-([0-9]{18})$
unfoldable pub event_number : Text → Option ℕ
event_number name =
    let rest = drop_bytes 9 name in
    if has_prefix name event_prefix && length rest == 18 && all is_digit rest
    then some (value rest)
    else none

abbrev pub is_hidden : Text → Bool
is_hidden name = has_prefix name (codes ".")

-- The number of an event's file; a hidden file has none, and any other is an error.
unfoldable pub numbered : Text → Result (Option ℕ)
unfolding event_number
numbered name = if is_hidden name then ok none else elim (event_number name) [
  | none ↦ err (other "legacy/unknown outbox entry requires drained operator migration")
  | some n ↦ if n == 0 then err (other "invalid outbox sequence") else ok (some n)
]

abbrev pub raise : Option ℕ → ℕ → ℕ
raise none seq = seq
raise (some n) seq = if ltb seq n then n else seq

-- The highest number in use.
unfoldable pub highest : ℕ → List Entry → Result ℕ
unfolding numbered
highest seq [] = ok seq
highest seq (e ∷ es) = elim (numbered e.name) [ ok n ↦ highest (raise n seq) es | err x ↦ err x ]

unfoldable pub read_sequence : File Text → Result ℕ
read_sequence absent = ok 0
read_sequence unreadable = err (other "unreadable sequence")
read_sequence (holds v) =
    if all is_digit v && print (value v) == v && leb (value v) max_sequence
    then ok (value v)
    else err (other "corrupt sequence")

-- A file is listed in the order of the names; one that is written again stays where it is.
unfoldable pub put_entry : Entry → List Entry → List Entry
put_entry e [] = e ∷ []
put_entry e (x ∷ xs) =
    if x.name == e.name
    then e ∷ xs
    else if precedes x.name e.name
    then x ∷ put_entry e xs
    else e ∷ x ∷ xs

unfoldable pub event_content : Text → Text → ℕ → Text
event_content endpoint id ver = join 9 (endpoint ∷ id ∷ print ver ∷ [])

abbrev pub event_entry : ℕ → Text → Text → ℕ → Entry
event_entry seq endpoint id ver = record {
  name = event_name seq;
  content = holds (event_content endpoint id ver);
}

abbrev set_sequence : ℕ → Disk → Disk
set_sequence seq d = record d { sequence = holds (print seq) }

abbrev add_entry : Entry → Disk → Disk
add_entry e d = record d { outbox = put_entry e d.outbox }

-- The two writes of an event under the number after `top`.
unfoldable pub publish : Text → Text → ℕ → ℕ → Step (Unit {0})
publish endpoint id ver top = if leb max_sequence top then failed "sequence exhausted" else do
  _ ← change (write sequence_file) (set_sequence (top + 1))
  change (write (event_file (event_name (top + 1))))
      (add_entry (event_entry (top + 1) endpoint id ver))

unfoldable pub enqueue : Text → Text → ℕ → Step (Unit {0})
unfolding publish highest read_sequence
enqueue endpoint id ver =
    if not (credential_id id && is_event endpoint ver) then failed "invalid event" else do
      _ ← must take_lock "lock"
      f ← look (λ d. d.sequence)
      seq ← lift (read_sequence f)
      _ ← must list_outbox "outbox"
      es ← look (λ d. d.outbox)
      top ← lift (highest seq es)
      publish endpoint id ver top
