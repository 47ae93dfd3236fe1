-- ===== src/Core/Hold.antt =====
-- internal/core/core.go: safety holds, which name the generation that a machine is held for.
use lab_gate.Prelude.{
  Text, codes, Option, none, some, Bool, true, false, ◌==◌, text_eq, if◌then◌else◌,
}

-- The hold that names no generation. It has a `!`, which no credential id has.
unfoldable pub conflict_hold : Text
conflict_hold = codes "!conflicting-physical-generations!"

-- Holds `id` too.
unfoldable pub merge : Option Text → Text → Option Text
merge hold id = elim hold [
  | none ↦ some id
  | some h ↦ if h == id then some id else some conflict_hold
]

-- Clears a hold on `id`.
unfoldable pub reconcile : Option Text → Text → Option Text
reconcile hold id = elim hold [
  | none ↦ none
  | some h ↦ if h == id then none else some conflict_hold
]

-- Two pins, NULL or not, are the same: `same`.
abbrev pub same : Option Text → Option Text → Bool
same none none = true
same none (some b) = false
same (some a) none = false
same (some a) (some b) = a == b
