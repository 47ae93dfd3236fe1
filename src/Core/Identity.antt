-- ===== src/Core/Identity.antt =====
-- The patterns of internal/core/core.go for generations, names, addresses and host-key pins.
use lab_gate.Prelude.{ℕ, Text, Bool, ◌&&◌, ◌||◌, ◌==◌, text_eq, nat_eq, all, length, leb, is_alnum}

abbrev pub is_id_byte : ℕ → Bool
is_id_byte c = is_alnum c || c == b'_' || c == b'-'

-- ^[A-Za-z0-9_-]{20,64}$
unfoldable pub credential_id : Text → Bool
credential_id id = leb 20 (length id) && leb (length id) 64 && all is_id_byte id

-- ^[A-Za-z0-9._ -]{1,64}$
unfoldable pub name_pattern : Text → Bool
name_pattern n =
    leb 1 (length n)
    && leb (length n) 64
    && all (λ c. is_alnum c || c == b'.' || c == b'_' || c == b' ' || c == b'-') n
