-- ===== src/Server/Binding.antt =====
-- internal/server/auth.go, `bind` and `unbind`: the cookie that ties a sign-in to the browser that
-- began it. The MAC under the process's key and base64 are parameters.
pub mod Trust
use lab_gate.Prelude.{
  ℕ, ◌^◌, ltb, leb, Text, codes, List, [], ◌∷◌, ◌++◌, Option, none, some, Bool, true, false, not,
  ◌&&◌, ◌||◌, ◌==◌, text_eq, nat_eq, if◌then◌else◌, split, join, print, atoi, length,
}
use lab_gate.Server.Request.{equal}

-- `strconv.ParseInt` to 64 bits. A negative number stands as none: `unbind` refuses both.
unfoldable pub parse_int : Text → Option ℕ
parse_int s = atoi s

abbrev pub is_later : ℕ → Option ℕ → Bool
is_later now none = false
is_later now (some expires) = not (leb expires now)

module _ (mac encode : Text → Text) (decode : Text → Option Text) where
  abbrev pub bound : Text → Text → Text → ℕ → Text
  bound state nonce verifier expires = join b'.' (state ∷ nonce ∷ verifier ∷ print expires ∷ [])

  unfoldable pub bind : Text → Text → Text → ℕ → Text
  bind state nonce verifier expires =
      let v = bound state nonce verifier expires in v ++ b'.' ∷ encode (mac v)

  abbrev pub has_mac : Option Text → Text → Bool
  has_mac none v = false
  has_mac (some tag) v = tag == mac v

  -- The nonce and the verifier of a cookie of five fields.
  unfoldable pub unbind_fields : ℕ → Text → List Text → Option (Text × Text)
  unfolding parse_int
  unbind_fields now state (s ∷ nonce ∷ verifier ∷ expires ∷ tag ∷ []) =
      if nonce == [] || verifier == [] || not (equal s state)
      then none
      else if not (is_later now (parse_int expires))
      then none
      else if not (has_mac (decode tag) (join b'.' (s ∷ nonce ∷ verifier ∷ expires ∷ [])))
      then none
      else some (nonce, verifier)
  unbind_fields now state fields = none

  unfoldable pub unbind : ℕ → Text → Text → Option (Text × Text)
  unfolding unbind_fields
  unbind now cookie state = unbind_fields now state (split b'.' cookie)
