-- ===== src/Server/Binding/Trust.antt =====
-- internal/server/auth.go, `bind` and `unbind`: the cookie of a sign-in, made and taken back.
use lab_gate.Prelude.{
  ℕ, ◌^◌, ◌≤◌, ◌<◌, leb, Text, List, [], ◌∷◌, ◌++◌, Option, none, some, some-injective, Bool, true,
  false, not, ◌||◌, ◌==◌, ==_iff, ==_self, text_eq, nat_eq, if◌then◌else◌, split, join, split-join,
  join-split, join-append, All, print, print_are_digits, print-ne-nil, value-print, value, atoi,
  length, Lacks, all, is_digit, ◌≡◌, refl, sym, ap, ◌∙◌, arith,
}
use lab_gate.Server.Request.{equal, equal-eq}
use lab_gate.Server.Binding.{parse_int, is_later, bound, bind, has_mac, unbind_fields, unbind}

pub digits-Lacks_dot : (s : Text) → all is_digit s ≡ true → Lacks 46 s
unfolding nat_eq
digits-Lacks_dot [] h = refl
digits-Lacks_dot (c ∷ s) h = ground (arith, digits-Lacks_dot s)

equal_self : (s : Text) → 1 ≤ length s → equal s s ≡ true
unfolding equal
equal_self [] h = absurd (omega (arith, h))
equal_self (c ∷ s) h = ==_self (c ∷ s)

not_empty : (s : Text) → 1 ≤ length s → (s == []) ≡ false
not_empty [] h = absurd (omega (arith, h))
not_empty (c ∷ s) h = ground arith

parse_int-print : (n : ℕ) → n < 2 ^ 63 → parse_int (print n) ≡ some n
unfolding parse_int
parse_int-print n small = go (print n) (print-ne-nil n) (print_are_digits n) (value-print n)
  where
    go : (s : Text) → 1 ≤ length s → all is_digit s ≡ true → value s ≡ n → atoi s ≡ some n
    go [] le h e = absurd (omega (arith, le))
    go (c ∷ s) le h e = ground (arith, h, e, small)

unguarded :
    {A : Type 0} (b : Bool) (r : Option A) (x : A)
    → (if b then none else r) ≡ some x
    → (b ≡ false) × (r ≡ some x)
unguarded true r x h = cc
unguarded false r x h = (refl, h)

module _ (mac encode : Text → Text) (decode : Text → Option Text) where
  -- A cookie of a state, a nonce and a verifier, with an expiry that is to come and a tag that is
  -- the MAC of the four.
  pub record IsOurs (now : ℕ) (cookie state nonce verifier : Text) : Type 0 where
    until : Text
    tag : Text
    whole : cookie ≡ join b'.' (state ∷ nonce ∷ verifier ∷ until ∷ tag ∷ [])
    signed : decode tag ≡ some (mac (join b'.' (state ∷ nonce ∷ verifier ∷ until ∷ [])))
    fresh : is_later now (parse_int until) ≡ true

  signed_by :
      (tag : Option Text) (v : Text) → has_mac mac encode decode tag v ≡ true → tag ≡ some (mac v)
  signed_by none v h = cc
  signed_by (some t) v h = ap some ((==_iff _ _).0 h)

  fields-IsOurs :
      (now : ℕ) (cookie state nonce verifier : Text) (fields : List Text)
      → join b'.' fields ≡ cookie
      → unbind_fields mac encode decode now state fields ≡ some (nonce, verifier)
      → IsOurs now cookie state nonce verifier
  unfolding unbind_fields
  fields-IsOurs now cookie state nonce verifier [] w h = cc
  fields-IsOurs now cookie state nonce verifier (a ∷ []) w h = cc
  fields-IsOurs now cookie state nonce verifier (a ∷ b ∷ []) w h = cc
  fields-IsOurs now cookie state nonce verifier (a ∷ b ∷ c ∷ []) w h = cc
  fields-IsOurs now cookie state nonce verifier (a ∷ b ∷ c ∷ d ∷ []) w h = cc
  fields-IsOurs now cookie state nonce verifier (a ∷ b ∷ c ∷ d ∷ e ∷ f ∷ more) w h = cc
  fields-IsOurs now cookie state nonce verifier (s ∷ n ∷ v ∷ until ∷ tag ∷ []) w h =
      let (named, h') =
        unguarded (n == [] || v == [] || not (equal s state)) _ (nonce, verifier) h in
      let (late, h'') = unguarded (not (is_later now (parse_int until))) _ (nonce, verifier) h' in
      let (forged, same) =
        unguarded
          (not (has_mac mac encode decode (decode tag) (join b'.' (s ∷ n ∷ v ∷ until ∷ [])))) _
          (nonce, verifier) h'' in
      let states : s ≡ state = equal-eq s state (ground (arith, named)) in
      let parts : ◌≡◌ {A = Text × Text} (n, v) (nonce, verifier) = some-injective _ _ same in
      let ns : n ≡ nonce = ap (λ (x : Text × Text). x.0) parts in
      let vs : v ≡ verifier = ap (λ (x : Text × Text). x.1) parts in
      let four : s ∷ n ∷ v ∷ until ∷ [] ≡ state ∷ nonce ∷ verifier ∷ until ∷ [] =
        cc (states, ns, vs) in
      record {
        until = until;
        tag = tag;
        whole = sym w ∙ ap (λ fs. join b'.' (fs ++ tag ∷ [])) four;
        signed =
            signed_by (decode tag) _ (ground (arith, forged))
            ∙ ap (λ fs. some (mac (join b'.' fs))) four;
        fresh = ground (arith, late);
      }

  -- A cookie that is taken for a state is that state with the nonce and the verifier that are
  -- returned and an expiry that is to come, under a tag that decodes to the MAC of these four.
  pub unbind-IsOurs :
      (now : ℕ) (cookie state nonce verifier : Text)
      → unbind mac encode decode now cookie state ≡ some (nonce, verifier)
      → IsOurs now cookie state nonce verifier
  unfolding unbind
  unbind-IsOurs now cookie state nonce verifier h =
      fields-IsOurs now cookie state nonce verifier (split b'.' cookie) (join-split b'.' cookie) h

  taken :
      (state nonce verifier : Text) (now expires : ℕ)
      → ((v : Text) → decode (encode v) ≡ some v)
      → All (λ s. 1 ≤ length s) (state ∷ nonce ∷ verifier ∷ [])
      → now < expires
      → expires < 2 ^ 63
      → unbind_fields mac encode decode now state (
          state
          ∷ nonce
          ∷ verifier
          ∷ print expires
          ∷ encode (mac (bound mac encode decode state nonce verifier expires))
          ∷ [])
        ≡ some (nonce, verifier)
  unfolding unbind_fields
  taken state nonce verifier now expires inverse (a, (b, (c, _))) later small =
      let fresh : leb expires now ≡ false = ground arith in
      rw
        (
          equal_self state a,
          not_empty nonce b,
          not_empty verifier c,
          parse_int-print expires small,
          fresh,
          inverse (mac (bound mac encode decode state nonce verifier expires)),
          ==_self (mac (bound mac encode decode state nonce verifier expires)),
        )
        refl

  -- A cookie is taken back, before it expires and for its own state, with the nonce and the verifier
  -- it was made of, when none of the three is empty or holds a dot, base64 writes no dot and is
  -- decoded to what was encoded.
  pub unbind-bind :
      (state nonce verifier : Text) (now expires : ℕ)
      → ((v : Text) → Lacks b'.' (encode v))
      → ((v : Text) → decode (encode v) ≡ some v)
      → All (Lacks b'.') (state ∷ nonce ∷ verifier ∷ [])
      → All (λ s. 1 ≤ length s) (state ∷ nonce ∷ verifier ∷ [])
      → now < expires
      → expires < 2 ^ 63
      → unbind mac encode decode now (bind mac encode decode state nonce verifier expires) state
        ≡ some (nonce, verifier)
  unfolding unbind
  unbind-bind state nonce verifier now expires plain inverse (sl, (nl, (vl, _))) lengths later
        small =
      let v = bound mac encode decode state nonce verifier expires in
      let tag : Text = encode (mac v) in
      let whole : bind mac encode decode state nonce verifier expires
          ≡ join b'.' (state ∷ nonce ∷ verifier ∷ print expires ∷ tag ∷ []) =
        unfold bind in
        join-append b'.' state (nonce ∷ verifier ∷ print expires ∷ [])
          (encode (mac (bound mac encode decode state nonce verifier expires))) in
      let fields : split b'.' (bind mac encode decode state nonce verifier expires)
          ≡ state ∷ nonce ∷ verifier ∷ print expires ∷ tag ∷ [] =
        ap (split b'.') whole
        ∙ split-join b'.' state (nonce ∷ verifier ∷ print expires ∷ tag ∷ []) (
          sl,
          (
            nl,
            (
              vl,
              (digits-Lacks_dot (print expires) (print_are_digits expires), (plain (mac v), tt)),
            ),
          ),
        ) in
      rw fields (taken state nonce verifier now expires inverse lengths later small)
