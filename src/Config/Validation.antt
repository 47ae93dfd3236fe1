-- ===== src/Config/Validation.antt =====
-- internal/config/config.go, `ValidBearer`, `Origin` and `Validate`. What net/url and net/netip make of a
-- text is a parameter, as is what the file system and the SSH library say of the key.
pub mod Admins
use lab_gate.Prelude.{
  ℕ, leb, ltb, Text, codes, List, [], ◌∷◌, Option, none, some, Bool, true, false, not, ◌&&◌, ◌||◌,
  ◌==◌, text_eq, nat_eq, if◌then◌else◌, all, any, length, lower, is_alnum, is_digit, is_lower,
  has_prefix, split, print, value, Error, other, Result, ok, err, String,
}
use lab_gate.Config.{Config, allowed}

-- One of the bytes stands in the text: `strings.ContainsAny`.
abbrev pub contains_any : Text → Text → Bool
contains_any s bytes = any (λ c. any (λ b. b == c) bytes) s

abbrev pub is_bearer_byte : ℕ → Bool
is_bearer_byte c = is_alnum c || any (λ b. b == c) (codes "._~+/-")

-- [A-Za-z0-9._~+/-]+={0,} behind its first byte
unfoldable pub bearer_rest : Text → Bool
bearer_rest [] = true
bearer_rest (c ∷ s) = is_bearer_byte c && bearer_rest s || all (λ b. b == b'=') (c ∷ s)

abbrev pub bearer : Text → Bool
unfolding bearer_rest
bearer [] = false
bearer (c ∷ s) = is_bearer_byte c && bearer_rest s

unfoldable pub valid_bearer : Text → Bool
unfolding bearer
valid_bearer v = leb 20 (length v) && leb (length v) 256 && bearer v

-- What `url.Parse` returns.
pub record Url : Type 0 where
  pub scheme : Text
  pub host : Text
  pub has_user : Bool
  pub path : Text
  pub query : Text
  pub fragment : Text
  pub port : Text
  pub hostname : Text

-- A number from 1 to 65535 as it is printed, which is all that the scan and the comparison let pass.
abbrev pub is_port : Text → Bool
is_port p = all is_digit p && leb 1 (value p) && leb (value p) 65535 && print (value p) == p

abbrev pub is_label_end : ℕ → Bool
is_label_end c = is_lower c || is_digit c

-- [a-z0-9-]*[a-z0-9], behind the first byte of a label
unfoldable pub label_rest : Text → Bool
label_rest [] = true
label_rest (c ∷ []) = is_label_end c
label_rest (c ∷ d ∷ s) = (is_label_end c || c == b'-') && label_rest (d ∷ s)

abbrev pub is_label : Text → Bool
unfolding label_rest
is_label [] = false
is_label (c ∷ s) = leb (length (c ∷ s)) 63 && is_label_end c && label_rest s

-- An address has its version and its canonical text.
abbrev pub is_hostname : Text → Option (Bool × Text) → Bool
unfolding is_label
is_hostname h (some (is_v4, text)) = is_v4 && text == h
is_hostname h none =
    not (ltb 253 (length h) || all (λ c. is_digit c || c == b'.') h) && all is_label (split b'.' h)

abbrev pub is_plain : Text → Url → Bool
is_plain v u =
    (has_prefix v (codes "http://") || has_prefix v (codes "https://"))
    && (u.scheme == codes "http" || u.scheme == codes "https")
    && not (u.host == [])
    && not u.has_user
    && u.path == []
    && u.query == []
    && u.fragment == []
    && not (contains_any v (codes " ?#\t\r\n"))
    && not (contains_any u.host (codes "["))

-- What is asked of the key's path and file.
pub record Key : Type 0 where
  pub absolute : Bool
  pub private_file : Bool
  pub readable : Bool
  pub usable : Bool

abbrev pub refuse_if : Bool → String → Result (Unit {0}) → Result (Unit {0})
refuse_if b message next = if b then err (other message) else next

module _ (parse : Text → Option Url) (address : Text → Option (Bool × Text)) where
  abbrev pub origin_of : Text → Option Url → Bool
  unfolding is_hostname
  origin_of v none = false
  origin_of v (some u) =
      is_plain v u
      && (u.port == [] || is_port u.port)
      && is_hostname u.hostname (address u.hostname)

  -- `Origin`
  unfoldable pub is_origin : Text → Bool
  unfolding origin_of
  is_origin v = origin_of v (parse v)

  -- `Validate`; whether the login grace, a float, is from 1 to 1440 minutes is an argument.
  unfoldable pub validate : Bool → Key → Config → Result (Unit {0})
  unfolding is_origin valid_bearer
  validate grace_fits key c =
      refuse_if (not (is_origin c.origin))
        "origin must be a canonical http(s) origin without a path"
        (refuse_if (c.google_id == [] || c.google_secret == [])
          "Google client ID and secret are required"
          (refuse_if
            (c.domain == []
              || not (c.domain == lower c.domain)
              || contains_any c.domain (codes "@ /\t\n"))
            "invalid allowed email domain"
            (refuse_if (length c.admins == 0) "at least one administrator is required" (
              refuse_if (not (all (allowed c) c.admins))
                "administrators must belong to the allowed domain"
                (refuse_if
                  (not (valid_bearer c.registration_secret) || not (valid_bearer c.cron_secret))
                  "registration and cron secrets must be 20–256 character bearer tokens"
                  (refuse_if
                    (ltb c.password_length 5 || ltb 128 c.password_length || not grace_fits)
                    "password length must be 5–128 and login grace must be 1–1440 minutes"
                    (refuse_if (not key.absolute) "provisioner key path must be absolute" (
                      refuse_if (not key.private_file)
                        "provisioner key must be a nonempty regular file with mode 0600"
                        (refuse_if (not key.readable) "provisioner key is not readable" (
                          refuse_if (not key.usable)
                            "provisioner key must be a usable unencrypted SSH private key"
                            (ok tt)))))))))))
