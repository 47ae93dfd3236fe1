-- ===== src/Config/Validation/Admins.antt =====
-- internal/config/config.go: a configuration that `Validate` accepts.
use lab_gate.Prelude.{
  ◌≤◌, Text, codes, List, [], ◌∷◌, Option, Bool, true, false, not, ◌||◌, ◌==◌, ==_self, text_eq,
  nat_eq, if◌then◌else◌, all, any, length, lower, All, All-mono, other, ok, refuses_not, ◌≡◌, refl,
  arith,
}
use lab_gate.Config.{Config, allowed, admin, equal_fold}
use lab_gate.Config.Validation.{Url, Key, contains_any, valid_bearer, is_origin, validate}

-- Someone administers, whoever is listed does, and neither secret can be guessed from a few bytes.
pub record IsUsable (c : Config) : Type 0 where
  administered : 1 ≤ length c.admins
  entitled : All (λ a. admin c a ≡ true) c.admins
  registration : 20 ≤ length c.registration_secret
  timer : 20 ≤ length c.cron_secret

listed : (xs : List Text) → All (λ a. any (λ x. equal_fold x a) xs ≡ true) xs
listed [] = tt
listed (x ∷ xs) = (
  ground (arith, ==_self (lower x)),
  All-mono (λ a. any (λ y. equal_fold y a) xs ≡ true)
      (λ a. any (λ y. equal_fold y a) (x ∷ xs) ≡ true) (λ a h. ground (arith, h)) xs (listed xs),
)

both :
    (c : Config) (xs ys : List Text)
    → all (allowed c) ys ≡ true
    → All (λ a. any (λ x. equal_fold x a) xs ≡ true) ys
    → All (λ a. (if allowed c a then any (λ x. equal_fold x a) xs else false) ≡ true) ys
both c xs [] h l = tt
both c xs (y ∷ ys) h (k, l) = (ground (arith, h, k), both c xs ys (ground (arith, h)) l)

long_enough : (v : Text) → valid_bearer v ≡ true → 20 ≤ length v
unfolding valid_bearer
long_enough v h = ground (arith, h)

not-false : (b : Bool) → not b ≡ false → b ≡ true
not-false true h = refl
not-false false h = cc

both_good : (a b : Bool) → (not a || not b) ≡ false → (a ≡ true) × (b ≡ true)
both_good true true h = (refl, refl)
both_good true false h = cc
both_good false b h = cc

some_listed : (xs : List Text) → (length xs == 0) ≡ false → 1 ≤ length xs
some_listed xs h = ground (arith, h)

-- With a configuration that is accepted, there is an administrator, everyone listed as one is one
-- to the server, and each of the two secrets has at least 20 bytes.
pub validate-IsUsable :
    (parse : Text → Option Url) (address : Text → Option (Bool × Text)) (grace_fits : Bool)
    (key : Key) (c : Config)
    → validate parse address grace_fits key c ≡ ok tt
    → IsUsable c
unfolding validate admin
validate-IsUsable parse address grace_fits key c h0 =
    let (o, h1) =
      refuses_not (not (is_origin parse address c.origin))
        (other "origin must be a canonical http(s) origin without a path") _ tt h0 in
    let (g, h2) =
      refuses_not (c.google_id == [] || c.google_secret == [])
        (other "Google client ID and secret are required") _ tt h1 in
    let (d, h3) =
      refuses_not
        (c.domain == []
          || not (c.domain == lower c.domain)
          || contains_any c.domain (codes "@ /\t\n"))
        (other "invalid allowed email domain") _ tt h2 in
    let (some_admin, h4) =
      refuses_not (length c.admins == 0) (other "at least one administrator is required") _ tt h3 in
    let (members, h5) =
      refuses_not (not (all (allowed c) c.admins))
        (other "administrators must belong to the allowed domain") _ tt h4 in
    let (secrets, h6) =
      refuses_not (not (valid_bearer c.registration_secret) || not (valid_bearer c.cron_secret)) _ _
        tt h5 in
    let (first_secret, second_secret) = both_good _ _ secrets in
    record {
      administered = some_listed c.admins some_admin;
      entitled = both c c.admins c.admins (not-false _ members) (listed c.admins);
      registration = long_enough c.registration_secret first_secret;
      timer = long_enough c.cron_secret second_secret;
    }
