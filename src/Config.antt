-- ===== src/Config.antt =====
-- internal/config/config.go: who may use the server. TTLMinutes, a float in the source, is its value
-- in milliseconds here, which is all that the server reads of it.
pub mod Validation
use lab_gate.Prelude.{
  ℕ, Text, List, ◌∷◌, Bool, false, ◌&&◌, ◌==◌, text_eq, nat_eq, if◌then◌else◌, any, lower,
  has_suffix, count_byte,
}

pub record Config : Type 0 where
  pub origin : Text
  pub google_id : Text
  pub google_secret : Text
  pub domain : Text
  pub admins : List Text
  pub registration_secret : Text
  pub cron_secret : Text
  pub password_length : ℕ
  pub ttl : ℕ

unfoldable pub allowed : Config → Text → Bool
allowed c email = has_suffix (lower email) (b'@' ∷ c.domain) && count_byte b'@' email == 1

-- `strings.EqualFold`, on ASCII.
abbrev pub equal_fold : Text → Text → Bool
equal_fold a b = lower a == lower b

unfoldable pub admin : Config → Text → Bool
unfolding allowed
admin c email = if allowed c email then any (λ a. equal_fold a email) c.admins else false
