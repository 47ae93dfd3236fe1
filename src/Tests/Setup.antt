-- ===== src/Tests/Setup.antt =====
-- The theorem on a configuration that is accepted.
use lab_gate.Prelude.{
  codes, Text, [], Option, none, some, Bool, true, false, ok, ◌≡◌, refl, lower, has_suffix,
  has_prefix, split, text_eq, nat_eq,
}
use lab_gate.Config.{allowed}
use lab_gate.Config.Validation.{
  Url, Key, is_origin, valid_bearer, bearer_rest, label_rest, validate,
}
use lab_gate.Config.Validation.Admins.{IsUsable, validate-IsUsable}
use lab_gate.Tests.Fixture.{config}

abbrev parse : Text → Option Url
parse v = some (record {
  scheme = codes "https";
  host = codes "labgate.ubu.ac.th";
  has_user = false;
  path = [];
  query = [];
  fragment = [];
  port = [];
  hostname = codes "labgate.ubu.ac.th";
})

abbrev address : Text → Option (Bool × Text)
address h = none

abbrev key : Key
key = record { absolute = true; private_file = true; readable = true; usable = true }

accepted : validate parse address true key config ≡ ok tt
unfolding validate is_origin valid_bearer bearer_rest label_rest allowed lower has_suffix has_prefix
    split text_eq nat_eq
accepted = refl

validate-IsUsable_example : IsUsable config
validate-IsUsable_example = validate-IsUsable parse address true key config accepted
