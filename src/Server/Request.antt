-- ===== src/Server/Request.antt =====
-- internal/server/server.go, `token`, `body` and `problem`: what a handler reads of a request, and
-- what it answers.
use lab_gate.Prelude.{
  ℕ, Text, codes, String, List, [], ◌∷◌, Option, none, some, Bool, true, false, ◌==◌, ==_iff,
  text_eq, ◌≡◌, if◌then◌else◌, has_prefix, drop_bytes, length, Error, fail, Result, ok, err,
}

-- A request, with the two cookies that the server sets, two of its headers besides the
-- authorization, and what the JSON library makes of its body.
pub record Request (B : Type 0) : Type 0 where
  pub method : Text
  pub path : Text
  pub authorization : Text
  pub session_cookie : Option Text
  pub oauth_cookie : Option Text
  pub origin : Text
  pub csrf_token : Text
  pub query_state : Text
  pub query_code : Text
  pub json : B

abbrev pub bearer : Text
bearer = codes "Bearer "

-- `token`: "" without a bearer token.
unfoldable pub token : Text → Text
token authorization =
    if has_prefix authorization bearer then drop_bytes (length bearer) authorization else []

-- `equal`
unfoldable pub equal : Text → Text → Bool
equal [] b = false
equal (c ∷ a) [] = false
equal (c ∷ a) (d ∷ b) = c ∷ a == d ∷ b

pub equal-eq : (a b : Text) → equal a b ≡ true → a ≡ b
unfolding equal
equal-eq [] b h = cc
equal-eq (c ∷ a) [] h = cc
equal-eq (c ∷ a) (d ∷ b) h = (==_iff _ _).0 h

-- What `Decode` makes of a body of at most 4096 bytes with no unknown field: an object, and whether
-- the body ends behind it.
pub data Json (A : Type 0) : Type 0 where
  undecodable : Json A
  object : A → Bool → Json A

unfoldable pub body : {A : Type 0} → Json A → Result A
body undecodable = err (fail 400 "Invalid or oversized JSON object")
body (object a ended) = if ended then ok a else err (fail 400 "Exactly one JSON object required")

-- A cookie that an answer sets, for some seconds; with none it is deleted.
pub record Cookie : Type 0 where
  pub name : Text
  pub value : Text
  pub age : Option ℕ

abbrev pub kept : Text → Text → ℕ → Cookie
kept name value age = record { name = name; value = value; age = some age }

abbrev pub deleted : Text → Cookie
deleted name = record { name = name; value = []; age = none }

-- What a handler of sessions and pairings answers.
pub data Answer : Type 0 where
  status : ℕ → Answer
  failure : ℕ → String → Answer
  redirect : String → Answer
  to_provider : Text → Text → Text → Answer
  signed_out pending confirmed : Answer
  started : Text → Text → Answer
  granted : Text → Answer

pub record Response : Type 0 where
  pub cookies : List Cookie
  pub answer : Answer

abbrev pub plain : Answer → Response
plain a = record { cookies = []; answer = a }

unfoldable pub problem : Error → Answer
problem (fail code message) = failure code message
problem e = failure 500 "Operation failed; retry or check server diagnostics"

-- What a handler meets: its readings of the clock and its random texts, one after the other, whether
-- a lookup fails, and whether a transaction does.
pub record Moment : Type 0 where
  pub clock : ℕ → ℕ
  pub random : ℕ → Text
  pub unread : Bool
  pub fault : Bool
