-- ===== src/Server/Pairing/Refinement.antt =====
-- internal/server/auth.go, `Pair`: what becomes of the pairings and the sessions, row for row.
use lab_gate.Prelude.{
  ℕ, ltb, Text, List, [], ◌∷◌, ◌++◌, some, true, ◌&&◌, ◌==◌, ◌≡◌, text_eq, nat_eq, update,
}
use lab_gate.Config.{Config, admin}
use lab_gate.Server.Tables.{cli, Login, Approval, Pairing, is_unapproved}
use lab_gate.Server.Request.{Request}
use lab_gate.Server.Pairing.Steps.{Steps}
use lab_gate.Server.Pairing.Eviction.{IsKept}

-- The pairing `p` alone is taken out of `ps`.
pub record IsWithout (p : Pairing) (ps ps' : List Pairing) : Type 0 where
  pre : List Pairing
  post : List Pairing
  before : ps ≡ pre ++ p ∷ post
  after : ps' ≡ pre ++ post

-- What a request makes of the sessions `ls` and the pairings `ps`: nothing; or a pairing that is
-- unapproved stands behind those that are kept; or an administrator's approval is written to the
-- unexpired and unapproved pairings of a code; or one pairing, which is unexpired and approved by an
-- administrator, is taken out, and a session of that administrator's, from a command line, is added.
pub data Moves (c : Config) (ls : List Login) (ps : List Pairing) (ls' : List Login)
    (ps' : List Pairing) : Type 0 where
  leaves : ls' ≡ ls → ps' ≡ ps → Moves c ls ps ls' ps'
  begins :
      (now : ℕ) (kept : List Pairing) (p : Pairing)
      → is_unapproved p ≡ true
      → IsKept now ps kept
      → ls' ≡ ls
      → ps' ≡ kept ++ p ∷ []
      → Moves c ls ps ls' ps'
  accepts :
      (code : Text) (now : ℕ) (a : Approval)
      → admin c a.email ≡ true
      → ls' ≡ ls
      → ps'
        ≡ update
            (λ p. p.code == code && ltb now p.expires && is_unapproved p)
            (λ p. record p { approval = some a })
            ps
      → Moves c ls ps ls' ps'
  exchanges :
      (now : ℕ) (p : Pairing) (a : Approval) (l : Login)
      → ltb now p.expires ≡ true
      → p.approval ≡ some a
      → admin c a.email ≡ true
      → l.user ≡ record { email = a.email; name = a.name; kind = cli }
      → ls' ≡ ls ++ l ∷ []
      → IsWithout p ps ps'
      → Moves c ls ps ls' ps'
