-- ===== src/Server/Pairing/Bound.antt =====
-- internal/server/auth.go, `Pair`: how many unapproved pairings there are.
use lab_gate.Prelude.{
  ℕ, suc, ◌≤◌, leb, Text, List, [], ◌∷◌, ◌++◌, some, Bool, true, false, not, ◌==◌, ==_self, text_eq,
  nat_eq, update, any, select, drop, count, count-select, count-drop, count-none, All, All-mono,
  ◌≡◌, refl, arith,
}
use lab_gate.Config.{Config}
use lab_gate.Server.Tables.{Login, Approval, Pairing, Site, is_unapproved, remove}
use lab_gate.Server.Request.{Request, Moment}
use lab_gate.Server.Pairing.{place, latest_first, evict, is_code, Bodies, handle_pair}
use lab_gate.Server.Pairing.Steps.{Steps, stays, starts, approves, redeems, handle_pair-Steps}

place-count :
    (g : Pairing → Bool) (p : Pairing) (ps : List Pairing) → count g (place p ps) ≡ count g (p ∷ ps)
unfolding place
place-count g p [] = refl
place-count g p (q ∷ ps) = ground (arith, place-count g p ps)

pub latest_first-count :
    (g : Pairing → Bool) (ps : List Pairing) → count g (latest_first ps) ≡ count g ps
unfolding latest_first
latest_first-count g [] = refl
latest_first-count g (p ∷ ps) =
    ground (arith, place-count g p (latest_first ps), latest_first-count g ps)

pub named : (ps : List Pairing) → All (λ p. any (λ q. q.id == p.id) ps ≡ true) ps
named [] = tt
named (p ∷ ps) = (
  ground (arith, ==_self p.id),
  All-mono (λ q. any (λ x. x.id == q.id) ps ≡ true) (λ q. any (λ x. x.id == q.id) (p ∷ ps) ≡ true)
      (λ q h. ground (arith, h)) ps (named ps),
)

-- Eviction leaves at most `n` unapproved pairings.
evict-count : (n : ℕ) (ps : List Pairing) → count is_unapproved (evict n ps) ≤ n
unfolding evict
evict-count n ps =
    let us = select is_unapproved ps in
    let old : List Pairing = drop n (latest_first us) in
    let kept : Pairing → Bool = λ p. not (any (λ q. q.id == p.id) old) in
    let gone : count kept old ≡ 0 = count-none kept old (
      All-mono (λ p. any (λ q. q.id == p.id) old ≡ true) (λ p. kept p ≡ false)
        (λ p h. ground (arith, h)) old (named old)) in
    omega (
      arith,
      count-select is_unapproved kept ps,
      latest_first-count kept us,
      count-drop kept n (latest_first us),
      gone,
    )

update-count :
    (p : Pairing → Bool) (a : Approval) (ps : List Pairing)
    → count is_unapproved (update p (λ x. record x { approval = some a }) ps)
      ≤ count is_unapproved ps
update-count p a [] = omega arith
update-count p a (x ∷ ps) = ground (arith, update-count p a ps)

select-count : (p g : Pairing → Bool) (ps : List Pairing) → count g (select p ps) ≤ count g ps
select-count p g [] = omega arith
select-count p g (x ∷ ps) = ground (arith, select-count p g ps)

append-count :
    (g : Pairing → Bool) (ps : List Pairing) (p : Pairing)
    → count g (ps ++ p ∷ []) ≤ suc (count g ps)
append-count g [] p = ground arith
append-count g (x ∷ ps) p = ground (arith, append-count g ps p)

move_bound :
    (c : Config) (ls ls' : List Login) (ps ps' : List Pairing)
    → Steps c ls ps ls' ps'
    → count is_unapproved ps ≤ 1024
    → count is_unapproved ps' ≤ 1024
move_bound c ls ls' ps ps' (stays el ep) h = rw ep h
move_bound c ls ls' ps ps' (starts now p u el ep) h =
    let fewer : List Pairing = remove (λ q. leb q.expires now) ps in
    rw ep (omega (arith, append-count is_unapproved (evict 1023 fewer) p, evict-count 1023 fewer))
move_bound c ls ls' ps ps' (approves code now a good el ep) h =
    rw ep (omega (arith, h, update-count (is_code code now) a ps))
move_bound c ls ls' ps ps' (redeems id now p a l f e good u el ep) h =
    rw ep (omega (arith, h, select-count (λ x. not (x.id == p.id)) is_unapproved ps))

-- With at most 1024 unapproved pairings before a request to `Pair`, there are at most 1024 after it,
-- whatever it is and however it ends.
pub unapproved_are_bounded :
    (hash : Text → Text) (c : Config) (w : Moment) (r : Request Bodies) (s : Site)
    → count is_unapproved s.pairings ≤ 1024
    → count is_unapproved (handle_pair hash c w r s).1.pairings ≤ 1024
unapproved_are_bounded hash c w r s h = move_bound c _ _ _ _ (handle_pair-Steps hash c w r s) h
