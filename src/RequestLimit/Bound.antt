-- ===== src/RequestLimit/Bound.antt =====
-- The counter counts the permits, and never passes the limit.
use r_environment_tools.Base.{ℕ, ◌+◌, ◌≤◌, ◌≡◌, refl, ap, ◌∙◌, Bool, List, [], ◌∷◌, ◌++◌, arith}
use r_environment_tools.RequestLimit.{
  Claim, loading, trying, permitted, refused, dropped, acquire_step, drop_permit, Server, Step,
  spawns, acquires, drops, Reach, here, next, after,
}

abbrev weight : Claim → ℕ
weight permitted = 1
weight loading = 0
weight (trying _) = 0
weight refused = 0
weight dropped = 0

abbrev pub permits : List Claim → ℕ
permits [] = 0
permits (c ∷ cs) = weight c + permits cs

permits-middle :
    (xs ys : List Claim) (c : Claim) → permits (xs ++ c ∷ ys) ≡ weight c + permits (xs ++ ys)
permits-middle [] ys c = refl
permits-middle (x ∷ xs) ys c = omega (arith, permits-middle xs ys c)

pub record IsCounted (s : Server) : Type 0 where
  pub exact : s.active ≡ permits s.claims
  pub bounded : s.active ≤ 32

acquire-IsCounted :
    (n : ℕ) (b : Bool) (c : Claim) (xs ys : List Claim)
    → n ≡ weight c + permits (xs ++ ys)
    → n ≤ 32
    → IsCounted (after xs ys (acquire_step b n c))
unfolding acquire_step
acquire-IsCounted n b loading xs ys e h = ground (arith, permits-middle xs ys (trying n))
acquire-IsCounted n b (trying seen) xs ys e h = ground (
  arith,
  permits-middle xs ys permitted,
  permits-middle xs ys refused,
  permits-middle xs ys (trying n),
)
acquire-IsCounted n b permitted xs ys e h = ground (arith, permits-middle xs ys permitted)
acquire-IsCounted n b refused xs ys e h = ground (arith, permits-middle xs ys refused)
acquire-IsCounted n b dropped xs ys e h = ground (arith, permits-middle xs ys dropped)

drop-IsCounted :
    (n : ℕ) (c : Claim) (xs ys : List Claim)
    → n ≡ weight c + permits (xs ++ ys)
    → n ≤ 32
    → IsCounted (after xs ys (drop_permit n c))
unfolding drop_permit
drop-IsCounted n permitted xs ys e h = ground (arith, permits-middle xs ys dropped)
drop-IsCounted n loading xs ys e h = ground (arith, permits-middle xs ys loading)
drop-IsCounted n (trying seen) xs ys e h = ground (arith, permits-middle xs ys (trying seen))
drop-IsCounted n refused xs ys e h = ground (arith, permits-middle xs ys refused)
drop-IsCounted n dropped xs ys e h = ground (arith, permits-middle xs ys dropped)

Step-IsCounted : {s t : Server} → IsCounted s → Step s t → IsCounted t
Step-IsCounted v spawns = record { exact = omega arith; bounded = v.bounded }
Step-IsCounted {s} v (acquires b c xs ys h) =
    acquire-IsCounted s.active b c xs ys (v.exact ∙ ap permits h ∙ permits-middle xs ys c) v.bounded
Step-IsCounted {s} v (drops c xs ys h) =
    drop-IsCounted s.active c xs ys (v.exact ∙ ap permits h ∙ permits-middle xs ys c) v.bounded

-- However the threads interleave, and whichever exchanges fail, the counter equals the number of
-- permits that are held, and is at most 32.
pub Reach-IsCounted : {s : Server} → Reach s → IsCounted s
Reach-IsCounted here = record { exact = refl; bounded = omega arith }
Reach-IsCounted (next r st) = Step-IsCounted (Reach-IsCounted r) st
