-- ===== src/RequestLimit.antt =====
-- `RequestLimit` and `RequestPermit` of crates/ret/src/jsonrpc.rs: at most 32 requests run at once.
-- The counter is an atomic word; each step of a thread is one atomic operation.
pub mod Bound
use r_environment_tools.Base.{
  ℕ, ◌+◌, ◌-◌, ◌%◌, ◌^◌, ◌≡◌, Bool, true, false, List, [], ◌∷◌, ◌++◌, not, ◌&&◌, ltb, ◌==◌,
  if◌then◌else◌,
}

abbrev pub max_active_requests : ℕ
max_active_requests = 32

-- `usize` on a 64-bit target.
abbrev pub usize_mod : ℕ
usize_mod = 2 ^ 64

-- A thread in `try_acquire`, by its local `active`; or past it.
pub data Claim : Type 0 where
  loading : Claim
  trying : ℕ → Claim
  permitted : Claim
  refused : Claim
  dropped : Claim

-- One atomic operation of `try_acquire`: the load; or a round of the loop, where the weak exchange
-- may fail `spuriously`. The counter and the thread after it.
unfoldable pub acquire_step : Bool → ℕ → Claim → ℕ × Claim
acquire_step spuriously active loading = (active, trying active)
acquire_step spuriously active (trying seen) =
    if ltb seen max_active_requests
    then (if active == seen && not spuriously
        then ((active + 1) % usize_mod, permitted)
        else (active, trying active))
    else (active, refused)
acquire_step spuriously active c = (active, c)

-- `fetch_sub` in `RequestPermit::drop`; it wraps.
unfoldable pub drop_permit : ℕ → Claim → ℕ × Claim
drop_permit active permitted = ((active + usize_mod - 1) % usize_mod, dropped)
drop_permit active c = (active, c)

pub record Server : Type 0 where
  pub active : ℕ
  pub claims : List Claim

abbrev pub after : List Claim → List Claim → ℕ × Claim → Server
after xs ys (n, c) = record { active = n; claims = xs ++ c ∷ ys }

pub data Step (s : Server) : Server → Type 0 where
  spawns : Step s (record s { claims = loading ∷ s.claims })
  acquires :
      (spuriously : Bool) (c : Claim) (xs ys : List Claim)
      → s.claims ≡ xs ++ c ∷ ys
      → Step s (after xs ys (acquire_step spuriously s.active c))
  drops :
      (c : Claim) (xs ys : List Claim)
      → s.claims ≡ xs ++ c ∷ ys
      → Step s (after xs ys (drop_permit s.active c))

pub data Reach : Server → Type 0 where
  here : Reach (record { active = 0; claims = [] })
  next : {s t : Server} → Reach s → Step s t → Reach t
