-- ===== src/Coordinator.antt =====
-- The refresh coordinator of crates/ret/src/jsonrpc.rs: one refresh runs at a time, and requests
-- with the same key join it. Every operation takes the mutex, and a panic under it poisons it.
pub mod Protocol
pub mod Safety
pub mod Replies
pub mod Accounting
use r_environment_tools.Base.{
  ℕ, ◌+◌, ◌≤◌, ◌≡◌, Bool, true, false, ◌&&◌, List, [], ◌∷◌, ◌++◌, Eq, leb, length, is_empty,
  if◌then◌else◌,
}

abbrev pub max_joined_refresh_requests : ℕ
max_joined_refresh_requests = 256

-- A value, or a panic of the thread.
pub data Outcome {ℓ} (A : Type ℓ) : Type ℓ where
  done : A → Outcome A
  panicked : Outcome A

pub record ActiveRefresh (Key RequestId : Type 0) : Type 0 where
  pub key : Key
  pub request_ids : List RequestId

pub data RefreshCoordinatorState (Key RequestId : Type 0) : Type 0 where
  idle : RefreshCoordinatorState Key RequestId
  running : ActiveRefresh Key RequestId → RefreshCoordinatorState Key RequestId
  completing : ActiveRefresh Key RequestId → RefreshCoordinatorState Key RequestId

pub data RefreshRegistration : Type 0 where
  start joined wait busy : RefreshRegistration

-- The mutex: the state that it guards, and whether a thread panicked while it held the lock.
pub record RefreshCoordinator (Key RequestId : Type 0) : Type 0 where
  pub state : RefreshCoordinatorState Key RequestId
  pub poisoned : Bool

module _ {Key RequestId : Type 0} where
  abbrev pub default_coordinator : RefreshCoordinator Key RequestId
  default_coordinator = record { state = idle; poisoned = false }

  -- `lock().expect(..)`, the critical section, and the release.
  abbrev release {ℓ} :
      {A : Type ℓ}
      → Outcome A × RefreshCoordinatorState Key RequestId
      → Outcome A × RefreshCoordinator Key RequestId
  release (done a, s) = (done a, record { state = s; poisoned = false })
  release (panicked, s) = (panicked, record { state = s; poisoned = true })

  abbrev locked {ℓ} :
      {A : Type ℓ}
      → (RefreshCoordinatorState Key RequestId → Outcome A × RefreshCoordinatorState Key RequestId)
      → RefreshCoordinator Key RequestId
      → Outcome A × RefreshCoordinator Key RequestId
  locked critical c = if c.poisoned then (panicked, c) else release (critical c.state)

  -- The arm for a matching key: join, unless 256 requests have.
  abbrev join_active :
      (ActiveRefresh Key RequestId → RefreshCoordinatorState Key RequestId)
      → RequestId
      → ActiveRefresh Key RequestId
      → Outcome RefreshRegistration × RefreshCoordinatorState Key RequestId
  join_active con i a =
      if leb max_joined_refresh_requests (length a.request_ids)
      then (done busy, con a)
      else (done joined, con (record a { request_ids = a.request_ids ++ i ∷ [] }))

module _ {Key RequestId : Type 0} ⦃e : Eq Key⦄ where
  register_state :
      RequestId
      → Key
      → RefreshCoordinatorState Key RequestId
      → Outcome RefreshRegistration × RefreshCoordinatorState Key RequestId
  register_state i k idle = (done start, running (record { key = k; request_ids = i ∷ [] }))
  register_state i k (running a) =
      if e.beq a.key k then join_active running i a else (done wait, running a)
  register_state i k (completing a) =
      if e.beq a.key k then join_active completing i a else (done wait, completing a)

  unfoldable pub register :
      RequestId
      → Key
      → RefreshCoordinator Key RequestId
      → Outcome RefreshRegistration × RefreshCoordinator Key RequestId
  unfolding register_state
  register i k = locked (register_state i k)

  begin_completion_state :
      Key
      → RefreshCoordinatorState Key RequestId
      → Outcome (Unit {0}) × RefreshCoordinatorState Key RequestId
  begin_completion_state k (running a) =
      if e.beq a.key k then (done tt, completing a) else (panicked, running a)
  begin_completion_state k other = (panicked, other)

  unfoldable pub begin_completion :
      Key → RefreshCoordinator Key RequestId → Outcome (Unit {0}) × RefreshCoordinator Key RequestId
  unfolding begin_completion_state
  begin_completion k = locked (begin_completion_state k)

  drain_state :
      Key
      → RefreshCoordinatorState Key RequestId
      → Outcome (List RequestId) × RefreshCoordinatorState Key RequestId
  drain_state k idle = (done [], idle)
  drain_state k (completing a) =
      if e.beq a.key k
      then (done a.request_ids, completing (record a { request_ids = [] }))
      else (panicked, completing a)
  drain_state k (running a) = (panicked, running a)

  unfoldable pub drain_request_ids :
      Key
      → RefreshCoordinator Key RequestId
      → Outcome (List RequestId) × RefreshCoordinator Key RequestId
  unfolding drain_state
  drain_request_ids k = locked (drain_state k)

  complete_state :
      Key
      → RefreshCoordinatorState Key RequestId
      → Outcome Bool × RefreshCoordinatorState Key RequestId
  complete_state k (completing a) =
      if e.beq a.key k && is_empty a.request_ids
      then (done true, idle)
      else if e.beq a.key k
      then (done false, completing a)
      else (panicked, completing a)
  complete_state k other = (panicked, other)

  unfoldable pub complete_if_empty :
      Key → RefreshCoordinator Key RequestId → Outcome Bool × RefreshCoordinator Key RequestId
  unfolding complete_state
  complete_if_empty k = locked (complete_state k)

  owns_state : Key → RefreshCoordinatorState Key RequestId → Bool
  owns_state k idle = false
  owns_state k (running a) = e.beq a.key k
  owns_state k (completing a) = e.beq a.key k

  unfoldable pub force_idle :
      Key → RefreshCoordinator Key RequestId → Outcome (Unit {0}) × RefreshCoordinator Key RequestId
  unfolding owns_state
  force_idle k = locked (λ s. (done tt, if owns_state k s then idle else s))

-- The condition on which `wait_until_idle` returns.
abbrev pub is_idle : {Key RequestId : Type 0} → RefreshCoordinatorState Key RequestId → Bool
is_idle idle = true
is_idle _ = false
