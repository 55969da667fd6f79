-- ===== src/Coordinator/Protocol.antt =====
-- The threads of `handle_refresh` around one coordinator, in crates/ret/src/jsonrpc.rs: each step
-- of a thread is one critical section or one reply, and threads interleave in any order.
use r_environment_tools.Base.{
  ℕ, ◌≡◌, Bool, true, false, List, [], ◌∷◌, ◌++◌, Option, none, some, Eq,
}
use r_environment_tools.Coordinator.{
  Outcome, done, panicked, RefreshCoordinator, default_coordinator, RefreshRegistration, start,
  joined, wait, busy, register, begin_completion, drain_request_ids, complete_if_empty, is_idle,
}

pub record RefreshResult : Type 0 where
  pub duration : ℕ
  pub refresh_id : ℕ

-- What a client is sent: the result, error -4 after a refresh that panicked, or error -32000.
pub data Reply : Type 0 where
  refreshed : RefreshResult → Reply
  failed : Reply
  too_many_joined : Reply

-- A thread that has been told `Start`, by what it does next.
pub data Owner (Key RequestId : Type 0) : Type 0 where
  executing : Key → Owner Key RequestId
  finishing : Key → Reply → Owner Key RequestId
  replying : Key → List RequestId → Reply → Owner Key RequestId

pub record System (Key RequestId : Type 0) : Type 0 where
  pub coordinator : RefreshCoordinator Key RequestId
  pub arriving : List RequestId
  pub waiting : List RequestId
  pub owners : List (Owner Key RequestId)
  pub answered : List (RequestId × Reply)
  pub submitted : List RequestId
  pub crashed : Bool

module _ {Key RequestId : Type 0} where
  abbrev pub initial : System Key RequestId
  initial = record {
    coordinator = default_coordinator;
    arriving = [];
    waiting = [];
    owners = [];
    answered = [];
    submitted = [];
    crashed = false;
  }

  -- The arms of the match on the registration, for a request that has left `arriving`.
  abbrev pub after_register :
      RequestId
      → Key
      → System Key RequestId
      → Outcome RefreshRegistration × RefreshCoordinator Key RequestId
      → System Key RequestId
  after_register i k s (done start, c) = record s {
    coordinator = c;
    owners = executing k ∷ s.owners;
  }
  after_register i k s (done joined, c) = record s { coordinator = c }
  after_register i k s (done busy, c) = record s {
    coordinator = c;
    answered = (i, too_many_joined) ∷ s.answered;
  }
  after_register i k s (done wait, c) = record s { coordinator = c; waiting = i ∷ s.waiting }
  after_register i k s (panicked, c) = record s { coordinator = c; crashed = true }

  abbrev pub after_begin :
      Key
      → Reply
      → System Key RequestId
      → Outcome (Unit {0}) × RefreshCoordinator Key RequestId
      → System Key RequestId
  after_begin k r s (done tt, c) = record s { coordinator = c; owners = finishing k r ∷ s.owners }
  after_begin k r s (panicked, c) = record s { coordinator = c; crashed = true }

  abbrev pub after_drain :
      Key
      → Reply
      → System Key RequestId
      → Outcome (List RequestId) × RefreshCoordinator Key RequestId
      → System Key RequestId
  after_drain k r s (done ids, c) = record s {
    coordinator = c;
    owners = replying k ids r ∷ s.owners;
  }
  after_drain k r s (panicked, c) = record s { coordinator = c; crashed = true }

  abbrev pub after_complete :
      Key
      → Reply
      → System Key RequestId
      → Outcome Bool × RefreshCoordinator Key RequestId
      → System Key RequestId
  after_complete k r s (done true, c) = record s { coordinator = c }
  after_complete k r s (done false, c) = record s {
    coordinator = c;
    owners = finishing k r ∷ s.owners;
  }
  after_complete k r s (panicked, c) = record s { coordinator = c; crashed = true }

module _ {Key RequestId : Type 0} ⦃e : Eq Key⦄ where
  -- One round of the loop in `handle_refresh`, with the key of the configuration that it read.
  abbrev pub enter : RequestId → Key → System Key RequestId → System Key RequestId
  enter i k s = after_register i k s (register i k s.coordinator)

  -- The next action of the thread that runs the refresh: `execute_refresh` under `catch_unwind`
  -- and `begin_completion`; or a round of `finish_replies`. The thread is no longer in `s.owners`.
  abbrev pub advance :
      Owner Key RequestId → Option RefreshResult → System Key RequestId → System Key RequestId
  advance (executing k) (some r) s =
      after_begin k (refreshed r) s (begin_completion k s.coordinator)
  advance (executing k) none s = after_begin k failed s (begin_completion k s.coordinator)
  advance (finishing k r) _ s = after_drain k r s (drain_request_ids k s.coordinator)
  advance (replying k [] r) _ s = after_complete k r s (complete_if_empty k s.coordinator)
  advance (replying k (i ∷ ids) r) _ s = record s {
    owners = replying k ids r ∷ s.owners;
    answered = (i, r) ∷ s.answered;
  }

  pub data Step (s : System Key RequestId) : System Key RequestId → Type 0 where
    -- A request is read and its thread spawned.
    submit :
        (i : RequestId)
        → Step s (record s { arriving = i ∷ s.arriving; submitted = i ∷ s.submitted })
    -- A thread reads the configuration and registers.
    registers :
        (i : RequestId) (k : Key) (xs ys : List RequestId)
        → s.arriving ≡ xs ++ i ∷ ys
        → Step s (enter i k (record s { arriving = xs ++ ys }))
    -- `wait_until_idle` returns, and the thread goes round its loop.
    wakes :
        (i : RequestId) (xs ys : List RequestId)
        → s.waiting ≡ xs ++ i ∷ ys
        → is_idle s.coordinator.state ≡ true
        → Step s (record s { waiting = xs ++ ys; arriving = i ∷ s.arriving })
    -- A thread that runs a refresh goes on.
    advances :
        (o : Owner Key RequestId) (r : Option RefreshResult) (os ps : List (Owner Key RequestId))
        → s.owners ≡ os ++ o ∷ ps
        → Step s (advance o r (record s { owners = os ++ ps }))

  pub data Reach : System Key RequestId → Type 0 where
    here : Reach initial
    next : {s t : System Key RequestId} → Reach s → Step s t → Reach t
