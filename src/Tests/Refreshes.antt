-- ===== src/Tests/Refreshes.antt =====
-- A refresh from its request to its reply, and the request limit.
use r_environment_tools.Base.{ℕ, ◌≡◌, refl, true, false, [], ◌∷◌, none, some, count, nat_eq, arith}
use r_environment_tools.Coordinator.{
  done, default_coordinator, register, begin_completion, drain_request_ids, complete_if_empty,
  running, joined, wait,
}
use r_environment_tools.Coordinator.Protocol.{
  System, RefreshResult, refreshed, initial, enter, advance, executing, finishing, replying, submit,
  registers, advances, Reach, here, next,
}
use r_environment_tools.Coordinator.Safety.{IsSafe, Reach-IsSafe}
use r_environment_tools.Coordinator.Accounting.{
  accounted, Reach-IsBalanced, answered_all, answered_ids,
}
use r_environment_tools.Coordinator.Replies.{finish_replies, completing_at, finish_replies_total}
use r_environment_tools.RequestLimit
use r_environment_tools.RequestLimit.Bound

abbrev result : RefreshResult
result = record { duration = 5; refresh_id = 1 }

abbrev arrived : System ℕ ℕ
arrived = record initial { arriving = 1 ∷ []; submitted = 1 ∷ [] }

abbrev started : System ℕ ℕ
started = enter 1 7 (record arrived { arriving = [] })

abbrev begun : System ℕ ℕ
begun = advance (executing 7) (some result) (record started { owners = [] })

abbrev drained : System ℕ ℕ
drained = advance (finishing 7 (refreshed result)) none (record begun { owners = [] })

abbrev replied : System ℕ ℕ
replied = advance (replying 7 (1 ∷ []) (refreshed result)) none (record drained { owners = [] })

abbrev completed : System ℕ ℕ
completed = advance (replying 7 [] (refreshed result)) none (record replied { owners = [] })

Reach-started : Reach started
Reach-started = next (next here (submit 1)) (registers 1 7 [] [] refl)

Reach-completed : Reach completed
unfolding register begin_completion drain_request_ids complete_if_empty
Reach-completed =
    next
      (next
        (next (next Reach-started (advances (executing 7) (some result) [] [] refl))
          (advances (finishing 7 (refreshed result)) none [] [] refl))
        (advances (replying 7 (1 ∷ []) (refreshed result)) none [] [] refl))
      (advances (replying 7 [] (refreshed result)) none [] [] refl)

-- A request with the key of the refresh joins it, and one with another key waits.
joins : register {Key = ℕ} {RequestId = ℕ} 2 7 (register 1 7 default_coordinator).1 ≡ (
  done joined,
  record { state = running (record { key = 7; request_ids = 1 ∷ 2 ∷ [] }); poisoned = false },
)
unfolding register
joins = refl

waits : (register {Key = ℕ} {RequestId = ℕ} 2 8 (register 1 7 default_coordinator).1).0 ≡ done wait
unfolding register
waits = refl

answered_once : answered_ids completed.answered ≡ 1 ∷ []
unfolding register begin_completion drain_request_ids complete_if_empty
answered_once = refl

Reach-IsSafe_example : IsSafe completed
Reach-IsSafe_example = Reach-IsSafe Reach-completed

Reach-IsBalanced_example : accounted 1 completed ≡ count 1 completed.submitted
Reach-IsBalanced_example = Reach-IsBalanced Reach-completed 1

answered_all_example : count 1 (answered_ids completed.answered) ≡ count 1 completed.submitted
unfolding register begin_completion drain_request_ids complete_if_empty
answered_all_example = answered_all Reach-completed refl refl refl 1

finish_replies_total_example :
    finish_replies {Key = ℕ} {RequestId = ℕ} 3
      ((2 ∷ 3 ∷ []) ∷ (4 ∷ []) ∷ [])
      7
      (refreshed result)
      []
      (completing_at 7 (1 ∷ []))
    ≡ some (
      done (
          (1, refreshed result)
          ∷ (2, refreshed result)
          ∷ (3, refreshed result)
          ∷ (4, refreshed result)
          ∷ []),
      default_coordinator,
    )
finish_replies_total_example =
    finish_replies_total 3 ((2 ∷ 3 ∷ []) ∷ (4 ∷ []) ∷ []) 7 (refreshed result) [] (1 ∷ [])
      (omega arith) ((omega arith, omega arith), ((omega arith, omega arith), tt))

-- One thread loads the counter and takes a permit.
Reach-permit :
    RequestLimit.Reach
      (RequestLimit.after [] [] (RequestLimit.acquire_step true 0 (RequestLimit.trying 0)))
unfolding RequestLimit.acquire_step
Reach-permit =
    RequestLimit.next
      (RequestLimit.next (RequestLimit.next RequestLimit.here RequestLimit.spawns)
        (RequestLimit.acquires true RequestLimit.loading [] [] refl))
      (RequestLimit.acquires true (RequestLimit.trying 0) [] [] refl)

Reach-IsCounted_example :
    RequestLimit.Bound.IsCounted
      (RequestLimit.after [] [] (RequestLimit.acquire_step true 0 (RequestLimit.trying 0)))
Reach-IsCounted_example = RequestLimit.Bound.Reach-IsCounted Reach-permit
