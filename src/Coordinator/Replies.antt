-- ===== src/Coordinator/Replies.antt =====
-- `finish_replies` of crates/ret/src/jsonrpc.rs as the loop that it is, with what other threads
-- register between its two critical sections. It ends once a round meets no newcomer.
use r_environment_tools.Base.{
  ℕ, zero, suc, ◌+◌, ◌≤◌, ◌<◌, ◌≡◌, ◌∙◌, Bool, true, false, List, [], ◌∷◌, ◌++◌, map, Option, none,
  some, Eq, length, arith, append_assoc, map-append, beq_self, length-append, All, append-nil,
}
use r_environment_tools.Coordinator.{
  Outcome, done, panicked, joined, RefreshCoordinator, default_coordinator, completing, register,
  drain_request_ids, complete_if_empty,
}
use r_environment_tools.Coordinator.Protocol.{Reply}

abbrev answer : {RequestId : Type 0} → Reply → List RequestId → List (RequestId × Reply)
answer r ids = map (λ i. (i, r)) ids

abbrev head_batch {ℓ} : {A : Type ℓ} → List (List A) → List A
head_batch [] = []
head_batch (b ∷ bs) = b

abbrev tail_batches {ℓ} : {A : Type ℓ} → List (List A) → List (List A)
tail_batches [] = []
tail_batches (b ∷ bs) = bs

abbrev pub concat {ℓ} : {A : Type ℓ} → List (List A) → List A
concat [] = []
concat (b ∷ bs) = b ++ concat bs

-- A batch of newcomers that fits: some, and at most 256.
abbrev pub IsBatch {ℓ} : {A : Type ℓ} → List A → Type 0
IsBatch b = (1 ≤ length b) × (length b ≤ 256)

module _ {Key RequestId : Type 0} ⦃e : Eq Key⦄ where
  -- Other threads register with the same key.
  unfoldable pub register_all :
      Key → List RequestId → RefreshCoordinator Key RequestId → RefreshCoordinator Key RequestId
  register_all k [] c = c
  register_all k (i ∷ is) c = register_all k is (register i k c).1

  -- After `complete_if_empty`: return, or go on with `next`.
  abbrev checked :
      (List (RequestId × Reply)
        → RefreshCoordinator Key RequestId
        → Option (Outcome (List (RequestId × Reply)) × RefreshCoordinator Key RequestId))
      → List (RequestId × Reply)
      → Outcome Bool × RefreshCoordinator Key RequestId
      → Option (Outcome (List (RequestId × Reply)) × RefreshCoordinator Key RequestId)
  checked next sent (done true, c) = some (done sent, c)
  checked next sent (done false, c) = next sent c
  checked next sent (panicked, c) = some (panicked, c)

  -- After `drain_request_ids`: send the replies and look for newcomers.
  abbrev drained :
      (List (RequestId × Reply)
        → RefreshCoordinator Key RequestId
        → Option (Outcome (List (RequestId × Reply)) × RefreshCoordinator Key RequestId))
      → List RequestId
      → Key
      → Reply
      → List (RequestId × Reply)
      → Outcome (List RequestId) × RefreshCoordinator Key RequestId
      → Option (Outcome (List (RequestId × Reply)) × RefreshCoordinator Key RequestId)
  drained next newcomers k r sent (done ids, c) =
      checked next (sent ++ answer r ids) (complete_if_empty k (register_all k newcomers c))
  drained next newcomers k r sent (panicked, c) = some (panicked, c)

  -- The rounds of the loop: `batches` holds who registers in each; `none` means that the fuel ran
  -- out. The result has the replies sent, in order, and the coordinator.
  unfoldable pub finish_replies :
      ℕ
      → List (List RequestId)
      → Key
      → Reply
      → List (RequestId × Reply)
      → RefreshCoordinator Key RequestId
      → Option (Outcome (List (RequestId × Reply)) × RefreshCoordinator Key RequestId)
  unfolding register_all
  finish_replies zero batches k r sent c = none
  finish_replies (suc fuel) batches k r sent c =
      drained (finish_replies fuel (tail_batches batches) k r) (head_batch batches) k r sent
        (drain_request_ids k c)

  abbrev pub completing_at : Key → List RequestId → RefreshCoordinator Key RequestId
  completing_at k ids = record {
    state = completing (record { key = k; request_ids = ids });
    poisoned = false;
  }

  register-completing :
      (k : Key) (i : RequestId) (ids : List RequestId)
      → length ids < 256
      → register i k (completing_at k ids) ≡ (done joined, completing_at k (ids ++ i ∷ []))
  unfolding register
  register-completing k i ids h = rw (beq_self k) (ground arith)

  register_all-completing :
      (k : Key) (is ids : List RequestId)
      → length ids + length is ≤ 256
      → register_all k is (completing_at k ids) ≡ completing_at k (ids ++ is)
  unfolding register_all
  register_all-completing k [] ids h = rw (append-nil ids)
  register_all-completing k (i ∷ is) ids h = rw (register-completing k i ids (omega arith)) (
      register_all-completing k is (ids ++ i ∷ []) (omega (arith, length-append ids (i ∷ [])))
      ∙ rw (append_assoc ids (i ∷ []) is))

  drain-completing :
      (k : Key) (ids : List RequestId)
      → drain_request_ids k (completing_at k ids) ≡ (done ids, completing_at k [])
  unfolding drain_request_ids
  drain-completing k ids = rw (beq_self k)

  complete-empty :
      (k : Key)
      → complete_if_empty {RequestId = RequestId} k (completing_at k [])
        ≡ (done true, default_coordinator)
  unfolding complete_if_empty
  complete-empty k = rw (beq_self k)

  complete-joined :
      (k : Key) (b : List RequestId)
      → 1 ≤ length b
      → complete_if_empty k (completing_at k b) ≡ (done false, completing_at k b)
  unfolding complete_if_empty
  complete-joined k [] h = absurd (omega arith)
  complete-joined k (i ∷ is) h = rw (beq_self k)

  round_last :
      (fuel : ℕ) (batches : List (List RequestId)) (k : Key) (r : Reply)
      (sent : List (RequestId × Reply)) (ids : List RequestId)
      (c c' c'' : RefreshCoordinator Key RequestId)
      → drain_request_ids k c ≡ (done ids, c')
      → complete_if_empty k (register_all k (head_batch batches) c') ≡ (done true, c'')
      → finish_replies (suc fuel) batches k r sent c ≡ some (done (sent ++ answer r ids), c'')
  unfolding finish_replies
  round_last fuel batches k r sent ids c c' c'' d e = rw d (rw e)

  round_again :
      (fuel : ℕ) (batches : List (List RequestId)) (k : Key) (r : Reply)
      (sent : List (RequestId × Reply)) (ids : List RequestId)
      (c c' c'' : RefreshCoordinator Key RequestId)
      → drain_request_ids k c ≡ (done ids, c')
      → complete_if_empty k (register_all k (head_batch batches) c') ≡ (done false, c'')
      → finish_replies (suc fuel) batches k r sent c
        ≡ finish_replies fuel (tail_batches batches) k r (sent ++ answer r ids) c''
  unfolding finish_replies
  round_again fuel batches k r sent ids c c' c'' d e = rw d (rw e)

  -- With one round for each batch of newcomers and one more, the loop ends without a panic, the
  -- coordinator is idle, and every request, those that joined during the loop too, was sent the
  -- same reply, once, in the order in which they registered.
  pub finish_replies_total :
      (fuel : ℕ) (batches : List (List RequestId)) (k : Key) (r : Reply)
      (sent : List (RequestId × Reply)) (ids : List RequestId)
      → length batches < fuel
      → All IsBatch batches
      → finish_replies fuel batches k r sent (completing_at k ids)
        ≡ some (done (sent ++ answer r (ids ++ concat batches)), default_coordinator)
  unfolding register_all
  finish_replies_total zero batches k r sent ids f h = absurd (omega arith)
  finish_replies_total (suc fuel) [] k r sent ids f h =
      round_last fuel [] k r sent ids _ _ _ (drain-completing k ids) (complete-empty k)
      ∙ rw (append-nil ids)
  finish_replies_total (suc fuel) (b ∷ bs) k r sent ids f ((p, q), h) =
      round_again fuel (b ∷ bs) k r sent ids _ _ _ (drain-completing k ids)
        (rw (register_all-completing k b [] (omega arith)) (complete-joined k b p))
      ∙ finish_replies_total fuel bs k r (sent ++ answer r ids) b (omega arith) h
      ∙ simp (append_assoc, map-append, map-append)
