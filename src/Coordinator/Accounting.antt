-- ===== src/Coordinator/Accounting.antt =====
-- No request is lost and none is answered twice, however the threads interleave.
use r_environment_tools.Base.{
  ℕ, ◌+◌, ◌≡◌, true, false, Bool, refl, sym, ap, ◌∙◌, subst, List, [], ◌∷◌, ◌++◌, Option, none,
  some, Eq, count, count-append, count-middle, arith, if◌then◌else◌,
}
use r_environment_tools.Coordinator.{
  Outcome, done, panicked, RefreshRegistration, start, joined, wait, busy, RefreshCoordinator,
  RefreshCoordinatorState, idle, running, completing, register, begin_completion, drain_request_ids,
  complete_if_empty,
}
use r_environment_tools.Coordinator.Protocol.{
  Reply, refreshed, failed, after_register, after_begin, after_drain, after_complete, Owner,
  executing, finishing, replying, System, enter, advance, Step, submit, registers, wakes, advances,
  Reach, here, next, RefreshResult,
}
use r_environment_tools.Coordinator.Safety.{Matches, IsSafe, sys, sys-eq, sole, Reach-IsSafe}

module _ {Key RequestId : Type 0} where
  -- The requests that the active refresh will answer.
  abbrev pub joined_ids : RefreshCoordinatorState Key RequestId → List RequestId
  joined_ids idle = []
  joined_ids (running a) = a.request_ids
  joined_ids (completing a) = a.request_ids

  -- The requests whose replies a thread is sending.
  abbrev pub held_ids : List (Owner Key RequestId) → List RequestId
  held_ids [] = []
  held_ids (executing k ∷ os) = held_ids os
  held_ids (finishing k r ∷ os) = held_ids os
  held_ids (replying k ids r ∷ os) = ids ++ held_ids os

-- The requests that have been sent a reply.
abbrev pub answered_ids : {RequestId : Type 0} → List (RequestId × Reply) → List RequestId
answered_ids [] = []
answered_ids ((i, r) ∷ l) = i ∷ answered_ids l

module _ {Key RequestId : Type 0} ⦃e : Eq RequestId⦄ where
  -- How often a request is somewhere in the system.
  abbrev pub accounted : RequestId → System Key RequestId → ℕ
  accounted j s =
      count j s.arriving
      + count j s.waiting
      + count j (joined_ids s.coordinator.state)
      + count j (held_ids s.owners)
      + count j (answered_ids s.answered)

module _ {Key RequestId : Type 0} ⦃d : Eq Key⦄ ⦃e : Eq RequestId⦄ where
  enter_count :
      (j i : RequestId) (k : Key) (s : System Key RequestId)
      (st : RefreshCoordinatorState Key RequestId) (l : List (Owner Key RequestId))
      → Matches st l
      → accounted j (enter i k (sys st l s))
        ≡ (if e.beq j i then 1 else 0) + accounted j (sys st l s)
  unfolding register
  enter_count j i k s idle [] m = ground arith
  enter_count j i k s (running a) (executing h ∷ []) m =
      ground (arith, count-append j a.request_ids (i ∷ []))
  enter_count j i k s (completing a) (finishing h r ∷ []) m =
      ground (arith, count-append j a.request_ids (i ∷ []))
  enter_count j i k s (completing a) (replying h ids r ∷ []) m =
      ground (arith, count-append j a.request_ids (i ∷ []))
  enter_count j i k s _ _ m = absurd m

  advance_count :
      (j : RequestId) (o : Owner Key RequestId) (r : Option RefreshResult)
      (s : System Key RequestId) (st : RefreshCoordinatorState Key RequestId)
      → Matches st (o ∷ [])
      → accounted j (advance o r (sys st [] s)) ≡ accounted j (sys st (o ∷ []) s)
  unfolding begin_completion drain_request_ids complete_if_empty
  advance_count j (executing k) (some r) s (running a) m = ground (arith, d.beq_iff a.key k)
  advance_count j (executing k) none s (running a) m = ground (arith, d.beq_iff a.key k)
  advance_count j (finishing k r) _ s (completing a) m =
      ground (arith, d.beq_iff a.key k, count-append j a.request_ids [])
  advance_count j (replying k [] r) _ s (completing a) m = ground (arith, d.beq_iff a.key k)
  advance_count j (replying k (i ∷ ids) r) _ s (completing a) m = ground arith
  advance_count j _ _ s _ m = absurd m

  -- What is balanced: every submitted request is accounted for, as often as it was submitted.
  abbrev pub IsBalanced : System Key RequestId → Type 0
  IsBalanced s = (j : RequestId) → accounted j s ≡ count j s.submitted

  registers-IsBalanced :
      (s : System Key RequestId) (i : RequestId) (k : Key) (xs ys : List RequestId)
      → IsSafe s
      → IsBalanced s
      → s.arriving ≡ xs ++ i ∷ ys
      → (j : RequestId)
      → accounted j (enter i k (record s { arriving = xs ++ ys })) ≡ count j s.submitted
  registers-IsBalanced s i k xs ys v b h j =
      let moved =
        enter_count j i k (record s { arriving = xs ++ ys }) s.coordinator.state s.owners v.owned in
      let real =
        subst
          (λ t.
            accounted j (enter i k (record t { arriving = xs ++ ys }))
            ≡ (if e.beq j i then 1 else 0) + accounted j (record t { arriving = xs ++ ys }))
          (sys-eq s v.healthy v.alive) moved in
      let gone = ap (count j) h ∙ count-middle j i xs ys in omega (arith, b j)

  advances-IsBalanced :
      (s : System Key RequestId) (o : Owner Key RequestId) (r : Option RefreshResult)
      (os ps : List (Owner Key RequestId))
      → IsSafe s
      → IsBalanced s
      → s.owners ≡ os ++ o ∷ ps
      → (j : RequestId)
      → accounted j (advance o r (record s { owners = os ++ ps })) ≡ count j s.submitted
  advances-IsBalanced s o r os ps v b h j =
      let (n, m) = sole s.coordinator.state s.owners os ps o v.owned h in
      let whole : s.owners ≡ o ∷ [] = h ∙ rw (n, m) in
      let moved =
        advance_count j o r s s.coordinator.state
          (subst (Matches s.coordinator.state) whole v.owned) in
      let real =
        subst
          (λ t.
            accounted j (advance o r (record t { owners = [] }))
            ≡ accounted j (record t { owners = o ∷ [] }))
          (sys-eq s v.healthy v.alive) moved in
      let before = ap (λ l. accounted j (record s { owners = l })) whole in
      rw (n, m) (real ∙ sym before ∙ b j)

  enter-submitted :
      (i : RequestId) (k : Key) (s : System Key RequestId) → (enter i k s).submitted ≡ s.submitted
  enter-submitted i k s = go (register i k s.coordinator)
    where
      go :
          (o : Outcome RefreshRegistration × RefreshCoordinator Key RequestId)
          → (after_register i k s o).submitted ≡ s.submitted
      go (done start, c) = refl
      go (done joined, c) = refl
      go (done busy, c) = refl
      go (done wait, c) = refl
      go (panicked, c) = refl

  advance-submitted :
      (o : Owner Key RequestId) (r : Option RefreshResult) (s : System Key RequestId)
      → (advance o r s).submitted ≡ s.submitted
  advance-submitted (executing k) (some r) s = begun (begin_completion k s.coordinator)
    where
      begun :
          (o : Outcome (Unit {0}) × RefreshCoordinator Key RequestId)
          → (after_begin k (refreshed r) s o).submitted ≡ s.submitted
      begun (done tt, c) = refl
      begun (panicked, c) = refl
  advance-submitted (executing k) none s = begun (begin_completion k s.coordinator)
    where
      begun :
          (o : Outcome (Unit {0}) × RefreshCoordinator Key RequestId)
          → (after_begin k failed s o).submitted ≡ s.submitted
      begun (done tt, c) = refl
      begun (panicked, c) = refl
  advance-submitted (finishing k r) _ s = drained (drain_request_ids k s.coordinator)
    where
      drained :
          (o : Outcome (List RequestId) × RefreshCoordinator Key RequestId)
          → (after_drain k r s o).submitted ≡ s.submitted
      drained (done ids, c) = refl
      drained (panicked, c) = refl
  advance-submitted (replying k [] r) _ s = completed (complete_if_empty k s.coordinator)
    where
      completed :
          (o : Outcome Bool × RefreshCoordinator Key RequestId)
          → (after_complete k r s o).submitted ≡ s.submitted
      completed (done true, c) = refl
      completed (done false, c) = refl
      completed (panicked, c) = refl
  advance-submitted (replying k (i ∷ ids) r) _ s = refl

  Step-IsBalanced : {s t : System Key RequestId} → IsSafe s → IsBalanced s → Step s t → IsBalanced t
  Step-IsBalanced v b (submit i) j = omega (arith, b j)
  Step-IsBalanced {s} v b (registers i k xs ys h) j =
      registers-IsBalanced s i k xs ys v b h j
      ∙ ap (count j) (sym (enter-submitted i k (record s { arriving = xs ++ ys })))
  Step-IsBalanced {s} v b (wakes i xs ys h idles) j =
      let gone = ap (count j) h ∙ count-middle j i xs ys in omega (arith, b j)
  Step-IsBalanced {s} v b (advances o r os ps h) j =
      advances-IsBalanced s o r os ps v b h j
      ∙ ap (count j) (sym (advance-submitted o r (record s { owners = os ++ ps })))

  -- In every reachable state each request occurs as often as it was submitted: among the threads
  -- about to register, those that wait, the joined requests, those whose replies are being sent,
  -- and those that have been answered.
  pub Reach-IsBalanced : {s : System Key RequestId} → Reach s → IsBalanced s
  Reach-IsBalanced here = λ j. refl
  Reach-IsBalanced (next r st) = Step-IsBalanced (Reach-IsSafe r) (Reach-IsBalanced r) st

  idle_joined :
      (st : RefreshCoordinatorState Key RequestId) (l : List (Owner Key RequestId))
      → Matches st l
      → l ≡ []
      → joined_ids st ≡ []
  idle_joined idle [] m h = refl
  idle_joined (running a) (executing k ∷ []) m h = cc
  idle_joined (completing a) (finishing k r ∷ []) m h = cc
  idle_joined (completing a) (replying k ids r ∷ []) m h = cc
  idle_joined _ _ m h = absurd m

  -- In every reachable state in which no thread is left, the answered requests are the submitted
  -- ones, each as often.
  pub answered_all :
      {s : System Key RequestId}
      → Reach s
      → s.arriving ≡ []
      → s.waiting ≡ []
      → s.owners ≡ []
      → (j : RequestId) → count j (answered_ids s.answered) ≡ count j s.submitted
  answered_all {s} r a w o j =
      let none_joined =
        ap (count j) (idle_joined s.coordinator.state s.owners (Reach-IsSafe r).owned o) in
      let none_held = ap (λ l. count j (held_ids l)) o in
      let none_arriving = ap (count j) a in
      let none_waiting = ap (count j) w in omega (arith, Reach-IsBalanced r j)
