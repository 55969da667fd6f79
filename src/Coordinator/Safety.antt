-- ===== src/Coordinator/Safety.antt =====
-- What holds in every state that the threads of `handle_refresh` reach.
use r_environment_tools.Base.{
  ◌≤◌, ◌≡◌, refl, sym, ap, ◌∙◌, subst, false, List, [], ◌∷◌, ◌++◌, Option, none, some, Eq, length,
  arith, length-append,
}
use r_environment_tools.Coordinator.{
  RefreshCoordinatorState, idle, running, completing, register, begin_completion, drain_request_ids,
  complete_if_empty,
}
use r_environment_tools.Coordinator.Protocol.{
  Owner, executing, finishing, replying, System, enter, advance, Step, submit, registers, wakes,
  advances, Reach, here, next, RefreshResult,
}

nil_of_length {ℓ} : {A : Type ℓ} (xs : List A) → length xs ≤ 0 → xs ≡ []
nil_of_length [] h = refl
nil_of_length (x ∷ xs) h = absurd (omega arith)

module _ {Key RequestId : Type 0} where
  -- The coordinator is busy exactly while one thread owns it, with the same key, and no more than
  -- 256 requests have joined.
  abbrev pub Matches : RefreshCoordinatorState Key RequestId → List (Owner Key RequestId) → Type 0
  Matches idle [] = Unit
  Matches (running a) (executing k ∷ []) = (a.key ≡ k) × (length a.request_ids ≤ 256)
  Matches (completing a) (finishing k r ∷ []) = (a.key ≡ k) × (length a.request_ids ≤ 256)
  Matches (completing a) (replying k ids r ∷ []) = (a.key ≡ k) × (length a.request_ids ≤ 256)
  Matches _ _ = ⊥

  pub record IsSafe (s : System Key RequestId) : Type 0 where
    pub healthy : s.coordinator.poisoned ≡ false
    pub alive : s.crashed ≡ false
    pub owned : Matches s.coordinator.state s.owners

  Matches-length :
      (st : RefreshCoordinatorState Key RequestId) (l : List (Owner Key RequestId))
      → Matches st l
      → length l ≤ 1
  Matches-length idle [] m = omega arith
  Matches-length (running a) (executing k ∷ []) m = omega arith
  Matches-length (completing a) (finishing k r ∷ []) m = omega arith
  Matches-length (completing a) (replying k ids r ∷ []) m = omega arith
  Matches-length _ _ m = absurd m

  -- The thread that moves is the only owner.
  pub sole :
      (st : RefreshCoordinatorState Key RequestId) (l os ps : List (Owner Key RequestId))
      (o : Owner Key RequestId)
      → Matches st l
      → l ≡ os ++ o ∷ ps
      → (os ≡ []) × (ps ≡ [])
  sole st l os ps o m e =
      let short = Matches-length st l m in
      let sum = length-append os (o ∷ ps) in
      let same = ap length e in (nil_of_length os (omega arith), nil_of_length ps (omega arith))

  -- A healthy system, by its fields.
  abbrev pub sys :
      RefreshCoordinatorState Key RequestId
      → List (Owner Key RequestId)
      → System Key RequestId
      → System Key RequestId
  sys st l s = record s {
    coordinator = record { state = st; poisoned = false };
    owners = l;
    crashed = false;
  }

  pub sys-eq :
      (s : System Key RequestId)
      → s.coordinator.poisoned ≡ false
      → s.crashed ≡ false
      → sys s.coordinator.state s.owners s ≡ s
  sys-eq s p c = sym (λ i. record s {
    coordinator = record { state = s.coordinator.state; poisoned = p i };
    crashed = c i;
  })

module _ {Key RequestId : Type 0} ⦃e : Eq Key⦄ where
  enter-sys :
      (i : RequestId) (k : Key) (s : System Key RequestId)
      (st : RefreshCoordinatorState Key RequestId) (l : List (Owner Key RequestId))
      → Matches st l
      → IsSafe (enter i k (sys st l s))
  unfolding register
  enter-sys i k s idle [] m = ground (arith)
  enter-sys i k s (running a) (executing h ∷ []) m =
      ground (arith, e.beq_iff a.key k, length-append a.request_ids (i ∷ []))
  enter-sys i k s (completing a) (finishing h r ∷ []) m =
      ground (arith, e.beq_iff a.key k, length-append a.request_ids (i ∷ []))
  enter-sys i k s (completing a) (replying h ids r ∷ []) m =
      ground (arith, e.beq_iff a.key k, length-append a.request_ids (i ∷ []))
  enter-sys i k s _ _ m = absurd m

  advance-sys :
      (o : Owner Key RequestId) (r : Option RefreshResult) (s : System Key RequestId)
      (st : RefreshCoordinatorState Key RequestId)
      → Matches st (o ∷ [])
      → IsSafe (advance o r (sys st [] s))
  unfolding begin_completion drain_request_ids complete_if_empty
  advance-sys (executing k) (some r) s (running a) m = ground (arith, e.beq_iff a.key k)
  advance-sys (executing k) none s (running a) m = ground (arith, e.beq_iff a.key k)
  advance-sys (finishing k r) _ s (completing a) m = ground (arith, e.beq_iff a.key k)
  advance-sys (replying k [] r) _ s (completing a) m = ground (arith, e.beq_iff a.key k)
  advance-sys (replying k (i ∷ ids) r) _ s (completing a) m = ground arith
  advance-sys _ _ s _ m = absurd m

  pub advance-IsSafe :
      (s : System Key RequestId) (o : Owner Key RequestId) (r : Option RefreshResult)
      (os ps : List (Owner Key RequestId))
      → IsSafe s
      → s.owners ≡ os ++ o ∷ ps
      → IsSafe (advance o r (record s { owners = os ++ ps }))
  advance-IsSafe s o r os ps v h =
      let (n, m) = sole s.coordinator.state s.owners os ps o v.owned h in
      let whole : s.owners ≡ o ∷ [] = h ∙ rw (n, m) in
      rw (n, m)
        (subst (λ t. IsSafe (advance o r (record t { owners = [] }))) (sys-eq s v.healthy v.alive)
          (advance-sys o r s s.coordinator.state
            (subst (Matches s.coordinator.state) whole v.owned)))

  pub enter-IsSafe :
      (s : System Key RequestId) (i : RequestId) (k : Key) (ar : List RequestId)
      → IsSafe s
      → IsSafe (enter i k (record s { arriving = ar }))
  enter-IsSafe s i k ar v =
      subst (λ t. IsSafe (enter i k (record t { arriving = ar }))) (sys-eq s v.healthy v.alive)
        (enter-sys i k (record s { arriving = ar }) s.coordinator.state s.owners v.owned)

  Step-IsSafe : {s t : System Key RequestId} → IsSafe s → Step s t → IsSafe t
  Step-IsSafe v (submit i) = record { healthy = v.healthy; alive = v.alive; owned = v.owned }
  Step-IsSafe {s} v (registers i k xs ys h) = enter-IsSafe s i k (xs ++ ys) v
  Step-IsSafe v (wakes i xs ys h d) = record {
    healthy = v.healthy;
    alive = v.alive;
    owned = v.owned;
  }
  Step-IsSafe {s} v (advances o r os ps h) = advance-IsSafe s o r os ps v h

  -- In every reachable state no thread has panicked in the coordinator, its mutex is not poisoned,
  -- at most one thread owns a refresh, the coordinator is idle exactly if none does and holds the
  -- owner's key otherwise, and at most 256 requests are joined to it.
  pub Reach-IsSafe : {s : System Key RequestId} → Reach s → IsSafe s
  Reach-IsSafe here = record { healthy = refl; alive = refl; owned = tt }
  Reach-IsSafe (next r st) = Step-IsSafe (Reach-IsSafe r) st
