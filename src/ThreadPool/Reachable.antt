-- ===== src/ThreadPool/Reachable.antt =====
-- src/thread_pool.cpp: what holds of a pool that any sequence of steps leads to.
use ns1_interview_redis.Prelude.{
  ℕ, zero, suc, ◌≡◌, ◌≢◌, true, List, [], ◌∷◌, refl, arith, All, ◌⊎◌, inl, inr, ◌∙◌, ap,
}
use mathlib.Core.Path.{subst}
use ns1_interview_redis.ThreadPool.{
  succeeds, Point, at_head, locking, looking, waiting, woken, left, running, Worker, ThreadPool,
  Progress, moves, aborts, loop_from, process_job_unsafe, look, look_again, take_job,
}
use ns1_interview_redis.ThreadPool.Steps.{
  go_on, advance, with_threads, step, Reached, fresh, stepped,
}
use ns1_interview_redis.ThreadPool.Counting.{
  holds, stays, claims, IsPlaced, holders, staying, held, Moved,
}
use ns1_interview_redis.ThreadPool.Invariant.{IsValid, new_pool-IsValid, step-IsValid, event_call}

abbrev pub Goes : {A : Type 0} → Progress A → Type 0
Goes {A} r = (a : A) × (r ≡ moves a)

module _ {J : Type 0} where
  -- Every pool that steps of its threads and clients lead to, in any order, is valid: each thread's
  -- `lock_held` is true exactly between its lock and its unlock; the mutex is held exactly when one
  -- thread holds it, and no two threads do; `m_num_threads` and the threads that `add_thread` has
  -- started and not counted yet are together the threads that have not left; the jobs started and
  -- those in the queue, in this order, are the jobs added.
  pub Reached-IsValid : (p : ThreadPool J) → Reached p → IsValid p
  Reached-IsValid _ fresh = new_pool-IsValid
  Reached-IsValid p' (stepped {p} e r runs) =
      subst (Moved (event_call e) IsValid) runs (step-IsValid e p (Reached-IsValid p r))

  Moved-aborts :
      (P : ThreadPool J → Type 0) (r : Progress (ThreadPool J)) → Moved succeeds P r → r ≢ aborts
  Moved-aborts P r h e = subst (Moved succeeds P) e h

  -- In a pool that steps lead to, no thread fails the assertion that it holds the lock, and none
  -- aborts as long as its calls succeed.
  pub step-aborts : (p : ThreadPool J) (i : ℕ) → Reached p → step (go_on succeeds i) p ≢ aborts
  step-aborts p i r =
      Moved-aborts IsValid _ (step-IsValid (go_on succeeds i) p (Reached-IsValid p r))

  abbrev pub HasLeft : Worker J → Type 0
  HasLeft w = w.point ≡ left

  stays-left : (point : Point J) → stays point ≡ 0 → point ≡ left
  stays-left left e = refl
  stays-left at_head e = absurd (omega arith)
  stays-left locking e = absurd (omega arith)
  stays-left looking e = absurd (omega arith)
  stays-left waiting e = absurd (omega arith)
  stays-left woken e = absurd (omega arith)
  stays-left (running j) e = absurd (omega arith)

  left-All : (ws : List (Worker J)) → staying ws ≡ 0 → All HasLeft ws
  left-All [] e = tt
  left-All (w ∷ ws) e = (stays-left w.point (omega arith), left-All ws (omega arith))

  -- In a pool that steps lead to, where no call of `add_thread` has a thread to count, every thread
  -- has left where `m_num_threads` is 0: the loop of
  -- `destroy` ends behind the last thread.
  pub destroy-HasLeft :
      (p : ThreadPool J)
      → Reached p
      → p.uncounted ≡ 0
      → p.counted ≡ p.departed
      → All HasLeft p.threads
  destroy-HasLeft p r whole e =
      left-All p.threads (omega (arith, (Reached-IsValid p r).counted.counts, whole, e))

  take_job-Goes : (queue : List J) (p : ThreadPool J) → Goes (take_job queue p)
  take_job-Goes [] p = (_, refl)
  take_job-Goes (j ∷ js) p = (_, refl)

  look-Goes : (queue : List J) (p : ThreadPool J) → Goes (look true queue p)
  unfolding process_job_unsafe
  look-Goes [] p = (_, refl)
  look-Goes (j ∷ js) p = take_job-Goes p.job_queue p

  look_again-Goes : (queue : List J) (p : ThreadPool J) → Goes (look_again true queue p)
  unfolding process_job_unsafe
  look_again-Goes [] p = (_, refl)
  look_again-Goes (j ∷ js) p = take_job-Goes p.job_queue p

  pub holding-Goes :
      (point : Point J)
      → (holds point ≡ 0) ⊎ ((p : ThreadPool J) → Goes (loop_from succeeds point (claims point) p))
  unfolding loop_from
  holding-Goes looking = inr λ p. look-Goes p.job_queue p
  holding-Goes woken = inr λ p. look_again-Goes p.job_queue p
  holding-Goes at_head = inl refl
  holding-Goes locking = inl refl
  holding-Goes waiting = inl refl
  holding-Goes left = inl refl
  holding-Goes (running j) = inl refl

  holder-Goes :
      (ws : List (Worker J)) (p : ThreadPool J)
      → All IsPlaced ws
      → holders ws ≡ 1
      → (i : ℕ) × Goes (advance succeeds i ws p)
  holder-Goes [] p placed e = absurd (omega arith)
  holder-Goes (w ∷ ws) p placed e = elim (holding-Goes w.point) [
    | inl idle ↦
        (let (i, (a, e')) = holder-Goes ws p placed.1 (omega arith) in
          (suc i, ((w ∷ a.0, a.1), rw e' refl)))
    | inr goes ↦ (let (a, e') = goes p in (zero, ((a.0 ∷ ws, a.1), rw placed.0 (rw e' refl))))
  ]

  -- In a pool that steps lead to, where the mutex is held some thread can go on: no thread waits for
  -- the mutex for ever.
  pub locked_goes :
      (p : ThreadPool J)
      → Reached p
      → p.is_locked ≡ true
      → (i : ℕ) × (p' : ThreadPool J) × (step (go_on succeeds i) p ≡ moves p')
  unfolding step
  locked_goes p r e =
      let v = Reached-IsValid p r in
      let (i, (a, e')) = holder-Goes p.threads p v.placed (v.counted.locks ∙ ap held e) in
      (i, with_threads a, rw e' refl)
