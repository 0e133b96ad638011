-- ===== src/ThreadPool/Ending.antt =====
-- `destroy`: its loop `while (m_num_threads)` ends, as the threads leave.
use ns1_interview_redis.Prelude.{
  ℕ, zero, suc, ◌+◌, ◌*◌, ◌<◌, ◌≤◌, ◌≡◌, true, false, Option, none, some, List, [], ◌∷◌, refl,
  arith, All, ◌⊎◌, inl, inr, ◌∙◌, ap, length, Bool-cases,
}
use mathlib.Core.Path.{subst}
use ns1_interview_redis.ThreadPool.{
  Call, succeeds, fails, Point, at_head, locking, looking, waiting, woken, left, running, Worker,
  ThreadPool, moves, loop_from, add_job, push_back, destroy, count_thread, count_one, Posting,
  posts, no_memory, no_lock,
}
use ns1_interview_redis.ThreadPool.Steps.{
  go_on, add, count, begin_destroy, advance, with_threads, step, Reached, stepped,
}
use ns1_interview_redis.ThreadPool.Counting.{
  holds, stays, claims, IsPlaced, staying, Moved, Moved-and_then, if_free,
}
use ns1_interview_redis.ThreadPool.Reachable.{Goes, holding-Goes, Reached-IsValid, locked_goes}
use ns1_interview_redis.ThreadPool.Leaving.{distance, remaining, advance-AreCloser}

module _ {J : Type 0} where
  -- Steps of the threads, and jobs that clients add and threads that `add_thread` counts between them. The number is that of the
  -- threads' steps.
  pub data Runs : ℕ → ThreadPool J → ThreadPool J → Type 0 where
    stops : {p : ThreadPool J} → Runs 0 p p
    goes :
        {n : ℕ} {p p' q : ThreadPool J} (c : Call) (i : ℕ)
        → step (go_on c i) p ≡ moves p'
        → Runs n p' q
        → Runs (suc n) p q
    adds :
        {n : ℕ} {p p' q : ThreadPool J} (c : Posting) (job : Option J)
        → step (add c job) p ≡ moves p'
        → Runs n p' q
        → Runs n p q
    counts : {n : ℕ} {p p' q : ThreadPool J} → step count p ≡ moves p' → Runs n p' q → Runs n p q

  go_on-IsEnding :
      (c : Call) (i : ℕ) (p p' : ThreadPool J)
      → p.is_destroying ≡ true
      → step (go_on c i) p ≡ moves p'
      → (remaining p'.threads < remaining p.threads)
        × (p'.is_destroying ≡ true)
        × (length p'.threads ≡ length p.threads)
  unfolding step
  go_on-IsEnding c i p p' ending runs =
      subst
        (Moved fails λ (p' : ThreadPool J).
          (remaining p'.threads < remaining p.threads)
          × (p'.is_destroying ≡ true)
          × (length p'.threads ≡ length p.threads))
        runs
        (Moved-and_then _ fails (advance c i p.threads p) with_threads
          (advance-AreCloser c i p.threads p ending) λ r closer. closer)

  abbrev pub IsSame : ThreadPool J → ThreadPool J → Type 0
  IsSame p p' =
      (p'.threads ≡ p.threads)
      × (p'.is_destroying ≡ p.is_destroying)
      × (p'.counted ≡ p.counted)
      × (p'.departed ≡ p.departed)
      × (p'.uncounted ≡ p.uncounted)

  push_back-IsSame : (c : Call) (j : J) (p : ThreadPool J) → IsSame p (push_back c j p).1
  push_back-IsSame succeeds j p = (refl, refl, refl, refl, refl)
  push_back-IsSame fails j p = (refl, refl, refl, refl, refl)

  add_job-IsSame :
      (c : Posting) (job : Option J) (p : ThreadPool J)
      → Moved fails (λ r. IsSame p r.1) (add_job c job p)
  unfolding add_job
  add_job-IsSame c none p = (refl, refl, refl, refl, refl)
  add_job-IsSame posts (some j) p =
      if_free (λ r. IsSame p r.1) fails p.is_locked (push_back-IsSame succeeds j p)
  add_job-IsSame no_memory (some j) p =
      if_free (λ r. IsSame p r.1) fails p.is_locked (push_back-IsSame fails j p)
  add_job-IsSame no_lock (some j) p = tt

  pub add-IsSame :
      (c : Posting) (job : Option J) (p p' : ThreadPool J)
      → step (add c job) p ≡ moves p'
      → IsSame p p'
  unfolding step
  add-IsSame c job p p' runs = subst (Moved fails (IsSame p)) runs (
      Moved-and_then (IsSame p) fails (add_job c job p) (λ r. r.1) (add_job-IsSame c job p)
        λ r same. same)

  -- What holds in the course of the runs below, and behind them.
  pub record IsEnded (n : ℕ) (p q : ThreadPool J) : Type 0 where
    pub reached : Reached q
    pub ending : q.is_destroying ≡ true
    pub fewer : n + remaining q.threads ≤ remaining p.threads
    pub same_length : length q.threads ≡ length p.threads

  count_one-same :
      (n : ℕ) (p : ThreadPool J)
      → Moved fails
          (λ (p' : ThreadPool J). (p'.threads ≡ p.threads) × (p'.is_destroying ≡ p.is_destroying))
          (count_one n p)
  count_one-same zero p = tt
  count_one-same (suc n) p = (refl, refl)

  count-same :
      (p p' : ThreadPool J)
      → step count p ≡ moves p'
      → (p'.threads ≡ p.threads) × (p'.is_destroying ≡ p.is_destroying)
  unfolding step count_thread
  count-same p p' runs =
      subst
        (Moved fails
          λ (p' : ThreadPool J). (p'.threads ≡ p.threads) × (p'.is_destroying ≡ p.is_destroying))
        runs (count_one-same p.uncounted p)

  Runs-IsEnded :
      {n : ℕ} {p q : ThreadPool J} → Reached p → p.is_destroying ≡ true → Runs n p q → IsEnded n p q
  Runs-IsEnded r ending stops = record {
    reached = r;
    ending = ending;
    fewer = omega arith;
    same_length = refl;
  }
  Runs-IsEnded {p} r ending (goes {p' = p'} c i runs more) =
      let (less, still, same) = go_on-IsEnding c i p p' ending runs in
      let h = Runs-IsEnded (stepped (go_on c i) r runs) still more in
      record {
        reached = h.reached;
        ending = h.ending;
        fewer = omega (arith, h.fewer, less);
        same_length = h.same_length ∙ same;
      }
  Runs-IsEnded {p} r ending (adds {p' = p'} c job runs more) =
      let (same, still, _, _, _) = add-IsSame c job p p' runs in
      let h = Runs-IsEnded (stepped (add c job) r runs) (still ∙ ending) more in
      record {
        reached = h.reached;
        ending = h.ending;
        fewer = omega (arith, h.fewer, ap remaining same);
        same_length = h.same_length ∙ ap length same;
      }
  Runs-IsEnded {p} r ending (counts {p' = p'} runs more) =
      let (same, still) = count-same p p' runs in
      let h = Runs-IsEnded (stepped count r runs) (still ∙ ending) more in
      record {
        reached = h.reached;
        ending = h.ending;
        fewer = omega (arith, h.fewer, ap remaining same);
        same_length = h.same_length ∙ ap length same;
      }

  distance-bound : (point : Point J) → distance point ≤ 6
  distance-bound left = omega arith
  distance-bound at_head = omega arith
  distance-bound (running j) = omega arith
  distance-bound woken = omega arith
  distance-bound waiting = omega arith
  distance-bound looking = omega arith
  distance-bound locking = omega arith

  remaining-bound : (ws : List (Worker J)) → remaining ws ≤ 6 * length ws
  remaining-bound [] = omega arith
  remaining-bound (w ∷ ws) = omega (arith, distance-bound w.point, remaining-bound ws)

  holder-Goes :
      (point : Point J)
      → holds point ≡ 1
      → (p : ThreadPool J) → Goes (loop_from succeeds point (claims point) p)
  holder-Goes point e p = elim (holding-Goes point) [
    | inl idle ↦ absurd (omega (arith, e, idle))
    | inr all ↦ all p
  ]

  -- Where the mutex is free, a thread that has not left can go on.
  free-Goes :
      (point : Point J) (p : ThreadPool J)
      → p.is_locked ≡ false
      → (stays point ≡ 0) ⊎ Goes (loop_from succeeds point (claims point) p)
  unfolding loop_from
  free-Goes left p free = inl refl
  free-Goes at_head p free = elim (Bool-cases p.is_destroying) [
    | inl e ↦ rw e (inr (_, refl))
    | inr e ↦ rw e (inr (_, refl))
  ]
  free-Goes (running j) p free = inr (_, refl)
  free-Goes waiting p free = rw free (inr (_, refl))
  free-Goes locking p free = rw free (inr (_, refl))
  free-Goes woken p free = inr (holder-Goes woken refl p)
  free-Goes looking p free = inr (holder-Goes looking refl p)

  staying-Goes :
      (ws : List (Worker J)) (p : ThreadPool J)
      → p.is_locked ≡ false
      → All IsPlaced ws
      → (staying ws ≡ 0) ⊎ ((i : ℕ) × Goes (advance succeeds i ws p))
  staying-Goes [] p free placed = inl refl
  staying-Goes (w ∷ ws) p free placed = elim (free-Goes w.point p free) [
    | inr (a, e) ↦ inr (zero, ((a.0 ∷ ws, a.1), rw placed.0 (rw e refl)))
    | inl gone ↦ elim (staying-Goes ws p free placed.1) [
      | inl none_left ↦ inl (omega (arith, gone, none_left))
      | inr (i, (a, e)) ↦ inr (suc i, ((w ∷ a.0, a.1), rw e refl))
    ]
  ]

  -- In a pool that steps lead to, no thread is left or some thread can go on.
  pub none_left_or_goes :
      (p : ThreadPool J)
      → Reached p
      → (p.counted + p.uncounted ≡ p.departed)
        ⊎ ((i : ℕ) × (p' : ThreadPool J) × (step (go_on succeeds i) p ≡ moves p'))
  unfolding step
  none_left_or_goes p r = elim (Bool-cases p.is_locked) [
    | inl e ↦ inr (locked_goes p r e)
    | inr e ↦
        let v = Reached-IsValid p r in
        elim (staying-Goes p.threads p e v.placed) [
          | inl none_left ↦ inl (omega (arith, v.counted.counts, none_left))
          | inr (i, (a, e')) ↦ inr (i, with_threads a, rw e' refl)
        ]
  ]

  count_one-cases :
      (n : ℕ) (p : ThreadPool J) → (n ≡ 0) ⊎ ((p' : ThreadPool J) × (count_one n p ≡ moves p'))
  count_one-cases zero p = inl refl
  count_one-cases (suc n) p = inr (_, refl)

  zero_or_goes :
      (p : ThreadPool J)
      → Reached p
      → (p.counted ≡ p.departed)
        ⊎ (((i : ℕ) × (p' : ThreadPool J) × (step (go_on succeeds i) p ≡ moves p'))
            ⊎ ((p' : ThreadPool J) × (step count p ≡ moves p')))
  unfolding step count_thread
  zero_or_goes p r = elim (none_left_or_goes p r) [
    | inr moving ↦ inr (inl moving)
    | inl gone ↦ elim (count_one-cases p.uncounted p) [
      | inl whole ↦ inl (omega (arith, gone, whole))
      | inr counting ↦ inr (inr counting)
    ]
  ]

  -- `destroy` of a pool that steps lead to returns, whatever steps its threads take behind the store
  -- to `m_is_destroying`, and whatever jobs clients add and threads `add_thread` counts between them:
  -- there are at most six steps for each thread, the run() of a job being one, and behind them
  -- `m_num_threads` is 0, at which the loop of `destroy` ends, or some thread can go on, or a call of
  -- `add_thread` has still to count its thread.
  pub destroy_terminates :
      (n : ℕ) (p q : ThreadPool J)
      → Reached p
      → Runs n (destroy p) q
      → (n ≤ 6 * length p.threads)
        × ((q.counted ≡ q.departed)
            ⊎ (((i : ℕ) × (q' : ThreadPool J) × (step (go_on succeeds i) q ≡ moves q'))
                ⊎ ((q' : ThreadPool J) × (step count q ≡ moves q'))))
  unfolding destroy step
  destroy_terminates n p q r runs =
      let h = Runs-IsEnded (stepped begin_destroy r refl) refl runs in
      (omega (arith, h.fewer, remaining-bound p.threads), zero_or_goes q h.reached)
