-- ===== src/ThreadPool/Leaving.antt =====
-- A thread of a pool that is being destroyed comes closer to its return with each step.
use ns1_interview_redis.Prelude.{
  ℕ, zero, suc, ◌+◌, ◌<◌, ◌≤◌, ◌≡◌, Bool, true, false, List, [], ◌∷◌, refl, arith, inl, inr, ap,
  length, Bool-cases,
}
use ns1_interview_redis.ThreadPool.{
  Call, succeeds, fails, Point, at_head, locking, looking, waiting, woken, left, running, Worker,
  ThreadPool, Progress, moves, waits, aborts, loop_from, process_job_unsafe, look, look_again,
  take_job, try_lock,
}
use ns1_interview_redis.ThreadPool.Steps.{advance}
use ns1_interview_redis.ThreadPool.Counting.{Moved, Moved-and_then}

-- The steps that a thread still takes, once it finds `m_is_destroying` set where it looks for it.
abbrev pub distance : {J : Type 0} → Point J → ℕ
distance left = 0
distance at_head = 1
distance (running j) = 2
distance woken = 3
distance waiting = 4
distance looking = 5
distance locking = 6

abbrev pub remaining : {J : Type 0} → List (Worker J) → ℕ
remaining [] = 0
remaining (w ∷ ws) = distance w.point + remaining ws

module _ {J : Type 0} where
  -- The thread has fewer steps to take than `d`, in a pool that is being destroyed.
  abbrev pub IsCloser : ℕ → Worker J × ThreadPool J → Type 0
  IsCloser d (w, p) = (distance w.point < d) × (p.is_destroying ≡ true)

  module _ (p : ThreadPool J) (ending : p.is_destroying ≡ true) where
    take_job-IsCloser : (queue : List J) → Moved fails (IsCloser 3) (take_job queue p)
    take_job-IsCloser [] = (omega arith, ending)
    take_job-IsCloser (j ∷ js) = (omega arith, ending)

    process-IsCloser : (b : Bool) → Moved fails (IsCloser 3) (process_job_unsafe b p)
    unfolding process_job_unsafe
    process-IsCloser true = take_job-IsCloser p.job_queue
    process-IsCloser false = tt

    farther :
        (d e : ℕ) (r : Progress (Worker J × ThreadPool J))
        → d ≤ e
        → Moved fails (IsCloser d) r
        → Moved fails (IsCloser e) r
    farther d e (moves a) le h = (omega (arith, h.0), h.1)
    farther d e waits le h = tt
    farther d e aborts le h = tt

    look-IsCloser : (b : Bool) (queue : List J) → Moved fails (IsCloser 5) (look b queue p)
    look-IsCloser b [] = (omega arith, ending)
    look-IsCloser b (j ∷ js) =
        farther 3 5 (process_job_unsafe b p) (omega arith) (process-IsCloser b)

    look_again-IsCloser :
        (b : Bool) (queue : List J) → Moved fails (IsCloser 3) (look_again b queue p)
    look_again-IsCloser b [] = (omega arith, ending)
    look_again-IsCloser b (j ∷ js) = process-IsCloser b

    try_lock-IsCloser :
        (d : ℕ) (point : Point J) → distance point < d → Moved fails (IsCloser d) (try_lock point p)
    try_lock-IsCloser d point less = elim (Bool-cases p.is_locked) [
      | inl e ↦ rw e tt
      | inr e ↦ rw e (less, ending)
    ]

    loop_from-IsCloser :
        (c : Call) (point : Point J) (b : Bool)
        → Moved fails (IsCloser (distance point)) (loop_from c point b p)
    unfolding loop_from
    loop_from-IsCloser c at_head b = rw ending (omega arith, refl)
    loop_from-IsCloser c locking true = (omega arith, ending)
    loop_from-IsCloser succeeds locking false = try_lock-IsCloser 6 looking (omega arith)
    loop_from-IsCloser fails locking false = (omega arith, ending)
    loop_from-IsCloser c looking b = look-IsCloser b p.job_queue
    loop_from-IsCloser succeeds waiting b = try_lock-IsCloser 4 woken (omega arith)
    loop_from-IsCloser fails waiting b = tt
    loop_from-IsCloser c woken b = look_again-IsCloser b p.job_queue
    loop_from-IsCloser c (running j) b = (omega arith, ending)
    loop_from-IsCloser c left b = tt

  abbrev pub AreCloser : ℕ → ℕ → List (Worker J) × ThreadPool J → Type 0
  AreCloser d n (ws, p) = (remaining ws < d) × (p.is_destroying ≡ true) × (length ws ≡ n)

  pub advance-AreCloser :
      (c : Call) (i : ℕ) (ws : List (Worker J)) (p : ThreadPool J)
      → p.is_destroying ≡ true
      → Moved fails (AreCloser (remaining ws) (length ws)) (advance c i ws p)
  advance-AreCloser c i [] p ending = tt
  advance-AreCloser c zero (w ∷ ws) p ending =
      Moved-and_then (AreCloser _ _) fails (loop_from c w.point w.lock_held p)
        (λ r. (r.0 ∷ ws, r.1)) (loop_from-IsCloser p ending c w.point w.lock_held)
        λ r closer. (omega (arith, closer.0), closer.1, refl)
  advance-AreCloser c (suc i) (w ∷ ws) p ending =
      Moved-and_then (AreCloser _ _) fails (advance c i ws p) (λ r. (w ∷ r.0, r.1))
        (advance-AreCloser c i ws p ending)
        λ r (less, still, same). (omega (arith, less), still, ap suc same)
