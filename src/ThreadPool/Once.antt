-- ===== src/ThreadPool/Once.antt =====
-- src/thread_pool.cpp: each job that is added to a pool is run once, or is in a thread's hand, or waits.
use ns1_interview_redis.Prelude.{
  ℕ, zero, suc, ◌+◌, ◌≡◌, Bool, true, false, Option, none, some, List, [], ◌∷◌, ◌++◌, arith,
  Bool-cases, inl, inr, ap,
}
use mathlib.Core.Path.{subst}
use ns1_interview_redis.ThreadPool.{
  Call, succeeds, fails, Point, at_head, locking, looking, waiting, woken, left, running, Worker,
  ThreadPool, moves, new_pool, loop_from, process_job_unsafe, look, look_again, take_job, add_job,
  push_back, create_thread, count_thread, count_one, Posting, posts, no_memory, no_lock, destroy,
}
use ns1_interview_redis.ThreadPool.Steps.{
  Event, start_thread, count, go_on, add, begin_destroy, advance, with_threads, step, Reached,
  fresh, stepped,
}
use ns1_interview_redis.ThreadPool.Counting.{Moved, Moved-and_then, if_free}
use ns1_interview_redis.ThreadPool.Reachable.{Reached-IsValid}

abbrev pub total : {J : Type 0} → (J → ℕ) → List J → ℕ
total f [] = 0
total f (j ∷ js) = f j + total f js

total-append :
    {J : Type 0} (f : J → ℕ) (xs ys : List J) → total f (xs ++ ys) ≡ total f xs + total f ys
total-append f [] ys = omega arith
total-append f (x ∷ xs) ys = omega (arith, total-append f xs ys)

-- The job inside whose run() a thread is.
abbrev pub job_at : {J : Type 0} → Point J → List J
job_at (running j) = j ∷ []
job_at _ = []

abbrev pub in_hand : {J : Type 0} → List (Worker J) → List J
in_hand [] = []
in_hand (w ∷ ws) = job_at w.point ++ in_hand ws

-- The job whose run() returns in a step of the thread at a position.
abbrev ended_at : {J : Type 0} → ℕ → List (Worker J) → List J
ended_at i [] = []
ended_at zero (w ∷ ws) = job_at w.point
ended_at (suc i) (w ∷ ws) = ended_at i ws

abbrev pub ended : {J : Type 0} → Event J → ThreadPool J → List J
ended (go_on c i) p = ended_at i p.threads
ended _ p = []

-- The pools that steps lead to from a new one, with the jobs whose run() has returned on the way.
pub data Ran {J : Type 0} : List J → ThreadPool J → Type 0 where
  begun : Ran [] new_pool
  gone_on :
      {finished : List J} {p p' : ThreadPool J} (e : Event J)
      → Ran finished p
      → step e p ≡ moves p'
      → Ran (finished ++ ended e p) p'

module _ {J : Type 0} (f : J → ℕ) where
  -- The jobs started are those that were, of total `n`, and the one that the thread took.
  abbrev IsTaken : ℕ → Worker J × ThreadPool J → Type 0
  IsTaken n (w, p) = total f p.started ≡ n + total f (job_at w.point)

  module _ (p : ThreadPool J) where
    take_job-IsTaken :
        (queue : List J) → Moved fails (IsTaken (total f p.started)) (take_job queue p)
    take_job-IsTaken [] = omega arith
    take_job-IsTaken (j ∷ js) = total-append f p.started (j ∷ [])

    process-IsTaken :
        (b : Bool) → Moved fails (IsTaken (total f p.started)) (process_job_unsafe b p)
    unfolding process_job_unsafe
    process-IsTaken true = take_job-IsTaken p.job_queue
    process-IsTaken false = tt

    look-IsTaken :
        (b : Bool) (queue : List J) → Moved fails (IsTaken (total f p.started)) (look b queue p)
    look-IsTaken b [] = omega arith
    look-IsTaken b (j ∷ js) = process-IsTaken b

    look_again-IsTaken :
        (b : Bool) (queue : List J)
        → Moved fails (IsTaken (total f p.started)) (look_again b queue p)
    look_again-IsTaken b [] = omega arith
    look_again-IsTaken b (j ∷ js) = process-IsTaken b

    loop_from-IsTaken :
        (c : Call) (point : Point J) (b : Bool)
        → Moved fails (IsTaken (total f p.started)) (loop_from c point b p)
    unfolding loop_from
    loop_from-IsTaken c at_head b = elim (Bool-cases p.is_destroying) [
      | inl e ↦ rw e (omega arith)
      | inr e ↦ rw e (omega arith)
    ]
    loop_from-IsTaken c locking true = omega arith
    loop_from-IsTaken succeeds locking false = if_free (IsTaken _) fails p.is_locked (omega arith)
    loop_from-IsTaken fails locking false = omega arith
    loop_from-IsTaken c looking b = look-IsTaken b p.job_queue
    loop_from-IsTaken succeeds waiting b = if_free (IsTaken _) fails p.is_locked (omega arith)
    loop_from-IsTaken fails waiting b = tt
    loop_from-IsTaken c woken b = look_again-IsTaken b p.job_queue
    loop_from-IsTaken c (running j) b = omega arith
    loop_from-IsTaken c left b = tt

  -- With `e` the total of the job that ended, `h` of those in hand and `s` of those started before.
  abbrev AreTaken : ℕ → ℕ → ℕ → List (Worker J) × ThreadPool J → Type 0
  AreTaken e h s (ws, p) = e + total f (in_hand ws) + s ≡ h + total f p.started

  advance-AreTaken :
      (c : Call) (i : ℕ) (ws : List (Worker J)) (p : ThreadPool J)
      → Moved fails
          (AreTaken (total f (ended_at i ws)) (total f (in_hand ws)) (total f p.started))
          (advance c i ws p)
  advance-AreTaken c i [] p = tt
  advance-AreTaken c zero (w ∷ ws) p =
      Moved-and_then (AreTaken _ _ _) fails (loop_from c w.point w.lock_held p)
        (λ r. (r.0 ∷ ws, r.1)) (loop_from-IsTaken p c w.point w.lock_held)
        λ r taken. omega (
          arith,
          taken,
          total-append f (job_at r.0.point) (in_hand ws),
          total-append f (job_at w.point) (in_hand ws),
        )
  advance-AreTaken c (suc i) (w ∷ ws) p =
      Moved-and_then (AreTaken _ _ _) fails (advance c i ws p) (λ r. (w ∷ r.0, r.1))
        (advance-AreTaken c i ws p)
        λ r taken. omega (
          arith,
          taken,
          total-append f (job_at w.point) (in_hand r.0),
          total-append f (job_at w.point) (in_hand ws),
        )

  in_hand-append :
      (ws : List (Worker J)) (w : Worker J)
      → total f (in_hand (ws ++ w ∷ [])) ≡ total f (in_hand ws) + total f (job_at w.point)
  in_hand-append [] w = omega (arith, total-append f (job_at w.point) [])
  in_hand-append (v ∷ ws) w = omega (
    arith,
    total-append f (job_at v.point) (in_hand (ws ++ w ∷ [])),
    total-append f (job_at v.point) (in_hand ws),
    in_hand-append ws w,
  )

  -- What a step does to the jobs in hand and to those that were started.
  abbrev IsPassed : ℕ → ThreadPool J → ThreadPool J → Type 0
  IsPassed e p p' =
      e + total f (in_hand p'.threads) + total f p.started
      ≡ total f (in_hand p.threads) + total f p'.started

  create_thread-IsPassed : (c : Call) (p : ThreadPool J) → IsPassed 0 p (create_thread c p)
  unfolding create_thread
  create_thread-IsPassed succeeds p = omega (arith, in_hand-append p.threads _)
  create_thread-IsPassed fails p = omega arith

  count_one-IsPassed : (n : ℕ) (p : ThreadPool J) → Moved fails (IsPassed 0 p) (count_one n p)
  count_one-IsPassed zero p = tt
  count_one-IsPassed (suc n) p = omega arith

  push_back-IsPassed : (c : Call) (j : J) (p : ThreadPool J) → IsPassed 0 p (push_back c j p).1
  push_back-IsPassed succeeds j p = omega arith
  push_back-IsPassed fails j p = omega arith

  add_job-IsPassed :
      (c : Posting) (job : Option J) (p : ThreadPool J)
      → Moved fails (λ r. IsPassed 0 p r.1) (add_job c job p)
  unfolding add_job
  add_job-IsPassed c none p = omega arith
  add_job-IsPassed posts (some j) p =
      if_free (λ r. IsPassed 0 p r.1) fails p.is_locked (push_back-IsPassed succeeds j p)
  add_job-IsPassed no_memory (some j) p =
      if_free (λ r. IsPassed 0 p r.1) fails p.is_locked (push_back-IsPassed fails j p)
  add_job-IsPassed no_lock (some j) p = tt

  step-IsPassed :
      (e : Event J) (p : ThreadPool J) → Moved fails (IsPassed (total f (ended e p)) p) (step e p)
  unfolding step destroy count_thread
  step-IsPassed (start_thread c) p = create_thread-IsPassed c p
  step-IsPassed count p = count_one-IsPassed p.uncounted p
  step-IsPassed (add c job) p =
      Moved-and_then (IsPassed 0 p) fails (add_job c job p) (λ r. r.1) (add_job-IsPassed c job p)
        λ r passed. passed
  step-IsPassed (go_on c i) p =
      Moved-and_then (IsPassed _ p) fails (advance c i p.threads p) with_threads
        (advance-AreTaken c i p.threads p) λ r taken. omega (arith, taken)
  step-IsPassed begin_destroy p = omega arith

  Ran-started :
      {finished : List J} {p : ThreadPool J}
      → Ran finished p
      → Reached p × (total f finished + total f (in_hand p.threads) ≡ total f p.started)
  Ran-started begun = (fresh, omega arith)
  Ran-started (gone_on {finished} {p} {p'} e r runs) =
      let (reached, before) = Ran-started r in
      let passed =
        subst (Moved fails (IsPassed (total f (ended e p)) p)) runs (step-IsPassed e p) in
      (stepped e reached runs, omega (arith, before, passed, total-append f finished (ended e p)))

  -- In whatever order the threads and the clients of a pool take their steps: the jobs whose run()
  -- has returned, those inside whose run() a thread is and those in the queue are together the jobs
  -- that were added, each as often. Counted with any weights, that is with 1 for the jobs of any kind
  -- and 0 for the others, none is lost and none is run twice.
  pub Ran-added :
      (finished : List J) (p : ThreadPool J)
      → Ran finished p
      → total f finished + total f (in_hand p.threads) + total f p.job_queue ≡ total f p.added
  Ran-added finished p r =
      let (reached, started) = Ran-started r in
      omega (
        arith,
        started,
        total-append f p.started p.job_queue,
        ap (total f) (Reached-IsValid p reached).counted.order,
      )
