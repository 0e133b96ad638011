-- ===== src/ThreadPool/Keeping.antt =====
-- What the steps of a pool's threads leave to `add_thread`: the threads that it has not counted.
use ns1_interview_redis.Prelude.{
  ℕ, zero, suc, ◌≡◌, Bool, true, false, List, [], ◌∷◌, refl, Bool-cases, inl, inr,
}
use mathlib.Core.Path.{subst}
use ns1_interview_redis.ThreadPool.{
  Call, succeeds, fails, Point, at_head, locking, looking, waiting, woken, left, running, Worker,
  ThreadPool, moves, loop_from, process_job_unsafe, look, look_again, take_job,
}
use ns1_interview_redis.ThreadPool.Steps.{go_on, advance, with_threads, step}
use ns1_interview_redis.ThreadPool.Counting.{Moved, Moved-and_then, if_free}

module _ {J : Type 0} where
  abbrev IsKept : ℕ → Worker J × ThreadPool J → Type 0
  IsKept u (w, p) = p.uncounted ≡ u

  module _ (p : ThreadPool J) where
    take_job-IsKept : (queue : List J) → Moved fails (IsKept p.uncounted) (take_job queue p)
    take_job-IsKept [] = refl
    take_job-IsKept (j ∷ js) = refl

    process-IsKept : (b : Bool) → Moved fails (IsKept p.uncounted) (process_job_unsafe b p)
    unfolding process_job_unsafe
    process-IsKept true = take_job-IsKept p.job_queue
    process-IsKept false = tt

    look-IsKept :
        (b : Bool) (queue : List J)
        → Moved fails (IsKept p.uncounted) (look b queue p)
          × Moved fails (IsKept p.uncounted) (look_again b queue p)
    look-IsKept b [] = (refl, refl)
    look-IsKept b (j ∷ js) = (process-IsKept b, process-IsKept b)

    loop_from-IsKept :
        (c : Call) (point : Point J) (b : Bool)
        → Moved fails (IsKept p.uncounted) (loop_from c point b p)
    unfolding loop_from
    loop_from-IsKept c at_head b = elim (Bool-cases p.is_destroying) [
      | inl e ↦ rw e refl
      | inr e ↦ rw e refl
    ]
    loop_from-IsKept c locking true = refl
    loop_from-IsKept succeeds locking false = if_free (IsKept p.uncounted) fails p.is_locked refl
    loop_from-IsKept fails locking false = refl
    loop_from-IsKept c looking b = (look-IsKept b p.job_queue).0
    loop_from-IsKept succeeds waiting b = if_free (IsKept p.uncounted) fails p.is_locked refl
    loop_from-IsKept fails waiting b = tt
    loop_from-IsKept c woken b = (look-IsKept b p.job_queue).1
    loop_from-IsKept c (running j) b = refl
    loop_from-IsKept c left b = tt

  advance-IsKept :
      (c : Call) (i : ℕ) (ws : List (Worker J)) (p : ThreadPool J)
      → Moved fails (λ r. r.1.uncounted ≡ p.uncounted) (advance c i ws p)
  advance-IsKept c i [] p = tt
  advance-IsKept c zero (w ∷ ws) p =
      Moved-and_then _ fails (loop_from c w.point w.lock_held p) (λ r. (r.0 ∷ ws, r.1))
        (loop_from-IsKept p c w.point w.lock_held) λ r kept. kept
  advance-IsKept c (suc i) (w ∷ ws) p =
      Moved-and_then _ fails (advance c i ws p) (λ r. (w ∷ r.0, r.1)) (advance-IsKept c i ws p)
        λ r kept. kept

  pub go_on-uncounted :
      (c : Call) (i : ℕ) (p p' : ThreadPool J)
      → step (go_on c i) p ≡ moves p'
      → p'.uncounted ≡ p.uncounted
  unfolding step
  go_on-uncounted c i p p' runs =
      subst (Moved fails λ (p' : ThreadPool J). p'.uncounted ≡ p.uncounted) runs (
        Moved-and_then _ fails (advance c i p.threads p) with_threads
          (advance-IsKept c i p.threads p) λ r kept. kept)
