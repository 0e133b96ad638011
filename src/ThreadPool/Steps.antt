-- ===== src/ThreadPool/Steps.antt =====
-- src/thread_pool.cpp: the steps of a pool's threads and clients, in any order.
use ns1_interview_redis.Prelude.{ℕ, zero, suc, ◌≡◌, Option, List, [], ◌∷◌}
use ns1_interview_redis.ThreadPool.{
  Call, Posting, Worker, ThreadPool, Progress, moves, waits, and_then, new_pool, loop_from,
  create_thread, count_thread, add_job, destroy,
}

-- A step: a thread starts, is counted, a job is added, the thread at a position goes on, the pool is
-- destroyed.
pub data Event (J : Type 0) : Type 0 where
  start_thread : Call → Event J
  count : Event J
  add : Posting → Option J → Event J
  go_on : Call → ℕ → Event J
  begin_destroy : Event J

module _ {J : Type 0} where
  abbrev pub advance :
      Call → ℕ → List (Worker J) → ThreadPool J → Progress (List (Worker J) × ThreadPool J)
  advance c i [] p = waits
  advance c zero (w ∷ ws) p = and_then (loop_from c w.point w.lock_held p) λ r. (r.0 ∷ ws, r.1)
  advance c (suc i) (w ∷ ws) p = and_then (advance c i ws p) λ r. (w ∷ r.0, r.1)

  abbrev pub with_threads : List (Worker J) × ThreadPool J → ThreadPool J
  with_threads (ws, p) = record p { threads = ws }

  unfoldable pub step : Event J → ThreadPool J → Progress (ThreadPool J)
  unfolding create_thread count_thread add_job destroy loop_from
  step (start_thread c) p = moves (create_thread c p)
  step count p = count_thread p
  step (add c job) p = and_then (add_job c job p) λ r. r.1
  step (go_on c i) p = and_then (advance c i p.threads p) with_threads
  step begin_destroy p = moves (destroy p)

  -- The pools that steps lead to from a new one.
  pub data Reached : ThreadPool J → Type 0 where
    fresh : Reached new_pool
    stepped : {p p' : ThreadPool J} (e : Event J) → Reached p → step e p ≡ moves p' → Reached p'
