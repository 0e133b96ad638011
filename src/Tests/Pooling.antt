-- ===== src/Tests/Pooling.antt =====
-- A pool with two threads that runs a job.
use ns1_interview_redis.Prelude.{
  ℕ, ◌+◌, ◌<◌, ◌==◌, if◌then◌else◌, ◌⊎◌, ◌≡◌, ◌≢◌, refl, true, false, some, [], ◌∷◌,
}
use ns1_interview_redis.ThreadPool.{
  Call, succeeds, fails, posts, new_pool, looking, left, ThreadPool, moves, aborts, loop_from,
  create_thread, count_thread, add_job, destroy, process_job_unsafe,
}
use ns1_interview_redis.ThreadPool.Factory.{
  made, deleting, create_thread_pool, create_thread_pool_cases, IsStarted,
}
use ns1_interview_redis.ThreadPool.Steps.{
  start_thread, count, add, go_on, begin_destroy, step, Reached, fresh, stepped,
}
use ns1_interview_redis.ThreadPool.Once.{Ran, begun, gone_on, total, in_hand, Ran-added}
use ns1_interview_redis.ThreadPool.Invariant.{IsValid}
use ns1_interview_redis.ThreadPool.Reachable.{Reached-IsValid, step-aborts, locked_goes}

-- A pool with one thread, at the first test on the queue, and two jobs.
abbrev pub busy_pool : ThreadPool ℕ
busy_pool = record {
  counted = 1;
  departed = 0;
  uncounted = 0;
  threads = record { point = looking; lock_held = true } ∷ [];
  job_queue = 7 ∷ 8 ∷ [];
  is_locked = true;
  is_destroying = false;
  added = 7 ∷ 8 ∷ [];
  started = [];
}

pub busy_pool-Reached : Reached busy_pool
unfolding step create_thread count_thread add_job loop_from
busy_pool-Reached =
    stepped (go_on succeeds 0)
      (stepped (go_on succeeds 0)
        (stepped (add posts (some 8))
          (stepped (add posts (some 7))
            (stepped count (stepped (start_thread succeeds) fresh refl) refl) refl)
          refl)
        refl)
      refl

Reached-IsValid_example : IsValid busy_pool
Reached-IsValid_example = Reached-IsValid busy_pool busy_pool-Reached

step-aborts_example : step (go_on succeeds 0) busy_pool ≢ aborts
step-aborts_example = step-aborts busy_pool 0 busy_pool-Reached

locked_goes_example : (i : ℕ) × (p' : ThreadPool ℕ) × (step (go_on succeeds i) busy_pool ≡ moves p')
locked_goes_example = locked_goes busy_pool busy_pool-Reached refl

-- The same pool, destroyed, when its thread has run the first job and left.
abbrev left_pool : ThreadPool ℕ
left_pool = record {
  counted = 1;
  departed = 1;
  uncounted = 0;
  threads = record { point = left; lock_held = false } ∷ [];
  job_queue = 8 ∷ [];
  is_locked = false;
  is_destroying = true;
  added = 7 ∷ 8 ∷ [];
  started = 7 ∷ [];
}

left_pool-Ran : Ran (7 ∷ []) left_pool
unfolding step create_thread count_thread add_job loop_from destroy process_job_unsafe
left_pool-Ran =
    gone_on (go_on succeeds 0)
      (gone_on (go_on succeeds 0)
        (gone_on (go_on succeeds 0)
          (gone_on begin_destroy
            (gone_on (go_on succeeds 0)
              (gone_on (go_on succeeds 0)
                (gone_on (add posts (some 8))
                  (gone_on (add posts (some 7))
                    (gone_on count (gone_on (start_thread succeeds) begun refl) refl) refl)
                  refl)
                refl)
              refl)
            refl)
          refl)
        refl)
      refl

-- Job 8 is still in the queue when the thread has left.
abbrev is_8 : ℕ → ℕ
is_8 j = if j == 8 then 1 else 0

Ran-added_example :
    total is_8 (7 ∷ []) + total is_8 (in_hand left_pool.threads) + total is_8 left_pool.job_queue
    ≡ total is_8 left_pool.added
Ran-added_example = Ran-added is_8 (7 ∷ []) left_pool left_pool-Ran

abbrev third_fails : ℕ → Call
third_fails j = if j == 2 then fails else succeeds

create_thread_pool_cases_example :
    (((j : ℕ) → j < 8 → third_fails j ≡ succeeds)
      × (p : ThreadPool ℕ) × (create_thread_pool third_fails 8 ≡ made p)
      × IsStarted 8 new_pool p)
    ⊎ ((j : ℕ) × (j < 8)
        × (third_fails j ≡ fails)
        × (p : ThreadPool ℕ) × (create_thread_pool third_fails 8 ≡ deleting (destroy p))
        × IsStarted j new_pool p)
create_thread_pool_cases_example = create_thread_pool_cases third_fails 8
