-- ===== src/Tests/Destroying.antt =====
-- The destruction of a pool, and of an orchestrator.
use ns1_interview_redis.Prelude.{
  ℕ, ◌*◌, ◌≤◌, ◌⊎◌, none, some, ◌≡◌, refl, true, false, [], ◌∷◌, All, length, replicate,
}
use ns1_interview_redis.ThreadPool.{
  Call, succeeds, fails, posts, left, ThreadPool, moves, loop_from, add_thread, add_job, destroy,
  process_job_unsafe,
}
use ns1_interview_redis.ThreadPool.Factory.{create_thread_pool, add_threads}
use ns1_interview_redis.ThreadPool.Steps.{go_on, count, step}
use ns1_interview_redis.ThreadPool.Reachable.{HasLeft}
use ns1_interview_redis.ThreadPool.Ending.{Runs, stops, goes, adds, destroy_terminates}
use ns1_interview_redis.Server.Pools.{
  PoolName, read_threadpool, before_delete, Pools, pool_of, new_pools, destruct, Reached,
  constructed, destructs,
}
use ns1_interview_redis.Server.Pools
use ns1_interview_redis.Server.Pools.Deleting.{Reached-HasLeft}
use ns1_interview_redis.Tests.Pooling.{busy_pool, busy_pool-Reached}

-- The thread runs the first job, a job comes in, the thread leaves.
abbrev quit_pool : ThreadPool ℕ
quit_pool = record {
  counted = 1;
  departed = 1;
  uncounted = 0;
  threads = record { point = left; lock_held = false } ∷ [];
  job_queue = 8 ∷ 9 ∷ [];
  is_locked = false;
  is_destroying = true;
  added = 7 ∷ 8 ∷ 9 ∷ [];
  started = 7 ∷ [];
}

quitting : Runs 3 (destroy busy_pool) quit_pool
unfolding destroy step loop_from process_job_unsafe add_job
quitting =
    goes succeeds 0 refl
      (adds posts (some 9) refl (goes succeeds 0 refl (goes succeeds 0 refl stops)))

destroy_terminates_example :
    (3 ≤ 6 * length busy_pool.threads)
    × ((quit_pool.counted ≡ quit_pool.departed)
        ⊎ (((i : ℕ) × (q' : ThreadPool ℕ) × (step (go_on succeeds i) quit_pool ≡ moves q'))
            ⊎ ((q' : ThreadPool ℕ) × (step count quit_pool ≡ moves q'))))
destroy_terminates_example = destroy_terminates 3 busy_pool quit_pool busy_pool-Reached quitting

-- The threads of one pool start, those of the others do not.
abbrev reads_only : PoolName → ℕ → Call
reads_only read_threadpool i = succeeds
reads_only _ i = fails

abbrev gone_pool : ThreadPool ℕ
gone_pool = record {
  counted = 8;
  departed = 8;
  uncounted = 0;
  threads = replicate 8 (record { point = left; lock_held = false });
  job_queue = [];
  is_locked = false;
  is_destroying = true;
  added = [];
  started = [];
}

abbrev gone_pools : Pools ℕ
gone_pools = record { read = some gone_pool; processing = none; write = none; parse_and_run = none }

abbrev leaves :
    {s : Pools.Stage} {pools : Pools ℕ} {p p' : ThreadPool ℕ} (i : ℕ)
    → pool_of read_threadpool pools ≡ some p
    → step (go_on succeeds i) p ≡ moves p'
    → Reached s pools
    → Reached s (Pools.with_pool read_threadpool p' pools)
leaves i here runs r = Pools.goes read_threadpool succeeds i r here runs

gone_pools-Reached : Reached before_delete gone_pools
unfolding create_thread_pool add_threads add_thread destruct destroy step loop_from
gone_pools-Reached =
    destructs
      (destructs
        (destructs
          (destructs
            (leaves 7 refl refl (
              leaves 6 refl refl (
                leaves 5 refl refl (
                  leaves 4 refl refl (
                    leaves 3 refl refl (
                      leaves 2 refl refl (
                        leaves 1 refl refl
                          (leaves 0 refl refl (destructs (constructed reads_only) refl)))))))))
            refl)
          refl)
        refl)
      refl

Reached-HasLeft_example : All HasLeft gone_pool.threads × (gone_pool.counted ≡ gone_pool.departed)
Reached-HasLeft_example =
    Reached-HasLeft gone_pools read_threadpool gone_pool gone_pools-Reached refl
