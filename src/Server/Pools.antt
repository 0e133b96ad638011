-- ===== src/Server/Pools.antt =====
-- src/orchestrator.h: the four thread pools that the constructor makes and the destructor destroys.
pub mod Ranks
pub mod Deleting
use ns1_interview_redis.Prelude.{
  ℕ, zero, suc, ◌+◌, ◌*◌, ◌≤◌, ◌≡◌, ◌==◌, true, false, Option, none, some, List, [], ◌∷◌, refl, sym,
  ◌∙◌, ap, arith, All, if◌then◌else◌, inl, inr, Bool-cases,
}
use ns1_interview_redis.ThreadPool.{
  Call, Posting, succeeds, ThreadPool, Progress, moves, waits, add_job, destroy, new_pool,
}
use ns1_interview_redis.ThreadPool.Steps.{go_on, add, begin_destroy, step}
use ns1_interview_redis.ThreadPool.Steps
use ns1_interview_redis.ThreadPool.Factory.{create_thread_pool, pointer}
use ns1_interview_redis.ThreadPool.Reachable.{HasLeft, destroy-HasLeft}

-- The members, in the order in which the destructor comes to them.
pub data PoolName : Type 0 where
  read_threadpool processing_threadpool write_threadpool parse_and_run_threadpool : PoolName

-- Where ~Orchestrator() stands: before its test on a pointer, in the loop of a pool's `destroy`, and
-- before the deletes. A server that runs stands before the first test.
pub data Stage : Type 0 where
  before_test in_destroy : PoolName → Stage
  before_delete : Stage

abbrev pub behind : PoolName → Stage
behind read_threadpool = before_test processing_threadpool
behind processing_threadpool = before_test write_threadpool
behind write_threadpool = before_test parse_and_run_threadpool
behind parse_and_run_threadpool = before_delete

-- The pointers; a null pointer is `none`.
pub record Pools (J : Type 0) : Type 0 where
  pub read : Option (ThreadPool J)
  pub processing : Option (ThreadPool J)
  pub write : Option (ThreadPool J)
  pub parse_and_run : Option (ThreadPool J)

module _ {J : Type 0} where
  abbrev pub pool_of : PoolName → Pools J → Option (ThreadPool J)
  pool_of read_threadpool pools = pools.read
  pool_of processing_threadpool pools = pools.processing
  pool_of write_threadpool pools = pools.write
  pool_of parse_and_run_threadpool pools = pools.parse_and_run

  abbrev pub with_pool : PoolName → ThreadPool J → Pools J → Pools J
  with_pool read_threadpool p pools = record pools { read = some p }
  with_pool processing_threadpool p pools = record pools { processing = some p }
  with_pool write_threadpool p pools = record pools { write = some p }
  with_pool parse_and_run_threadpool p pools = record pools { parse_and_run = some p }

  -- The pools of Orchestrator(), over what pthread_create returns for each thread of each.
  abbrev pub new_pools : (PoolName → ℕ → Call) → Pools J
  new_pools call = record {
    read = pointer (create_thread_pool (call read_threadpool) 8);
    processing = pointer (create_thread_pool (call processing_threadpool) 8);
    write = pointer (create_thread_pool (call write_threadpool) 8);
    parse_and_run = pointer (create_thread_pool (call parse_and_run_threadpool) 8);
  }

  abbrev pub test : PoolName → Option (ThreadPool J) → Pools J → Option (Stage × Pools J)
  test n none pools = some (behind n, pools)
  test n (some p) pools = some (in_destroy n, with_pool n (destroy p) pools)

  -- `while (m_num_threads)` inside `destroy`, which is not called on a null pointer.
  abbrev pub sleep : PoolName → Option (ThreadPool J) → Pools J → Option (Stage × Pools J)
  sleep n none pools = none
  sleep n (some p) pools = if p.counted == p.departed then some (behind n, pools) else none

  -- A step of ~Orchestrator(), up to its deletes; `none` while it has to wait.
  unfoldable pub destruct : Stage → Pools J → Option (Stage × Pools J)
  unfolding destroy
  destruct (before_test n) pools = test n (pool_of n pools) pools
  destruct (in_destroy n) pools = sleep n (pool_of n pools) pools
  destruct before_delete pools = none

  -- The steps of an orchestrator's pools from its construction to the deletes: of the threads, of
  -- the clients that add jobs, and of the destructor.
  pub data Reached : Stage → Pools J → Type 0 where
    constructed :
        (call : PoolName → ℕ → Call) → Reached (before_test read_threadpool) (new_pools call)
    goes :
        {s : Stage} {pools : Pools J} {p p' : ThreadPool J} (n : PoolName) (c : Call) (i : ℕ)
        → Reached s pools
        → pool_of n pools ≡ some p
        → step (go_on c i) p ≡ moves p'
        → Reached s (with_pool n p' pools)
    adds :
        {s : Stage} {pools : Pools J} {p p' : ThreadPool J} (n : PoolName) (c : Posting)
        (job : Option J)
        → Reached s pools
        → pool_of n pools ≡ some p
        → step (add c job) p ≡ moves p'
        → Reached s (with_pool n p' pools)
    destructs :
        {s s' : Stage} {pools pools' : Pools J}
        → Reached s pools
        → destruct s pools ≡ some (s', pools')
        → Reached s' pools'
