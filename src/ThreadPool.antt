-- ===== src/ThreadPool.antt =====
-- src/thread_pool.h and src/thread_pool.cpp: the threads of a pool, at the points where another
-- thread can come between, and the calls that the pool's clients make.
pub mod Steps
pub mod Counting
pub mod Keeping
pub mod Loop
pub mod Invariant
pub mod Reachable
pub mod Factory
pub mod Once
pub mod Leaving
pub mod Ending
use ns1_interview_redis.Prelude.{
  ℕ, zero, suc, ◌+◌, ◌-◌, Bool, true, false, Option, none, some, List, [], ◌∷◌, ◌++◌, if◌then◌else◌,
}

-- Whether a call of the system succeeds.
pub data Call : Type 0 where
  succeeds fails : Call

-- What the calls inside `add_job` come to: the mutex is taken and the job finds its place, there is
-- no memory for it, or pthread_mutex_lock fails.
pub data Posting : Type 0 where
  posts no_memory no_lock : Posting

-- Where a thread stands in `loop`: before the test on `m_is_destroying`, before
-- pthread_mutex_lock, before the first test on the queue, inside pthread_cond_timedwait, behind it,
-- inside the run() of a job, and behind the return.
pub data Point (J : Type 0) : Type 0 where
  at_head locking looking waiting woken left : Point J
  running : J → Point J

-- A thread, with the local variable `lock_held` of its `loop`.
pub record Worker (J : Type 0) : Type 0 where
  pub point : Point J
  pub lock_held : Bool

-- `ThreadPool`. `threads` are those that pthread_create has started. `m_num_threads` is `counted` less
-- `departed`, its increments and its decrements, and may be negative; `uncounted` are the calls of
-- `add_thread` that have started a thread and not counted it yet. `is_locked` is the mutex of the
-- queue. `added` and `started` are the jobs that went in at the back of the queue and out at its
-- front, the oldest first.
pub record ThreadPool (J : Type 0) : Type 0 where
  pub counted : ℕ
  pub departed : ℕ
  pub uncounted : ℕ
  pub threads : List (Worker J)
  pub job_queue : List J
  pub is_locked : Bool
  pub is_destroying : Bool
  pub added : List J
  pub started : List J

-- `waits`: the thread cannot go on as long as the pool stays as it is. `aborts`: an assertion fails.
pub data Progress {ℓ} (A : Type ℓ) : Type ℓ where
  moves : A → Progress A
  waits aborts : Progress A

abbrev pub and_then {ℓ κ} : {A : Type ℓ} {B : Type κ} → Progress A → (A → B) → Progress B
and_then (moves a) f = moves (f a)
and_then waits f = waits
and_then aborts f = aborts

module _ {J : Type 0} where
  -- `ThreadPool()`
  abbrev pub new_pool : ThreadPool J
  new_pool = record {
    counted = 0;
    departed = 0;
    uncounted = 0;
    threads = [];
    job_queue = [];
    is_locked = false;
    is_destroying = false;
    added = [];
    started = [];
  }

  abbrev pub stand : Point J → Bool → ThreadPool J → Progress (Worker J × ThreadPool J)
  stand point lock_held p = moves (record { point = point; lock_held = lock_held }, p)

  abbrev pub with_lock : Bool → ThreadPool J → ThreadPool J
  with_lock l p = record p { is_locked = l }

  -- The return from `loop`.
  abbrev leave : Bool → ThreadPool J → Progress (Worker J × ThreadPool J)
  leave lock_held p = stand left lock_held (record p { departed = p.departed + 1 })

  abbrev pub take_job : List J → ThreadPool J → Progress (Worker J × ThreadPool J)
  take_job [] p = stand at_head false (with_lock false p)
  take_job (j ∷ js) p =
      stand (running j) false
        (record p { job_queue = js; is_locked = false; started = p.started ++ j ∷ [] })

  -- `process_job_unsafe`, up to the job's run()
  unfoldable pub process_job_unsafe : Bool → ThreadPool J → Progress (Worker J × ThreadPool J)
  process_job_unsafe lock_held p = if lock_held then take_job p.job_queue p else aborts

  -- pthread_mutex_lock, which the thread waits in while the mutex is held
  abbrev pub try_lock : Point J → ThreadPool J → Progress (Worker J × ThreadPool J)
  try_lock point p = if p.is_locked then waits else stand point true (with_lock true p)

  abbrev lock_or_leave : Call → Bool → ThreadPool J → Progress (Worker J × ThreadPool J)
  lock_or_leave c true p = stand looking true p
  lock_or_leave succeeds false p = try_lock looking p
  lock_or_leave fails false p = leave false p

  -- The first test on the queue: where it is empty the thread waits, and gives the mutex back.
  abbrev pub look : Bool → List J → ThreadPool J → Progress (Worker J × ThreadPool J)
  look lock_held [] p = stand waiting lock_held (with_lock false p)
  look lock_held (j ∷ js) p = process_job_unsafe lock_held p

  abbrev pub look_again : Bool → List J → ThreadPool J → Progress (Worker J × ThreadPool J)
  look_again lock_held [] p = stand at_head false (with_lock false p)
  look_again lock_held (j ∷ js) p = process_job_unsafe lock_held p

  -- `loop`, from one point to the next
  unfoldable pub loop_from :
      Call → Point J → Bool → ThreadPool J → Progress (Worker J × ThreadPool J)
  unfolding process_job_unsafe
  loop_from c at_head lock_held p =
      if p.is_destroying then leave lock_held p else stand locking lock_held p
  loop_from c locking lock_held p = lock_or_leave c lock_held p
  loop_from c looking lock_held p = look lock_held p.job_queue p
  loop_from succeeds waiting lock_held p = try_lock woken p
  loop_from fails waiting lock_held p = aborts
  loop_from c woken lock_held p = look_again lock_held p.job_queue p
  loop_from c (running j) lock_held p = stand at_head lock_held p
  loop_from c left lock_held p = waits

  -- `add_thread`, up to what pthread_create returned: the new thread may run from here on.
  unfoldable pub create_thread : Call → ThreadPool J → ThreadPool J
  create_thread succeeds p = record p {
    uncounted = suc p.uncounted;
    threads = p.threads ++ record { point = at_head; lock_held = false } ∷ [];
  }
  create_thread fails p = p

  abbrev pub count_one : ℕ → ThreadPool J → Progress (ThreadPool J)
  count_one zero p = waits
  count_one (suc n) p = moves (record p { uncounted = n; counted = p.counted + 1 })

  -- `m_num_threads++` in `add_thread`, behind a pthread_create that succeeded
  unfoldable pub count_thread : ThreadPool J → Progress (ThreadPool J)
  count_thread p = count_one p.uncounted p

  -- The whole of `add_thread`, where no other thread comes between.
  unfoldable pub add_thread : Call → ThreadPool J → ThreadPool J
  add_thread succeeds p = record p {
    counted = p.counted + 1;
    threads = p.threads ++ record { point = at_head; lock_held = false } ∷ [];
  }
  add_thread fails p = p

  -- push_back inside `add_job`; where there is no memory for it the job is dropped.
  abbrev pub push_back : Call → J → ThreadPool J → ℕ × ThreadPool J
  push_back succeeds j p =
      (0, record p { job_queue = p.job_queue ++ j ∷ []; added = p.added ++ j ∷ [] })
  push_back fails j p = (1, p)

  -- `add_job`, from its lock to its unlock; a null pointer is no job. A lock that fails ends the
  -- process by assert(0).
  unfoldable pub add_job : Posting → Option J → ThreadPool J → Progress (ℕ × ThreadPool J)
  add_job c none p = moves (0, p)
  add_job posts (some j) p = if p.is_locked then waits else moves (push_back succeeds j p)
  add_job no_memory (some j) p = if p.is_locked then waits else moves (push_back fails j p)
  add_job no_lock (some j) p = aborts

  -- `destroy`, before its loop; the loop ends when `m_num_threads` is 0.
  unfoldable pub destroy : ThreadPool J → ThreadPool J
  destroy p = record p { is_destroying = true }
