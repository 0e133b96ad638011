-- ===== src/ThreadPool/Factory.antt =====
-- src/thread_pool.cpp: `ThreadPoolFactory::create_thread_pool`.
use ns1_interview_redis.Prelude.{
  ℕ, zero, suc, ◌+◌, ◌<◌, ◌≤◌, ◌≡◌, ◌≢◌, ◌==◌, Bool-cases, ◌⊎◌, inl, inr, refl, ap, ◌∙◌, Option,
  none, some, arith, List, [], ◌∷◌, ◌++◌, length,
}
use mathlib.Core.Path.{subst}
use ns1_interview_redis.ThreadPool.{
  Call, succeeds, fails, ThreadPool, new_pool, add_thread, create_thread, count_thread, destroy,
}
use ns1_interview_redis.ThreadPool.Steps.{start_thread, count, step, Reached, fresh, stepped}

-- What `create_thread_pool` comes to: a pool, or, with a null pointer to return, the `delete` of one.
-- ~ThreadPool() calls `destroy`, in whose loop it waits for the threads; the pool is as it is there.
pub data Made (J : Type 0) : Type 0 where
  made : ThreadPool J → Made J
  deleting : ThreadPool J → Made J

-- The pointer that `create_thread_pool` returns.
abbrev pub pointer : {J : Type 0} → Made J → Option (ThreadPool J)
pointer (made p) = some p
pointer (deleting p) = none

-- What the loop comes to behind one `add_thread`.
abbrev pub after_adding : {J : Type 0} → Call → ThreadPool J → Made J → Made J
after_adding succeeds p rest = rest
after_adding fails p rest = deleting (destroy p)

module _ {J : Type 0} (call : ℕ → Call) where
  -- The loop from the thread `i` on, over what pthread_create returns for each.
  unfoldable pub add_threads : ℕ → ℕ → ThreadPool J → Made J
  unfolding add_thread destroy
  add_threads zero i p = made p
  add_threads (suc n) i p =
      let rest = add_threads n (i + 1) (add_thread (call i) p) in after_adding (call i) p rest

  unfoldable pub create_thread_pool : ℕ → Made J
  unfolding add_threads
  create_thread_pool num_threads = add_threads num_threads 0 new_pool

length-snoc : {A : Type 0} (xs : List A) (x : A) → length (xs ++ x ∷ []) ≡ length xs + 1
length-snoc [] x = refl
length-snoc (y ∷ xs) x = omega (arith, length-snoc xs x)

==-cases : (i j : ℕ) → (i ≡ j) ⊎ (i ≢ j)
==-cases i j = elim (Bool-cases (i == j)) [
  | inl e ↦ inl (ground arith)
  | inr e ↦ inr λ e'. ground arith
]

Call-cases : (c : Call) → (c ≡ succeeds) ⊎ (c ≡ fails)
Call-cases succeeds = inl refl
Call-cases fails = inr refl

module _ {J : Type 0} where
  -- The pool with `n` more threads: its own steps lead to it, and its queue is as it was.
  pub record IsStarted (n : ℕ) (p p' : ThreadPool J) : Type 0 where
    pub reached : Reached p'
    pub counts : p'.counted ≡ p.counted + n
    pub departed_kept : p'.departed ≡ p.departed
    pub uncounted_kept : p'.uncounted ≡ p.uncounted
    pub creates : length p'.threads ≡ length p.threads + n
    pub queue_kept : p'.job_queue ≡ p.job_queue

  add_thread-Reached : (c : Call) (p : ThreadPool J) → Reached p → Reached (add_thread c p)
  unfolding add_thread step create_thread count_thread
  add_thread-Reached succeeds p r = stepped count (stepped (start_thread succeeds) r refl) refl
  add_thread-Reached fails p r = r

  add_thread-IsStarted :
      (n : ℕ) (p p' : ThreadPool J)
      → IsStarted n (add_thread succeeds p) p'
      → IsStarted (suc n) p p'
  unfolding add_thread
  add_thread-IsStarted n p p' s = record {
    reached = s.reached;
    counts = ground (arith, s.counts);
    departed_kept = s.departed_kept;
    uncounted_kept = s.uncounted_kept;
    creates = omega (arith, s.creates, length-snoc p.threads _);
    queue_kept = s.queue_kept;
  }

  nothing-IsStarted : (p : ThreadPool J) → Reached p → IsStarted 0 p p
  nothing-IsStarted p r = record {
    reached = r;
    counts = omega arith;
    departed_kept = refl;
    uncounted_kept = refl;
    creates = omega arith;
    queue_kept = refl;
  }

module _ {J : Type 0} (call : ℕ → Call) where
  -- The loop stopped at the thread `j`, with those before it started.
  record IsStopped (n i : ℕ) (p : ThreadPool J) (result : Made J) : Type 0 where
    stop : ℕ
    started : ℕ
    at_stop : i + started ≡ stop
    inside : started < n
    bad : call stop ≡ fails
    pool : ThreadPool J
    is_started : IsStarted started p pool
    runs : result ≡ deleting (destroy pool)

  add_threads_cases :
      (n i : ℕ) (p : ThreadPool J)
      → Reached p
      → (((j : ℕ) → i ≤ j → j < i + n → call j ≡ succeeds)
          × (p' : ThreadPool J) × (add_threads call n i p ≡ made p')
          × IsStarted n p p')
        ⊎ IsStopped n i p (add_threads call n i p)
  unfolding add_threads
  add_threads_cases zero i p r =
      inl ((λ j low high. absurd (omega (arith, low, high))), p, refl, nothing-IsStarted p r)
  add_threads_cases (suc n) i p r = elim (Call-cases (call i)) [
    | inr bad ↦ inr (record {
      stop = i;
      started = 0;
      at_stop = omega arith;
      inside = omega arith;
      bad = bad;
      pool = p;
      is_started = nothing-IsStarted p r;
      runs = rw bad refl;
    })
    | inl good ↦
        let next = add_threads call n (i + 1) (add_thread (call i) p) in
        let on : after_adding (call i) p next ≡ next = ap (λ c. after_adding c p next) good in
        elim (add_threads_cases n (i + 1) (add_thread (call i) p)
          (add_thread-Reached (call i) p r)) [
            | inl (all, p', runs, s) ↦ inl (
              (λ j low high. elim (==-cases i j) [
                | inl same ↦ subst (λ j. call j ≡ succeeds) same good
                | inr ne ↦ all j (omega (arith, low, ne)) (omega (arith, high))
              ]),
              p',
              on ∙ runs,
              add_thread-IsStarted n p p' (subst (λ c. IsStarted n (add_thread c p) p') good s),
            )
            | inr s ↦ inr (record {
              stop = s.stop;
              started = suc s.started;
              at_stop = omega (arith, s.at_stop);
              inside = omega (arith, s.inside);
              bad = s.bad;
              pool = s.pool;
              is_started =
                  add_thread-IsStarted s.started p s.pool
                    (subst (λ c. IsStarted s.started (add_thread c p) s.pool) good s.is_started);
              runs = on ∙ s.runs;
            })
          ]
  ]

  -- A pool of `num_threads` threads comes out where pthread_create succeeds for each: its steps
  -- lead to it from a new pool, it has that many threads, m_num_threads is the number, and its queue
  -- is empty. Where it fails for one of them, the first, a null pointer comes out, and the pool with
  -- the threads before that one, to which steps lead as well, is deleted: ~ThreadPool() waits in the
  -- loop of `destroy`.
  pub create_thread_pool_cases :
      (num_threads : ℕ)
      → (((j : ℕ) → j < num_threads → call j ≡ succeeds)
          × (p : ThreadPool J) × (create_thread_pool call num_threads ≡ made p)
          × IsStarted num_threads new_pool p)
        ⊎ ((j : ℕ) × (j < num_threads)
            × (call j ≡ fails)
            × (p : ThreadPool J) × (create_thread_pool call num_threads ≡ deleting (destroy p))
            × IsStarted j new_pool p)
  unfolding create_thread_pool
  create_thread_pool_cases num_threads = elim (add_threads_cases num_threads 0 new_pool fresh) [
    | inl (all, p, runs, s) ↦
        inl ((λ j high. all j (omega arith) (omega (arith, high))), p, runs, s)
    | inr s ↦
        let same : s.started ≡ s.stop = omega (arith, s.at_stop) in
        inr (
          s.stop,
          omega (arith, same, s.inside),
          s.bad,
          s.pool,
          s.runs,
          subst (λ k. IsStarted k new_pool s.pool) same s.is_started,
        )
  ]
