-- ===== src/Server/Pools/Deleting.antt =====
-- ~Orchestrator() comes to its deletes behind the last thread of each pool.
use ns1_interview_redis.Prelude.{
  ℕ, zero, suc, ◌+◌, ◌*◌, ◌≤◌, ◌≡◌, ◌≢◌, ◌==◌, Option, none, some, List, [], ◌∷◌, refl, sym, ◌∙◌,
  ap, arith, All, inl, inr, Bool-cases,
}
use mathlib.Core.Path.{subst}
use ns1_interview_redis.ThreadPool.{Call, Worker, ThreadPool, moves, waits, destroy, loop_from}
use ns1_interview_redis.ThreadPool.Steps.{go_on, add, begin_destroy, step, advance, stepped}
use ns1_interview_redis.ThreadPool.Steps
use ns1_interview_redis.ThreadPool.Factory.{
  create_thread_pool, create_thread_pool_cases, made, deleting, pointer,
}
use ns1_interview_redis.ThreadPool.Keeping.{go_on-uncounted}
use ns1_interview_redis.ThreadPool.Reachable.{HasLeft, destroy-HasLeft}
use ns1_interview_redis.ThreadPool.Ending.{add-IsSame}
use ns1_interview_redis.Server.Pools.{
  PoolName, read_threadpool, processing_threadpool, write_threadpool, parse_and_run_threadpool,
  Stage, before_test, in_destroy, before_delete, behind, Pools, pool_of, with_pool, new_pools, test,
  sleep, destruct, Reached, constructed, goes, adds, destructs,
}
use ns1_interview_redis.Server.Pools.Ranks.{
  rank, place, rank_injective, place-behind, rank-bound, with_pool-cases,
}

module _ {J : Type 0} where
  -- The pool at a rank: its own steps lead to it, no thread of it has still to be counted, and a destructor that is past it has waited for its
  -- last thread.
  record IsRight (place_now r : ℕ) (p : ThreadPool J) : Type 0 where
    reached : Steps.Reached p
    whole : p.uncounted ≡ 0
    gone : 2 * r + 2 ≤ place_now → p.counted ≡ p.departed

  abbrev AreRight : Stage → Pools J → Type 0
  AreRight s pools =
      (m : PoolName) (q : ThreadPool J) → pool_of m pools ≡ some q → IsRight (place s) (rank m) q

  -- The stage stays, and one pool is another.
  with_pool-AreRight :
      (s s' : Stage) (n : PoolName) (pools : Pools J) (p : ThreadPool J)
      → AreRight s pools
      → IsRight (place s') (rank n) p
      → ((m : ℕ) → 2 * m + 2 ≤ place s' → 2 * m + 2 ≤ place s)
      → AreRight s' (with_pool n p pools)
  with_pool-AreRight s s' n pools p right here before m q e =
      elim (with_pool-cases m n pools p q e) [
        | inl (same_rank, same) ↦
            subst (IsRight (place s') (rank m)) same
              (subst (λ r. IsRight (place s') r p) (sym same_rank) here)
        | inr there ↦
            (let old = right m q there in
              record {
                reached = old.reached;
                whole = old.whole;
                gone = λ past. old.gone (before (rank m) past);
              })
      ]

  waits_for_ever :
      (c : Call) (i : ℕ) (ws : List (Worker J)) (p : ThreadPool J)
      → All HasLeft ws
      → advance c i ws p ≡ waits
  unfolding loop_from
  waits_for_ever c i [] p gone = refl
  waits_for_ever c zero (w ∷ ws) p gone = rw gone.0 refl
  waits_for_ever c (suc i) (w ∷ ws) p gone = rw (waits_for_ever c i ws p gone.1) refl

  go_on-none :
      (c : Call) (i : ℕ) (p p' : ThreadPool J)
      → Steps.Reached p
      → p.uncounted ≡ 0
      → p.counted ≡ p.departed
      → step (go_on c i) p ≢ moves p'
  unfolding step
  go_on-none c i p p' r whole e runs =
      let stuck = waits_for_ever c i p.threads p (destroy-HasLeft p r whole e) in cc

  abbrev Comes : (Stage → Pools J → Type 0) → Option (Stage × Pools J) → Type 0
  Comes P none = Unit
  Comes P (some (s, pools)) = P s pools

  -- The destructor goes from before a pool, or from its loop, behind the pool.
  leave-AreRight :
      (s : Stage) (n : PoolName) (pools : Pools J)
      → 2 * rank n ≤ place s
      → ((q : ThreadPool J) → pool_of n pools ≡ some q → q.counted ≡ q.departed)
      → AreRight s pools
      → AreRight (behind n) pools
  leave-AreRight s n pools at gone right m q e =
      let old = right m q e in
      record {
        reached = old.reached;
        whole = old.whole;
        gone = λ past. elim (Bool-cases (rank m == rank n)) [
          | inl same ↦
              gone q (
                subst (λ m. pool_of m pools ≡ some q) (rank_injective m n (ground (arith, same))) e)
          | inr other ↦ old.gone (ground (arith, other, past, at, place-behind n))
        ];
      }

  test-AreRight :
      (n : PoolName) (k : Option (ThreadPool J)) (pools : Pools J)
      → pool_of n pools ≡ k
      → AreRight (before_test n) pools
      → Comes AreRight (test n k pools)
  unfolding destroy step
  test-AreRight n none pools e right =
      leave-AreRight (before_test n) n pools (omega arith) (λ q there. cc) right
  test-AreRight n (some p) pools e right =
      let old = right n p e in
      with_pool-AreRight (before_test n) (in_destroy n) n pools (destroy p) right
        (record {
          reached = stepped begin_destroy old.reached refl;
          whole = old.whole;
          gone = λ past. absurd (omega (arith, past));
        })
        λ m past. omega (arith, past)

  sleep-AreRight :
      (n : PoolName) (k : Option (ThreadPool J)) (pools : Pools J)
      → pool_of n pools ≡ k
      → AreRight (in_destroy n) pools
      → Comes AreRight (sleep n k pools)
  sleep-AreRight n none pools e right = tt
  sleep-AreRight n (some p) pools e right = elim (Bool-cases (p.counted == p.departed)) [
    | inl none_left ↦ rw none_left (
        leave-AreRight (in_destroy n) n pools (omega arith)
          (λ q there.
            let same : p ≡ q = cc in
            let all_left : p.counted ≡ p.departed = ground (arith, none_left) in
            subst (λ (p : ThreadPool J). p.counted ≡ p.departed) same all_left)
          right)
    | inr some_left ↦ rw some_left tt
  ]

  destruct-AreRight :
      (s : Stage) (pools : Pools J) → AreRight s pools → Comes AreRight (destruct s pools)
  unfolding destruct
  destruct-AreRight (before_test n) pools right = test-AreRight n (pool_of n pools) pools refl right
  destruct-AreRight (in_destroy n) pools right = sleep-AreRight n (pool_of n pools) pools refl right
  destruct-AreRight before_delete pools right = tt

  pointed : (p' p : ThreadPool J) → pointer (made p') ≡ some p → p' ≡ p
  pointed p' p e = cc

  null : (q p : ThreadPool J) → pointer (deleting q) ≢ some p
  null q p e = cc

  created-IsRight :
      (call : ℕ → Call) (r : ℕ) (p : ThreadPool J)
      → pointer (create_thread_pool call 8) ≡ some p
      → IsRight 0 r p
  created-IsRight call r p e = elim (create_thread_pool_cases {J = J} call 8) [
    | inl (all, p', runs, started) ↦
        (let same : p' ≡ p = pointed p' p (ap pointer (sym runs) ∙ e) in
          record {
            reached = subst Steps.Reached same started.reached;
            whole = subst (λ (p : ThreadPool J). p.uncounted ≡ 0) same started.uncounted_kept;
            gone = λ past. absurd (omega (arith, past));
          })
    | inr (j, low, bad, deleted, runs, _) ↦
        absurd (null (destroy deleted) p (ap pointer (sym runs) ∙ e))
  ]

  new_pools-AreRight :
      (call : PoolName → ℕ → Call) → AreRight (before_test read_threadpool) (new_pools call)
  new_pools-AreRight call read_threadpool q e = created-IsRight (call read_threadpool) 0 q e
  new_pools-AreRight call processing_threadpool q e =
      created-IsRight (call processing_threadpool) 1 q e
  new_pools-AreRight call write_threadpool q e = created-IsRight (call write_threadpool) 2 q e
  new_pools-AreRight call parse_and_run_threadpool q e =
      created-IsRight (call parse_and_run_threadpool) 3 q e

  Reached-AreRight : {s : Stage} {pools : Pools J} → Reached s pools → AreRight s pools
  Reached-AreRight (constructed call) = new_pools-AreRight call
  Reached-AreRight {s} (goes {pools = pools} {p} {p'} n c i r here runs) =
      let right = Reached-AreRight r in
      let old = right n p here in
      with_pool-AreRight s s n pools p' right
        (record {
          reached = stepped (go_on c i) old.reached runs;
          whole = go_on-uncounted c i p p' runs ∙ old.whole;
          gone = λ past. absurd (go_on-none c i p p' old.reached old.whole (old.gone past) runs);
        })
        λ m past. past
  Reached-AreRight {s} (adds {pools = pools} {p} {p'} n c job r here runs) =
      let right = Reached-AreRight r in
      let old = right n p here in
      let (_, _, counted, departed, uncounted) = add-IsSame c job p p' runs in
      with_pool-AreRight s s n pools p' right
        (record {
          reached = stepped (add c job) old.reached runs;
          whole = uncounted ∙ old.whole;
          gone = λ past. counted ∙ old.gone past ∙ sym departed;
        })
        λ m past. past
  Reached-AreRight (destructs {s} {s'} {pools} r runs) =
      subst (Comes AreRight) runs (destruct-AreRight s pools (Reached-AreRight r))

  -- When ~Orchestrator() comes to its deletes, every thread of every pool that was made has left its
  -- loop, whatever the threads did and whatever jobs were added to the pools up to then: no thread of
  -- a pool works on a pool that is deleted. `m_num_threads` is 0, so that the `destroy` in the pool's
  -- own destructor does not wait.
  pub Reached-HasLeft :
      (pools : Pools J) (n : PoolName) (p : ThreadPool J)
      → Reached before_delete pools
      → pool_of n pools ≡ some p
      → All HasLeft p.threads × (p.counted ≡ p.departed)
  Reached-HasLeft pools n p r here =
      let right = Reached-AreRight r n p here in
      let none_left = right.gone (omega (arith, rank-bound n)) in
      (destroy-HasLeft p right.reached right.whole none_left, none_left)
