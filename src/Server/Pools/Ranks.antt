-- ===== src/Server/Pools/Ranks.antt =====
-- The order in which the destructor comes to the pools.
use ns1_interview_redis.Prelude.{
  ℕ, zero, suc, ◌+◌, ◌*◌, ◌≤◌, ◌≡◌, some, refl, sym, ◌∙◌, ap, arith, ◌⊎◌, inl, inr,
}
use ns1_interview_redis.ThreadPool.{ThreadPool}
use ns1_interview_redis.Server.Pools.{
  PoolName, read_threadpool, processing_threadpool, write_threadpool, parse_and_run_threadpool,
  Stage, before_test, in_destroy, before_delete, behind, Pools, pool_of, with_pool,
}

abbrev pub rank : PoolName → ℕ
rank read_threadpool = 0
rank processing_threadpool = 1
rank write_threadpool = 2
rank parse_and_run_threadpool = 3

abbrev name_of : ℕ → PoolName
name_of zero = read_threadpool
name_of (suc zero) = processing_threadpool
name_of (suc (suc zero)) = write_threadpool
name_of _ = parse_and_run_threadpool

name_of-rank : (n : PoolName) → name_of (rank n) ≡ n
name_of-rank read_threadpool = refl
name_of-rank processing_threadpool = refl
name_of-rank write_threadpool = refl
name_of-rank parse_and_run_threadpool = refl

pub rank_injective : (m n : PoolName) → rank m ≡ rank n → m ≡ n
rank_injective m n e = sym (name_of-rank m) ∙ (ap name_of e ∙ name_of-rank n)

abbrev pub place : Stage → ℕ
place (before_test n) = 2 * rank n
place (in_destroy n) = 2 * rank n + 1
place before_delete = 8

pub place-behind : (n : PoolName) → place (behind n) ≡ 2 * rank n + 2
place-behind read_threadpool = refl
place-behind processing_threadpool = refl
place-behind write_threadpool = refl
place-behind parse_and_run_threadpool = refl

pub rank-bound : (n : PoolName) → rank n ≤ 3
rank-bound read_threadpool = omega arith
rank-bound processing_threadpool = omega arith
rank-bound write_threadpool = omega arith
rank-bound parse_and_run_threadpool = omega arith

module _ {J : Type 0} where
  pub with_pool-cases :
      (m n : PoolName) (pools : Pools J) (p q : ThreadPool J)
      → pool_of m (with_pool n p pools) ≡ some q
      → ((rank m ≡ rank n) × (p ≡ q)) ⊎ (pool_of m pools ≡ some q)
  with_pool-cases read_threadpool read_threadpool pools p q e = inl (refl, cc)
  with_pool-cases read_threadpool processing_threadpool pools p q e = inr e
  with_pool-cases read_threadpool write_threadpool pools p q e = inr e
  with_pool-cases read_threadpool parse_and_run_threadpool pools p q e = inr e
  with_pool-cases processing_threadpool read_threadpool pools p q e = inr e
  with_pool-cases processing_threadpool processing_threadpool pools p q e = inl (refl, cc)
  with_pool-cases processing_threadpool write_threadpool pools p q e = inr e
  with_pool-cases processing_threadpool parse_and_run_threadpool pools p q e = inr e
  with_pool-cases write_threadpool read_threadpool pools p q e = inr e
  with_pool-cases write_threadpool processing_threadpool pools p q e = inr e
  with_pool-cases write_threadpool write_threadpool pools p q e = inl (refl, cc)
  with_pool-cases write_threadpool parse_and_run_threadpool pools p q e = inr e
  with_pool-cases parse_and_run_threadpool read_threadpool pools p q e = inr e
  with_pool-cases parse_and_run_threadpool processing_threadpool pools p q e = inr e
  with_pool-cases parse_and_run_threadpool write_threadpool pools p q e = inr e
  with_pool-cases parse_and_run_threadpool parse_and_run_threadpool pools p q e = inl (refl, cc)
