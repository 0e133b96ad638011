-- ===== src/Server/Threads/Taking.antt =====
-- The states of the ready sockets in a queue: each is there once.
use ns1_interview_redis.Prelude.{
  ℕ, ◌≡◌, ◌≢◌, refl, sym, ap, true, List, [], ◌∷◌, ◌==◌, ==_iff, arith, Bool-cases, inl, inr, All,
  map,
}
use mathlib.Core.Path.{subst}
use ns1_interview_redis.Server.Effect.{Pointer, contains}
use ns1_interview_redis.Server.ReadySets.{IsDistinct}
use ns1_interview_redis.Server.Threads.Places.{jobs_in}

pub All-contains : (P : ℕ → Type 0) (k : ℕ) (xs : List ℕ) → All P xs → contains k xs ≡ true → P k
All-contains P k [] h e = cc
All-contains P k (x ∷ xs) h e = elim (Bool-cases (x == k)) [
  | inl same ↦ subst P ((==_iff x k).0 same) h.0
  | inr other ↦ All-contains P k xs h.1 (ground (arith, e, other))
]

module _ (f : ℕ → Pointer) (q k : ℕ) where
  pub none_taken :
      (fds : List ℕ)
      → All (λ j. f j ≡ q → j ≡ k) fds
      → All (λ j. k ≢ j) fds
      → All (λ j. f j ≢ q) fds
  none_taken [] own ne = tt
  none_taken (j ∷ fds) own ne = (λ e. ne.0 (sym (own.0 e)), none_taken fds own.1 ne.1)

  pub jobs_in-none : (fds : List ℕ) → All (λ j. f j ≢ q) fds → jobs_in q (map f fds) ≡ 0
  jobs_in-none [] ne = refl
  jobs_in-none (j ∷ fds) ne = ground (arith, jobs_in-none fds ne.1, ne.0)

  pub jobs_in-taken :
      (fds : List ℕ)
      → IsDistinct fds
      → All (λ j. f j ≡ q → j ≡ k) fds
      → f k ≡ q
      → contains k fds ≡ true
      → jobs_in q (map f fds) ≡ 1
  jobs_in-taken [] d own e there = cc
  jobs_in-taken (j ∷ fds) d own e there = elim (Bool-cases (j == k)) [
    | inl here ↦
        let same : j ≡ k = (==_iff j k).0 here in
        let rest =
          jobs_in-none fds (none_taken fds own.1 (subst (λ j. All (λ i. j ≢ i) fds) same d.0)) in
        ground (arith, rest, e, ap f same)
    | inr other ↦
        ground (arith, jobs_in-taken fds d.1 own.1 e (ground (arith, there, other)), own.0, other)
  ]
