-- ===== src/Commands/Partition.antt =====
-- Which keys have a data store: `get_partition` against the bounds of `m_datastore`.
use ns1_interview_redis.Prelude.{
  ℕ, ◌+◌, ◌-◌, ◌%◌, ◌<◌, ◌≡◌, ◌↔◌, ◌⊎◌, inl, inr, refl, [], ◌∷◌, arith, All, ◌==◌, Bool-cases, ltb,
}
use ns1_interview_redis.Prelude.Int.{ℤ, pos, negsuc, neg, ◌%ℤ◌}
use ns1_interview_redis.Prelude.Bytes.{Bytes, c_str}
use ns1_interview_redis.Commands.{get_partition, num_datastores}

-- An index of the array `m_datastore`.
abbrev pub IsIndex : ℤ → Type 0
IsIndex (pos i) = i < num_datastores
IsIndex (negsuc i) = ⊥

-- A key that is empty or begins with an ASCII byte, or whose first byte is 256 - 10 k.
abbrev pub IsPlaced : Bytes → Type 0
IsPlaced [] = Unit
IsPlaced (c ∷ cs) = (c < 128) ⊎ ((256 - c) % 10 ≡ 0)

neg-IsIndex : (m : ℕ) → IsIndex (neg m) ↔ (m ≡ 0)
neg-IsIndex m = elim (Bool-cases (ltb 0 m)) [
  | inl positive ↦ rw positive (λ h. absurd h, λ e. ground arith)
  | inr none_left ↦ rw none_left (λ _. ground arith, λ _. omega arith)
]

neg_rem-IsIndex :
    (d c : ℕ) → 0 < d → ¬ (c < 128) → IsIndex (neg d %ℤ num_datastores) ↔ ((c < 128) ⊎ (d % 10 ≡ 0))
unfolding ◌%ℤ◌
neg_rem-IsIndex d c h big =
    let e : neg d ≡ negsuc (d - 1) = ground arith in
    let e' : d - 1 + 1 ≡ d = omega arith in
    let (to, from) = neg-IsIndex (d % 10) in
    rw e (rw e' (λ i. inr (to i), λ o. from (ground arith)))

-- For every string of bytes: the partition is an index of `m_datastore` exactly when the string is
-- empty, or begins with a byte below 128, or with a byte c where 256 - c is a multiple of 10.
pub get_partition-IsIndex :
    (k : Bytes) → All (λ c. c < 256) k → IsIndex (get_partition k) ↔ IsPlaced k
unfolding get_partition
get_partition-IsIndex [] h = (λ _. tt, λ _. omega arith)
get_partition-IsIndex (c ∷ cs) h = elim (Bool-cases (ltb c 128)) [
  | inl ascii ↦ rw ascii (λ _. inl (ground arith), λ _. omega arith)
  | inr high ↦ rw high (neg_rem-IsIndex (256 - c) c (omega arith) (ground arith))
]

-- The data store is chosen alike for a string and for what its `c_str()` passes on.
pub get_partition-c_str : (k : Bytes) → get_partition (c_str k) ≡ get_partition k
unfolding get_partition c_str
get_partition-c_str [] = refl
get_partition-c_str (c ∷ cs) = elim (Bool-cases (c == 0)) [
  | inl nul ↦ (let e : c ≡ 0 = ground arith in rw e)
  | inr other ↦ rw other
]
