-- ===== src/ThreadPool/Counting.antt =====
-- Which threads of a pool hold the mutex of the queue, and which have not left.
use ns1_interview_redis.Prelude.{ℕ, ◌+◌, ◌≡◌, Bool, true, false, List, [], ◌∷◌, ◌++◌, if◌then◌else◌}
use ns1_interview_redis.ThreadPool.{
  Call, succeeds, fails, Point, looking, waiting, woken, left, Worker, ThreadPool, Progress, moves,
  waits, aborts, and_then,
}

abbrev pub holds : {J : Type 0} → Point J → ℕ
holds looking = 1
holds woken = 1
holds _ = 0

abbrev pub stays : {J : Type 0} → Point J → ℕ
stays left = 0
stays _ = 1

-- The value that `lock_held` must have at a point. A thread in pthread_cond_timedwait holds no
-- mutex, and its variable is set all the same.
abbrev pub claims : {J : Type 0} → Point J → Bool
claims looking = true
claims waiting = true
claims woken = true
claims _ = false

abbrev pub IsPlaced : {J : Type 0} → Worker J → Type 0
IsPlaced w = w.lock_held ≡ claims w.point

abbrev pub holders : {J : Type 0} → List (Worker J) → ℕ
holders [] = 0
holders (w ∷ ws) = holds w.point + holders ws

abbrev pub staying : {J : Type 0} → List (Worker J) → ℕ
staying [] = 0
staying (w ∷ ws) = stays w.point + staying ws

abbrev pub held : Bool → ℕ
held true = 1
held false = 0

-- `h` threads hold the mutex, as the pool has it; `n` have not left, which is `m_num_threads` and those
-- that are not counted yet; and the jobs that were
-- started and those in the queue are the jobs added, in their order.
pub record IsCounted {J : Type 0} (h n : ℕ) (p : ThreadPool J) : Type 0 where
  pub locks : h ≡ held p.is_locked
  pub counts : n + p.departed ≡ p.counted + p.uncounted
  pub order : p.started ++ p.job_queue ≡ p.added

-- What holds of a result: a thread aborts only where a call failed.
abbrev pub Moved : {A : Type 0} → Call → (A → Type 0) → Progress A → Type 0
Moved c P (moves a) = P a
Moved c P waits = Unit
Moved succeeds P aborts = ⊥
Moved fails P aborts = Unit

pub Moved-and_then :
    {A B : Type 0} {P : A → Type 0} (Q : B → Type 0) (c : Call) (r : Progress A) (f : A → B)
    → Moved c P r
    → ((a : A) → P a → Q (f a))
    → Moved c Q (and_then r f)
Moved-and_then Q c (moves a) f h g = g a h
Moved-and_then Q c waits f h g = tt
Moved-and_then Q succeeds aborts f h g = absurd h
Moved-and_then Q fails aborts f h g = tt

pub if_free :
    {A : Type 0} (P : A → Type 0) {a : A} (c : Call) (b : Bool)
    → P a
    → Moved c P (if b then waits else moves a)
if_free P c true h = tt
if_free P c false h = h
