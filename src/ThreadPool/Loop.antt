-- ===== src/ThreadPool/Loop.antt =====
-- `ThreadPool::loop` from one point to the next: it keeps the thread and the counts right.
use ns1_interview_redis.Prelude.{
  ℕ, ◌+◌, ◌≡◌, Bool, true, false, List, [], ◌∷◌, ◌++◌, refl, arith, append_assoc, Bool-cases, inl,
  inr, ap, sym, ◌∙◌,
}
use ns1_interview_redis.ThreadPool.{
  Call, succeeds, fails, Point, at_head, locking, looking, waiting, woken, left, running, Worker,
  ThreadPool, loop_from, process_job_unsafe, look, look_again, take_job, try_lock,
}
use ns1_interview_redis.ThreadPool.Counting.{holds, stays, claims, IsPlaced, held, IsCounted, Moved}

-- A thread and the pool, where the other threads hold the mutex `k` times and `n` have not left.
abbrev pub IsRight : {J : Type 0} → ℕ → ℕ → Worker J × ThreadPool J → Type 0
IsRight k n (w, p) = IsPlaced w × IsCounted (holds w.point + k) (stays w.point + n) p

pub IsCounted-eq :
    {J : Type 0} {h h' n n' : ℕ} {p : ThreadPool J}
    → h ≡ h'
    → n ≡ n'
    → IsCounted h n p
    → IsCounted h' n' p
IsCounted-eq e e' c = record {
  locks = sym e ∙ c.locks;
  counts = omega (arith, e', c.counts);
  order = c.order;
}

held-suc : (k : ℕ) (b : Bool) → 1 + k ≡ held b → 0 + k ≡ held false
held-suc k true e = omega arith
held-suc k false e = absurd (omega arith)

module _ {J : Type 0} (k n : ℕ) (p : ThreadPool J) where
  take_job-IsRight :
      (c : Call) (queue : List J)
      → p.job_queue ≡ queue
      → IsCounted (1 + k) (1 + n) p
      → Moved c (IsRight k n) (take_job queue p)
  take_job-IsRight c [] e h =
      (refl, record { locks = held-suc k p.is_locked h.locks; counts = h.counts; order = h.order })
  take_job-IsRight c (j ∷ js) e h = (
    refl,
    record {
      locks = held-suc k p.is_locked h.locks;
      counts = h.counts;
      order = append_assoc p.started (j ∷ []) js ∙ (ap (λ q. p.started ++ q) (sym e) ∙ h.order);
    },
  )

  try_lock-IsRight :
      (c : Call) (point : Point J)
      → true ≡ claims point
      → 1 ≡ holds point
      → 1 ≡ stays point
      → IsCounted (0 + k) (1 + n) p
      → Moved c (IsRight k n) (try_lock point p)
  try_lock-IsRight c point claimed taken there h = elim (Bool-cases p.is_locked) [
    | inl e ↦ rw e tt
    | inr e ↦
        (let free = h.locks ∙ ap held e in
          rw e (
            claimed,
            record {
              locks = omega (arith, free, taken);
              counts = omega (arith, h.counts, there);
              order = h.order;
            },
          ))
  ]

  look-IsRight :
      (c : Call) (queue : List J)
      → p.job_queue ≡ queue
      → IsCounted (1 + k) (1 + n) p
      → Moved c (IsRight k n) (look true queue p)
  unfolding process_job_unsafe
  look-IsRight c [] e h =
      (refl, record { locks = held-suc k p.is_locked h.locks; counts = h.counts; order = h.order })
  look-IsRight c (j ∷ js) e h = take_job-IsRight c p.job_queue refl h

  look_again-IsRight :
      (c : Call) (queue : List J)
      → p.job_queue ≡ queue
      → IsCounted (1 + k) (1 + n) p
      → Moved c (IsRight k n) (look_again true queue p)
  unfolding process_job_unsafe
  look_again-IsRight c [] e h = take_job-IsRight c [] e h
  look_again-IsRight c (j ∷ js) e h = take_job-IsRight c p.job_queue refl h

  pub loop_from-IsRight :
      (c : Call) (point : Point J)
      → IsCounted (holds point + k) (stays point + n) p
      → Moved c (IsRight k n) (loop_from c point (claims point) p)
  unfolding loop_from
  loop_from-IsRight c at_head h = elim (Bool-cases p.is_destroying) [
    | inl e ↦
        rw e (refl, record { locks = h.locks; counts = ground (arith, h.counts); order = h.order })
    | inr e ↦ rw e (refl, record { locks = h.locks; counts = h.counts; order = h.order })
  ]
  loop_from-IsRight succeeds locking h = try_lock-IsRight succeeds looking refl refl refl h
  loop_from-IsRight fails locking h =
      (refl, record { locks = h.locks; counts = ground (arith, h.counts); order = h.order })
  loop_from-IsRight c looking h = look-IsRight c p.job_queue refl h
  loop_from-IsRight succeeds waiting h = try_lock-IsRight succeeds woken refl refl refl h
  loop_from-IsRight fails waiting h = tt
  loop_from-IsRight c woken h = look_again-IsRight c p.job_queue refl h
  loop_from-IsRight c left h = tt
  loop_from-IsRight c (running j) h = (refl, h)
