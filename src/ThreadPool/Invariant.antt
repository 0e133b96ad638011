-- ===== src/ThreadPool/Invariant.antt =====
-- The steps of a pool keep its invariant: one thread at most has the mutex, the threads are counted,
-- and the jobs leave the queue in their order.
use ns1_interview_redis.Prelude.{
  ℕ, zero, suc, ◌+◌, ◌≡◌, false, Option, none, some, List, [], ◌∷◌, ◌++◌, refl, arith, All,
  All-append, append_assoc, ap, sym, ◌∙◌,
}
use ns1_interview_redis.ThreadPool.{
  Call, succeeds, fails, at_head, Worker, ThreadPool, loop_from, create_thread, count_one,
  count_thread, Posting, posts, no_memory, no_lock, add_job, destroy, push_back, new_pool,
}
use ns1_interview_redis.ThreadPool.Steps.{
  Event, start_thread, count, add, go_on, begin_destroy, advance, with_threads, step,
}
use ns1_interview_redis.ThreadPool.Counting.{
  holds, stays, IsPlaced, holders, staying, IsCounted, Moved, Moved-and_then, if_free,
}
use ns1_interview_redis.ThreadPool.Loop.{IsRight, IsCounted-eq, loop_from-IsRight}

-- A post whose lock fails aborts.
abbrev pub posting_call : Posting → Call
posting_call no_lock = fails
posting_call _ = succeeds

abbrev AreRight : {J : Type 0} → ℕ → ℕ → List (Worker J) × ThreadPool J → Type 0
AreRight k n (ws, p) = All IsPlaced ws × IsCounted (holders ws + k) (staying ws + n) p

module _ {J : Type 0} where
  advance-AreRight :
      (c : Call) (i k n : ℕ) (ws : List (Worker J)) (p : ThreadPool J)
      → AreRight k n (ws, p)
      → Moved c (AreRight k n) (advance c i ws p)
  advance-AreRight c i k n [] p h = tt
  advance-AreRight c zero k n (w ∷ ws) p (placed, h) =
      let here : Moved c (IsRight (holders ws + k) (staying ws + n))
          (loop_from c w.point w.lock_held p) =
        rw placed.0 (
          loop_from-IsRight (holders ws + k) (staying ws + n) p c w.point
            (IsCounted-eq (omega arith) (omega arith) h)) in
      Moved-and_then (AreRight k n) c (loop_from c w.point w.lock_held p) (λ r. (r.0 ∷ ws, r.1))
        here λ r right. ((right.0, placed.1), IsCounted-eq (omega arith) (omega arith) right.1)
  advance-AreRight c (suc i) k n (w ∷ ws) p (placed, h) =
      let there =
        advance-AreRight c i (holds w.point + k) (stays w.point + n) ws p
          (placed.1, IsCounted-eq (omega arith) (omega arith) h) in
      Moved-and_then (AreRight k n) c (advance c i ws p) (λ r. (w ∷ r.0, r.1)) there
        λ r right. ((placed.0, right.0), IsCounted-eq (omega arith) (omega arith) right.1)

  -- The invariant of a pool.
  pub record IsValid (p : ThreadPool J) : Type 0 where
    pub placed : All IsPlaced p.threads
    pub counted : IsCounted (holders p.threads) (staying p.threads) p

  pub new_pool-IsValid : IsValid new_pool
  new_pool-IsValid = record {
    placed = tt;
    counted = record { locks = refl; counts = refl; order = refl };
  }

  abbrev pub event_call : Event J → Call
  event_call (go_on c i) = c
  event_call (add c job) = posting_call c
  event_call _ = succeeds

  abbrev fresh_worker : Worker J
  fresh_worker = record { point = at_head; lock_held = false }

  holders-append : (ws : List (Worker J)) → holders (ws ++ fresh_worker ∷ []) ≡ holders ws
  holders-append [] = refl
  holders-append (w ∷ ws) = rw (holders-append ws)

  staying-append : (ws : List (Worker J)) → staying (ws ++ fresh_worker ∷ []) ≡ staying ws + 1
  staying-append [] = refl
  staying-append (w ∷ ws) = omega (arith, staying-append ws)

  create_thread-IsValid : (c : Call) (p : ThreadPool J) → IsValid p → IsValid (create_thread c p)
  unfolding create_thread
  create_thread-IsValid succeeds p v = record {
    placed = All-append IsPlaced p.threads (fresh_worker ∷ []) v.placed (refl, tt);
    counted = record {
      locks = holders-append p.threads ∙ v.counted.locks;
      counts = omega (arith, staying-append p.threads, v.counted.counts);
      order = v.counted.order;
    };
  }
  create_thread-IsValid fails p v = v

  count_one-IsValid :
      (n : ℕ) (p : ThreadPool J)
      → p.uncounted ≡ n
      → IsValid p
      → Moved succeeds IsValid (count_one n p)
  count_one-IsValid zero p e v = tt
  count_one-IsValid (suc n) p e v = record {
    placed = v.placed;
    counted = record {
      locks = v.counted.locks;
      counts = omega (arith, e, v.counted.counts);
      order = v.counted.order;
    };
  }

  push_back-IsValid :
      (c : Call) (j : J) (p : ThreadPool J) → IsValid p → IsValid (push_back c j p).1
  push_back-IsValid succeeds j p v = record {
    placed = v.placed;
    counted = record {
      locks = v.counted.locks;
      counts = v.counted.counts;
      order =
          sym (append_assoc p.started p.job_queue (j ∷ [])) ∙ ap (λ q. q ++ j ∷ []) v.counted.order;
    };
  }
  push_back-IsValid fails j p v = v

  add_job-IsValid :
      (c : Posting) (job : Option J) (p : ThreadPool J)
      → IsValid p
      → Moved (posting_call c) (λ r. IsValid r.1) (add_job c job p)
  unfolding add_job
  add_job-IsValid c none p v = v
  add_job-IsValid posts (some j) p v =
      if_free (λ r. IsValid r.1) succeeds p.is_locked (push_back-IsValid succeeds j p v)
  add_job-IsValid no_memory (some j) p v =
      if_free (λ r. IsValid r.1) succeeds p.is_locked (push_back-IsValid fails j p v)
  add_job-IsValid no_lock (some j) p v = tt

  with_threads-IsValid :
      (p : ThreadPool J) (r : List (Worker J) × ThreadPool J)
      → AreRight 0 0 r
      → IsValid (with_threads r)
  with_threads-IsValid p r (placed, counted) = record {
    placed = placed;
    counted = record {
      locks = omega (arith, counted.locks);
      counts = omega (arith, counted.counts);
      order = counted.order;
    };
  }

  destroy-IsValid : (p : ThreadPool J) → IsValid p → IsValid (destroy p)
  unfolding destroy
  destroy-IsValid p v = record {
    placed = v.placed;
    counted = record {
      locks = v.counted.locks;
      counts = v.counted.counts;
      order = v.counted.order;
    };
  }

  pub step-IsValid :
      (e : Event J) (p : ThreadPool J) → IsValid p → Moved (event_call e) IsValid (step e p)
  unfolding step count_thread
  step-IsValid (start_thread c) p v = create_thread-IsValid c p v
  step-IsValid count p v = count_one-IsValid p.uncounted p refl v
  step-IsValid (add c job) p v =
      Moved-and_then IsValid (posting_call c) (add_job c job p) _ (add_job-IsValid c job p v)
        λ r right. right
  step-IsValid (go_on c i) p v =
      Moved-and_then IsValid c (advance c i p.threads p) with_threads
        (advance-AreRight c i 0 0 p.threads p
          (v.placed, IsCounted-eq (omega arith) (omega arith) v.counted))
        (with_threads-IsValid p)
  step-IsValid begin_destroy p v = destroy-IsValid p v
