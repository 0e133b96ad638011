-- ===== src/Server/Threads/Workers.antt =====
-- What a worker does to the places of the connections: it takes a job out of its queue, changes the
-- state of its connection, and queues it again, has it polled again, or closes it.
use ns1_interview_redis.Prelude.{
  ℕ, zero, suc, ◌+◌, ◌≡◌, ◌≢◌, refl, sym, true, false, Option, none, some, List, [], ◌∷◌, ◌==◌, ◌<◌,
  arith, if◌then◌else◌,
}
use ns1_interview_redis.Server.Effect.{Orchestrator, Pointer, contains}
use ns1_interview_redis.Server.Threads.{put_in_front, pick, leave_reads, leave_parses, leave_writes}
use ns1_interview_redis.Server.Threads.Places.{
  jobs_in, Stage, reading, parsing, writing, in_reads, in_parses, in_writes, Counts, IsRegistered,
  Finds, Place, gone, idle, busy, stuck, IsOrderly, IsOrderlyBut, Place-kept,
}

some_injective : {p q : ℕ} → some p ≡ some q → p ≡ q
some_injective e = cc

pub put_in_front_cases :
    (x : Pointer) (r : Option (Pointer × List Pointer)) {p : Pointer} {rest : List Pointer}
    → put_in_front x r ≡ some (p, rest)
    → (others : List Pointer) × (r ≡ some (p, others)) × (rest ≡ x ∷ others)
put_in_front_cases x none e = cc
put_in_front_cases x (some (q, others)) e = (others, cc, cc)

pub jobs_in-pick :
    (a i : ℕ) (jobs : List Pointer) {p : Pointer} {rest : List Pointer}
    → pick i jobs ≡ some (p, rest)
    → jobs_in a jobs ≡ (if p == a then 1 else 0) + jobs_in a rest
jobs_in-pick a i [] e = cc
jobs_in-pick a zero (x ∷ jobs) {p} {rest} e =
    let first : x ≡ p = cc in let others : jobs ≡ rest = cc in rw (first, others) (omega arith)
jobs_in-pick a (suc i) (x ∷ jobs) e =
    let (others, found, same) = put_in_front_cases x (pick i jobs) e in
    rw same (omega (arith, jobs_in-pick a i jobs found))

abbrev pub queue_of : Stage → Orchestrator → List Pointer
queue_of reading o = o.read_jobs
queue_of parsing o = o.parse_jobs
queue_of writing o = o.write_jobs

abbrev pub leave : Stage → List Pointer → Orchestrator → Orchestrator
leave reading = leave_reads
leave parsing = leave_parses
leave writing = leave_writes

record IsBusy (o : Orchestrator) (p : Pointer) (stage : Stage) : Type 0 where
  registered : IsRegistered o p
  hidden : contains (o.heap p).socket o.epoll_sockets ≡ false
  counts : Counts o p (in_reads stage) (in_parses stage) (in_writes stage)
  is_locked : (o.heap p).is_locked ≡ true
  finds : Finds stage (o.heap p)

-- A connection with a job in a queue is busy at that stage.
Place-IsBusy :
    (stage : Stage) {o : Orchestrator} {p : Pointer}
    → Place o p
    → 0 < jobs_in p (queue_of stage o)
    → IsBusy o p stage
Place-IsBusy reading (gone out c) some_job = absurd (omega arith)
Place-IsBusy parsing (gone out c) some_job = absurd (omega arith)
Place-IsBusy writing (gone out c) some_job = absurd (omega arith)
Place-IsBusy reading (idle there poll c rest) some_job = absurd (omega arith)
Place-IsBusy parsing (idle there poll c rest) some_job = absurd (omega arith)
Place-IsBusy writing (idle there poll c rest) some_job = absurd (omega arith)
Place-IsBusy reading (busy reading there poll c locked finds) some_job = record {
  registered = there;
  hidden = poll;
  counts = c;
  is_locked = locked;
  finds = finds;
}
Place-IsBusy reading (busy parsing there poll c locked finds) some_job = absurd (omega arith)
Place-IsBusy reading (busy writing there poll c locked finds) some_job = absurd (omega arith)
Place-IsBusy parsing (busy reading there poll c locked finds) some_job = absurd (omega arith)
Place-IsBusy parsing (busy parsing there poll c locked finds) some_job = record {
  registered = there;
  hidden = poll;
  counts = c;
  is_locked = locked;
  finds = finds;
}
Place-IsBusy parsing (busy writing there poll c locked finds) some_job = absurd (omega arith)
Place-IsBusy reading (stuck there poll c locked finds waits) some_job = absurd (omega arith)
Place-IsBusy parsing (stuck there poll c locked finds waits) some_job = absurd (omega arith)
Place-IsBusy writing (stuck there poll c locked finds waits) some_job = absurd (omega arith)
Place-IsBusy writing (busy reading there poll c locked finds) some_job = absurd (omega arith)
Place-IsBusy writing (busy parsing there poll c locked finds) some_job = absurd (omega arith)
Place-IsBusy writing (busy writing there poll c locked finds) some_job = record {
  registered = there;
  hidden = poll;
  counts = c;
  is_locked = locked;
  finds = finds;
}

taken_out :
    {o : Orchestrator} {p : Pointer} {stage : Stage} (r a w : List Pointer)
    → IsOrderly o
    → IsBusy o p stage
    → ((q : Pointer) → q ≢ p → Counts o q (jobs_in q r) (jobs_in q a) (jobs_in q w))
    → Counts (record o { read_jobs = r; parse_jobs = a; write_jobs = w }) p 0 0 0
    → IsOrderlyBut p (record o { read_jobs = r; parse_jobs = a; write_jobs = w })
taken_out {o} r a w v b same none_left = record {
  others = λ q ne.
      Place-kept o (record o { read_jobs = r; parse_jobs = a; write_jobs = w }) q (v.places q) refl
        (sym (same q ne).0) (sym (same q ne).1) (sym (same q ne).2) (λ there. (there, refl))
        (λ out. out);
  owned = v.owned;
  polled = v.polled;
  registered = b.registered;
  hidden = b.hidden;
  in_no_queue = none_left;
  is_locked = b.is_locked;
}

-- A worker takes the job of `p` out of a queue.
pub leave-IsOrderlyBut :
    (stage : Stage) (i : ℕ) {o : Orchestrator} {p : Pointer} {rest : List Pointer}
    → IsOrderly o
    → pick i (queue_of stage o) ≡ some (p, rest)
    → IsOrderlyBut p (leave stage rest o) × Finds stage (o.heap p)
leave-IsOrderlyBut reading i {o} {p} {rest} v e =
    let here = jobs_in-pick p i o.read_jobs e in
    let b = Place-IsBusy reading (v.places p) (ground (arith, here)) in
    (
      taken_out rest o.parse_jobs o.write_jobs v b
          (λ q ne. (ground (arith, jobs_in-pick q i o.read_jobs e), refl, refl))
          (ground (arith, here, b.counts.0), b.counts.1, b.counts.2),
      b.finds,
    )
leave-IsOrderlyBut parsing i {o} {p} {rest} v e =
    let here = jobs_in-pick p i o.parse_jobs e in
    let b = Place-IsBusy parsing (v.places p) (ground (arith, here)) in
    (
      taken_out o.read_jobs rest o.write_jobs v b
          (λ q ne. (refl, ground (arith, jobs_in-pick q i o.parse_jobs e), refl))
          (b.counts.0, ground (arith, here, b.counts.1), b.counts.2),
      b.finds,
    )
leave-IsOrderlyBut writing i {o} {p} {rest} v e =
    let here = jobs_in-pick p i o.write_jobs e in
    let b = Place-IsBusy writing (v.places p) (ground (arith, here)) in
    (
      taken_out o.read_jobs o.parse_jobs rest v b
          (λ q ne. (refl, refl, ground (arith, jobs_in-pick q i o.write_jobs e)))
          (b.counts.0, b.counts.1, ground (arith, here, b.counts.2)),
      b.finds,
    )
