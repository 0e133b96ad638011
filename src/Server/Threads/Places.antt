-- ===== src/Server/Threads/Places.antt =====
-- Where a connection is: each is idle and polled, or has one job in one queue, or is closed, or there
-- was no room for its read job.
use ns1_interview_redis.Prelude.{
  ℕ, ◌+◌, ◌<◌, ◌≡◌, ◌≢◌, sym, ap, ◌∙◌, true, false, none, some, List, [], ◌∷◌, ◌++◌, ◌==◌,
  if◌then◌else◌, arith,
}
use mathlib.Core.Path.{subst}
use ns1_interview_redis.Resp.{RespObject}
use ns1_interview_redis.Session.{State, waiting_for_read_job}
use ns1_interview_redis.Server.Effect.{
  Orchestrator, Pointer, Effect, done, blocks, undefined, contains,
}
use ns1_interview_redis.Server.Requests.{IsIdle}

-- How often the job of a connection stands in a queue.
abbrev pub jobs_in : Pointer → List Pointer → ℕ
jobs_in p [] = 0
jobs_in p (q ∷ queue) = jobs_in p queue + (if q == p then 1 else 0)

pub jobs_in-append :
    (p : Pointer) (queue behind : List Pointer)
    → jobs_in p (queue ++ behind) ≡ jobs_in p behind + jobs_in p queue
jobs_in-append p [] behind = ground arith
jobs_in-append p (q ∷ queue) behind = ground (arith, jobs_in-append p queue behind)

-- The queue that holds the job of a connection.
pub data Stage : Type 0 where
  reading parsing writing : Stage

abbrev pub in_reads : Stage → ℕ
in_reads reading = 1
in_reads _ = 0

abbrev pub in_parses : Stage → ℕ
in_parses parsing = 1
in_parses _ = 0

abbrev pub in_writes : Stage → ℕ
in_writes writing = 1
in_writes _ = 0

-- How often a connection stands in the three queues.
abbrev pub Counts : Orchestrator → Pointer → ℕ → ℕ → ℕ → Type 0
Counts o p r a w =
    (jobs_in p o.read_jobs ≡ r) × (jobs_in p o.parse_jobs ≡ a) × (jobs_in p o.write_jobs ≡ w)

abbrev pub IsRegistered : Orchestrator → Pointer → Type 0
IsRegistered o p = o.all_sockets (o.heap p).socket ≡ some p

-- What a job finds in its connection's state.
pub record IsQuiet (s : State) : Type 0 where
  pub no_response : s.response ≡ none
  pub no_error : s.is_error ≡ false
  pub no_special_error : s.special_error ≡ []

abbrev pub Finds : Stage → State → Type 0
Finds reading s = IsQuiet s × (s.read_data ≡ [])
Finds parsing s = IsQuiet s
Finds writing s = (s.special_error ≡ []) × ((x : RespObject) × (s.response ≡ some x))

pub data Place (o : Orchestrator) (p : Pointer) : Type 0 where
  gone : ¬ IsRegistered o p → Counts o p 0 0 0 → Place o p
  idle :
      IsRegistered o p
      → contains (o.heap p).socket o.epoll_sockets ≡ true
      → Counts o p 0 0 0
      → IsIdle (o.heap p)
      → Place o p
  busy :
      (stage : Stage)
      → IsRegistered o p
      → contains (o.heap p).socket o.epoll_sockets ≡ false
      → Counts o p (in_reads stage) (in_parses stage) (in_writes stage)
      → (o.heap p).is_locked ≡ true
      → Finds stage (o.heap p)
      → Place o p
  stuck :
      IsRegistered o p
      → contains (o.heap p).socket o.epoll_sockets ≡ false
      → Counts o p 0 0 0
      → (o.heap p).is_locked ≡ true
      → Finds reading (o.heap p)
      → (o.heap p).state ≡ waiting_for_read_job
      → Place o p

abbrev pub AreOwned : Orchestrator → Type 0
AreOwned o =
    (fd : ℕ) (p : Pointer) → o.all_sockets fd ≡ some p → ((o.heap p).socket ≡ fd) × (p < o.next)

abbrev pub ArePolled : Orchestrator → Type 0
ArePolled o =
    (fd : ℕ) → contains fd o.epoll_sockets ≡ true → (p : Pointer) × (o.all_sockets fd ≡ some p)

-- Every connection has its place; a socket's state is its own; a polled socket has a state.
pub record IsOrderly (o : Orchestrator) : Type 0 where
  pub places : (p : Pointer) → Place o p
  pub owned : AreOwned o
  pub polled : ArePolled o

-- The same while a worker runs the job of `p`, which is in no queue.
pub record IsOrderlyBut (p : Pointer) (o : Orchestrator) : Type 0 where
  pub others : (q : Pointer) → q ≢ p → Place o q
  pub owned : AreOwned o
  pub polled : ArePolled o
  pub registered : IsRegistered o p
  pub hidden : contains (o.heap p).socket o.epoll_sockets ≡ false
  pub in_no_queue : Counts o p 0 0 0
  pub is_locked : (o.heap p).is_locked ≡ true

-- The result of a turn satisfies `P`, and no thread blocks; it is undefined only where `F` holds.
abbrev pub Fine : {A : Type 0} → Type 0 → (Orchestrator → Type 0) → Effect A → Type 0
Fine F P (done a o) = P o
Fine F P blocks = ⊥
Fine F P undefined = F

-- A connection keeps its place where nothing that is its own changes.
pub Place-kept :
    (o o' : Orchestrator) (q : Pointer)
    → Place o q
    → o'.heap q ≡ o.heap q
    → (jobs_in q o'.read_jobs ≡ jobs_in q o.read_jobs)
    → (jobs_in q o'.parse_jobs ≡ jobs_in q o.parse_jobs)
    → (jobs_in q o'.write_jobs ≡ jobs_in q o.write_jobs)
    → (IsRegistered o q
        → (o'.all_sockets (o.heap q).socket ≡ some q)
          × (contains (o.heap q).socket o'.epoll_sockets
              ≡ contains (o.heap q).socket o.epoll_sockets))
    → (¬ IsRegistered o q → o'.all_sockets (o.heap q).socket ≢ some q)
    → Place o' q
Place-kept o o' q (gone out (a, b, c)) same r p w stays leaves =
    gone (λ e. leaves out (ap (λ (s : State). o'.all_sockets s.socket) (sym same) ∙ e))
      (r ∙ a, p ∙ b, w ∙ c)
Place-kept o o' q (idle there poll (a, b, c) rest) same r p w stays leaves =
    idle (ap (λ (s : State). o'.all_sockets s.socket) same ∙ (stays there).0)
      (ap (λ (s : State). contains s.socket o'.epoll_sockets) same ∙ ((stays there).1 ∙ poll))
      (r ∙ a, p ∙ b, w ∙ c) (subst IsIdle (sym same) rest)
Place-kept o o' q (busy stage there poll (a, b, c) locked finds) same r p w stays leaves =
    busy stage (ap (λ (s : State). o'.all_sockets s.socket) same ∙ (stays there).0)
      (ap (λ (s : State). contains s.socket o'.epoll_sockets) same ∙ ((stays there).1 ∙ poll))
      (r ∙ a, p ∙ b, w ∙ c) (ap (λ (s : State). s.is_locked) same ∙ locked)
      (subst (Finds stage) (sym same) finds)
Place-kept o o' q (stuck there poll (a, b, c) locked finds waits) same r p w stays leaves =
    stuck (ap (λ (s : State). o'.all_sockets s.socket) same ∙ (stays there).0)
      (ap (λ (s : State). contains s.socket o'.epoll_sockets) same ∙ ((stays there).1 ∙ poll))
      (r ∙ a, p ∙ b, w ∙ c) (ap (λ (s : State). s.is_locked) same ∙ locked)
      (subst (Finds reading) (sym same) finds) (ap (λ (s : State). s.state) same ∙ waits)
