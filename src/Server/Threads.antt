-- ===== src/Server/Threads.antt =====
-- src/orchestrator.cpp and src/orchestrator.h: the threads of the server at work on the shared state
-- in any order. A turn is one round of a thread, or one job of a worker from its queue to its end.
pub mod Places
pub mod Workers
pub mod Moves
pub mod Handlers
pub mod Taking
pub mod Polls
pub mod Accepts
pub mod Serial
pub mod Cases
pub mod Turns
pub mod Rounds
pub mod Answers
pub mod Told
pub mod Replies
pub mod Reachable
pub mod Draining
use ns1_interview_redis.Prelude.{
  ℕ, zero, suc, ◌≡◌, Bool, true, false, Option, none, some, List, [], ◌∷◌, ◌++◌, All,
}
use ns1_interview_redis.Prelude.Int.{ℤ}
use ns1_interview_redis.Prelude.Bytes.{Bytes}
use ns1_interview_redis.Resp.{RespObject}
use ns1_interview_redis.Parser.Result.{Outcome, ok, err, out_of_fuel}
use ns1_interview_redis.Parser.{parse}
use ns1_interview_redis.Commands.{no_data}
use ns1_interview_redis.Session.{create_state}
use ns1_interview_redis.Server.Effect.{
  Orchestrator, Pointer, Effect, done, blocks, undefined, Action, pure, ◌>>=◌, contains,
}
use ns1_interview_redis.Server.Sockets.{accept_connection, handle_events, ready_fds}
use ns1_interview_redis.Server.Jobs.{ReadEnd, read_job, parse_and_run_job, write_job}

-- What a thread does next: a connection is accepted, epoll_wait() returns events, a worker runs the
-- job at a position of a queue. Several workers take jobs from the front of a queue at once, and
-- any of them may be the next to run. A job comes with what its system calls give.
pub data Turn : Type 0 where
  accepts : ℕ → Turn
  polls : (ℕ → Bool) → List (ℕ × Bool) → Turn
  reads : ℕ → List Bytes → ReadEnd → Bool → Turn
  parses : ℕ → Bool → Turn
  writes : ℕ → Option ℕ → Turn

abbrev pub put_in_front :
    Pointer → Option (Pointer × List Pointer) → Option (Pointer × List Pointer)
put_in_front q none = none
put_in_front q (some (p, jobs)) = some (p, q ∷ jobs)

-- The job at a position, and the others.
abbrev pub pick : ℕ → List Pointer → Option (Pointer × List Pointer)
pick i [] = none
pick zero (p ∷ jobs) = some (p, jobs)
pick (suc i) (p ∷ jobs) = put_in_front p (pick i jobs)

-- A worker that finds no job stays as it is.
abbrev pub run_picked :
    Option (Pointer × List Pointer)
    → (List Pointer → Orchestrator → Orchestrator)
    → (Pointer → Action ℤ)
    → Action (Unit {0})
run_picked none leave job o = done tt o
run_picked (some (p, jobs)) leave job o = (job p >>= λ _. pure tt) (leave jobs o)

abbrev pub leave_reads : List Pointer → Orchestrator → Orchestrator
leave_reads jobs o = record o { read_jobs = jobs }

abbrev pub leave_parses : List Pointer → Orchestrator → Orchestrator
leave_parses jobs o = record o { parse_jobs = jobs }

abbrev pub leave_writes : List Pointer → Orchestrator → Orchestrator
leave_writes jobs o = record o { write_jobs = jobs }

unfoldable pub turn : Turn → Action (Unit {0})
turn (accepts fd) o = accept_connection true fd o
turn (polls room events) o = handle_events room events o
turn (reads i chunks end room) o =
    run_picked (pick i o.read_jobs) leave_reads (read_job chunks end room) o
turn (parses i room) o = run_picked (pick i o.parse_jobs) leave_parses (parse_and_run_job room) o
turn (writes i n) o = run_picked (pick i o.write_jobs) leave_writes (write_job n) o

-- What the kernel promises: a new descriptor is not one that is open, and only sockets that are
-- polled are reported.
abbrev pub IsPossible : Turn → Orchestrator → Type 0
IsPossible (accepts fd) o = o.all_sockets fd ≡ none
IsPossible (polls room events) o = All (λ fd. contains fd o.epoll_sockets ≡ true) (ready_fds events)
IsPossible _ o = Unit

-- The orchestrator before the first connection.
abbrev pub new_server : Orchestrator
new_server = record {
  heap = λ p. create_state 0;
  next = 0;
  all_sockets = λ fd. none;
  epoll_sockets = [];
  processing_sockets = [];
  write_sockets = [];
  datastore = no_data;
  read_jobs = [];
  parse_jobs = [];
  write_jobs = [];
  sent = [];
  closed = [];
}

abbrev pub asked_by : Option (Pointer × List Pointer) → Orchestrator → List (ℕ × Bytes)
asked_by none o = []
asked_by (some (p, jobs)) o = ((o.heap p).socket, (o.heap p).read_data) ∷ []

-- The text that a turn parses and runs, with its socket, if it is such a turn.
abbrev pub asks : Turn → Orchestrator → List (ℕ × Bytes)
asks (parses i room) o = asked_by (pick i o.parse_jobs) o
asks _ o = []

-- The orchestrators that turns lead to, with the texts that were parsed and run on the way, as
-- long as no turn is undefined.
pub data Reached : List (ℕ × Bytes) → Orchestrator → Type 0 where
  fresh : Reached [] new_server
  turned :
      {texts : List (ℕ × Bytes)} {o o' : Orchestrator} (t : Turn)
      → Reached texts o
      → IsPossible t o
      → turn t o ≡ done tt o'
      → Reached (texts ++ asks t o) o'
