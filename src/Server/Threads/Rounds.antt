-- ===== src/Server/Threads/Rounds.antt =====
-- Each turn in full: it leaves the connections in order and the stores of the right dictionary, or
-- it is one of the turns that the program leaves undefined.
use ns1_interview_redis.Prelude.{ℕ, sym, Bool, Option, List}
use mathlib.Core.Path.{subst}
use ns1_interview_redis.Prelude.Bytes.{Bytes}
use ns1_interview_redis.Commands.Dictionary.{Dictionary}
use ns1_interview_redis.Commands.Simulation.{Represents}
use ns1_interview_redis.Server.Effect.{Orchestrator}
use ns1_interview_redis.Server.Jobs.{ReadEnd}
use ns1_interview_redis.Server.Threads.Places.{reading, parsing, writing, IsOrderly, Fine}
use ns1_interview_redis.Server.Threads.Workers.{leave-IsOrderlyBut}
use ns1_interview_redis.Server.Threads.Accepts.{
  accept_connection-with_connection, with_connection-IsOrderly,
}
use ns1_interview_redis.Server.Threads.Polls.{handle_events-IsOrderly}
use ns1_interview_redis.Server.Threads.Serial.{kept_by}
use ns1_interview_redis.Server.Threads.Cases.{
  IsFaulty, IsOverrun, IsOutside, run_picked-Fine, parse_job-Fine,
}
use ns1_interview_redis.Server.Threads.Turns.{
  IsRight, read_job-IsRight, write_job-IsRight, unparsed-IsRight, commanded-IsRight,
}
use ns1_interview_redis.Server.Threads.{
  Turn, accepts, polls, reads, parses, writes, pick, turn, IsPossible, asks, asked_by,
}

module _ {o : Orchestrator} {m : Dictionary} (v : IsOrderly o) (r : Represents o.datastore m) where
  turn-reads :
      (i : ℕ) (chunks : List Bytes) (end : ReadEnd) (room : Bool)
      → Fine (IsFaulty (reads i chunks end room) o) (IsRight m) (turn (reads i chunks end room) o)
  unfolding turn
  turn-reads i chunks end room =
      run_picked-Fine (IsOverrun chunks o) (λ _. IsRight m) _ _ o (pick i o.read_jobs) (v, r)
        λ p rest found.
          let (but, finds) = leave-IsOrderlyBut reading i v found in
          read_job-IsRight _ but r chunks end room finds λ e. e

  turn-writes : (i : ℕ) (n : Option ℕ) → Fine ⊥ (IsRight m) (turn (writes i n) o)
  unfolding turn
  turn-writes i n =
      run_picked-Fine (λ _. ⊥) (λ _. IsRight m) _ _ o (pick i o.write_jobs) (v, r)
        λ p rest found. write_job-IsRight ⊥ (leave-IsOrderlyBut writing i v found).0 r n

  turn-parses :
      (i : ℕ) (room : Bool)
      → Fine
          (IsFaulty (parses i room) o)
          (IsRight (kept_by (asks (parses i room) o) m))
          (turn (parses i room) o)
  unfolding turn
  turn-parses i room =
      run_picked-Fine (IsOutside o) (λ k. IsRight (kept_by (asked_by k o) m)) _ _ o
        (pick i o.parse_jobs) (v, r)
        λ p rest found.
          let (but, quiet) = leave-IsOrderlyBut parsing i v found in
          parse_job-Fine (λ a. IsRight a.1) p _ r room
            (λ e rest. unparsed-IsRight ⊥ but r room quiet)
            (λ c rest st. commanded-IsRight _ but r room quiet)

  turn-polls :
      (room : ℕ → Bool) (events : List (ℕ × Bool))
      → IsPossible (polls room events) o
      → Fine ⊥ (IsRight m) (turn (polls room events) o)
  unfolding turn
  turn-polls room events possible =
      let (after, runs, orderly, same, kept) = handle_events-IsOrderly room events o v possible in
      rw runs (orderly, subst (λ st. Represents st m) (sym same.datastore) r)

  turn-accepts : (fd : ℕ) → IsPossible (accepts fd) o → Fine ⊥ (IsRight m) (turn (accepts fd) o)
  unfolding turn
  turn-accepts fd free =
      rw (accept_connection-with_connection fd o) (with_connection-IsOrderly v fd free, r)

  pub turn-IsRight :
      (t : Turn) → IsPossible t o → Fine (IsFaulty t o) (IsRight (kept_by (asks t o) m)) (turn t o)
  turn-IsRight (accepts fd) possible = turn-accepts fd possible
  turn-IsRight (polls room events) possible = turn-polls room events possible
  turn-IsRight (reads i chunks end room) possible = turn-reads i chunks end room
  turn-IsRight (parses i room) possible = turn-parses i room
  turn-IsRight (writes i n) possible = turn-writes i n
