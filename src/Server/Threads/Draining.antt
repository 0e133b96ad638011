-- ===== src/Server/Threads/Draining.antt =====
-- The work that waits in the queues: each job that a worker ends makes it less.
use ns1_interview_redis.Prelude.{
  ℕ, zero, suc, ◌+◌, ◌*◌, ◌<◌, ◌≤◌, ◌≡◌, Bool, Option, none, some, List, [], ◌∷◌, length,
  length-append, arith,
}
use mathlib.Core.Path.{subst}
use ns1_interview_redis.Prelude.Bytes.{Bytes}
use ns1_interview_redis.Commands.Dictionary.{Dictionary}
use ns1_interview_redis.Commands.Simulation.{Represents}
use ns1_interview_redis.Server.Effect.{Orchestrator, Pointer, done}
use ns1_interview_redis.Server.Jobs.{ReadEnd}
use ns1_interview_redis.Server.Threads.Places.{reading, parsing, writing, IsOrderly, Fine}
use ns1_interview_redis.Server.Threads.Workers.{put_in_front_cases, leave, leave-IsOrderlyBut}
use ns1_interview_redis.Server.Threads.Handlers.{
  read_job-Fine, refused-Fine, commanded-Fine, write_job-Fine,
}
use ns1_interview_redis.Server.Threads.Cases.{
  IsFaulty, IsOverrun, IsOutside, run_picked-Fine, parse_job-Fine,
}
use ns1_interview_redis.Server.Threads.Reachable.{Reached-IsRight}
use ns1_interview_redis.Server.Threads.{
  Turn, accepts, polls, reads, parses, writes, pick, turn, IsPossible, Reached, turned,
}

-- The turns that a connection still needs, over all queues.
abbrev pub work : Orchestrator → ℕ
work o = 3 * length o.read_jobs + 2 * length o.parse_jobs + length o.write_jobs

abbrev IsJob : Option (Pointer × List Pointer) → Type 0
IsJob none = ⊥
IsJob (some job) = Unit

-- A worker that finds a job.
abbrev pub FindsJob : Turn → Orchestrator → Type 0
FindsJob (reads i chunks end room) o = IsJob (pick i o.read_jobs)
FindsJob (parses i room) o = IsJob (pick i o.parse_jobs)
FindsJob (writes i n) o = IsJob (pick i o.write_jobs)
FindsJob _ o = ⊥

length-pick :
    (i : ℕ) (jobs : List Pointer) {p : Pointer} {rest : List Pointer}
    → pick i jobs ≡ some (p, rest)
    → length jobs ≡ length rest + 1
length-pick i [] e = cc
length-pick zero (x ∷ jobs) {p} {rest} e = let others : jobs ≡ rest = cc in rw others (omega arith)
length-pick (suc i) (x ∷ jobs) e =
    let (others, found, same) = put_in_front_cases x (pick i jobs) e in
    rw same (omega (arith, length-pick i jobs found))

module _ {o : Orchestrator} (v : IsOrderly o) where
  turn-reads :
      (i : ℕ) (chunks : List Bytes) (end : ReadEnd) (room : Bool)
      → Fine
          (IsFaulty (reads i chunks end room) o)
          (λ o'. IsJob (pick i o.read_jobs) → work o' < work o)
          (turn (reads i chunks end room) o)
  unfolding turn
  turn-reads i chunks end room =
      run_picked-Fine (IsOverrun chunks o) (λ k o'. IsJob k → work o' < work o) _ _ o
        (pick i o.read_jobs) (λ none_there. absurd none_there)
        λ p rest found.
          let (but, finds) = leave-IsOrderlyBut reading i v found in
          read_job-Fine _ _ p (leave reading rest o) but.registered chunks end room (λ e. e)
            (λ text there.
              omega (arith, length-pick i o.read_jobs found, length-append o.parse_jobs (p ∷ [])))
            (λ text there. omega (arith, length-pick i o.read_jobs found))

  turn-writes :
      (i : ℕ) (n : Option ℕ)
      → Fine ⊥ (λ o'. IsJob (pick i o.write_jobs) → work o' < work o) (turn (writes i n) o)
  unfolding turn
  turn-writes i n =
      run_picked-Fine (λ _. ⊥) (λ k o'. IsJob k → work o' < work o) _ _ o (pick i o.write_jobs)
        (λ none_there. absurd none_there)
        λ p rest found.
          let (but, finds) = leave-IsOrderlyBut writing i v found in
          let less = length-pick i o.write_jobs found in
          write_job-Fine ⊥ _ p (leave writing rest o) but.registered n
            (λ there. omega (arith, less)) (λ n there. omega (arith, less))
            (λ n there. omega (arith, less))

  turn-parses :
      (i : ℕ) (room : Bool) {m : Dictionary}
      → Represents o.datastore m
      → Fine
          (IsFaulty (parses i room) o)
          (λ o'. IsJob (pick i o.parse_jobs) → work o' < work o)
          (turn (parses i room) o)
  unfolding turn
  turn-parses i room r =
      run_picked-Fine (IsOutside o) (λ k o'. IsJob k → work o' < work o) _ _ o (pick i o.parse_jobs)
        (λ none_there. absurd none_there)
        λ p rest found.
          let o₁ = leave parsing rest o in
          let there = (leave-IsOrderlyBut parsing i v found).0.registered in
          let less = length-pick i o.parse_jobs found in
          let more = length-append o.write_jobs (p ∷ []) in
          parse_job-Fine (λ a o'. Unit → work o' < work o) p o₁ r room
            (λ e rest' unread.
              refused-Fine ⊥ (λ o'. Unit → work o' < work o) p o₁ there room unread
                (λ job. omega (arith, less, more)) (λ job. omega (arith, less)))
            (λ c rest' st read ran still.
              commanded-Fine _ (λ o'. Unit → work o' < work o) p o₁ there room read ran
                (λ job. omega (arith, less, more)) (λ job. omega (arith, less)))

turn-work :
    {o : Orchestrator} {m : Dictionary} (t : Turn)
    → IsOrderly o
    → Represents o.datastore m
    → FindsJob t o
    → Fine (IsFaulty t o) (λ o'. FindsJob t o → work o' < work o) (turn t o)
turn-work (accepts fd) v r finds = absurd finds
turn-work (polls room events) v r finds = absurd finds
turn-work (reads i chunks end room) v r finds = turn-reads v i chunks end room
turn-work (parses i room) v r finds = turn-parses v i room r
turn-work (writes i n) v r finds = turn-writes v i n

-- Workers that each find a job and end it, one turn after another, between two orchestrators.
pub data Drains : ℕ → Orchestrator → Orchestrator → Type 0 where
  stays : {o : Orchestrator} → Drains 0 o o
  ends :
      {n : ℕ} {o o₁ o' : Orchestrator} (t : Turn)
      → FindsJob t o
      → turn t o ≡ done tt o₁
      → Drains n o₁ o'
      → Drains (suc n) o o'

FindsJob-IsPossible : (t : Turn) (o : Orchestrator) → FindsJob t o → IsPossible t o
FindsJob-IsPossible (accepts fd) o finds = absurd finds
FindsJob-IsPossible (polls room events) o finds = absurd finds
FindsJob-IsPossible (reads i chunks end room) o finds = tt
FindsJob-IsPossible (parses i room) o finds = tt
FindsJob-IsPossible (writes i n) o finds = tt

-- From a server that its threads have reached, n jobs that workers find and end, with no other turn
-- between them, make the work n less at least. So they are not more than three for each connection
-- whose read job is queued, two for a parse job and one for a write job.
pub Drains-work :
    {texts : List (ℕ × Bytes)} {n : ℕ} {o o' : Orchestrator}
    → Reached texts o
    → Drains n o o'
    → n + work o' ≤ work o
Drains-work r stays = omega arith
Drains-work {texts = texts} {n = suc n} {o = o} r (ends {o₁ = o₁} t finds runs rest) =
    let (v, s) = Reached-IsRight r in
    let less =
      subst (Fine (IsFaulty t o) (λ o'. FindsJob t o → work o' < work o)) runs
        (turn-work t v s finds) finds in
    let more = Drains-work (turned t r (FindsJob-IsPossible t o finds) runs) rest in
    omega (arith, less, more)
