-- ===== src/Server/Threads/Replies.antt =====
-- Every turn answers as one dictionary does, each connection in the order of its texts.
use ns1_interview_redis.Prelude.{
  ℕ, suc, ◌≡◌, ◌≢◌, refl, sym, ap, ◌∙◌, Bool, Option, some, List, [], ◌∷◌, ◌++◌, arith, append-nil,
}
use mathlib.Core.Path.{subst}
use ns1_interview_redis.Prelude.Bytes.{Bytes}
use ns1_interview_redis.Resp.{RespObject}
use ns1_interview_redis.Commands.Dictionary.{Dictionary}
use ns1_interview_redis.Commands.Simulation.{Represents}
use ns1_interview_redis.Session.{State}
use ns1_interview_redis.Server.Effect.{Orchestrator, Pointer, update_self, update-ne}
use ns1_interview_redis.Server.Jobs.{ReadEnd}
use ns1_interview_redis.Server.Threads.Places.{
  jobs_in, reading, parsing, writing, IsOrderly, IsOrderlyBut, Fine,
}
use ns1_interview_redis.Server.Threads.Moves.{by_eq}
use ns1_interview_redis.Server.Threads.Workers.{jobs_in-pick, leave, leave-IsOrderlyBut}
use ns1_interview_redis.Server.Threads.Accepts.{
  accept_connection-with_connection, with_connection, unused,
}
use ns1_interview_redis.Server.Threads.Polls.{handle_events-IsOrderly}
use ns1_interview_redis.Server.Threads.Serial.{responses}
use ns1_interview_redis.Server.Threads.Cases.{
  IsFaulty, IsOverrun, IsOutside, run_picked-Fine, parse_job-Fine,
}
use ns1_interview_redis.Server.Threads.Answers.{
  on, Line, Follows, closings, pending, pending-kept, pending-closed, pending-elsewhere,
  pending-queued, AreTold,
}
use ns1_interview_redis.Server.Threads.Told.{
  read_job-AreTold, write_job-AreTold, unparsed-AreTold, commanded-AreTold,
}
use ns1_interview_redis.Server.Threads.{
  Turn, accepts, polls, reads, parses, writes, pick, turn, IsPossible, asks, asked_by,
}

-- Nothing changes that a response depends on.
AreTold-kept :
    (rs : List (ℕ × RespObject)) (o o' : Orchestrator)
    → AreTold rs o
    → o'.sent ≡ o.sent
    → o'.closed ≡ o.closed
    → ((g : ℕ) → pending g o' ≡ pending g o)
    → AreTold rs o'
AreTold-kept rs o o' told sent closed same g =
    subst (λ l. Line (jobs_in g l) (on g o'.sent) (on g rs) (pending g o')) (sym closed)
      (subst (λ l. Line (closings g o) (on g l) (on g rs) (pending g o')) (sym sent)
        (subst (Line (closings g o) (on g o.sent) (on g rs)) (sym (same g)) (told g)))

module _ (o : Orchestrator) (rs : List (ℕ × RespObject)) (v : IsOrderly o)
    (told : AreTold rs o) where
  left-AreTold :
      (o' : Orchestrator)
      → o'.all_sockets ≡ o.all_sockets
      → o'.heap ≡ o.heap
      → o'.write_jobs ≡ o.write_jobs
      → o'.sent ≡ o.sent
      → o'.closed ≡ o.closed
      → AreTold rs o'
  left-AreTold o' tables heap jobs sent closed = AreTold-kept rs o o' told sent closed λ g.
      pending-kept g o o' (ap (λ m. m g) tables)
        λ q there. (ap (λ h. (h q).response) heap, ap (jobs_in q) jobs)

  -- A connection whose job is out of its queue has no response that waits.
  nothing_pending :
      {p : Pointer} (o' : Orchestrator)
      → IsOrderlyBut p o'
      → AreTold rs o'
      → Follows
          (closings (o'.heap p).socket o')
          (on (o'.heap p).socket o'.sent)
          (on (o'.heap p).socket rs)
  nothing_pending {p} o' but told' =
      let fd = (o'.heap p).socket in
      subst (Line (closings fd o') (on fd o'.sent) (on fd rs))
        (pending-elsewhere fd o' but.registered but.in_no_queue.2) (told' fd)

  turn-reads :
      (i : ℕ) (chunks : List Bytes) (end : ReadEnd) (room : Bool)
      → Fine (IsFaulty (reads i chunks end room) o) (AreTold rs) (turn (reads i chunks end room) o)
  unfolding turn
  turn-reads i chunks end room =
      run_picked-Fine (IsOverrun chunks o) (λ _. AreTold rs) _ _ o (pick i o.read_jobs) told
        λ p rest found.
          let but = (leave-IsOrderlyBut reading i v found).0 in
          let left = left-AreTold (leave reading rest o) refl refl refl refl refl in
          read_job-AreTold (leave reading rest o) rs but (λ g apart. left g) _ chunks end room
            (λ e. e) (nothing_pending (leave reading rest o) but left)

  turn-writes : (i : ℕ) (n : Option ℕ) → Fine ⊥ (AreTold rs) (turn (writes i n) o)
  unfolding turn
  turn-writes i n =
      run_picked-Fine (λ _. ⊥) (λ _. AreTold rs) _ _ o (pick i o.write_jobs) told
        λ p rest found.
          let (but, finds) = leave-IsOrderlyBut writing i v found in
          let (x, response) = finds.1 in
          let queued : jobs_in p o.write_jobs ≡ suc (jobs_in p rest) =
            ground (arith, jobs_in-pick p i o.write_jobs found) in
          write_job-AreTold (leave writing rest o) rs but
            (λ g apart.
              subst (Line (closings g o) (on g o.sent) (on g rs))
                (sym (
                  pending-kept g o (leave writing rest o) refl λ q there.
                    let ne : q ≢ p =
                      λ e. apart (ap (λ q. (o.heap q).socket) (sym e) ∙ (v.owned g q there).0) in
                    (refl, ground (arith, jobs_in-pick q i o.write_jobs found))))
                (told g))
            n finds response
            (subst
              (Line (closings (o.heap p).socket o) (on (o.heap p).socket o.sent)
                (on (o.heap p).socket rs))
              (pending-queued (o.heap p).socket o but.registered queued response)
              (told (o.heap p).socket))

  turn-parses :
      (i : ℕ) (room : Bool) {m : Dictionary}
      → Represents o.datastore m
      → Fine
          (IsFaulty (parses i room) o)
          (AreTold (rs ++ responses (asks (parses i room) o) m))
          (turn (parses i room) o)
  unfolding turn
  turn-parses i room {m} r =
      run_picked-Fine (IsOutside o) (λ k. AreTold (rs ++ responses (asked_by k o) m)) _ _ o
        (pick i o.parse_jobs) (subst (λ rs. AreTold rs o) (sym (append-nil rs)) told)
        λ p rest found.
          let left = left-AreTold (leave parsing rest o) refl refl refl refl refl in
          let but = (leave-IsOrderlyBut parsing i v found).0 in
          let follows = nothing_pending (leave parsing rest o) but left in
          parse_job-Fine (λ a. AreTold (rs ++ ((o.heap p).socket, a.0) ∷ [])) p
            (leave parsing rest o) r room
            (λ e rest'.
              unparsed-AreTold (leave parsing rest o) rs but (λ g apart. left g) room follows)
            (λ c rest' st read ran still.
              commanded-AreTold (leave parsing rest o) rs but (λ g apart. left g) _ room follows
                read ran)

  turn-polls :
      (room : ℕ → Bool) (events : List (ℕ × Bool))
      → IsPossible (polls room events) o
      → Fine ⊥ (AreTold rs) (turn (polls room events) o)
  unfolding turn
  turn-polls room events possible =
      let (after, runs, orderly, same, kept) = handle_events-IsOrderly room events o v possible in
      rw runs (
        AreTold-kept rs o after told same.sent same.closed λ g.
          pending-kept g o after (ap (λ m. m g) same.all_sockets) λ q there. (
            kept q (ap o.all_sockets (v.owned g q there).0 ∙ there),
            ap (jobs_in q) same.write_jobs,
          ))

  turn-accepts : (fd : ℕ) → IsPossible (accepts fd) o → Fine ⊥ (AreTold rs) (turn (accepts fd) o)
  unfolding turn
  turn-accepts fd free =
      let o' = with_connection fd o in
      rw (accept_connection-with_connection fd o) (
        AreTold-kept rs o o' told refl refl λ g.
          by_eq (λ g. pending g o' ≡ pending g o) fd g
            (pending-elsewhere fd o' (update_self fd (some o.next) o.all_sockets)
                (unused v fd free (v.places o.next)).2
              ∙ sym (pending-closed fd o free))
            λ ne.
              pending-kept g o o' (update-ne fd g (some o.next) o.all_sockets λ e. ne (sym e))
                λ q there. (
                  ap (λ (s : State). s.response)
                      (update-ne o.next q _ o.heap
                        λ e. absurd (omega (arith, (v.owned g q there).1, e))),
                  refl,
                ))

  pub turn-AreTold :
      (t : Turn) {m : Dictionary}
      → Represents o.datastore m
      → IsPossible t o
      → Fine (IsFaulty t o) (AreTold (rs ++ responses (asks t o) m)) (turn t o)
  turn-AreTold (accepts fd) r possible =
      subst (λ rs. Fine ⊥ (AreTold rs) (turn (accepts fd) o)) (sym (append-nil rs))
        (turn-accepts fd possible)
  turn-AreTold (polls room events) r possible =
      subst (λ rs. Fine ⊥ (AreTold rs) (turn (polls room events) o)) (sym (append-nil rs))
        (turn-polls room events possible)
  turn-AreTold (reads i chunks end room) r possible =
      subst
        (λ rs.
          Fine (IsFaulty (reads i chunks end room) o) (AreTold rs)
            (turn (reads i chunks end room) o))
        (sym (append-nil rs)) (turn-reads i chunks end room)
  turn-AreTold (parses i room) r possible = turn-parses i room r
  turn-AreTold (writes i n) r possible =
      subst (λ rs. Fine ⊥ (AreTold rs) (turn (writes i n) o)) (sym (append-nil rs))
        (turn-writes i n)
