-- ===== src/Server/Threads/Reachable.antt =====
-- Every server that its threads can reach, in whatever order they run.
use ns1_interview_redis.Prelude.{ℕ, ◌≡◌, ◌⊎◌, inl, inr, refl, sym, List, ◌++◌}
use mathlib.Core.Path.{subst}
use ns1_interview_redis.Prelude.Bytes.{Bytes}
use ns1_interview_redis.Commands.Dictionary.{no_entries}
use ns1_interview_redis.Commands.Refinement.{no_data-Represents}
use ns1_interview_redis.Commands.Simulation.{Represents}
use ns1_interview_redis.Server.Effect.{Orchestrator, Effect, done, blocks, undefined}
use ns1_interview_redis.Server.Threads.Places.{gone, IsOrderly, Fine}
use ns1_interview_redis.Server.Threads.Serial.{kept_by, kept_by-append, responses, responses-append}
use ns1_interview_redis.Server.Threads.Turns.{IsRight}
use ns1_interview_redis.Server.Threads.Cases.{IsFaulty}
use ns1_interview_redis.Server.Threads.Rounds.{turn-IsRight}
use ns1_interview_redis.Server.Threads.Answers.{on, nothing, closings, Line, pending, AreTold}
use ns1_interview_redis.Server.Threads.Replies.{turn-AreTold}
use ns1_interview_redis.Server.Threads.{
  Turn, turn, IsPossible, asks, new_server, Reached, fresh, turned,
}

new_server-IsOrderly : IsOrderly new_server
new_server-IsOrderly = record {
  places = λ p. gone (λ e. cc) (refl, refl, refl);
  owned = λ fd p e. absurd (cc);
  polled = λ fd e. absurd (cc);
}

-- The turns of the server's threads, in whatever order they come, lead from a new server only to
-- servers that are in order: every connection is closed, or idle and polled, or has one job in one of
-- the queues, is locked and is not polled, or is stuck: there was no room for its read job, so it is
-- in no queue, is not polled, and has its mutex held while its state waits for the job. The data
-- stores represent the dictionary that the texts which were parsed on the way leave, one after
-- another in the order of their turns.
pub Reached-IsRight :
    {texts : List (ℕ × Bytes)} {o : Orchestrator}
    → Reached texts o
    → IsOrderly o × Represents o.datastore (kept_by texts no_entries)
Reached-IsRight fresh = (new_server-IsOrderly, no_data-Represents)
Reached-IsRight (turned {texts} {o} {o'} t r possible runs) =
    let (v, s) = Reached-IsRight r in
    subst (λ m. IsRight m o') (sym (kept_by-append texts (asks t o) no_entries))
      (subst (Fine (IsFaulty t o) (IsRight (kept_by (asks t o) (kept_by texts no_entries)))) runs
        (turn-IsRight v s t possible))

Fine-cases :
    {F : Type 0} (P : Orchestrator → Type 0) (e : Effect (Unit {0}))
    → Fine F P e
    → ((after : Orchestrator) × (e ≡ done tt after)) ⊎ ((e ≡ undefined) × F)
Fine-cases P (done a o) h = inl (o, refl)
Fine-cases P blocks h = absurd h
Fine-cases P undefined h = inr (refl, h)

-- No turn of a server that its threads have reached blocks on the mutex of a connection. It is
-- completed, or it is undefined, and then it is a read that writes behind the end of the buffer or a
-- command with a key that no data store is for.
pub turn-total :
    {texts : List (ℕ × Bytes)} {o : Orchestrator} (t : Turn)
    → Reached texts o
    → IsPossible t o
    → ((after : Orchestrator) × (turn t o ≡ done tt after))
      ⊎ ((turn t o ≡ undefined) × IsFaulty t o)
turn-total {texts} {o} t r possible =
    let (v, s) = Reached-IsRight r in Fine-cases _ (turn t o) (turn-IsRight v s t possible)

Reached-AreTold :
    {texts : List (ℕ × Bytes)} {o : Orchestrator}
    → Reached texts o
    → AreTold (responses texts no_entries) o
Reached-AreTold fresh = λ fd. nothing
Reached-AreTold (turned {texts} {o} {o'} t r possible runs) =
    let (v, s) = Reached-IsRight r in
    subst (λ rs. AreTold rs o') (sym (responses-append texts (asks t o) no_entries))
      (subst
        (Fine (IsFaulty t o)
          (AreTold (responses texts no_entries ++ responses (asks t o) (kept_by texts no_entries))))
        runs (turn-AreTold o (responses texts no_entries) v (Reached-AreTold r) t s possible))

-- In whatever order the turns of the threads come, the bytes that each write() took on a socket are a
-- beginning of the response to one of its own texts, up to the first NUL, in the order in which the
-- texts were parsed. No response is left out but where a connection was closed before it was written,
-- one at most for each time that the socket was closed, and the last, where it is still queued for
-- writing. The responses are those of one dictionary that is given the texts of all sockets one after
-- another, in the order in which they were parsed.
pub Reached-Line :
    {texts : List (ℕ × Bytes)} {o : Orchestrator} (fd : ℕ)
    → Reached texts o
    → Line (closings fd o) (on fd o.sent) (on fd (responses texts no_entries)) (pending fd o)
Reached-Line fd r = Reached-AreTold r fd
