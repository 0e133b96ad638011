-- ===== src/Server/Threads/Cases.antt =====
-- A turn by its cases: a worker finds a job or none, and the text of a parse job is a command or not.
use ns1_interview_redis.Prelude.{
  ℕ, ◌≡◌, ◌⊎◌, inl, inr, refl, sym, ap, ◌∙◌, Bool, Option, none, some, List,
}
use mathlib.Core.Path.{subst}
use ns1_interview_redis.Prelude.Int.{ℤ}
use ns1_interview_redis.Prelude.Bytes.{Bytes}
use ns1_interview_redis.Resp.{RespObject}
use ns1_interview_redis.Parser.Result.{Outcome, ok, err, ParseError}
use ns1_interview_redis.Parser.Wire.{IsWire, Parses, parsed, refused}
use ns1_interview_redis.Parser.Returns.{parse_returns}
use ns1_interview_redis.Parser.{parse}
use ns1_interview_redis.Commands.Action.{DataStores}
use ns1_interview_redis.Commands.{do_operation}
use ns1_interview_redis.Commands.Dictionary.{Dictionary, request, obey}
use ns1_interview_redis.Commands.Refinement.{KeysArePlaced}
use ns1_interview_redis.Commands.Simulation.{Represents}
use ns1_interview_redis.Commands.Totality.{do_operation_total}
use ns1_interview_redis.Server.Effect.{
  Orchestrator, Pointer, Action, Effect, done, blocks, undefined, pure, go_on,
}
use ns1_interview_redis.Server.Jobs.{read_loop, parse_and_run_job, unable_to_parse}
use ns1_interview_redis.Server.EndToEnd.{reply, closes, obey-reply}
use ns1_interview_redis.Server.Threads.Places.{Fine}
use ns1_interview_redis.Server.Threads.Serial.{answer, serve}
use ns1_interview_redis.Server.Threads.Handlers.{parse_and_run_job-undefined}
use ns1_interview_redis.Server.Threads.{Turn, reads, parses, pick, run_picked}

-- A job's command has a key that no data store is for.
abbrev pub IsMisplaced : Outcome RespObject → Type 0
IsMisplaced (ok c rest) = ¬ KeysArePlaced (request c)
IsMisplaced _ = ⊥

abbrev OfPicked : Option (Pointer × List Pointer) → (Pointer → Type 0) → Type 0
OfPicked none P = ⊥
OfPicked (some (p, jobs)) P = P p

abbrev pub IsOverrun : List Bytes → Orchestrator → Option (Pointer × List Pointer) → Type 0
IsOverrun chunks o k = OfPicked k λ p. read_loop (o.heap p).read_data chunks ≡ none

abbrev pub IsOutside : Orchestrator → Option (Pointer × List Pointer) → Type 0
IsOutside o k = OfPicked k λ p. IsMisplaced (parse (o.heap p).read_data)

-- The turns that are undefined: a read that runs over the buffer, a command whose key is outside.
abbrev pub IsFaulty : Turn → Orchestrator → Type 0
IsFaulty (reads i chunks end room) o = IsOverrun chunks o (pick i o.read_jobs)
IsFaulty (parses i room) o = IsOutside o (pick i o.parse_jobs)
IsFaulty _ o = ⊥

Fine-then :
    {A B : Type 0} (F : Type 0) (P : Orchestrator → Type 0) (b : B) (e : Effect A)
    → Fine F P e
    → Fine F P (go_on (λ _. pure b) e)
Fine-then F P b (done a o) h = h
Fine-then F P b blocks h = h
Fine-then F P b undefined h = h

-- A worker at a queue.
pub run_picked-Fine :
    (F : Option (Pointer × List Pointer) → Type 0)
    (P : Option (Pointer × List Pointer) → Orchestrator → Type 0)
    (leave : List Pointer → Orchestrator → Orchestrator) (job : Pointer → Action ℤ)
    (o : Orchestrator) (r : Option (Pointer × List Pointer))
    → P none o
    → ((p : Pointer) (rest : List Pointer)
        → r ≡ some (p, rest)
        → Fine (F (some (p, rest))) (P (some (p, rest))) (job p (leave rest o)))
    → Fine (F r) (P r) (run_picked r leave job o)
run_picked-Fine F P leave job o none idle found = idle
run_picked-Fine F P leave job o (some (p, rest)) idle found =
    Fine-then (F (some (p, rest))) (P (some (p, rest))) tt (job p (leave rest o))
      (found p rest refl)

Parses-cases :
    {P : RespObject → Type 0} {n : ℕ} {r : Outcome RespObject}
    → Parses P n r
    → ((e : ParseError) × (rest : Bytes) × (r ≡ err e rest))
      ⊎ ((c : RespObject) × (rest : Bytes) × (r ≡ ok c rest) × P c)
Parses-cases (parsed {a} {s} h short) = inr (a, s, refl, h)
Parses-cases (refused {e} {s}) = inl (e, s, refl)

-- What the parser gives: an error, or a wire object.
parse_cases :
    (s : Bytes)
    → ((e : ParseError) × (rest : Bytes) × (parse s ≡ err e rest))
      ⊎ ((c : RespObject) × (rest : Bytes) × (parse s ≡ ok c rest) × IsWire c)
parse_cases s = Parses-cases (parse_returns s)

module _ (P : RespObject × Dictionary → Orchestrator → Type 0) (p : Pointer) (o : Orchestrator)
    {m : Dictionary} (r : Represents o.datastore m) (room : Bool)
    (unread : (e : ParseError) (rest : Bytes)
      → parse (o.heap p).read_data ≡ err e rest
      → Fine ⊥ (P (unable_to_parse (o.heap p).read_data, m)) (parse_and_run_job room p o))
    (ran : (c : RespObject) (rest : Bytes) (st : DataStores)
      → parse (o.heap p).read_data ≡ ok c rest
      → do_operation c o.datastore ≡ some ((closes (request c) m, some (reply (request c) m)), st)
      → Represents st (obey (request c) m).1
      → Fine
          (¬ KeysArePlaced (request c))
          (P (reply (request c) m, (obey (request c) m).1))
          (parse_and_run_job room p o)) where
  command-Fine :
      (c : RespObject) (rest : Bytes)
      → parse (o.heap p).read_data ≡ ok c rest
      → IsWire c
      → Fine
          (¬ KeysArePlaced (request c))
          (P (reply (request c) m, (obey (request c) m).1))
          (parse_and_run_job room p o)
  command-Fine c rest read wire = elim (do_operation_total c o.datastore m r wire) [
    | inl (placed, s) ↦
        ran c rest s.after read
          (s.runs ∙ ap (λ reply. some (reply, s.after)) (obey-reply (request c) m)) s.still
    | inr (outside, faults) ↦ rw (parse_and_run_job-undefined p o room read faults) outside
  ]

  -- A parse job answers as one dictionary does, or the command has a key without a data store.
  pub parse_job-Fine :
      Fine
        (IsMisplaced (parse (o.heap p).read_data))
        (P (serve (o.heap p).read_data m))
        (parse_and_run_job room p o)
  parse_job-Fine =
      let text = (o.heap p).read_data in
      elim (parse_cases text) [
        | inl (e, rest, read) ↦
            subst (λ t. Fine (IsMisplaced t) (P (answer t text m)) (parse_and_run_job room p o))
              (sym read) (unread e rest read)
        | inr (c, rest, read, wire) ↦
            subst (λ t. Fine (IsMisplaced t) (P (answer t text m)) (parse_and_run_job room p o))
              (sym read) (command-Fine c rest read wire)
      ]
