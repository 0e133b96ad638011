-- ===== src/Server/Steps.antt =====
-- The parse job and the write job, as equations between orchestrators.
use ns1_interview_redis.Prelude.{ℕ, ◌≡◌, ap, ◌∙◌, true, false, some, [], ◌∷◌, ◌++◌, take}
use ns1_interview_redis.Prelude.Int.{pos, negsuc}
use ns1_interview_redis.Prelude.Bytes.{Bytes}
use ns1_interview_redis.Resp.{RespObject}
use ns1_interview_redis.Parser.Result.{ParseError, ok, err}
use ns1_interview_redis.Parser.{parse}
use ns1_interview_redis.Commands.Action.{DataStores}
use ns1_interview_redis.Commands.{Response, do_operation}
use ns1_interview_redis.Session.{State, parsing, reset}
use ns1_interview_redis.Server.Effect.{
  Orchestrator, Pointer, done, pure, go_on, update, update_self, insert,
}
use ns1_interview_redis.Server.Jobs.{
  parse_and_run_job, write_job, after_write, write_buffer, answered, unable_to_parse,
}
use ns1_interview_redis.Server.Sockets.{close_and_cleanup}
use ns1_interview_redis.Server.Closing.{cleaned, close_and_cleanup-cleaned}

-- The state of `p`, changed.
abbrev pub changed : Pointer → (State → State) → Orchestrator → Orchestrator
changed p f o = record o { heap = update p (f (o.heap p)) o.heap }

abbrev pub set_parsing : State → State
set_parsing s = record s { state = parsing }

-- The orchestrator behind a command that was run.
abbrev pub after_command :
    Pointer → RespObject → Response → DataStores → Orchestrator → Orchestrator
after_command p object result st o =
    let o₁ = changed p (λ s. record s { object = some object }) (changed p set_parsing o) in
    let o₂ = changed p (answered result) (record o₁ { datastore = st }) in
    record o₂ { write_jobs = o.write_jobs ++ p ∷ [] }

-- A command that parses is run, and its response queued for writing.
pub parse_and_run_job-ok :
    (p : Pointer) (o : Orchestrator) {object : RespObject} {rest : Bytes} {result : Response}
    {st : DataStores}
    → parse (o.heap p).read_data ≡ ok object rest
    → do_operation object o.datastore ≡ some (result, st)
    → parse_and_run_job true p o ≡ done (pos 0) (after_command p object result st o)
unfolding parse_and_run_job
parse_and_run_job-ok p o parsed ran = simp (update_self, parsed, ran)

-- The orchestrator behind a text that does not parse.
abbrev pub after_refusal : Pointer → Orchestrator → Orchestrator
after_refusal p o =
    let o₁ =
      changed p (λ s. record s { is_error = true; response = some (unable_to_parse s.read_data) })
        (changed p set_parsing o) in
    record o₁ { write_jobs = o.write_jobs ++ p ∷ [] }

pub parse_and_run_job-err :
    (p : Pointer) (o : Orchestrator) {e : ParseError} {rest : Bytes}
    → parse (o.heap p).read_data ≡ err e rest
    → parse_and_run_job true p o ≡ done (negsuc 0) (after_refusal p o)
unfolding parse_and_run_job
parse_and_run_job-err p o parsed = simp (update_self, parsed)

-- The orchestrator once `n` bytes of the response are sent.
abbrev pub after_sending : ℕ → Pointer → Orchestrator → Orchestrator
after_sending n p o =
    let o₁ = changed p set_parsing o in
    record o₁ {
      sent = o.sent ++ ((o.heap p).socket, take n (write_buffer (set_parsing (o.heap p)))) ∷ [];
    }

abbrev pub rearmed : ℕ → Pointer → Orchestrator → Orchestrator
rearmed fd p o =
    let o₁ = changed p reset o in record o₁ { epoll_sockets = insert fd o.epoll_sockets }

after_write-error :
    (s : State) (fd : ℕ) (p : Pointer)
    → s.is_error ≡ true
    → after_write s fd p ≡ close_and_cleanup fd p
unfolding after_write
after_write-error s fd p e = rw e

after_write-fine :
    (s : State) (fd : ℕ) (p : Pointer) (o : Orchestrator)
    → s.is_error ≡ false
    → after_write s fd p o ≡ done tt (rearmed fd p o)
unfolding after_write
after_write-fine s fd p o e = rw e

write_job_lem :
    (n : ℕ) (p : Pointer) (o : Orchestrator)
    → write_job (some n) p o
      ≡ go_on
          (λ _. pure (pos 0))
          (after_write (set_parsing (o.heap p)) (o.heap p).socket p (after_sending n p o))
unfolding write_job
write_job_lem n p o = simp update_self

pub write_job-error :
    (n : ℕ) (p : Pointer) (o : Orchestrator)
    → o.all_sockets (o.heap p).socket ≡ some p
    → (o.heap p).is_error ≡ true
    → write_job (some n) p o ≡ done (pos 0) (cleaned (o.heap p).socket p (after_sending n p o))
write_job-error n p o registered e =
    let fd = (o.heap p).socket in
    write_job_lem n p o
    ∙ ap (λ k. go_on (λ _. pure (pos 0)) (k (after_sending n p o)))
        (after_write-error (set_parsing (o.heap p)) fd p e)
    ∙ ap (go_on (λ _. pure (pos 0)))
        (close_and_cleanup-cleaned fd p (after_sending n p o) registered)

pub write_job-fine :
    (n : ℕ) (p : Pointer) (o : Orchestrator)
    → (o.heap p).is_error ≡ false
    → write_job (some n) p o ≡ done (pos 0) (rearmed (o.heap p).socket p (after_sending n p o))
write_job-fine n p o e =
    write_job_lem n p o
    ∙ ap (go_on (λ _. pure (pos 0)))
        (after_write-fine (set_parsing (o.heap p)) (o.heap p).socket p (after_sending n p o) e)
