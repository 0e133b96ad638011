-- ===== src/Server/Threads/Handlers.antt =====
-- The three jobs, over every result of their calls: a condition on what they may leave.
use ns1_interview_redis.Prelude.{
  ℕ, ◌≡◌, ◌⊎◌, inl, inr, refl, ap, ◌∙◌, Bool, true, false, ◌||◌, Option, none, some, List, [],
  Bool-cases,
}
use ns1_interview_redis.Prelude.Int.{ℤ, pos, negsuc}
use ns1_interview_redis.Prelude.Bytes.{Bytes, bytes_eq}
use ns1_interview_redis.Resp.{RespObject}
use ns1_interview_redis.Parser.Result.{ok, err, ParseError}
use ns1_interview_redis.Parser.{parse}
use ns1_interview_redis.Commands.Action.{DataStores}
use ns1_interview_redis.Commands.{Response, do_operation}
use ns1_interview_redis.Server.Effect.{
  Orchestrator, Pointer, Effect, done, undefined, pure, go_on, update_self,
}
use ns1_interview_redis.Server.Sockets.{close_and_cleanup}
use ns1_interview_redis.Server.Jobs.{
  ReadEnd, is_failed, read_bytes, read_loop, read_job, parse_and_run_job, write_job, answered,
  unable_to_parse,
}
use ns1_interview_redis.Server.Steps.{
  changed, set_parsing, after_command, after_refusal, after_sending, rearmed, parse_and_run_job-ok,
  parse_and_run_job-err, write_job-error, write_job-fine,
}
use ns1_interview_redis.Server.Reading.{after_reading}
use ns1_interview_redis.Server.Failures.{read_over, read_job-close, write_job-close}
use ns1_interview_redis.Server.Closing.{cleaned, close_and_cleanup-cleaned}
use ns1_interview_redis.Server.Threads.Places.{IsRegistered, Fine}

pub Option-cases {ℓ} : {A : Type ℓ} (x : Option A) → (x ≡ none) ⊎ ((a : A) × (x ≡ some a))
Option-cases none = inl refl
Option-cases (some a) = inr (a, refl)

module _ (chunks : List Bytes) (end : ReadEnd) (p : Pointer) (o : Orchestrator) where
  read_job-undefined :
      (room : Bool)
      → read_loop (o.heap p).read_data chunks ≡ none
      → read_job chunks end room p o ≡ undefined
  unfolding read_job
  read_job-undefined room overrun = simp update_self (rw overrun refl)

  read_job-queued :
      {text : Bytes}
      → read_loop (o.heap p).read_data chunks ≡ some text
      → (is_failed end || bytes_eq text []) ≡ false
      → read_job chunks end true p o ≡ done (pos 0) (after_reading p text o)
  unfolding read_job
  read_job-queued collected more = simp update_self (rw collected (rw more (simp update_self)))

  read_job-unqueued :
      {text : Bytes}
      → read_loop (o.heap p).read_data chunks ≡ some text
      → (is_failed end || bytes_eq text []) ≡ false
      → read_job chunks end false p o
        ≡ go_on (λ _. pure (negsuc 0)) (close_and_cleanup (o.heap p).socket p (read_over p text o))
  unfolding read_job
  read_job-unqueued collected more = simp update_self (rw collected (rw more (simp update_self)))

-- The orchestrator before the response is queued.
abbrev pub unparsed : Pointer → Orchestrator → Orchestrator
unparsed p o =
    changed p (λ s. record s { is_error = true; response = some (unable_to_parse s.read_data) })
      (changed p set_parsing o)

abbrev pub commanded : Pointer → RespObject → Response → DataStores → Orchestrator → Orchestrator
commanded p object result st o =
    let o₁ = changed p (λ s. record s { object = some object }) (changed p set_parsing o) in
    changed p (answered result) (record o₁ { datastore = st })

module _ (p : Pointer) (o : Orchestrator) where
  parse_and_run_job-unparsed :
      {e : ParseError} {rest : Bytes}
      → parse (o.heap p).read_data ≡ err e rest
      → parse_and_run_job false p o
        ≡ go_on (λ _. pure (negsuc 0)) (close_and_cleanup (o.heap p).socket p (unparsed p o))
  unfolding parse_and_run_job
  parse_and_run_job-unparsed parsed = simp (update_self, parsed)

  parse_and_run_job-commanded :
      {object : RespObject} {rest : Bytes} {result : Response} {st : DataStores}
      → parse (o.heap p).read_data ≡ ok object rest
      → do_operation object o.datastore ≡ some (result, st)
      → parse_and_run_job false p o
        ≡ go_on
            (λ _. pure (negsuc 0))
            (close_and_cleanup (o.heap p).socket p (commanded p object result st o))
  unfolding parse_and_run_job
  parse_and_run_job-commanded parsed ran = simp (update_self, parsed, ran)

  pub parse_and_run_job-undefined :
      (room : Bool) {object : RespObject} {rest : Bytes}
      → parse (o.heap p).read_data ≡ ok object rest
      → do_operation object o.datastore ≡ none
      → parse_and_run_job room p o ≡ undefined
  unfolding parse_and_run_job
  parse_and_run_job-undefined room parsed ran = simp (update_self, parsed, ran)

module _ (F : Type 0) (P : Orchestrator → Type 0) (p : Pointer) (o : Orchestrator)
    (there : IsRegistered o p) where
  -- A job that ends by closing an orchestrator `o'`.
  closes-Fine :
      (o' : Orchestrator) (code : ℤ) (e : Effect ℤ)
      → o'.all_sockets ≡ o.all_sockets
      → e ≡ go_on (λ _. pure code) (close_and_cleanup (o.heap p).socket p o')
      → P (cleaned (o.heap p).socket p o')
      → Fine F P e
  closes-Fine o' code e same runs h = rw runs (
      rw
        (close_and_cleanup-cleaned (o.heap p).socket p o'
          (ap (λ m. m (o.heap p).socket) same ∙ there))
        h)

  read_more-Fine :
      (chunks : List Bytes) (end : ReadEnd) (room : Bool) (text : Bytes)
      → read_loop (o.heap p).read_data chunks ≡ some text
      → (is_failed end || bytes_eq text []) ≡ false
      → P (after_reading p text o)
      → P (cleaned (o.heap p).socket p (read_over p text o))
      → Fine F P (read_job chunks end room p o)
  read_more-Fine chunks end true text collected more passes closes =
      rw (read_job-queued chunks end p o collected more) passes
  read_more-Fine chunks end false text collected more passes closes =
      closes-Fine (read_over p text o) (negsuc 0) _ refl
        (read_job-unqueued chunks end p o collected more) closes

  read_over-Fine :
      (chunks : List Bytes) (end : ReadEnd) (room : Bool) (text : Bytes)
      → read_loop (o.heap p).read_data chunks ≡ some text
      → P (after_reading p text o)
      → P (cleaned (o.heap p).socket p (read_over p text o))
      → Fine F P (read_job chunks end room p o)
  read_over-Fine chunks end room text collected passes closes =
      elim (Bool-cases (is_failed end || bytes_eq text [])) [
        | inl over ↦
            closes-Fine (read_over p text o) (read_bytes end) _ refl
              (read_job-close chunks end room p o collected over) closes
        | inr more ↦ read_more-Fine chunks end room text collected more passes closes
      ]

  pub read_job-Fine :
      (chunks : List Bytes) (end : ReadEnd) (room : Bool)
      → (read_loop (o.heap p).read_data chunks ≡ none → F)
      → ((text : Bytes) → P (after_reading p text o))
      → ((text : Bytes) → P (cleaned (o.heap p).socket p (read_over p text o)))
      → Fine F P (read_job chunks end room p o)
  read_job-Fine chunks end room faults passes closes =
      elim (Option-cases (read_loop (o.heap p).read_data chunks)) [
        | inl overrun ↦ rw (read_job-undefined chunks end p o room overrun) (faults overrun)
        | inr (text, collected) ↦
            read_over-Fine chunks end room text collected (passes text) (closes text)
      ]

  pub refused-Fine :
      (room : Bool) {e : ParseError} {rest : Bytes}
      → parse (o.heap p).read_data ≡ err e rest
      → P (after_refusal p o)
      → P (cleaned (o.heap p).socket p (unparsed p o))
      → Fine F P (parse_and_run_job room p o)
  refused-Fine true parsed queued closes = rw (parse_and_run_job-err p o parsed) queued
  refused-Fine false parsed queued closes =
      closes-Fine (unparsed p o) (negsuc 0) _ refl (parse_and_run_job-unparsed p o parsed) closes

  pub commanded-Fine :
      (room : Bool) {object : RespObject} {rest : Bytes} {result : Response} {st : DataStores}
      → parse (o.heap p).read_data ≡ ok object rest
      → do_operation object o.datastore ≡ some (result, st)
      → P (after_command p object result st o)
      → P (cleaned (o.heap p).socket p (commanded p object result st o))
      → Fine F P (parse_and_run_job room p o)
  commanded-Fine true parsed ran queued closes = rw (parse_and_run_job-ok p o parsed ran) queued
  commanded-Fine false {object} {rest} {result} {st} parsed ran queued closes =
      closes-Fine (commanded p object result st o) (negsuc 0) _ refl
        (parse_and_run_job-commanded p o parsed ran) closes

  pub write_job-Fine :
      (n : Option ℕ)
      → P (cleaned (o.heap p).socket p (changed p set_parsing o))
      → ((n : ℕ) → P (cleaned (o.heap p).socket p (after_sending n p o)))
      → ((n : ℕ) → P (rearmed (o.heap p).socket p (after_sending n p o)))
      → Fine F P (write_job n p o)
  write_job-Fine none fails closes rearms =
      closes-Fine (changed p set_parsing o) (negsuc 0) _ refl (write_job-close p o) fails
  write_job-Fine (some n) fails closes rearms = elim (Bool-cases (o.heap p).is_error) [
    | inl e ↦ rw (write_job-error n p o there e) (closes n)
    | inr e ↦ rw (write_job-fine n p o e) (rearms n)
  ]
