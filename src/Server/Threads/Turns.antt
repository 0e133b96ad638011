-- ===== src/Server/Threads/Turns.antt =====
-- Every turn keeps the connections in order, and the data stores those of one dictionary.
use ns1_interview_redis.Prelude.{
  ℕ, ◌≡◌, ◌≢◌, refl, sym, ap, ◌∙◌, Bool, true, false, Option, none, some, List, [], ◌∷◌, ◌++◌,
}
use mathlib.Core.Path.{subst}
use ns1_interview_redis.Prelude.Bytes.{Bytes}
use ns1_interview_redis.Resp.{RespObject}
use ns1_interview_redis.Parser.Result.{ok, err, ParseError}
use ns1_interview_redis.Parser.{parse}
use ns1_interview_redis.Commands.Action.{DataStores}
use ns1_interview_redis.Commands.{do_operation}
use ns1_interview_redis.Commands.Dictionary.{Dictionary}
use ns1_interview_redis.Commands.Simulation.{Represents}
use ns1_interview_redis.Session.{State}
use ns1_interview_redis.Server.Effect.{Orchestrator, Pointer, update, update_self, update-ne}
use ns1_interview_redis.Server.Jobs.{
  ReadEnd, read_loop, read_job, parse_and_run_job, write_job, answered, unable_to_parse,
}
use ns1_interview_redis.Server.Steps.{changed, set_parsing, rearmed, after_sending}
use ns1_interview_redis.Server.Reading.{set_reading}
use ns1_interview_redis.Server.Failures.{read_over}
use ns1_interview_redis.Server.Closing.{cleaned}
use ns1_interview_redis.Server.Threads.Places.{
  reading, parsing, writing, Finds, IsOrderly, IsOrderlyBut, Fine,
}
use ns1_interview_redis.Server.Threads.Moves.{
  changed-IsOrderlyBut, queue-parse-IsOrderly, queue-write-IsOrderly, rearmed-IsOrderly,
  cleaned-IsOrderly,
}
use ns1_interview_redis.Server.Threads.Handlers.{
  unparsed, commanded, read_job-Fine, refused-Fine, commanded-Fine, write_job-Fine,
}

-- The connections are in order, and the data stores hold the dictionary.
abbrev pub IsRight : Dictionary → Orchestrator → Type 0
IsRight m o = IsOrderly o × Represents o.datastore m

-- The members of a response's connection behind a command.
answered-Finds :
    (b : Bool) (x : RespObject) (s : State)
    → s.special_error ≡ []
    → Finds writing (answered (b, some x) s)
answered-Finds true x s quiet = (quiet, (x, refl))
answered-Finds false x s quiet = (quiet, (x, refl))

-- A change that keeps the socket and the mutex.
abbrev Keeps : (State → State) → Type 0
Keeps f = (s : State) → ((f s).socket ≡ s.socket) × ((f s).is_locked ≡ s.is_locked)

answered-Keeps : (b : Bool) (x : RespObject) → Keeps (answered (b, some x))
answered-Keeps true x s = (refl, refl)
answered-Keeps false x s = (refl, refl)

module _ {p : Pointer} {o : Orchestrator} (v : IsOrderlyBut p o) (f : State → State)
    (keeps : Keeps f) (h : Pointer → State) (there : h p ≡ f (o.heap p))
    (others : (q : Pointer) → q ≢ p → h q ≡ o.heap q) (st : DataStores) (l : List (ℕ × Bytes)) where
  -- The connection is in order behind the change.
  behind : IsOrderlyBut p (record o { heap = h; datastore = st; sent = l })
  behind =
      changed-IsOrderlyBut v h st l others
        (ap (λ (s : State). s.socket) there ∙ (keeps (o.heap p)).0)
        (ap (λ (s : State). s.is_locked) there ∙ (keeps (o.heap p)).1)

  closed_behind :
      IsOrderly (cleaned (o.heap p).socket p (record o { heap = h; datastore = st; sent = l }))
  closed_behind =
      subst (λ fd. IsOrderly (cleaned fd p (record o { heap = h; datastore = st; sent = l })))
        (ap (λ (s : State). s.socket) there ∙ (keeps (o.heap p)).0) (cleaned-IsOrderly behind)

  rearmed_behind :
      IsOrderly (rearmed (o.heap p).socket p (record o { heap = h; datastore = st; sent = l }))
  rearmed_behind =
      subst (λ fd. IsOrderly (rearmed fd p (record o { heap = h; datastore = st; sent = l })))
        (ap (λ (s : State). s.socket) there ∙ (keeps (o.heap p)).0) (rearmed-IsOrderly behind)

  parse_behind :
      Finds parsing (f (o.heap p))
      → IsOrderly
          (record o { heap = h; datastore = st; sent = l; parse_jobs = o.parse_jobs ++ p ∷ [] })
  parse_behind finds = queue-parse-IsOrderly behind (subst (Finds parsing) (sym there) finds)

  write_behind :
      Finds writing (f (o.heap p))
      → IsOrderly
          (record o { heap = h; datastore = st; sent = l; write_jobs = o.write_jobs ++ p ∷ [] })
  write_behind finds = queue-write-IsOrderly behind (subst (Finds writing) (sym there) finds)

module _ (p : Pointer) (s s' : State) (h : Pointer → State) (q : Pointer) (ne : q ≢ p) where
  once_ne : update p s h q ≡ h q
  once_ne = update-ne p q s h λ e. ne (sym e)

  twice_ne : update p s' (update p s h) q ≡ h q
  twice_ne = update-ne p q s' (update p s h) (λ e. ne (sym e)) ∙ once_ne

module _ (F : Type 0) {p : Pointer} {o : Orchestrator} {m : Dictionary} (v : IsOrderlyBut p o)
    (r : Represents o.datastore m) where
  pub read_job-IsRight :
      (chunks : List Bytes) (end : ReadEnd) (room : Bool)
      → Finds reading (o.heap p)
      → (read_loop (o.heap p).read_data chunks ≡ none → F)
      → Fine F (IsRight m) (read_job chunks end room p o)
  read_job-IsRight chunks end room (quiet, unread) faults =
      let f = λ (text : Bytes) (s : State). record (set_reading s) { read_data = text } in
      read_job-Fine F (IsRight m) p o v.registered chunks end room faults
        (λ text. (
          parse_behind v (f text) (λ s. (refl, refl)) (read_over p text o).heap (simp update_self)
              (λ q ne. twice_ne p _ _ o.heap q ne) o.datastore o.sent
              (record {
                no_response = quiet.no_response;
                no_error = quiet.no_error;
                no_special_error = quiet.no_special_error;
              }),
          r,
        ))
        (λ text. (
          closed_behind v (f text) (λ s. (refl, refl)) (read_over p text o).heap (simp update_self)
              (λ q ne. twice_ne p _ _ o.heap q ne) o.datastore o.sent,
          r,
        ))

  pub write_job-IsRight : (n : Option ℕ) → Fine F (IsRight m) (write_job n p o)
  write_job-IsRight n =
      let there : (changed p set_parsing o).heap p ≡ set_parsing (o.heap p) = simp update_self in
      let others = once_ne p (set_parsing (o.heap p)) (o.heap p) o.heap in
      write_job-Fine F (IsRight m) p o v.registered n
        (
          closed_behind v set_parsing (λ s. (refl, refl)) (changed p set_parsing o).heap there
              others o.datastore o.sent,
          r,
        )
        (λ n. (
          closed_behind v set_parsing (λ s. (refl, refl)) (changed p set_parsing o).heap there
              others o.datastore (after_sending n p o).sent,
          r,
        ))
        (λ n. (
          rearmed_behind v set_parsing (λ s. (refl, refl)) (changed p set_parsing o).heap there
              others o.datastore (after_sending n p o).sent,
          r,
        ))

  pub unparsed-IsRight :
      (room : Bool) {e : ParseError} {rest : Bytes}
      → Finds parsing (o.heap p)
      → parse (o.heap p).read_data ≡ err e rest
      → Fine F (IsRight m) (parse_and_run_job room p o)
  unparsed-IsRight room quiet unread =
      let f = λ (s : State). record (set_parsing s) {
        is_error = true;
        response = some (unable_to_parse s.read_data);
      } in
      refused-Fine F (IsRight m) p o v.registered room unread
        (
          write_behind v f (λ s. (refl, refl)) (unparsed p o).heap (simp update_self)
              (λ q ne. twice_ne p _ _ o.heap q ne) o.datastore o.sent
              (quiet.no_special_error, (_, refl)),
          r,
        )
        (
          closed_behind v f (λ s. (refl, refl)) (unparsed p o).heap (simp update_self)
              (λ q ne. twice_ne p _ _ o.heap q ne) o.datastore o.sent,
          r,
        )

  pub commanded-IsRight :
      (room : Bool) {c x : RespObject} {rest : Bytes} {b : Bool} {m' : Dictionary} {st : DataStores}
      → Finds parsing (o.heap p)
      → parse (o.heap p).read_data ≡ ok c rest
      → do_operation c o.datastore ≡ some ((b, some x), st)
      → Represents st m'
      → Fine F (IsRight m') (parse_and_run_job room p o)
  commanded-IsRight room {c} {x} {rest} {b} {m'} {st} quiet read ran r' =
      let f = λ (s : State). answered (b, some x) (record (set_parsing s) { object = some c }) in
      let keeps : Keeps f = λ s. answered-Keeps b x (record (set_parsing s) { object = some c }) in
      let others : (q : Pointer) → q ≢ p → (commanded p c (b, some x) st o).heap q ≡ o.heap q =
        λ q ne. update-ne p q _ _ (λ e. ne (sym e)) ∙ twice_ne p _ _ o.heap q ne in
      commanded-Fine F (IsRight m') p o v.registered room read ran
        (
          write_behind v f keeps (commanded p c (b, some x) st o).heap (simp update_self) others st
              o.sent (answered-Finds b x _ quiet.no_special_error),
          r',
        )
        (
          closed_behind v f keeps (commanded p c (b, some x) st o).heap (simp update_self) others st
              o.sent,
          r',
        )
