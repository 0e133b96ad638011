-- ===== src/Server/Requests.antt =====
-- One request through the workers: what a client is sent, and what becomes of its connection.
use ns1_interview_redis.Prelude.{
  ℕ, ◌≡◌, refl, ap, ◌∙◌, Bool, true, false, none, some, [], ◌∷◌, ◌++◌, take,
}
use mathlib.Core.Path.{subst}
use ns1_interview_redis.Prelude.Int.{ℤ, pos}
use ns1_interview_redis.Prelude.Bytes.{Bytes, c_str}
use ns1_interview_redis.Resp.{RespObject, serialize}
use ns1_interview_redis.Parser.Result.{ok}
use ns1_interview_redis.Parser.{parse}
use ns1_interview_redis.Commands.Action.{DataStores}
use ns1_interview_redis.Commands.{do_operation}
use ns1_interview_redis.Session.{State, reset}
use ns1_interview_redis.Server.Sets.{contains-insert_self}
use ns1_interview_redis.Server.Effect.{
  Orchestrator, Pointer, Action, done, ◌>>=◌, update_self, contains,
}
use ns1_interview_redis.Server.Jobs.{
  parse_and_run_job, write_job, write_buffer, answered, unable_to_parse,
}
use ns1_interview_redis.Server.Closing.{IsGone, cleaned, cleaned-IsGone}
use ns1_interview_redis.Server.Steps.{
  set_parsing, after_command, after_sending, rearmed, parse_and_run_job-ok, write_job-error,
  write_job-fine,
}

-- The state of a connection between two requests.
pub record IsIdle (s : State) : Type 0 where
  pub nothing_read : s.read_data ≡ []
  pub no_response : s.response ≡ none
  pub no_error : s.is_error ≡ false
  pub no_special_error : s.special_error ≡ []
  pub is_free : s.is_locked ≡ false

-- The connection is polled for its next request.
pub record IsRearmed (fd : ℕ) (p : Pointer) (before after : Orchestrator) : Type 0 where
  pub polled : contains fd after.epoll_sockets ≡ true
  pub registered : after.all_sockets fd ≡ before.all_sockets fd
  pub owned : (after.heap p).socket ≡ fd
  pub idle : IsIdle (after.heap p)
  pub not_closed : after.closed ≡ before.closed

-- The connection is closed, or goes on.
abbrev pub Fate : Bool → ℕ → Pointer → Orchestrator → Orchestrator → Type 0
Fate true fd p before after = IsGone fd before after
Fate false fd p before after = IsRearmed fd p before after

-- The text was handed to write(), which took `n` bytes; the connection is closed or goes on; the
-- data stores are `st`.
pub record Delivered (closes : Bool) (fd n : ℕ) (p : Pointer) (text : Bytes) (st : DataStores)
    (before after : Orchestrator) : Type 0 where
  pub sent : after.sent ≡ before.sent ++ (fd, take n text) ∷ []
  pub fate : Fate closes fd p before after
  pub data_left : after.datastore ≡ st

pub IsGone-from :
    {fd : ℕ} {o' after : Orchestrator} (o : Orchestrator)
    → o'.closed ≡ o.closed
    → IsGone fd o' after
    → IsGone fd o after
IsGone-from {fd} o c g = record {
  unregistered = g.unregistered;
  not_polled = g.not_polled;
  not_processing = g.not_processing;
  not_writing = g.not_writing;
  is_closed = g.is_closed ∙ ap (λ l. l ++ fd ∷ []) c;
}

pub reset-IsIdle : (s : State) → IsIdle (reset s)
unfolding reset
reset-IsIdle s = record {
  nothing_read = refl;
  no_response = refl;
  no_error = refl;
  no_special_error = refl;
  is_free = refl;
}

write_buffer-response :
    (s : State) {x : RespObject}
    → s.special_error ≡ []
    → s.response ≡ some x
    → write_buffer s ≡ c_str (serialize x)
unfolding write_buffer
write_buffer-response s quiet e = rw quiet (rw e)

module _ (n : ℕ) (p : Pointer) (o : Orchestrator) {x : RespObject}
    (quiet : (o.heap p).special_error ≡ []) (answer : (o.heap p).response ≡ some x) where
  sent_response :
      o.sent ++ ((o.heap p).socket, take n (write_buffer (set_parsing (o.heap p)))) ∷ []
      ≡ o.sent ++ ((o.heap p).socket, take n (c_str (serialize x))) ∷ []
  sent_response = cc (write_buffer-response (set_parsing (o.heap p)) quiet answer)

  -- `write_job` hands the serialized response, up to its first NUL, to write(). It closes the
  -- connection if the error flag is set, and has it polled again, from a cleared state, if not.
  pub write_job-Delivered :
      (closes : Bool)
      → o.all_sockets (o.heap p).socket ≡ some p
      → (o.heap p).is_error ≡ closes
      → (after : Orchestrator) × (write_job (some n) p o ≡ done (pos 0) after)
        × Delivered closes (o.heap p).socket n p (c_str (serialize x)) o.datastore o after
  unfolding reset
  write_job-Delivered true registered e = (
    cleaned (o.heap p).socket p (after_sending n p o),
    write_job-error n p o registered e,
    record {
      sent = sent_response;
      fate = IsGone-from o refl (cleaned-IsGone (o.heap p).socket p (after_sending n p o));
      data_left = refl;
    },
  )
  write_job-Delivered false registered e = (
    rearmed (o.heap p).socket p (after_sending n p o),
    write_job-fine n p o e,
    record {
      sent = sent_response;
      fate = record {
        polled = contains-insert_self (o.heap p).socket o.epoll_sockets;
        registered = refl;
        owned = simp update_self;
        idle = simp update_self (reset-IsIdle (set_parsing (o.heap p)));
        not_closed = refl;
      };
      data_left = refl;
    },
  )

-- What was delivered, seen from before the parse job.
pub carry :
    (closes : Bool) {fd n : ℕ} {p : Pointer} {text : Bytes} {st : DataStores}
    {o' after : Orchestrator} (o : Orchestrator)
    → o'.sent ≡ o.sent
    → o'.closed ≡ o.closed
    → o'.all_sockets ≡ o.all_sockets
    → Delivered closes fd n p text st o' after
    → Delivered closes fd n p text st o after
carry true {fd} {n} {text = text} o s c a d = record {
  sent = d.sent ∙ ap (λ l. l ++ (fd, take n text) ∷ []) s;
  fate = IsGone-from o c d.fate;
  data_left = d.data_left;
}
carry false {fd} {n} {text = text} o s c a d = record {
  sent = d.sent ∙ ap (λ l. l ++ (fd, take n text) ∷ []) s;
  fate = record {
    polled = d.fate.polled;
    registered = d.fate.registered ∙ ap (λ m. m fd) a;
    owned = d.fate.owned;
    idle = d.fate.idle;
    not_closed = d.fate.not_closed ∙ c;
  };
  data_left = d.data_left;
}

-- What the two jobs leave, where the first leaves the orchestrator `o'` with the state `s'`.
write_after :
    (closes : Bool) (n : ℕ) (p : Pointer) (o o' : Orchestrator) (s' : State) {x : RespObject}
    → o'.heap p ≡ s'
    → s'.socket ≡ (o.heap p).socket
    → s'.special_error ≡ []
    → s'.response ≡ some x
    → s'.is_error ≡ closes
    → o'.all_sockets ≡ o.all_sockets
    → o'.sent ≡ o.sent
    → o'.closed ≡ o.closed
    → o.all_sockets (o.heap p).socket ≡ some p
    → (after : Orchestrator) × (write_job (some n) p o' ≡ done (pos 0) after)
      × Delivered closes (o.heap p).socket n p (c_str (serialize x)) o'.datastore o after
write_after closes n p o o' s' {x} there at quiet answer flag a s c registered =
    let at' : (o'.heap p).socket ≡ (o.heap p).socket = ap (λ (t : State). t.socket) there ∙ at in
    let (after, runs, delivered) =
      write_job-Delivered n p o' (ap (λ (t : State). t.special_error) there ∙ quiet)
        (ap (λ (t : State). t.response) there ∙ answer) closes
        (ap (λ m. m (o'.heap p).socket) a ∙ ap o.all_sockets at' ∙ registered)
        (ap (λ (t : State). t.is_error) there ∙ flag) in
    (
      after,
      runs,
      carry closes o s c a (
          subst (λ k. Delivered closes k n p (c_str (serialize x)) o'.datastore o' after) at'
            delivered),
    )

abbrev refused : State → State
refused s = record (set_parsing s) {
  is_error = true;
  response = some (unable_to_parse s.read_data);
}

abbrev with_object : RespObject → State → State
with_object object s = record (set_parsing s) { object = some object }

-- The two jobs of a request, one after the other.
abbrev pub answer_request : ℕ → Pointer → Action ℤ
answer_request n p = parse_and_run_job true p >>= λ _. write_job (some n) p

module _ (n : ℕ) (p : Pointer) (o : Orchestrator)
    (registered : o.all_sockets (o.heap p).socket ≡ some p) (quiet : (o.heap p).special_error ≡ [])
    (calm : (o.heap p).is_error ≡ false) where
  -- A command that parses and runs is answered by its response. The connection is closed if the
  -- operation says so, and is polled again, from a cleared state, if not. The data stores are those
  -- that the operation left.
  pub answer_request-ok :
      (closes : Bool) {object x : RespObject} {rest : Bytes} {st : DataStores}
      → parse (o.heap p).read_data ≡ ok object rest
      → do_operation object o.datastore ≡ some ((closes, some x), st)
      → (after : Orchestrator) × (answer_request n p o ≡ done (pos 0) after)
        × Delivered closes (o.heap p).socket n p (c_str (serialize x)) st o after
  answer_request-ok true {object} {x} {rest} {st} parsed ran =
      let (after, runs, delivered) =
        write_after true n p o (after_command p object (true, some x) st o)
          (answered (true, some x) (with_object object (o.heap p))) (simp update_self) refl quiet
          refl refl refl refl refl registered in
      (after, rw (parse_and_run_job-ok p o parsed ran) runs, delivered)
  answer_request-ok false {object} {x} {rest} {st} parsed ran =
      let (after, runs, delivered) =
        write_after false n p o (after_command p object (false, some x) st o)
          (answered (false, some x) (with_object object (o.heap p))) (simp update_self) refl quiet
          refl calm refl refl refl registered in
      (after, rw (parse_and_run_job-ok p o parsed ran) runs, delivered)
