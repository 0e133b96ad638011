-- ===== src/Server/EndToEnd.antt =====
-- From the bytes that a client sends to the bytes that it is sent: the server as one dictionary.
use ns1_interview_redis.Prelude.{
  ℕ, ◌≡◌, ◌<◌, refl, sym, ap, ◌∙◌, Bool, true, false, Option, none, some, List, [], ◌∷◌, ◌++◌,
  arith, length, All,
}
use mathlib.Core.Path.{subst}
use ns1_interview_redis.Prelude.Int.{ℤ, pos}
use ns1_interview_redis.Prelude.Bytes.{Bytes, bytes_eq, c_str, codes}
use ns1_interview_redis.Resp.{RespObject, integer, string, bulk_string, error, serialize}
use ns1_interview_redis.Parser.Wire.{IsWire, null, text, items}
use ns1_interview_redis.Parser.NoNul.{c_str-serialize, c_str-serialize_count}
use ns1_interview_redis.Parser.RoundTrip.{parse-serialize}
use ns1_interview_redis.Parser.{parse}
use ns1_interview_redis.Commands.Dictionary.{
  Dictionary, Request, get, set, del, invalid, request, obey, remove_all,
}
use ns1_interview_redis.Commands.Simulation.{Represents}
use ns1_interview_redis.Commands.Refinement.{IsServed, do_operation-Simulates}
use ns1_interview_redis.Session.{State}
use ns1_interview_redis.Server.Effect.{
  Orchestrator, Pointer, Action, done, ◌>>=◌, update_self, erase, insert,
}
use ns1_interview_redis.Server.Sockets.{handle_events}
use ns1_interview_redis.Server.Polling.{waiting_state, taken, handle_events-taken}
use ns1_interview_redis.Server.Jobs.{bufsize, ReadEnd, is_failed, read_loop, read_job}
use ns1_interview_redis.Server.Reading.{
  received, read_loop-received, set_reading, after_reading, read_job-ok,
}
use ns1_interview_redis.Server.Requests.{
  Delivered, IsIdle, answer_request, answer_request-ok, carry,
}

abbrev reply_entry : Option RespObject → RespObject
reply_entry none = bulk_string [] true
reply_entry (some x) = x

-- The object that answers a request.
abbrev pub reply : Request → Dictionary → RespObject
reply (get k) m = reply_entry (m k)
reply (set k x) m = string (codes "OK")
reply (del ks) m = integer (pos (remove_all 0 ks m).0)
reply invalid m = error (codes "Invalid command")

abbrev has_entry : Option RespObject → Bool
has_entry none = false
has_entry (some x) = true

-- The connection is closed behind a GET that finds its key, and behind no other request.
abbrev pub closes : Request → Dictionary → Bool
closes (get k) m = has_entry (m k)
closes _ m = false

pub obey-reply : (q : Request) (m : Dictionary) → (obey q m).0 ≡ (closes q m, some (reply q m))
obey-reply (get k) m = ground arith
obey-reply (set k x) m = refl
obey-reply (del ks) m = refl
obey-reply invalid m = refl

c_str-reply_entry :
    (e : Option RespObject)
    → ((x : RespObject) → e ≡ some x → IsWire x)
    → c_str (serialize (reply_entry e)) ≡ serialize (reply_entry e)
c_str-reply_entry none w = c_str-serialize null
c_str-reply_entry (some x) w = c_str-serialize (w x refl)

c_str-reply :
    (q : Request) (m : Dictionary)
    → ((k : Bytes) (x : RespObject) → m k ≡ some x → IsWire x)
    → c_str (serialize (reply q m)) ≡ serialize (reply q m)
unfolding serialize c_str
c_str-reply (get k) m w = c_str-reply_entry (m k) (w k)
c_str-reply (set k x) m w = refl
c_str-reply (del ks) m w = c_str-serialize_count (remove_all 0 ks m).0
c_str-reply invalid m w = refl

-- The request was answered as by the dictionary: the reply is handed to write(), the connection is
-- closed or polled again, and the data stores represent the dictionary behind the request.
pub record Served (q : Request) (m : Dictionary) (n : ℕ) (p : Pointer) (before after : Orchestrator)
    : Type 0 where
  pub delivered :
      Delivered
        (closes q m)
        (before.heap p).socket
        n
        p
        (serialize (reply q m))
        after.datastore
        before
        after
  pub represents : Represents after.datastore (obey q m).1

abbrev read_state : Bytes → State → State
read_state d s = record (set_reading s) { read_data = d }

module _ (n : ℕ) (p : Pointer) (c : RespObject) (m : Dictionary) (rest : Bytes) where
  answer-Served :
      (o : Orchestrator)
      → o.all_sockets (o.heap p).socket ≡ some p
      → (o.heap p).special_error ≡ []
      → (o.heap p).is_error ≡ false
      → (o.heap p).read_data ≡ serialize c ++ rest
      → Represents o.datastore m
      → IsServed c
      → (after : Orchestrator) × (answer_request n p o ≡ done (pos 0) after)
        × Served (request c) m n p o after
  answer-Served o registered quiet calm arrived r (wire, placed) =
      let q = request c in
      let s = do_operation-Simulates c r wire placed in
      let parsed = ap parse arrived ∙ parse-serialize c rest wire in
      let ran = s.runs ∙ ap (λ reply. some (reply, s.after)) (obey-reply q m) in
      let (after, runs, d) =
        answer_request-ok n p o registered quiet calm (closes q m) parsed ran in
      (
        after,
        runs,
        record {
          delivered =
              subst
                (λ st.
                  Delivered (closes q m) (o.heap p).socket n p (serialize (reply q m)) st o after)
                (sym d.data_left)
                (subst (λ t. Delivered (closes q m) (o.heap p).socket n p t s.after o after)
                  (c_str-reply q m r.wire) d);
          represents = subst (λ st. Represents st (obey q m).1) (sym d.data_left) s.still;
        },
      )

-- The three jobs of a request, one after the other.
abbrev serve_jobs : List Bytes → ReadEnd → ℕ → Pointer → Action ℤ
serve_jobs chunks end n p = read_job chunks end true p >>= λ _. answer_request n p

-- A round of the epoll thread that finds the socket ready, and the three jobs behind it.
abbrev pub serve_connection : List Bytes → ReadEnd → ℕ → ℕ → Pointer → Action ℤ
serve_connection chunks end n fd p =
    handle_events (λ _. true) ((fd, true) ∷ []) >>= λ _. serve_jobs chunks end n p

bytes_eq-serialize :
    (c : RespObject) (rest : Bytes) → IsWire c → bytes_eq (serialize c ++ rest) [] ≡ false
unfolding serialize bytes_eq
bytes_eq-serialize _ rest null = refl
bytes_eq-serialize _ rest (text clean short) = refl
bytes_eq-serialize _ rest (items w short) = refl

serve_jobs-Served :
    (chunks : List Bytes) (end : ReadEnd) (n : ℕ) (p : Pointer) (c : RespObject) (m : Dictionary)
    (rest : Bytes) (o : Orchestrator)
    → o.all_sockets (o.heap p).socket ≡ some p
    → (o.heap p).read_data ≡ []
    → (o.heap p).is_error ≡ false
    → (o.heap p).special_error ≡ []
    → All (λ chunk. length chunk < bufsize) chunks
    → received chunks ≡ serialize c ++ rest
    → is_failed end ≡ false
    → Represents o.datastore m
    → IsServed c
    → (after : Orchestrator) × (serve_jobs chunks end n p o ≡ done (pos 0) after)
      × Served (request c) m n p o after
serve_jobs-Served chunks end n p c m rest o registered nothing calm quiet short sends fine r
      served =
    let collected : read_loop (o.heap p).read_data chunks ≡ some (serialize c ++ rest) =
      ap (λ d. read_loop d chunks) nothing ∙ read_loop-received [] chunks short ∙ ap some sends in
    let o' = after_reading p (serialize c ++ rest) o in
    let there : o'.heap p ≡ read_state (serialize c ++ rest) (o.heap p) = simp update_self in
    let at = ap (λ (s : State). s.socket) there in
    let (after, runs, s) =
      answer-Served n p c m rest o' (ap o.all_sockets at ∙ registered)
        (ap (λ (s : State). s.special_error) there ∙ quiet)
        (ap (λ (s : State). s.is_error) there ∙ calm) (ap (λ (s : State). s.read_data) there) r
        served in
    (
      after,
      rw (read_job-ok chunks end p o collected fine (bytes_eq-serialize c rest served.0)) runs,
      record {
        delivered = carry (closes (request c) m) o refl refl refl (
            subst
              (λ k.
                Delivered (closes (request c) m) k n p (serialize (reply (request c) m))
                  after.datastore o' after)
              at s.delivered);
        represents = s.represents;
      },
    )

abbrev handled : Pointer → Orchestrator → Orchestrator
handled p o =
    let fd = (o.heap p).socket in
    taken (λ _. p) true fd
      (record o {
        epoll_sockets = erase fd o.epoll_sockets;
        processing_sockets = insert fd o.processing_sockets;
      })

handled-heap : (p : Pointer) (o : Orchestrator) → (handled p o).heap p ≡ waiting_state (o.heap p)
handled-heap p o = simp update_self

-- An idle, registered connection sends a wire object whose keys have data stores, in reads that do
-- not fill the buffer and do not end in an error; any bytes may follow. Where the data stores
-- represent a dictionary, the round of the epoll thread that finds the socket ready and the three
-- jobs behind it run without a fault: write() takes the first n bytes of the dictionary's reply,
-- the connection is closed behind a GET that finds its key and polled again, idle, behind any other
-- request, and the data stores represent the dictionary behind the request.
pub serve_connection-Served :
    (chunks : List Bytes) (end : ReadEnd) (n : ℕ) (p : Pointer) (c : RespObject) (m : Dictionary)
    (rest : Bytes) (o : Orchestrator)
    → o.all_sockets (o.heap p).socket ≡ some p
    → IsIdle (o.heap p)
    → All (λ chunk. length chunk < bufsize) chunks
    → received chunks ≡ serialize c ++ rest
    → is_failed end ≡ false
    → Represents o.datastore m
    → IsServed c
    → (after : Orchestrator) × (serve_connection chunks end n (o.heap p).socket p o
        ≡ done (pos 0) after)
      × Served (request c) m n p o after
serve_connection-Served chunks end n p c m rest o registered idle short sends fine r served =
    let there = handled-heap p o in
    let at = ap (λ (s : State). s.socket) there in
    let (after, runs, s) =
      serve_jobs-Served chunks end n p c m rest (handled p o) (ap o.all_sockets at ∙ registered)
        (ap (λ (s : State). s.read_data) there ∙ idle.nothing_read)
        (ap (λ (s : State). s.is_error) there ∙ idle.no_error)
        (ap (λ (s : State). s.special_error) there ∙ idle.no_special_error) short sends fine r
        served in
    (
      after,
      rw (handle_events-taken (λ _. p) (o.heap p).socket o (registered, refl, idle.is_free)) runs,
      record {
        delivered = carry (closes (request c) m) o refl refl refl (
            subst
              (λ k.
                Delivered (closes (request c) m) k n p (serialize (reply (request c) m))
                  after.datastore (handled p o) after)
              at s.delivered);
        represents = s.represents;
      },
    )
