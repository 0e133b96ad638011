-- ===== src/Server/Jobs.antt =====
-- src/orchestrator.cpp: `SocketReadJob::run`, `ParseAndRunJob::run` and `SocketWriteJob::run`.
use ns1_interview_redis.Prelude.{
  ℕ, Bool, true, false, ◌||◌, Option, none, some, List, [], ◌∷◌, ◌++◌, ◌==◌, if◌then◌else◌, length,
  take,
}
use ns1_interview_redis.Prelude.Int.{ℤ, pos, negsuc}
use ns1_interview_redis.Prelude.Bytes.{Bytes, bytes_eq, codes, c_str}
use ns1_interview_redis.Resp.{RespObject, error, serialize}
use ns1_interview_redis.Parser.Result.{Outcome, ok, err, out_of_fuel}
use ns1_interview_redis.Parser.{parse}
use ns1_interview_redis.Commands.{Response, do_operation}
use ns1_interview_redis.Session.{State, in_read_loop, parsing, reset, set_default_special_error}
use ns1_interview_redis.Server.Effect.{
  Pointer, Action, done, undefined, pure, ◌>>=◌, ◌>>◌, modify, change, on_datastore,
}
use ns1_interview_redis.Server.Sockets.{add_to_epoll_queue, close_and_cleanup}

-- `BUFSIZE`, the size of the array `buffer`
abbrev pub bufsize : ℕ
bufsize = 513

-- The count that read() is given, which is the whole array.
abbrev pub read_count : ℕ
read_count = bufsize

-- What read() puts into the buffer of the bytes that the socket holds.
abbrev pub read_into : Bytes → Bytes
read_into held = take read_count held

abbrev pub has_nul : Bytes → Bool
has_nul [] = false
has_nul (c ∷ cs) = if c == 0 then true else has_nul cs

-- `m_read_data += buffer` for one read of the bytes `chunk` into the zeroed buffer. A full buffer
-- with no NUL is no C string, and the read behind its end is undefined.
unfoldable pub append_buffer : Bytes → Bytes → Option Bytes
append_buffer read_data chunk =
    if has_nul chunk
    then some (read_data ++ c_str chunk)
    else if length chunk == bufsize
    then none
    else some (read_data ++ chunk)

abbrev pub go_on_reading : Option Bytes → (Bytes → Option Bytes) → Option Bytes
go_on_reading none f = none
go_on_reading (some read_data) f = f read_data

-- The loop, over what the socket holds at each read() that gave bytes.
unfoldable pub read_loop : Bytes → List Bytes → Option Bytes
read_loop read_data [] = some read_data
read_loop read_data (held ∷ more_held) =
    go_on_reading (append_buffer read_data (read_into held)) λ more. read_loop more more_held

-- The read that ends the loop: 0, or -1 with EAGAIN, or -1 with another errno.
pub data ReadEnd : Type 0 where
  end_of_file would_block failed : ReadEnd

abbrev pub is_failed : ReadEnd → Bool
is_failed failed = true
is_failed _ = false

abbrev pub read_bytes : ReadEnd → ℤ
read_bytes end_of_file = pos 0
read_bytes _ = negsuc 0

-- `add_to_parse_and_run_queue` and `add_to_write_queue`. `room` is false where there is no memory
-- for the job or its place in the queue.
abbrev pub add_to_parse_and_run_queue : Bool → Pointer → Action Bool
add_to_parse_and_run_queue true p o = done true (record o { parse_jobs = o.parse_jobs ++ p ∷ [] })
add_to_parse_and_run_queue false p o = done false o

abbrev pub add_to_write_queue : Bool → Pointer → Action Bool
add_to_write_queue true p o = done true (record o { write_jobs = o.write_jobs ++ p ∷ [] })
add_to_write_queue false p o = done false o

abbrev pub close_with : ℤ → ℕ → Pointer → Action ℤ
close_with code fd p = do close_and_cleanup fd p; pure code

-- The read data of `SocketReadJob::run`, once the loop has ended.
abbrev after_read : Bool → ReadEnd → ℕ → Pointer → Option Bytes → Action ℤ
after_read room end fd p none = λ o. undefined
after_read room end fd p (some read_data) = do
  change p (λ s. record s { read_data = read_data })
  if is_failed end || bytes_eq read_data [] then close_with (read_bytes end) fd p else do
    queued ← add_to_parse_and_run_queue room p
    if queued then pure (pos 0) else close_with (negsuc 0) fd p

-- `SocketReadJob::run`, where read() finds the chunks and then gives `end`
unfoldable pub read_job : List Bytes → ReadEnd → Bool → Pointer → Action ℤ
unfolding read_loop close_and_cleanup
read_job chunks end room p = do
  change p (λ s. record s { state = in_read_loop })
  λ o. after_read room end (o.heap p).socket p (read_loop (o.heap p).read_data chunks) o

-- The error object for a command that does not parse.
abbrev pub unable_to_parse : Bytes → RespObject
unable_to_parse read_data =
    error (codes "Unable to parse '" ++ (read_data ++ codes "'. Try again."))

abbrev finish_parse : ℤ → Bool → ℕ → Pointer → Action ℤ
finish_parse code room fd p = do
  queued ← add_to_write_queue room p
  if queued then pure code else close_with (negsuc 0) fd p

-- The special error, where a fatal error came without a response.
abbrev pub mark_fatal : Option RespObject → State → State
mark_fatal none s = set_default_special_error s
mark_fatal (some x) s = s

-- `m_response`, `m_is_error` and the special error, from what `do_operation` returned
abbrev pub answered : Response → State → State
answered (false, response) s = record s { response = response }
answered (true, response) s =
    mark_fatal response (record s { response = response; is_error = true })

abbrev after_parse : Bool → ℕ → Pointer → Outcome RespObject → Action ℤ
after_parse room fd p (err e rest) = do
  change p (λ s. record s { is_error = true; response = some (unable_to_parse s.read_data) })
  finish_parse (negsuc 0) room fd p
after_parse room fd p (ok parsed_obj rest) = do
  change p (λ s. record s { object = some parsed_obj })
  result ← on_datastore (do_operation parsed_obj)
  change p (answered result)
  finish_parse (pos 0) room fd p
after_parse room fd p out_of_fuel = λ o. undefined

-- `ParseAndRunJob::run`
unfoldable pub parse_and_run_job : Bool → Pointer → Action ℤ
unfolding set_default_special_error
parse_and_run_job room p = do
  change p (λ s. record s { state = parsing })
  λ o. after_parse room (o.heap p).socket p (parse (o.heap p).read_data) o

-- The bytes that `SocketWriteJob::run` writes: up to the first NUL.
abbrev response_buffer : Option RespObject → Bytes
response_buffer (some response) = c_str (serialize response)
response_buffer none = codes "-ERROR" ++ 13 ∷ 10 ∷ []

unfoldable pub write_buffer : State → Bytes
write_buffer s = elim s.special_error [ [] ↦ response_buffer s.response | c ∷ cs ↦ c ∷ cs ]

-- The choice after a write: the connection is closed, or polled again from a clean state.
unfoldable pub after_write : State → ℕ → Pointer → Action (Unit {0})
unfolding add_to_epoll_queue
after_write s fd p =
    if s.is_error then close_and_cleanup fd p else do change p reset; add_to_epoll_queue fd

abbrev written : ℕ → Pointer → Option ℕ → Action ℤ
written fd p none = close_with (negsuc 0) fd p
written fd p (some n) = do
  modify (λ o. record o { sent = o.sent ++ (fd, take n (write_buffer (o.heap p))) ∷ [] })
  λ o. after_write (o.heap p) fd p o
  pure (pos 0)

-- `SocketWriteJob::run`, where write() takes a number of the bytes, or fails
unfoldable pub write_job : Option ℕ → Pointer → Action ℤ
write_job bytes_written p = do
  change p (λ s. record s { state = parsing })
  λ o. written (o.heap p).socket p bytes_written o
