-- ===== src/Server/Sessions.antt =====
-- A connection that stays open over several requests.
use ns1_interview_redis.Prelude.{ℕ, ◌≡◌, ◌<◌, false, some, List, [], ◌∷◌, take, length}
use ns1_interview_redis.Prelude.Bytes.{Bytes}
use ns1_interview_redis.Resp.{RespObject, serialize}
use ns1_interview_redis.Commands.Dictionary.{Dictionary, request, obey}
use ns1_interview_redis.Commands.Simulation.{Represents}
use ns1_interview_redis.Commands.Refinement.{IsServed}
use ns1_interview_redis.Server.Effect.{Orchestrator, Pointer, Action, pure, ◌>>=◌}
use ns1_interview_redis.Server.Jobs.{bufsize, would_block}
use ns1_interview_redis.Server.Requests.{IsIdle}
use ns1_interview_redis.Server.EndToEnd.{reply, closes, serve_connection}

-- The connection is registered, idle, and the data stores represent the dictionary.
pub record IsOpen (fd : ℕ) (p : Pointer) (m : Dictionary) (o : Orchestrator) : Type 0 where
  pub registered : o.all_sockets fd ≡ some p
  pub owned : (o.heap p).socket ≡ fd
  pub idle : IsIdle (o.heap p)
  pub represents : Represents o.datastore m

-- A request short enough for one read, of a wire object whose keys have data stores.
abbrev pub IsMessage : RespObject → Type 0
IsMessage c = (length (serialize c) < bufsize) × IsServed c

-- No request closes the connection.
abbrev pub StaysOpen : List RespObject → Dictionary → Type 0
StaysOpen [] m = Unit
StaysOpen (c ∷ cs) m = (closes (request c) m ≡ false) × StaysOpen cs (obey (request c) m).1

abbrev pub left_by : List RespObject → Dictionary → Dictionary
left_by [] m = m
left_by (c ∷ cs) m = left_by cs (obey (request c) m).1

module _ (n fd : ℕ) (p : Pointer) where
  -- The replies on the connection, of each its first `n` bytes.
  abbrev pub replies : List RespObject → Dictionary → List (ℕ × Bytes)
  replies [] m = []
  replies (c ∷ cs) m =
      (fd, take n (serialize (reply (request c) m))) ∷ replies cs (obey (request c) m).1

  abbrev pub serve_session : List RespObject → Action (Unit {0})
  serve_session [] = pure tt
  serve_session (c ∷ cs) =
      serve_connection (serialize c ∷ []) would_block n fd p >>= λ _. serve_session cs
