-- ===== src/Tests/Data.antt =====
-- Commands and an orchestrator with one connection.
use ns1_interview_redis.Prelude.{false, some, [], ◌∷◌, arith}
use ns1_interview_redis.Prelude.Bytes.{Bytes, codes}
use ns1_interview_redis.Resp.{RespObject, bulk_string, array, nil, cons}
use ns1_interview_redis.Commands.{no_data}
use ns1_interview_redis.Session.{create_state}
use ns1_interview_redis.Server.Effect.{Orchestrator}
use ns1_interview_redis.Parser.Wire.{IsWire, text, items, done, item}

abbrev pub set_red : RespObject
set_red = array (
    cons (bulk_string (codes "set") false)
      (cons (bulk_string (codes "c") false) (cons (bulk_string (codes "red") false) nil)))

abbrev pub get_c : RespObject
get_c = array (cons (bulk_string (codes "get") false) (cons (bulk_string (codes "c") false) nil))

abbrev pub del_c : RespObject
del_c = array (cons (bulk_string (codes "del") false) (cons (bulk_string (codes "c") false) nil))

pub set_red-IsWire : IsWire set_red
set_red-IsWire =
    items
      (item (text (omega arith) (omega arith))
        (item (text (omega arith) (omega arith)) (item (text (omega arith) (omega arith)) done)))
      (omega arith)

pub get_c-IsWire : IsWire get_c
get_c-IsWire =
    items (item (text (omega arith) (omega arith)) (item (text (omega arith) (omega arith)) done))
      (omega arith)

pub del_c-IsWire : IsWire del_c
del_c-IsWire =
    items (item (text (omega arith) (omega arith)) (item (text (omega arith) (omega arith)) done))
      (omega arith)

-- Socket 5, with its state at pointer 0, from which `data_read` was read.
abbrev pub one_connection : Bytes → Orchestrator
one_connection data_read = record {
  heap = λ p. record (create_state 5) { read_data = data_read };
  next = 1;
  all_sockets = λ fd. some 0;
  epoll_sockets = [];
  processing_sockets = 5 ∷ [];
  write_sockets = [];
  datastore = no_data;
  read_jobs = [];
  parse_jobs = [];
  write_jobs = [];
  sent = [];
  closed = [];
}
