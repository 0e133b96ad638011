-- ===== src/Session.antt =====
-- src/state.h: the state of one connection, which travels with it through the worker queues.
use ns1_interview_redis.Prelude.{ℕ, Bool, true, false, Option, none, [], ◌∷◌, ◌++◌, take}
use ns1_interview_redis.Prelude.Bytes.{Bytes, codes, c_str}
use ns1_interview_redis.Resp.{RespObject}

-- `StateState`
pub data StateState : Type 0 where
  invalid accepted waiting_for_epoll waiting_for_read_job in_read_loop : StateState
  waiting_for_parsing parsing in_write_loop closing : StateState

-- `State`. The mutex is the flag `is_locked`; of `m_special_error` the bytes before its first NUL
-- are kept.
pub record State : Type 0 where
  pub state : StateState
  pub read_data : Bytes
  pub object : Option RespObject
  pub response : Option RespObject
  pub socket : ℕ
  pub is_locked : Bool
  pub is_error : Bool
  pub special_error : Bytes

-- `State(int fd)`
unfoldable pub create_state : ℕ → State
create_state fd = record {
  state = invalid;
  read_data = [];
  object = none;
  response = none;
  socket = fd;
  is_locked = false;
  is_error = false;
  special_error = [];
}

-- `reset`, which unlocks the mutex too
unfoldable pub reset : State → State
reset s = record s {
  state = invalid;
  read_data = [];
  object = none;
  response = none;
  is_error = false;
  special_error = [];
  is_locked = false;
}

-- `set_special_error`: `strncpy` of 63 bytes at most
unfoldable pub set_special_error : Bytes → State → State
set_special_error err s = record s { special_error = take 63 (c_str err); is_error = true }

abbrev pub default_special_error : Bytes
default_special_error = codes "-Unexpected Error" ++ 13 ∷ 10 ∷ []

-- `set_default_special_error`
unfoldable pub set_default_special_error : State → State
unfolding set_special_error
set_default_special_error = set_special_error default_special_error
