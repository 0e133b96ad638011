-- ===== src/Commands.antt =====
-- src/orchestrator.cpp, the commands: `is_valid_command`, `get_partition`, `do_set`, `do_get`,
-- `do_del` and `do_operation`, over the array `m_datastore` of src/orchestrator.h.
pub mod Action
pub mod Partition
pub mod View
pub mod Dictionary
pub mod Simulation
pub mod Refinement
pub mod Faults
pub mod Totality
pub mod Interleaved
use ns1_interview_redis.Prelude.{
  ℕ, suc, ◌+◌, Bool, true, false, ◌&&◌, ◌||◌, Option, none, some, [], ◌∷◌, leb, if◌then◌else◌,
  replicate,
}
use ns1_interview_redis.Prelude.Int.{ℤ, pos, ◌%ℤ◌, to_char}
use ns1_interview_redis.Prelude.Bytes.{Bytes, bytes_eq, codes}
use ns1_interview_redis.Resp.{
  RespDatatype, resp_string, resp_bulk_string, RespObject, RespObjects, integer, string,
  bulk_string, array, error, nil, cons, datatype, size, serialize, to_string,
}
use ns1_interview_redis.Parser.Result.{Outcome, ok, err, out_of_fuel}
use ns1_interview_redis.Parser.{parse}
use ns1_interview_redis.DataStore
use ns1_interview_redis.DataStore.{DataStore, set_chars, del_chars, get_chars}
use Action.{DataStores, Run, pure, lift, on_store, ◌>>=◌}

-- `NUM_DATASTORES`
abbrev pub num_datastores : ℕ
num_datastores = 10

-- `m_datastore`, as the constructor leaves it
abbrev pub no_data : DataStores
no_data = replicate num_datastores DataStore.empty

-- `command_type_t`
pub data CommandType : Type 0 where
  command_invalid command_get command_del command_set : CommandType

-- The test on `m_datatype` of a key.
abbrev pub is_text : RespDatatype → Bool
is_text resp_bulk_string = true
is_text resp_string = true
is_text _ = false

-- The tests behind those on the size, on the name, the key's type and the size of the command.
unfoldable pub check_command : Bytes → RespDatatype → ℕ → Bool × CommandType
check_command name type n =
    if bytes_eq name (codes "get") || bytes_eq name (codes "del")
    then if leb 2 n && is_text type
      then (true, if bytes_eq name (codes "get") then command_get else command_del)
      else (false, command_invalid)
    else if bytes_eq name (codes "set")
    then if leb 3 n && is_text type then (true, command_set) else (false, command_invalid)
    else (false, command_invalid)

-- `is_valid_command`
unfoldable pub is_valid_command : RespObject → Bool × CommandType
unfolding check_command
is_valid_command (array (cons name (cons key rest))) =
    check_command (to_string name) (datatype key) (suc (suc (size rest)))
is_valid_command _ = (false, command_invalid)

-- `get_partition`
unfoldable pub get_partition : Bytes → ℤ
unfolding ◌%ℤ◌ to_char
get_partition [] = pos 0
get_partition (x ∷ varname) = to_char x %ℤ num_datastores

-- The pair that a command returns: whether the connection must be closed, and the response.
abbrev pub Response : Type 0
Response = Bool × Option RespObject

-- `static_cast<RespArray*>(p)->get_array()`; the cast of another object is undefined.
abbrev pub get_array : RespObject → Option RespObjects
get_array (array xs) = some xs
get_array _ = none

-- `array[i]`, undefined behind the end
abbrev at_index : RespObjects → ℕ → Option RespObject
at_index nil i = none
at_index (cons x xs) ℕ.zero = some x
at_index (cons x xs) (suc i) = at_index xs i

-- `do_set`
unfoldable pub do_set : RespObject → Run Response
unfolding get_partition on_store
do_set pobj = do
  elements ← lift (get_array pobj)
  key ← lift (at_index elements 1)
  stored ← lift (at_index elements 2)
  let varname = to_string key
  success ← on_store (get_partition varname) (set_chars varname (serialize stored))
  pure (
      if success
      then (false, some (string (codes "OK")))
      else (false, some (error (codes "Failed to set the value"))))

abbrev pub invalid_response : Response
invalid_response = (false, some (error (codes "Invalid command")))

abbrev pub null_response : Response
null_response = (false, some (bulk_string [] true))

-- The value found, parsed: a value that does not parse is reported as null.
abbrev pub found_response : Outcome RespObject → Run Response
found_response (ok ret rest) = pure (true, some ret)
found_response (err e rest) = pure null_response
found_response out_of_fuel = lift none

-- `do_get`
unfoldable pub do_get : RespObject → Run Response
unfolding get_partition on_store
do_get pobj = do
  elements ← lift (get_array pobj)
  key ← lift (at_index elements 1)
  let varname = to_string key
  (found, value) ← on_store (get_partition varname) (λ d. (get_chars varname d, d))
  if found then found_response (parse value) else pure null_response

-- `do_del_internal`
unfoldable pub do_del_internal : RespObject → Run Bool
unfolding get_partition on_store
do_del_internal pobj = do let key = to_string pobj; on_store (get_partition key) (del_chars key)

-- The loop of `do_del` over the keys.
unfoldable pub del_keys : ℕ → RespObjects → Run ℕ
unfolding do_del_internal
del_keys del_count nil = pure del_count
del_keys del_count (cons x xs) = do
  deleted ← do_del_internal x
  del_keys (if deleted then del_count + 1 else del_count) xs

-- The elements from `array[1]` on.
abbrev pub behind_name : RespObjects → RespObjects
behind_name nil = nil
behind_name (cons x xs) = xs

-- `do_del`
unfoldable pub do_del : RespObject → Run Response
unfolding del_keys
do_del pobj = do
  elements ← lift (get_array pobj)
  del_count ← del_keys 0 (behind_name elements)
  pure (false, some (integer (pos del_count)))

-- The choice by `cmd_type` in `do_operation`.
unfoldable pub run_command : CommandType → RespObject → Run Response
unfolding do_get do_set do_del
run_command command_get command = do_get command
run_command command_set command = do_set command
run_command command_del command = do_del command
run_command command_invalid command = pure (false, some (error (codes "generic error")))

-- `do_operation`
unfoldable pub do_operation : RespObject → Run Response
unfolding is_valid_command run_command
do_operation command =
    let (is_valid, cmd_type) = is_valid_command command in
    if is_valid then run_command cmd_type command else pure invalid_response
