-- ===== src/Commands/Interleaved.antt =====
-- src/orchestrator.cpp: several workers inside `do_operation` at once. A step of a worker goes from
-- one lock of a data store to the next: a `get` and a `set` lock one store once, a `del` locks a store
-- for each key, and other workers come between.
pub mod Advance
pub mod Simulation
pub mod Progress
pub mod Log
pub mod Order
use ns1_interview_redis.Prelude.{
  ℕ, zero, suc, ◌+◌, Bool, true, false, Option, none, some, List, [], ◌∷◌, if◌then◌else◌,
}
use ns1_interview_redis.Prelude.Int.{pos}
use ns1_interview_redis.Prelude.Bytes.{Bytes, codes}
use ns1_interview_redis.Resp.{RespObject, RespObjects, integer, string, error, nil, cons}
use ns1_interview_redis.Commands.Action.{DataStores, Run, pure, lift, ◌>>=◌}
use ns1_interview_redis.Commands.{
  CommandType, command_invalid, command_get, command_set, command_del, is_valid_command, Response,
  get_array, behind_name, invalid_response, do_get, do_set, do_del_internal,
}
use ns1_interview_redis.Commands.Dictionary.{
  Dictionary, Request, get, set, del, invalid, keys_of, request, obey, remove_all,
}

-- Where a worker is: in front of the command, in the loop of `do_del` with its count and the keys
-- that are left, behind the command.
pub data Running : Type 0 where
  before : RespObject → Running
  deleting : ℕ → RespObjects → Running
  answered : Response → Running

-- The choice by `cmd_type`, up to the first lock behind it.
abbrev begin : CommandType → RespObject → Run Running
begin command_get command = do response ← do_get command; pure (answered response)
begin command_set command = do response ← do_set command; pure (answered response)
begin command_del command = do
  elements ← lift (get_array command)
  pure (deleting 0 (behind_name elements))
begin command_invalid command = pure (answered (false, some (error (codes "generic error"))))

unfoldable pub advance : Running → Run Running
unfolding is_valid_command do_get do_set do_del_internal
advance (before command) =
    let (is_valid, cmd_type) = is_valid_command command in
    if is_valid then begin cmd_type command else pure (answered invalid_response)
advance (deleting del_count nil) = pure (answered (false, some (integer (pos del_count))))
advance (deleting del_count (cons x xs)) = do
  deleted ← do_del_internal x
  pure (deleting (if deleted then del_count + 1 else del_count) xs)
advance (answered response) = pure (answered response)

-- The worker at a position takes its next step.
abbrev pub advance_at : ℕ → List Running → Run (List Running)
advance_at i [] = pure []
advance_at zero (w ∷ ws) = do w' ← advance w; pure (w' ∷ ws)
advance_at (suc i) (w ∷ ws) = do ws' ← advance_at i ws; pure (w ∷ ws')

-- The workers take steps in the order of a schedule.
abbrev pub interleave : List ℕ → List Running → Run (List Running)
interleave [] ws = pure ws
interleave (i ∷ is) ws = do ws' ← advance_at i ws; interleave is ws'

-- The same on one dictionary: each step is a request about one key at most.
pub data Doing : Type 0 where
  asked : Request → Doing
  removing : ℕ → List Bytes → Doing
  told : Response → Doing

abbrev tell : Response × Dictionary → Doing × Dictionary
tell (response, m) = (told response, m)

abbrev removed : ℕ → List Bytes → ℕ × Dictionary → Doing × Dictionary
removed n keys (k, m) = (removing (n + k) keys, m)

abbrev pub act : Doing → Dictionary → Doing × Dictionary
act (asked (del keys)) m = (removing 0 keys, m)
act (asked (get k)) m = tell (obey (get k) m)
act (asked (set k x)) m = tell (obey (set k x) m)
act (asked invalid) m = tell (obey invalid m)
act (removing n []) m = (told (false, some (integer (pos n))), m)
act (removing n (k ∷ keys)) m = removed n keys (remove_all 0 (k ∷ []) m)
act (told response) m = (told response, m)

abbrev pub keep_first : Doing → List Doing × Dictionary → List Doing × Dictionary
keep_first d (ds, m) = (d ∷ ds, m)

abbrev pub replace_first : List Doing → Doing × Dictionary → List Doing × Dictionary
replace_first ds (d, m) = (d ∷ ds, m)

abbrev pub act_at : ℕ → List Doing → Dictionary → List Doing × Dictionary
act_at i [] m = ([], m)
act_at zero (d ∷ ds) m = replace_first ds (act d m)
act_at (suc i) (d ∷ ds) m = keep_first d (act_at i ds m)

abbrev pub act_all : List ℕ → List Doing → Dictionary → List Doing × Dictionary
act_all [] ds m = (ds, m)
act_all (i ∷ is) ds m = let (ds', m') = act_at i ds m in act_all is ds' m'

-- What a worker does, on the dictionary.
abbrev pub doing : Running → Doing
doing (before command) = asked (request command)
doing (deleting n xs) = removing n (keys_of xs)
doing (answered response) = told response
