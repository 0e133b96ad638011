-- ===== src/Tests/Interleaving.antt =====
-- Workers whose steps come between each other's.
use ns1_interview_redis.Prelude.{
  ◌≡◌, All, refl, true, false, some, [], ◌∷◌, map, get_elem?, List, ℕ, arith,
}
use mathlib.Core.Option
use ns1_interview_redis.Prelude.Int.{pos, to_int}
use ns1_interview_redis.Prelude.Bytes.{Bytes, codes, c_str, bytes_eq}
use ns1_interview_redis.Resp.{
  RespObject, array, bulk_string, string, integer, nil, cons, serialize, to_string,
}
use ns1_interview_redis.Resp.Decimal.{decimal}
use ns1_interview_redis.Parser.{parse}
use ns1_interview_redis.Parser.Strtol.{strtol}
use ns1_interview_redis.DataStore.{set_chars, del_chars, get_chars}
use ns1_interview_redis.DataStore.UnorderedMap.{find, insert, erase}
use ns1_interview_redis.Commands.Action.{DataStores}
use ns1_interview_redis.Commands.{Response, get_partition, no_data, do_operation}
use ns1_interview_redis.Commands.Dictionary.{request, no_entries}
use ns1_interview_redis.Commands.Refinement.{no_data-Represents, IsServed}
use ns1_interview_redis.Commands.Interleaved.{Running, before, answered, asked, advance, interleave}
use ns1_interview_redis.Commands.Interleaved.Progress.{interleave-answered}
use ns1_interview_redis.Commands.Interleaved.Log.{log_of}
use ns1_interview_redis.Commands.Interleaved.Order.{IsSerial, interleave-IsSerial}
use ns1_interview_redis.Tests.Data.{
  set_red, get_c, del_c, set_red-IsWire, get_c-IsWire, del_c-IsWire,
}

-- A set, a get and a del of one key: the get comes between the two locks of the others.
abbrev commands : List RespObject
commands = set_red ∷ get_c ∷ del_c ∷ []

abbrev schedule : List ℕ
schedule = 0 ∷ 2 ∷ 1 ∷ 2 ∷ 2 ∷ []

commands-IsServed : All IsServed commands
unfolding get_partition to_string bytes_eq
commands-IsServed = (
  (set_red-IsWire, omega arith),
  ((get_c-IsWire, omega arith), ((del_c-IsWire, (omega arith, tt)), tt)),
)

interleave-IsSerial_example :
    IsSerial
      (interleave schedule (map before commands) no_data)
      schedule
      commands
      (log_of schedule (map (λ c. asked (request c)) commands) no_entries)
      no_entries
interleave-IsSerial_example =
    interleave-IsSerial schedule commands no_data no_entries no_data-Represents commands-IsServed

interleave-answered_example :
    (ws : List Running) × (after : DataStores) × (x : Response) × (interleave schedule
        (map before commands)
        no_data
      ≡ some (ws, after))
    × (get_elem? ws 2 ≡ some (answered x))
unfolding to_string bytes_eq
interleave-answered_example =
    interleave-answered schedule commands no_data no_entries 2 {c = del_c} no_data-Represents
      commands-IsServed refl (omega arith)

-- A del of two keys, and a get of each between its locks: one key is gone and the other is there.
abbrev entry : Bytes → RespObject
entry k = bulk_string k false

abbrev two_keys : List RespObject
two_keys =
    array (cons (entry (codes "set")) (cons (entry (codes "a")) (cons (entry (codes "1")) nil)))
    ∷ array (cons (entry (codes "set")) (cons (entry (codes "c")) (cons (entry (codes "2")) nil)))
    ∷ array (cons (entry (codes "del")) (cons (entry (codes "a")) (cons (entry (codes "c")) nil)))
    ∷ array (cons (entry (codes "get")) (cons (entry (codes "a")) nil))
    ∷ array (cons (entry (codes "get")) (cons (entry (codes "c")) nil))
    ∷ []

half_deleted :
    Option.map
      (λ r. r.0)
      (interleave (0 ∷ 1 ∷ 2 ∷ 2 ∷ 3 ∷ 4 ∷ 2 ∷ 2 ∷ []) (map before two_keys) no_data)
    ≡ some (
        answered (false, some (string (codes "OK")))
        ∷ answered (false, some (string (codes "OK")))
        ∷ answered (false, some (integer (pos 2)))
        ∷ answered (false, some (bulk_string [] true))
        ∷ answered (true, some (bulk_string (codes "2") false))
        ∷ [])
unfolding advance do_operation set_chars del_chars get_chars find insert erase c_str bytes_eq
    serialize decimal to_string parse strtol to_int
half_deleted = refl
