-- ===== src/Tests/Storing.antt =====
-- The data stores and the commands.
use ns1_interview_redis.Prelude.{
  ◌≡◌, ◌≢◌, ◌⊎◌, ◌↔◌, All, refl, true, false, none, some, [], ◌∷◌, map, arith, if◌then◌else◌,
}
use mathlib.Core.Option
use ns1_interview_redis.Prelude.Int.{pos, negsuc, to_int}
use ns1_interview_redis.Prelude.Bytes.{codes, c_str, bytes_eq}
use ns1_interview_redis.Resp.{bulk_string, string, integer, nil, serialize, to_string}
use ns1_interview_redis.Resp.Decimal.{decimal}
use ns1_interview_redis.Parser.Strtol.{strtol}
use ns1_interview_redis.Parser.{parse}
use ns1_interview_redis.DataStore.{empty, set, del, get, set_chars, del_chars, get_chars}
use ns1_interview_redis.DataStore.UnorderedMap.{find, insert, erase}
use ns1_interview_redis.DataStore.Laws.{store_laws}
use ns1_interview_redis.DataStore.Contents.{
  Contents, contents_of, set_in, del_in, get_in, contents_laws,
}
use ns1_interview_redis.Commands.{get_partition, no_data, do_operation}
use ns1_interview_redis.Commands.Partition.{IsIndex, IsPlaced, get_partition-IsIndex}
use ns1_interview_redis.Commands.Dictionary.{request, invalid, no_entries}
use ns1_interview_redis.Commands.Simulation.{Simulates}
use ns1_interview_redis.Commands.Totality.{do_operation_total}
use ns1_interview_redis.Commands.Dictionary.{obey}
use ns1_interview_redis.Commands.Refinement.{
  KeysArePlaced, no_data-Represents, command, IsServed, do_operations, obey_all,
  do_operations-Simulates,
}
use ns1_interview_redis.Commands.Faults.{do_operation-outside}
use ns1_interview_redis.Tests.Data.{
  set_red, get_c, del_c, set_red-IsWire, get_c-IsWire, del_c-IsWire,
}

store_laws_example :
    (get (codes "a") (set (codes "a") (codes "1") empty).1
      ≡ (if bytes_eq (codes "a") (codes "a") then (true, codes "1") else get (codes "a") empty))
    × (get (codes "a") (del (codes "a") empty).1
        ≡ (if bytes_eq (codes "a") (codes "a") then (false, []) else get (codes "a") empty))
    × ((del (codes "a") empty).0 ≡ (get (codes "a") empty).0)
store_laws_example = store_laws (codes "a") (codes "a") (codes "1") empty

abbrev one_entry : Contents
one_entry = contents_of (set (codes "a") (codes "1") empty).1

contents_laws_example :
    (set_in (codes "a") (codes "2") (set_in (codes "b") (codes "3") one_entry) ≡ (
      if bytes_eq (codes "a") (codes "b")
      then set_in (codes "a") (codes "2") one_entry
      else set_in (codes "b") (codes "3") (set_in (codes "a") (codes "2") one_entry)))
    × (del_in (codes "a") (del_in (codes "b") one_entry)
        ≡ del_in (codes "b") (del_in (codes "a") one_entry))
    × (del_in (codes "a") (set_in (codes "a") (codes "2") one_entry) ≡ del_in (codes "a") one_entry)
    × ((if (get_in (codes "a") one_entry).0
          then set_in (codes "a") (get_in (codes "a") one_entry).1 (del_in (codes "a") one_entry)
          else del_in (codes "a") one_entry)
        ≡ one_entry)
contents_laws_example = contents_laws (codes "a") (codes "b") (codes "2") (codes "3") one_entry

get_partition-IsIndex_example : IsIndex (get_partition (255 ∷ [])) ↔ IsPlaced (255 ∷ [])
get_partition-IsIndex_example = get_partition-IsIndex (255 ∷ []) (omega arith)

partitions : (get_partition (codes "c") ≡ pos 9) × (get_partition (255 ∷ []) ≡ negsuc 0)
unfolding get_partition
partitions = (refl, refl)

responses :
    Option.map (λ r. r.0) (do_operations (set_red ∷ get_c ∷ del_c ∷ get_c ∷ []) no_data)
    ≡ some (
        (false, some (string (codes "OK")))
        ∷ (true, some (bulk_string (codes "red") false))
        ∷ (false, some (integer (pos 1)))
        ∷ (false, some (bulk_string [] true))
        ∷ [])
unfolding do_operation set_chars del_chars get_chars find insert erase c_str bytes_eq serialize
    decimal to_string parse strtol to_int
responses = refl

All-IsServed : All IsServed (set_red ∷ get_c ∷ del_c ∷ [])
unfolding get_partition to_string bytes_eq
All-IsServed = (
  (set_red-IsWire, omega arith),
  ((get_c-IsWire, omega arith), ((del_c-IsWire, (omega arith, tt)), tt)),
)

do_operations-Simulates_example :
    Simulates
      (do_operations (set_red ∷ get_c ∷ del_c ∷ []) no_data)
      (obey_all (map request (set_red ∷ get_c ∷ del_c ∷ [])) no_entries)
do_operations-Simulates_example =
    do_operations-Simulates (set_red ∷ get_c ∷ del_c ∷ []) All-IsServed

high_key_outside : ¬ IsIndex (get_partition (to_string (bulk_string (255 ∷ []) false)))
unfolding get_partition to_string
high_key_outside h = h

get_valid :
    request (command (bulk_string (codes "get") false) (bulk_string (255 ∷ []) false) nil) ≢ invalid
unfolding to_string bytes_eq
get_valid e = cc

do_operation-outside_example :
    do_operation
      (command (bulk_string (codes "get") false) (bulk_string (255 ∷ []) false) nil)
      no_data
    ≡ none
do_operation-outside_example =
    do_operation-outside (bulk_string (codes "get") false) (bulk_string (255 ∷ []) false) nil
      no_data refl get_valid high_key_outside

do_operation_total_example :
    (KeysArePlaced (request del_c)
      × Simulates (do_operation del_c no_data) (obey (request del_c) no_entries))
    ⊎ ((¬ KeysArePlaced (request del_c)) × (do_operation del_c no_data ≡ none))
do_operation_total_example =
    do_operation_total del_c no_data no_entries no_data-Represents del_c-IsWire
