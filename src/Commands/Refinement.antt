-- ===== src/Commands/Refinement.antt =====
-- The commands refine the dictionary: one command, and any run of commands.
use ns1_interview_redis.Prelude.{
  ℕ, suc, leb, ◌+◌, ◌≡◌, refl, Bool, true, false, Option, List, [], ◌∷◌, if◌then◌else◌, arith, All,
  map,
}
use ns1_interview_redis.Prelude.Bytes.{Bytes, bytes_eq, codes}
use ns1_interview_redis.Resp.{RespObject, RespObjects, array, nil, cons, size, datatype, to_string}
use ns1_interview_redis.Parser.Wire.{IsWire, AreWire, null, text, items, done, item}
use ns1_interview_redis.Commands.Action.{DataStores, Run, pure, ◌>>=◌}
use ns1_interview_redis.Commands.{
  get_partition, Response, invalid_response, is_text, no_data, do_set, do_get, do_del, del_keys,
  do_operation,
}
use ns1_interview_redis.Commands.Partition.{IsIndex}
use ns1_interview_redis.Commands.View.{view-no_data}
use ns1_interview_redis.Commands.Dictionary.{
  Dictionary, Request, get, set, del, invalid, no_entries, keys_of, set_request, request, obey,
  remove_all, is_some,
}
use ns1_interview_redis.Commands.Simulation.{
  Represents, Simulates, do_set-Simulates, do_get-Simulates, do_del_internal-Simulates,
}

-- Every key of the list has a data store.
abbrev pub ArePlaced : List Bytes → Type 0
ArePlaced [] = Unit
ArePlaced (k ∷ ks) = IsIndex (get_partition k) × ArePlaced ks

abbrev pub KeysArePlaced : Request → Type 0
KeysArePlaced (get k) = IsIndex (get_partition k)
KeysArePlaced (set k x) = IsIndex (get_partition k)
KeysArePlaced (del ks) = ArePlaced ks
KeysArePlaced invalid = Unit

del_keys-Simulates :
    (n : ℕ) (xs : RespObjects) {st : DataStores} {m : Dictionary}
    → Represents st m
    → AreWire xs
    → ArePlaced (keys_of xs)
    → Simulates (del_keys n xs st) (remove_all n (keys_of xs) m)
unfolding del_keys
del_keys-Simulates n nil {st} r w placed = record { after = st; runs = refl; still = r }
del_keys-Simulates n (cons x xs) {st} {m} r (item w ws) placed =
    let one = do_del_internal-Simulates r x w placed.0 in
    let more =
      del_keys-Simulates (if is_some (m (to_string x)) then n + 1 else n) xs one.still ws
        placed.1 in
    record { after = more.after; runs = rw one.runs more.runs; still = more.still }

do_del-Simulates :
    (name : RespObject) (keys : RespObjects) {st : DataStores} {m : Dictionary}
    → Represents st m
    → AreWire keys
    → ArePlaced (keys_of keys)
    → Simulates (do_del (array (cons name keys)) st) (obey (del (keys_of keys)) m)
unfolding do_del
do_del-Simulates name keys r w placed =
    let all = del_keys-Simulates 0 keys r w placed in
    record { after = all.after; runs = rw all.runs; still = all.still }

-- The choice that `is_valid_command` and `do_operation` make, on the tests' results.
abbrev pub chosen {ℓ} : {A : Type ℓ} (is_key is_get is_del is_set : Bool) (g d s i : A) → A
chosen is_key is_get is_del is_set g d s i =
    if is_key then (if is_get then g else if is_del then d else if is_set then s else i) else i

abbrev pub command : (name key : RespObject) (rest : RespObjects) → RespObject
command name key rest = array (cons name (cons key rest))

abbrev pub set_if_long :
    (name key : RespObject) (rest : RespObjects) → DataStores → Option (Response × DataStores)
set_if_long name key rest st =
    if leb 3 (suc (suc (size rest)))
    then do_set (command name key rest) st
    else pure invalid_response st

-- The command of `Invalid command` changes nothing.
pub invalid-Simulates :
    {st : DataStores} {m : Dictionary}
    → Represents st m
    → Simulates (pure invalid_response st) (obey invalid m)
invalid-Simulates {st} r = record { after = st; runs = refl; still = r }

pub set_request-Simulates :
    (name key : RespObject) (rest : RespObjects) {st : DataStores} {m : Dictionary}
    → Represents st m
    → AreWire rest
    → IsWire key
    → KeysArePlaced (set_request (to_string key) rest)
    → Simulates (set_if_long name key rest st) (obey (set_request (to_string key) rest) m)
set_request-Simulates name key nil r ws wk placed = invalid-Simulates r
set_request-Simulates name key (cons value more) r (item wv ws) wk placed =
    let enough : leb 3 (suc (suc (suc (size more)))) ≡ true = ground arith in
    rw enough (do_set-Simulates r name key value more wk wv placed)

module _ (name key : RespObject) (rest : RespObjects) where
  pub do_operation_lem :
      (st : DataStores)
      → do_operation (command name key rest) st
        ≡ chosen
            (is_text (datatype key))
            (bytes_eq (to_string name) (codes "get"))
            (bytes_eq (to_string name) (codes "del"))
            (bytes_eq (to_string name) (codes "set"))
            (do_get (command name key rest) st)
            (do_del (command name key rest) st)
            (set_if_long name key rest st)
            (pure invalid_response st)
  unfolding do_operation
  do_operation_lem st = ground arith

  module _ {st : DataStores} {m : Dictionary} (r : Represents st m) where
    choice-Simulates :
        (is_key is_get is_del is_set : Bool)
        → IsWire key
        → AreWire rest
        → KeysArePlaced (
            chosen is_key is_get is_del is_set
              (get (to_string key))
              (del (to_string key ∷ keys_of rest))
              (set_request (to_string key) rest)
              invalid)
        → Simulates
            (chosen is_key is_get is_del is_set
              (do_get (command name key rest) st)
              (do_del (command name key rest) st)
              (set_if_long name key rest st)
              (pure invalid_response st))
            (obey
              (chosen is_key is_get is_del is_set
                (get (to_string key))
                (del (to_string key ∷ keys_of rest))
                (set_request (to_string key) rest)
                invalid)
              m)
    choice-Simulates false is_get is_del is_set wk ws placed = invalid-Simulates r
    choice-Simulates true true is_del is_set wk ws placed =
        do_get-Simulates r name key rest wk placed
    choice-Simulates true false true is_set wk ws placed =
        do_del-Simulates name (cons key rest) r (item wk ws) placed
    choice-Simulates true false false true wk ws placed =
        set_request-Simulates name key rest r ws wk placed
    choice-Simulates true false false false wk ws placed = invalid-Simulates r

-- From stores that represent a dictionary, `do_operation` on a wire object whose keys have data
-- stores does not fault; its response and the dictionary behind it are those of the request.
pub do_operation-Simulates :
    (c : RespObject) {st : DataStores} {m : Dictionary}
    → Represents st m
    → IsWire c
    → KeysArePlaced (request c)
    → Simulates (do_operation c st) (obey (request c) m)
unfolding do_operation
do_operation-Simulates _ r null placed = invalid-Simulates r
do_operation-Simulates _ r (text clean short) placed = invalid-Simulates r
do_operation-Simulates _ r (items done short) placed = invalid-Simulates r
do_operation-Simulates _ r (items (item wn done) short) placed = invalid-Simulates r
do_operation-Simulates _ {st} r
      (items (item {x = name} wn (item {x = key} {xs = rest} wk ws)) short) placed =
    rw (do_operation_lem name key rest st)
      (choice-Simulates name key rest r (is_text (datatype key)) _ _ _ wk ws placed)

-- Commands one after the other.
abbrev pub do_operations : List RespObject → Run (List Response)
do_operations [] = pure []
do_operations (c ∷ cs) = do
  response ← do_operation c
  responses ← do_operations cs
  pure (response ∷ responses)

abbrev pub obey_all : List Request → Dictionary → List Response × Dictionary
obey_all [] m = ([], m)
obey_all (q ∷ qs) m =
    let (response, m') = obey q m in
    let (responses, m'') = obey_all qs m' in (response ∷ responses, m'')

-- A wire object whose keys have data stores.
abbrev pub IsServed : RespObject → Type 0
IsServed c = IsWire c × KeysArePlaced (request c)

operations-Simulates :
    (cs : List RespObject) {st : DataStores} {m : Dictionary}
    → Represents st m
    → All IsServed cs
    → Simulates (do_operations cs st) (obey_all (map request cs) m)
operations-Simulates [] {st} r h = record { after = st; runs = refl; still = r }
operations-Simulates (c ∷ cs) r h =
    let one = do_operation-Simulates c r h.0.0 h.0.1 in
    let more = operations-Simulates cs one.still h.1 in
    record { after = more.after; runs = rw one.runs (rw more.runs); still = more.still }

pub no_data-Represents : Represents no_data no_entries
no_data-Represents = record { sized = refl; views = view-no_data; wire = λ k x e. cc }

-- From the empty data stores, any sequence of wire objects whose keys have data stores runs without
-- a fault, and gives the responses that one dictionary, empty at first, gives to their requests.
pub do_operations-Simulates :
    (cs : List RespObject)
    → All IsServed cs
    → Simulates (do_operations cs no_data) (obey_all (map request cs) no_entries)
do_operations-Simulates cs = operations-Simulates cs no_data-Represents
