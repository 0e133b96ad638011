-- ===== src/Commands/Dictionary.antt =====
-- The commands as requests to one dictionary from keys to objects: what src/orchestrator.cpp's
-- partitioned, serialized storage stands for.
use ns1_interview_redis.Prelude.{
  ℕ, ◌+◌, Bool, true, false, Option, none, some, List, [], ◌∷◌, if◌then◌else◌,
}
use ns1_interview_redis.Prelude.Int.{pos}
use ns1_interview_redis.Prelude.Bytes.{Bytes, bytes_eq, codes}
use ns1_interview_redis.Resp.{
  RespObject, RespObjects, integer, string, array, error, nil, cons, datatype, to_string,
}
use ns1_interview_redis.Commands.{is_text, Response, null_response}

abbrev pub Dictionary : Type 0
Dictionary = Bytes → Option RespObject

abbrev pub no_entries : Dictionary
no_entries k = none

abbrev pub update : Bytes → Option RespObject → Dictionary → Dictionary
update k entry m j = if bytes_eq k j then entry else m j

-- What a client can ask for.
pub data Request : Type 0 where
  get : Bytes → Request
  set : Bytes → RespObject → Request
  del : List Bytes → Request
  invalid : Request

abbrev pub keys_of : RespObjects → List Bytes
keys_of nil = []
keys_of (cons x xs) = to_string x ∷ keys_of xs

abbrev pub set_request : Bytes → RespObjects → Request
set_request key nil = invalid
set_request key (cons value more) = set key value

abbrev pub named_request : Bytes → RespObject → RespObjects → Request
named_request name key rest =
    if bytes_eq name (codes "get")
    then get (to_string key)
    else if bytes_eq name (codes "del")
    then del (to_string key ∷ keys_of rest)
    else if bytes_eq name (codes "set")
    then set_request (to_string key) rest
    else invalid

-- The request that an object stands for.
abbrev pub request : RespObject → Request
request (array (cons name (cons key rest))) =
    if is_text (datatype key) then named_request (to_string name) key rest else invalid
request _ = invalid

abbrev pub is_some : Option RespObject → Bool
is_some none = false
is_some (some x) = true

-- The number of entries removed, on top of `n`, and the dictionary without the keys.
abbrev pub remove_all : ℕ → List Bytes → Dictionary → ℕ × Dictionary
remove_all n [] m = (n, m)
remove_all n (k ∷ ks) m = remove_all (if is_some (m k) then n + 1 else n) ks (update k none m)

abbrev pub entry_response : Option RespObject → Response
entry_response none = null_response
entry_response (some x) = (true, some x)

abbrev pub removed_response : ℕ × Dictionary → Response × Dictionary
removed_response (n, m) = ((false, some (integer (pos n))), m)

-- The response to a request, and the dictionary behind it.
abbrev pub obey : Request → Dictionary → Response × Dictionary
obey (get k) m = (entry_response (m k), m)
obey (set k x) m = ((false, some (string (codes "OK"))), update k (some x) m)
obey (del ks) m = removed_response (remove_all 0 ks m)
obey invalid m = ((false, some (error (codes "Invalid command"))), m)
