-- ===== src/Commands/Totality.antt =====
-- `do_operation` on every object that the parser can give: it answers as the dictionary does, or
-- reads outside the array of data stores.
use ns1_interview_redis.Prelude.{
  ℕ, ◌+◌, ◌≡◌, ◌⊎◌, inl, inr, Bool, true, false, none, List, [], ◌∷◌, arith, Bool-cases, ltb,
  length, if◌then◌else◌,
}
use ns1_interview_redis.Prelude.Int.{ℤ, pos, negsuc}
use ns1_interview_redis.Prelude.Bytes.{Bytes}
use ns1_interview_redis.Resp.{RespObject, RespObjects, nil, cons, array, datatype, to_string}
use ns1_interview_redis.Parser.Wire.{IsWire, AreWire, null, text, items, done, item}
use ns1_interview_redis.Commands.Action.{DataStores}
use ns1_interview_redis.Commands.{
  get_partition, num_datastores, is_text, do_get, do_del, del_keys, do_del_internal, do_operation,
  invalid_response,
}
use ns1_interview_redis.Commands.Action.{pure}
use ns1_interview_redis.Commands.Partition.{IsIndex}
use ns1_interview_redis.Commands.Dictionary.{
  Dictionary, Request, get, set, del, invalid, keys_of, set_request, request, obey, is_some,
}
use ns1_interview_redis.Commands.Simulation.{Represents, Simulates, do_del_internal-Simulates}
use ns1_interview_redis.Commands.Refinement.{
  ArePlaced, KeysArePlaced, command, set_if_long, chosen, do_operation_lem, do_operation-Simulates,
}
use ns1_interview_redis.Commands.Faults.{on_store-outside, do_get-outside, do_set-outside}

IsIndex-cases : (p : ℤ) → IsIndex p ⊎ (¬ IsIndex p)
IsIndex-cases (pos i) = elim (Bool-cases (ltb i num_datastores)) [
  | inl inside ↦ inl (ground arith)
  | inr outside ↦ inr λ h. ground arith
]
IsIndex-cases (negsuc i) = inr λ h. h

ArePlaced-cases : (ks : List Bytes) → ArePlaced ks ⊎ (¬ ArePlaced ks)
ArePlaced-cases [] = inl tt
ArePlaced-cases (k ∷ ks) = elim (IsIndex-cases (get_partition k)) [
  | inr outside ↦ inr λ h. outside h.0
  | inl inside ↦ elim (ArePlaced-cases ks) [
    | inl all ↦ inl (inside, all)
    | inr some_outside ↦ inr λ h. some_outside h.1
  ]
]

KeysArePlaced-cases : (q : Request) → KeysArePlaced q ⊎ (¬ KeysArePlaced q)
KeysArePlaced-cases (get k) = IsIndex-cases (get_partition k)
KeysArePlaced-cases (set k x) = IsIndex-cases (get_partition k)
KeysArePlaced-cases (del ks) = ArePlaced-cases ks
KeysArePlaced-cases invalid = inl tt

do_del_internal-outside :
    (x : RespObject) (st : DataStores)
    → length st ≡ num_datastores
    → ¬ IsIndex (get_partition (to_string x))
    → do_del_internal x st ≡ none
unfolding do_del_internal
do_del_internal-outside x st all outside = on_store-outside _ _ st all outside

-- A key outside ends the loop of DEL, whatever was deleted before it.
del_keys-outside :
    (n : ℕ) (xs : RespObjects) {st : DataStores} {m : Dictionary}
    → Represents st m
    → AreWire xs
    → ¬ ArePlaced (keys_of xs)
    → del_keys n xs st ≡ none
unfolding del_keys
del_keys-outside n nil r w outside = absurd (outside tt)
del_keys-outside n (cons x xs) {st} {m} r (item w ws) outside =
    elim (IsIndex-cases (get_partition (to_string x))) [
      | inr first ↦ rw (do_del_internal-outside x st r.sized first)
      | inl inside ↦
          let one = do_del_internal-Simulates r x w inside in
          rw one.runs (
            del_keys-outside (if is_some (m (to_string x)) then n + 1 else n) xs one.still ws
              (λ rest. outside (inside, rest)))
    ]

do_del-outside :
    (name : RespObject) (keys : RespObjects) {st : DataStores} {m : Dictionary}
    → Represents st m
    → AreWire keys
    → ¬ ArePlaced (keys_of keys)
    → do_del (array (cons name keys)) st ≡ none
unfolding do_del
do_del-outside name keys r w outside = rw (del_keys-outside 0 keys r w outside)

set_request-outside :
    (name key : RespObject) (rest : RespObjects) (st : DataStores)
    → length st ≡ num_datastores
    → ¬ KeysArePlaced (set_request (to_string key) rest)
    → set_if_long name key rest st ≡ none
set_request-outside name key nil st all outside = absurd (outside tt)
set_request-outside name key (cons value more) st all outside =
    do_set-outside name key (cons value more) st all outside λ e. cc

module _ (name key : RespObject) (rest : RespObjects) {st : DataStores} {m : Dictionary}
    (r : Represents st m) (wk : IsWire key) (ws : AreWire rest) where
  choice-outside :
      (is_key is_get is_del is_set : Bool)
      → ¬ KeysArePlaced (
          chosen is_key is_get is_del is_set
            (get (to_string key))
            (del (to_string key ∷ keys_of rest))
            (set_request (to_string key) rest)
            invalid)
      → chosen is_key is_get is_del is_set
          (do_get (command name key rest) st)
          (do_del (command name key rest) st)
          (set_if_long name key rest st)
          (pure invalid_response st)
        ≡ none
  choice-outside false is_get is_del is_set outside = absurd (outside tt)
  choice-outside true true is_del is_set outside = do_get-outside name key rest st r.sized outside
  choice-outside true false true is_set outside =
      do_del-outside name (cons key rest) r (item wk ws) outside
  choice-outside true false false true outside =
      set_request-outside name key rest st r.sized outside
  choice-outside true false false false outside = absurd (outside tt)

operation-outside :
    (c : RespObject) {st : DataStores} {m : Dictionary}
    → Represents st m
    → IsWire c
    → ¬ KeysArePlaced (request c)
    → do_operation c st ≡ none
operation-outside _ r null outside = absurd (outside tt)
operation-outside _ r (text clean short) outside = absurd (outside tt)
operation-outside _ r (items done short) outside = absurd (outside tt)
operation-outside _ r (items (item wn done) short) outside = absurd (outside tt)
operation-outside _ {st} r (items (item {x = name} wn (item {x = key} {xs = rest} wk ws)) short)
      outside =
    rw (do_operation_lem name key rest st)
      (choice-outside name key rest r wk ws (is_text (datatype key)) _ _ _ outside)

-- From stores that represent a dictionary, `do_operation` on a wire object answers as the dictionary
-- does, and leaves stores that represent the dictionary behind the request; or some key of the
-- object has no data store, and the operation reads outside the array.
pub do_operation_total :
    (c : RespObject) (st : DataStores) (m : Dictionary)
    → Represents st m
    → IsWire c
    → (KeysArePlaced (request c) × Simulates (do_operation c st) (obey (request c) m))
      ⊎ ((¬ KeysArePlaced (request c)) × (do_operation c st ≡ none))
do_operation_total c st m r w = elim (KeysArePlaced-cases (request c)) [
  | inl placed ↦ inl (placed, do_operation-Simulates c r w placed)
  | inr outside ↦ inr (outside, operation-outside c r w outside)
]
