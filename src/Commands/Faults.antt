-- ===== src/Commands/Faults.antt =====
-- Keys outside the array of data stores: the access behind a negative partition.
use ns1_interview_redis.Prelude.{
  ℕ, zero, suc, ◌<◌, ◌≡◌, ◌≢◌, refl, Bool, true, false, none, List, [], ◌∷◌, arith, length,
  get_elem?, leb,
}
use ns1_interview_redis.Prelude.Int.{ℤ, pos, negsuc}
use ns1_interview_redis.Resp.{RespObject, RespObjects, nil, cons, size, to_string}
use ns1_interview_redis.DataStore.{DataStore}
use ns1_interview_redis.Commands.Action.{DataStores, on_store, pure}
use ns1_interview_redis.Commands.{
  get_partition, num_datastores, invalid_response, do_set, do_get, do_del, do_operation,
}
use ns1_interview_redis.Commands.Partition.{IsIndex}
use ns1_interview_redis.Commands.Dictionary.{invalid, get, del, keys_of, set_request, request}
use ns1_interview_redis.Commands.Refinement.{do_operation_lem, set_if_long, command, chosen}

get_elem?-outside {ℓ} :
    {A : Type ℓ} (xs : List A) (i : ℕ) → ¬ (i < length xs) → get_elem? xs i ≡ none
get_elem?-outside [] i h = refl
get_elem?-outside (x ∷ xs) zero h = absurd (h (omega arith))
get_elem?-outside (x ∷ xs) (suc i) h = get_elem?-outside xs i (λ k. h (omega arith))

pub on_store-outside :
    {A : Type 0} (p : ℤ) (method : DataStore → A × DataStore) (st : DataStores)
    → length st ≡ num_datastores
    → ¬ IsIndex p
    → on_store p method st ≡ none
unfolding on_store
on_store-outside (negsuc i) method st all h = refl
on_store-outside (pos i) method st all h =
    rw (get_elem?-outside st i (λ k. h (omega arith)), on_store)

module _ (name key : RespObject) (rest : RespObjects) (st : DataStores)
    (all : length st ≡ num_datastores) (outside : ¬ IsIndex (get_partition (to_string key))) where
  pub do_get-outside : do_get (command name key rest) st ≡ none
  unfolding do_get
  do_get-outside = rw (on_store-outside _ _ st all outside)

  do_del-outside : do_del (command name key rest) st ≡ none
  unfolding do_del
  do_del-outside = rw (on_store-outside _ _ st all outside)

pub do_set-outside :
    (name key : RespObject) (rest : RespObjects) (st : DataStores)
    → length st ≡ num_datastores
    → ¬ IsIndex (get_partition (to_string key))
    → set_request (to_string key) rest ≢ invalid
    → set_if_long name key rest st ≡ none
unfolding do_set
do_set-outside name key nil st all outside valid = absurd (valid refl)
do_set-outside name key (cons value more) st all outside valid =
    let enough : leb 3 (suc (suc (suc (size more)))) ≡ true = ground arith in
    rw enough (rw (on_store-outside _ _ st all outside))

choice-outside :
    (is_key is_get is_del is_set : Bool) (name key : RespObject) (rest : RespObjects)
    (st : DataStores)
    → length st ≡ num_datastores
    → ¬ IsIndex (get_partition (to_string key))
    → chosen is_key is_get is_del is_set
        (get (to_string key))
        (del (to_string key ∷ keys_of rest))
        (set_request (to_string key) rest)
        invalid
      ≢ invalid
    → chosen is_key is_get is_del is_set
        (do_get (command name key rest) st)
        (do_del (command name key rest) st)
        (set_if_long name key rest st)
        (pure invalid_response st)
      ≡ none
choice-outside false is_get is_del is_set name key rest st all outside valid = absurd (valid refl)
choice-outside true true is_del is_set name key rest st all outside valid =
    do_get-outside name key rest st all outside
choice-outside true false true is_set name key rest st all outside valid =
    do_del-outside name key rest st all outside
choice-outside true false false true name key rest st all outside valid =
    do_set-outside name key rest st all outside valid
choice-outside true false false false name key rest st all outside valid = absurd (valid refl)

-- A valid command whose first key has no data store reads outside the array `m_datastore`.
pub do_operation-outside :
    (name key : RespObject) (rest : RespObjects) (st : DataStores)
    → length st ≡ num_datastores
    → request (command name key rest) ≢ invalid
    → ¬ IsIndex (get_partition (to_string key))
    → do_operation (command name key rest) st ≡ none
do_operation-outside name key rest st all valid outside =
    rw (do_operation_lem name key rest st)
      (choice-outside _ _ _ _ name key rest st all outside valid)
