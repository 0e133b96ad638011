-- ===== src/Commands/Simulation.antt =====
-- The stores against the dictionary: one step of each.
use mathlib.Core.Option
use mathlib.Core.Path.{subst}
use ns1_interview_redis.Prelude.{
  ◌≡◌, refl, ap, ◌∙◌, Bool, true, false, Option, none, some, arith, length, if◌then◌else◌,
  Bool-cases, inl, inr,
}
use ns1_interview_redis.Prelude.Bytes.{Bytes, bytes_eq, bytes_eq_iff, bytes_eq→eq, c_str}
use ns1_interview_redis.Resp.{RespObject, RespObjects, array, cons, serialize, to_string}
use ns1_interview_redis.Parser.Wire.{IsWire}
use ns1_interview_redis.Parser.NoNul.{c_str-serialize, c_str-to_string}
use ns1_interview_redis.Parser.RoundTrip.{parse-serialize_whole}
use ns1_interview_redis.Parser.{parse}
use ns1_interview_redis.DataStore.{DataStore, set_chars, del_chars, get_chars}
use ns1_interview_redis.DataStore.UnorderedMap.{find, find-insert, find-erase}
use ns1_interview_redis.DataStore.Laws.{found, get-find, del-get}
use ns1_interview_redis.Commands.Action.{DataStores, pure}
use ns1_interview_redis.Commands.{
  get_partition, num_datastores, null_response, found_response, do_get, do_set, do_del_internal,
}
use ns1_interview_redis.Commands.Partition.{IsIndex}
use ns1_interview_redis.Commands.View.{view, Writes, on_store-Written}
use ns1_interview_redis.Commands.Dictionary.{Dictionary, update, obey, is_some}
use ns1_interview_redis.Commands.Dictionary as Dictionary

-- The stores hold the serialized entries of the dictionary, all of which are wire objects.
pub record Represents (st : DataStores) (m : Dictionary) : Type 0 where
  pub sized : length st ≡ num_datastores
  pub views : (k : Bytes) → view st k ≡ Option.map serialize (m k)
  pub wire : (k : Bytes) (x : RespObject) → m k ≡ some x → IsWire x

-- The action did not fault, gave the response, and left stores for the dictionary.
pub record Simulates {A : Type 0} (o : Option (A × DataStores)) (r : A × Dictionary) : Type 0 where
  pub after : DataStores
  pub runs : o ≡ some (r.0, after)
  pub still : Represents after r.1

set-Writes : (k v : Bytes) → c_str k ≡ k → c_str v ≡ v → Writes k (λ _. some v) (set_chars k v)
unfolding set_chars
set-Writes k v ek ev d j = rw (ek, ev) (find-insert k j v d.map)

del-Writes : (k : Bytes) → c_str k ≡ k → Writes k (λ _. none) (del_chars k)
unfolding del_chars
del-Writes k ek d j = rw ek (ground (arith, find-erase k j d.map, bytes_eq_iff k j))

get-Writes : (k : Bytes) → Writes k (λ d. find k d.map) (λ d. (get_chars k d, d))
get-Writes k d j = ground (arith, bytes_eq_iff k j)

found-is_some : (o : Option RespObject) → (found (Option.map serialize o)).0 ≡ is_some o
found-is_some none = refl
found-is_some (some x) = refl

-- What `do_get` makes of a value that was read.
fetched :
    {o : Option RespObject} {fv : Bool × Bytes}
    → fv ≡ found (Option.map serialize o)
    → (after : DataStores) → ((x : RespObject) → o ≡ some x → IsWire x)
    → (if fv.0 then found_response (parse fv.1) else pure null_response) after
      ≡ some (Dictionary.entry_response o, after)
fetched {o = none} e after w = rw e
fetched {o = some x} e after w = rw e (rw (parse-serialize_whole x (w x refl)))

module _ {st : DataStores} {m : Dictionary} (r : Represents st m) where
  chosen_IsWire :
      (j : Bytes) (x : RespObject) (b : Bool) (entry : Option RespObject)
      → ((x : RespObject) → entry ≡ some x → IsWire x)
      → (if b then entry else m j) ≡ some x
      → IsWire x
  chosen_IsWire j x true entry wire_entry e = wire_entry x e
  chosen_IsWire j x false entry wire_entry e = r.wire j x e

  get_chars-Represents :
      (k : Bytes) (d : DataStore)
      → find k d.map ≡ view st k
      → c_str k ≡ k
      → get_chars k d ≡ found (Option.map serialize (m k))
  unfolding get_chars
  get_chars-Represents k d reads e = rw (e, get-find k d, reads, r.views k)

  update-Represents :
      (k : Bytes) (entry : Option RespObject) (after : DataStores)
      → ((x : RespObject) → entry ≡ some x → IsWire x)
      → length after ≡ num_datastores
      → ((j : Bytes)
          → view after j ≡ (if bytes_eq k j then Option.map serialize entry else view st j))
      → Represents after (update k entry m)
  update-Represents k entry after wire_entry sized views = record {
    sized = sized;
    views = λ j. views j ∙ elim (Bool-cases (bytes_eq k j)) [
      | inl same ↦ rw same
      | inr other ↦ rw other (r.views j)
    ];
    wire = λ j x e. chosen_IsWire j x (bytes_eq k j) entry wire_entry e;
  }

  -- `do_set` on a placed key.
  pub do_set-Simulates :
      (name key value : RespObject) (more : RespObjects)
      → IsWire key
      → IsWire value
      → IsIndex (get_partition (to_string key))
      → Simulates
          (do_set (array (cons name (cons key (cons value more)))) st)
          (obey (Dictionary.set (to_string key) value) m)
  unfolding do_set set_chars
  do_set-Simulates name key value more wk wv placed =
      let w =
        on_store-Written (to_string key) (λ _. some (serialize value))
          (set_chars (to_string key) (serialize value))
          (set-Writes (to_string key) (serialize value) (c_str-to_string wk) (c_str-serialize wv))
          st r.sized placed in
      record {
        after = w.after;
        runs = rw w.runs;
        still =
            update-Represents (to_string key) (some value) w.after (λ x e. subst IsWire (cc) wv)
              w.sized w.views;
      }

  unchanged :
      (k j : Bytes) (d : DataStore)
      → find k d.map ≡ view st k
      → (if bytes_eq k j then find k d.map else view st j) ≡ Option.map serialize (m j)
  unchanged k j d reads = elim (Bool-cases (bytes_eq k j)) [
    | inl same ↦ rw same (reads ∙ ap (view st) (bytes_eq→eq k j same) ∙ r.views j)
    | inr other ↦ rw other (r.views j)
  ]

  -- `do_get` on a placed key.
  pub do_get-Simulates :
      (name key : RespObject) (more : RespObjects)
      → IsWire key
      → IsIndex (get_partition (to_string key))
      → Simulates
          (do_get (array (cons name (cons key more))) st)
          (obey (Dictionary.get (to_string key)) m)
  unfolding do_get
  do_get-Simulates name key more wk placed =
      let w =
        on_store-Written (to_string key) (λ d. find (to_string key) d.map)
          (λ d. (get_chars (to_string key) d, d)) (get-Writes (to_string key)) st r.sized placed in
      record {
        after = w.after;
        runs = rw w.runs (
            fetched (get_chars-Represents (to_string key) w.store w.reads (c_str-to_string wk))
              w.after (r.wire (to_string key)));
        still = record {
          sized = w.sized;
          views = λ j. w.views j ∙ unchanged (to_string key) j w.store w.reads;
          wire = r.wire;
        };
      }

  del_chars-Represents :
      (k : Bytes) (d : DataStore)
      → find k d.map ≡ view st k
      → c_str k ≡ k
      → (del_chars k d).0 ≡ is_some (m k)
  unfolding del_chars
  del_chars-Represents k d reads e =
      rw (e, del-get, get-find, reads, r.views k) (found-is_some (m k))

  -- `do_del_internal` on a placed key.
  pub do_del_internal-Simulates :
      (key : RespObject)
      → IsWire key
      → IsIndex (get_partition (to_string key))
      → Simulates
          (do_del_internal key st)
          (is_some (m (to_string key)), update (to_string key) none m)
  unfolding do_del_internal
  do_del_internal-Simulates key wk placed =
      let w =
        on_store-Written (to_string key) (λ _. none) (del_chars (to_string key))
          (del-Writes (to_string key) (c_str-to_string wk)) st r.sized placed in
      record {
        after = w.after;
        runs =
            rw w.runs
              (rw (del_chars-Represents (to_string key) w.store w.reads (c_str-to_string wk)));
        still = update-Represents (to_string key) none w.after (λ x e. cc) w.sized w.views;
      }
