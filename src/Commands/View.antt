-- ===== src/Commands/View.antt =====
-- The ten data stores, seen as one map from keys to values.
use ns1_interview_redis.Prelude.{
  ℕ, zero, suc, replicate, ◌<◌, ◌≡◌, refl, ◌∙◌, false, Option, none, some, arith, length, set,
  get_elem?, length-set, get_elem?-set_self, get_elem?-set_ne, get_elem?-lt, if◌then◌else◌, ◌==◌,
  Bool-cases, inl, inr,
}
use ns1_interview_redis.Prelude.Int.{ℤ, pos, negsuc}
use ns1_interview_redis.Prelude.Bytes.{Bytes, bytes_eq, bytes_eq→eq, bytes_eq_refl}
use ns1_interview_redis.DataStore.{DataStore, empty}
use ns1_interview_redis.DataStore.UnorderedMap.{find}
use ns1_interview_redis.Commands.Action.{DataStores, on_store}
use ns1_interview_redis.Commands.{get_partition, num_datastores, no_data}
use ns1_interview_redis.Commands.Partition.{IsIndex}

abbrev find_in : Bytes → Option DataStore → Option Bytes
find_in k none = none
find_in k (some d) = find k d.map

-- The value of `k` in the store of index `p`.
abbrev view_at : DataStores → Bytes → ℤ → Option Bytes
view_at st k (negsuc i) = none
view_at st k (pos i) = find_in k (get_elem? st i)

-- The value of `k` in the store of its partition.
unfoldable pub view : DataStores → Bytes → Option Bytes
view st k = view_at st k (get_partition k)

-- A method that may change the value of `key` alone, to `new`.
abbrev pub Writes {ℓ} :
    {A : Type ℓ} → Bytes → (DataStore → Option Bytes) → (DataStore → A × DataStore) → Type 0
Writes key new method =
    (d : DataStore) (j : Bytes)
    → find j (method d).1.map ≡ (if bytes_eq key j then new d else find j d.map)

module _ {A : Type 0} (key : Bytes) (new : DataStore → Option Bytes)
    (method : DataStore → A × DataStore) (writes : Writes key new method) (st : DataStores) (i : ℕ)
    (d : DataStore) (here : get_elem? st i ≡ some d) where
  view_at-key : i < length st → view_at (set st i (method d).1) key (pos i) ≡ new d
  view_at-key inside =
      rw (get_elem?-set_self st i (method d).1 inside) (rw (writes d key, bytes_eq_refl key))

  view_at-other :
      (j : Bytes) (p : ℤ)
      → i < length st
      → bytes_eq key j ≡ false
      → view_at (set st i (method d).1) j p ≡ view_at st j p
  view_at-other j (negsuc n) inside other = refl
  view_at-other j (pos n) inside other = elim (Bool-cases (i == n)) [
    | inl same ↦
        let e : n ≡ i = ground arith in
        rw e (rw (get_elem?-set_self st i (method d).1 inside, here) (rw (writes d j, other)))
    | inr differ ↦ rw (get_elem?-set_ne st i n (method d).1 (ground arith))
  ]

  -- The whole view, where `key` is placed at `i`.
  view-set :
      (j : Bytes)
      → get_partition key ≡ pos i
      → i < length st
      → view (set st i (method d).1) j ≡ (if bytes_eq key j then new d else view st j)
  unfolding view
  view-set j at inside = elim (Bool-cases (bytes_eq key j)) [
    | inl same ↦ rw same (rw (← bytes_eq→eq key j same) (rw at (view_at-key inside)))
    | inr other ↦ rw other (view_at-other j (get_partition j) inside other)
  ]

-- A method on the store of a placed key: what it runs on, and what it writes.
pub record Written {A : Type 0} (key : Bytes) (new : DataStore → Option Bytes)
    (method : DataStore → A × DataStore) (st : DataStores) : Type 0 where
  pub store : DataStore
  pub after : DataStores
  pub runs : on_store (get_partition key) method st ≡ some ((method store).0, after)
  pub reads : find key store.map ≡ view st key
  pub sized : length after ≡ num_datastores
  pub views : (j : Bytes) → view after j ≡ (if bytes_eq key j then new store else view st j)

module _ {A : Type 0} (key : Bytes) (new : DataStore → Option Bytes)
    (method : DataStore → A × DataStore) (writes : Writes key new method) (st : DataStores)
    (all : length st ≡ num_datastores) where
  Written-in :
      (i : ℕ) (d : DataStore)
      → get_elem? st i ≡ some d
      → get_partition key ≡ pos i
      → i < num_datastores
      → Written key new method st
  unfolding on_store view
  Written-in i d here at inside = record {
    store = d;
    after = set st i (method d).1;
    runs = rw at (rw (here, on_store));
    reads = rw at (rw here);
    sized = length-set st i (method d).1 ∙ all;
    views = λ j. view-set key new method writes st i d here j at (omega arith);
  }

  Written-from : (p : ℤ) → get_partition key ≡ p → IsIndex p → Written key new method st
  Written-from (pos i) at inside =
      let (d, here) = get_elem?-lt st i (omega arith) in Written-in i d here at inside
  Written-from (negsuc i) at inside = absurd inside

  pub on_store-Written : IsIndex (get_partition key) → Written key new method st
  on_store-Written = Written-from (get_partition key) refl

find_in-replicate : (k : Bytes) (n i : ℕ) → find_in k (get_elem? (replicate n empty) i) ≡ none
unfolding find
find_in-replicate k zero i = refl
find_in-replicate k (suc n) zero = refl
find_in-replicate k (suc n) (suc i) = find_in-replicate k n i

view_at-no_data : (k : Bytes) (p : ℤ) → view_at no_data k p ≡ none
view_at-no_data k (pos i) = find_in-replicate k num_datastores i
view_at-no_data k (negsuc i) = refl

pub view-no_data : (k : Bytes) → view no_data k ≡ none
unfolding view
view-no_data k = view_at-no_data k (get_partition k)
