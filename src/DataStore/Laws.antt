-- ===== src/DataStore/Laws.antt =====
-- What one data store promises, in terms of `find` on the keys.
use ns1_interview_redis.Prelude.{
  ◌≡◌, Bool, true, false, Option, none, some, [], arith, if◌then◌else◌,
}
use ns1_interview_redis.Prelude.Bytes.{Bytes, bytes_eq, bytes_eq_iff}
use ns1_interview_redis.DataStore.{DataStore, set, del, get}
use ns1_interview_redis.DataStore.UnorderedMap.{find, find-insert, find-erase}

-- The pair that a lookup returns.
abbrev pub found : Option Bytes → Bool × Bytes
found none = (false, [])
found (some v) = (true, v)

pub get-find : (k : Bytes) (d : DataStore) → get k d ≡ found (find k d.map)
unfolding get
get-find k d = ground arith

-- A `get` after a `set` or a `del` of any key.
pub get-set :
    (k j v : Bytes) (d : DataStore)
    → get j (set k v d).1 ≡ (if bytes_eq k j then (true, v) else get j d)
unfolding get set
get-set k j v d = ground (arith, find-insert k j v d.map)

pub get-del :
    (k j : Bytes) (d : DataStore)
    → get j (del k d).1 ≡ (if bytes_eq k j then (false, []) else get j d)
unfolding get del
get-del k j d = ground (arith, find-erase k j d.map, bytes_eq_iff k j)

-- `del` reports whether the key was there.
pub del-get : (k : Bytes) (d : DataStore) → (del k d).0 ≡ (get k d).0
unfolding get del
del-get k d = ground arith

-- For any keys `k` and `j`: a `get` of `j` after `set` of `k` finds the new value if the keys are
-- equal and what it found before if not; after `del` of `k` it finds nothing if the keys are equal
-- and what it found before if not; `del` reports whether `get` would have found the key.
pub store_laws :
    (k j v : Bytes) (d : DataStore)
    → (get j (set k v d).1 ≡ (if bytes_eq k j then (true, v) else get j d))
      × (get j (del k d).1 ≡ (if bytes_eq k j then (false, []) else get j d))
      × ((del k d).0 ≡ (get k d).0)
store_laws k j v d = (get-set k j v d, get-del k j d, del-get k d)
