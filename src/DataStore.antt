-- ===== src/DataStore.antt =====
-- src/data_store.h and src/data_store.cpp: one hash map. Each method holds the store's lock for its
-- whole body, so it is one step; `catch (...)` stands for a lack of memory, which is not modelled.
pub mod UnorderedMap
pub mod Laws
pub mod Contents
use ns1_interview_redis.Prelude.{Bool, true, false, Option, none, some, []}
use ns1_interview_redis.Prelude.Bytes.{Bytes, c_str}
use UnorderedMap.{find, insert, erase}

pub record DataStore : Type 0 where
  pub map : UnorderedMap.UnorderedMap

abbrev pub empty : DataStore
empty = record { map = [] }

-- `set(const std::string&, const std::string&)`
unfoldable pub set : Bytes → Bytes → DataStore → Bool × DataStore
set key value d = (true, record { map = insert key value d.map })

-- `del(const std::string&)`
unfoldable pub del : Bytes → DataStore → Bool × DataStore
del key d = elim (find key d.map) [
  | none ↦ (false, d)
  | some value ↦ (true, record { map = erase key d.map })
]

-- `get(const std::string&)`
unfoldable pub get : Bytes → DataStore → Bool × Bytes
get key d = elim (find key d.map) [ none ↦ (false, []) | some value ↦ (true, value) ]

-- The overloads on `const char*`, called with the `c_str()` of a string.
unfoldable pub set_chars : Bytes → Bytes → DataStore → Bool × DataStore
unfolding set
set_chars key value = set (c_str key) (c_str value)

unfoldable pub del_chars : Bytes → DataStore → Bool × DataStore
unfolding del
del_chars key = del (c_str key)

unfoldable pub get_chars : Bytes → DataStore → Bool × Bytes
unfolding get
get_chars key = get (c_str key)
