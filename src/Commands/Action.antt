-- ===== src/Commands/Action.antt =====
-- Actions on the data stores that return a value. `none` is undefined behaviour in the program: an
-- access outside `m_datastore`, or an index or a cast that the object does not allow.
use ns1_interview_redis.Prelude.{ℕ, Option, none, some, List, get_elem?, set}
use ns1_interview_redis.Prelude.Int.{ℤ, pos, negsuc}
use ns1_interview_redis.DataStore.{DataStore}

abbrev pub DataStores : Type 0
DataStores = List DataStore

abbrev pub Run : Type 0 → Type 0
Run A = DataStores → Option (A × DataStores)

abbrev pub pure : {A : Type 0} → A → Run A
pure a st = some (a, st)

abbrev pub lift : {A : Type 0} → Option A → Run A
lift none st = none
lift (some a) st = some (a, st)

abbrev pub continue :
    {A B : Type 0} → (A → Run B) → Option (A × DataStores) → Option (B × DataStores)
continue f none = none
continue f (some (a, st)) = f a st

infixl 5 ◌>>=◌
abbrev pub ◌>>=◌ : {A B : Type 0} → Run A → (A → Run B) → Run B
m >>= f = λ st. continue f (m st)

abbrev put_back : {A : Type 0} → ℕ → DataStores → A × DataStore → A × DataStores
put_back i st (a, d) = (a, set st i d)

-- A method of `m_datastore[partition]`, where the index need not be inside the array.
unfoldable pub on_store : {A : Type 0} → ℤ → (DataStore → A × DataStore) → Run A
on_store (negsuc i) method st = none
on_store (pos i) method st = elim (get_elem? st i) [
  | none ↦ none
  | some d ↦ some (put_back i st (method d))
]
