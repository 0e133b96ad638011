-- ===== src/Server/Effect.antt =====
-- The orchestrator's shared state, and actions on it that can block or be undefined.
use ns1_interview_redis.Prelude.{
  ℕ, Bool, true, false, Option, none, some, List, [], ◌∷◌, ◌==◌, if◌then◌else◌, ==-refl, ==-ne, ◌≡◌,
  ◌≢◌,
}
use ns1_interview_redis.Prelude.Bytes.{Bytes}
use ns1_interview_redis.Session.{State}
use ns1_interview_redis.Commands.Action.{DataStores, Run}

-- A connection's `shared_ptr<State>`; the objects stand in a heap, since the map of all sockets and
-- the queued jobs share them.
abbrev pub Pointer : Type 0
Pointer = ℕ

-- The members of `Orchestrator` that the threads change. A queue of a thread pool is the list of
-- its jobs' states, the oldest first. `sent` and `closed` are the calls of write() and close().
pub record Orchestrator : Type 0 where
  pub heap : Pointer → State
  pub next : Pointer
  pub all_sockets : ℕ → Option Pointer
  pub epoll_sockets : List ℕ
  pub processing_sockets : List ℕ
  pub write_sockets : List ℕ
  pub datastore : DataStores
  pub read_jobs : List Pointer
  pub parse_jobs : List Pointer
  pub write_jobs : List Pointer
  pub sent : List (ℕ × Bytes)
  pub closed : List ℕ

-- `blocks`: the thread waits for a mutex that is held. `undefined`: the behaviour is undefined, or
-- an assertion fails.
pub data Effect (A : Type 0) : Type 0 where
  done : A → Orchestrator → Effect A
  blocks undefined : Effect A

abbrev pub Action : Type 0 → Type 0
Action A = Orchestrator → Effect A

abbrev pub pure : {A : Type 0} → A → Action A
pure a o = done a o

abbrev pub go_on : {A B : Type 0} → (A → Action B) → Effect A → Effect B
go_on f (done a o) = f a o
go_on f blocks = blocks
go_on f undefined = undefined

infixl 5 ◌>>=◌ ◌>>◌
abbrev pub ◌>>=◌ : {A B : Type 0} → Action A → (A → Action B) → Action B
m >>= f = λ o. go_on f (m o)

abbrev pub ◌>>◌ : {B : Type 0} → Action (Unit {0}) → Action B → Action B
m >> k = m >>= λ _. k

abbrev pub modify : (Orchestrator → Orchestrator) → Action (Unit {0})
modify f o = done tt (f o)

-- Maps and sets of `std`.
unfoldable pub update {ℓ} : {V : Type ℓ} → ℕ → V → (ℕ → V) → ℕ → V
update k v m j = if k == j then v else m j

pub update_self {ℓ} : {V : Type ℓ} (k : ℕ) (v : V) (m : ℕ → V) → update k v m k ≡ v
unfolding update
update_self k v m = rw (==-refl k)

pub update-ne {ℓ} : {V : Type ℓ} (k j : ℕ) (v : V) (m : ℕ → V) → k ≢ j → update k v m j ≡ m j
unfolding update
update-ne k j v m h = rw (==-ne k j h)

abbrev pub erase : ℕ → List ℕ → List ℕ
erase k [] = []
erase k (x ∷ xs) = let rest = erase k xs in if x == k then rest else x ∷ rest

abbrev pub contains : ℕ → List ℕ → Bool
contains k [] = false
contains k (x ∷ xs) = if x == k then true else contains k xs

abbrev pub insert : ℕ → List ℕ → List ℕ
insert k xs = if contains k xs then xs else k ∷ xs

-- The members of one connection's state.
abbrev pub change : Pointer → (State → State) → Action (Unit {0})
change p f = modify λ o. record o { heap = update p (f (o.heap p)) o.heap }

abbrev locked_at : Pointer → Bool → Action (Unit {0})
locked_at p true o = blocks
locked_at p false o = change p (λ s. record s { is_locked = true }) o

-- `m_mutex.lock()` and `m_mutex.unlock()` of a state
unfoldable pub lock : Pointer → Action (Unit {0})
lock p o = locked_at p (o.heap p).is_locked o

unfoldable pub unlock : Pointer → Action (Unit {0})
unlock p = change p (λ s. record s { is_locked = false })

abbrev stored : {A : Type 0} → Orchestrator → Option (A × DataStores) → Effect A
stored o none = undefined
stored o (some (a, st)) = done a (record o { datastore = st })

-- An operation on the data stores.
abbrev pub on_datastore : {A : Type 0} → Run A → Action A
on_datastore m o = stored o (m o.datastore)
