-- ===== src/Server/Epoll.antt =====
-- src/orchestrator.cpp: the epoll descriptor, which `epoll_thread_loop` fills and empties each round.
pub mod Rounds
use ns1_interview_redis.Prelude.{
  ℕ, ◌≡◌, ◌≢◌, refl, sym, ap, ◌∙◌, Bool, true, false, Option, none, some, List, [], ◌∷◌, ◌++◌, ◌==◌,
  if◌then◌else◌, arith, Bool-cases, inl, inr, ==-refl, ==-ne, All,
}
use ns1_interview_redis.Server.Effect.{Orchestrator, Effect, done, contains, insert}
use ns1_interview_redis.Server.Sockets.{handle_events, ready_fds}

-- `ENOENT`
abbrev pub enoent : ℕ
enoent = 2

-- What `epoll_ctl` leaves behind a call: nothing wrong, or an errno.
abbrev pub IsQuiet : Option ℕ → Type 0
IsQuiet none = Unit
IsQuiet (some e) = e ≡ enoent

-- The epoll descriptor of the kernel, of states `K`. A descriptor that was added without an error is
-- monitored, one that was removed, or was not there, is not, and the others are as before. ENOENT is
-- no error of EPOLL_CTL_ADD.
pub record Epoll (K : Type 0) : Type 0 where
  pub add : ℕ → K → Option ℕ × K
  pub del : ℕ → K → Option ℕ × K
  pub monitors : ℕ → K → Bool
  pub add_own : (fd : ℕ) (k : K) → IsQuiet (add fd k).0 → monitors fd (add fd k).1 ≡ true
  pub add_other : (fd g : ℕ) (k : K) → fd ≢ g → monitors g (add fd k).1 ≡ monitors g k
  pub del_own : (fd : ℕ) (k : K) → IsQuiet (del fd k).0 → monitors fd (del fd k).1 ≡ false
  pub del_other : (fd g : ℕ) (k : K) → fd ≢ g → monitors g (del fd k).1 ≡ monitors g k

-- The descriptors for which an error is written to std::cerr: any but ENOENT.
abbrev pub report : ℕ → Option ℕ → List ℕ → List ℕ
report fd none failed = failed
report fd (some e) failed = if e == enoent then failed else fd ∷ failed

-- The loop of both functions.
unfoldable pub ctl_all : {K : Type 0} → (ℕ → K → Option ℕ × K) → List ℕ → K → List ℕ × K
ctl_all ctl [] k = ([], k)
ctl_all ctl (fd ∷ fds) k =
    let rest = ctl_all ctl fds (ctl fd k).1 in (report fd (ctl fd k).0 rest.0, rest.1)

-- What epoll_wait() returned: 0, or -1, or a number of events.
pub data Waited : Type 0 where
  timeout interrupted : Waited
  reports : List (ℕ × Bool) → Waited

abbrev pub events_of : Waited → List (ℕ × Bool)
events_of (reports events) = events
events_of _ = []

module _ {K : Type 0} (epoll : Epoll K) where
  -- `epoll_empty_unsafe`, and `epoll_empty`, which takes the lock for it
  unfoldable pub epoll_empty : List ℕ → K → List ℕ × K
  epoll_empty epoll_sockets k = ctl_all epoll.del epoll_sockets k

  -- `epoll_rearm_unsafe`, and `epoll_rearm`
  unfoldable pub epoll_rearm : List ℕ → K → List ℕ × K
  epoll_rearm epoll_sockets k = ctl_all epoll.add epoll_sockets k

  -- The beginning of a round, before `epoll_wait`.
  unfoldable pub watch : List ℕ → K → List ℕ × K
  unfolding epoll_empty epoll_rearm
  watch epoll_sockets k =
      let emptied = epoll_empty epoll_sockets k in
      let rearmed = epoll_rearm epoll_sockets emptied.1 in (emptied.0 ++ rearmed.0, rearmed.1)

  -- Behind `epoll_wait`: unless it returned 0 the descriptor is emptied, before the ready sockets
  -- are taken out of `m_epoll_sockets`.
  unfoldable pub unwatch : Waited → List ℕ → K → List ℕ × K
  unfolding epoll_empty
  unwatch timeout epoll_sockets k = ([], k)
  unwatch waited epoll_sockets k = epoll_empty epoll_sockets k

  -- Nothing but polled sockets is monitored.
  abbrev pub IsWithin : K → List ℕ → Type 0
  IsWithin k epoll_sockets =
      (fd : ℕ) → epoll.monitors fd k ≡ true → contains fd epoll_sockets ≡ true
