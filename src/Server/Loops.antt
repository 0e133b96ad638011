-- ===== src/Server/Loops.antt =====
-- src/orchestrator.cpp: `accepting_thread_loop` and `epoll_thread_loop`, over what their system calls
-- return. Neither loop ends by itself; a list of results stands for as many rounds.
use ns1_interview_redis.Prelude.{
  ℕ, zero, All, ◌≡◌, refl, ◌∙◌, Bool, true, Option, none, some, List, [], ◌∷◌, map,
}
use ns1_interview_redis.Prelude.Int.{ℤ, pos, negsuc}
use ns1_interview_redis.Server.Effect.{
  Orchestrator, Effect, done, blocks, undefined, Action, pure, go_on, ◌>>=◌, ◌>>◌,
}
use ns1_interview_redis.Server.Sockets.{accept_connection, handle_events}
use ns1_interview_redis.Server.Epoll.{Epoll, Waited, events_of, watch, unwatch}
use ns1_interview_redis.Server.Threads.{Turn, accepts, polls, turn}

-- What accept() returned, what fcntl() returned for O_NONBLOCK, and whether there is memory for the
-- state. A failure of fcntl() is printed and nothing else.
pub record Accepted : Type 0 where
  pub new_socket : ℤ
  pub made_nonblocking : ℤ
  pub allocated : Bool

abbrev register : Bool → ℤ → Action (Unit {0})
register allocated (pos fd) = accept_connection allocated fd
register allocated (negsuc n) = pure tt

-- A round of `accepting_thread_loop`; where accept() failed it goes on with the next.
unfoldable pub accept_round : Accepted → Action (Unit {0})
accept_round call = register call.allocated call.new_socket

unfoldable pub accepting_thread_loop : List Accepted → Action (Unit {0})
unfolding accept_round
accepting_thread_loop [] = pure tt
accepting_thread_loop (call ∷ calls) = do accept_round call; accepting_thread_loop calls

-- The turns of the threads, one after another.
abbrev pub turns : List Turn → Action (Unit {0})
turns [] = pure tt
turns (t ∷ ts) = do turn t; turns ts

abbrev accepted_at : ℤ → List Turn → List Turn
accepted_at (pos fd) ts = accepts fd ∷ ts
accepted_at (negsuc n) ts = ts

-- The sockets that were accepted, in their order.
abbrev pub accepted : List Accepted → List Turn
accepted [] = []
accepted (call ∷ calls) = accepted_at call.new_socket (accepted calls)

module _ {K : Type 0} (epoll : Epoll K) where
  -- A round of `epoll_thread_loop`, with the epoll descriptor.
  unfoldable pub epoll_round : (ℕ → Bool) → Waited → K → Action K
  unfolding watch unwatch handle_events
  epoll_round room waited k o =
      let watched = watch epoll o.epoll_sockets k in
      let unwatched = unwatch epoll waited o.epoll_sockets watched.1 in
      (do handle_events room (events_of waited); pure unwatched.1) o

  abbrev pub epoll_rounds : List ((ℕ → Bool) × Waited) → K → Action K
  epoll_rounds [] k = pure k
  epoll_rounds ((room, waited) ∷ more) k = do k' ← epoll_round room waited k; epoll_rounds more k'

  -- The thread, from its call of sigaction() on; `none` where that fails, which ends the process.
  unfoldable pub epoll_thread_loop : ℤ → List ((ℕ → Bool) × Waited) → K → Option (Action K)
  unfolding epoll_round
  epoll_thread_loop (pos zero) waits k = some (epoll_rounds waits k)
  epoll_thread_loop retval waits k = none

register-turns :
    (b : Bool) (fd : ℤ) (ts : List Turn) (o : Orchestrator)
    → b ≡ true
    → (register b fd >> turns ts) o ≡ turns (accepted_at fd ts) o
unfolding turn
register-turns b (pos fd) ts o e = rw e refl
register-turns b (negsuc n) ts o e = refl

go_on-eq :
    {A B : Type 0} (r : Effect A) (f g : A → Action B)
    → ((a : A) (o : Orchestrator) → f a o ≡ g a o)
    → go_on f r ≡ go_on g r
go_on-eq (done a o) f g same = same a o
go_on-eq blocks f g same = refl
go_on-eq undefined f g same = refl

-- With memory for each state, the accepting thread's loop makes an `accepts` turn for each accept()
-- that succeeded, in their order, and no other change, whatever accept() and fcntl() return.
pub accepting_thread_loop-turns :
    (calls : List Accepted) (o : Orchestrator)
    → All (λ (call : Accepted). call.allocated ≡ true) calls
    → accepting_thread_loop calls o ≡ turns (accepted calls) o
unfolding accepting_thread_loop accept_round
accepting_thread_loop-turns [] o memory = refl
accepting_thread_loop-turns (call ∷ calls) o memory =
    go_on-eq (register call.allocated call.new_socket o) _ _
      (λ a o. accepting_thread_loop-turns calls o memory.1)
    ∙ register-turns call.allocated call.new_socket (accepted calls) o memory.0

module _ {K : Type 0} (epoll : Epoll K) where
  round-turns :
      (r : Effect (Unit {0})) (k : K) (rest : K → Action K) (ts : List Turn)
      → ((k : K) (o : Orchestrator) → (rest k >>= λ _. pure tt) o ≡ turns ts o)
      → go_on (λ _. pure tt) (go_on rest (go_on (λ _. pure k) r)) ≡ go_on (λ _. turns ts) r
  round-turns (done a o) k rest ts same = same k o
  round-turns blocks k rest ts same = refl
  round-turns undefined k rest ts same = refl

  epoll_rounds-turns :
      (waits : List ((ℕ → Bool) × Waited)) (k : K) (o : Orchestrator)
      → (epoll_rounds epoll waits k >>= λ _. pure tt) o
        ≡ turns (map (λ w. polls w.0 (events_of w.1)) waits) o
  unfolding epoll_round turn
  epoll_rounds-turns [] k o = refl
  epoll_rounds-turns ((room, waited) ∷ more) k o =
      round-turns (handle_events room (events_of waited) o) _ (epoll_rounds epoll more)
        (map (λ w. polls w.0 (events_of w.1)) more) (epoll_rounds-turns more)
