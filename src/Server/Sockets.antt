-- ===== src/Server/Sockets.antt =====
-- src/orchestrator.cpp: accepting, polling and removing sockets.
use ns1_interview_redis.Prelude.{
  ℕ, ◌+◌, Bool, true, false, Option, none, some, List, [], ◌∷◌, ◌++◌, if◌then◌else◌,
}
use ns1_interview_redis.Session.{accepted, waiting_for_read_job, create_state}
use ns1_interview_redis.Server.Effect.{
  Pointer, Action, undefined, pure, ◌>>◌, modify, update, erase, insert, change, lock, unlock,
}

-- The part of `accepting_thread_loop` that registers the connection. Where `create_state` found no
-- memory (`allocated` is false) the socket has no state, and is polled all the same.
unfoldable pub accept_connection : Bool → ℕ → Action (Unit {0})
unfolding create_state
accept_connection allocated fd = do
  if allocated
      then modify (λ o. record o {
        heap = update o.next (record (create_state fd) { state = accepted }) o.heap;
        next = o.next + 1;
        all_sockets = update fd (some o.next) o.all_sockets;
      })
      else pure tt
  modify (λ o. record o { epoll_sockets = insert fd o.epoll_sockets })

-- `add_to_epoll_queue`
unfoldable pub add_to_epoll_queue : ℕ → Action (Unit {0})
add_to_epoll_queue fd = modify λ o. record o { epoll_sockets = insert fd o.epoll_sockets }

abbrev take_lock : Option Pointer → Action (Unit {0})
take_lock none = pure tt
take_lock (some state) = do lock state; unlock state

-- `remove_socket`: the state's mutex is taken and left again around the removal from the map.
unfoldable pub remove_socket : ℕ → Action (Unit {0})
unfolding unlock
remove_socket fd = do
  (λ o. take_lock (o.all_sockets fd) o)
  modify (λ o. record o {
    all_sockets = update fd none o.all_sockets;
    epoll_sockets = erase fd o.epoll_sockets;
    processing_sockets = erase fd o.processing_sockets;
    write_sockets = erase fd o.write_sockets;
  })

-- `close_and_cleanup`
unfoldable pub close_and_cleanup : ℕ → Pointer → Action (Unit {0})
unfolding remove_socket unlock
close_and_cleanup fd p = do
  unlock p
  remove_socket fd
  modify (λ o. record o { closed = o.closed ++ fd ∷ [] })

-- `add_job` of the pool that reads; where the queue could not grow the job is dropped.
abbrev queue_read_job : Bool → Pointer → Action (Unit {0})
queue_read_job true p = modify λ o. record o { read_jobs = o.read_jobs ++ p ∷ [] }
queue_read_job false p = pure tt

abbrev start_read : Bool → Option Pointer → Action (Unit {0})
start_read room none = λ o. undefined
start_read room (some p) = do
  lock p
  change p (λ s. record s { state = waiting_for_read_job })
  queue_read_job room p

-- `create_processing_job`, after its assertion that the socket has a state
unfoldable pub create_processing_job : Bool → ℕ → Action (Unit {0})
create_processing_job room fd o = start_read room (o.all_sockets fd) o

-- The loop over the ready sockets, at the end of a round. `room` says for which of them there is
-- memory for the job and its place in the queue.
unfoldable pub create_processing_jobs : (ℕ → Bool) → List ℕ → Action (Unit {0})
unfolding create_processing_job
create_processing_jobs room [] = pure tt
create_processing_jobs room (fd ∷ fds) = do
  create_processing_job (room fd) fd
  create_processing_jobs room fds

-- The events of one `epoll_wait`: a socket, and whether its event mask is not 0.
abbrev pub ready_fds : List (ℕ × Bool) → List ℕ
ready_fds [] = []
ready_fds ((fd, true) ∷ events) = insert fd (ready_fds events)
ready_fds ((fd, false) ∷ events) = ready_fds events

abbrev pub erase_all : List ℕ → List ℕ → List ℕ
erase_all [] s = s
erase_all (fd ∷ fds) s = erase fd (erase_all fds s)

abbrev pub insert_all : List ℕ → List ℕ → List ℕ
insert_all [] s = s
insert_all (fd ∷ fds) s = insert fd (insert_all fds s)

-- What `epoll_thread_loop` does with the events of one round.
unfoldable pub handle_events : (ℕ → Bool) → List (ℕ × Bool) → Action (Unit {0})
unfolding create_processing_jobs
handle_events room events = do
  modify (λ o. record o {
    epoll_sockets = erase_all (ready_fds events) o.epoll_sockets;
    processing_sockets = insert_all (ready_fds events) o.processing_sockets;
  })
  create_processing_jobs room (ready_fds events)
