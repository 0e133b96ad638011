-- ===== src/Server/Accepting.antt =====
-- `accepting_thread_loop`: what a new connection starts from.
use ns1_interview_redis.Prelude.{
  ℕ, ◌≡◌, ◌≢◌, refl, ◌∙◌, ==-ne, Bool, true, none, [], ◌∷◌, false, some,
}
use ns1_interview_redis.Session.{create_state}
use ns1_interview_redis.Server.Sets.{contains-insert, contains-insert_self}
use ns1_interview_redis.Server.Effect.{
  Orchestrator, Pointer, done, undefined, update_self, update-ne, contains,
}
use ns1_interview_redis.Server.Sockets.{
  accept_connection, handle_events, create_processing_jobs, create_processing_job,
}
use ns1_interview_redis.Server.Requests.{IsIdle}

-- The socket has the state at `p`, idle and polled; the other sockets and states, the queues and the
-- data are as before.
pub record IsAccepted (fd : ℕ) (p : Pointer) (before after : Orchestrator) : Type 0 where
  pub registered : after.all_sockets fd ≡ some p
  pub owned : (after.heap p).socket ≡ fd
  pub idle : IsIdle (after.heap p)
  pub polled : contains fd after.epoll_sockets ≡ true
  pub others_polled :
      (j : ℕ) → fd ≢ j → contains j after.epoll_sockets ≡ contains j before.epoll_sockets
  pub processing_kept : after.processing_sockets ≡ before.processing_sockets
  pub writing_kept : after.write_sockets ≡ before.write_sockets
  pub reads_kept : after.read_jobs ≡ before.read_jobs
  pub parses_kept : after.parse_jobs ≡ before.parse_jobs
  pub writes_kept : after.write_jobs ≡ before.write_jobs
  pub sent_kept : after.sent ≡ before.sent
  pub closed_kept : after.closed ≡ before.closed
  pub others : (j : ℕ) → fd ≢ j → after.all_sockets j ≡ before.all_sockets j
  pub states : (q : Pointer) → p ≢ q → after.heap q ≡ before.heap q
  pub data_kept : after.datastore ≡ before.datastore

-- With memory for its state, an accepted connection is registered with a new state and polled; the
-- state is idle and belongs to the socket. The other connections stay registered and polled as they
-- were, and their states, the queues and the data stay.
pub accept_connection-IsAccepted :
    (fd : ℕ) (o : Orchestrator)
    → (after : Orchestrator) × (accept_connection true fd o ≡ done tt after)
      × IsAccepted fd o.next o after
unfolding accept_connection create_state
accept_connection-IsAccepted fd o = (
  _,
  refl,
  record {
    registered = update_self fd _ o.all_sockets;
    owned = simp update_self;
    idle = simp update_self (record {
      nothing_read = refl;
      no_response = refl;
      no_error = refl;
      no_special_error = refl;
      is_free = refl;
    });
    polled = contains-insert_self fd o.epoll_sockets;
    others_polled = λ j ne. contains-insert j fd o.epoll_sockets ∙ rw (==-ne fd j ne) refl;
    processing_kept = refl;
    writing_kept = refl;
    reads_kept = refl;
    parses_kept = refl;
    writes_kept = refl;
    sent_kept = refl;
    closed_kept = refl;
    others = λ j ne. update-ne fd j _ o.all_sockets ne;
    states = λ q ne. update-ne o.next q _ o.heap ne;
    data_kept = refl;
  },
)

-- A connection that was accepted without memory for its state, and has none from before, is polled
-- all the same, and still has no state: a round of the epoll thread that finds it ready fails an
-- assertion, whether or not there is room for a job.
pub accept_connection-undefined :
    (fd : ℕ) (o : Orchestrator) (room : ℕ → Bool)
    → o.all_sockets fd ≡ none
    → (after : Orchestrator) × (accept_connection false fd o ≡ done tt after)
      × (contains fd after.epoll_sockets ≡ true)
      × (after.all_sockets fd ≡ none)
      × (handle_events room ((fd, true) ∷ []) after ≡ undefined)
unfolding accept_connection handle_events create_processing_jobs create_processing_job
accept_connection-undefined fd o room e =
    (_, refl, contains-insert_self fd o.epoll_sockets, e, rw e refl)
