-- ===== src/Server/Closing.antt =====
-- `remove_socket` and `close_and_cleanup`: the socket is gone from every table.
use ns1_interview_redis.Prelude.{
  ℕ, ◌≡◌, ◌≢◌, refl, sym, ◌∙◌, Bool, true, false, none, some, [], ◌∷◌, ◌++◌,
}
use ns1_interview_redis.Session.{State}
use ns1_interview_redis.Server.Sets.{contains-erase_self, contains-erase_ne}
use ns1_interview_redis.Server.Effect.{
  Orchestrator, Pointer, done, update, update_self, update-ne, erase, contains, lock,
}
use ns1_interview_redis.Server.Sockets.{close_and_cleanup}

-- No table has the socket, and it was closed once more than before.
pub record IsGone (fd : ℕ) (before after : Orchestrator) : Type 0 where
  pub unregistered : after.all_sockets fd ≡ none
  pub not_polled : contains fd after.epoll_sockets ≡ false
  pub not_processing : contains fd after.processing_sockets ≡ false
  pub not_writing : contains fd after.write_sockets ≡ false
  pub is_closed : after.closed ≡ before.closed ++ fd ∷ []

-- The other sockets, the states but the one at `p`, the data and the queues are as before.
pub record OthersKept (fd : ℕ) (p : Pointer) (before after : Orchestrator) : Type 0 where
  pub next_kept : after.next ≡ before.next
  pub states : (q : Pointer) → p ≢ q → after.heap q ≡ before.heap q
  pub registered : (j : ℕ) → j ≢ fd → after.all_sockets j ≡ before.all_sockets j
  pub polled : (j : ℕ) → j ≢ fd → contains j after.epoll_sockets ≡ contains j before.epoll_sockets
  pub processing :
      (j : ℕ) → j ≢ fd → contains j after.processing_sockets ≡ contains j before.processing_sockets
  pub writing : (j : ℕ) → j ≢ fd → contains j after.write_sockets ≡ contains j before.write_sockets
  pub data_kept : after.datastore ≡ before.datastore
  pub reads_kept : after.read_jobs ≡ before.read_jobs
  pub parses_kept : after.parse_jobs ≡ before.parse_jobs
  pub writes_kept : after.write_jobs ≡ before.write_jobs
  pub sent_kept : after.sent ≡ before.sent

-- The heap with the mutex of `p` set.
abbrev pub with_lock : Bool → Pointer → (Pointer → State) → Pointer → State
with_lock b p h = update p (record (h p) { is_locked = b }) h

-- A mutex that is free is taken.
pub lock-free :
    (p : Pointer) (o : Orchestrator)
    → (o.heap p).is_locked ≡ false
    → lock p o ≡ done tt (record o { heap = with_lock true p o.heap })
unfolding lock
lock-free p o e = rw e

abbrev pub cleaned : ℕ → Pointer → Orchestrator → Orchestrator
cleaned fd p o = record o {
  heap = with_lock false p (with_lock true p (with_lock false p o.heap));
  all_sockets = update fd none o.all_sockets;
  epoll_sockets = erase fd o.epoll_sockets;
  processing_sockets = erase fd o.processing_sockets;
  write_sockets = erase fd o.write_sockets;
  closed = o.closed ++ fd ∷ [];
}

pub close_and_cleanup-cleaned :
    (fd : ℕ) (p : Pointer) (o : Orchestrator)
    → o.all_sockets fd ≡ some p
    → close_and_cleanup fd p o ≡ done tt (cleaned fd p o)
unfolding close_and_cleanup
close_and_cleanup-cleaned fd p o e =
    rw e (rw (lock-free p (record o { heap = with_lock false p o.heap }) (rw update_self)))

pub cleaned-IsGone : (fd : ℕ) (p : Pointer) (o : Orchestrator) → IsGone fd o (cleaned fd p o)
cleaned-IsGone fd p o = record {
  unregistered = update_self fd none o.all_sockets;
  not_polled = contains-erase_self fd o.epoll_sockets;
  not_processing = contains-erase_self fd o.processing_sockets;
  not_writing = contains-erase_self fd o.write_sockets;
  is_closed = refl;
}

pub cleaned-OthersKept :
    (fd : ℕ) (p : Pointer) (o : Orchestrator) → OthersKept fd p o (cleaned fd p o)
cleaned-OthersKept fd p o = record {
  next_kept = refl;
  states = λ q ne. update-ne p q _ _ ne ∙ (update-ne p q _ _ ne ∙ update-ne p q _ o.heap ne);
  registered = λ j ne. update-ne fd j none o.all_sockets (λ e. ne (sym e));
  polled = λ j ne. contains-erase_ne j fd o.epoll_sockets ne;
  processing = λ j ne. contains-erase_ne j fd o.processing_sockets ne;
  writing = λ j ne. contains-erase_ne j fd o.write_sockets ne;
  data_kept = refl;
  reads_kept = refl;
  parses_kept = refl;
  writes_kept = refl;
  sent_kept = refl;
}

-- Where the socket is registered with the state, `close_and_cleanup` does not block: it takes the
-- socket out of every table, closes it, and leaves the mutex of its state free. The rest of that
-- state, the states of the other connections, the other sockets, the queues and the data stay.
pub close_and_cleanup_lem :
    (fd : ℕ) (p : Pointer) (o : Orchestrator)
    → o.all_sockets fd ≡ some p
    → (after : Orchestrator) × (close_and_cleanup fd p o ≡ done tt after)
      × IsGone fd o after
      × OthersKept fd p o after
      × (after.heap p ≡ record (o.heap p) { is_locked = false })
close_and_cleanup_lem fd p o e = (
  cleaned fd p o,
  close_and_cleanup-cleaned fd p o e,
  cleaned-IsGone fd p o,
  cleaned-OthersKept fd p o,
  simp update_self,
)
