-- ===== src/Server/Polling.antt =====
-- `epoll_thread_loop`: the events of one round become read jobs.
use ns1_interview_redis.Prelude.{
  ℕ, ◌≡◌, ◌≢◌, refl, sym, ap, ◌∙◌, Bool, true, false, some, List, [], ◌∷◌, ◌++◌, map, All,
  append_assoc, append-nil, if◌then◌else◌,
}
use ns1_interview_redis.Session.{State, waiting_for_read_job}
use ns1_interview_redis.Server.Effect.{
  Orchestrator, Pointer, done, update, update_self, update-ne, erase, contains, insert,
}
use ns1_interview_redis.Server.Sockets.{
  create_processing_job, create_processing_jobs, handle_events, ready_fds, erase_all, insert_all,
}
use ns1_interview_redis.Server.ReadySets.{
  IsDistinct, keep_if, with_room, ready_fds-IsDistinct, contains-erase_all, contains-insert_all,
}
use ns1_interview_redis.Server.Closing.{with_lock, lock-free}

-- The state of a connection whose read job is queued.
abbrev pub waiting_state : State → State
waiting_state s = record s { is_locked = true; state = waiting_for_read_job }

-- What a round of the epoll thread leaves alone.
pub record IsUntouched (before after : Orchestrator) : Type 0 where
  pub next : after.next ≡ before.next
  pub all_sockets : after.all_sockets ≡ before.all_sockets
  pub datastore : after.datastore ≡ before.datastore
  pub parse_jobs : after.parse_jobs ≡ before.parse_jobs
  pub write_jobs : after.write_jobs ≡ before.write_jobs
  pub sent : after.sent ≡ before.sent
  pub closed : after.closed ≡ before.closed

-- A queue behind `add_job`.
abbrev pub queue_if : Bool → Pointer → List Pointer → List Pointer
queue_if true p jobs = jobs ++ p ∷ []
queue_if false p jobs = jobs

queue_if-map :
    (b : Bool) (f : ℕ → Pointer) (fd : ℕ) (fds : List ℕ) (jobs : List Pointer)
    → queue_if b (f fd) jobs ++ map f fds ≡ jobs ++ map f (keep_if b fd fds)
queue_if-map true f fd fds jobs = append_assoc jobs (f fd ∷ []) (map f fds)
queue_if-map false f fd fds jobs = refl

module _ (state_of : ℕ → Pointer) where
  -- The socket is registered with its state, whose mutex is free.
  abbrev pub IsReady : Orchestrator → ℕ → Type 0
  IsReady o fd =
      (o.all_sockets fd ≡ some (state_of fd))
      × ((o.heap (state_of fd)).socket ≡ fd)
      × ((o.heap (state_of fd)).is_locked ≡ false)

  abbrev pub taken : Bool → ℕ → Orchestrator → Orchestrator
  taken room fd o =
      let p = state_of fd in
      let h = with_lock true p o.heap in
      record o {
        heap = update p (record (h p) { state = waiting_for_read_job }) h;
        read_jobs = queue_if room p o.read_jobs;
      }

  create_processing_job-taken :
      (b : Bool) (fd : ℕ) (o : Orchestrator)
      → IsReady o fd
      → create_processing_job b fd o ≡ done tt (taken b fd o)
  unfolding create_processing_job
  create_processing_job-taken true fd o (registered, owned, free) =
      rw registered (rw (lock-free (state_of fd) o free))
  create_processing_job-taken false fd o (registered, owned, free) =
      rw registered (rw (lock-free (state_of fd) o free))

  taken-kept :
      (b : Bool) (fd : ℕ) (q : Pointer) (o : Orchestrator)
      → state_of fd ≢ q
      → (taken b fd o).heap q ≡ o.heap q
  taken-kept b fd q o ne = update-ne (state_of fd) q _ _ ne ∙ update-ne (state_of fd) q _ o.heap ne

  taken-heap :
      (b : Bool) (fd : ℕ) (o : Orchestrator)
      → (taken b fd o).heap (state_of fd) ≡ waiting_state (o.heap (state_of fd))
  taken-heap b fd o = simp update_self

  state_of-ne :
      (i j : ℕ) (o : Orchestrator) → IsReady o i → IsReady o j → i ≢ j → state_of i ≢ state_of j
  state_of-ne i j o ri rj ne e = ne (sym ri.1 ∙ ap (λ q. (o.heap q).socket) e ∙ rj.1)

  -- The sockets for which there is room have their read jobs queued, in their order; the mutexes of
  -- the states of all of them are held; the other states and the tables are as before.
  pub record AreTaken (room : ℕ → Bool) (fds : List ℕ) (before after : Orchestrator) : Type 0 where
    pub queued : after.read_jobs ≡ before.read_jobs ++ map state_of (with_room room fds)
    pub waiting :
        All (λ fd. after.heap (state_of fd) ≡ waiting_state (before.heap (state_of fd))) fds
    pub kept : (q : Pointer) → All (λ fd. state_of fd ≢ q) fds → after.heap q ≡ before.heap q
    pub polled : after.epoll_sockets ≡ before.epoll_sockets
    pub processing : after.processing_sockets ≡ before.processing_sockets
    pub untouched : IsUntouched before after

  IsReady-behind :
      (b : Bool) (fd : ℕ) (fds : List ℕ) (o : Orchestrator)
      → IsReady o fd
      → All (λ j. fd ≢ j) fds
      → All (IsReady o) fds
      → All (IsReady (taken b fd o)) fds
  IsReady-behind b fd [] o r ne rs = tt
  IsReady-behind b fd (j ∷ fds) o r ne rs =
      let e = taken-kept b fd (state_of j) o (state_of-ne fd j o r rs.0 ne.0) in
      (
        (
          rs.0.0,
          ap (λ (s : State). s.socket) e ∙ rs.0.1,
          ap (λ (s : State). s.is_locked) e ∙ rs.0.2,
        ),
        IsReady-behind b fd fds o r ne.1 rs.1,
      )

  others_of :
      (fd : ℕ) (fds : List ℕ) (o : Orchestrator)
      → IsReady o fd
      → All (λ j. fd ≢ j) fds
      → All (IsReady o) fds
      → All (λ j. state_of j ≢ state_of fd) fds
  others_of fd [] o r ne rs = tt
  others_of fd (j ∷ fds) o r ne rs =
      (λ e. state_of-ne fd j o r rs.0 ne.0 (sym e), others_of fd fds o r ne.1 rs.1)

  waiting_behind :
      (b : Bool) (after : Orchestrator) (fd : ℕ) (fds : List ℕ) (o : Orchestrator)
      → IsReady o fd
      → All (λ j. fd ≢ j) fds
      → All (IsReady o) fds
      → All (λ j. after.heap (state_of j) ≡ waiting_state ((taken b fd o).heap (state_of j))) fds
      → All (λ j. after.heap (state_of j) ≡ waiting_state (o.heap (state_of j))) fds
  waiting_behind b after fd [] o r ne rs w = tt
  waiting_behind b after fd (j ∷ fds) o r ne rs w = (
    w.0 ∙ ap waiting_state (taken-kept b fd (state_of j) o (state_of-ne fd j o r rs.0 ne.0)),
    waiting_behind b after fd fds o r ne.1 rs.1 w.1,
  )

  IsUntouched-by :
      (b : Bool) (after : Orchestrator) (fd : ℕ) (o : Orchestrator)
      → IsUntouched (taken b fd o) after
      → IsUntouched o after
  IsUntouched-by b after fd o u = record {
    next = u.next;
    all_sockets = u.all_sockets;
    datastore = u.datastore;
    parse_jobs = u.parse_jobs;
    write_jobs = u.write_jobs;
    sent = u.sent;
    closed = u.closed;
  }

  pub create_processing_jobs-AreTaken :
      (room : ℕ → Bool) (fds : List ℕ) (o : Orchestrator)
      → IsDistinct fds
      → All (IsReady o) fds
      → (after : Orchestrator) × (create_processing_jobs room fds o ≡ done tt after)
        × AreTaken room fds o after
  unfolding create_processing_jobs
  create_processing_jobs-AreTaken room [] o d rs = (
    o,
    refl,
    record {
      queued = sym (append-nil o.read_jobs);
      waiting = tt;
      kept = λ q h. refl;
      polled = refl;
      processing = refl;
      untouched = record {
        next = refl;
        all_sockets = refl;
        datastore = refl;
        parse_jobs = refl;
        write_jobs = refl;
        sent = refl;
        closed = refl;
      };
    },
  )
  create_processing_jobs-AreTaken room (fd ∷ fds) o (ne, d) (r, rs) =
      let (after, runs, more) =
        create_processing_jobs-AreTaken room fds (taken (room fd) fd o) d
          (IsReady-behind (room fd) fd fds o r ne rs) in
      (
        after,
        rw (create_processing_job-taken (room fd) fd o r) runs,
        record {
          queued =
              more.queued ∙ queue_if-map (room fd) state_of fd (with_room room fds) o.read_jobs;
          waiting = (
            more.kept (state_of fd) (others_of fd fds o r ne rs) ∙ taken-heap (room fd) fd o,
            waiting_behind (room fd) after fd fds o r ne rs more.waiting,
          );
          kept = λ q h. more.kept q h.1 ∙ taken-kept (room fd) fd q o h.0;
          polled = more.polled;
          processing = more.processing;
          untouched = IsUntouched-by (room fd) after fd o more.untouched;
        },
      )

  -- The ready sockets for which there is room have read jobs; all of them moved from the polled to
  -- the processed ones.
  pub record IsHandled (room : ℕ → Bool) (events : List (ℕ × Bool)) (before after : Orchestrator)
      : Type 0 where
    pub queued :
        after.read_jobs ≡ before.read_jobs ++ map state_of (with_room room (ready_fds events))
    pub waiting :
        All
          (λ fd. after.heap (state_of fd) ≡ waiting_state (before.heap (state_of fd)))
          (ready_fds events)
    pub kept :
        (q : Pointer)
        → All (λ fd. state_of fd ≢ q) (ready_fds events)
        → after.heap q ≡ before.heap q
    pub polled :
        (j : ℕ)
        → contains j after.epoll_sockets
          ≡ (if contains j (ready_fds events) then false else contains j before.epoll_sockets)
    pub processing :
        (j : ℕ)
        → contains j after.processing_sockets
          ≡ (if contains j (ready_fds events) then true else contains j before.processing_sockets)
    pub untouched : IsUntouched before after

  pub handle_events-IsHandled :
      (room : ℕ → Bool) (events : List (ℕ × Bool)) (o : Orchestrator)
      → All (IsReady o) (ready_fds events)
      → (after : Orchestrator) × (handle_events room events o ≡ done tt after)
        × IsHandled room events o after
  unfolding handle_events
  handle_events-IsHandled room events o ready =
      let fds = ready_fds events in
      let o' = record o {
        epoll_sockets = erase_all fds o.epoll_sockets;
        processing_sockets = insert_all fds o.processing_sockets;
      } in
      let (after, runs, t) =
        create_processing_jobs-AreTaken room fds o' (ready_fds-IsDistinct events) ready in
      (
        after,
        runs,
        record {
          queued = t.queued;
          waiting = t.waiting;
          kept = t.kept;
          polled = λ j. ap (contains j) t.polled ∙ contains-erase_all j fds o.epoll_sockets;
          processing =
              λ j. ap (contains j) t.processing ∙ contains-insert_all j fds o.processing_sockets;
          untouched = record {
            next = t.untouched.next;
            all_sockets = t.untouched.all_sockets;
            datastore = t.untouched.datastore;
            parse_jobs = t.untouched.parse_jobs;
            write_jobs = t.untouched.write_jobs;
            sent = t.untouched.sent;
            closed = t.untouched.closed;
          };
        },
      )

  -- A round with one ready socket, and room for its job.
  pub handle_events-taken :
      (fd : ℕ) (o : Orchestrator)
      → IsReady o fd
      → handle_events (λ _. true) ((fd, true) ∷ []) o
        ≡ done tt (
            taken true fd (record o {
              epoll_sockets = erase fd o.epoll_sockets;
              processing_sockets = insert fd o.processing_sockets;
            }))
  unfolding handle_events create_processing_jobs
  handle_events-taken fd o r =
      rw
        (create_processing_job-taken true fd
          (record o {
            epoll_sockets = erase fd o.epoll_sockets;
            processing_sockets = insert fd o.processing_sockets;
          })
          r)
        refl
