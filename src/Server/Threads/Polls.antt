-- ===== src/Server/Threads/Polls.antt =====
-- A round of the epoll thread, among the other threads: idle connections become busy.
use ns1_interview_redis.Prelude.{
  ℕ, ◌≡◌, ◌≢◌, refl, sym, ap, ◌∙◌, Bool, true, false, Option, none, some, List, [], ◌∷◌, ◌+◌, ◌++◌,
  arith, Bool-cases, inl, inr, All, map,
}
use mathlib.Core.Path.{subst}
use ns1_interview_redis.Session.{State}
use ns1_interview_redis.Server.Effect.{Orchestrator, Pointer, done, contains}
use ns1_interview_redis.Server.Sockets.{handle_events, ready_fds}
use ns1_interview_redis.Server.Polling.{
  IsUntouched, IsReady, IsHandled, waiting_state, handle_events-IsHandled,
}
use ns1_interview_redis.Server.ReadySets.{
  ready_fds-IsDistinct, contains-All, with_room, All-with_room, with_room-IsDistinct,
}
use ns1_interview_redis.Server.Threads.Taking.{
  All-contains, none_taken, jobs_in-taken, jobs_in-none,
}
use ns1_interview_redis.Server.Threads.Places.{
  jobs_in, jobs_in-append, reading, IsRegistered, Finds, IsQuiet, Place, gone, idle, busy, stuck,
  IsOrderly, Place-kept,
}

abbrev owner : Option Pointer → Pointer
owner none = 0
owner (some p) = p

abbrev state_of : Orchestrator → ℕ → Pointer
state_of o fd = owner (o.all_sockets fd)

module _ {o : Orchestrator} (v : IsOrderly o) where
  free_of :
      (p : Pointer)
      → Place o p
      → IsRegistered o p
      → contains (o.heap p).socket o.epoll_sockets ≡ true
      → (o.heap p).is_locked ≡ false
  free_of p (gone out c) there poll = absurd (out there)
  free_of p (idle _ _ c rest) there poll = rest.is_free
  free_of p (busy stage _ hidden c locked finds) there poll = cc
  free_of p (stuck _ hidden c locked finds waits) there poll = cc

  IsReady-one : (fd : ℕ) → contains fd o.epoll_sockets ≡ true → IsReady (state_of o) o fd
  IsReady-one fd poll =
      let (p, e) = v.polled fd poll in
      let own = (v.owned fd p e).0 in
      rw e (
        refl,
        own,
        free_of p (v.places p) (ap o.all_sockets own ∙ e)
            (ap (λ j. contains j o.epoll_sockets) own ∙ poll),
      )

  IsReady-All :
      (fds : List ℕ)
      → All (λ fd. contains fd o.epoll_sockets ≡ true) fds
      → All (IsReady (state_of o) o) fds
  IsReady-All [] h = tt
  IsReady-All (fd ∷ fds) h = (IsReady-one fd h.0, IsReady-All fds h.1)

  own-All :
      (q : Pointer) (fds : List ℕ)
      → All (IsReady (state_of o) o) fds
      → All (λ j. state_of o j ≡ q → j ≡ (o.heap q).socket) fds
  own-All q [] h = tt
  own-All q (j ∷ fds) h = (λ e. sym h.0.1 ∙ ap (λ p. (o.heap p).socket) e, own-All q fds h.1)

module _ {room : ℕ → Bool} {events : List (ℕ × Bool)} {o after : Orchestrator} (v : IsOrderly o)
    (ready : All (IsReady (state_of o) o) (ready_fds events))
    (polled : All (λ fd. contains fd o.epoll_sockets ≡ true) (ready_fds events))
    (h : IsHandled (state_of o) room events o after) where
  reads_with :
      (k : ℕ) (q : Pointer)
      → jobs_in q (map (state_of o) (with_room room (ready_fds events))) ≡ k
      → jobs_in q (o.read_jobs ++ map (state_of o) (with_room room (ready_fds events)))
        ≡ jobs_in q o.read_jobs + k
  reads_with k q e = omega (
    arith,
    jobs_in-append q o.read_jobs (map (state_of o) (with_room room (ready_fds events))),
    e,
  )

  -- A connection none of whose events is handled.
  passed_over :
      (q : Pointer)
      → All (λ j. state_of o j ≢ q) (ready_fds events)
      → (IsRegistered o q → contains (o.heap q).socket (ready_fds events) ≡ false)
      → Place o q
      → Place after q
  passed_over q ne apart place =
      Place-kept o after q place (h.kept q ne)
        (ap (jobs_in q) h.queued
          ∙ reads_with 0 q (
              jobs_in-none (state_of o) q (o.heap q).socket (with_room room (ready_fds events))
                (All-with_room _ room (ready_fds events) ne))
          ∙ omega arith)
        (ap (jobs_in q) h.untouched.parse_jobs) (ap (jobs_in q) h.untouched.write_jobs)
        (λ there. (
          ap (λ m. m (o.heap q).socket) h.untouched.all_sockets ∙ there,
          h.polled (o.heap q).socket ∙ rw (apart there),
        ))
        (λ out e. out (ap (λ m. m (o.heap q).socket) (sym h.untouched.all_sockets) ∙ e))

  not_taken :
      (q : Pointer)
      → contains (o.heap q).socket (ready_fds events) ≡ false
      → All (λ j. state_of o j ≢ q) (ready_fds events)
  not_taken q apart =
      none_taken (state_of o) q (o.heap q).socket (ready_fds events)
        (own-All v q (ready_fds events) ready)
        (contains-All (o.heap q).socket (ready_fds events) apart)

  unregistered :
      (q : Pointer) (fds : List ℕ)
      → ¬ IsRegistered o q
      → All (IsReady (state_of o) o) fds
      → All (λ j. state_of o j ≢ q) fds
  unregistered q [] out rs = tt
  unregistered q (j ∷ fds) out rs = (
    λ e.
        out
          (ap o.all_sockets (ap (λ p. (o.heap p).socket) (sym e) ∙ rs.0.1) ∙ (rs.0.0 ∙ ap some e)),
    unregistered q fds out rs.1,
  )

  heap_taken :
      (q : Pointer)
      → IsRegistered o q
      → contains (o.heap q).socket (ready_fds events) ≡ true
      → after.heap q ≡ waiting_state (o.heap q)
  heap_taken q there here =
      let same : state_of o (o.heap q).socket ≡ q = ap owner there in
      subst (λ p. after.heap p ≡ waiting_state (o.heap p)) same
        (All-contains (λ fd. after.heap (state_of o fd) ≡ waiting_state (o.heap (state_of o fd)))
          (o.heap q).socket (ready_fds events) h.waiting here)

  taken_on :
      (q : Pointer)
      → IsRegistered o q
      → contains (o.heap q).socket (ready_fds events) ≡ true
      → Place o q
      → Place after q
  taken_on q there here (gone out c) = absurd (out there)
  taken_on q there here (busy stage _ hidden c locked finds) =
      let seen =
        All-contains (λ fd. contains fd o.epoll_sockets ≡ true) (o.heap q).socket (ready_fds events)
          polled here in
      cc
  taken_on q there here (stuck _ hidden c locked finds waits) =
      let seen =
        All-contains (λ fd. contains fd o.epoll_sockets ≡ true) (o.heap q).socket (ready_fds events)
          polled here in
      cc
  taken_on q there here (idle _ poll (a, b, c) rest) =
      let fds = ready_fds events in
      let same = heap_taken q there here in
      let same_socket = ap (λ (s : State). s.socket) same in
      let there' =
        ap after.all_sockets same_socket
        ∙ (ap (λ m. m (o.heap q).socket) h.untouched.all_sockets ∙ there) in
      let hidden =
        ap (λ fd. contains fd after.epoll_sockets) same_socket
        ∙ (h.polled (o.heap q).socket ∙ rw here refl) in
      let locked = ap (λ (s : State). s.is_locked) same in
      let quiet : IsQuiet (waiting_state (o.heap q)) = record {
        no_response = rest.no_response;
        no_error = rest.no_error;
        no_special_error = rest.no_special_error;
      } in
      let found = subst (Finds reading) (sym same) (quiet, rest.nothing_read) in
      let parses = ap (jobs_in q) h.untouched.parse_jobs ∙ b in
      let writes = ap (jobs_in q) h.untouched.write_jobs ∙ c in
      let own = All-with_room _ room fds (own-All v q fds ready) in
      elim (Bool-cases (contains (o.heap q).socket (with_room room fds))) [
        | inl roomy ↦
            busy reading there' hidden
              (
                ap (jobs_in q) h.queued
                    ∙ (reads_with 1 q (
                          jobs_in-taken (state_of o) q (o.heap q).socket (with_room room fds)
                            (with_room-IsDistinct room fds (ready_fds-IsDistinct events)) own
                            (ap owner there) roomy)
                        ∙ omega (arith, a)),
                parses,
                writes,
              )
              locked found
        | inr full ↦
            stuck there' hidden
              (
                ap (jobs_in q) h.queued
                    ∙ (reads_with 0 q (
                          jobs_in-none (state_of o) q (o.heap q).socket (with_room room fds) (
                            none_taken (state_of o) q (o.heap q).socket (with_room room fds) own
                              (contains-All (o.heap q).socket (with_room room fds) full)))
                        ∙ omega (arith, a)),
                parses,
                writes,
              )
              locked found (ap (λ (s : State). s.state) same)
      ]

  registered_on : (q : Pointer) → IsRegistered o q → Place after q
  registered_on q there = elim (Bool-cases (contains (o.heap q).socket (ready_fds events))) [
    | inl here ↦ taken_on q there here (v.places q)
    | inr apart ↦ passed_over q (not_taken q apart) (λ _. apart) (v.places q)
  ]

  Place-on : (q : Pointer) → Place o q → Place after q
  Place-on q (gone out c) =
      passed_over q (unregistered q (ready_fds events) out ready) (λ there. absurd (out there))
        (gone out c)
  Place-on q (idle there poll c rest) = registered_on q there
  Place-on q (busy stage there hidden c locked finds) = registered_on q there
  Place-on q (stuck there hidden c locked finds waits) = registered_on q there

  same_socket : (q : Pointer) → IsRegistered o q → (after.heap q).socket ≡ (o.heap q).socket
  same_socket q there = elim (Bool-cases (contains (o.heap q).socket (ready_fds events))) [
    | inl here ↦ ap (λ (s : State). s.socket) (heap_taken q there here)
    | inr apart ↦ ap (λ (s : State). s.socket) (h.kept q (not_taken q apart))
  ]

  same_response : (q : Pointer) → IsRegistered o q → (after.heap q).response ≡ (o.heap q).response
  same_response q there = elim (Bool-cases (contains (o.heap q).socket (ready_fds events))) [
    | inl here ↦ ap (λ (s : State). s.response) (heap_taken q there here)
    | inr apart ↦ ap (λ (s : State). s.response) (h.kept q (not_taken q apart))
  ]

  still_polled :
      (fd : ℕ) → contains fd after.epoll_sockets ≡ true → contains fd o.epoll_sockets ≡ true
  still_polled fd e = elim (Bool-cases (contains fd (ready_fds events))) [
    | inl here ↦ (let none_left = rw here at (h.polled fd) in cc)
    | inr apart ↦ (let kept = rw apart at (h.polled fd) in sym kept ∙ e)
  ]

  handled-IsOrderly : IsOrderly after
  handled-IsOrderly = record {
    places = λ q. Place-on q (v.places q);
    owned = λ fd q e.
        let there : o.all_sockets fd ≡ some q = ap (λ m. m fd) (sym h.untouched.all_sockets) ∙ e in
        let (own, below) = v.owned fd q there in
        (same_socket q (ap o.all_sockets own ∙ there) ∙ own, rw h.untouched.next below);
    polled = λ fd e.
        let (q, there) = v.polled fd (still_polled fd e) in
        (q, ap (λ m. m fd) h.untouched.all_sockets ∙ there);
  }

-- A round over polled sockets does not block, and leaves the connections in order and the responses
-- as they were.
pub handle_events-IsOrderly :
    (room : ℕ → Bool) (events : List (ℕ × Bool)) (o : Orchestrator)
    → IsOrderly o
    → All (λ fd. contains fd o.epoll_sockets ≡ true) (ready_fds events)
    → (after : Orchestrator) × (handle_events room events o ≡ done tt after)
      × IsOrderly after
      × IsUntouched o after
      × ((q : Pointer) → IsRegistered o q → (after.heap q).response ≡ (o.heap q).response)
handle_events-IsOrderly room events o v polled =
    let ready = IsReady-All v (ready_fds events) polled in
    let (after, runs, h) = handle_events-IsHandled (state_of o) room events o ready in
    (after, runs, handled-IsOrderly v ready polled h, h.untouched, same_response v ready polled h)
