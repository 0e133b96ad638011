-- ===== src/Server/Threads/Moves.antt =====
-- How a worker ends its job: the connection is queued for the next job, polled again, or closed.
use ns1_interview_redis.Prelude.{
  ℕ, ◌<◌, ◌≡◌, ◌≢◌, refl, sym, ap, ◌∙◌, true, Option, none, some, List, [], ◌∷◌, ◌++◌, ◌==◌, ==-ne,
  ==_iff, arith, Bool-cases, inl, inr,
}
use mathlib.Core.Path.{subst}
use ns1_interview_redis.Prelude.Bytes.{Bytes}
use ns1_interview_redis.Commands.Action.{DataStores}
use ns1_interview_redis.Session.{State, reset}
use ns1_interview_redis.Server.Effect.{
  Orchestrator, Pointer, contains, erase, insert, update, update_self, update-ne,
}
use ns1_interview_redis.Server.Closing.{cleaned}
use ns1_interview_redis.Server.Sets.{
  contains-erase, contains-insert, contains-erase_ne, contains-insert_self,
}
use ns1_interview_redis.Server.Requests.{IsIdle, reset-IsIdle}
use ns1_interview_redis.Server.Steps.{rearmed}
use ns1_interview_redis.Server.Threads.Places.{
  jobs_in, jobs_in-append, parsing, writing, IsRegistered, Finds, Place, gone, idle, busy, AreOwned,
  ArePolled, IsOrderly, IsOrderlyBut, Place-kept,
}

-- By cases on whether a number is another.
pub by_eq : (P : ℕ → Type 0) (p q : ℕ) → P p → (q ≢ p → P q) → P q
by_eq P p q same other = elim (Bool-cases (p == q)) [
  | inl e ↦ subst P ((==_iff p q).0 e) same
  | inr e ↦ other λ e'. ground arith
]

jobs_in-queued_self :
    (p : Pointer) (jobs : List Pointer) → jobs_in p jobs ≡ 0 → jobs_in p (jobs ++ p ∷ []) ≡ 1
jobs_in-queued_self p jobs e = ground (arith, jobs_in-append p jobs (p ∷ []))

jobs_in-queued_ne :
    (p q : Pointer) (jobs : List Pointer) → q ≢ p → jobs_in q (jobs ++ p ∷ []) ≡ jobs_in q jobs
jobs_in-queued_ne p q jobs ne = ground (arith, jobs_in-append q jobs (p ∷ []))

-- An entry that is left behind the removal of `fd`.
removed :
    (m : ℕ → Option Pointer) (fd j : ℕ) {q : Pointer}
    → update fd none m j ≡ some q
    → (fd ≢ j) × (m j ≡ some q)
unfolding update
removed m fd j e = ground arith

not_erased :
    (fd j : ℕ) (s : List ℕ) → contains j (erase fd s) ≡ true → (fd ≢ j) × (contains j s ≡ true)
not_erased fd j s e = ground (arith, contains-erase j fd s)

pub cleaned-heap_ne :
    (p : Pointer) (fd : ℕ) (o : Orchestrator) (q : Pointer)
    → q ≢ p
    → (cleaned fd p o).heap q ≡ o.heap q
cleaned-heap_ne p fd o q ne =
    update-ne p q _ _ (λ e. ne (sym e))
    ∙ (update-ne p q _ _ (λ e. ne (sym e)) ∙ update-ne p q _ o.heap (λ e. ne (sym e)))

module _ {p : Pointer} {o : Orchestrator} (v : IsOrderlyBut p o) where
  -- The connection finds a place again.
  settled :
      (o' : Orchestrator)
      → Place o' p
      → ((q : Pointer) → q ≢ p → Place o' q)
      → AreOwned o'
      → ArePolled o'
      → IsOrderly o'
  settled o' here others owned polled = record {
    places = λ q. by_eq (Place o') p q here (others q);
    owned = owned;
    polled = polled;
  }

  owned_with :
      (h : Pointer → State)
      → ((q : Pointer) → q ≢ p → h q ≡ o.heap q)
      → (h p).socket ≡ (o.heap p).socket
      → (fd : ℕ) (q : Pointer) → o.all_sockets fd ≡ some q
      → ((h q).socket ≡ fd) × (q < o.next)
  owned_with h kept same_socket fd q =
      by_eq (λ q. o.all_sockets fd ≡ some q → ((h q).socket ≡ fd) × (q < o.next)) p q
        (λ e. (same_socket ∙ (v.owned fd p e).0, (v.owned fd p e).1))
        (λ ne e.
          (ap (λ (s : State). s.socket) (kept q ne) ∙ (v.owned fd q e).0, (v.owned fd q e).1))

  -- Its state is changed, and the data and what was sent with it.
  pub changed-IsOrderlyBut :
      (h : Pointer → State) (st : DataStores) (l : List (ℕ × Bytes))
      → ((q : Pointer) → q ≢ p → h q ≡ o.heap q)
      → (h p).socket ≡ (o.heap p).socket
      → (h p).is_locked ≡ (o.heap p).is_locked
      → IsOrderlyBut p (record o { heap = h; datastore = st; sent = l })
  changed-IsOrderlyBut h st l kept same_socket same_lock = record {
    others = λ q ne.
        Place-kept o (record o { heap = h; datastore = st; sent = l }) q (v.others q ne) (kept q ne)
          refl refl refl (λ there. (there, refl)) (λ out. out);
    owned = owned_with h kept same_socket;
    polled = v.polled;
    registered = ap o.all_sockets same_socket ∙ v.registered;
    hidden = ap (λ fd. contains fd o.epoll_sockets) same_socket ∙ v.hidden;
    in_no_queue = v.in_no_queue;
    is_locked = same_lock ∙ v.is_locked;
  }

  -- It is queued for the parse job.
  pub queue-parse-IsOrderly :
      Finds parsing (o.heap p) → IsOrderly (record o { parse_jobs = o.parse_jobs ++ p ∷ [] })
  queue-parse-IsOrderly finds =
      let o' = record o { parse_jobs = o.parse_jobs ++ p ∷ [] } in
      settled o'
        (busy parsing v.registered v.hidden
          (v.in_no_queue.0, jobs_in-queued_self p o.parse_jobs v.in_no_queue.1, v.in_no_queue.2)
          v.is_locked finds)
        (λ q ne.
          Place-kept o o' q (v.others q ne) refl refl (jobs_in-queued_ne p q o.parse_jobs ne) refl
            (λ there. (there, refl)) (λ out. out))
        v.owned v.polled

  -- It is queued for the write job.
  pub queue-write-IsOrderly :
      Finds writing (o.heap p) → IsOrderly (record o { write_jobs = o.write_jobs ++ p ∷ [] })
  queue-write-IsOrderly finds =
      let o' = record o { write_jobs = o.write_jobs ++ p ∷ [] } in
      settled o'
        (busy writing v.registered v.hidden
          (v.in_no_queue.0, v.in_no_queue.1, jobs_in-queued_self p o.write_jobs v.in_no_queue.2)
          v.is_locked finds)
        (λ q ne.
          Place-kept o o' q (v.others q ne) refl refl refl (jobs_in-queued_ne p q o.write_jobs ne)
            (λ there. (there, refl)) (λ out. out))
        v.owned v.polled

  -- Another connection that is registered has another socket.
  other_socket : (q : Pointer) → q ≢ p → IsRegistered o q → (o.heap p).socket ≢ (o.heap q).socket
  other_socket q ne there e = ne (ground (arith, there, v.registered, e))

  -- It is polled again, from a cleared state.
  pub rearmed-IsOrderly : IsOrderly (rearmed (o.heap p).socket p o)
  unfolding reset
  rearmed-IsOrderly =
      let fd = (o.heap p).socket in
      let o' = rearmed fd p o in
      let same : o'.heap p ≡ reset (o.heap p) = update_self p _ o.heap in
      let same_socket = ap (λ (s : State). s.socket) same in
      settled o'
        (idle (ap o.all_sockets same_socket ∙ v.registered)
          (ap (λ fd. contains fd (insert (o.heap p).socket o.epoll_sockets)) same_socket
            ∙ contains-insert_self fd o.epoll_sockets)
          v.in_no_queue (subst IsIdle (sym same) (reset-IsIdle (o.heap p))))
        (λ q ne.
          Place-kept o o' q (v.others q ne) (update-ne p q _ o.heap λ e. ne (sym e)) refl refl refl
            (λ there. (
              there,
              contains-insert (o.heap q).socket fd o.epoll_sockets
                  ∙ rw (==-ne fd (o.heap q).socket (other_socket q ne there)),
            ))
            (λ out. out))
        (owned_with o'.heap (λ q ne. update-ne p q _ o.heap λ e. ne (sym e)) same_socket)
        (λ fd' e. elim (Bool-cases (fd == fd')) [
          | inl here ↦ (p, ap o.all_sockets (sym ((==_iff fd fd').0 here)) ∙ v.registered)
          | inr there ↦
              v.polled fd' (rw there at (sym (contains-insert fd' fd o.epoll_sockets) ∙ e))
        ])

  -- It is closed, and its socket out of every table.
  pub cleaned-IsOrderly : IsOrderly (cleaned (o.heap p).socket p o)
  cleaned-IsOrderly =
      let fd = (o.heap p).socket in
      let o' = cleaned fd p o in
      let same_socket : (o'.heap p).socket ≡ fd = simp update_self in
      let kept = cleaned-heap_ne p fd o in
      settled o'
        (gone (λ e. (removed o.all_sockets fd fd (ap o'.all_sockets (sym same_socket) ∙ e)).0 refl)
          v.in_no_queue)
        (λ q ne.
          Place-kept o o' q (v.others q ne) (kept q ne) refl refl refl
            (λ there.
              let apart = other_socket q ne there in
              (
                update-ne fd (o.heap q).socket none o.all_sockets apart ∙ there,
                contains-erase_ne (o.heap q).socket fd o.epoll_sockets λ e. apart (sym e),
              ))
            (λ out e. out (removed o.all_sockets fd (o.heap q).socket e).1))
        (λ fd' q e. owned_with o'.heap kept same_socket fd' q (removed o.all_sockets fd fd' e).1)
        (λ fd' e.
          let (apart, before) = not_erased fd fd' o.epoll_sockets e in
          let (q, there) = v.polled fd' before in
          (q, update-ne fd fd' none o.all_sockets apart ∙ there))
