-- ===== src/Server/Threads/Accepts.antt =====
-- A new connection among the others.
use ns1_interview_redis.Prelude.{
  ℕ, ◌+◌, ◌<◌, ◌≡◌, ◌≢◌, refl, sym, ap, ◌∙◌, true, false, Option, none, some, [], ◌==◌, ==_iff,
  ==-ne, arith, Bool-cases, inl, inr,
}
use ns1_interview_redis.Session.{State, accepted, create_state}
use ns1_interview_redis.Server.Effect.{
  Orchestrator, Pointer, done, update, update_self, update-ne, contains, insert,
}
use ns1_interview_redis.Server.Sets.{contains-insert, contains-insert_self}
use ns1_interview_redis.Server.Sockets.{accept_connection}
use ns1_interview_redis.Server.Threads.Places.{
  Counts, Place, gone, idle, busy, stuck, IsOrderly, Place-kept,
}
use ns1_interview_redis.Server.Threads.Moves.{by_eq}

abbrev new_state : ℕ → State
new_state fd = record {
  state = accepted;
  read_data = [];
  object = none;
  response = none;
  socket = fd;
  is_locked = false;
  is_error = false;
  special_error = [];
}

abbrev pub with_connection : ℕ → Orchestrator → Orchestrator
with_connection fd o = record o {
  heap = update o.next (new_state fd) o.heap;
  next = o.next + 1;
  all_sockets = update fd (some o.next) o.all_sockets;
  epoll_sockets = insert fd o.epoll_sockets;
}

pub accept_connection-with_connection :
    (fd : ℕ) (o : Orchestrator) → accept_connection true fd o ≡ done tt (with_connection fd o)
unfolding accept_connection create_state
accept_connection-with_connection fd o = refl

-- An entry behind the registration of `fd`.
entered :
    (m : ℕ → Option Pointer) (fd j : ℕ) (p : Pointer) {q : Pointer}
    → update fd (some p) m j ≡ some q
    → q ≢ p
    → m j ≡ some q
unfolding update
entered m fd j p e ne = ground arith

module _ {o : Orchestrator} (v : IsOrderly o) (fd : ℕ) (free : o.all_sockets fd ≡ none) where
  pub unused : Place o o.next → Counts o o.next 0 0 0
  unused (gone out c) = c
  unused (idle there poll c rest) = c
  unused (busy stage there hidden c locked finds) =
      absurd (omega (arith, (v.owned (o.heap o.next).socket o.next there).1))
  unused (stuck there hidden c locked finds waits) = c

  pub apart : (j : ℕ) {q : Pointer} → o.all_sockets j ≡ some q → fd ≢ j
  apart j there e = let same = ap o.all_sockets e in cc

  here : Place (with_connection fd o) o.next
  here =
      let o' = with_connection fd o in
      let same : o'.heap o.next ≡ new_state fd = update_self o.next (new_state fd) o.heap in
      let same_socket : (o'.heap o.next).socket ≡ fd = ap (λ (s : State). s.socket) same in
      idle (ap o'.all_sockets same_socket ∙ update_self fd (some o.next) o.all_sockets)
        (ap (λ j. contains j o'.epoll_sockets) same_socket
          ∙ contains-insert_self fd o.epoll_sockets)
        (unused (v.places o.next))
        (rw same (record {
          nothing_read = refl;
          no_response = refl;
          no_error = refl;
          no_special_error = refl;
          is_free = refl;
        }))

  other : (q : Pointer) → q ≢ o.next → Place (with_connection fd o) q
  other q ne =
      Place-kept o (with_connection fd o) q (v.places q)
        (update-ne o.next q (new_state fd) o.heap λ e. ne (sym e)) refl refl refl
        (λ there.
          let ne' = apart (o.heap q).socket there in
          (
            update-ne fd (o.heap q).socket (some o.next) o.all_sockets ne' ∙ there,
            contains-insert (o.heap q).socket fd o.epoll_sockets
                ∙ rw (==-ne fd (o.heap q).socket ne'),
          ))
        (λ out e. out (entered o.all_sockets fd (o.heap q).socket o.next e ne))

  own_new :
      (fd' : ℕ)
      → update fd (some o.next) o.all_sockets fd' ≡ some o.next
      → ((update o.next (new_state fd) o.heap o.next).socket ≡ fd') × (o.next < o.next + 1)
  own_new fd' e = elim (Bool-cases (fd == fd')) [
    | inl new ↦ (
      ap (λ (s : State). s.socket) (update_self o.next (new_state fd) o.heap)
          ∙ (==_iff fd fd').0 new,
      omega arith,
    )
    | inr old ↦ absurd (
        omega (
          arith,
          (v.owned fd' o.next
              (sym (update-ne fd fd' (some o.next) o.all_sockets λ e. ground arith) ∙ e)).1,
        ))
  ]

  own_other :
      (fd' q : ℕ)
      → q ≢ o.next
      → update fd (some o.next) o.all_sockets fd' ≡ some q
      → ((update o.next (new_state fd) o.heap q).socket ≡ fd') × (q < o.next + 1)
  own_other fd' q ne e =
      let (own, below) = v.owned fd' q (entered o.all_sockets fd fd' o.next e ne) in
      (
        ap (λ (s : State). s.socket) (update-ne o.next q (new_state fd) o.heap λ e. ne (sym e))
            ∙ own,
        omega (arith, below),
      )

  pub with_connection-IsOrderly : IsOrderly (with_connection fd o)
  with_connection-IsOrderly = record {
    places = λ q. by_eq (Place (with_connection fd o)) o.next q here (other q);
    owned = λ fd' q.
        by_eq
          (λ q.
            update fd (some o.next) o.all_sockets fd' ≡ some q
            → ((update o.next (new_state fd) o.heap q).socket ≡ fd') × (q < o.next + 1))
          o.next q (own_new fd') (own_other fd' q);
    polled = λ fd' e. elim (Bool-cases (fd == fd')) [
      | inl new ↦
          (o.next, rw (sym ((==_iff fd fd').0 new)) (update_self fd (some o.next) o.all_sockets))
      | inr old ↦
          let (q, there) =
            v.polled fd' (rw old at (sym (contains-insert fd' fd o.epoll_sockets) ∙ e)) in
          (q, update-ne fd fd' (some o.next) o.all_sockets (apart fd' there) ∙ there)
    ];
  }
