-- ===== src/Server/Epoll/Rounds.antt =====
-- What the kernel monitors while the epoll thread waits, and behind the round.
use ns1_interview_redis.Prelude.{
  ℕ, ◌≡◌, ◌≢◌, refl, sym, ap, ◌∙◌, Bool, true, false, Option, none, some, List, [], ◌∷◌, ◌++◌, ◌==◌,
  if◌then◌else◌, arith, Bool-cases, inl, inr, All,
}
use ns1_interview_redis.Server.Effect.{Orchestrator, Effect, done, contains, insert}
use ns1_interview_redis.Server.Sockets.{handle_events, ready_fds}
use ns1_interview_redis.Server.Epoll.{
  Epoll, Waited, timeout, interrupted, reports, events_of, enoent, IsQuiet, report, ctl_all,
  epoll_empty, epoll_rearm, watch, unwatch, IsWithin,
}

report-IsQuiet :
    (fd : ℕ) (result : Option ℕ) (failed : List ℕ)
    → report fd result failed ≡ []
    → IsQuiet result × (failed ≡ [])
report-IsQuiet fd none failed e = (tt, e)
report-IsQuiet fd (some errno) failed e = elim (Bool-cases (errno == enoent)) [
  | inl absent ↦ (ground arith, ground (arith, e, absent))
  | inr other ↦ absurd (let kept = rw other at e in cc)
]

append_nothing : {A : Type 0} (xs ys : List A) → xs ++ ys ≡ [] → (xs ≡ []) × (ys ≡ [])
append_nothing [] ys e = (refl, e)
append_nothing (x ∷ xs) ys e = absurd (cc)

module _ {K : Type 0} (monitors : ℕ → K → Bool) (ctl : ℕ → K → Option ℕ × K) (b : Bool)
    (own : (fd : ℕ) (k : K) → IsQuiet (ctl fd k).0 → monitors fd (ctl fd k).1 ≡ b)
    (other : (fd g : ℕ) (k : K) → fd ≢ g → monitors g (ctl fd k).1 ≡ monitors g k) where
  -- Where no call failed, the descriptors of the set are monitored or not, and the others as before.
  ctl_all-monitors :
      (fds : List ℕ) (k : K)
      → (ctl_all ctl fds k).0 ≡ []
      → (g : ℕ) → monitors g (ctl_all ctl fds k).1 ≡ (if contains g fds then b else monitors g k)
  unfolding ctl_all
  ctl_all-monitors [] k quiet g = refl
  ctl_all-monitors (fd ∷ fds) k quiet g =
      let (here, rest) = report-IsQuiet fd (ctl fd k).0 _ quiet in
      let h = ctl_all-monitors fds (ctl fd k).1 rest g in
      elim (Bool-cases (fd == g)) [
        | inl same ↦
            (let same' : fd ≡ g = ground arith in
              let mine : monitors g (ctl fd k).1 ≡ b =
                ap (λ j. monitors j (ctl fd k).1) (sym same') ∙ own fd k here in
              rw same
                (h ∙ elim (Bool-cases (contains g fds)) [ inl e ↦ rw e refl | inr e ↦ rw e mine ]))
        | inr apart ↦ rw apart (
            h
            ∙ ap (λ m. if contains g fds then b else m)
                (other fd g k λ e. ground (arith, e, apart)))
      ]

abbrev result_sockets : Effect (Unit {0}) → List ℕ
result_sockets (done a o) = o.epoll_sockets
result_sockets _ = []

All-insert : (P : ℕ → Type 0) (k : ℕ) (xs : List ℕ) → P k → All P xs → All P (insert k xs)
All-insert P k xs h hs = elim (Bool-cases (contains k xs)) [
  | inl old ↦ rw old hs
  | inr new ↦ rw new (h, hs)
]

All-map :
    {A : Type 0} {P Q : A → Type 0} → ((x : A) → P x → Q x) → (xs : List A) → All P xs → All Q xs
All-map f [] hs = tt
All-map f (x ∷ xs) hs = (f x hs.0, All-map f xs hs.1)

same_sockets :
    {o after : Orchestrator} → done tt o ≡ done tt after → after.epoll_sockets ≡ o.epoll_sockets
same_sockets e = ap result_sockets (sym e)

-- A set of events over polled sockets.
event-monitored :
    (sockets : List ℕ) (events : List (ℕ × Bool))
    → All (λ event. contains event.0 sockets ≡ true) events
    → All (λ fd. contains fd sockets ≡ true) (ready_fds events)
event-monitored sockets [] h = tt
event-monitored sockets ((fd, true) ∷ events) h =
    All-insert (λ fd. contains fd sockets ≡ true) fd (ready_fds events) h.0
      (event-monitored sockets events h.1)
event-monitored sockets ((fd, false) ∷ events) h = event-monitored sockets events h.1

module _ {K : Type 0} (epoll : Epoll K) where
  unmonitored :
      (sockets : List ℕ) (g : ℕ) (k : K)
      → IsWithin epoll k sockets
      → contains g sockets ≡ false
      → epoll.monitors g k ≡ contains g sockets
  unmonitored sockets g k within e = elim (Bool-cases (epoll.monitors g k)) [
    | inl m ↦ (let there = within g m in absurd (cc))
    | inr m ↦ m ∙ sym e
  ]

  watch-monitors :
      (sockets : List ℕ) (k : K)
      → IsWithin epoll k sockets
      → (watch epoll sockets k).0 ≡ []
      → (g : ℕ) → epoll.monitors g (watch epoll sockets k).1 ≡ contains g sockets
  unfolding watch epoll_empty epoll_rearm
  watch-monitors sockets k within quiet g =
      let (emptied, rearmed) = append_nothing (ctl_all epoll.del sockets k).0 _ quiet in
      let gone =
        ctl_all-monitors epoll.monitors epoll.del false epoll.del_own epoll.del_other sockets k
          emptied g in
      let back =
        ctl_all-monitors epoll.monitors epoll.add true epoll.add_own epoll.add_other sockets
          (ctl_all epoll.del sockets k).1 rearmed g in
      back ∙ elim (Bool-cases (contains g sockets)) [
        | inl e ↦ rw e refl
        | inr e ↦ rw e ((rw e at gone) ∙ (unmonitored sockets g k within e ∙ e))
      ]

  emptied-IsWithin :
      (sockets : List ℕ) (k : K)
      → IsWithin epoll k sockets
      → (epoll_empty epoll sockets k).0 ≡ []
      → (after : List ℕ) → IsWithin epoll (epoll_empty epoll sockets k).1 after
  unfolding epoll_empty
  emptied-IsWithin sockets k within quiet after g m =
      let gone =
        ctl_all-monitors epoll.monitors epoll.del false epoll.del_own epoll.del_other sockets k
          quiet g in
      absurd (elim (Bool-cases (contains g sockets)) [
        | inl e ↦ (let none_left = rw e at gone in cc)
        | inr e ↦ (let kept = rw e at gone in let there = within g (sym kept ∙ m) in cc)
      ])

  unwatch-IsWithin :
      (room : ℕ → Bool) (waited : Waited) (k : K) (o after : Orchestrator)
      → IsWithin epoll k o.epoll_sockets
      → (unwatch epoll waited o.epoll_sockets k).0 ≡ []
      → handle_events room (events_of waited) o ≡ done tt after
      → IsWithin epoll (unwatch epoll waited o.epoll_sockets k).1 after.epoll_sockets
  unfolding unwatch handle_events
  unwatch-IsWithin room timeout k o after within quiet runs g m =
      ap (contains g) (same_sockets runs) ∙ within g m
  unwatch-IsWithin room interrupted k o after within quiet runs g m =
      emptied-IsWithin o.epoll_sockets k within quiet after.epoll_sockets g m
  unwatch-IsWithin room (reports events) k o after within quiet runs g m =
      emptied-IsWithin o.epoll_sockets k within quiet after.epoll_sockets g m

  -- A round of the epoll thread that begins with nothing monitored but polled sockets, and writes no
  -- error of epoll_ctl(), has exactly the sockets monitored that were polled when it set them up.
  -- Others may be polled when its wait ends, and none fewer: then the sockets of the events are
  -- polled, and the round behind them leaves nothing monitored that is not polled, where it is not
  -- undefined.
  pub watch-unwatch :
      (room : ℕ → Bool) (waited : Waited) (k : K) (sockets : List ℕ) (o after : Orchestrator)
      → IsWithin epoll k sockets
      → (watch epoll sockets k).0 ≡ []
      → All (λ event. epoll.monitors event.0 (watch epoll sockets k).1 ≡ true) (events_of waited)
      → ((g : ℕ) → contains g sockets ≡ true → contains g o.epoll_sockets ≡ true)
      → (unwatch epoll waited o.epoll_sockets (watch epoll sockets k).1).0 ≡ []
      → handle_events room (events_of waited) o ≡ done tt after
      → ((g : ℕ) → epoll.monitors g (watch epoll sockets k).1 ≡ contains g sockets)
        × All (λ fd. contains fd o.epoll_sockets ≡ true) (ready_fds (events_of waited))
        × IsWithin epoll
            (unwatch epoll waited o.epoll_sockets (watch epoll sockets k).1).1
            after.epoll_sockets
  watch-unwatch room waited k sockets o after within quiet reported more quiet' runs =
      let watched = watch-monitors sockets k within quiet in
      (
        watched,
        event-monitored o.epoll_sockets (events_of waited) (
            All-map (λ event m. more event.0 (sym (watched event.0) ∙ m)) (events_of waited)
              reported),
        unwatch-IsWithin room waited (watch epoll sockets k).1 o after
            (λ g m. more g (sym (watched g) ∙ m)) quiet' runs,
      )
