-- ===== src/Tests/Starting.antt =====
-- The start of the server, and a round over an epoll descriptor that is a list.
use ns1_interview_redis.Prelude.{
  ℕ, ◌≡◌, ◌≢◌, refl, sym, Bool, true, false, Option, none, some, List, [], ◌∷◌, ◌++◌, ==-ne, All,
  arith,
}
use ns1_interview_redis.Prelude.Int.{ℤ, pos, negsuc}
use ns1_interview_redis.Server.Effect.{Orchestrator, done, contains, erase}
use ns1_interview_redis.Server.Sets.{contains-erase_self, contains-erase_ne}
use ns1_interview_redis.Server.Sockets.{handle_events, ready_fds}
use ns1_interview_redis.Server.Threads.{new_server}
use ns1_interview_redis.Server.Epoll.{
  Epoll, enoent, IsQuiet, IsWithin, ctl_all, watch, unwatch, reports,
}
use ns1_interview_redis.Server.Epoll.Rounds.{watch-unwatch}
use ns1_interview_redis.Server.Start.{
  StartCall, socket, epoll_create1, create_epoll_thread, Setup, returned, run_server, up_to_failure,
  start_calls, main, main-start_calls, run_server-up_to_failure, succeeds,
}

abbrev add_if : Bool → ℕ → List ℕ → Option ℕ × List ℕ
add_if true fd k = (some 17, k)
add_if false fd k = (none, fd ∷ k)

abbrev del_if : Bool → ℕ → List ℕ → Option ℕ × List ℕ
del_if true fd k = (none, erase fd k)
del_if false fd k = (some enoent, k)

added_own :
    (b : Bool) (fd : ℕ) (k : List ℕ)
    → contains fd k ≡ b
    → IsQuiet (add_if b fd k).0
    → contains fd (add_if b fd k).1 ≡ true
added_own true fd k e quiet = e
added_own false fd k e quiet = ground arith

added_other :
    (b : Bool) (fd g : ℕ) (k : List ℕ) → fd ≢ g → contains g (add_if b fd k).1 ≡ contains g k
added_other true fd g k ne = refl
added_other false fd g k ne = rw (==-ne fd g ne) refl

deleted_own :
    (b : Bool) (fd : ℕ) (k : List ℕ) → contains fd k ≡ b → contains fd (del_if b fd k).1 ≡ false
deleted_own true fd k e = contains-erase_self fd k
deleted_own false fd k e = e

deleted_other :
    (b : Bool) (fd g : ℕ) (k : List ℕ) → fd ≢ g → contains g (del_if b fd k).1 ≡ contains g k
deleted_other true fd g k ne = contains-erase_ne g fd k λ e. ne (sym e)
deleted_other false fd g k ne = refl

abbrev list_epoll : Epoll (List ℕ)
list_epoll = record {
  add = λ fd k. add_if (contains fd k) fd k;
  del = λ fd k. del_if (contains fd k) fd k;
  monitors = contains;
  add_own = λ fd k. added_own (contains fd k) fd k refl;
  add_other = λ fd g k. added_other (contains fd k) fd g k;
  del_own = λ fd k quiet. deleted_own (contains fd k) fd k refl;
  del_other = λ fd g k. deleted_other (contains fd k) fd g k;
}

-- Sockets 5 and 6 are polled, 5 was so in the round before.
abbrev polling : Orchestrator
polling = record new_server { epoll_sockets = 5 ∷ 6 ∷ [] }

within : IsWithin list_epoll (5 ∷ []) polling.epoll_sockets
within fd m = ground (arith, m)

quiet : (watch list_epoll polling.epoll_sockets (5 ∷ [])).0 ≡ []
unfolding watch ctl_all
quiet = refl

quiet_after :
    (unwatch list_epoll
      (reports ((6, false) ∷ []))
      polling.epoll_sockets
      (watch list_epoll polling.epoll_sockets (5 ∷ [])).1).0
    ≡ []
unfolding watch unwatch ctl_all
quiet_after = refl

reported :
    All
      (λ (event : ℕ × Bool).
        contains event.0 (watch list_epoll polling.epoll_sockets (5 ∷ [])).1 ≡ true)
      ((6, false) ∷ [])
unfolding watch ctl_all
reported = (refl, tt)

not_ready : handle_events (λ _. true) ((6, false) ∷ []) polling ≡ done tt polling
unfolding handle_events
not_ready = refl

watch-unwatch_example :
    ((g : ℕ)
      → contains g (watch list_epoll polling.epoll_sockets (5 ∷ [])).1
        ≡ contains g polling.epoll_sockets)
    × All (λ fd. contains fd polling.epoll_sockets ≡ true) (ready_fds ((6, false) ∷ []))
    × IsWithin list_epoll
        (unwatch list_epoll
          (reports ((6, false) ∷ []))
          polling.epoll_sockets
          (watch list_epoll polling.epoll_sockets (5 ∷ [])).1).1
        polling.epoll_sockets
watch-unwatch_example =
    watch-unwatch list_epoll (λ _. true) (reports ((6, false) ∷ [])) (5 ∷ []) polling.epoll_sockets
      polling polling within quiet reported (λ g m. m) quiet_after not_ready

abbrev unset : Setup
unset = record { server_socket = negsuc 0; epoll_fd = negsuc 0; calls = [] }

abbrev good : StartCall → ℤ
good socket = pos 3
good epoll_create1 = pos 4
good _ = pos 0

-- The thread that polls does not start.
abbrev no_poller : StartCall → ℤ
no_poller create_epoll_thread = pos 11
no_poller c = good c

run_server-up_to_failure_example :
    run_server no_poller unset ≡ up_to_failure no_poller start_calls unset
run_server-up_to_failure_example = run_server-up_to_failure no_poller unset

abbrev up : Setup
up = record { server_socket = pos 3; epoll_fd = pos 4; calls = start_calls }

comes_up : main good unset ≡ returned tt up
unfolding main
comes_up = refl

main-start_calls_example :
    All (λ c. succeeds c (good c) ≡ true) start_calls
    × (up.calls ≡ unset.calls ++ start_calls)
    × (up.server_socket ≡ good socket)
    × (up.epoll_fd ≡ good epoll_create1)
main-start_calls_example = main-start_calls good unset up comes_up
