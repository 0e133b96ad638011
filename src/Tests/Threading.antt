-- ===== src/Tests/Threading.antt =====
-- Threads that serve two connections at once.
use ns1_interview_redis.Prelude.{◌+◌, ◌≤◌, ℕ, ◌≡◌, ◌⊎◌, refl, true, some, none, List, [], ◌∷◌, take}
use ns1_interview_redis.Prelude.Bytes.{Bytes}
use ns1_interview_redis.Resp.{serialize}
use ns1_interview_redis.Tests.Data.{set_red, get_c}
use ns1_interview_redis.Commands.Dictionary.{no_entries}
use ns1_interview_redis.Commands.Simulation.{Represents}
use ns1_interview_redis.Server.Effect.{Orchestrator, Effect, done, undefined}
use ns1_interview_redis.Server.Effect.{update, lock, unlock}
use ns1_interview_redis.Server.Sockets.{
  accept_connection, handle_events, create_processing_jobs, create_processing_job,
  close_and_cleanup, remove_socket, add_to_epoll_queue,
}
use ns1_interview_redis.Commands.{do_operation}
use ns1_interview_redis.DataStore.{set_chars, get_chars}
use ns1_interview_redis.DataStore.UnorderedMap.{find, insert, erase}
use ns1_interview_redis.Resp.Decimal.{decimal}
use ns1_interview_redis.Resp.{to_string}
use ns1_interview_redis.Parser.{parse}
use ns1_interview_redis.Parser.Strtol.{strtol}
use ns1_interview_redis.Prelude.Int.{to_int}
use ns1_interview_redis.Prelude.Bytes.{c_str, bytes_eq}
use ns1_interview_redis.Session.{create_state, reset}
use ns1_interview_redis.Server.Jobs.{
  would_block, read_job, read_loop, append_buffer, parse_and_run_job, write_job, after_write,
  write_buffer,
}
use ns1_interview_redis.Server.Threads.{
  Turn, accepts, polls, reads, parses, writes, turn, new_server, Reached, fresh, turned,
}
use ns1_interview_redis.Server.Threads.Serial.{kept_by, responses}
use ns1_interview_redis.Server.Threads.Places.{IsOrderly}
use ns1_interview_redis.Server.Threads.Cases.{IsFaulty}
use ns1_interview_redis.Server.Threads.Answers.{on, closings, Line, pending}
use ns1_interview_redis.Server.Threads.Draining.{work, Drains, stays, ends, Drains-work}
use ns1_interview_redis.Server.Threads.Reachable.{Reached-IsRight, turn-total, Reached-Line}

abbrev result_of : Orchestrator → Effect (Unit {0}) → Orchestrator
result_of o (done a o') = o'
result_of o _ = o

abbrev server_after : List Turn → Orchestrator → Orchestrator
server_after [] o = o
server_after (t ∷ ts) o = server_after ts (result_of o (turn t o))

-- Clients 5 and 6 at once: the SET of 5 is run before the GET of 6, whose response is written first.
abbrev all_turns : List Turn
all_turns =
    accepts 5
    ∷ accepts 6
    ∷ polls (λ _. true) ((5, true) ∷ (6, true) ∷ [])
    ∷ reads 0 (serialize set_red ∷ []) would_block true
    ∷ reads 0 (serialize get_c ∷ []) would_block true
    ∷ parses 0 true
    ∷ parses 0 true
    ∷ writes 1 (some 30)
    ∷ writes 0 none
    ∷ []

abbrev server : ℕ → Orchestrator
server n = server_after (take n all_turns) new_server

turn0 : turn (accepts 5) (server 0) ≡ done tt (server 1)
unfolding turn accept_connection handle_events create_processing_jobs create_processing_job update
    lock read_job read_loop append_buffer parse_and_run_job write_job after_write write_buffer
    close_and_cleanup remove_socket unlock do_operation set_chars get_chars find insert erase c_str
    bytes_eq serialize decimal to_string parse strtol to_int create_state reset add_to_epoll_queue
turn0 = refl

turn1 : turn (accepts 6) (server 1) ≡ done tt (server 2)
unfolding turn accept_connection handle_events create_processing_jobs create_processing_job update
    lock read_job read_loop append_buffer parse_and_run_job write_job after_write write_buffer
    close_and_cleanup remove_socket unlock do_operation set_chars get_chars find insert erase c_str
    bytes_eq serialize decimal to_string parse strtol to_int create_state reset add_to_epoll_queue
turn1 = refl

turn2 : turn (polls (λ _. true) ((5, true) ∷ (6, true) ∷ [])) (server 2) ≡ done tt (server 3)
unfolding turn accept_connection handle_events create_processing_jobs create_processing_job update
    lock read_job read_loop append_buffer parse_and_run_job write_job after_write write_buffer
    close_and_cleanup remove_socket unlock do_operation set_chars get_chars find insert erase c_str
    bytes_eq serialize decimal to_string parse strtol to_int create_state reset add_to_epoll_queue
turn2 = refl

turn3 : turn (reads 0 (serialize set_red ∷ []) would_block true) (server 3) ≡ done tt (server 4)
unfolding turn accept_connection handle_events create_processing_jobs create_processing_job update
    lock read_job read_loop append_buffer parse_and_run_job write_job after_write write_buffer
    close_and_cleanup remove_socket unlock do_operation set_chars get_chars find insert erase c_str
    bytes_eq serialize decimal to_string parse strtol to_int create_state reset add_to_epoll_queue
turn3 = refl

turn4 : turn (reads 0 (serialize get_c ∷ []) would_block true) (server 4) ≡ done tt (server 5)
unfolding turn accept_connection handle_events create_processing_jobs create_processing_job update
    lock read_job read_loop append_buffer parse_and_run_job write_job after_write write_buffer
    close_and_cleanup remove_socket unlock do_operation set_chars get_chars find insert erase c_str
    bytes_eq serialize decimal to_string parse strtol to_int create_state reset add_to_epoll_queue
turn4 = refl

turn5 : turn (parses 0 true) (server 5) ≡ done tt (server 6)
unfolding turn accept_connection handle_events create_processing_jobs create_processing_job update
    lock read_job read_loop append_buffer parse_and_run_job write_job after_write write_buffer
    close_and_cleanup remove_socket unlock do_operation set_chars get_chars find insert erase c_str
    bytes_eq serialize decimal to_string parse strtol to_int create_state reset add_to_epoll_queue
turn5 = refl

turn6 : turn (parses 0 true) (server 6) ≡ done tt (server 7)
unfolding turn accept_connection handle_events create_processing_jobs create_processing_job update
    lock read_job read_loop append_buffer parse_and_run_job write_job after_write write_buffer
    close_and_cleanup remove_socket unlock do_operation set_chars get_chars find insert erase c_str
    bytes_eq serialize decimal to_string parse strtol to_int create_state reset add_to_epoll_queue
turn6 = refl

turn7 : turn (writes 1 (some 30)) (server 7) ≡ done tt (server 8)
unfolding turn accept_connection handle_events create_processing_jobs create_processing_job update
    lock read_job read_loop append_buffer parse_and_run_job write_job after_write write_buffer
    close_and_cleanup remove_socket unlock do_operation set_chars get_chars find insert erase c_str
    bytes_eq serialize decimal to_string parse strtol to_int create_state reset add_to_epoll_queue
turn7 = refl

turn8 : turn (writes 0 none) (server 8) ≡ done tt (server 9)
unfolding turn accept_connection handle_events create_processing_jobs create_processing_job update
    lock read_job read_loop append_buffer parse_and_run_job write_job after_write write_buffer
    close_and_cleanup remove_socket unlock do_operation set_chars get_chars find insert erase c_str
    bytes_eq serialize decimal to_string parse strtol to_int create_state reset add_to_epoll_queue
turn8 = refl

abbrev texts : List (ℕ × Bytes)
texts = (5, serialize set_red) ∷ (6, serialize get_c) ∷ []

reached3 : Reached [] (server 3)
unfolding turn accept_connection handle_events create_processing_jobs create_processing_job update
    lock read_job read_loop append_buffer parse_and_run_job write_job after_write write_buffer
    close_and_cleanup remove_socket unlock do_operation set_chars get_chars find insert erase c_str
    bytes_eq serialize decimal to_string parse strtol to_int create_state reset add_to_epoll_queue
reached3 =
    turned (polls (λ _. true) ((5, true) ∷ (6, true) ∷ []))
      (turned (accepts 6) (turned (accepts 5) fresh refl turn0) refl turn1) (refl, (refl, tt)) turn2

reached6 : Reached ((5, serialize set_red) ∷ []) (server 6)
unfolding turn accept_connection handle_events create_processing_jobs create_processing_job update
    lock read_job read_loop append_buffer parse_and_run_job write_job after_write write_buffer
    close_and_cleanup remove_socket unlock do_operation set_chars get_chars find insert erase c_str
    bytes_eq serialize decimal to_string parse strtol to_int create_state reset add_to_epoll_queue
reached6 =
    turned (parses 0 true)
      (turned (reads 0 (serialize get_c ∷ []) would_block true)
        (turned (reads 0 (serialize set_red ∷ []) would_block true) reached3 tt turn3) tt turn4)
      tt turn5

reached7 : Reached texts (server 7)
unfolding turn accept_connection handle_events create_processing_jobs create_processing_job update
    lock read_job read_loop append_buffer parse_and_run_job write_job after_write write_buffer
    close_and_cleanup remove_socket unlock do_operation set_chars get_chars find insert erase c_str
    bytes_eq serialize decimal to_string parse strtol to_int create_state reset add_to_epoll_queue
reached7 = turned (parses 0 true) reached6 tt turn6

reached9 : Reached texts (server 9)
reached9 = turned (writes 0 none) (turned (writes 1 (some 30)) reached7 tt turn7) tt turn8

Reached-IsRight_example :
    IsOrderly (server 9) × Represents (server 9).datastore (kept_by texts no_entries)
Reached-IsRight_example = Reached-IsRight reached9

turn-total_example :
    ((after : Orchestrator) × (turn (writes 1 (some 30)) (server 7) ≡ done tt after))
    ⊎ ((turn (writes 1 (some 30)) (server 7) ≡ undefined)
        × IsFaulty (writes 1 (some 30)) (server 7))
turn-total_example = turn-total (writes 1 (some 30)) reached7 tt

Reached-Line_example :
    Line
      (closings 6 (server 9))
      (on 6 (server 9).sent)
      (on 6 (responses texts no_entries))
      (pending 6 (server 9))
Reached-Line_example = Reached-Line 6 reached9

drained : Drains 2 (server 7) (server 9)
unfolding turn accept_connection handle_events create_processing_jobs create_processing_job update
    lock read_job read_loop append_buffer parse_and_run_job write_job after_write write_buffer
    close_and_cleanup remove_socket unlock do_operation set_chars get_chars find insert erase c_str
    bytes_eq serialize decimal to_string parse strtol to_int create_state reset add_to_epoll_queue
drained = ends (writes 1 (some 30)) tt turn7 (ends (writes 0 none) tt turn8 stays)

Drains-work_example : 2 + work (server 9) ≤ work (server 7)
Drains-work_example = Drains-work reached7 drained
