-- ===== src/Tests/Serving.antt =====
-- Requests through the workers.
use ns1_interview_redis.Prelude.{
  List, if◌then◌else◌, ◌≡◌, ◌<◌, refl, true, false, some, none, [], ◌∷◌, ◌++◌, length, arith, All,
  replicate,
}
use ns1_interview_redis.Prelude.Int.{pos, negsuc}
use ns1_interview_redis.Prelude.Bytes.{Bytes, codes, c_str, bytes_eq}
use ns1_interview_redis.Resp.{serialize, to_string}
use ns1_interview_redis.Resp.Decimal.{decimal}
use ns1_interview_redis.Commands.{get_partition}
use ns1_interview_redis.Commands.Dictionary.{request, no_entries}
use ns1_interview_redis.Commands.Refinement.{IsServed, no_data-Represents}
use ns1_interview_redis.Session.{create_state}
use ns1_interview_redis.Server.Effect.{Orchestrator, done, undefined, contains}
use ns1_interview_redis.Server.Sockets.{accept_connection, close_and_cleanup, handle_events}
use ns1_interview_redis.Server.Jobs.{write_job, would_block, read_loop, bufsize}
use ns1_interview_redis.Server.Accepting.{
  IsAccepted, accept_connection-IsAccepted, accept_connection-undefined,
}
use ns1_interview_redis.Server.Closing.{IsGone, OthersKept, close_and_cleanup_lem}
use ns1_interview_redis.Server.Failures.{write_job-IsGone}
use ns1_interview_redis.Server.Reading.{received, some_overruns, collected, read_loop_lem}
use ns1_interview_redis.Server.Requests.{IsIdle}
use ns1_interview_redis.Server.EndToEnd.{Served, serve_connection, serve_connection-Served}
use ns1_interview_redis.Tests.Data.{set_red, set_red-IsWire, one_connection}

close_and_cleanup_lem_example :
    (after : Orchestrator) × (close_and_cleanup 5 0 (one_connection []) ≡ done tt after)
    × IsGone 5 (one_connection []) after
    × OthersKept 5 0 (one_connection []) after
    × (after.heap 0 ≡ record ((one_connection []).heap 0) { is_locked = false })
close_and_cleanup_lem_example = close_and_cleanup_lem 5 0 (one_connection []) refl

-- The second read finds more than it asks for.
abbrev long_chunks : List Bytes
long_chunks = codes "ab" ∷ replicate 514 97 ∷ codes "c" ∷ []

read_loop_lem_example :
    read_loop [] long_chunks
    ≡ (if some_overruns long_chunks then none else some ([] ++ collected long_chunks))
read_loop_lem_example = read_loop_lem [] long_chunks

long_chunks-none : read_loop [] long_chunks ≡ none
long_chunks-none = read_loop_lem_example

create_state-socket : ((one_connection (codes "hello")).heap 0).socket ≡ 5
unfolding create_state
create_state-socket = refl

create_state-IsIdle : IsIdle ((one_connection []).heap 0)
unfolding create_state
create_state-IsIdle = record {
  nothing_read = refl;
  no_response = refl;
  no_error = refl;
  no_special_error = refl;
  is_free = refl;
}

set_red-IsServed : IsServed set_red
unfolding get_partition to_string bytes_eq
set_red-IsServed = (set_red-IsWire, omega arith)

set_red_sent : received (serialize set_red ∷ codes "junk" ∷ []) ≡ serialize set_red ++ codes "junk"
unfolding serialize decimal c_str
set_red_sent = refl

set_red-short : All (λ chunk. length chunk < bufsize) (serialize set_red ∷ codes "junk" ∷ [])
unfolding serialize decimal
set_red-short = omega arith

serve_connection-Served_example :
    (after : Orchestrator) × (serve_connection
        (serialize set_red ∷ codes "junk" ∷ [])
        would_block
        5
        ((one_connection []).heap 0).socket
        0
        (one_connection [])
      ≡ done (pos 0) after)
    × Served (request set_red) no_entries 5 0 (one_connection []) after
serve_connection-Served_example =
    serve_connection-Served (serialize set_red ∷ codes "junk" ∷ []) would_block 5 0 set_red
      no_entries (codes "junk") (one_connection []) refl create_state-IsIdle set_red-short
      set_red_sent refl no_data-Represents set_red-IsServed

accept_connection-IsAccepted_example :
    (after : Orchestrator) × (accept_connection true 7 (one_connection []) ≡ done tt after)
    × IsAccepted 7 1 (one_connection []) after
accept_connection-IsAccepted_example = accept_connection-IsAccepted 7 (one_connection [])

-- The same orchestrator before its connection was accepted.
abbrev no_connection : Orchestrator
no_connection = record (one_connection []) { all_sockets = λ fd. none }

accept_connection-undefined_example :
    (after : Orchestrator) × (accept_connection false 5 no_connection ≡ done tt after)
    × (contains 5 after.epoll_sockets ≡ true)
    × (after.all_sockets 5 ≡ none)
    × (handle_events (λ _. true) ((5, true) ∷ []) after ≡ undefined)
accept_connection-undefined_example = accept_connection-undefined 5 no_connection (λ _. true) refl

write_job-IsGone_example :
    (after : Orchestrator) × (write_job none 0 (one_connection []) ≡ done (negsuc 0) after)
    × IsGone ((one_connection []).heap 0).socket (one_connection []) after
    × OthersKept ((one_connection []).heap 0).socket 0 (one_connection []) after
write_job-IsGone_example = write_job-IsGone 0 (one_connection []) refl
