-- ===== src/Lib.antt =====
-- A verification library for a server that speaks a part of the Redis protocol (RESP): it keeps
-- strings under keys and answers the commands `get`, `set` and `del` over TCP.
--
-- The program's parts, and how they interact. One thread accepts connections and one polls them;
-- each ready socket becomes a job of a thread pool, which reads its bytes into the connection's
-- state. A second pool parses them and runs the command on ten hash maps, a third writes the
-- response. Then the connection is polled again, or closed. The state of a connection travels
-- through the three pools as a shared pointer, with its mutex held from the polling thread on.
--
-- Which file models which part:
--   Resp                  src/resp_parser.h: the objects, `serialize` and `to_string`
--   Parser                src/resp_parser.cpp: `RespParser`; its position (`m_state.current`) is the
--                         list of the bytes that are left, its error codes are Parser.Result
--   Parser.Strtol         the C library's `strtol` on a base of 10, with its bounds of 64 bits
--   DataStore             src/data_store.h, src/data_store.cpp: one hash map and its methods
--   Commands              src/orchestrator.cpp: `is_valid_command`, `get_partition`, `do_set`,
--                         `do_get`, `do_del`, `do_operation` over the array `m_datastore`
--   Commands.Interleaved  src/orchestrator.cpp: the same for several workers at once, each step from
--                         one lock of a data store to the next
--   Session               src/state.h: the state of a connection
--   Server.Effect         src/orchestrator.h: the members that the threads share, and actions on
--                         them, which may block on a state's mutex or be undefined
--   Server.Sockets        src/orchestrator.cpp: accepting, polling, removing, closing
--   Server.Epoll          src/orchestrator.cpp: `epoll_empty`, `epoll_rearm`, the rounds of
--                         `epoll_thread_loop`; the kernel's epoll descriptor is a record of
--                         operations with the laws that epoll_ctl(2) documents
--   Server.Start          src/orchestrator.cpp, src/server.cpp: `run_server` and what it calls
--   Server.Pools          src/orchestrator.h: the constructor and the destructor with the four pools
--   Server.Loops          src/orchestrator.cpp: `accepting_thread_loop`, `epoll_thread_loop`
--   Server.Threads        the accepting thread, the polling thread and the workers together: a turn
--                         is one accepted connection, one round or one job, and turns come in any
--                         order
--   Server.Jobs           src/orchestrator.cpp: `SocketReadJob::run`, `ParseAndRunJob::run`,
--                         `SocketWriteJob::run`
--   ThreadPool            src/thread_pool.h, src/thread_pool.cpp: the threads' loop, `add_thread`,
--                         `add_job`, `destroy`, as steps between which another thread can come;
--                         ThreadPool.Factory has `create_thread_pool`
-- The other files hold specifications and proofs: Parser.Wire the objects that the parser can give,
-- DataStore.Contents what `get` can tell of a data store, Commands.Dictionary the server as one
-- dictionary, Commands.Simulation and Commands.Refinement the commands against it. Under
-- Commands.Interleaved, Log and Order have the serial run and Progress the turns that a worker
-- needs. Under ThreadPool, Once follows the jobs and Ending the end of `destroy`. Server.Accepting
-- and Server.Polling are about the accepting and the polling thread, Server.Reading,
-- Server.Failures, Server.Requests, Server.EndToEnd and Server.Sessions about the jobs, one
-- connection from its bytes to its replies. Under Server.Threads, Serial is the specification,
-- Places where each connection is, Answers which bytes it was sent, Reachable what holds of every
-- server that turns lead to, Draining how many jobs are left.
--
-- Bounds and fuel. A byte is a natural number, a string a list of bytes. `long` has 64 bits, `int`
-- 32 and `char` 8, signed; a conversion wraps around. The parser's recursion is on fuel, which is
-- the number of bytes and one more; it is enough since each call reads a byte at least. The other
-- loops are structural.
--
-- What is not modelled: memory that runs out, but where a job cannot be queued or an accepted
-- connection has no state; the depth of the stack; an overflow of the `int` that counts deleted
-- keys. A turn of Server.Threads is one step: it has no other thread between the statements of a
-- handler, so that of the locks only the mutex of a connection's state, which is held from turn to
-- turn, is modelled there, and those of the tables and queues are not. An accepted connection
-- always has its state there; a round may find no room for a read job, and its connection is then
-- stuck. A `del` of several keys, which locks the stores key by key, is one step there, and several
-- in Commands.Interleaved. A worker runs any of the queued jobs, which has the jobs that several
-- workers took in their order end in any order. ThreadPool is finer: its steps lie between the
-- points where a thread can wait, a thread starts in one step and is counted in another, and the
-- run() of a job, which is taken to return, is one step. `m_num_threads`, which may be negative, is
-- two natural numbers, what was counted up and what was counted down; the loop of `destroy` ends
-- where they are equal. While `create_thread_pool` starts the threads of a pool, those that it has
-- started take no step: it is one step of its own. Log messages, the loop of `main`, which sleeps
-- until a flag is set that nothing sets, and the signal that wakes the polling thread are left out.
-- What read(), write(), accept(), epoll_wait() and the calls of the start give is an argument.
pub mod Prelude
pub mod Resp
pub mod Parser
pub mod DataStore
pub mod Commands
pub mod Session
pub mod Server
pub mod ThreadPool
mod Tests
