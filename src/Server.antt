-- ===== src/Server.antt =====
-- src/orchestrator.h and src/orchestrator.cpp: the sockets, the queues between the workers, and the
-- three kinds of job.
pub mod Effect
pub mod Sets
pub mod Sockets
pub mod Jobs
pub mod Accepting
pub mod Closing
pub mod ReadySets
pub mod Polling
pub mod Steps
pub mod Reading
pub mod Failures
pub mod Requests
pub mod EndToEnd
pub mod Sessions
pub mod Epoll
pub mod Start
pub mod Pools
pub mod Threads
pub mod Loops
