-- ===== src/Server/Start.antt =====
-- src/orchestrator.cpp and src/server.cpp: the start of the server, over what its system calls return.
use ns1_interview_redis.Prelude.{
  ◌≡◌, ◌≢◌, refl, sym, ap, ◌∙◌, append_assoc, Bool-cases, inl, inr, Bool, true, false, ◌||◌, not,
  List, [], ◌∷◌, ◌++◌, ◌==◌, if◌then◌else◌, arith, All,
}
use ns1_interview_redis.Prelude.Int.{ℤ, pos, negsuc, is_negative}

-- The calls of the start, in the order of the source.
pub data StartCall : Type 0 where
  socket setsockopt bind listen epoll_create1 create_epoll_thread create_accepting_thread :
      StartCall

-- The members that the start sets, and the calls that were made.
pub record Setup : Type 0 where
  pub server_socket : ℤ
  pub epoll_fd : ℤ
  pub calls : List StartCall

-- What a function of the start comes to: it returns, or ends the process by exit(1) or assert(0).
pub data Start (A : Type 0) : Type 0 where
  returned : A → Setup → Start A
  exited : Setup → Start A

abbrev pub Starting : Type 0 → Type 0
Starting A = Setup → Start A

abbrev then_start : {A B : Type 0} → (A → Starting B) → Start A → Start B
then_start f (returned a s) = f a s
then_start f (exited s) = exited s

infixl 5 ◌>>=◌ ◌>>◌
abbrev pub ◌>>=◌ : {A B : Type 0} → Starting A → (A → Starting B) → Starting B
(m >>= f) s = then_start f (m s)

abbrev pub ◌>>◌ : {A B : Type 0} → Starting A → Starting B → Starting B
(m >> k) s = then_start (λ _. k) (m s)

abbrev give : {A : Type 0} → A → Starting A
give a s = returned a s

abbrev exit : Starting (Unit {0})
exit s = exited s

abbrev is_zero : ℤ → Bool
is_zero (pos n) = n == 0
is_zero (negsuc n) = false

abbrev exit_if : Bool → Starting (Unit {0})
exit_if b = if b then exit else give tt

module _ (result : StartCall → ℤ) where
  abbrev call : StartCall → Starting ℤ
  call c s = returned (result c) (record s { calls = s.calls ++ c ∷ [] })

  unfoldable pub create_server_socket : Starting (Unit {0})
  create_server_socket = do
    fd ← call socket
    λ s. returned tt (record s { server_socket = fd })
    exit_if (is_zero fd || is_negative fd)
    failed ← call setsockopt
    exit_if (not (is_zero failed))
    unbound ← call bind
    exit_if (not (is_zero unbound))
    deaf ← call listen
    exit_if (is_negative deaf)

  unfoldable pub create_epoll_fd : Starting Bool
  create_epoll_fd = do
    fd ← call epoll_create1
    λ s. returned tt (record s { epoll_fd = fd })
    give (not (is_negative fd))

  unfoldable pub spawn_epoll_thread : Starting Bool
  spawn_epoll_thread = do retval ← call create_epoll_thread; give (is_zero retval)

  unfoldable pub spawn_accepting_thread : Starting Bool
  spawn_accepting_thread = do retval ← call create_accepting_thread; give (is_zero retval)

  unfoldable pub run_server : Starting ℤ
  unfolding create_server_socket create_epoll_fd spawn_epoll_thread spawn_accepting_thread
  run_server = do
    create_server_socket
    has_epoll ← create_epoll_fd
    if not has_epoll then give (negsuc 0) else do
      has_poller ← spawn_epoll_thread
      if not has_poller then give (negsuc 0) else do
        has_acceptor ← spawn_accepting_thread
        if not has_acceptor then give (negsuc 0) else give (pos 0)

  -- `main`, up to its loop
  unfoldable pub main : Starting (Unit {0})
  unfolding run_server
  main = do code ← run_server; exit_if (not (is_zero code))

-- The calls in their order, each with what it needs to go on.
abbrev pub start_calls : List StartCall
start_calls =
    socket ∷ setsockopt ∷ bind ∷ listen ∷ epoll_create1 ∷ create_epoll_thread
    ∷ create_accepting_thread ∷ []

abbrev pub succeeds : StartCall → ℤ → Bool
succeeds socket fd = not (is_zero fd || is_negative fd)
succeeds listen retval = not (is_negative retval)
succeeds epoll_create1 fd = not (is_negative fd)
succeeds _ retval = is_zero retval

abbrev pub noted : StartCall → ℤ → Setup → Setup
noted socket fd s = record s { calls = s.calls ++ socket ∷ []; server_socket = fd }
noted epoll_create1 fd s = record s { calls = s.calls ++ epoll_create1 ∷ []; epoll_fd = fd }
noted c retval s = record s { calls = s.calls ++ c ∷ [] }

-- A call for the listening socket that fails ends the process; another has the server not start.
abbrev pub failed : StartCall → Setup → Start ℤ
failed socket s = exited s
failed setsockopt s = exited s
failed bind s = exited s
failed listen s = exited s
failed _ s = returned (negsuc 0) s

-- The calls one after another up to the first that fails.
abbrev pub up_to_failure : (StartCall → ℤ) → List StartCall → Setup → Start ℤ
up_to_failure result [] s = returned (pos 0) s
up_to_failure result (c ∷ cs) s =
    let rest = up_to_failure result cs (noted c (result c) s) in
    if succeeds c (result c) then rest else failed c (noted c (result c) s)

-- `run_server` makes the calls in order up to the first that fails, and no call behind it. It
-- returns 0 where none fails; a failure while the listening socket is made ends the process, and any
-- other has it return -1.
pub run_server-up_to_failure :
    (result : StartCall → ℤ) (s : Setup) → run_server result s ≡ up_to_failure result start_calls s
unfolding run_server create_server_socket create_epoll_fd spawn_epoll_thread spawn_accepting_thread
run_server-up_to_failure result s = ground arith

abbrev noted_all : (StartCall → ℤ) → List StartCall → Setup → Setup
noted_all result [] s = s
noted_all result (c ∷ cs) s = noted_all result cs (noted c (result c) s)

-- `main` behind `run_server`
abbrev main_behind : Start ℤ → Start (Unit {0})
main_behind = then_start λ code. exit_if (not (is_zero code))

failed-exits : (c : StartCall) (s after : Setup) → main_behind (failed c s) ≢ returned tt after
failed-exits socket s after e = cc
failed-exits setsockopt s after e = cc
failed-exits bind s after e = cc
failed-exits listen s after e = cc
failed-exits epoll_create1 s after e = cc
failed-exits create_epoll_thread s after e = cc
failed-exits create_accepting_thread s after e = cc

setup_of : Start (Unit {0}) → Setup → Setup
setup_of (returned a s) s' = s
setup_of (exited s) s' = s'

up_to_failure-returned :
    (result : StartCall → ℤ) (cs : List StartCall) (s after : Setup)
    → main_behind (up_to_failure result cs s) ≡ returned tt after
    → All (λ c. succeeds c (result c) ≡ true) cs × (after ≡ noted_all result cs s)
unfolding setup_of
up_to_failure-returned result [] s after e = (tt, ap (λ r. setup_of r s) (sym e))
up_to_failure-returned result (c ∷ cs) s after e = elim (Bool-cases (succeeds c (result c))) [
  | inl good ↦
      let (all, same) =
        up_to_failure-returned result cs (noted c (result c) s) after (rw good at e) in
      ((good, all), same)
  | inr bad ↦ absurd (failed-exits c (noted c (result c) s) after (rw bad at e))
]

-- `main` reaches its loop only where every call of the start has succeeded, and all of them were
-- made in order; the members hold the listening socket and the epoll descriptor that they gave.
pub main-start_calls :
    (result : StartCall → ℤ) (s after : Setup)
    → main result s ≡ returned tt after
    → All (λ c. succeeds c (result c) ≡ true) start_calls
      × (after.calls ≡ s.calls ++ start_calls)
      × (after.server_socket ≡ result socket)
      × (after.epoll_fd ≡ result epoll_create1)
unfolding main
main-start_calls result s after runs =
    let main_run : main result s ≡ main_behind (run_server result s) = refl in
    let (all, same) =
      up_to_failure-returned result start_calls s after
        (sym (ap main_behind (run_server-up_to_failure result s)) ∙ (sym main_run ∙ runs)) in
    (
      all,
      ap (λ (s : Setup). s.calls) same ∙ simp append_assoc,
      ap (λ (s : Setup). s.server_socket) same,
      ap (λ (s : Setup). s.epoll_fd) same,
    )
