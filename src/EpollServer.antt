-- ===== src/EpollServer.antt =====
-- racey-tcp-server-epoll.c: one thread that waits for events on the listening socket and on the
-- connections, and copies what it reads to a file.
pub mod Events
use racey_suite.Prelude.{
  ℕ, zero, suc, ◌+◌, ℤ, pos, negsuc, Bool, true, false, List, [], ◌∷◌, ◌++◌, String, if◌then◌else◌,
}
use racey_suite.Outcome.{Outcome, returned, exited, crashed, unfinished, ◌>>=◌, ◌>>◌}
use racey_suite.ForkMmap.{int_eq}
use racey_suite.TcpServer.{Received, chunk, failed, has_more, check_args, check_open, or_return_one}

-- An entry of `events`: the descriptor, and whether EPOLLERR or EPOLLHUP is set or EPOLLIN is not.
pub record Event : Type 0 where
  pub fd : ℤ
  pub wrong : Bool

-- The results of the calls. None of them is part of the repository.
pub record EpollCalls : Type 0 where
  pub descriptor : ℤ  -- what `open` returns
  pub socket : ℤ
  pub bind : ℤ
  pub listen : ℤ
  pub epoll_create : ℤ
  -- the flags that F_GETFL returns, and the results of F_SETFL and EPOLL_CTL_ADD
  pub get_flags : ℤ → ℤ
  pub set_flags : ℤ → ℕ → ℤ
  pub epoll_add : ℤ → ℤ
  -- what the k-th `accept`, `read` and `epoll_wait` return
  pub accept : ℕ → ℤ
  pub read : ℕ → Received
  pub wait : ℕ → List Event
  pub o_nonblock : ℕ

pub record State : Type 0 where
  pub accepts : ℕ
  pub reads : ℕ
  -- the descriptors with the flags that were set for them, the latest first
  pub flagged : List (ℤ × ℕ)
  -- the registered descriptors, those that were removed again, and those that were closed
  pub registered : List ℤ
  pub removed : List ℤ
  pub closed : List ℤ
  pub output : List ℕ

abbrev pub start : State
start = record {
  accepts = 0;
  reads = 0;
  flagged = [];
  registered = [];
  removed = [];
  closed = [];
  output = [];
}

-- A call whose result -1 makes `main` return 1.
abbrev pub unless_minus_one : ℤ → Outcome (Unit {0})
unless_minus_one (negsuc zero) = exited 1
unless_minus_one _ = returned tt

-- `flags = fcntl(fd, F_GETFL, 0) == -1`: the value of the comparison.
abbrev pub comparison : ℤ → ℕ
comparison (negsuc zero) = 1
comparison _ = 0

-- `flags |= O_NONBLOCK` for flags 0, and the call that sets them.
abbrev pub set_nonblock : EpollCalls → State → ℤ → Outcome State
set_nonblock io s fd = elim (comparison (io.get_flags fd)) [
  | suc flags ↦ exited 1
  | zero ↦ do
    unless_minus_one (io.set_flags fd io.o_nonblock)
    returned (record s { flagged = (fd, io.o_nonblock) ∷ s.flagged })
]

abbrev pub register : EpollCalls → State → ℤ → Outcome State
register io s fd = do
  unless_minus_one (io.epoll_add fd)
  returned (record s { registered = fd ∷ s.registered })

-- `write(output_fd, buf, nr)`, which takes all the bytes. A count of -1, which is one of SIZE_MAX
-- bytes, makes it fail and write nothing.
abbrev pub write_out : State → Received → Outcome State
write_out s (chunk bytes) = returned (record s { output = s.output ++ bytes })
write_out s failed = returned s

-- `do { nr = read(...); write(...); } while (nr > 0)`, with fuel.
unfoldable pub drain : EpollCalls → ℕ → State → Outcome State
drain io zero s = unfinished
drain io (suc fuel) s =
    let nr = io.read s.reads in
    write_out (record s { reads = suc s.reads }) nr >>= λ after.
    let rest = drain io fuel after in if has_more nr then rest else returned after

-- A connection that is accepted.
abbrev pub welcome : EpollCalls → State → ℤ → Outcome State
welcome io s (negsuc e) = exited 1
welcome io s (pos fd) = do
  ready ← set_nonblock io (record s { accepts = suc s.accepts }) (pos fd)
  register io ready (pos fd)

-- The body of the loop over the events.
unfoldable pub handle : EpollCalls → ℕ → ℤ → State → Event → Outcome State
unfolding drain
handle io fuel server_fd s event =
    let wrong = returned (record s { closed = event.fd ∷ s.closed }) in
    let serving =
      if int_eq event.fd server_fd
      then welcome io s (io.accept s.accepts)
      else drain io fuel s >>= λ after.
          returned (record after { removed = event.fd ∷ after.removed }) in
    if event.wrong then wrong else serving

unfoldable pub handle_all : EpollCalls → ℕ → ℤ → State → List Event → Outcome State
unfolding handle
handle_all io fuel server_fd s [] = returned s
handle_all io fuel server_fd s (event ∷ events) =
    handle io fuel server_fd s event >>= λ after. handle_all io fuel server_fd after events

-- `rounds` turns of the endless loop, from the k-th on.
unfoldable pub serve : EpollCalls → ℕ → ℤ → ℕ → ℕ → State → Outcome State
unfolding handle_all
serve io fuel server_fd k zero s = returned s
serve io fuel server_fd k (suc rounds) s = handle_all io fuel server_fd s (io.wait k) >>= λ after.
    serve io fuel server_fd (k + 1) rounds after

-- `main`, up to a number of turns of its loop.
unfoldable pub main : EpollCalls → List String → ℕ → ℕ → Outcome State
unfolding serve
main io argv fuel rounds = do
  check_args argv
  check_open io.descriptor
  or_return_one io.socket
  or_return_one io.bind
  listening ← set_nonblock io start io.socket
  or_return_one io.listen
  unless_minus_one io.epoll_create
  ready ← register io listening io.socket
  serve io fuel io.socket 0 rounds ready
