-- ===== src/TcpServer.antt =====
-- racey-tcp-server.c: `main` accepts connections and puts them into a table, from which ten workers
-- take them. The system calls 318 to 320 are taken to leave the state alone. Threads 1 to 10 are the workers, and thread 11 is `main`.
pub mod Table
pub mod Move
pub mod Held
pub mod Stack
pub mod Known
pub mod Invariant
pub mod Server
pub mod Pool
use racey_suite.Prelude.{
  ℕ, zero, suc, ◌+◌, ℤ, pos, negsuc, Bool, true, false, Option, none, some, List, [], ◌∷◌, ◌++◌,
  String, get_elem?, set?, replicate, ltb, leb, if◌then◌else◌,
}
use racey_suite.Outcome.{Outcome, returned, exited, unfinished, ◌>>=◌, ◌>>◌}
use racey_suite.Machine.{Turn, moved, waiting, halted, fault, Program, System, run}

abbrev pub worker_num : ℕ
worker_num = 10

-- What `read` returns: the bytes, which are none at the end of the stream, or -1.
pub data Received : Type 0 where
  chunk : List ℕ → Received
  failed : Received

-- The results of the calls. None of them is part of the repository.
pub record SocketCalls : Type 0 where
  pub descriptor : ℤ  -- what `open` returns
  pub socket : ℤ
  pub bind : ℤ
  -- what `pthread_create` returns for `threads[i]`
  pub create : ℕ → ℤ
  pub listen : ℤ
  -- what the k-th `accept` and the k-th `read` return
  pub accept : ℕ → ℤ
  pub read : ℕ → Received

pub record Shared : Type 0 where
  pub client_fds : List ℤ
  pub client_idx : ℤ
  pub barrier : Bool
  -- the holders of `client_fds_lock` and `file_lock`
  pub table_owner : Option ℕ
  pub file_owner : Option ℕ
  -- the calls of `accept` and `read` so far
  pub accepts : ℕ
  pub reads : ℕ
  -- what is in the file behind `output_fd`, and the descriptors that the workers closed
  pub output : List ℕ
  pub closed : List ℤ
  -- whether `main` has not returned
  pub running : Bool

pub data Pc : Type 0 where
  starting : Pc  -- in `while (barrier == 0)`
  asking : Pc  -- before `pthread_mutex_lock(&client_fds_lock)` of a worker
  looking : Pc  -- before `client_fds[client_idx] > 0`
  fetching : Pc  -- before `fd = client_fds[client_idx]`
  clearing : (fd : ℤ) → Pc  -- before `client_fds[client_idx] = -1`
  lowering : (fd : ℤ) → Pc  -- before `client_idx --`
  taking : (fd : ℤ) → Pc  -- before the unlock in front of `break`
  missing : Pc  -- before the unlock behind the `if`
  receiving : (fd : ℤ) → Pc  -- before `read`
  queueing : (fd : ℤ) (n : Received) → Pc  -- before `pthread_mutex_lock(&file_lock)`
  storing : (fd : ℤ) (n : Received) → Pc  -- before `write`
  freeing : (fd : ℤ) (n : Received) → Pc  -- before `pthread_mutex_unlock(&file_lock)`
  closing : (fd : ℤ) → Pc  -- before `close`
  releasing : Pc  -- before `barrier = 1`
  listening : Pc  -- before `listen`
  accepting : Pc  -- before `accept`
  offering : (client_fd : ℤ) → Pc  -- before `pthread_mutex_lock(&client_fds_lock)` of `main`
  testing : (client_fd : ℤ) → Pc  -- before `client_idx < WORKER_NUM`
  raising : (client_fd : ℤ) → Pc  -- before `client_idx ++`
  placing : (client_fd : ℤ) → Pc  -- before `client_fds[client_idx] = client_fd`
  placed : Pc  -- before the unlock in front of `break`
  full : (client_fd : ℤ) → Pc  -- before the unlock behind the `if`
  stopped : Pc  -- behind `return 1`

-- `++` and `--` of an `int`.
abbrev pub up : ℤ → ℤ
up (pos n) = pos (suc n)
up (negsuc zero) = pos 0
up (negsuc (suc n)) = negsuc n

abbrev pub down : ℤ → ℤ
down (pos zero) = negsuc 0
down (pos (suc n)) = pos n
down (negsuc n) = negsuc (suc n)

-- Reads and writes of `client_fds`; `none` is an access out of bounds.
abbrev pub fd_at : List ℤ → ℤ → Option ℤ
fd_at fds (pos n) = get_elem? fds n
fd_at fds (negsuc n) = none

abbrev pub put_at : List ℤ → ℤ → ℤ → Option (List ℤ)
put_at fds (pos n) fd = set? fds n fd
put_at fds (negsuc n) fd = none

abbrev pub is_positive : ℤ → Bool
is_positive (pos n) = ltb 0 n
is_positive (negsuc n) = false

-- `client_idx < WORKER_NUM`.
abbrev pub has_room : ℤ → Bool
has_room (pos n) = ltb n worker_num
has_room (negsuc n) = true

-- `n > 0`.
abbrev pub has_more : Received → Bool
has_more (chunk (b ∷ bytes)) = true
has_more _ = false

abbrev pub lock_table : Shared → ℕ → Pc → Option ℕ → Turn Shared Pc
lock_table s tid next none = moved (record s { table_owner = some tid }) next
lock_table s tid next (some holder) = waiting

abbrev pub lock_file : Shared → ℕ → Pc → Option ℕ → Turn Shared Pc
lock_file s tid next none = moved (record s { file_owner = some tid }) next
lock_file s tid next (some holder) = waiting

-- `if (client_fds[client_idx] > 0)`.
abbrev pub look : Shared → Option ℤ → Turn Shared Pc
look s none = fault
look s (some fd) = if is_positive fd then moved s fetching else moved s missing

abbrev pub fetch : Shared → Option ℤ → Turn Shared Pc
fetch s none = fault
fetch s (some fd) = moved s (clearing fd)

abbrev pub store : Shared → Pc → Option (List ℤ) → Turn Shared Pc
store s next none = fault
store s next (some fds) = moved (record s { client_fds = fds }) next

-- `write(output_fd, buf, n)`, which takes all the bytes. A count of -1, which is one of SIZE_MAX
-- bytes, makes it fail and write nothing.
abbrev pub write_out : Shared → ℤ → Received → Turn Shared Pc
write_out s fd (chunk bytes) =
    moved (record s { output = s.output ++ bytes }) (freeing fd (chunk bytes))
write_out s fd failed = moved s (freeing fd failed)

abbrev pub accept_one : Shared → ℤ → Turn Shared Pc
accept_one s (pos fd) = moved (record s { accepts = suc s.accepts }) (offering (pos fd))
accept_one s (negsuc e) = moved (record s { running = false }) stopped

abbrev pub listen_once : Shared → ℤ → Turn Shared Pc
listen_once s (pos r) = moved s accepting
listen_once s (negsuc e) = moved (record s { running = false }) stopped

abbrev pub live_step : SocketCalls → Program Shared Pc
live_step io tid s starting = if s.barrier then moved s asking else moved s starting
live_step io tid s asking = lock_table s tid looking s.table_owner
live_step io tid s looking = look s (fd_at s.client_fds s.client_idx)
live_step io tid s fetching = fetch s (fd_at s.client_fds s.client_idx)
live_step io tid s (clearing fd) =
    store s (lowering fd) (put_at s.client_fds s.client_idx (negsuc 0))
live_step io tid s (lowering fd) = moved (record s { client_idx = down s.client_idx }) (taking fd)
live_step io tid s (taking fd) = moved (record s { table_owner = none }) (receiving fd)
live_step io tid s missing = moved (record s { table_owner = none }) asking
live_step io tid s (receiving fd) =
    moved (record s { reads = suc s.reads }) (queueing fd (io.read s.reads))
live_step io tid s (queueing fd n) = lock_file s tid (storing fd n) s.file_owner
live_step io tid s (storing fd n) = write_out s fd n
live_step io tid s (freeing fd n) =
    moved (record s { file_owner = none }) (if has_more n then receiving fd else closing fd)
live_step io tid s (closing fd) = moved (record s { closed = fd ∷ s.closed }) asking
live_step io tid s releasing = moved (record s { barrier = true }) listening
live_step io tid s listening = listen_once s io.listen
live_step io tid s accepting = accept_one s (io.accept s.accepts)
live_step io tid s (offering fd) = lock_table s tid (testing fd) s.table_owner
live_step io tid s (testing fd) =
    if has_room s.client_idx then moved s (raising fd) else moved s (full fd)
live_step io tid s (raising fd) = moved (record s { client_idx = up s.client_idx }) (placing fd)
live_step io tid s (placing fd) = store s placed (put_at s.client_fds s.client_idx fd)
live_step io tid s placed = moved (record s { table_owner = none }) accepting
live_step io tid s (full fd) = moved (record s { table_owner = none }) (offering fd)
live_step io tid s stopped = halted

-- When `main` returns, the process ends.
unfoldable pub tcp_step : SocketCalls → Program Shared Pc
tcp_step io tid s p = if s.running then live_step io tid s p else halted

-- The state behind the loop that creates the workers; none of them gets past the barrier before.
abbrev pub boot : System Shared Pc
boot = record {
  shared = record {
    client_fds = replicate worker_num (negsuc 0);
    client_idx = negsuc 0;
    barrier = false;
    table_owner = none;
    file_owner = none;
    accepts = 0;
    reads = 0;
    output = [];
    closed = [];
    running = true;
  };
  locals = λ tid. if leb tid worker_num then starting else releasing;
}

-- A call whose negative result makes `main` return 1.
abbrev pub or_return_one : ℤ → Outcome (Unit {0})
or_return_one (pos r) = returned tt
or_return_one (negsuc e) = exited 1

-- The test `output_fd == -1`.
abbrev pub check_open : ℤ → Outcome (Unit {0})
check_open (negsuc zero) = exited 1
check_open _ = returned tt

-- The workers from `i` on, with `left` to create.
unfoldable pub create_all : (ℕ → ℤ) → ℕ → ℕ → Outcome (Unit {0})
create_all create i zero = returned tt
create_all create i (suc left) = or_return_one (create i) >> create_all create (i + 1) left

-- The test `argc != 2`.
abbrev pub check_args : List String → Outcome (Unit {0})
check_args (name ∷ port ∷ []) = returned tt
check_args _ = exited 1

-- `main` does not return but by 1.
unfoldable pub main : SocketCalls → List String → List ℕ → Outcome (Unit {0})
unfolding create_all tcp_step run
main io argv schedule = do
  check_args argv
  check_open io.descriptor
  or_return_one io.socket
  or_return_one io.bind
  create_all io.create 0 worker_num
  last ← run (tcp_step io) (suc worker_num) schedule boot
  if last.shared.running then unfinished else exited 1
