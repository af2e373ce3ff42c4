-- ===== src/TcpServer/Move.antt =====
-- The turns of the threads of racey-tcp-server.c as a relation, and where an access is out of
-- bounds.
use racey_suite.Prelude.{
  ℕ, suc, ◌≡◌, refl, ℤ, pos, negsuc, Bool, true, false, Option, none, some, List, ◌∷◌, ◌++◌,
  if◌then◌else◌, Bool-cases, inl, inr,
}
use racey_suite.Machine.{Turn, moved, waiting, halted, fault}
use racey_suite.TcpServer.{
  Received, chunk, failed, SocketCalls, Shared, Pc, starting, asking, looking, fetching, clearing,
  lowering, taking, missing, receiving, queueing, storing, freeing, closing, releasing, listening,
  accepting, offering, testing, raising, placing, placed, full, stopped, up, down, fd_at, put_at,
  is_positive, has_room, has_more, lock_table, lock_file, look, fetch, store, write_out, accept_one,
  listen_once, live_step, tcp_step,
}

-- The points before the lock of the table, with those behind it.
pub data Asks : Pc → Pc → Type 0 where
  worker_asks : Asks asking looking
  main_asks : (fd : ℤ) → Asks (offering fd) (testing fd)

-- The points before the unlock of the table.
pub data Leaves : Pc → Pc → Type 0 where
  with_fd : (fd : ℤ) → Leaves (taking fd) (receiving fd)
  with_none : Leaves missing asking
  with_place : Leaves placed accepting
  with_full : (fd : ℤ) → Leaves (full fd) (offering fd)

-- Moves that neither change the table or the locks nor hand a descriptor on.
pub data Walks : Pc → Pc → Type 0 where
  spins : Walks starting starting
  begins : Walks starting asking
  misses : Walks looking missing
  receives : (fd : ℤ) (n : Received) → Walks (receiving fd) (queueing fd n)
  releases : Walks releasing listening
  listens : Walks listening accepting
  fits : (fd : ℤ) → Walks (testing fd) (raising fd)
  waits : (fd : ℤ) → Walks (testing fd) (full fd)
  spoils : (fd : ℤ) → Walks (storing fd failed) (freeing fd failed)
  gives_up : Walks listening stopped
  ends : Walks accepting stopped

-- The parts of the state that such a move leaves as they are.
pub record Same (s s' : Shared) : Type 0 where
  pub fds : s'.client_fds ≡ s.client_fds
  pub idx : s'.client_idx ≡ s.client_idx
  pub table : s'.table_owner ≡ s.table_owner
  pub file : s'.file_owner ≡ s.file_owner
  pub accepts : s'.accepts ≡ s.accepts
  pub closed : s'.closed ≡ s.closed

module _ (io : SocketCalls) (tid : ℕ) where
  pub data Move (s : Shared) : Pc → Shared → Pc → Type 0 where
    walk : {p p' : Pc} {s' : Shared} → Walks p p' → Same s s' → Move s p s' p'
    ask :
        {p p' : Pc}
        → Asks p p'
        → s.table_owner ≡ none
        → Move s p (record s { table_owner = some tid }) p'
    leave : {p p' : Pc} → Leaves p p' → Move s p (record s { table_owner = none }) p'
    hit :
        {fd : ℤ}
        → fd_at s.client_fds s.client_idx ≡ some fd
        → is_positive fd ≡ true
        → Move s looking s fetching
    get : {fd : ℤ} → fd_at s.client_fds s.client_idx ≡ some fd → Move s fetching s (clearing fd)
    clear :
        {fd : ℤ} {fds : List ℤ}
        → put_at s.client_fds s.client_idx (negsuc 0) ≡ some fds
        → Move s (clearing fd) (record s { client_fds = fds }) (lowering fd)
    lower :
        {fd : ℤ} → Move s (lowering fd) (record s { client_idx = down s.client_idx }) (taking fd)
    queue :
        {fd : ℤ} {n : Received}
        → s.file_owner ≡ none
        → Move s (queueing fd n) (record s { file_owner = some tid }) (storing fd n)
    write :
        {fd : ℤ} {bytes : List ℕ}
        → Move s
            (storing fd (chunk bytes))
            (record s { output = s.output ++ bytes })
            (freeing fd (chunk bytes))
    unlock_file :
        {fd : ℤ} {n : Received}
        → Move s
            (freeing fd n)
            (record s { file_owner = none })
            (if has_more n then receiving fd else closing fd)
    close : {fd : ℤ} → Move s (closing fd) (record s { closed = fd ∷ s.closed }) asking
    connect :
        {fd : ℕ}
        → io.accept s.accepts ≡ pos fd
        → Move s accepting (record s { accepts = suc s.accepts }) (offering (pos fd))
    raise : {fd : ℤ} → Move s (raising fd) (record s { client_idx = up s.client_idx }) (placing fd)
    place :
        {fd : ℤ} {fds : List ℤ}
        → put_at s.client_fds s.client_idx fd ≡ some fds
        → Move s (placing fd) (record s { client_fds = fds }) placed

  -- Accesses out of bounds.
  pub data Fault (s : Shared) : Pc → Type 0 where
    bad_look : fd_at s.client_fds s.client_idx ≡ none → Fault s looking
    bad_get : fd_at s.client_fds s.client_idx ≡ none → Fault s fetching
    bad_clear :
        (fd : ℤ) → put_at s.client_fds s.client_idx (negsuc 0) ≡ none → Fault s (clearing fd)
    bad_place : (fd : ℤ) → put_at s.client_fds s.client_idx fd ≡ none → Fault s (placing fd)

  abbrev pub MoveOf : Shared → Pc → Turn Shared Pc → Type 0
  MoveOf s p (moved s' p') = Move s p s' p'
  MoveOf s p waiting = Unit
  MoveOf s p halted = Unit
  MoveOf s p fault = Fault s p

  same : (s : Shared) → Same s s
  same s = record {
    fds = refl;
    idx = refl;
    table = refl;
    file = refl;
    accepts = refl;
    closed = refl;
  }

  alike :
      (s s' : Shared)
      → s'.client_fds ≡ s.client_fds
      → s'.client_idx ≡ s.client_idx
      → s'.table_owner ≡ s.table_owner
      → s'.file_owner ≡ s.file_owner
      → s'.accepts ≡ s.accepts
      → s'.closed ≡ s.closed
      → Same s s'
  alike s s' a b c d e f = record { fds = a; idx = b; table = c; file = d; accepts = e; closed = f }

  lock_table-MoveOf :
      (s : Shared) {p p' : Pc} (o : Option ℕ)
      → Asks p p'
      → s.table_owner ≡ o
      → MoveOf s p (lock_table s tid p' o)
  lock_table-MoveOf s none a e = ask a e
  lock_table-MoveOf s (some holder) a e = tt

  lock_file-MoveOf :
      (s : Shared) (fd : ℤ) (n : Received) (o : Option ℕ)
      → s.file_owner ≡ o
      → MoveOf s (queueing fd n) (lock_file s tid (storing fd n) o)
  lock_file-MoveOf s fd n none e = queue e
  lock_file-MoveOf s fd n (some holder) e = tt

  look-MoveOf :
      (s : Shared) (o : Option ℤ)
      → fd_at s.client_fds s.client_idx ≡ o
      → MoveOf s looking (look s o)
  look-MoveOf s none e = bad_look e
  look-MoveOf s (some fd) e = elim (Bool-cases (is_positive fd)) [
    | inl more ↦ rw more (hit e more)
    | inr less ↦ rw less (walk misses (same s))
  ]

  fetch-MoveOf :
      (s : Shared) (o : Option ℤ)
      → fd_at s.client_fds s.client_idx ≡ o
      → MoveOf s fetching (fetch s o)
  fetch-MoveOf s none e = bad_get e
  fetch-MoveOf s (some fd) e = get e

  clear-MoveOf :
      (s : Shared) (fd : ℤ) (o : Option (List ℤ))
      → put_at s.client_fds s.client_idx (negsuc 0) ≡ o
      → MoveOf s (clearing fd) (store s (lowering fd) o)
  clear-MoveOf s fd none e = bad_clear fd e
  clear-MoveOf s fd (some fds) e = clear e

  place-MoveOf :
      (s : Shared) (fd : ℤ) (o : Option (List ℤ))
      → put_at s.client_fds s.client_idx fd ≡ o
      → MoveOf s (placing fd) (store s placed o)
  place-MoveOf s fd none e = bad_place fd e
  place-MoveOf s fd (some fds) e = place e

  write-MoveOf : (s : Shared) (fd : ℤ) (n : Received) → MoveOf s (storing fd n) (write_out s fd n)
  write-MoveOf s fd (chunk bytes) = write
  write-MoveOf s fd failed = walk (spoils fd) (same s)

  accept-MoveOf :
      (s : Shared) (r : ℤ) → io.accept s.accepts ≡ r → MoveOf s accepting (accept_one s r)
  accept-MoveOf s (pos fd) e = connect e
  accept-MoveOf s (negsuc k) e = walk ends (alike s _ refl refl refl refl refl refl)

  listen-MoveOf : (s : Shared) (r : ℤ) → MoveOf s listening (listen_once s r)
  listen-MoveOf s (pos k) = walk listens (same s)
  listen-MoveOf s (negsuc k) = walk gives_up (alike s _ refl refl refl refl refl refl)

  begin-MoveOf :
      (s : Shared) (b : Bool) → MoveOf s starting (if b then moved s asking else moved s starting)
  begin-MoveOf s true = walk begins (same s)
  begin-MoveOf s false = walk spins (same s)

  test-MoveOf :
      (s : Shared) (fd : ℤ) (b : Bool)
      → MoveOf s (testing fd) (if b then moved s (raising fd) else moved s (full fd))
  test-MoveOf s fd true = walk (fits fd) (same s)
  test-MoveOf s fd false = walk (waits fd) (same s)

  live_step-MoveOf : (s : Shared) (p : Pc) → MoveOf s p (live_step io tid s p)
  live_step-MoveOf s starting = begin-MoveOf s s.barrier
  live_step-MoveOf s asking = lock_table-MoveOf s s.table_owner worker_asks refl
  live_step-MoveOf s looking = look-MoveOf s _ refl
  live_step-MoveOf s fetching = fetch-MoveOf s _ refl
  live_step-MoveOf s (clearing fd) = clear-MoveOf s fd _ refl
  live_step-MoveOf s (lowering fd) = lower
  live_step-MoveOf s (taking fd) = leave (with_fd fd)
  live_step-MoveOf s missing = leave with_none
  live_step-MoveOf s (receiving fd) =
      walk (receives fd (io.read s.reads)) (alike s _ refl refl refl refl refl refl)
  live_step-MoveOf s (queueing fd n) = lock_file-MoveOf s fd n s.file_owner refl
  live_step-MoveOf s (storing fd n) = write-MoveOf s fd n
  live_step-MoveOf s (freeing fd n) = unlock_file
  live_step-MoveOf s (closing fd) = close
  live_step-MoveOf s releasing = walk releases (alike s _ refl refl refl refl refl refl)
  live_step-MoveOf s listening = listen-MoveOf s io.listen
  live_step-MoveOf s accepting = accept-MoveOf s _ refl
  live_step-MoveOf s (offering fd) = lock_table-MoveOf s s.table_owner (main_asks fd) refl
  live_step-MoveOf s (testing fd) = test-MoveOf s fd (has_room s.client_idx)
  live_step-MoveOf s (raising fd) = raise
  live_step-MoveOf s (placing fd) = place-MoveOf s fd _ refl
  live_step-MoveOf s placed = leave with_place
  live_step-MoveOf s (full fd) = leave (with_full fd)
  live_step-MoveOf s stopped = tt

  while_running :
      (s : Shared) (p : Pc) (b : Bool) → MoveOf s p (if b then live_step io tid s p else halted)
  while_running s p true = live_step-MoveOf s p
  while_running s p false = tt

  -- A turn is a move, a wait, or an access out of bounds.
  pub tcp_step-MoveOf : (s : Shared) (p : Pc) → MoveOf s p (tcp_step io tid s p)
  unfolding tcp_step
  tcp_step-MoveOf s p = while_running s p s.running
