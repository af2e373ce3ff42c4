-- ===== src/TcpServer/Held.antt =====
-- What the threads of racey-tcp-server.c hold at each point, and what the moves that leave the table
-- alone do to it.
use racey_suite.Prelude.{
  ℕ, zero, suc, ◌+◌, ◌≡◌, refl, ℤ, Bool, true, false, some, List, [], ◌∷◌, total,
}
use racey_suite.Machine.{System}
use racey_suite.TcpServer.{
  SocketCalls, Shared, Pc, looking, fetching, clearing, lowering, taking, missing, receiving,
  queueing, storing, freeing, closing, offering, testing, raising, placing, placed, full,
  is_positive, worker_num,
}
use racey_suite.TcpServer.Table.{Table}
use racey_suite.TcpServer.Move.{
  Walks, spins, begins, misses, receives, releases, listens, fits, waits, spoils, gives_up, ends,
  Asks, worker_asks, main_asks, Leaves, with_fd, with_none, with_place, with_full,
}

-- Between lock and unlock of the table, and of the file.
abbrev pub in_table : Pc → Bool
in_table looking = true
in_table fetching = true
in_table (clearing fd) = true
in_table (lowering fd) = true
in_table (taking fd) = true
in_table missing = true
in_table (testing fd) = true
in_table (raising fd) = true
in_table (placing fd) = true
in_table placed = true
in_table (full fd) = true
in_table _ = false

abbrev pub in_file : Pc → Bool
in_file (storing fd n) = true
in_file (freeing fd n) = true
in_file _ = false

-- `client_idx` is one above the last entry.
abbrev pub lifted : Pc → ℕ
lifted (lowering fd) = 1
lifted (placing fd) = 1
lifted _ = 0

-- The weight of the descriptor that a thread has in its hands.
abbrev pub carried : (ℤ → ℕ) → Pc → ℕ
carried w (lowering fd) = w fd
carried w (taking fd) = w fd
carried w (receiving fd) = w fd
carried w (queueing fd n) = w fd
carried w (storing fd n) = w fd
carried w (freeing fd n) = w fd
carried w (closing fd) = w fd
carried w (offering fd) = w fd
carried w (testing fd) = w fd
carried w (raising fd) = w fd
carried w (placing fd) = w fd
carried w (full fd) = w fd
carried w _ = 0

-- The weight of a list of descriptors, and of those that the first `k` calls of `accept` returned.
abbrev pub sum : (ℤ → ℕ) → List ℤ → ℕ
sum w [] = 0
sum w (fd ∷ fds) = w fd + sum w fds

abbrev pub accepted : SocketCalls → ℕ → List ℤ
accepted io zero = []
accepted io (suc k) = io.accept k ∷ accepted io k

-- What a thread in the table knows of its last entry.
abbrev pub Knows : List ℤ → Pc → Type 0
Knows stack fetching = (fd : ℤ) × (below : List ℤ) × (stack ≡ fd ∷ below) × (is_positive fd ≡ true)
Knows stack (clearing fd) = (below : List ℤ) × (stack ≡ fd ∷ below) × (is_positive fd ≡ true)
Knows stack _ = Unit

-- The stack behind a thread's move from `p`.
abbrev pub pool_after : Pc → List ℤ → List ℤ
pool_after (clearing fd) [] = []
pool_after (clearing fd) (top ∷ below) = below
pool_after (placing fd) stack = fd ∷ stack
pool_after _ stack = stack

-- What moves that leave the table alone do to these.
pub record Quiet (p p' : Pc) : Type 0 where
  pub file : in_file p' ≡ in_file p
  pub lift : (lifted p ≡ 0) × (lifted p' ≡ 0)
  pub carry : (w : ℤ → ℕ) → carried w p' ≡ carried w p
  pub know : (stack : List ℤ) → Knows stack p'
  pub pool : (stack : List ℤ) → pool_after p stack ≡ stack

pub Walks-Quiet : {p p' : Pc} → Walks p p' → Quiet p p' × (in_table p' ≡ in_table p)
Walks-Quiet spins = (
  record { file = refl; lift = (refl, refl); carry = λ w. refl; know = λ l. tt; pool = λ l. refl },
  refl,
)
Walks-Quiet begins = (
  record { file = refl; lift = (refl, refl); carry = λ w. refl; know = λ l. tt; pool = λ l. refl },
  refl,
)
Walks-Quiet misses = (
  record { file = refl; lift = (refl, refl); carry = λ w. refl; know = λ l. tt; pool = λ l. refl },
  refl,
)
Walks-Quiet (receives fd n) = (
  record { file = refl; lift = (refl, refl); carry = λ w. refl; know = λ l. tt; pool = λ l. refl },
  refl,
)
Walks-Quiet releases = (
  record { file = refl; lift = (refl, refl); carry = λ w. refl; know = λ l. tt; pool = λ l. refl },
  refl,
)
Walks-Quiet listens = (
  record { file = refl; lift = (refl, refl); carry = λ w. refl; know = λ l. tt; pool = λ l. refl },
  refl,
)
Walks-Quiet (fits fd) = (
  record { file = refl; lift = (refl, refl); carry = λ w. refl; know = λ l. tt; pool = λ l. refl },
  refl,
)
Walks-Quiet (waits fd) = (
  record { file = refl; lift = (refl, refl); carry = λ w. refl; know = λ l. tt; pool = λ l. refl },
  refl,
)
Walks-Quiet (spoils fd) = (
  record { file = refl; lift = (refl, refl); carry = λ w. refl; know = λ l. tt; pool = λ l. refl },
  refl,
)
Walks-Quiet gives_up = (
  record { file = refl; lift = (refl, refl); carry = λ w. refl; know = λ l. tt; pool = λ l. refl },
  refl,
)
Walks-Quiet ends = (
  record { file = refl; lift = (refl, refl); carry = λ w. refl; know = λ l. tt; pool = λ l. refl },
  refl,
)

pub Asks-Quiet : {p p' : Pc} → Asks p p' → Quiet p p' × (in_table p ≡ false)
Asks-Quiet worker_asks = (
  record { file = refl; lift = (refl, refl); carry = λ w. refl; know = λ l. tt; pool = λ l. refl },
  refl,
)
Asks-Quiet (main_asks fd) = (
  record { file = refl; lift = (refl, refl); carry = λ w. refl; know = λ l. tt; pool = λ l. refl },
  refl,
)

pub Leaves-Quiet :
    {p p' : Pc} → Leaves p p' → Quiet p p' × (in_table p ≡ true) × (in_table p' ≡ false)
Leaves-Quiet (with_fd fd) = (
  record { file = refl; lift = (refl, refl); carry = λ w. refl; know = λ l. tt; pool = λ l. refl },
  refl,
  refl,
)
Leaves-Quiet with_none = (
  record { file = refl; lift = (refl, refl); carry = λ w. refl; know = λ l. tt; pool = λ l. refl },
  refl,
  refl,
)
Leaves-Quiet with_place = (
  record { file = refl; lift = (refl, refl); carry = λ w. refl; know = λ l. tt; pool = λ l. refl },
  refl,
  refl,
)
Leaves-Quiet (with_full fd) = (
  record { file = refl; lift = (refl, refl); carry = λ w. refl; know = λ l. tt; pool = λ l. refl },
  refl,
  refl,
)

pub record Inv (io : SocketCalls) (stack : List ℤ) (c : System Shared Pc) : Type 0 where
  pub table :
      Table c.shared.client_fds c.shared.client_idx (total lifted (suc worker_num) c.locals) stack
  pub holds : (i : ℕ) → in_table (c.locals i) ≡ true → c.shared.table_owner ≡ some i
  pub files : (i : ℕ) → in_file (c.locals i) ≡ true → c.shared.file_owner ≡ some i
  pub knows : (i : ℕ) → Knows stack (c.locals i)
  pub kept :
      (w : ℤ → ℕ)
      → sum w (accepted io c.shared.accepts)
        ≡ sum w stack + total (carried w) (suc worker_num) c.locals + sum w c.shared.closed
