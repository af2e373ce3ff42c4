-- ===== src/TcpServer/Pool.antt =====
-- The table of racey-tcp-server.c as a stack of connections: what a run of the server does to the
-- table is what its pushes and pops, in their order, do to a stack.
use mathlib.Core.Path.{subst}
use racey_suite.Prelude.{
  ℕ, suc, ◌-◌, ◌≤◌, ◌<◌, ◌≡◌, refl, ℤ, negsuc, true, none, List, [], ◌∷◌, ◌++◌, length, replicate,
}
use racey_suite.Machine.{System, Step, pick, start, later}
use racey_suite.TcpServer.{
  SocketCalls, Shared, Pc, clearing, placing, is_positive, worker_num, tcp_step,
}
use racey_suite.TcpServer.Table.{pile, index_of, Table-array}
use racey_suite.TcpServer.Move.{
  Walks, spins, begins, misses, receives, releases, listens, fits, waits, spoils, gives_up, ends,
  Asks, worker_asks, main_asks, Leaves, with_fd, with_none, with_place, with_full, Move, walk, ask,
  leave, clear, place, MoveOf, tcp_step-MoveOf,
}
use racey_suite.TcpServer.Held.{Inv, Knows, pool_after, Walks-Quiet, Asks-Quiet, Leaves-Quiet}
use racey_suite.TcpServer.Stack.{only_lift, placed_at}
use racey_suite.TcpServer.Invariant.{Move-Inv}
use racey_suite.TcpServer.Server.{Reachable, boot-Inv, unlocked}

-- What the threads do to the table.
pub data PoolEvent : Type 0 where
  pushed : (fd : ℤ) → PoolEvent
  popped : (fd : ℤ) → PoolEvent

-- The events of a run, the latest first, lead from the empty stack to this one. A push finds at
-- most nine connections, and a pop gives the one that was pushed last.
pub data Replays : List PoolEvent → List ℤ → Type 0 where
  nothing : Replays [] []
  push :
      {events : List PoolEvent} {stack : List ℤ} (fd : ℤ)
      → length stack < worker_num
      → Replays events stack
      → Replays (pushed fd ∷ events) (fd ∷ stack)
  pop :
      {events : List PoolEvent} {stack : List ℤ} (fd : ℤ)
      → is_positive fd ≡ true
      → Replays events (fd ∷ stack)
      → Replays (popped fd ∷ events) stack

-- `client_fds[client_idx] = client_fd` of `main` is a push, and `client_fds[client_idx] = -1` of a
-- worker that goes on to serve `fd` is a pop.
abbrev pub event_of : Pc → List PoolEvent
event_of (placing fd) = pushed fd ∷ []
event_of (clearing fd) = popped fd ∷ []
event_of _ = []

Walks-silent : {p p' : Pc} → Walks p p' → event_of p ≡ []
Walks-silent spins = refl
Walks-silent begins = refl
Walks-silent misses = refl
Walks-silent (receives fd n) = refl
Walks-silent releases = refl
Walks-silent listens = refl
Walks-silent (fits fd) = refl
Walks-silent (waits fd) = refl
Walks-silent (spoils fd) = refl
Walks-silent gives_up = refl
Walks-silent ends = refl

Asks-silent : {p p' : Pc} → Asks p p' → event_of p ≡ []
Asks-silent worker_asks = refl
Asks-silent (main_asks fd) = refl

Leaves-silent : {p p' : Pc} → Leaves p p' → event_of p ≡ []
Leaves-silent (with_fd fd) = refl
Leaves-silent with_none = refl
Leaves-silent with_place = refl
Leaves-silent (with_full fd) = refl

module _ (io : SocketCalls) where
  -- The events of a run of the server, the latest first.
  abbrev step_events :
      {c d : System Shared Pc} → Step (tcp_step io) (suc worker_num) c d → List PoolEvent
  step_events {c = c} (pick i low high e) = event_of (c.locals i)

  abbrev pub history : {c : System Shared Pc} → Reachable io c → List PoolEvent
  history start = []
  history (later r step) = step_events step ++ history r

  module _ {c : System Shared Pc} {stack : List ℤ} (inv : Inv io stack c) (i : ℕ) (low : 1 ≤ i)
      (high : i ≤ suc worker_num) {events : List PoolEvent} (r : Replays events stack) where
    cleared :
        (fd : ℤ)
        → Knows stack (clearing fd)
        → Replays (popped fd ∷ events) (pool_after (clearing fd) stack)
    cleared fd (below, known, more) = rw known (pop fd more (subst (Replays events) known r))

    Move-Replays :
        {s : Shared} {p p' : Pc}
        → c.locals i ≡ p
        → Move io i c.shared p s p'
        → Replays (event_of p ++ events) (pool_after p stack)
    Move-Replays here (walk q k) = rw (Walks-silent q, (Walks-Quiet q).0.pool stack) r
    Move-Replays here (ask a free) = rw (Asks-silent a, (Asks-Quiet a).0.pool stack) r
    Move-Replays here (leave b) = rw (Leaves-silent b, (Leaves-Quiet b).0.pool stack) r
    Move-Replays here (clear {fd} e) = cleared fd (subst (Knows stack) here (inv.knows i))
    Move-Replays here (place {fd} e) =
        let (room, t) =
          placed_at inv i low high (only_lift inv i low high (placing fd) here refl) e in
        push fd room r
    Move-Replays here _ = r

  replayed :
      {c : System Shared Pc} (r : Reachable io c)
      → (stack : List ℤ) × Inv io stack c × Replays (history r) stack
  replayed start = ([], boot-Inv io, nothing)
  replayed (later {c} r (pick i low high e)) =
      let (stack, inv, replay) = replayed r in
      let mv =
        subst (MoveOf io i c.shared (c.locals i)) e (tcp_step-MoveOf io i c.shared (c.locals i)) in
      (
        pool_after (c.locals i) stack,
        Move-Inv inv i low high mv,
        Move-Replays inv i low high replay refl mv,
      )

  -- For every run of the server, the connections that `main` has put into the table and those that
  -- workers have taken out of it, in the order of these accesses, are pushes and pops that lead from
  -- the empty stack to some stack: a worker always takes the connection that was put there last of
  -- those that are left. Whenever `client_fds_lock` is free, the table is just this stack:
  -- `client_fds` holds its connections and -1 behind them, and `client_idx` is the index of the last
  -- connection, or -1.
  pub tcp_server_refines_stack :
      (c : System Shared Pc) (r : Reachable io c)
      → (stack : List ℤ) × Replays (history r) stack
        × (c.shared.table_owner ≡ none
            → (c.shared.client_fds ≡ pile stack (replicate (worker_num - length stack) (negsuc 0)))
              × (c.shared.client_idx ≡ index_of (length stack)))
  tcp_server_refines_stack c r =
      let (stack, inv, replay) = replayed r in
      (stack, replay, λ free. Table-array (unlocked io inv free))
