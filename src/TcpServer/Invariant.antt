-- ===== src/TcpServer/Invariant.antt =====
-- The invariant of racey-tcp-server.c: who holds the locks, which stack the table holds, and where
-- the accepted connections are.
use mathlib.Core.Path.{subst}
use racey_suite.Prelude.{
  ℕ, suc, ◌+◌, ◌≤◌, ◌≡◌, refl, ℤ, Bool, true, false, some, List, arith, ap, update, total,
  total-update, if◌then◌else◌,
}
use racey_suite.Machine.{System}
use racey_suite.TcpServer.{
  SocketCalls, Shared, Pc, clearing, lowering, receiving, closing, has_more, worker_num,
}
use racey_suite.TcpServer.Move.{Move, walk, ask, leave, clear, queue, unlock_file, connect}
use racey_suite.TcpServer.Held.{
  in_table, in_file, carried, sum, accepted, Knows, pool_after, Walks-Quiet, Asks-Quiet,
  Leaves-Quiet, Inv,
}
use racey_suite.TcpServer.Stack.{Move-Table}
use racey_suite.TcpServer.Known.{Move-Knows}

module _ {io : SocketCalls} {stack : List ℤ} {c : System Shared Pc} (inv : Inv io stack c) (i : ℕ)
    (low : 1 ≤ i) (high : i ≤ suc worker_num) where
  open inv use {holds, files, knows, kept}

  Move-holds :
      {p p' : Pc} {s : Shared}
      → Move io i c.shared p s p'
      → c.locals i ≡ p
      → (j : ℕ) → in_table (update c.locals i p' j) ≡ true
      → s.table_owner ≡ some j
  Move-holds (walk q k) here j e = ground (arith, (Walks-Quiet q).1, k.table, holds j, holds i)
  Move-holds (ask a none_in) here j e = ground (arith, holds j)
  Move-holds (leave l) here j e = ground (arith, Leaves-Quiet l, holds j, holds i)
  Move-holds unlock_file here j e = ground (arith, holds j, holds i)
  Move-holds _ here j e = ground (arith, holds j, holds i)

  Move-files :
      {p p' : Pc} {s : Shared}
      → Move io i c.shared p s p'
      → c.locals i ≡ p
      → (j : ℕ) → in_file (update c.locals i p' j) ≡ true
      → s.file_owner ≡ some j
  Move-files (walk q k) here j e = ground (arith, (Walks-Quiet q).0.file, k.file, files j, files i)
  Move-files (ask a none_in) here j e = ground (arith, (Asks-Quiet a).0.file, files j, files i)
  Move-files (leave l) here j e = ground (arith, (Leaves-Quiet l).0.file, files j, files i)
  Move-files (queue none_in) here j e = ground (arith, files j)
  Move-files unlock_file here j e = ground (arith, files j, files i)
  Move-files _ here j e = ground (arith, files j, files i)

  -- What the thread has in its hands goes up by what the others lose.
  carry_after :
      (w : ℤ → ℕ) (p p' : Pc)
      → c.locals i ≡ p
      → total (carried w) (suc worker_num) (update c.locals i p') + carried w p
        ≡ total (carried w) (suc worker_num) c.locals + carried w p'
  carry_after w p p' here =
      omega (
        arith,
        total-update (carried w) (suc worker_num) c.locals i p' low high,
        ap (carried w) here,
      )

  Move-kept :
      {p p' : Pc} {s : Shared}
      → Move io i c.shared p s p'
      → c.locals i ≡ p
      → (w : ℤ → ℕ)
      → sum w (accepted io s.accepts)
        ≡ sum w (pool_after p stack)
          + total (carried w) (suc worker_num) (update c.locals i p')
          + sum w s.closed
  Move-kept {p} {p'} (walk q k) here w =
      let quiet = (Walks-Quiet q).0 in
      rw (quiet.pool stack, k.accepts, k.closed)
        (omega (arith, carry_after w p p' here, kept w, quiet.carry w))
  Move-kept {p} {p'} (ask a none_in) here w =
      let quiet = (Asks-Quiet a).0 in
      rw (quiet.pool stack) (omega (arith, carry_after w p p' here, kept w, quiet.carry w))
  Move-kept {p} {p'} (leave l) here w =
      let quiet = (Leaves-Quiet l).0 in
      rw (quiet.pool stack) (omega (arith, carry_after w p p' here, kept w, quiet.carry w))
  Move-kept (clear {fd} e) here w =
      let (below, known, more) = subst (Knows stack) here (knows i) in
      rw known
        (omega (arith, carry_after w (clearing fd) (lowering fd) here, kept w, ap (sum w) known))
  Move-kept {p} {p'} (connect {fd} e) here w =
      omega (arith, carry_after w p p' here, kept w, ap w e)
  Move-kept {p} {p'} (unlock_file {fd} {n}) here w =
      omega (arith, carry_after w p p' here, kept w, carried_more (has_more n))
    where
      carried_more : (b : Bool) → carried w (if b then receiving fd else closing fd) ≡ w fd
      carried_more true = refl
      carried_more false = refl
  Move-kept {p} {p'} _ here w = omega (arith, carry_after w p p' here, kept w)

  -- A move keeps the invariant.
  pub Move-Inv :
      {s : Shared} {p' : Pc}
      → Move io i c.shared (c.locals i) s p'
      → Inv io
          (pool_after (c.locals i) stack)
          (record { shared = s; locals = update c.locals i p' })
  Move-Inv mv = record {
    table = Move-Table inv i low high mv refl;
    holds = Move-holds mv refl;
    files = Move-files mv refl;
    knows = Move-Knows inv i low high mv refl;
    kept = Move-kept mv refl;
  }
