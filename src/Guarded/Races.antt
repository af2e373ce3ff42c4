-- ===== src/Guarded/Races.antt =====
-- Accesses to m[] by different threads of racey-guarded.c.
use mathlib.Core.Path.{subst}
use racey_suite.Prelude.{ℕ, ◌%◌, ◌≤◌, ◌≡◌, true, Option, none, some, total_full, total-le, arith}
use racey_suite.Machine.{System, Reach}
use racey_suite.Racey.{Memory}
use racey_suite.Racey.Loop.{IsMemory}
use racey_suite.Guarded.{Shared, Pc, reading1, reading2, storing, nlock, thread_body, boot}
use racey_suite.Guarded.Move.{cell}
use racey_suite.Guarded.Held.{holds, started, inside, IsFresh}
use racey_suite.Guarded.Invariant.{Reach-Inv, locks_same}

-- The cell of m[] that the next access of a thread reads or writes.
abbrev pub touches : Pc → Option ℕ
touches (reading1 i index1 num) = some index1
touches (reading2 i index2 num) = some index2
touches (storing i index2 num value) = some index2
touches _ = none

-- Every access of m[x] is made under the mutex of x.
touches-holds : (p : Pc) (x : ℕ) → touches p ≡ some x → holds p ≡ some (x % nlock)
touches-holds p x e = ground arith

module _ (n max_loop : ℕ) (mem : Memory) (few : n ≤ 32) (ok : IsMemory mem) {c : System Shared Pc}
    (r : Reach (thread_body n max_loop) n (boot mem) c) where
  -- In every reachable state of up to 32 threads of racey-guarded, started over arrays of the right
  -- sizes with values below PRIME1, two threads that are about to access the same cell of m[] are
  -- the same thread.
  pub race_free :
      (i j x : ℕ) → touches (c.locals i) ≡ some x → touches (c.locals j) ≡ some x → i ≡ j
  race_free i j x p q =
      let inv = Reach-Inv n max_loop mem few ok r in
      locks_same (inv.owned i (x % nlock) (touches-holds (c.locals i) x p))
        (inv.owned j (x % nlock) (touches-holds (c.locals j) x q))

  -- In every reachable state of up to 32 threads of racey-guarded, started over arrays of the right
  -- sizes with values below PRIME1, a thread that is about to write m[index2] mixes the value that
  -- the cell still holds: no update is lost.
  pub no_lost_update :
      (i a index2 num value : ℕ)
      → c.locals i ≡ storing a index2 num value
      → value ≡ cell c.shared index2
  no_lost_update i a index2 num value e =
      subst (IsFresh c.shared) e ((Reach-Inv n max_loop mem few ok r).fresh i)

  -- In every reachable state of up to 32 threads of racey-guarded, started over arrays of the right
  -- sizes with values below PRIME1, if one thread is behind the barrier, all threads have arrived
  -- at it.
  guarded_barrier :
      (i j : ℕ) → inside (c.locals i) ≡ true → 1 ≤ j → j ≤ n → started (c.locals j) ≡ 1
  guarded_barrier i j e low high =
      let inv = Reach-Inv n max_loop mem few ok r in
      total_full started (λ p. ground arith) n c.locals
        (omega
          (arith, inv.counted, inv.opened i e, total-le started (λ p. ground arith) n c.locals))
        j low high
