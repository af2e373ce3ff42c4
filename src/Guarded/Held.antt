-- ===== src/Guarded/Held.antt =====
-- What each thread of racey-guarded holds and knows at the points of its code, and the invariant
-- that ties it to the shared state.
use racey_suite.Prelude.{ℕ, ◌%◌, ◌≤◌, ◌≡◌, Bool, true, false, Option, none, some, total}
use racey_suite.Machine.{System}
use racey_suite.Racey.Loop.{IsMemory}
use racey_suite.Guarded.{
  Shared, Pc, arriving, waits, reading1, unlocking1, reading2, storing, unlocking2, nlock,
}
use racey_suite.Guarded.Move.{IsPc, cell}

-- The mutex that a thread holds at a point of its code.
abbrev pub holds : Pc → Option ℕ
holds (reading1 i index1 num) = some (index1 % nlock)
holds (unlocking1 i index1 num) = some (index1 % nlock)
holds (reading2 i index2 num) = some (index2 % nlock)
holds (storing i index2 num value) = some (index2 % nlock)
holds (unlocking2 i index2 num) = some (index2 % nlock)
holds _ = none

-- Behind the call of `pthread_barrier_wait`, or in it.
abbrev pub started : Pc → ℕ
started arriving = 0
started _ = 1

-- Behind the return of `pthread_barrier_wait`.
abbrev pub inside : Pc → Bool
inside arriving = false
inside waits = false
inside _ = true

-- The value that a thread has read for its write is the one in the cell.
abbrev pub IsFresh : Shared → Pc → Type 0
IsFresh s (storing i index2 num value) = value ≡ cell s index2
IsFresh s _ = Unit

pub record Inv (n max_loop : ℕ) (c : System Shared Pc) : Type 0 where
  pub memory : IsMemory c.shared.mem
  pub legal : (i : ℕ) → IsPc max_loop (c.locals i)
  pub counted : c.shared.arrivals ≡ total started n c.locals
  pub opened : (i : ℕ) → inside (c.locals i) ≡ true → n ≤ c.shared.arrivals
  pub owned : (i k : ℕ) → holds (c.locals i) ≡ some k → c.shared.locks k ≡ some i
  pub held :
      (k i : ℕ) → c.shared.locks k ≡ some i → (holds (c.locals i) ≡ some k) × (1 ≤ i) × (i ≤ n)
  pub fresh : (i : ℕ) → IsFresh c.shared (c.locals i)
