-- ===== src/Guarded.antt =====
-- racey-guarded.c: each access to m[] is made under the lock of its partition, and the threads
-- start together at a `pthread_barrier_t`. The index of a lock is taken modulo NLOCK, so it is
-- within `locks`, which is a function of the index here.
pub mod Move
pub mod Held
pub mod Invariant
pub mod Races
pub mod Progress
pub mod Main
use racey_suite.Prelude.{
  ℕ, suc, ◌+◌, ◌%◌, Bool, true, false, Option, none, some, List, String, get_elem?, set?, ◌==◌, leb,
  ltb, if◌then◌else◌, update,
}
use racey_suite.Outcome.{Outcome, ◌>>=◌}
use racey_suite.Machine.{Turn, moved, waiting, halted, fault, Program, System}
use racey_suite.Racey.{Memory, max_elem, mix}
use racey_suite.Launch.{Libc, parse_args, run_main, init_memory}

abbrev pub nlock : ℕ
nlock = 8

pub record Shared : Type 0 where
  pub mem : Memory
  -- the holder of each mutex of `locks`
  pub locks : ℕ → Option ℕ
  -- the threads that have called `pthread_barrier_wait`
  pub arrivals : ℕ

-- Where a thread stands: `i` is the iteration, and `num`, `index1` and `index2` its variables.
pub data Pc : Type 0 where
  arriving : Pc  -- before `pthread_barrier_wait`
  waits : Pc  -- in it
  fetching : (i : ℕ) → Pc  -- before `num = sig[threadId]`
  locking1 : (i num : ℕ) → Pc  -- before `lockItem(index1)`
  reading1 : (i index1 num : ℕ) → Pc  -- before `m[index1].value` is read
  unlocking1 : (i index1 num : ℕ) → Pc  -- before `unlockItem(index1)`
  locking2 : (i num : ℕ) → Pc  -- before `lockItem(index2)`
  reading2 : (i index2 num : ℕ) → Pc  -- before `m[index2].value` is read
  storing : (i index2 num value : ℕ) → Pc  -- before `m[index2].value = mix(num, value)`
  unlocking2 : (i index2 num : ℕ) → Pc  -- before `unlockItem(index2)`
  saving : (i num : ℕ) → Pc  -- before `sig[threadId] = num`
  ended : Pc

-- The test `i < MaxLoop`.
unfoldable pub next_round : ℕ → ℕ → Pc
next_round max_loop i = if ltb i max_loop then fetching i else ended

-- `lockItem(index)`; a thread that finds the mutex taken waits.
abbrev pub lock_item : Shared → ℕ → ℕ → Pc → Option ℕ → Turn Shared Pc
lock_item s tid index next none =
    moved (record s { locks = update s.locks (index % nlock) (some tid) }) next
lock_item s tid index next (some holder) = waiting

-- `unlockItem(index)`.
abbrev pub unlock_item : Shared → ℕ → Shared
unlock_item s index = record s { locks = update s.locks (index % nlock) none }

-- A read into the local state.
abbrev pub read_to : Shared → (ℕ → Pc) → Option ℕ → Turn Shared Pc
read_to s next none = fault
read_to s next (some v) = moved s (next v)

-- A write to one of the arrays.
abbrev pub write_to : (List ℕ → Shared) → Pc → Option (List ℕ) → Turn Shared Pc
write_to state next none = fault
write_to state next (some xs) = moved (state xs) next

unfoldable pub thread_body : ℕ → ℕ → Program Shared Pc
unfolding next_round mix
thread_body num_procs max_loop tid s arriving = moved (record s { arrivals = s.arrivals + 1 }) waits
thread_body num_procs max_loop tid s waits =
    if leb num_procs s.arrivals then moved s (next_round max_loop 0) else waiting
thread_body num_procs max_loop tid s (fetching i) =
    read_to s (λ num. locking1 i num) (get_elem? s.mem.sig tid)
thread_body num_procs max_loop tid s (locking1 i num) =
    let index1 = num % max_elem in
    lock_item s tid index1 (reading1 i index1 num) (s.locks (index1 % nlock))
thread_body num_procs max_loop tid s (reading1 i index1 num) =
    read_to s (λ v. unlocking1 i index1 (mix num v)) (get_elem? s.mem.m index1)
thread_body num_procs max_loop tid s (unlocking1 i index1 num) =
    moved (unlock_item s index1) (locking2 i num)
thread_body num_procs max_loop tid s (locking2 i num) =
    let index2 = num % max_elem in
    lock_item s tid index2 (reading2 i index2 num) (s.locks (index2 % nlock))
thread_body num_procs max_loop tid s (reading2 i index2 num) =
    read_to s (λ v. storing i index2 num v) (get_elem? s.mem.m index2)
thread_body num_procs max_loop tid s (storing i index2 num value) =
    let num' = mix num value in
    write_to (λ m'. record s { mem = record s.mem { m = m' } }) (unlocking2 i index2 num')
      (set? s.mem.m index2 num')
thread_body num_procs max_loop tid s (unlocking2 i index2 num) =
    moved (unlock_item s index2) (saving i num)
thread_body num_procs max_loop tid s (saving i num) =
    write_to (λ sig'. record s { mem = record s.mem { sig = sig' } }) (next_round max_loop (suc i))
      (set? s.mem.sig tid num)
thread_body num_procs max_loop tid s ended = halted

abbrev pub is_ended : Pc → Bool
is_ended ended = true
is_ended _ = false

-- All mutexes free, and no thread at the barrier.
abbrev pub boot : Memory → System Shared Pc
boot mem = record {
  shared = record { mem = mem; locks = λ k. none; arrivals = 0 };
  locals = λ i. arriving;
}

-- `main` sets up the barrier and the eight mutexes.
unfoldable pub main : Libc → List String → List ℕ → Outcome ℕ
unfolding parse_args run_main thread_body init_memory
main libc argv schedule = do
  config ← parse_args libc.atoi argv
  run_main (thread_body config.num_procs config.max_loop) is_ended (λ s. s.mem.sig)
      (boot init_memory) libc (1 + nlock) config.num_procs schedule
