-- ===== src/Gate.antt =====
-- The threads of racey-basic, racey-freqsyscall and racey-mmaptmpfile: a barrier made of a counter
-- under a mutex and a busy wait, and then the main loop. Each constructor of `Pc` is a point
-- between two accesses to shared memory.
pub mod Move
pub mod Invariant
pub mod Safety
pub mod Progress
pub mod Main
use racey_suite.Prelude.{ℕ, zero, Bool, true, false, Option, none, some, ◌==◌, decrement}
use racey_suite.Prelude.{if◌then◌else◌}
use racey_suite.Machine.{Turn, moved, waiting, halted, fault, Program, System}
use racey_suite.Racey.{Memory}
use racey_suite.Loop.{Loop, next_round, loop_step}
use racey_suite.Loop.Laws.{is_done}

pub record Shared : Type 0 where
  pub mem : Memory
  pub start_counter : ℕ
  -- the holder of `threadLock`
  pub owner : Option ℕ

pub data Pc : Type 0 where
  arriving : Pc  -- before `pthread_mutex_lock`
  entering : Pc  -- before `startCounter--` reads
  counting : (counter : ℕ) → Pc  -- before `startCounter--` writes
  testing : Pc  -- before `if(startCounter == 0)`, whose branch is empty
  releasing : Pc  -- before `pthread_mutex_unlock`
  spinning : Pc  -- in `while(startCounter)`
  inside : Loop → Pc  -- in the main loop

abbrev pub lift_loop : Shared → Turn Memory Loop → Turn Shared Pc
lift_loop s (moved mem l) = moved (record s { mem = mem }) (inside l)
lift_loop s waiting = waiting
lift_loop s halted = halted
lift_loop s fault = fault

abbrev pub acquire : Shared → ℕ → Option ℕ → Turn Shared Pc
acquire s tid none = moved (record s { owner = some tid }) entering
acquire s tid (some holder) = waiting

unfoldable pub gate_step : (ℕ → ℕ → Bool) → ℕ → Program Shared Pc
unfolding loop_step next_round
gate_step rest max_loop tid s arriving = acquire s tid s.owner
gate_step rest max_loop tid s entering = moved s (counting s.start_counter)
gate_step rest max_loop tid s (counting counter) =
    moved (record s { start_counter = decrement counter }) testing
gate_step rest max_loop tid s testing = moved s releasing
gate_step rest max_loop tid s releasing = moved (record s { owner = none }) spinning
gate_step rest max_loop tid s spinning =
    if s.start_counter == 0 then moved s (inside (next_round max_loop 0)) else moved s spinning
gate_step rest max_loop tid s (inside l) = lift_loop s (loop_step (rest tid) max_loop tid s.mem l)

abbrev pub ended : Pc → Bool
ended (inside l) = is_done l
ended _ = false

-- `startCounter = NumProcs`, the mutex free and no thread started.
abbrev pub boot : Memory → ℕ → System Shared Pc
boot mem num_procs = record {
  shared = record { mem = mem; start_counter = num_procs; owner = none };
  locals = λ i. arriving;
}
