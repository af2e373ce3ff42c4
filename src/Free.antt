-- ===== src/Free.antt =====
-- Threads that go straight into the main loop: racey-nobarrier, and the processes of
-- racey-forkmmap.
pub mod Invariant
pub mod Main
use racey_suite.Prelude.{ℕ, true}
use racey_suite.Machine.{Program, System}
use racey_suite.Racey.{Memory}
use racey_suite.Loop.{Loop, next_round, loop_step}

-- Nothing follows `sig[threadId] = num` in an iteration.
abbrev pub free_step : ℕ → Program Memory Loop
free_step max_loop = loop_step (λ i. true) max_loop

unfoldable pub boot : Memory → ℕ → System Memory Loop
unfolding next_round
boot mem max_loop = record { shared = mem; locals = λ i. next_round max_loop 0 }
