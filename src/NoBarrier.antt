-- ===== src/NoBarrier.antt =====
-- racey-nobarrier.c: as racey-basic.c, with no barrier in front of the main loop. `startCounter`
-- is set and never read.
pub mod Main
use racey_suite.Prelude.{ℕ, List, String}
use racey_suite.Outcome.{Outcome, ◌>>=◌}
use racey_suite.Machine.{Program}
use racey_suite.Racey.{Memory}
use racey_suite.Loop.{Loop, loop_step}
use racey_suite.Loop.Laws.{is_done}
use racey_suite.Launch.{Libc, parse_args, run_main, init_memory}
use racey_suite.Free.{free_step, boot}

-- The threads begin at the main loop.
unfoldable pub thread_body : ℕ → Program Memory Loop
unfolding loop_step
thread_body max_loop = free_step max_loop

unfoldable pub main : Libc → List String → List ℕ → Outcome ℕ
unfolding parse_args run_main thread_body boot init_memory
main libc argv schedule = do
  config ← parse_args libc.atoi argv
  run_main (thread_body config.max_loop) is_done (λ s. s.sig) (boot init_memory config.max_loop)
      libc 0 config.num_procs schedule
