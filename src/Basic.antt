-- ===== src/Basic.antt =====
-- racey-basic.c. The loop that seizes the processor and the messages have no effect on the state.
pub mod Main
use racey_suite.Prelude.{ℕ, Bool, true, List, String}
use racey_suite.Outcome.{Outcome, ◌>>=◌}
use racey_suite.Machine.{Program}
use racey_suite.Launch.{Libc, parse_args, run_main, init_memory}
use racey_suite.Gate.{Shared, Pc, gate_step, boot, ended}

-- Nothing follows `sig[threadId] = num` in an iteration.
unfoldable pub thread_body : ℕ → Program Shared Pc
unfolding gate_step
thread_body max_loop = gate_step (λ tid i. true) max_loop

unfoldable pub main : Libc → List String → List ℕ → Outcome ℕ
unfolding parse_args run_main thread_body init_memory
main libc argv schedule = do
  config ← parse_args libc.atoi argv
  run_main (thread_body config.max_loop) ended (λ s. s.mem.sig) (boot init_memory config.num_procs)
      libc 1 config.num_procs schedule
