-- ===== src/Freqsyscall.antt =====
-- racey-freqsyscall.c: as racey-basic.c, with system calls at the end of an iteration. `getuid`
-- has no effect.
pub mod Main
use racey_suite.Prelude.{
  ℕ, zero, suc, ◌/◌, ◌%◌, ◌==◌, Bool, true, false, List, String, if◌then◌else◌,
}
use racey_suite.Outcome.{Outcome, ◌>>=◌}
use racey_suite.Machine.{Program}
use racey_suite.Launch.{Libc, parse_args, run_main, init_memory}
use racey_suite.Gate.{Shared, Pc, gate_step, boot, ended}

-- Whether the end of iteration `i` is passed: `if (i % (MaxLoop/200) == 0)` divides by zero for
-- MaxLoop below 200, and the write `*x = 10` wants the mapping of this thread and iteration.
unfoldable pub stress_vm : (ℕ → ℕ → Bool) → ℕ → ℕ → ℕ → Bool
stress_vm mmap_succeeds max_loop tid i = elim (max_loop / 200) [
  | zero ↦ false
  | suc d ↦ if i % suc d == 0 then mmap_succeeds tid i else true
]

unfoldable pub thread_body : (ℕ → ℕ → Bool) → ℕ → Program Shared Pc
unfolding gate_step stress_vm
thread_body mmap_succeeds max_loop = gate_step (stress_vm mmap_succeeds max_loop) max_loop

unfoldable pub main : Libc → (ℕ → ℕ → Bool) → List String → List ℕ → Outcome ℕ
unfolding parse_args run_main thread_body init_memory
main libc mmap_succeeds argv schedule = do
  config ← parse_args libc.atoi argv
  run_main (thread_body mmap_succeeds config.max_loop) ended (λ s. s.mem.sig)
      (boot init_memory config.num_procs) libc 1 config.num_procs schedule
