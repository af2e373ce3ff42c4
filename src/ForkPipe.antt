-- ===== src/ForkPipe.antt =====
-- racey-forkpipe.c: a reader and a writer process for each of NumProcs pipes, and `main`, which
-- waits for them and reads their results from the output pipes.
pub mod Main
use racey_suite.Prelude.{ℕ, suc, ◌-◌, ◌*◌, ℤ, List, String}
use racey_suite.Outcome.{Outcome, returned, ◌>>=◌, ◌>>◌}
use racey_suite.Machine.{Program, run_and_join}
use racey_suite.Launch.{parse_args}
use racey_suite.ForkMmap.{ProcessCalls, fork_all, wait_all}
use racey_suite.Pipe.{Shared, Pc, forked, is_ended, pipe_step, boot, open_pipes, pipe_signature}

-- The results of the calls of `main`.
pub record PipeCalls : Type 0 where
  pub calls : ProcessCalls
  -- what the k-th `pipe` returns
  pub pipe : ℕ → ℤ
  -- how many `int` a pipe holds
  pub capacity : ℕ

-- The processes: process 2 t - 1 reads pipe t, process 2 t is writer t.
unfoldable pub process_body : ℕ → ℕ → ℕ → Program Shared Pc
unfolding pipe_step
process_body capacity num_procs max_loop = pipe_step forked capacity num_procs max_loop

-- `main` behind the command line. The turns of `schedule` are those of the processes, and of `main`
-- itself when it closes its ends of the pipes.
unfoldable pub run_processes : PipeCalls → ℕ → ℕ → List ℕ → Outcome ℕ
unfolding open_pipes fork_all wait_all run_and_join process_body pipe_signature
run_processes io num_procs max_loop schedule = do
  open_pipes io.pipe 1 num_procs
  pids ← fork_all io.calls 1 (2 * num_procs)
  last ←
      run_and_join (process_body io.capacity num_procs max_loop) is_ended (suc (2 * num_procs))
        schedule (boot forked num_procs)
  wait_all io.calls pids (2 * num_procs) 1 (2 * num_procs)
  pipe_signature forked num_procs last

unfoldable pub main : PipeCalls → List String → List ℕ → Outcome ℕ
unfolding parse_args run_processes
main io argv schedule = do
  config ← parse_args io.calls.atoi argv
  run_processes io config.num_procs config.max_loop schedule
