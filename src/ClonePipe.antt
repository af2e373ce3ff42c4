-- ===== src/ClonePipe.antt =====
-- racey-clonepipe.c: the same readers and writers as threads, which `main` joins: first the writers,
-- then, when it has closed the write ends, the readers.
pub mod Main
use racey_suite.Prelude.{ℕ, suc, ◌*◌, ℤ, Bool, true, List, String}
use racey_suite.Outcome.{Outcome, returned, crashed, ◌>>=◌, ◌>>◌}
use racey_suite.Machine.{Program, run_and_join}
use racey_suite.Launch.{Libc, parse_args, assert_each}
use racey_suite.ForkMmap.{non_null}
use racey_suite.Pipe.{Shared, Pc, cloned, is_ended, pipe_step, boot, open_pipes, pipe_signature}

-- The results of the calls of `main`; `calls.malloc` are those of `calloc`.
pub record ThreadCalls : Type 0 where
  pub calls : Libc
  -- what the k-th `pipe` returns
  pub pipe : ℕ → ℤ
  -- how many `int` a pipe holds
  pub capacity : ℕ

-- The threads, with the same numbers.
unfoldable pub thread_body : ℕ → ℕ → ℕ → Program Shared Pc
unfolding pipe_step
thread_body capacity num_procs max_loop = pipe_step cloned capacity num_procs max_loop

-- `main` behind the command line: `tids` and `threads` are written to when the first thread is
-- created. A failed join aborts the process whatever is left to do.
unfoldable pub run_threads : ThreadCalls → ℕ → ℕ → List ℕ → Outcome ℕ
unfolding open_pipes assert_each run_and_join thread_body pipe_signature
run_threads io num_procs max_loop schedule = do
  open_pipes io.pipe 1 num_procs
  non_null (io.calls.malloc 0)
  non_null (io.calls.malloc 1)
  assert_each io.calls.create 1 (2 * num_procs)
  last ←
      run_and_join (thread_body io.capacity num_procs max_loop) is_ended (suc (2 * num_procs))
        schedule (boot cloned num_procs)
  assert_each io.calls.join 1 (2 * num_procs)
  pipe_signature cloned num_procs last

unfoldable pub main : ThreadCalls → List String → List ℕ → Outcome ℕ
unfolding parse_args run_threads
main io argv schedule = do
  config ← parse_args io.calls.atoi argv
  run_threads io config.num_procs config.max_loop schedule
