-- ===== src/ForkPipe/Main.antt =====
-- What `main` of racey-forkpipe.c comes to.
use racey_suite.Prelude.{ℕ, suc, ◌*◌, ◌≤◌, ◌≡◌, refl, pos, true, List, String, arith, ◌∙◌}
use racey_suite.Outcome.{returned, ◌>>=◌}
use racey_suite.Machine.{run_and_join}
use racey_suite.Launch.{Config}
use racey_suite.Launch.Args.{Accepts, Accepts_bounds, parse_args->>=}
use racey_suite.ForkMmap.Calls.{fork_all_returns, wait_all_lem}
use racey_suite.Pipe.{forked, is_ended, pipe_step, boot, pipe_signature}
use racey_suite.Pipe.Result.{PipeResult, run-PipeResult, run_can_return, open_pipes_lem}
use racey_suite.ForkPipe.{PipeCalls, process_body, run_processes, main}

-- Calls that succeed.
pub record CallsSucceed (io : PipeCalls) : Type 0 where
  pub allocates : io.calls.calloc_succeeds ≡ true
  pub opens : (k : ℕ) → (r : ℕ) × (io.pipe k ≡ pos r)
  pub forks : (k : ℕ) → (pid : ℕ) × (io.calls.fork k ≡ pos pid)

module _ (io : PipeCalls) (ok : CallsSucceed io) where
  -- When the calls succeed, what is left is the run of the processes and the signature.
  run_processes_lem :
      (n max_loop : ℕ) (schedule : List ℕ)
      → run_processes io n max_loop schedule ≡ (
          run_and_join
            (pipe_step forked io.capacity n max_loop)
            is_ended
            (suc (2 * n))
            schedule
            (boot forked n)
          >>= λ last. pipe_signature forked n last)
  unfolding run_processes process_body
  run_processes_lem n max_loop schedule =
      let (pids, e, size) = fork_all_returns io.calls ok.allocates 1 (2 * n) ok.forks in
      rw
        (
          open_pipes_lem io.pipe 1 n ok.opens,
          e,
          wait_all_lem io.calls pids (2 * n) 1 (2 * n) (omega (arith, size)),
        )
        refl

  -- If the calls succeed and the command line is accepted, then under every schedule racey-forkpipe
  -- either prints the signature over the results that the readers sent, read from a state in which
  -- all processes have ended, or is still running: it never finds an output pipe empty.
  pub forkpipe_main-PipeResult :
      (argv : List String) (c : Config) (accepted : Accepts io.calls.atoi argv c)
      (schedule : List ℕ)
      → PipeResult forked io.capacity c.num_procs c.max_loop (main io argv schedule)
  unfolding main
  forkpipe_main-PipeResult argv c accepted schedule =
      let (low, high, loops) = Accepts_bounds accepted in
      rw (parse_args->>= _ accepted, run_processes_lem c.num_procs c.max_loop schedule)
        (run-PipeResult forked io.capacity c.num_procs c.max_loop low high schedule)

  -- If the calls succeed, the command line is accepted and a pipe has room for the 16 values of a
  -- write, then under some schedule racey-forkpipe prints a signature.
  forkpipe_main_can_return :
      (argv : List String) (c : Config)
      → Accepts io.calls.atoi argv c
      → 16 ≤ io.capacity
      → (schedule : List ℕ) × (v : ℕ) × (main io argv schedule ≡ returned v)
  unfolding main
  forkpipe_main_can_return argv c accepted room =
      let (low, high, loops) = Accepts_bounds accepted in
      let (is, v, e) = run_can_return forked io.capacity c.num_procs c.max_loop low high room in
      (is, v, parse_args->>= _ accepted ∙ run_processes_lem c.num_procs c.max_loop is ∙ e)
