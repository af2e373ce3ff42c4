-- ===== src/ClonePipe/Main.antt =====
-- What `main` of racey-clonepipe.c comes to.
use racey_suite.Prelude.{ℕ, suc, ◌*◌, ◌≤◌, ◌≡◌, refl, pos, List, String, ◌∙◌}
use racey_suite.Outcome.{returned, ◌>>=◌}
use racey_suite.Machine.{run_and_join}
use racey_suite.Launch.{Config}
use racey_suite.Launch.Args.{Accepts, Accepts_bounds, parse_args->>=}
use racey_suite.Launch.Main
use racey_suite.Pipe.{cloned, is_ended, pipe_step, boot, pipe_signature}
use racey_suite.Pipe.Result.{run_can_return, open_pipes_lem}
use racey_suite.ClonePipe.{ThreadCalls, thread_body, run_threads, main}

-- Calls that succeed.
pub record CallsSucceed (io : ThreadCalls) : Type 0 where
  pub opens : (k : ℕ) → (r : ℕ) × (io.pipe k ≡ pos r)
  pub others : Main.CallsSucceed io.calls

module _ (io : ThreadCalls) (ok : CallsSucceed io) where
  -- When the calls succeed, what is left is the run of the threads and the signature.
  run_threads_lem :
      (n max_loop : ℕ) (schedule : List ℕ)
      → run_threads io n max_loop schedule ≡ (
          run_and_join
            (pipe_step cloned io.capacity n max_loop)
            is_ended
            (suc (2 * n))
            schedule
            (boot cloned n)
          >>= λ last. pipe_signature cloned n last)
  unfolding run_threads thread_body
  run_threads_lem n max_loop schedule =
      rw
        (
          open_pipes_lem io.pipe 1 n ok.opens,
          ok.others.allocates 0,
          ok.others.allocates 1,
          Main.assert_each-eq-returned io.calls.create ok.others.creates 1 (2 * n),
          Main.assert_each-eq-returned io.calls.join ok.others.joins 1 (2 * n),
        )
        refl

  -- If the calls succeed, the command line is accepted and a pipe has room for the 16 values of a
  -- write, then under some schedule racey-clonepipe prints a signature.
  clonepipe_main_can_return :
      (argv : List String) (c : Config)
      → Accepts io.calls.atoi argv c
      → 16 ≤ io.capacity
      → (schedule : List ℕ) × (v : ℕ) × (main io argv schedule ≡ returned v)
  unfolding main
  clonepipe_main_can_return argv c accepted room =
      let (low, high, loops) = Accepts_bounds accepted in
      let (is, v, e) = run_can_return cloned io.capacity c.num_procs c.max_loop low high room in
      (is, v, parse_args->>= _ accepted ∙ run_threads_lem c.num_procs c.max_loop is ∙ e)
