-- ===== src/Tests/Pipes.antt =====
-- One reader and one writer over a pipe, and the two programs on a command line for them.
use racey_suite.Prelude.{ℕ, ◌*◌, ◌≡◌, refl, pos, true, List, [], arith, ℕ_discrete}
use racey_suite.Machine.{System, Reach, start, run, all_ended}
use racey_suite.Machine.Laws.{run-Reach}
use racey_suite.Launch.{Config}
use racey_suite.Launch.Args.{Accepts, with_loops}
use racey_suite.Pipe.{forked, Shared, Pc, pipe_step, boot, is_ended}
use racey_suite.Pipe.Role.{is_past}
use racey_suite.Pipe.Result.{pipe_drained, pipe_no_deadlock, PipeResult}
use racey_suite.ForkPipe
use racey_suite.ForkPipe.{PipeCalls}
use racey_suite.ForkPipe.Main.{forkpipe_main-PipeResult}
use racey_suite.ClonePipe
use racey_suite.ClonePipe.{ThreadCalls}
use racey_suite.Tests.{libc_with, with_max, turns, reached}

-- The reader closes its ends, the writer writes once and ends, `main` closes its ends, and the
-- reader reads twice.
abbrev pipe_turns : List ℕ
pipe_turns = turns 2 1 (turns 3 2 (turns 1 3 (turns 2 1 [])))

abbrev past_state : System Shared Pc
past_state = reached (run (pipe_step forked 16 1 1) 3 pipe_turns (boot forked 1)) (boot forked 1)

past_state-Reach : Reach (pipe_step forked 16 1 1) 3 (boot forked 1) past_state
unfolding run pipe_step ℕ_discrete
past_state-Reach =
    run-Reach (pipe_step forked 16 1 1) 3 pipe_turns (boot forked 1) past_state start refl

past_state_past : is_past (past_state.locals 1) ≡ true
unfolding run pipe_step ℕ_discrete
past_state_past = refl

pipe_drained_example : (past_state.shared.writers ≡ 0) × (past_state.shared.inputs 1 ≡ [])
pipe_drained_example =
    pipe_drained forked 16 1 1 (omega arith) (omega arith) past_state past_state-Reach 1
      (omega arith) (omega arith) past_state_past

pipe_no_deadlock_example :
    (d : System Shared Pc) × Reach (pipe_step forked 16 1 1) 3 past_state d
    × (all_ended is_ended 3 d.locals ≡ true)
pipe_no_deadlock_example =
    pipe_no_deadlock forked 16 1 1 (omega arith) (omega arith) (omega arith) past_state
      past_state-Reach

abbrev processes : PipeCalls
processes = record {
  calls = record {
    atoi = λ s. pos 1;
    calloc_succeeds = true;
    mmap_succeeds = true;
    fork = λ i. pos (100 * i);
    wait = λ k. pos 100;
  };
  pipe = λ k. pos 0;
  capacity = 16;
}

processes-CallsSucceed : ForkPipe.Main.CallsSucceed processes
processes-CallsSucceed = record {
  allocates = refl;
  opens = λ k. (0, refl);
  forks = λ k. (100 * k, refl);
}

abbrev one_loop : Config
one_loop = record { num_procs = 1; max_loop = 1 }

one_loop-Accepts : Accepts (λ s. pos 1) with_max one_loop
one_loop-Accepts =
    with_loops "racey" "2" "2" [] 1 1 refl (omega arith) (omega arith) refl (omega arith)

forkpipe_main-PipeResult_example :
    PipeResult forked 16 1 1 (ForkPipe.main processes with_max pipe_turns)
forkpipe_main-PipeResult_example =
    forkpipe_main-PipeResult processes processes-CallsSucceed with_max one_loop one_loop-Accepts
      pipe_turns

abbrev threads : ThreadCalls
threads = record { calls = libc_with 1; pipe = λ k. pos 0; capacity = 16 }
