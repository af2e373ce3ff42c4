-- ===== src/Guarded/Main.antt =====
-- What `main` of racey-guarded.c comes to.
use racey_suite.Prelude.{ℕ, ◌+◌, ◌≤◌, ◌<◌, ◌≡◌, ◌≢◌, List, String, get_or, arith, ◌∙◌, All-get_or}
use racey_suite.Outcome.{returned, crashed}
use racey_suite.Machine.{System, Reach}
use racey_suite.Machine.Laws.{run_and_join_lem}
use racey_suite.Racey.{prime1}
use racey_suite.Racey.Signature.{signature_of, signature_of-lt, signature-eq-signature_of}
use racey_suite.Launch.{Libc, Config, init_memory, run_main}
use racey_suite.Launch.Args.{Accepts, Accepts_bounds, parse_args-ne-crashed, parse_args->>=}
use racey_suite.Launch.Main.{
  signs, aborts, runs_on, run_main-Result, run_main_signs, CallsSucceed, init_memory-IsMemory,
}
use racey_suite.Guarded.{Shared, Pc, nlock, thread_body, is_ended, boot, main}
use racey_suite.Guarded.Held.{Inv}
use racey_suite.Guarded.Invariant.{Reach-Inv, guarded-IsSafe}
use racey_suite.Guarded.Progress.{guarded_can_join}

module _ (libc : Libc) (n max_loop : ℕ) (some_thread : 1 ≤ n) (few : n ≤ 32) where
  run-Inv :
      {c : System Shared Pc}
      → Reach (thread_body n max_loop) n (boot init_memory) c
      → Inv n max_loop c
  run-Inv r = Reach-Inv n max_loop init_memory few init_memory-IsMemory r

  run-ne-crashed :
      (schedule : List ℕ)
      → run_main
          (thread_body n max_loop)
          is_ended
          (λ s. s.mem.sig)
          (boot init_memory)
          libc
          (1 + nlock)
          n
          schedule
        ≢ crashed
  run-ne-crashed schedule e =
      elim (run_main-Result (thread_body n max_loop) is_ended (λ s. s.mem.sig) (boot init_memory)
        libc (1 + nlock) n (guarded-IsSafe n max_loop init_memory few init_memory-IsMemory)
        (λ c r. (run-Inv r).memory.sigs) some_thread few schedule) [
          | signs c r over q ↦ cc
          | aborts q ↦ cc
          | runs_on q ↦ cc
        ]

  run_can_return :
      CallsSucceed libc
      → (schedule : List ℕ) × (v : ℕ) × (run_main
            (thread_body n max_loop)
            is_ended
            (λ s. s.mem.sig)
            (boot init_memory)
            libc
            (1 + nlock)
            n
            schedule
          ≡ returned v)
        × (v < prime1)
  run_can_return ok =
      let (schedule, s, e) = guarded_can_join n max_loop init_memory few init_memory-IsMemory in
      let (c, r, over, same) = run_and_join_lem (thread_body n max_loop) is_ended n schedule _ e in
      let inv = run-Inv r in
      let value = λ (k : ℕ). get_or s.mem.sig k 0 in
      (
        schedule,
        signature_of n value,
        run_main_signs (thread_body n max_loop) is_ended (λ s. s.mem.sig) (boot init_memory) libc
              (1 + nlock) n ok schedule s e
            ∙ signature-eq-signature_of n s.mem.sig some_thread
                (rw (← same) (omega (arith, inv.memory.sigs))),
        signature_of-lt n value (
            rw (← same) (
              All-get_or (λ x. x < prime1) c.shared.mem.sig 0 0 inv.memory.small_sig
                (omega arith))),
      )

-- Whatever the command line, the results of the library calls and the schedule, racey-guarded
-- never makes an access out of bounds.
guarded_main-ne-crashed :
    (libc : Libc) (argv : List String) (schedule : List ℕ) → main libc argv schedule ≢ crashed
unfolding main
guarded_main-ne-crashed libc argv schedule = parse_args-ne-crashed libc.atoi argv _ λ c a.
    let (low, high, loops) = Accepts_bounds a in
    run-ne-crashed libc c.num_procs c.max_loop low high schedule

-- For every accepted command line, if the library calls succeed, there is a schedule under which
-- racey-guarded ends and prints a signature, and that signature is below PRIME1.
guarded_main_can_return :
    (libc : Libc) (argv : List String) (c : Config)
    → Accepts libc.atoi argv c
    → CallsSucceed libc
    → (schedule : List ℕ) × (v : ℕ) × (main libc argv schedule ≡ returned v) × (v < prime1)
unfolding main
guarded_main_can_return libc argv c a ok =
    let (low, high, loops) = Accepts_bounds a in
    let (schedule, v, e, small) = run_can_return libc c.num_procs c.max_loop low high ok in
    (schedule, v, parse_args->>= _ a ∙ e, small)
