-- ===== src/Free/Main.antt =====
-- `main` over threads that go straight into the main loop.
use racey_suite.Prelude.{ℕ, ◌≤◌, ◌<◌, ◌≡◌, ◌≢◌, List, get_or, arith, ◌∙◌, All-get_or}
use racey_suite.Outcome.{Outcome, returned, crashed}
use racey_suite.Machine.{System, Reach}
use racey_suite.Machine.Laws.{run_and_join_lem}
use racey_suite.Racey.{Memory, prime1}
use racey_suite.Racey.Signature.{signature_of, signature_of-lt, signature-eq-signature_of}
use racey_suite.Launch.{Libc, init_memory, run_main}
use racey_suite.Launch.Main.{
  Result, signs, aborts, runs_on, run_main-Result, run_main_signs, CallsSucceed,
  init_memory-IsMemory,
}
use racey_suite.Loop.Laws.{is_done}
use racey_suite.Free.{free_step, boot}
use racey_suite.Free.Invariant.{Inv, Reach-Inv, free-IsSafe, free_can_join}

-- `main` of these programs, behind the command line; it sets up no lock and no barrier.
abbrev pub free_main : ℕ → Libc → ℕ → List ℕ → Outcome ℕ
free_main max_loop libc n schedule =
    run_main (free_step max_loop) is_done (λ s. s.sig) (boot init_memory max_loop) libc 0 n schedule

module _ (max_loop : ℕ) (libc : Libc) (n : ℕ) (some_thread : 1 ≤ n) (few : n ≤ 32) where
  free_main-Inv :
      {c : System Memory _}
      → Reach (free_step max_loop) n (boot init_memory max_loop) c
      → Inv n max_loop init_memory c
  free_main-Inv r = Reach-Inv max_loop n init_memory few init_memory-IsMemory r

  free_main-Result :
      (schedule : List ℕ)
      → Result
          (free_step max_loop)
          is_done
          (λ s. s.sig)
          (boot init_memory max_loop)
          libc
          0
          n
          (free_main max_loop libc n schedule)
  free_main-Result schedule =
      run_main-Result (free_step max_loop) is_done (λ s. s.sig) (boot init_memory max_loop) libc 0 n
        (free-IsSafe max_loop n init_memory few init_memory-IsMemory)
        (λ c r. (free_main-Inv r).memory.sigs) some_thread few schedule

  -- No schedule makes `main` access anything out of bounds.
  pub free_main-ne-crashed : (schedule : List ℕ) → free_main max_loop libc n schedule ≢ crashed
  free_main-ne-crashed schedule e = elim (free_main-Result schedule) [
    | signs c r done q ↦ cc
    | aborts q ↦ cc
    | runs_on q ↦ cc
  ]

  -- Some schedule brings `main` to a signature.
  pub free_main_can_return :
      CallsSucceed libc
      → (schedule : List ℕ) × (v : ℕ) × (free_main max_loop libc n schedule ≡ returned v)
        × (v < prime1)
  free_main_can_return ok =
      let (schedule, s, e) = free_can_join max_loop n init_memory few init_memory-IsMemory in
      let (c, r, done, same) = run_and_join_lem (free_step max_loop) is_done n schedule _ e in
      let inv = free_main-Inv r in
      let value = λ (k : ℕ). get_or s.sig k 0 in
      (
        schedule,
        signature_of n value,
        run_main_signs (free_step max_loop) is_done (λ s. s.sig) (boot init_memory max_loop) libc 0
              n ok schedule s e
            ∙ signature-eq-signature_of n s.sig some_thread
                (rw (← same) (omega (arith, inv.memory.sigs))),
        signature_of-lt n value (
            rw (← same)
              (All-get_or (λ x. x < prime1) c.shared.sig 0 0 inv.memory.small_sig (omega arith))),
      )
