-- ===== src/Gate/Main.antt =====
-- `main` over the threads behind the barrier.
use racey_suite.Prelude.{
  ℕ, ◌≤◌, ◌<◌, ◌≡◌, ◌≢◌, refl, inl, Bool, true, List, get_or, arith, ◌∙◌, ap, All-get_or,
}
use racey_suite.Outcome.{Outcome, returned, crashed}
use racey_suite.Machine.{System, Reach}
use racey_suite.Machine.Laws.{run_and_join_lem}
use racey_suite.Racey.{prime1}
use racey_suite.Racey.Signature.{signature_of, signature_of-lt, signature-eq-signature_of}
use racey_suite.Launch.{Libc, init_memory, run_main}
use racey_suite.Launch.Main.{
  Result, signs, aborts, runs_on, run_main-Result, run_main_signs, CallsSucceed,
  init_memory-IsMemory, init_memory_zero,
}
use racey_suite.Gate.{Shared, Pc, gate_step, boot, ended}
use racey_suite.Gate.Invariant.{Inv, Reach-Inv}
use racey_suite.Gate.Safety.{gate-IsSafe}
use racey_suite.Gate.Progress.{gate_can_join}

-- `main` of these programs, behind the command line.
abbrev pub gate_main : (ℕ → ℕ → Bool) → ℕ → Libc → ℕ → List ℕ → Outcome ℕ
gate_main rest max_loop libc n schedule =
    run_main (gate_step rest max_loop) ended (λ s. s.mem.sig) (boot init_memory n) libc 1 n schedule

module _ (rest : ℕ → ℕ → Bool) (max_loop : ℕ) (libc : Libc) (n : ℕ)
    (total_rest : (t i : ℕ) → rest t i ≡ true) (some_thread : 1 ≤ n) (few : n ≤ 32) where
  gate_main-Inv :
      {c : System Shared Pc}
      → Reach (gate_step rest max_loop) n (boot init_memory n) c
      → Inv n max_loop init_memory c
  gate_main-Inv r = Reach-Inv rest max_loop n init_memory total_rest few init_memory-IsMemory r

  gate_main-Result :
      (schedule : List ℕ)
      → Result
          (gate_step rest max_loop)
          ended
          (λ s. s.mem.sig)
          (boot init_memory n)
          libc
          1
          n
          (gate_main rest max_loop libc n schedule)
  gate_main-Result schedule =
      run_main-Result (gate_step rest max_loop) ended (λ s. s.mem.sig) (boot init_memory n) libc 1 n
        (λ c r. gate-IsSafe rest max_loop n init_memory total_rest few init_memory-IsMemory r)
        (λ c r. (gate_main-Inv r).memory.sigs) some_thread few schedule

  -- No schedule makes `main` access anything out of bounds.
  pub gate_main-ne-crashed : (schedule : List ℕ) → gate_main rest max_loop libc n schedule ≢ crashed
  gate_main-ne-crashed schedule e = elim (gate_main-Result schedule) [
    | signs c r done q ↦ cc
    | aborts q ↦ cc
    | runs_on q ↦ cc
  ]

  -- With one processor the signature is 0.
  pub gate_main_one_proc :
      (schedule : List ℕ) (v : ℕ)
      → n ≡ 1
      → gate_main rest max_loop libc n schedule ≡ returned v
      → v ≡ 0
  gate_main_one_proc schedule v one e = elim (gate_main-Result schedule) [
    | aborts q ↦ cc
    | runs_on q ↦ cc
    | signs c r done q ↦
        let value = λ (k : ℕ). get_or c.shared.mem.sig k 0 in
        let signed : v ≡ signature_of n value = cc in
        let first : value 0 ≡ 0 = (gate_main-Inv r).others 0 (inl refl) ∙ init_memory_zero in
        signed ∙ ap (λ k. signature_of k value) one ∙ first
  ]

  -- Some schedule brings `main` to a signature.
  pub gate_main_can_return :
      CallsSucceed libc
      → (schedule : List ℕ) × (v : ℕ) × (gate_main rest max_loop libc n schedule ≡ returned v)
        × (v < prime1)
  gate_main_can_return ok =
      let (schedule, s, e) =
        gate_can_join rest max_loop n init_memory total_rest few init_memory-IsMemory in
      let (c, r, done, same) = run_and_join_lem (gate_step rest max_loop) ended n schedule _ e in
      let inv = gate_main-Inv r in
      let value = λ (k : ℕ). get_or s.mem.sig k 0 in
      (
        schedule,
        signature_of n value,
        run_main_signs (gate_step rest max_loop) ended (λ s. s.mem.sig) (boot init_memory n) libc 1
              n ok schedule s e
            ∙ signature-eq-signature_of n s.mem.sig some_thread
                (rw (← same) (omega (arith, inv.memory.sigs))),
        signature_of-lt n value (
            rw (← same) (
              All-get_or (λ x. x < prime1) c.shared.mem.sig 0 0 inv.memory.small_sig
                (omega arith))),
      )
