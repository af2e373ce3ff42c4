-- ===== src/Signal/Live.antt =====
-- Some thread of racey-signal.c can always come nearer to its end.
use mathlib.Core.Path.{subst}
use racey_suite.Prelude.{
  ℕ, ◌*◌, ◌≤◌, ◌≡◌, refl, false, arith, sym, ap, total, total_missing, total_const, total-add,
  dec_le,
}
use racey_suite.Machine.{System, all_ended}
use racey_suite.Machine.Liveness.{all_ended-eq-false}
use racey_suite.Signal.{
  Shared, Pc, storing_self, installing, arriving, passing, leaving, ended, delivering, is_ended,
}
use racey_suite.Signal.Invariant.{Inv, kernel, came, back, inside, returned_to}
use racey_suite.Signal.Progress.{Progress, Ready, moves_on}

module _ {n : ℕ} {c : System Shared Pc} (inv : Inv n c) (some_thread : 1 ≤ n) (few : n ≤ 32)
    (max_loop : ℕ) where
  abbrev Goal : Type 0
  Goal = Progress inv some_thread few max_loop

  -- Threads that have not come to the barrier, or not a second time, go on.
  early_moves : (j : ℕ) → 1 ≤ j → j ≤ 2 * n → came (c.locals j) ≡ 0 → Goal
  early_moves j l h e = moves_on inv some_thread few max_loop j l h (early (c.locals j) e)
    where
      early : (p : Pc) → came p ≡ 0 → Ready inv some_thread few max_loop j l h p
      early storing_self e = tt
      early installing e = tt
      early arriving e = tt
      early p e = ground arith

  busy_moves : (j : ℕ) → 1 ≤ j → j ≤ 2 * n → back (c.locals j) ≡ 0 → n ≤ c.shared.arrived → Goal
  busy_moves j l h e open_gate = moves_on inv some_thread few max_loop j l h (late (c.locals j) e)
    where
      late : (p : Pc) → back p ≡ 0 → Ready inv some_thread few max_loop j l h p
      late passing e = open_gate
      late leaving e = ground arith
      late ended e = ground arith
      late delivering e = ground arith
      late p e = tt

  -- The kernel counts as NumProcs threads that have come back.
  kernel_back : n ≤ total back (2 * n) c.locals
  kernel_back =
      omega
        (arith, inv.kernels, total-add back returned_to kernel (λ p. ground arith) (2 * n) c.locals)

  passing_moves : (i : ℕ) → 1 ≤ i → i ≤ 2 * n → c.locals i ≡ passing → Goal
  passing_moves i l h here = elim (dec_le n c.shared.arrived) [
    | yes enough ↦
        moves_on inv some_thread few max_loop i l h
          (subst (Ready inv some_thread few max_loop i l h) (sym here) enough)
    | no few_yet ↦
        let (j, a, b, e) =
          total_missing came (λ p. ground arith) (2 * n) c.locals
            (omega (arith, inv.counted, kernel_back)) in
        early_moves j a b e
  ]

  leaving_moves : (i : ℕ) → 1 ≤ i → i ≤ 2 * n → c.locals i ≡ leaving → Goal
  leaving_moves i l h here = elim (dec_le (2 * n) c.shared.arrived) [
    | yes enough ↦
        moves_on inv some_thread few max_loop i l h
          (subst (Ready inv some_thread few max_loop i l h) (sym here) enough)
    | no few_yet ↦
        let all_in : total came (2 * n) c.locals ≡ 2 * n * 1 =
          total_const came (2 * n) c.locals 1 (λ j a b. inv.opened i l h (ap inside here) j a b) in
        let (j, a, b, e) =
          total_missing back (λ p. ground arith) (2 * n) c.locals
            (omega (arith, inv.counted, all_in)) in
        busy_moves j a b e (omega (arith, inv.counted, all_in, kernel_back))
  ]

  live_moves : (i : ℕ) → 1 ≤ i → i ≤ 2 * n → (p : Pc) → c.locals i ≡ p → is_ended p ≡ false → Goal
  live_moves i l h passing here e = passing_moves i l h here
  live_moves i l h leaving here e = leaving_moves i l h here
  live_moves i l h ended here e = cc
  live_moves i l h delivering here e = cc
  live_moves i l h p here e =
      moves_on inv some_thread few max_loop i l h
        (subst (Ready inv some_thread few max_loop i l h) (sym here) tt)

  -- Until all threads have ended, one of them makes progress.
  pub goes_on : all_ended is_ended (2 * n) c.locals ≡ false → Goal
  goes_on e =
      let (i, l, h, live) = all_ended-eq-false is_ended (2 * n) c.locals e in
      live_moves i l h (c.locals i) refl live
