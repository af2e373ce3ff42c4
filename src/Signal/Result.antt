-- ===== src/Signal/Result.antt =====
-- What holds in every reachable state of racey-signal.c, and what its `main` comes to.
use mathlib.Core.Path.{subst}
use mathlib.Core.Bool.{false≢true}
use racey_suite.Prelude.{
  ℕ, zero, suc, ◌-◌, ◌*◌, ◌≤◌, ◌≡◌, refl, Bool, true, false, List, length, get_or,
  get_elem?-eq-get_or, arith, ◌∙◌, sym, ap, leb, if◌then◌else◌, total, total-suc, total_const,
}
use racey_suite.Outcome.{returned}
use racey_suite.Machine.{System, Step, pick, Reach, run_and_join, all_ended}
use racey_suite.Machine.Laws.{Reach_inv, IsSafe, run_and_join_lem}
use racey_suite.Racey.Signature.{fold_sigs, mix_sigs-eq-fold_sigs}
use racey_suite.Launch.Main.{init_memory-IsMemory}
use racey_suite.Signal.{
  Shared, Pc, storing_self, delivering, boot, signal_step, is_ended, signal_signature,
}
use racey_suite.Signal.Move.{IsPc, MoveOf}
use racey_suite.Signal.Invariant.{
  Inv, kernel, came, back, inside, has_self, has_handler, is_gone, role_of,
}
use racey_suite.Signal.Keeps.{Move-Inv}
use racey_suite.Machine.Liveness.{can_end_after, can_join_after}
use racey_suite.Signal.Progress.{left, work}
use racey_suite.Signal.Live.{goes_on}
use racey_suite.Signal.Safety.{turn-MoveOf}

module _ (n : ℕ) where
  module _ (tid : ℕ) where
    abbrev first_pc : Pc
    first_pc = if leb tid n then storing_self else delivering

    first-kernel : kernel first_pc ≡ role_of n tid
    first-kernel = ground arith

    first-out :
        (inside first_pc ≡ false)
        × (has_self first_pc ≡ false)
        × (has_handler first_pc ≡ false)
        × (is_gone first_pc ≡ false)
    first-out = ground arith

    first-IsPc : IsPc first_pc
    first-IsPc = legal (leb tid n)
      where
        legal : (b : Bool) → IsPc (if b then storing_self else delivering)
        legal true = tt
        legal false = tt

  -- A weight that the kernel alone has.
  total-first :
      (w : Pc → ℕ) → w storing_self ≡ 0 → w delivering ≡ 1 → (k : ℕ) → total w k first_pc ≡ k - n
  total-first w a b zero = omega (arith, total_const w 0 first_pc 0 (λ i l h. absurd (omega arith)))
  total-first w a b (suc k) = ground (arith, total-suc w k first_pc, total-first w a b k)

  pub boot-Inv : (sig2 : List ℕ) → length sig2 ≡ 33 → Inv n (boot n sig2)
  boot-Inv sig2 size = record {
    sizes = record { sigs = init_memory-IsMemory.sigs; cells = init_memory-IsMemory.cells };
    sizes2 = size;
    selfs = refl;
    counted = omega (arith, total-first came refl refl (2 * n), total-first back refl refl (2 * n));
    kernels = omega (arith, total-first kernel refl refl (2 * n));
    roles = λ i l h. first-kernel i;
    legal = first-IsPc;
    opened = λ i l h e. absurd (false≢true (sym (first-out i).0 ∙ e));
    stored = λ i l h e. absurd (false≢true (sym (first-out i).1 ∙ e));
    setup = λ i e. absurd (false≢true (sym (first-out i).2 ∙ e));
    pends = λ t e. cc;
    shut = λ t e. cc;
    gone = λ t e. absurd (false≢true (sym (first-out t).3 ∙ e));
    framed = λ t. tt;
  }

module _ (n max_loop : ℕ) (some_thread : 1 ≤ n) (few : n ≤ 32) (sig2 : List ℕ)
    (size : length sig2 ≡ 33) where
  abbrev pub Reachable : System Shared Pc → Type 0
  Reachable c = Reach (signal_step n max_loop) (2 * n) (boot n sig2) c

  Step-Inv :
      (c d : System Shared Pc) → Step (signal_step n max_loop) (2 * n) c d → Inv n c → Inv n d
  Step-Inv c d (pick i l h e) inv =
      Move-Inv inv few i l h (
        subst (MoveOf n i c.shared (c.locals i)) e (turn-MoveOf inv some_thread few max_loop i l h))

  Reach-Inv : {c : System Shared Pc} → Reachable c → Inv n c
  Reach-Inv = Reach_inv (signal_step n max_loop) (2 * n) (Inv n) Step-Inv (boot-Inv n sig2 size)

  -- No thread is about to make an access out of bounds.
  pub signal-IsSafe :
      (c : System Shared Pc) → Reachable c → IsSafe (signal_step n max_loop) (2 * n) c
  signal-IsSafe c r i l h e =
      subst (MoveOf n i c.shared (c.locals i)) e
        (turn-MoveOf (Reach-Inv r) some_thread few max_loop i l h)

  -- The signature over both arrays of a reachable state.
  abbrev pub signature_of_both : Shared → ℕ
  signature_of_both s =
      fold_sigs (n - 1) 1 (fold_sigs (n - 1) 1 (get_or s.mem.sig 0 0) (λ k. get_or s.mem.sig k 0))
        (λ k. get_or s.sig2 k 0)

  -- It is what `main` computes.
  pub signs_both :
      (c : System Shared Pc)
      → Reachable c
      → signal_signature n c.shared ≡ returned (signature_of_both c.shared)
  unfolding signal_signature
  signs_both c r =
      let inv = Reach-Inv r in
      rw (get_elem?-eq-get_or c.shared.mem.sig 0 0 (omega (arith, inv.sizes.sigs))) (
        rw
          (mix_sigs-eq-fold_sigs (n - 1) 1 (get_or c.shared.mem.sig 0 0) c.shared.mem.sig
            (omega (arith, inv.sizes.sigs)))
          (mix_sigs-eq-fold_sigs (n - 1) 1 _ c.shared.sig2 (omega (arith, inv.sizes2))))

  -- What a value that is printed is.
  abbrev pub IsSignalSignature : ℕ → Type 0
  IsSignalSignature v =
      (c : System Shared Pc) × Reachable c
      × (all_ended is_ended (2 * n) c.locals ≡ true)
      × (v ≡ signature_of_both c.shared)

  -- For NumProcs from 1 to 32, the threads of racey-signal can all come to their end from every
  -- state that they reach, whatever signals are delivered.
  signal_no_deadlock :
      (c : System Shared Pc)
      → Reachable c
      → (d : System Shared Pc) × Reach (signal_step n max_loop) (2 * n) c d
        × (all_ended is_ended (2 * n) d.locals ≡ true)
  signal_no_deadlock c r =
      can_end_after (signal_step n max_loop) is_ended (left n) (work max_loop) (2 * n)
        (λ d q. goes_on (Reach-Inv q) some_thread few max_loop) c r

  -- So some schedule makes the threads end.
  pub signal_can_join :
      (schedule : List ℕ) × (c : System Shared Pc) × Reachable c
      × (all_ended is_ended (2 * n) c.locals ≡ true)
      × (run_and_join (signal_step n max_loop) is_ended (2 * n) schedule (boot n sig2)
          ≡ returned c.shared)
  signal_can_join =
      let (is, s, e) =
        can_join_after (signal_step n max_loop) is_ended (left n) (work max_loop) (2 * n)
          (λ d q. goes_on (Reach-Inv q) some_thread few max_loop) in
      let (c, r, done, same) =
        run_and_join_lem (signal_step n max_loop) is_ended (2 * n) is (boot n sig2) e in
      (is, c, r, done, e ∙ ap returned (sym same))
