-- ===== src/Gate/Progress.antt =====
-- The measure by which the threads behind the counter barrier of racey-basic.c come nearer to their
-- end, and which of them can make a move.
use mathlib.Core.Path.{subst}
use racey_suite.Prelude.{
  ℕ, ◌+◌, ◌*◌, ◌≤◌, ◌<◌, ◌≡◌, inl, inr, refl, Bool, true, false, Option-cases, Bool-cases, ◌==◌,
  arith, total_missing, ap, ◌∙◌, List,
}
use racey_suite.Outcome.{returned}
use racey_suite.Machine.{Reach, System, moved, all_ended, run_and_join}
use racey_suite.Machine.Liveness.{CanAdvance, can_end, can_join, all_ended-eq-false}
use racey_suite.Racey.{Memory}
use racey_suite.Racey.Loop.{IsMemory}
use racey_suite.Loop.{next_round}
use racey_suite.Loop.Laws.{IsLoop, loop_work, loop_advances, work-next_round}
use racey_suite.Gate.{
  Shared, Pc, arriving, entering, counting, testing, releasing, spinning, inside, gate_step,
  acquire, lift_loop, boot, ended,
}
use racey_suite.Gate.Move.{IsPc}
use racey_suite.Gate.Invariant.{Inv, critical, arrived, Reach-Inv}

-- The moves that are left of a thread, turns in the busy wait not counted.
abbrev pub work : ℕ → Pc → ℕ
work max_loop arriving = 6 + 5 * max_loop
work max_loop entering = 5 + 5 * max_loop
work max_loop (counting counter) = 4 + 5 * max_loop
work max_loop testing = 3 + 5 * max_loop
work max_loop releasing = 2 + 5 * max_loop
work max_loop spinning = 1 + 5 * max_loop
work max_loop (inside l) = loop_work max_loop l

module _ (rest : ℕ → ℕ → Bool) (max_loop n : ℕ) (mem : Memory)
    (total_rest : (t i : ℕ) → rest t i ≡ true) (few : n ≤ 32) {c : System Shared Pc}
    (inv : Inv n max_loop mem c) where
  abbrev Advances : Type 0
  Advances = CanAdvance (gate_step rest max_loop) (work max_loop) n c

  -- Thread i, which stands at p, makes the move that its code has there.
  by_move :
      (i : ℕ)
      → 1 ≤ i
      → i ≤ n
      → (p : Pc) → c.locals i ≡ p
      → {s : Shared} {p' : Pc} → gate_step rest max_loop i c.shared p ≡ moved s p'
      → work max_loop p' < work max_loop p
      → Advances
  by_move i l h p here {s} {p'} e less = record {
    thread = i;
    first = l;
    last = h;
    memory = s;
    local = p';
    moves = ap (gate_step rest max_loop i c.shared) here ∙ e;
    less = rw here less;
  }

  -- The holder of the mutex never waits.
  critical_advances :
      (i : ℕ) → 1 ≤ i → i ≤ n → (p : Pc) → c.locals i ≡ p → critical p ≡ true → Advances
  unfolding gate_step
  critical_advances i l h entering here e = by_move i l h entering here refl (omega arith)
  critical_advances i l h (counting v) here e = by_move i l h (counting v) here refl (omega arith)
  critical_advances i l h testing here e = by_move i l h testing here refl (omega arith)
  critical_advances i l h releasing here e = by_move i l h releasing here refl (omega arith)
  critical_advances i l h arriving here e = cc
  critical_advances i l h spinning here e = cc
  critical_advances i l h (inside k) here e = cc

  -- A thread at the mutex takes it, or the thread that holds it moves on.
  arriving_advances : (i : ℕ) → 1 ≤ i → i ≤ n → c.locals i ≡ arriving → Advances
  unfolding gate_step
  arriving_advances i l h here = elim (Option-cases c.shared.owner) [
    | inl free ↦ by_move i l h arriving here (ap (acquire c.shared i) free) (omega arith)
    | inr (holder, taken) ↦
        let (inside_lock, low, high) = inv.held holder taken in
        critical_advances holder low high (c.locals holder) refl inside_lock
  ]

  waiting_advances : (i : ℕ) → 1 ≤ i → i ≤ n → (p : Pc) → c.locals i ≡ p → arrived p ≡ 0 → Advances
  waiting_advances i l h arriving here e = arriving_advances i l h here
  waiting_advances i l h entering here e = critical_advances i l h entering here refl
  waiting_advances i l h (counting v) here e = critical_advances i l h (counting v) here refl
  waiting_advances i l h testing here e = absurd (omega arith)
  waiting_advances i l h releasing here e = absurd (omega arith)
  waiting_advances i l h spinning here e = absurd (omega arith)
  waiting_advances i l h (inside k) here e = absurd (omega arith)

  passes :
      (i : ℕ)
      → (c.shared.start_counter == 0) ≡ true
      → gate_step rest max_loop i c.shared spinning
        ≡ moved c.shared (inside (next_round max_loop 0))
  unfolding gate_step
  passes i e = rw e refl

  -- A thread in the busy wait goes on, or some thread has not counted down and can move.
  spinning_advances : (i : ℕ) → 1 ≤ i → i ≤ n → c.locals i ≡ spinning → Advances
  spinning_advances i l h here = elim (Bool-cases (c.shared.start_counter == 0)) [
    | inl zero_left ↦
        by_move i l h spinning here {p' = inside (next_round max_loop 0)} (passes i zero_left)
          (omega (arith, work-next_round max_loop 0))
    | inr more ↦
        let (j, low, high, out) =
          total_missing arrived (λ p. ground arith) n c.locals (ground (arith, inv.counted)) in
        waiting_advances j low high (c.locals j) refl out
  ]

  live_advances : (i : ℕ) → 1 ≤ i → i ≤ n → (p : Pc) → c.locals i ≡ p → ended p ≡ false → Advances
  unfolding gate_step
  live_advances i l h arriving here e = arriving_advances i l h here
  live_advances i l h entering here e = critical_advances i l h entering here refl
  live_advances i l h (counting v) here e = critical_advances i l h (counting v) here refl
  live_advances i l h testing here e = critical_advances i l h testing here refl
  live_advances i l h releasing here e = critical_advances i l h releasing here refl
  live_advances i l h spinning here e = spinning_advances i l h here
  live_advances i l h (inside k) here e =
      let legal : IsLoop max_loop k = subst (IsPc max_loop) here (inv.legal i) in
      let a =
        loop_advances (rest i) max_loop i (total_rest i) (omega arith) c.shared.mem k inv.memory
          legal e in
      by_move i l h (inside k) here (ap (lift_loop c.shared) a.moves) a.less

  pub gate_advances : all_ended ended n c.locals ≡ false → Advances
  gate_advances e =
      let (i, l, h, live) = all_ended-eq-false ended n c.locals e in
      live_advances i l h (c.locals i) refl live

-- Some schedule brings all threads to their end, and `main` past its joins.
pub gate_can_join :
    (rest : ℕ → ℕ → Bool) (max_loop n : ℕ) (mem : Memory)
    → ((t i : ℕ) → rest t i ≡ true)
    → n ≤ 32
    → IsMemory mem
    → (is : List ℕ) × (s : Shared) × (run_and_join (gate_step rest max_loop) ended n is (boot mem n)
        ≡ returned s)
gate_can_join rest max_loop n mem total_rest few ok =
    can_join (gate_step rest max_loop) ended (work max_loop) n (λ c r.
      gate_advances rest max_loop n mem total_rest few
        (Reach-Inv rest max_loop n mem total_rest few ok r))

-- From every reachable state the threads can go on to a state in which all of them have ended.
pub gate_no_deadlock :
    (rest : ℕ → ℕ → Bool) (max_loop n : ℕ) (mem : Memory)
    → ((t i : ℕ) → rest t i ≡ true)
    → n ≤ 32
    → IsMemory mem
    → (c : System Shared Pc) → Reach (gate_step rest max_loop) n (boot mem n) c
    → (d : System Shared Pc) × Reach (gate_step rest max_loop) n c d
      × (all_ended ended n d.locals ≡ true)
gate_no_deadlock rest max_loop n mem total_rest few ok c r =
    can_end (gate_step rest max_loop) ended (work max_loop) n
      (λ c r.
        gate_advances rest max_loop n mem total_rest few
          (Reach-Inv rest max_loop n mem total_rest few ok r))
      c r
