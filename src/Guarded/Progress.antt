-- ===== src/Guarded/Progress.antt =====
-- The measure by which the threads of racey-guarded.c come nearer to their end. A thread takes one
-- mutex at a time, and waits for none while it has one.
use mathlib.Core.Path.{subst}
use racey_suite.Prelude.{
  ℕ, suc, ◌+◌, ◌-◌, ◌*◌, ◌%◌, ◌≤◌, ◌<◌, ◌≡◌, inl, inr, refl, true, false, some, Option-cases,
  Bool-cases, leb, arith, total_missing, ap, ◌∙◌, List, get_elem?-eq-get_or, set?-eq-set,
}
use racey_suite.Outcome.{returned}
use racey_suite.Machine.{Reach, System, moved, all_ended, run_and_join}
use racey_suite.Machine.Liveness.{CanAdvance, can_end, can_join, all_ended-eq-false}
use racey_suite.Racey.{Memory, max_elem, mix}
use racey_suite.Racey.Loop.{IsMemory}
use racey_suite.Guarded.{
  Shared, Pc, arriving, waits, fetching, locking1, reading1, unlocking1, locking2, reading2,
  storing, unlocking2, saving, ended, nlock, next_round, lock_item, read_to, write_to, thread_body,
  is_ended, boot,
}
use racey_suite.Guarded.Move.{IsPc}
use racey_suite.Guarded.Held.{Inv, holds, started}
use racey_suite.Guarded.Invariant.{Reach-Inv}

-- The moves that are left of a thread.
abbrev pub work : ℕ → Pc → ℕ
work max_loop arriving = 2 + 9 * max_loop
work max_loop waits = 1 + 9 * max_loop
work max_loop (fetching i) = 9 + 9 * (max_loop - suc i)
work max_loop (locking1 i num) = 8 + 9 * (max_loop - suc i)
work max_loop (reading1 i index1 num) = 7 + 9 * (max_loop - suc i)
work max_loop (unlocking1 i index1 num) = 6 + 9 * (max_loop - suc i)
work max_loop (locking2 i num) = 5 + 9 * (max_loop - suc i)
work max_loop (reading2 i index2 num) = 4 + 9 * (max_loop - suc i)
work max_loop (storing i index2 num value) = 3 + 9 * (max_loop - suc i)
work max_loop (unlocking2 i index2 num) = 2 + 9 * (max_loop - suc i)
work max_loop (saving i num) = 1 + 9 * (max_loop - suc i)
work max_loop ended = 0

work-next_round : (max_loop i : ℕ) → work max_loop (next_round max_loop i) ≡ 9 * (max_loop - i)
unfolding next_round
work-next_round max_loop i = ground arith

module _ (n max_loop : ℕ) (few : n ≤ 32) {c : System Shared Pc} (inv : Inv n max_loop c) where
  abbrev Advances : Type 0
  Advances = CanAdvance (thread_body n max_loop) (work max_loop) n c

  -- Thread i, which stands at p, makes the move that its code has there.
  by_move :
      (i : ℕ)
      → 1 ≤ i
      → i ≤ n
      → (p : Pc) → c.locals i ≡ p
      → {s : Shared} {p' : Pc} → thread_body n max_loop i c.shared p ≡ moved s p'
      → work max_loop p' < work max_loop p
      → Advances
  by_move i l h p here {s} {p'} e less = record {
    thread = i;
    first = l;
    last = h;
    memory = s;
    local = p';
    moves = ap (thread_body n max_loop i c.shared) here ∙ e;
    less = rw here less;
  }

  legal_at : (i : ℕ) (p : Pc) → c.locals i ≡ p → IsPc max_loop p
  legal_at i p here = subst (IsPc max_loop) here (inv.legal i)

  -- The holder of a mutex never waits.
  holder_advances :
      (i k : ℕ) → 1 ≤ i → i ≤ n → (p : Pc) → c.locals i ≡ p → holds p ≡ some k → Advances
  unfolding thread_body
  holder_advances i k l h (reading1 a x num) here e =
      by_move i l h (reading1 a x num) here
        (ap (read_to c.shared (λ v. unlocking1 a x (mix num v))) (
          get_elem?-eq-get_or c.shared.mem.m x 0
            (omega (arith, inv.memory.cells, legal_at i (reading1 a x num) here))))
        (omega arith)
  holder_advances i k l h (unlocking1 a x num) here e =
      by_move i l h (unlocking1 a x num) here refl (omega arith)
  holder_advances i k l h (reading2 a x num) here e =
      by_move i l h (reading2 a x num) here
        (ap (read_to c.shared (λ v. storing a x num v)) (
          get_elem?-eq-get_or c.shared.mem.m x 0
            (omega (arith, inv.memory.cells, legal_at i (reading2 a x num) here))))
        (omega arith)
  holder_advances i k l h (storing a x num value) here e =
      by_move i l h (storing a x num value) here
        (ap
          (write_to (λ m'. record c.shared { mem = record c.shared.mem { m = m' } })
            (unlocking2 a x (mix num value)))
          (set?-eq-set c.shared.mem.m x (mix num value)
            (omega (arith, inv.memory.cells, legal_at i (storing a x num value) here))))
        (omega arith)
  holder_advances i k l h (unlocking2 a x num) here e =
      by_move i l h (unlocking2 a x num) here refl (omega arith)
  holder_advances i k l h arriving here e = cc
  holder_advances i k l h _ here e = cc

  -- A thread at a mutex takes it, or the thread that holds it moves on.
  locking_advances :
      (i index : ℕ)
      → 1 ≤ i
      → i ≤ n
      → (p next : Pc) → c.locals i ≡ p
      → thread_body n max_loop i c.shared p
        ≡ lock_item c.shared i index next (c.shared.locks (index % nlock))
      → work max_loop next < work max_loop p
      → Advances
  locking_advances i index l h p next here e less =
      elim (Option-cases (c.shared.locks (index % nlock))) [
        | inl free ↦ by_move i l h p here (e ∙ ap (lock_item c.shared i index next) free) less
        | inr (holder, taken) ↦
            let (it_holds, low, high) = inv.held (index % nlock) holder taken in
            holder_advances holder (index % nlock) low high (c.locals holder) refl it_holds
      ]

  arriving_advances : (i : ℕ) → 1 ≤ i → i ≤ n → (p : Pc) → c.locals i ≡ p → started p ≡ 0 → Advances
  unfolding thread_body
  arriving_advances i l h arriving here e = by_move i l h arriving here refl (omega arith)
  arriving_advances i l h waits here e = absurd (omega arith)
  arriving_advances i l h _ here e = absurd (omega arith)

  passes :
      (i : ℕ)
      → leb n c.shared.arrivals ≡ true
      → thread_body n max_loop i c.shared waits ≡ moved c.shared (next_round max_loop 0)
  unfolding thread_body
  passes i e = rw e refl

  -- A thread at the barrier goes on, or some thread has not arrived and can.
  waits_advances : (i : ℕ) → 1 ≤ i → i ≤ n → c.locals i ≡ waits → Advances
  waits_advances i l h here = elim (Bool-cases (leb n c.shared.arrivals)) [
    | inl all ↦
        by_move i l h waits here {p' = next_round max_loop 0} (passes i all)
          (omega (arith, work-next_round max_loop 0))
    | inr more ↦
        let (j, low, high, out) =
          total_missing started (λ p. ground arith) n c.locals (ground (arith, inv.counted)) in
        arriving_advances j low high (c.locals j) refl out
  ]

  live_advances :
      (i : ℕ) → 1 ≤ i → i ≤ n → (p : Pc) → c.locals i ≡ p → is_ended p ≡ false → Advances
  unfolding thread_body
  live_advances i l h arriving here e = arriving_advances i l h arriving here refl
  live_advances i l h waits here e = waits_advances i l h here
  live_advances i l h (fetching a) here e =
      by_move i l h (fetching a) here
        (ap (read_to c.shared (λ num. locking1 a num))
          (get_elem?-eq-get_or c.shared.mem.sig i 0 (omega (arith, inv.memory.sigs))))
        (omega arith)
  live_advances i l h (locking1 a num) here e =
      locking_advances i (num % max_elem) l h (locking1 a num) (reading1 a (num % max_elem) num)
        here refl (omega arith)
  live_advances i l h (locking2 a num) here e =
      locking_advances i (num % max_elem) l h (locking2 a num) (reading2 a (num % max_elem) num)
        here refl (omega arith)
  live_advances i l h (reading1 a x num) here e =
      holder_advances i _ l h (reading1 a x num) here refl
  live_advances i l h (unlocking1 a x num) here e =
      holder_advances i _ l h (unlocking1 a x num) here refl
  live_advances i l h (reading2 a x num) here e =
      holder_advances i _ l h (reading2 a x num) here refl
  live_advances i l h (storing a x num value) here e =
      holder_advances i _ l h (storing a x num value) here refl
  live_advances i l h (unlocking2 a x num) here e =
      holder_advances i _ l h (unlocking2 a x num) here refl
  live_advances i l h (saving a num) here e =
      by_move i l h (saving a num) here
        (ap
          (write_to (λ sig'. record c.shared { mem = record c.shared.mem { sig = sig' } })
            (next_round max_loop (suc a)))
          (set?-eq-set c.shared.mem.sig i num (omega (arith, inv.memory.sigs))))
        (omega (arith, work-next_round max_loop (suc a)))
  live_advances i l h ended here e = cc

  guarded_advances : all_ended is_ended n c.locals ≡ false → Advances
  guarded_advances e =
      let (i, l, h, live) = all_ended-eq-false is_ended n c.locals e in
      live_advances i l h (c.locals i) refl live

-- Some schedule brings all threads to their end, and `main` past its joins.
pub guarded_can_join :
    (n max_loop : ℕ) (mem : Memory)
    → n ≤ 32
    → IsMemory mem
    → (is : List ℕ) × (s : Shared) × (run_and_join (thread_body n max_loop) is_ended n is (boot mem)
        ≡ returned s)
guarded_can_join n max_loop mem few ok =
    can_join (thread_body n max_loop) is_ended (work max_loop) n
      (λ c r. guarded_advances n max_loop few (Reach-Inv n max_loop mem few ok r))

-- racey-guarded never gets stuck: up to 32 threads, started over arrays of the right sizes with
-- values below PRIME1, can go on from every reachable state to a state in which all of them have
-- ended.
pub guarded_no_deadlock :
    (n max_loop : ℕ) (mem : Memory)
    → n ≤ 32
    → IsMemory mem
    → (c : System Shared Pc) → Reach (thread_body n max_loop) n (boot mem) c
    → (d : System Shared Pc) × Reach (thread_body n max_loop) n c d
      × (all_ended is_ended n d.locals ≡ true)
guarded_no_deadlock n max_loop mem few ok c r =
    can_end (thread_body n max_loop) is_ended (work max_loop) n
      (λ c r. guarded_advances n max_loop few (Reach-Inv n max_loop mem few ok r)) c r
