-- ===== src/Gate/Safety.antt =====
-- What the invariant gives in every reachable state of the threads behind the barrier.
use mathlib.Core.Path.{subst}
use mathlib.Core.Logic.{if_pos}
use native.Mathlib.Nat.{sub-zero}
use racey_suite.Prelude.{ℕ, ◌≤◌, ◌≡◌, refl, Bool, true, some, arith, total_full, ◌∙◌, sym, update}
use racey_suite.Machine.{Reach, System, Step, pick}
use racey_suite.Machine.Laws.{IsSafe, Reach_inv}
use racey_suite.Racey.{Memory, mix_rounds}
use racey_suite.Racey.Loop.{IsMemory}
use racey_suite.Loop.{Loop, done}
use racey_suite.Loop.Laws.{loop_result, next_round_result}
use racey_suite.Gate.{Shared, Pc, inside, arriving, gate_step, boot, ended}
use racey_suite.Gate.Move.{
  MoveOf, Move, take, read, write, test, leave, spin, pass, mixes, gate_step-MoveOf,
}
use racey_suite.Gate.Invariant.{
  Inv, critical, arrived, Reach-Inv, gate_step-Move, Move-Inv, boot-Inv,
}

module _ (rest : ℕ → ℕ → Bool) (max_loop n : ℕ) (mem : Memory)
    (total_rest : (t i : ℕ) → rest t i ≡ true) (few : n ≤ 32) (ok : IsMemory mem) where
  -- No thread is about to make an access out of bounds.
  pub gate-IsSafe :
      {c : System Shared Pc}
      → Reach (gate_step rest max_loop) n (boot mem n) c
      → IsSafe (gate_step rest max_loop) n c
  gate-IsSafe {c} r i l h e =
      let inv = Reach-Inv rest max_loop n mem total_rest few ok r in
      subst (MoveOf max_loop i c.shared (c.locals i)) e (
        gate_step-MoveOf rest max_loop i (total_rest i) (omega arith) c.shared (c.locals i)
          inv.memory (inv.legal i))

  -- Once one thread is in the main loop, all threads have counted down.
  pub gate_barrier :
      {c : System Shared Pc}
      → Reach (gate_step rest max_loop) n (boot mem n) c
      → (i j : ℕ) (l : Loop) → c.locals i ≡ inside l
      → 1 ≤ j
      → j ≤ n
      → arrived (c.locals j) ≡ 1
  gate_barrier {c} r i j l e low high =
      let inv = Reach-Inv rest max_loop n mem total_rest few ok r in
      total_full arrived (λ p. ground arith) n c.locals
        (omega (arith, inv.counted, inv.opened i l e)) j low high

  -- At most one thread is between `pthread_mutex_lock` and `pthread_mutex_unlock`.
  pub gate_exclusion :
      {c : System Shared Pc}
      → Reach (gate_step rest max_loop) n (boot mem n) c
      → (i j : ℕ) → critical (c.locals i) ≡ true
      → critical (c.locals j) ≡ true
      → i ≡ j
  gate_exclusion r i j p q =
      let inv = Reach-Inv rest max_loop n mem total_rest few ok r in
      let same : some i ≡ some j = sym (inv.holds i p) ∙ inv.holds j q in cc

-- What a thread leaves if it goes on alone to its end.
abbrev result : ℕ → ℕ → Memory → Pc → Memory
result max_loop tid mem (inside l) = loop_result max_loop tid mem l
result max_loop tid mem _ = mix_rounds tid max_loop mem

Move-result :
    (max_loop tid : ℕ) {s s' : Shared} {p p' : Pc}
    → Move max_loop tid s p s' p'
    → result max_loop tid s'.mem p' ≡ result max_loop tid s.mem p
Move-result max_loop tid (take free) = refl
Move-result max_loop tid read = refl
Move-result max_loop tid write = refl
Move-result max_loop tid test = refl
Move-result max_loop tid leave = refl
Move-result max_loop tid (spin more) = refl
Move-result max_loop tid {s} (pass e) = next_round_result max_loop tid 0 s.mem ∙ rw sub-zero
Move-result max_loop tid (mixes live kept legal less same) = same

alone_pick :
    (max_loop i : ℕ) (c : System Shared Pc) {s : Shared} {p : Pc}
    → 1 ≡ i
    → Move max_loop i c.shared (c.locals i) s p
    → result max_loop 1 s.mem (update c.locals i p 1) ≡ result max_loop 1 c.shared.mem (c.locals 1)
alone_pick max_loop i c {s} {p} one =
    subst
      (λ k.
        Move max_loop k c.shared (c.locals k) s p
        → result max_loop 1 s.mem (update c.locals k p 1)
          ≡ result max_loop 1 c.shared.mem (c.locals 1))
      one (λ mv. rw (if_pos _ refl) (Move-result max_loop 1 mv))

ended-result :
    (max_loop tid : ℕ) (mem : Memory) (p : Pc) → ended p ≡ true → result max_loop tid mem p ≡ mem
ended-result max_loop tid mem (inside done) e = refl
ended-result max_loop tid mem (inside (Loop.at i p)) e = cc
ended-result max_loop tid mem arriving e = cc
ended-result max_loop tid mem _ e = cc

module _ (rest : ℕ → ℕ → Bool) (max_loop : ℕ) (mem : Memory)
    (total_rest : (t i : ℕ) → rest t i ≡ true) (ok : IsMemory mem) where
  abbrev IsOnCourse : System Shared Pc → Type 0
  IsOnCourse c =
      Inv 1 max_loop mem c
      × (result max_loop 1 c.shared.mem (c.locals 1) ≡ mix_rounds 1 max_loop mem)

  Step-IsOnCourse :
      (c d : System Shared Pc) → Step (gate_step rest max_loop) 1 c d → IsOnCourse c → IsOnCourse d
  Step-IsOnCourse c d (pick i l h e) (inv, same) =
      let few : 1 ≤ 32 = omega arith in
      let mv = gate_step-Move rest max_loop 1 mem total_rest few ok inv i h e in
      (Move-Inv inv few i l h mv, alone_pick max_loop i c (omega arith) mv ∙ same)

  -- A thread with no other thread runs its loop as a sequential program, whatever the schedule.
  pub gate_alone :
      {c : System Shared Pc}
      → Reach (gate_step rest max_loop) 1 (boot mem 1) c
      → ended (c.locals 1) ≡ true
      → c.shared.mem ≡ mix_rounds 1 max_loop mem
  gate_alone {c} r e =
      let course =
        Reach_inv (gate_step rest max_loop) 1 IsOnCourse Step-IsOnCourse
          (boot-Inv 1 max_loop mem ok, refl) r in
      sym (ended-result max_loop 1 c.shared.mem (c.locals 1) e) ∙ course.1
