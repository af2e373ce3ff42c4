-- ===== src/Free/Invariant.antt =====
-- The invariant of threads that go straight into the main loop, and the measure of what is left.
use mathlib.Core.Path.{subst}
use racey_suite.Prelude.{
  ℕ, ◌≤◌, ◌<◌, ◌≡◌, ◌⊎◌, refl, Bool, true, false, get_or, update-all, arith, ◌∙◌, List,
}
use racey_suite.Outcome.{returned}
use racey_suite.Machine.{Turn, moved, waiting, halted, fault, System, Step, pick, Reach, all_ended}
use racey_suite.Machine.{run_and_join}
use racey_suite.Machine.Laws.{Reach_inv, IsSafe}
use racey_suite.Machine.Liveness.{CanAdvance, can_join, all_ended-eq-false}
use racey_suite.Racey.{Memory}
use racey_suite.Racey.Loop.{IsMemory, Keeps}
use racey_suite.Loop.{Loop, at, done, loop_step}
use racey_suite.Loop.Laws.{IsLoop, is_done, loop_work, loop_result, loop_advances}
use racey_suite.Loop.Laws.{next_round-IsLoop}
use racey_suite.Free.{free_step, boot}

-- What a turn does to a legal point of the loop.
abbrev TurnOf : ℕ → ℕ → Memory → Loop → Turn Memory Loop → Type 0
TurnOf max_loop tid mem l (moved after l') =
    Keeps tid mem after
    × IsLoop max_loop l'
    × (loop_result max_loop tid after l' ≡ loop_result max_loop tid mem l)
TurnOf max_loop tid mem l waiting = Unit
TurnOf max_loop tid mem l halted = Unit
TurnOf max_loop tid mem l fault = ⊥

-- At a legal point of a well-formed memory a turn is an access in bounds or the end.
free_step-TurnOf :
    (max_loop tid : ℕ) (mem : Memory) (l : Loop) (b : Bool)
    → is_done l ≡ b
    → tid < 33
    → IsMemory mem
    → IsLoop max_loop l
    → TurnOf max_loop tid mem l (free_step max_loop tid mem l)
free_step-TurnOf max_loop tid mem l false e h ok legal =
    let a = loop_advances (λ i. true) max_loop tid (λ i. refl) h mem l ok legal e in
    rw a.moves (a.keeps, a.legal, a.same_result)
free_step-TurnOf max_loop tid mem done true e h ok legal = unfold loop_step in tt
free_step-TurnOf max_loop tid mem (at i p) true e h ok legal = cc

pub record Inv (n max_loop : ℕ) (mem0 : Memory) (c : System Memory Loop) : Type 0 where
  pub memory : IsMemory c.shared
  pub legal : (i : ℕ) → IsLoop max_loop (c.locals i)
  pub others : (j : ℕ) → (j ≡ 0) ⊎ (n < j) → get_or c.shared.sig j 0 ≡ get_or mem0.sig j 0

module _ (max_loop n : ℕ) (mem : Memory) (few : n ≤ 32) (ok : IsMemory mem) where
  turn_of :
      {c : System Memory Loop} {o : Turn Memory Loop}
      → Inv n max_loop mem c
      → (i : ℕ) → i ≤ n
      → free_step max_loop i c.shared (c.locals i) ≡ o
      → TurnOf max_loop i c.shared (c.locals i) o
  turn_of {c} inv i h e = subst (TurnOf max_loop i c.shared (c.locals i)) e (
      free_step-TurnOf max_loop i c.shared (c.locals i) (is_done (c.locals i)) refl (omega arith)
        inv.memory (inv.legal i))

  Step-Inv :
      (c d : System Memory Loop)
      → Step (free_step max_loop) n c d
      → Inv n max_loop mem c
      → Inv n max_loop mem d
  Step-Inv c d (pick i {l = l'} l h e) inv =
      let (kept, legal', same) = turn_of inv i h e in
      record {
        memory = kept.formed;
        legal = update-all (IsLoop max_loop) c.locals i l' legal' inv.legal;
        others = λ j out. kept.others j (omega arith) ∙ inv.others j out;
      }

  boot-Inv : Inv n max_loop mem (boot mem max_loop)
  unfolding boot
  boot-Inv = record {
    memory = ok;
    legal = λ i. next_round-IsLoop max_loop 0;
    others = λ j out. refl;
  }

  -- The invariant holds in every reachable state.
  pub Reach-Inv :
      {c : System Memory Loop}
      → Reach (free_step max_loop) n (boot mem max_loop) c
      → Inv n max_loop mem c
  Reach-Inv = Reach_inv (free_step max_loop) n (Inv n max_loop mem) Step-Inv boot-Inv

  -- No thread is about to make an access out of bounds.
  pub free-IsSafe :
      (c : System Memory Loop)
      → Reach (free_step max_loop) n (boot mem max_loop) c
      → IsSafe (free_step max_loop) n c
  free-IsSafe c r i l h e = turn_of (Reach-Inv r) i h e

  free_advances :
      (c : System Memory Loop)
      → Reach (free_step max_loop) n (boot mem max_loop) c
      → all_ended is_done n c.locals ≡ false
      → CanAdvance (free_step max_loop) (loop_work max_loop) n c
  free_advances c r e =
      let (i, l, h, live) = all_ended-eq-false is_done n c.locals e in
      let inv = Reach-Inv r in
      let a =
        loop_advances (λ i. true) max_loop i (λ i. refl) (omega arith) c.shared (c.locals i)
          inv.memory (inv.legal i) live in
      record {
        thread = i;
        first = l;
        last = h;
        memory = a.memory;
        local = a.local;
        moves = a.moves;
        less = a.less;
      }

  -- Some schedule brings all threads to their end.
  pub free_can_join :
      (is : List ℕ) × (s : Memory) × (run_and_join
          (free_step max_loop)
          is_done
          n
          is
          (boot mem max_loop)
        ≡ returned s)
  free_can_join = can_join (free_step max_loop) is_done (loop_work max_loop) n free_advances
