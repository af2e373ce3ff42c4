-- ===== src/Futex/Body/Safety.antt =====
-- The reachable states of the threads of racey-futex.c: no access goes wrong, and who is present in a
-- group.
use mathlib.Core.Path.{subst}
use racey_suite.Prelude.{
  ℕ, ◌≤◌, ◌<◌, ◌≡◌, refl, Bool, List, length, get_elem?-eq-get_or, arith, ◌∙◌, sym, total_const,
}
use racey_suite.Machine.{System, Step, pick, Reach}
use racey_suite.Machine.Laws.{Reach_inv, IsSafe}
use racey_suite.Launch.Main.{init_memory-IsMemory}
use racey_suite.Futex.{FutexGroup}
use racey_suite.Futex.Points.{Shared, Pc}
use racey_suite.Futex.Body.{futex_step, boot}
use racey_suite.Futex.Body.Invariant.{no_group, group_at, is_member, Inv, IsStart, Move-Inv}
use racey_suite.Futex.Body.Fits.{stays, came}
use racey_suite.Futex.Body.Move.{MoveOf, body_step-MoveOf}

module _ {home : ℕ → ℕ} {n max_loop : ℕ} {c : System Shared Pc} (inv : Inv home n max_loop c)
    (few : n ≤ 32) (homes : (t : ℕ) → 1 ≤ t → t ≤ n → home t < 4) (i : ℕ) (low : 1 ≤ i)
    (high : i ≤ n) where
  open inv use {sizes, four, formed, legal}

  pub room : home i < length c.shared.groups
  room = omega (arith, four, homes i low high)

  -- No turn goes wrong.
  pub turn-MoveOf :
      (spurious : Bool)
      → 1 ≤ max_loop
      → MoveOf n max_loop i
          (home i)
          c.shared
          (group_at c.shared (home i))
          (c.locals i)
          (futex_step home n max_loop spurious i c.shared (c.locals i))
  unfolding futex_step
  turn-MoveOf spurious loops = rw (get_elem?-eq-get_or c.shared.groups (home i) no_group room) (
      body_step-MoveOf n max_loop i (home i) c.shared (group_at c.shared (home i)) (omega arith)
        sizes (formed (home i) (homes i low high)) spurious (c.locals i) loops (legal i))

module _ (home : ℕ → ℕ) (n max_loop : ℕ) (spurious : Bool) (gs : List FutexGroup) (few : n ≤ 32)
    (loops : 1 ≤ max_loop) (begins : IsStart home n gs) where
  abbrev pub Reachable : System Shared Pc → Type 0
  Reachable c = Reach (futex_step home n max_loop spurious) n (boot gs) c

  pub boot-Inv : Inv home n max_loop (boot gs)
  boot-Inv = record {
    sizes = record { sigs = init_memory-IsMemory.sigs; cells = init_memory-IsMemory.cells };
    four = begins.four;
    formed = begins.formed;
    counted = sym (total_const came n _ 0 (λ i l h. refl) ∙ omega arith);
    legal = λ t. tt;
    member = begins.member;
  }

  Step-Inv :
      (c d : System Shared Pc)
      → Step (futex_step home n max_loop spurious) n c d
      → Inv home n max_loop c
      → Inv home n max_loop d
  Step-Inv c d (pick i l h e) inv =
      Move-Inv inv few begins.homes i l h
        (subst (MoveOf n max_loop i (home i) c.shared (group_at c.shared (home i)) (c.locals i)) e
          (turn-MoveOf inv few begins.homes i l h spurious loops))
        refl

  pub Reach-Inv : {c : System Shared Pc} → Reachable c → Inv home n max_loop c
  Reach-Inv =
      Reach_inv (futex_step home n max_loop spurious) n (Inv home n max_loop) Step-Inv boot-Inv

  -- No thread is about to make an access out of bounds.
  pub futex-IsSafe :
      (c : System Shared Pc) → Reachable c → IsSafe (futex_step home n max_loop spurious) n c
  futex-IsSafe c r i l h e =
      elim (subst (MoveOf n max_loop i (home i) c.shared (group_at c.shared (home i)) (c.locals i))
        e (turn-MoveOf (Reach-Inv r) few begins.homes i l h spurious loops)) [ ]

  -- In every reachable state, a thread of racey-futex is present in its group exactly while it has
  -- rounds left or is about to leave the group.
  pub futex_members :
      (c : System Shared Pc)
      → Reachable c
      → (t : ℕ) → 1 ≤ t
      → t ≤ n
      → is_member home c.shared t ≡ stays max_loop (c.locals t)
  futex_members c r = (Reach-Inv r).member
