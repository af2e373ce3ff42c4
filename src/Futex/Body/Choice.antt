-- ===== src/Futex/Body/Choice.antt =====
-- A thread of racey-futex.c that has the turns to itself chooses the next owner, and looks for the
-- leader, as `groupPickNext` and `groupLeader` do as functions.
use mathlib.Core.Logic.{if_pos}
use racey_suite.Prelude.{
  ℕ, suc, ◌≤◌, ◌<◌, ◌≡◌, refl, ℤ, Bool, List, length, get_or, get_elem?-eq-get_or, replicate, arith,
  ◌==◌, ◌∙◌, ap, update, ℕ_discrete,
}
use native.Mathlib.Nat.{zero-add}
use racey_suite.Outcome.{returned}
use racey_suite.Machine.{moved, System, run}
use racey_suite.Machine.Laws.{turn-pick}
use racey_suite.Futex.{FutexGroup, group_leader, group_pick_next}
use racey_suite.Futex.Pick.{group_pick_next-Picks}
use racey_suite.Futex.Points.{Shared, Vars, checking, assigning, Pc, leading, reading_round, turn}
use racey_suite.Futex.Body.{futex_step}
use racey_suite.Futex.Body.Invariant.{no_group, group_at, Inv, IsStart}
use racey_suite.Futex.Body.Safety.{room, Reachable, Reach-Inv}
use racey_suite.Futex.Body.Sequence.{StepsTo, stop, step, IsRest, pick_steps, lead_steps}

module _ (home : ℕ → ℕ) (n max_loop : ℕ) (spurious : Bool) (i : ℕ) (s : Shared)
    (inside : home i < length s.groups) where
  -- Such accesses are turns of the thread.
  StepsTo-run :
      1 ≤ i
      → i ≤ n
      → {q p : Pc} → StepsTo home n max_loop spurious i s inside q p
      → (c : System Shared Pc) → c.shared ≡ s
      → c.locals i ≡ p
      → (k : ℕ) × (d : System Shared Pc) × (run
            (futex_step home n max_loop spurious)
            n
            (replicate k i)
            c
          ≡ returned d)
        × (d.shared ≡ s)
        × (d.locals i ≡ q)
  unfolding run futex_step
  StepsTo-run low high (stop e) c same here = (0, c, refl, same, here ∙ e)
  StepsTo-run low high (step {p} {q} e rest) c same here =
      let moves : futex_step home n max_loop spurious i c.shared (c.locals i) ≡ moved s q =
        rw (same, here, get_elem?-eq-get_or s.groups (home i) no_group inside) e in
      let c' : System Shared Pc = record { shared = s; locals = update c.locals i q } in
      let (k, d, r, kept, there) =
        StepsTo-run low high rest c' refl (rw (if_pos (ℕ_discrete i i) refl) refl) in
      (
        suc k,
        d,
        rw (turn-pick (futex_step home n max_loop spurious) n c i low high moves) r,
        kept,
        there,
      )

module _ (home : ℕ → ℕ) (n max_loop : ℕ) (spurious : Bool) (c : System Shared Pc)
    (inv : Inv home n max_loop c) (few : n ≤ 32) (homes : (t : ℕ) → 1 ≤ t → t ≤ n → home t < 4)
    (i : ℕ) (low : 1 ≤ i) (high : i ≤ n) where
  whole :
      IsRest home n max_loop spurious i c.shared
        (room inv few homes i low high)
        0
        (group_at c.shared (home i)).threads
  whole =
      let ok = inv.formed (home i) (homes i low high) in
      record {
        ends = omega (arith, ok.sized);
        same = λ j. ap (λ k. get_or (group_at c.shared (home i)).threads k 0) (zero-add j);
        sized = ok.sized;
      }

module _ (home : ℕ → ℕ) (n max_loop : ℕ) (spurious : Bool) (gs : List FutexGroup) (few : n ≤ 32)
    (loops : 1 ≤ max_loop) (begins : IsStart home n gs) (c : System Shared Pc)
    (reached : Reachable home n max_loop spurious gs few loops begins c) (i : ℕ) (low : 1 ≤ i)
    (high : i ≤ n) where
  -- What thread `i` comes to if it is given `turns` turns, none of which changes the shared memory.
  pub record ComesTo (q : Pc) : Type 0 where
    pub turns : ℕ
    pub last : System Shared Pc
    pub runs : run (futex_step home n max_loop spurious) n (replicate turns i) c ≡ returned last
    pub unchanged : last.shared ≡ c.shared
    pub there : last.locals i ≡ q

  inv : Inv home n max_loop c
  inv = Reach-Inv home n max_loop spurious gs few loops begins reached

  comes :
      {q p : Pc}
      → StepsTo home n max_loop spurious i c.shared (room inv few begins.homes i low high) q p
      → c.locals i ≡ p
      → ComesTo q
  comes steps here =
      let (k, d, r, kept, there) =
        StepsTo-run home n max_loop spurious i c.shared (room inv few begins.homes i low high) low
          high steps c refl here in
      record { turns = k; last = d; runs = r; unchanged = kept; there = there }

  -- In every reachable state, a thread of racey-futex that begins to choose the next owner and has
  -- the turns to itself comes, with the shared memory unchanged, to the store of the value that
  -- `groupPickNext` returns for its group and its `sig` as one function.
  pub futex-eq-group_pick_next :
      (j : ℕ) (v : Vars)
      → c.locals i ≡ turn j v (checking 0)
      → (z : ℤ) × ComesTo (turn j v (assigning z))
        × (group_pick_next (get_or c.shared.mem.sig i 0) (group_at c.shared (home i)) ≡ returned z)
  futex-eq-group_pick_next j v here =
      let num = get_or c.shared.mem.sig i 0 in
      let (z, e, picks) =
        group_pick_next-Picks num (group_at c.shared (home i))
          (inv.formed (home i) (begins.homes i low high)) in
      let drawn = get_elem?-eq-get_or c.shared.mem.sig i 0 (omega (arith, inv.sizes.sigs)) in
      (
        z,
        comes
            (pick_steps home n max_loop spurious i c.shared (room inv few begins.homes i low high) j
              v num z (whole home n max_loop spurious c inv few begins.homes i low high) drawn e)
            here,
        e,
      )

  -- In every reachable state, a thread of racey-futex that begins to look for the leader of its
  -- group and has the turns to itself finds out, with the shared memory unchanged, whether it is the
  -- one that `groupLeader` returns as one function.
  pub futex-eq-group_leader :
      (j : ℕ) (owner : ℤ)
      → c.locals i ≡ leading j owner 0
      → ComesTo (reading_round j owner (group_leader 0 (group_at c.shared (home i)).threads == i))
  futex-eq-group_leader j owner here =
      comes
        (lead_steps home n max_loop spurious i c.shared (room inv few begins.homes i low high) owner
          j (group_at c.shared (home i)).threads 0
          (whole home n max_loop spurious c inv few begins.homes i low high))
        here
