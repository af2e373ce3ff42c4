-- ===== src/Futex/Body/Solo.antt =====
-- racey-futex.c where every thread is alone in its group: all threads come to their end.
use mathlib.Core.Path.{subst}
use mathlib.Core.Bool.{false≢true}
use mathlib.Core.Logic.{if_pos, if_neg}
use racey_suite.Prelude.{
  ℕ, ◌≤◌, ◌<◌, ◌≡◌, ◌≢◌, ◌⊎◌, inl, inr, refl, Bool, true, false, List, length, get_or, set,
  get_elem?-eq-get_or, get_or-set_self, get_or-set_ne, length-set, arith, ◌∙◌, sym, ap,
  total_missing, ℕ_discrete,
}
use racey_suite.Machine.{
  Turn, moved, waiting, halted, fault, System, Step, pick, Reach, run_and_join, all_ended,
}
use racey_suite.Machine.Laws.{Reach_inv}
use racey_suite.Machine.Liveness.{CanAdvance, all_ended-eq-false, can_end, can_join}
use racey_suite.Outcome.{returned}
use racey_suite.Futex.{FutexGroup}
use racey_suite.Futex.Points.{Shared, Pc, passing}
use racey_suite.Futex.Body.{futex_step, is_ended, boot}
use racey_suite.Futex.Body.Fits.{came}
use racey_suite.Futex.Body.Invariant.{no_group, group_at, Inv, IsStart, Move-Inv}
use racey_suite.Futex.Body.Move.{
  Move, MoveOf, arrives, passes, goes_on, writes, schedules, sleeps, removes,
}
use racey_suite.Futex.Body.Safety.{room, turn-MoveOf, boot-Inv}
use racey_suite.Futex.Body.Hang.{other_group}
use racey_suite.Futex.Body.Alone.{MyOwner, Lone, work}
use racey_suite.Futex.Body.Forward.{IsSingle, Forward}
use racey_suite.Futex.Body.Ahead.{body-Forward}

-- Groups of one thread each.
pub record IsSolo (home : ℕ → ℕ) (n : ℕ) (gs : List FutexGroup) : Type 0 where
  pub start : IsStart home n gs
  pub apart : (t u : ℕ) → 1 ≤ t → t ≤ n → 1 ≤ u → u ≤ n → home t ≡ home u → t ≡ u
  pub single : (t : ℕ) → 1 ≤ t → t ≤ n → IsSingle t (get_or gs (home t) no_group)
  pub mine : (t : ℕ) → 1 ≤ t → t ≤ n → MyOwner t (get_or gs (home t) no_group).owner

module _ (home : ℕ → ℕ) (n max_loop : ℕ) (spurious : Bool) (gs : List FutexGroup) (few : n ≤ 32)
    (loops : 1 ≤ max_loop) (solo : IsSolo home n gs) where
  record Steady (c : System Shared Pc) : Type 0 where
    formed : Inv home n max_loop c
    single : (t : ℕ) → 1 ≤ t → t ≤ n → IsSingle t (group_at c.shared (home t))
    lone : (t : ℕ) → 1 ≤ t → t ≤ n → Lone max_loop t (group_at c.shared (home t)).owner (c.locals t)

  module _ (c : System Shared Pc) (steady : Steady c) (i : ℕ) (low : 1 ≤ i) (high : i ≤ n) where
    inside : home i < length c.shared.groups
    inside = room steady.formed few solo.start.homes i low high

    turn-Forward :
        Forward n max_loop i
          (home i)
          c.shared
          low
          (omega arith)
          steady.formed.sizes
          (steady.single i low high)
          inside
          (c.locals i)
          (futex_step home n max_loop spurious i c.shared (c.locals i))
    unfolding futex_step
    turn-Forward = rw (get_elem?-eq-get_or c.shared.groups (home i) no_group inside) (
        body-Forward n max_loop i (home i) c.shared low (omega arith) steady.formed.sizes
          (steady.single i low high) inside spurious (c.locals i) loops (steady.formed.legal i)
          (steady.formed.member i low high) (steady.lone i low high))

    own_group :
        {q q' : Pc} {s : Shared}
        → Move n max_loop i (home i) c.shared (group_at c.shared (home i)) q s q'
        → IsSingle i (group_at s (home i))
    own_group (schedules owner round started fits) =
        let g = group_at c.shared (home i) in
        let old = steady.single i low high in
        rw
          (get_or-set_self c.shared.groups (home i) (record g { owner = owner; round = round })
            no_group inside)
          (record { begins = old.begins; ends = old.ends; sized = old.sized; others = old.others })
    own_group (removes fits) =
        let g = group_at c.shared (home i) in
        let old = steady.single i low high in
        rw
          (get_or-set_self c.shared.groups (home i) (record g { threads = set g.threads i 0 })
            no_group inside)
          (record {
            begins = old.begins;
            ends = old.ends;
            sized = length-set g.threads i 0 ∙ old.sized;
            others = λ j other. get_or-set_ne g.threads i j 0 0 other ∙ old.others j other;
          })
    own_group arrives = steady.single i low high
    own_group (passes ready fits) = steady.single i low high
    own_group (goes_on started fits) = steady.single i low high
    own_group (writes mem ok started fits) = steady.single i low high
    own_group (sleeps f started fits) = steady.single i low high

    advances :
        (u : Turn Shared Pc)
        → futex_step home n max_loop spurious i c.shared (c.locals i) ≡ u
        → Forward n max_loop i
            (home i)
            c.shared
            low
            (omega arith)
            steady.formed.sizes
            (steady.single i low high)
            inside
            (c.locals i)
            u
        → is_ended (c.locals i) ≡ false
        → (CanAdvance (futex_step home n max_loop spurious) (work max_loop) n c)
          ⊎ ((c.locals i ≡ passing) × (c.shared.arrived < n))
    advances (moved s q) e near live = inl (record {
      thread = i;
      first = low;
      last = high;
      memory = s;
      local = q;
      moves = e;
      less = near.less;
    })
    advances waiting e held live = inr held
    advances fault e near live = elim near [ ]
    advances halted e done live = absurd (false≢true (sym live ∙ done))

  Step-Steady :
      (c d : System Shared Pc)
      → Step (futex_step home n max_loop spurious) n c d
      → Steady c
      → Steady d
  Step-Steady c d (pick i {s} {l = q} l k e) steady =
      let mv =
        subst (MoveOf n max_loop i (home i) c.shared (group_at c.shared (home i)) (c.locals i)) e
          (turn-MoveOf steady.formed few solo.start.homes i l k spurious loops) in
      let near =
        subst
          (Forward n max_loop i (home i) c.shared l (omega arith) steady.formed.sizes
            (steady.single i l k) (inside c steady i l k) (c.locals i))
          e (turn-Forward c steady i l k) in
      let kept = λ (t : ℕ) (a : 1 ≤ t) (b : t ≤ n) (other : i ≢ t).
        other_group mv (λ u. other (solo.apart i t l k a b u)) in
      record {
        formed = Move-Inv steady.formed few solo.start.homes i l k mv refl;
        single = λ t a b. elim (ℕ_discrete i t) [
          | yes same ↦
              subst (λ j. IsSingle j (group_at s (home j))) same (own_group c steady i l k mv)
          | no other ↦ subst (IsSingle t) (sym (kept t a b other)) (steady.single t a b)
        ];
        lone = λ t a b. elim (ℕ_discrete i t) [
          | yes same ↦ rw (if_pos _ same, ← same) near.lone
          | no other ↦ rw (if_neg _ other) (
              subst (λ g. Lone max_loop t g.owner (c.locals t)) (sym (kept t a b other))
                (steady.lone t a b))
        ];
      }

  boot-Steady : Steady (boot gs)
  boot-Steady = record {
    formed = boot-Inv home n max_loop spurious gs few loops solo.start;
    single = solo.single;
    lone = solo.mine;
  }

  abbrev pub Reachable : System Shared Pc → Type 0
  Reachable c = Reach (futex_step home n max_loop spurious) n (boot gs) c

  Reach-Steady : {c : System Shared Pc} → Reachable c → Steady c
  Reach-Steady = Reach_inv (futex_step home n max_loop spurious) n Steady Step-Steady boot-Steady

  not_passing : (q : Pc) → came q ≡ 0 → q ≢ passing
  not_passing q e f = absurd (omega (arith, e, ap came f))

  not_ended : (q : Pc) → came q ≡ 0 → is_ended q ≡ false
  not_ended q e = ground arith

  -- While a thread has not ended, one can go on.
  goes_ahead :
      (c : System Shared Pc)
      → Reachable c
      → all_ended is_ended n c.locals ≡ false
      → CanAdvance (futex_step home n max_loop spurious) (work max_loop) n c
  goes_ahead c r e =
      let steady = Reach-Steady r in
      let (i, l, h, live) = all_ended-eq-false is_ended n c.locals e in
      elim (advances c steady i l h _ refl (turn-Forward c steady i l h) live) [
        | inl a ↦ a
        | inr (held, short) ↦
            let (j, l', h', first) =
              total_missing came (λ q. ground arith) n c.locals
                (omega (arith, steady.formed.counted)) in
            elim (advances c steady j l' h' _ refl (turn-Forward c steady j l' h')
              (not_ended (c.locals j) first)) [
                | inl a ↦ a
                | inr (held', short') ↦ absurd (not_passing (c.locals j) first held')
              ]
      ]

  -- Threads of racey-futex each of which is alone in its group never get stuck: from every state
  -- that they reach, all of them can come to their end.
  pub futex_solo_no_deadlock :
      (c : System Shared Pc)
      → Reachable c
      → (d : System Shared Pc) × Reach (futex_step home n max_loop spurious) n c d
        × (all_ended is_ended n d.locals ≡ true)
  futex_solo_no_deadlock =
      can_end (futex_step home n max_loop spurious) is_ended (work max_loop) n goes_ahead

  pub futex_solo_can_join :
      (schedule : List ℕ) × (s : Shared) × (run_and_join
          (futex_step home n max_loop spurious)
          is_ended
          n
          schedule
          (boot gs)
        ≡ returned s)
  futex_solo_can_join =
      can_join (futex_step home n max_loop spurious) is_ended (work max_loop) n goes_ahead
