-- ===== src/Gate/Invariant.antt =====
-- What holds in every reachable state of the threads behind the barrier, and that every move
-- keeps it.
use mathlib.Core.Path.{subst}
use racey_suite.Prelude.{
  ℕ, ◌+◌, ◌≤◌, ◌<◌, ◌≡◌, ◌⊎◌, refl, Bool, true, false, some, get_or, update, total, total-update,
  total-le, total_const, arith, ◌∙◌, update-all,
}
use racey_suite.Machine.{System, Step, pick, Reach, moved}
use racey_suite.Machine.Laws.{Reach_inv}
use racey_suite.Racey.{Memory}
use racey_suite.Racey.Loop.{IsMemory}
use racey_suite.Loop.{Loop}
use racey_suite.Loop.Laws.{next_round-IsLoop}
use racey_suite.Gate.{
  Shared, Pc, arriving, entering, counting, testing, releasing, spinning, inside, gate_step, boot,
}
use racey_suite.Gate.Move.{
  Move, take, read, write, test, leave, spin, pass, mixes, IsPc, MoveOf, gate_step-MoveOf,
}

-- Between `pthread_mutex_lock` and `pthread_mutex_unlock`.
abbrev pub critical : Pc → Bool
critical entering = true
critical (counting _) = true
critical testing = true
critical releasing = true
critical _ = false

-- Behind the write of `startCounter--`.
abbrev pub arrived : Pc → ℕ
arrived testing = 1
arrived releasing = 1
arrived spinning = 1
arrived (inside _) = 1
arrived _ = 0

pub record Inv (n max_loop : ℕ) (mem0 : Memory) (c : System Shared Pc) : Type 0 where
  pub memory : IsMemory c.shared.mem
  pub legal : (i : ℕ) → IsPc max_loop (c.locals i)
  pub counted : c.shared.start_counter + total arrived n c.locals ≡ n
  pub holds : (i : ℕ) → critical (c.locals i) ≡ true → c.shared.owner ≡ some i
  pub held : (i : ℕ) → c.shared.owner ≡ some i → (critical (c.locals i) ≡ true) × (1 ≤ i) × (i ≤ n)
  pub fresh : (i v : ℕ) → c.locals i ≡ counting v → v ≡ c.shared.start_counter
  pub opened : (i : ℕ) (l : Loop) → c.locals i ≡ inside l → c.shared.start_counter ≡ 0
  pub others : (j : ℕ) → (j ≡ 0) ⊎ (n < j) → get_or c.shared.mem.sig j 0 ≡ get_or mem0.sig j 0

total-arrived-le : (n : ℕ) (locals : ℕ → Pc) → total arrived n locals ≤ n
total-arrived-le = total-le arrived (λ p. ground arith)

module _ {n max_loop : ℕ} {mem0 : Memory} {c : System Shared Pc} (inv : Inv n max_loop mem0 c)
    (few : n ≤ 32) (i : ℕ) (low : 1 ≤ i) (high : i ≤ n) where
  open inv use {memory, legal, counted, holds, held, fresh, opened, others}

  -- Thread `i` goes from `p` to `p'`.
  record Mover (p p' : Pc) : Type 0 where
    here : c.locals i ≡ p
    sum : total arrived n (update c.locals i p') + arrived p ≡ total arrived n c.locals + arrived p'
    room : total arrived n (update c.locals i p') ≤ n

  mover : (p' : Pc) → Mover (c.locals i) p'
  mover p' = record {
    here = refl;
    sum = total-update arrived n c.locals i p' low high;
    room = total-arrived-le n (update c.locals i p');
  }

  Move-IsMemory : {p p' : Pc} {s : Shared} → Move max_loop i c.shared p s p' → IsMemory s.mem
  Move-IsMemory (mixes live kept ok less same) = kept.formed
  Move-IsMemory _ = memory

  Move-others :
      {p p' : Pc} {s : Shared}
      → Move max_loop i c.shared p s p'
      → (j : ℕ) → (j ≡ 0) ⊎ (n < j)
      → get_or s.mem.sig j 0 ≡ get_or mem0.sig j 0
  Move-others (mixes live kept ok less same) j out = kept.others j (omega arith) ∙ others j out
  Move-others _ j out = others j out

  Move-counted :
      {p p' : Pc} {s : Shared}
      → Move max_loop i c.shared p s p'
      → Mover p p'
      → s.start_counter + total arrived n (update c.locals i p') ≡ n
  Move-counted (write {counter}) f = ground (arith, fresh i counter f.here, f.sum, f.room)
  Move-counted _ f = omega (arith, f.sum)

  Move-holds :
      {p p' : Pc} {s : Shared}
      → Move max_loop i c.shared p s p'
      → Mover p p'
      → (j : ℕ) → critical (update c.locals i p' j) ≡ true
      → s.owner ≡ some j
  Move-holds (take free) f j e = ground (arith, holds j)
  Move-holds _ f j e = ground (arith, holds j, holds i, f.here)

  Move-held :
      {p p' : Pc} {s : Shared}
      → Move max_loop i c.shared p s p'
      → Mover p p'
      → (j : ℕ) → s.owner ≡ some j
      → (critical (update c.locals i p' j) ≡ true) × (1 ≤ j) × (j ≤ n)
  Move-held (take free) f j e = ground arith
  Move-held _ f j e = ground (arith, held j, f.here)

  Move-IsFresh :
      {p p' : Pc} {s : Shared}
      → Move max_loop i c.shared p s p'
      → Mover p p'
      → (j v : ℕ) → update c.locals i p' j ≡ counting v
      → v ≡ s.start_counter
  Move-IsFresh (take free) f j v e = ground (arith, fresh j v)
  Move-IsFresh _ f j v e = ground (arith, fresh j v, holds j, holds i, f.here)

  Move-opened :
      {p p' : Pc} {s : Shared}
      → Move max_loop i c.shared p s p'
      → Mover p p'
      → (j : ℕ) (l : Loop) → update c.locals i p' j ≡ inside l
      → s.start_counter ≡ 0
  Move-opened (write {counter}) f j l e =
      ground (arith, fresh i counter f.here, f.sum, f.room, opened j l)
  Move-opened (mixes {l = before} live kept ok less same) f j l e = opened i before f.here
  Move-opened (pass zero_left) f j l e = zero_left
  Move-opened _ f j l e = ground (arith, opened j l)

  Move-IsPc : {p p' : Pc} {s : Shared} → Move max_loop i c.shared p s p' → IsPc max_loop p'
  Move-IsPc (pass zero_left) = next_round-IsLoop max_loop 0
  Move-IsPc (mixes live kept ok less same) = ok
  Move-IsPc (take free) = tt
  Move-IsPc read = tt
  Move-IsPc write = tt
  Move-IsPc test = tt
  Move-IsPc leave = tt
  Move-IsPc (spin busy) = tt

  -- A move of thread `i` keeps the invariant.
  pub Move-Inv :
      {s : Shared} {p' : Pc}
      → Move max_loop i c.shared (c.locals i) s p'
      → Inv n max_loop mem0 (record { shared = s; locals = update c.locals i p' })
  Move-Inv {p'} mv = record {
    memory = Move-IsMemory mv;
    legal = update-all (IsPc max_loop) c.locals i p' (Move-IsPc mv) legal;
    counted = Move-counted mv (mover p');
    holds = Move-holds mv (mover p');
    held = Move-held mv (mover p');
    fresh = Move-IsFresh mv (mover p');
    opened = Move-opened mv (mover p');
    others = Move-others mv;
  }

-- The invariant holds when no thread has started.
pub boot-Inv : (n max_loop : ℕ) (mem : Memory) → IsMemory mem → Inv n max_loop mem (boot mem n)
boot-Inv n max_loop mem ok = record {
  memory = ok;
  legal = λ i. tt;
  counted = omega (arith, total_const arrived n (λ i. arriving) 0 (λ i l h. refl));
  holds = λ i e. cc;
  held = λ i e. cc;
  fresh = λ i v e. cc;
  opened = λ i l e. cc;
  others = λ j out. refl;
}

module _ (rest : ℕ → ℕ → Bool) (max_loop n : ℕ) (mem : Memory)
    (total_rest : (t i : ℕ) → rest t i ≡ true) (few : n ≤ 32) (ok : IsMemory mem) where
  -- Every turn that moves is a move of the relation.
  pub gate_step-Move :
      {c : System Shared Pc} {s : Shared} {p' : Pc}
      → Inv n max_loop mem c
      → (i : ℕ) → i ≤ n
      → gate_step rest max_loop i c.shared (c.locals i) ≡ moved s p'
      → Move max_loop i c.shared (c.locals i) s p'
  gate_step-Move {c} inv i h e = subst (MoveOf max_loop i c.shared (c.locals i)) e (
      gate_step-MoveOf rest max_loop i (total_rest i) (omega arith) c.shared (c.locals i) inv.memory
        (inv.legal i))

  Step-Inv :
      (c d : System Shared Pc)
      → Step (gate_step rest max_loop) n c d
      → Inv n max_loop mem c
      → Inv n max_loop mem d
  Step-Inv c d (pick i l h e) inv = Move-Inv inv few i l h (gate_step-Move inv i h e)

  -- The invariant holds in every reachable state.
  pub Reach-Inv :
      {c : System Shared Pc}
      → Reach (gate_step rest max_loop) n (boot mem n) c
      → Inv n max_loop mem c
  Reach-Inv =
      Reach_inv (gate_step rest max_loop) n (Inv n max_loop mem) Step-Inv
        (boot-Inv n max_loop mem ok)
