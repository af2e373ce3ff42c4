-- ===== src/Guarded/Invariant.antt =====
-- The invariant of the threads of racey-guarded.c, at the start and over a move.
use mathlib.Core.Path.{subst}
use racey_suite.Prelude.{
  ℕ, suc, sym, ◌+◌, ◌%◌, ◌≤◌, ◌<◌, ◌≡◌, ◌≢◌, refl, true, Option, none, some, set, get_or-set_ne,
  length-set, All-set, update, update-all, update-others, total, total-update, total_const, arith,
  ◌∙◌,
}
use racey_suite.Machine.{Turn, System, Step, pick, Reach}
use racey_suite.Machine.Laws.{Reach_inv, IsSafe}
use racey_suite.Racey.{Memory, max_elem, mix, prime1}
use racey_suite.Racey.Mix.{mix-lt}
use racey_suite.Racey.Loop.{IsMemory}
use racey_suite.Guarded.{Shared, Pc, arriving, storing, nlock, next_round, thread_body, boot}
use racey_suite.Guarded.Move.{
  IsPc, Move, arrive, go, lock1, unlock1, lock2, read2, store, unlock2, write, MoveOf,
  thread_body-MoveOf,
}
use racey_suite.Guarded.Held.{holds, started, inside, IsFresh, Inv}

next_round-IsPc : (max_loop i : ℕ) → IsPc max_loop (next_round max_loop i)
unfolding next_round
next_round-IsPc max_loop i = ground arith

next_round_holds : (max_loop i : ℕ) → holds (next_round max_loop i) ≡ none
unfolding next_round
next_round_holds max_loop i = ground arith

started-next_round : (max_loop i : ℕ) → started (next_round max_loop i) ≡ 1
unfolding next_round
started-next_round max_loop i = ground arith

next_round-IsFresh : (max_loop i : ℕ) (s : Shared) → IsFresh s (next_round max_loop i)
unfolding next_round
next_round-IsFresh max_loop i s = ground arith

-- One mutex has one holder.
pub locks_same : {i j : ℕ} {o : Option ℕ} → o ≡ some i → o ≡ some j → i ≡ j
locks_same p q = cc

module _ {n max_loop : ℕ} {c : System Shared Pc} (inv : Inv n max_loop c) (i : ℕ) (low : 1 ≤ i)
    (high : i ≤ n) where
  open inv use {memory, legal, counted, opened, owned, held, fresh}

  -- Thread `i` goes from `p` to `p'`.
  record Mover (p p' : Pc) : Type 0 where
    here : c.locals i ≡ p
    own : IsPc max_loop p
    sum : total started n (update c.locals i p') + started p ≡ total started n c.locals + started p'

  mover : (p' : Pc) → Mover (c.locals i) p'
  mover p' = record {
    here = refl;
    own = legal i;
    sum = total-update started n c.locals i p' low high;
  }

  Move-IsMemory :
      {p p' : Pc} {s : Shared} → Move n max_loop i c.shared p s p' → Mover p p' → IsMemory s.mem
  Move-IsMemory (store {index2} {num} {value}) f = record {
    sigs = memory.sigs;
    cells = length-set c.shared.mem.m index2 (mix num value) ∙ memory.cells;
    small_sig = memory.small_sig;
    small_m =
        All-set (λ x. x < prime1) c.shared.mem.m index2 (mix num value) memory.small_m
          (mix-lt num value);
  }
  Move-IsMemory (write {num}) f = record {
    sigs = length-set c.shared.mem.sig i num ∙ memory.sigs;
    cells = memory.cells;
    small_sig = All-set (λ x. x < prime1) c.shared.mem.sig i num memory.small_sig f.own.1;
    small_m = memory.small_m;
  }
  Move-IsMemory _ f = memory

  Move-IsPc :
      {p p' : Pc} {s : Shared} → Move n max_loop i c.shared p s p' → Mover p p' → IsPc max_loop p'
  Move-IsPc (go all) f = next_round-IsPc max_loop 0
  Move-IsPc (write {i = k}) f = next_round-IsPc max_loop _
  Move-IsPc (store {num} {value}) f = (f.own.0, mix-lt num value)
  Move-IsPc arrive f = tt
  Move-IsPc _ f = omega (arith, f.own)

  Move-counted :
      {p p' : Pc} {s : Shared}
      → Move n max_loop i c.shared p s p'
      → Mover p p'
      → s.arrivals ≡ total started n (update c.locals i p')
  Move-counted (go all) f = omega (arith, f.sum, started-next_round max_loop 0)
  Move-counted (write {i = k}) f = omega (arith, f.sum, started-next_round max_loop (suc k))
  Move-counted _ f = omega (arith, f.sum)

  Move-opened :
      {p p' : Pc} {s : Shared}
      → Move n max_loop i c.shared p s p'
      → Mover p p'
      → (j : ℕ) → inside (update c.locals i p' j) ≡ true
      → n ≤ s.arrivals
  Move-opened (go all) f j e = all
  Move-opened (write {i = k}) f j e = ground (arith, opened i, f.here)
  Move-opened _ f j e = ground (arith, opened j, opened i, f.here)

  -- A free mutex is none that a thread holds.
  free-ne : (x j k : ℕ) → c.shared.locks x ≡ none → c.shared.locks k ≡ some j → x ≢ k
  free-ne x j k p q e = cc

  Move-owned :
      {p p' : Pc} {s : Shared}
      → Move n max_loop i c.shared p s p'
      → Mover p p'
      → (j k : ℕ) → holds (update c.locals i p' j) ≡ some k
      → s.locks k ≡ some j
  Move-owned (go all) f j k e = ground (arith, owned j k, next_round_holds max_loop 0)
  Move-owned (write {i = a}) f j k e = ground (arith, owned j k, next_round_holds max_loop (suc a))
  Move-owned (lock1 {num} free) f j k e =
      ground (arith, owned j k, free-ne (num % max_elem % nlock) j k)
  Move-owned (lock2 {num} free) f j k e =
      ground (arith, owned j k, free-ne (num % max_elem % nlock) j k)
  Move-owned (unlock1 {index1}) f j k e =
      ground (arith, owned j k, owned i (index1 % nlock), f.here)
  Move-owned (unlock2 {index2}) f j k e =
      ground (arith, owned j k, owned i (index2 % nlock), f.here)
  Move-owned _ f j k e = ground (arith, owned j k, owned i k, f.here)

  Move-held :
      {p p' : Pc} {s : Shared}
      → Move n max_loop i c.shared p s p'
      → Mover p p'
      → (k j : ℕ) → s.locks k ≡ some j
      → (holds (update c.locals i p' j) ≡ some k) × (1 ≤ j) × (j ≤ n)
  Move-held (go all) f k j e = ground (arith, held k j, f.here)
  Move-held _ f k j e = ground (arith, held k j, f.here)

  -- A write to a cell leaves the cells that other threads are about to write.
  store-IsFresh :
      (a index2 num value v : ℕ)
      → c.locals i ≡ storing a index2 num value
      → (j : ℕ) → i ≢ j
      → (q : Pc) → c.locals j ≡ q
      → IsFresh
          (record c.shared { mem = record c.shared.mem { m = set c.shared.mem.m index2 v } })
          q
  store-IsFresh a index2 num value v here j other (storing b index num' value') there =
      let apart : index2 ≢ index = λ same. other (
        locks_same (owned i (index2 % nlock) (rw here refl))
          (owned j (index2 % nlock) (rw (there, same) refl))) in
      subst (IsFresh c.shared) there (fresh j)
      ∙ sym (get_or-set_ne c.shared.mem.m index2 index v 0 apart)
  store-IsFresh a index2 num value v here j other arriving there = tt
  store-IsFresh a index2 num value v here j other _ there = tt

  Move-own-IsFresh : {p p' : Pc} {s : Shared} → Move n max_loop i c.shared p s p' → IsFresh s p'
  Move-own-IsFresh {s} (go all) = next_round-IsFresh max_loop 0 c.shared
  Move-own-IsFresh {s} (write {i = a}) = next_round-IsFresh max_loop (suc a) s
  Move-own-IsFresh read2 = refl
  Move-own-IsFresh arrive = tt
  Move-own-IsFresh _ = tt

  Move-IsFresh :
      {p p' : Pc} {s : Shared}
      → Move n max_loop i c.shared p s p'
      → c.locals i ≡ p
      → (j : ℕ) → i ≢ j
      → IsFresh s (c.locals j)
  Move-IsFresh (store {i = a} {index2} {num} {value}) here j other =
      store-IsFresh a index2 num value (mix num value) here j other (c.locals j) refl
  Move-IsFresh (unlock1) here j other = ground (arith, fresh j)
  Move-IsFresh _ here j other = ground (arith, fresh j)

  -- A move of thread `i` keeps the invariant.
  pub Move-Inv :
      {s : Shared} {p' : Pc}
      → Move n max_loop i c.shared (c.locals i) s p'
      → Inv n max_loop (record { shared = s; locals = update c.locals i p' })
  Move-Inv {s} {p'} mv = record {
    memory = Move-IsMemory mv (mover p');
    legal = update-all (IsPc max_loop) c.locals i p' (Move-IsPc mv (mover p')) legal;
    counted = Move-counted mv (mover p');
    opened = Move-opened mv (mover p');
    owned = Move-owned mv (mover p');
    held = Move-held mv (mover p');
    fresh = update-others (IsFresh s) c.locals i p' (Move-own-IsFresh mv) (Move-IsFresh mv refl);
  }

boot-Inv : (n max_loop : ℕ) (mem : Memory) → IsMemory mem → Inv n max_loop (boot mem)
boot-Inv n max_loop mem ok = record {
  memory = ok;
  legal = λ i. tt;
  counted = omega (arith, total_const started n (λ i. arriving) 0 (λ i l h. refl));
  opened = λ i e. cc;
  owned = λ i k e. cc;
  held = λ k i e. cc;
  fresh = λ i. tt;
}

module _ (n max_loop : ℕ) (mem : Memory) (few : n ≤ 32) (ok : IsMemory mem) where
  -- Every turn that moves is a move of the relation.
  turn-Move :
      {c : System Shared Pc} {o : Turn Shared Pc}
      → Inv n max_loop c
      → (i : ℕ) → i ≤ n
      → thread_body n max_loop i c.shared (c.locals i) ≡ o
      → MoveOf n max_loop i c.shared (c.locals i) o
  turn-Move {c} inv i h e =
      subst (MoveOf n max_loop i c.shared (c.locals i)) e (
        thread_body-MoveOf n max_loop i c.shared (c.locals i) (omega arith) inv.memory
          (inv.legal i))

  Step-Inv :
      (c d : System Shared Pc)
      → Step (thread_body n max_loop) n c d
      → Inv n max_loop c
      → Inv n max_loop d
  Step-Inv c d (pick i l h e) inv = Move-Inv inv i l h (turn-Move inv i h e)

  -- The invariant holds in every reachable state.
  pub Reach-Inv :
      {c : System Shared Pc} → Reach (thread_body n max_loop) n (boot mem) c → Inv n max_loop c
  Reach-Inv =
      Reach_inv (thread_body n max_loop) n (Inv n max_loop) Step-Inv (boot-Inv n max_loop mem ok)

  -- No thread is about to make an access out of bounds.
  pub guarded-IsSafe :
      (c : System Shared Pc)
      → Reach (thread_body n max_loop) n (boot mem) c
      → IsSafe (thread_body n max_loop) n c
  guarded-IsSafe c r i l h e = turn-Move (Reach-Inv r) i h e
