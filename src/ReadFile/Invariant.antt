-- ===== src/ReadFile/Invariant.antt =====
-- What holds in every reachable state of the threads of racey-readfile.
use mathlib.Core.Path.{subst}
use racey_suite.Prelude.{
  ℕ, ◌+◌, ◌≤◌, ◌<◌, ◌≡◌, refl, true, List, length, update, update-all, total, total-update,
  total-le, total_full, total_const, arith, ◌∙◌, ◌⊎◌, inl, inr,
}
use racey_suite.Machine.{System, Step, pick, Reach, Turn}
use racey_suite.Machine.Laws.{Reach_inv, IsSafe}
use racey_suite.ReadFile.{ReadResult, Shared, Pc, starting, thread_body, boot}
use racey_suite.ReadFile.Move.{
  IsRead, is_last, started, inside, is_through, Move, begin, arrive, go, more, stop, store, MoveOf,
  thread_body-MoveOf,
}

-- Some call of `read` before this one found the end of the file, or failed.
abbrev pub HasEnded : (ℕ → ReadResult) → ℕ → Type 0
HasEnded read reads = (k : ℕ) × (k < reads) × (is_last (read k).r ≡ true)

pub record Inv (read : ℕ → ReadResult) (n : ℕ) (c : System Shared Pc) : Type 0 where
  pub sized : length c.shared.sig ≡ 33
  pub counted : c.shared.arrivals ≡ total started n c.locals
  pub opened : (j : ℕ) → inside (c.locals j) ≡ true → n ≤ c.shared.arrivals
  pub seen : (j : ℕ) → is_through (c.locals j) ≡ true → HasEnded read c.shared.reads

grown : (read : ℕ → ReadResult) {k m : ℕ} → k ≤ m → HasEnded read k → HasEnded read m
grown read h (j, lt, e) = (j, omega arith, e)

-- What a move does to what is counted.
record Effect (read : ℕ → ReadResult) (n : ℕ) (s : Shared) (p : Pc) (s' : Shared) (p' : Pc)
    : Type 0 where
  sized : length s'.sig ≡ length s.sig
  counts : s'.arrivals + started p ≡ s.arrivals + started p'
  more_arrivals : s.arrivals ≤ s'.arrivals
  more_reads : s.reads ≤ s'.reads
  opens : inside p' ≡ true → (n ≤ s'.arrivals) ⊎ (inside p ≡ true)
  sees : is_through p' ≡ true → HasEnded read s'.reads ⊎ (is_through p ≡ true)

Move-Effect :
    {read : ℕ → ReadResult} {n : ℕ} {s s' : Shared} {p p' : Pc}
    → Move read n s p s' p'
    → Effect read n s p s' p'
Move-Effect begin = record {
  sized = refl;
  counts = refl;
  more_arrivals = omega arith;
  more_reads = omega arith;
  opens = λ e. cc;
  sees = λ e. cc;
}
Move-Effect arrive = record {
  sized = refl;
  counts = omega arith;
  more_arrivals = omega arith;
  more_reads = omega arith;
  opens = λ e. cc;
  sees = λ e. cc;
}
Move-Effect (go all) = record {
  sized = refl;
  counts = refl;
  more_arrivals = omega arith;
  more_reads = omega arith;
  opens = λ e. inl all;
  sees = λ e. cc;
}
Move-Effect (more q) = record {
  sized = refl;
  counts = refl;
  more_arrivals = omega arith;
  more_reads = omega arith;
  opens = λ e. inr refl;
  sees = λ e. cc;
}
Move-Effect {s = s} (stop q) = record {
  sized = refl;
  counts = refl;
  more_arrivals = omega arith;
  more_reads = omega arith;
  opens = λ e. inr refl;
  sees = λ e. inl (s.reads, omega arith, q);
}
Move-Effect (store h) = record {
  sized = h;
  counts = refl;
  more_arrivals = omega arith;
  more_reads = omega arith;
  opens = λ e. inr refl;
  sees = λ e. inr refl;
}

module _ {read : ℕ → ReadResult} {n : ℕ} {c : System Shared Pc} (inv : Inv read n c) (i : ℕ)
    (low : 1 ≤ i) (high : i ≤ n) {s : Shared} {p : Pc}
    (effect : Effect read n c.shared (c.locals i) s p) where
  opened_after : inside p ≡ true → n ≤ s.arrivals
  opened_after e = elim (effect.opens e) [
    | inl all ↦ all
    | inr before ↦ omega (arith, inv.opened i before, effect.more_arrivals)
  ]

  seen_after : is_through p ≡ true → HasEnded read s.reads
  seen_after e = elim (effect.sees e) [
    | inl found ↦ found
    | inr before ↦ grown read effect.more_reads (inv.seen i before)
  ]

  Effect-Inv : Inv read n (record { shared = s; locals = update c.locals i p })
  Effect-Inv = record {
    sized = effect.sized ∙ inv.sized;
    counted =
        omega (arith, effect.counts, inv.counted, total-update started n c.locals i p low high);
    opened =
        update-all (λ q. inside q ≡ true → n ≤ s.arrivals) c.locals i p opened_after
          (λ j e. omega (arith, inv.opened j e, effect.more_arrivals));
    seen =
        update-all (λ q. is_through q ≡ true → HasEnded read s.reads) c.locals i p seen_after
          (λ j e. grown read effect.more_reads (inv.seen j e));
  }

boot-Inv : (read : ℕ → ReadResult) (n : ℕ) (sig : List ℕ) → length sig ≡ 33 → Inv read n (boot sig)
boot-Inv read n sig sized = record {
  sized = sized;
  counted = omega (arith, total_const started n (λ i. starting) 0 (λ i l h. refl));
  opened = λ j e. cc;
  seen = λ j e. cc;
}

module _ (read : ℕ → ReadResult) (n : ℕ) (sig : List ℕ) (reads_ok : (k : ℕ) → IsRead (read k))
    (few : n ≤ 32) (sized : length sig ≡ 33) where
  turn_of :
      {c : System Shared Pc} {o : Turn Shared Pc}
      → Inv read n c
      → (i : ℕ) → i ≤ n
      → thread_body read n i c.shared (c.locals i) ≡ o
      → MoveOf read n c.shared (c.locals i) o
  turn_of {c} inv i h e =
      subst (MoveOf read n c.shared (c.locals i)) e
        (thread_body-MoveOf read n reads_ok i c.shared (c.locals i) (omega arith) inv.sized)

  Step-Inv :
      (c d : System Shared Pc) → Step (thread_body read n) n c d → Inv read n c → Inv read n d
  Step-Inv c d (pick i l h e) inv = Effect-Inv inv i l h (Move-Effect (turn_of inv i h e))

  -- The invariant holds in every reachable state.
  pub Reach-Inv : {c : System Shared Pc} → Reach (thread_body read n) n (boot sig) c → Inv read n c
  Reach-Inv = Reach_inv (thread_body read n) n (Inv read n) Step-Inv (boot-Inv read n sig sized)

  -- No thread is about to make an access out of bounds.
  pub readfile-IsSafe :
      (c : System Shared Pc)
      → Reach (thread_body read n) n (boot sig) c
      → IsSafe (thread_body read n) n c
  readfile-IsSafe c r i l h e = turn_of (Reach-Inv r) i h e

  -- In every reachable state of up to 32 threads of racey-readfile, started over 33 values of
  -- `sig`, if each call of `read` returns at most 256 and a buffer of 64 `int`, then a thread is
  -- behind its main loop only if some call that was made has found the end of the file or failed.
  pub readfile_reads_to_end :
      {c : System Shared Pc}
      → Reach (thread_body read n) n (boot sig) c
      → (j : ℕ) → is_through (c.locals j) ≡ true
      → HasEnded read c.shared.reads
  readfile_reads_to_end r j e = (Reach-Inv r).seen j e

  -- In every reachable state of up to 32 threads of racey-readfile, started over 33 values of
  -- `sig`, if each call of `read` returns at most 256 and a buffer of 64 `int`, and one thread is
  -- behind the barrier, then all threads have arrived at it.
  readfile_barrier :
      {c : System Shared Pc}
      → Reach (thread_body read n) n (boot sig) c
      → (i j : ℕ) → inside (c.locals i) ≡ true
      → 1 ≤ j
      → j ≤ n
      → started (c.locals j) ≡ 1
  readfile_barrier {c} r i j e low high =
      let inv = Reach-Inv r in
      total_full started (λ p. ground arith) n c.locals
        (omega
          (arith, inv.counted, inv.opened i e, total-le started (λ p. ground arith) n c.locals))
        j low high
