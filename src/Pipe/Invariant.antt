-- ===== src/Pipe/Invariant.antt =====
-- The invariant of the threads over pipes: who holds write ends, and what is left in the pipes of
-- readers behind their main loop.
use mathlib.Core.Path.{subst}
use mathlib.Core.Bool.{false≢true}
use mathlib.Core.Logic.{if_pos, if_neg}
use racey_suite.Prelude.{
  ℕ, suc, ◌*◌, ◌≤◌, ◌≡◌, refl, true, false, [], length, arith, ap, ◌∙◌, sym, update, update-each,
  total, total-update, le-total, ℕ_discrete,
}
use racey_suite.Machine.{System, Step, pick, Reach, Turn}
use racey_suite.Machine.Laws.{Reach_inv, IsSafe}
use racey_suite.Pipe.{Kind, forked, cloned, Shared, Pc, at_end, pipe_step, boot}
use racey_suite.Pipe.Role.{
  IsRole, writes, copies_of, opens, bit, reader_of, is_past, sent, writes-first, copies-first,
  opens-first, copies-none, first-IsRole, first-not_past, first-not_sent,
}
use racey_suite.Pipe.Move.{Move, MoveOf, pipe_step-MoveOf}
use racey_suite.Pipe.Effect.{Counts, Pipes, Move-Counts, Move-Pipes, Move-IsRole, Move-closed}

pub record Inv (kind : Kind) (n max_loop : ℕ) (c : System Shared Pc) : Type 0 where
  pub writers : c.shared.writers ≡ total writes (suc (2 * n)) c.locals
  pub copies : c.shared.copies ≡ total (copies_of kind) (suc (2 * n)) c.locals
  pub open_ends : bit c.shared.main_open ≡ total opens (suc (2 * n)) c.locals
  -- `main` of racey-clonepipe closes its ends behind the writers.
  pub closed : kind ≡ cloned → c.shared.main_open ≡ false → c.shared.writers ≡ 0
  pub roles : (i : ℕ) → 1 ≤ i → i ≤ suc (2 * n) → IsRole n max_loop i (c.locals i)
  pub drained :
      (t : ℕ)
      → 1 ≤ t
      → t ≤ n
      → is_past (c.locals (reader_of t)) ≡ true
      → (c.shared.writers ≡ 0) × (c.shared.inputs t ≡ [])
  pub delivered :
      (t : ℕ) → 1 ≤ t → t ≤ n → length (c.shared.outputs t) ≡ sent (c.locals (reader_of t))

module _ {kind : Kind} {n max_loop : ℕ} {c : System Shared Pc} (inv : Inv kind n max_loop c) where
  at_end-writers : (k : Kind) → kind ≡ k → at_end k c.shared ≡ true → c.shared.writers ≡ 0
  at_end-writers forked same e = ground arith
  at_end-writers cloned same e = inv.closed same (ground arith)

  module _ (i : ℕ) (low : 1 ≤ i) (high : i ≤ suc (2 * n)) {s : Shared} {p : Pc}
      (mv : Move kind n max_loop i c.shared (c.locals i) s p) where
    counts : Counts kind c.shared (c.locals i) s p
    counts =
        Move-Counts (rw inv.writers (le-total writes (suc (2 * n)) c.locals i low high))
          (rw inv.copies (le-total (copies_of kind) (suc (2 * n)) c.locals i low high))
          (rw inv.open_ends (le-total opens (suc (2 * n)) c.locals i low high)) mv

    pipes : (t : ℕ) → 1 ≤ t → t ≤ n → Pipes kind i c.shared (c.locals i) s p t
    pipes t l h =
        Move-Pipes t l h (inv.roles i low high)
          (rw inv.writers (le-total writes (suc (2 * n)) c.locals i low high))
          (at_end-writers kind refl) (λ mine past. inv.drained t l h (rw mine past)) mv

    drained_after :
        (t : ℕ)
        → 1 ≤ t
        → t ≤ n
        → is_past (update c.locals i p (reader_of t)) ≡ true
        → (s.writers ≡ 0) × (s.inputs t ≡ [])
    drained_after t l h past = elim (ℕ_discrete i (reader_of t)) [
      | yes mine ↦ (pipes t l h).ends (rw (if_pos _ mine) at past) (sym mine)
      | no other ↦
          let (none_left, empty) = inv.drained t l h (rw (if_neg _ other) at past) in
          let q = pipes t l h in
          (omega (arith, q.fewer), q.stays_empty none_left (λ e. other (sym e)) empty)
    ]

    delivered_after :
        (t : ℕ) → 1 ≤ t → t ≤ n → length (s.outputs t) ≡ sent (update c.locals i p (reader_of t))
    delivered_after t l h = elim (ℕ_discrete i (reader_of t)) [
      | yes mine ↦
          let old : length (c.shared.outputs t) ≡ sent (c.locals i) =
            inv.delivered t l h ∙ ap (λ k. sent (c.locals k)) (sym mine) in
          rw (if_pos _ mine) (omega (arith, (pipes t l h).sends (sym mine), old))
      | no other ↦
          rw (if_neg _ other)
            (ap length ((pipes t l h).untouched (λ e. other (sym e))) ∙ inv.delivered t l h)
    ]

    Move-Inv : Inv kind n max_loop (record { shared = s; locals = update c.locals i p })
    Move-Inv = record {
      writers = omega (
        arith,
        counts.writers,
        inv.writers,
        total-update writes (suc (2 * n)) c.locals i p low high,
      );
      copies = omega (
        arith,
        counts.copies,
        inv.copies,
        total-update (copies_of kind) (suc (2 * n)) c.locals i p low high,
      );
      open_ends = omega (
        arith,
        counts.open_ends,
        inv.open_ends,
        total-update opens (suc (2 * n)) c.locals i p low high,
      );
      closed = Move-closed inv.closed mv;
      roles = λ j l h.
          update-each (IsRole n max_loop) c.locals i p (Move-IsRole (inv.roles i low high) mv) j
            (inv.roles j l h);
      drained = drained_after;
      delivered = delivered_after;
    }

boot-Inv : (kind : Kind) (n max_loop : ℕ) → Inv kind n max_loop (boot kind n)
boot-Inv kind n max_loop = record {
  writers = sym (writes-first n);
  copies = copies-boot kind;
  open_ends = sym (opens-first n);
  closed = λ k e. cc;
  roles = λ i l h. first-IsRole n max_loop i l h;
  drained = λ t l h past. absurd (false≢true (sym (first-not_past n (reader_of t)) ∙ past));
  delivered = λ t l h. sym (first-not_sent n (reader_of t));
}
  where
    copies-boot :
        (k : Kind) → (boot k n).shared.copies ≡ total (copies_of k) (suc (2 * n)) (boot k n).locals
    copies-boot forked = sym (copies-first n)
    copies-boot cloned = sym (copies-none n)

module _ (kind : Kind) (capacity n max_loop : ℕ) (some_pipe : 1 ≤ n) (few : n ≤ 32) where
  turn_of :
      {c : System Shared Pc} {o : Turn Shared Pc}
      → Inv kind n max_loop c
      → (i : ℕ) → 1 ≤ i
      → i ≤ suc (2 * n)
      → pipe_step kind capacity n max_loop i c.shared (c.locals i) ≡ o
      → MoveOf kind n max_loop i c.shared (c.locals i) o
  turn_of {c} inv i l h e = subst (MoveOf kind n max_loop i c.shared (c.locals i)) e (
      pipe_step-MoveOf kind capacity n max_loop i some_pipe few c.shared (c.locals i)
        (inv.roles i l h))

  Step-Inv :
      (c d : System Shared Pc)
      → Step (pipe_step kind capacity n max_loop) (suc (2 * n)) c d
      → Inv kind n max_loop c
      → Inv kind n max_loop d
  Step-Inv c d (pick i l h e) inv = Move-Inv inv i l h (turn_of inv i l h e)

  -- The invariant holds in every reachable state.
  pub Reach-Inv :
      {c : System Shared Pc}
      → Reach (pipe_step kind capacity n max_loop) (suc (2 * n)) (boot kind n) c
      → Inv kind n max_loop c
  Reach-Inv =
      Reach_inv (pipe_step kind capacity n max_loop) (suc (2 * n)) (Inv kind n max_loop) Step-Inv
        (boot-Inv kind n max_loop)

  pub pipe-IsSafe :
      (c : System Shared Pc)
      → Reach (pipe_step kind capacity n max_loop) (suc (2 * n)) (boot kind n) c
      → IsSafe (pipe_step kind capacity n max_loop) (suc (2 * n)) c
  pipe-IsSafe c r i l h e = turn_of (Reach-Inv r) i l h e
