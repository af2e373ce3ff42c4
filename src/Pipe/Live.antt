-- ===== src/Pipe/Live.antt =====
-- Some thread over pipes can always make a move until all have ended.
use mathlib.Core.Path.{subst}
use racey_suite.Prelude.{
  ℕ, suc, ◌+◌, ◌*◌, ◌≤◌, ◌≡◌, refl, true, false, length, arith, ap, sym, ◌==◌, leb, total_some,
  Bool-cases, inl, inr,
}
use racey_suite.Machine.{System, Turn, moved, waiting, halted, fault, all_ended}
use racey_suite.Machine.Liveness.{CanProgress, all_ended-eq-false}
use racey_suite.Pipe.{
  Kind, forked, cloned, Shared, Pc, reader_starts, closing, reading, sending, writer_starts,
  writing, leaving, main_closes, ended, at_end, pipe_of, pipe_step, is_ended, target_of,
  fill_buffer,
}
use racey_suite.Pipe.Role.{IsRole, writes, copies_of, opens, bit, reader_of, is_past}
use racey_suite.Pipe.Move.{MoveOf, pipe_step-MoveOf}
use racey_suite.Pipe.Invariant.{Inv}
use racey_suite.Pipe.Progress.{work, left, is_idle, Ready, Move-less, pipe_step-busy}

module _ {kind : Kind} {capacity n max_loop : ℕ} (some_pipe : 1 ≤ n) (few : n ≤ 32)
    (room : 16 ≤ capacity) {c : System Shared Pc} (inv : Inv kind n max_loop c) where
  abbrev Progress : Type 0
  Progress =
      CanProgress (pipe_step kind capacity n max_loop) (left n) (work max_loop) (suc (2 * n)) c

  by_turn :
      (i : ℕ)
      → 1 ≤ i
      → i ≤ suc (2 * n)
      → (t : Turn Shared Pc) → pipe_step kind capacity n max_loop i c.shared (c.locals i) ≡ t
      → MoveOf kind n max_loop i c.shared (c.locals i) t
      → is_idle t ≡ false
      → Progress
  by_turn i l h (moved s p) e mv busy = record {
    thread = i;
    first = l;
    last = h;
    memory = s;
    local = p;
    moves = e;
    less = Move-less (inv.roles i l h) l mv;
  }
  by_turn i l h waiting e mv busy = cc
  by_turn i l h halted e mv busy = cc
  by_turn i l h fault e mv busy = elim mv [ ]

  -- A thread that is ready makes a move.
  ready :
      (i : ℕ)
      → 1 ≤ i
      → i ≤ suc (2 * n)
      → (p : Pc) → c.locals i ≡ p
      → Ready kind capacity n i c.shared p
      → Progress
  ready i l h p here r =
      by_turn i l h _ refl
        (pipe_step-MoveOf kind capacity n max_loop i some_pipe few c.shared (c.locals i)
          (inv.roles i l h))
        (pipe_step-busy kind capacity n max_loop i c.shared (c.locals i)
          (subst (Ready kind capacity n i c.shared) (sym here) r))

  role : (i : ℕ) (p : Pc) → 1 ≤ i → i ≤ suc (2 * n) → c.locals i ≡ p → IsRole n max_loop i p
  role i p l h here = subst (IsRole n max_loop i) here (inv.roles i l h)

  -- The reader of a pipe with something in it.
  reader_goes_on :
      (t : ℕ)
      → 1 ≤ t
      → t ≤ n
      → 1 ≤ length (c.shared.inputs t)
      → (p : Pc) → c.locals (reader_of t) ≡ p
      → Progress
  reader_goes_on t l h full reader_starts here =
      ready (reader_of t) (omega arith) (omega arith) _ here tt
  reader_goes_on t l h full (closing num) here =
      ready (reader_of t) (omega arith) (omega arith) _ here tt
  reader_goes_on t l h full (sending num) here =
      ready (reader_of t) (omega arith) (omega arith) _ here tt
  reader_goes_on t l h full (reading num) here =
      let same : pipe_of (reader_of t) ≡ t = omega arith in
      ready (reader_of t) (omega arith) (omega arith) _ here
        (inl (subst (λ k. 1 ≤ length (c.shared.inputs k)) (sym same) full))
  reader_goes_on t l h full ended here =
      let (none_left, empty) = inv.drained t l h (ap is_past here) in
      absurd (omega (arith, ap length empty))
  reader_goes_on t l h full p here =
      absurd (omega (arith, role (reader_of t) p (omega arith) (omega arith) here))

  writer_goes_on :
      (i : ℕ) → 1 ≤ i → i ≤ suc (2 * n) → (p : Pc) → c.locals i ≡ p → 1 ≤ writes p → Progress
  writer_goes_on i l h writer_starts here w = ready i l h _ here tt
  writer_goes_on i l h leaving here w = ready i l h _ here tt
  writer_goes_on i l h (writing a num) here w =
      let t : ℕ = target_of n (fill_buffer 16 0 num).1 in
      elim (Bool-cases (leb (length (c.shared.inputs t) + 16) capacity)) [
        | inl fits ↦ ready i l h _ here (ground arith)
        | inr full ↦ reader_goes_on t (omega arith) (grind arith) (ground arith) _ refl
      ]
  writer_goes_on i l h p here w = ground arith

  some_writer : 1 ≤ c.shared.writers → Progress
  some_writer some_left =
      let (i, l, h, w) = total_some writes (suc (2 * n)) c.locals (rw inv.writers at some_left) in
      writer_goes_on i l h (c.locals i) refl w

  main_goes_on :
      (k : Kind)
      → kind ≡ k
      → (i : ℕ) → 1 ≤ i
      → i ≤ suc (2 * n)
      → c.locals i ≡ main_closes
      → Progress
  main_goes_on forked same i l h here = ready i l h main_closes here (rw same refl)
  main_goes_on cloned same i l h here = elim (Bool-cases (c.shared.writers == 0)) [
    | inl joined ↦ ready i l h main_closes here (rw same joined)
    | inr more ↦ some_writer (ground arith)
  ]

  opens-main : (p : Pc) → 1 ≤ opens p → p ≡ main_closes
  opens-main main_closes e = refl
  opens-main p e = ground arith

  some_main : c.shared.main_open ≡ true → Progress
  some_main e =
      let (i, l, h, w) =
        total_some opens (suc (2 * n)) c.locals (omega (arith, inv.open_ends, ap bit e)) in
      main_goes_on kind refl i l h (opens-main (c.locals i) w)

  copier_goes_on :
      (i : ℕ)
      → 1 ≤ i
      → i ≤ suc (2 * n)
      → (p : Pc) → c.locals i ≡ p
      → 1 ≤ copies_of kind p
      → Progress
  copier_goes_on i l h reader_starts here w = ready i l h _ here tt
  copier_goes_on i l h (closing num) here w = ready i l h _ here tt
  copier_goes_on i l h p here w = ground arith

  some_copy : 1 ≤ c.shared.copies → Progress
  some_copy some_left =
      let (i, l, h, w) =
        total_some (copies_of kind) (suc (2 * n)) c.locals (rw inv.copies at some_left) in
      copier_goes_on i l h (c.locals i) refl w

  -- While a write end is open, its holder goes on.
  holder_goes_on : (k : Kind) → at_end k c.shared ≡ false → Progress
  holder_goes_on k e = elim (Bool-cases c.shared.main_open) [
    | inl still ↦ some_main still
    | inr gone ↦ elim (Bool-cases (c.shared.writers == 0)) [
      | inr more ↦ some_writer (ground arith)
      | inl none_left ↦ some_copy (copies_left k e gone none_left)
    ]
  ]
    where
      copies_left :
          (k : Kind)
          → at_end k c.shared ≡ false
          → c.shared.main_open ≡ false
          → (c.shared.writers == 0) ≡ true
          → 1 ≤ c.shared.copies
      copies_left forked e gone none_left = ground arith
      copies_left cloned e gone none_left = ground arith

  reading_goes_on : (i num : ℕ) → 1 ≤ i → i ≤ suc (2 * n) → c.locals i ≡ reading num → Progress
  reading_goes_on i num l h here = elim (Bool-cases (at_end kind c.shared)) [
    | inl over ↦ ready i l h _ here (inr over)
    | inr more ↦ holder_goes_on kind more
  ]

  live_goes_on :
      (i : ℕ) → 1 ≤ i → i ≤ suc (2 * n) → (p : Pc) → c.locals i ≡ p → is_ended p ≡ false → Progress
  live_goes_on i l h reader_starts here e = ready i l h _ here tt
  live_goes_on i l h (closing num) here e = ready i l h _ here tt
  live_goes_on i l h (sending num) here e = ready i l h _ here tt
  live_goes_on i l h (reading num) here e = reading_goes_on i num l h here
  live_goes_on i l h main_closes here e = main_goes_on kind refl i l h here
  live_goes_on i l h ended here e = cc
  live_goes_on i l h writer_starts here e = writer_goes_on i l h _ here (omega arith)
  live_goes_on i l h (writing a num) here e = writer_goes_on i l h _ here (omega arith)
  live_goes_on i l h leaving here e = writer_goes_on i l h _ here (omega arith)

  -- Until all have ended, some thread makes progress.
  pub goes_on : all_ended is_ended (suc (2 * n)) c.locals ≡ false → Progress
  goes_on e =
      let (i, l, h, live) = all_ended-eq-false is_ended (suc (2 * n)) c.locals e in
      live_goes_on i l h (c.locals i) refl live
