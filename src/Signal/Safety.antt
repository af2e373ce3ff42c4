-- ===== src/Signal/Safety.antt =====
-- No turn of the threads of racey-signal.c goes wrong, and to whom they send signals.
use mathlib.Core.Path.{subst}
use mathlib.Core.Bool.{false≢true}
use racey_suite.Prelude.{
  ℕ, ◌-◌, ◌*◌, ◌≤◌, ◌<◌, ◌≡◌, refl, true, false, Option, none, some, length, get_or,
  get_elem?-eq-get_or, set?-eq-set, arith, ◌∙◌, sym, ap, leb, Bool-cases, inl, inr,
}
use racey_suite.Machine.{System}
use racey_suite.Signal.{
  Frame, Shared, Pc, storing_self, installing, arriving, passing, mixing, signalling, coming_back,
  leaving, ended, delivering, body_step, signal_step, interruptible, choose_and_kill, target_of,
  next_batch, handler_memory,
}
use racey_suite.Signal.Move.{
  HasSizes, IsPc, IsFrame, store, install, arrive, pass, kills, come_back, leave, MoveOf,
  handler_turn-MoveOf, after_mix-MoveOf, deliver-MoveOf, either-MoveOf, mix_step-Sized,
  next_batch-in_loop,
}
use racey_suite.Signal.Invariant.{Inv, kernel, came, back, inside, has_self}

came-has_self : (p : Pc) → came p ≡ 1 → kernel p ≡ 0 → has_self p ≡ true
came-has_self p e k = ground arith

-- A thread to which a signal can be sent: one of the program, which has stored its
-- `pthread_self()` and has not ended.
pub record Target (n : ℕ) (c : System Shared Pc) (t : ℕ) : Type 0 where
  pub first : 1 ≤ t
  pub last : t ≤ n
  pub known : get_or c.shared.thread_selfs t false ≡ true
  pub alive : c.shared.dead t ≡ false

module _ {n : ℕ} {c : System Shared Pc} (inv : Inv n c) (some_thread : 1 ≤ n) (few : n ≤ 32)
    (max_loop i : ℕ) (low : 1 ≤ i) (high : i ≤ 2 * n) where
  pub in_program : (p : Pc) → c.locals i ≡ p → kernel p ≡ 0 → i ≤ n
  in_program p here e = ground (arith, inv.roles i low high, ap kernel here, e)

  pub target : (k : ℕ) → c.locals i ≡ signalling k → (num : ℕ) → Target n c (target_of n num)
  target k here num =
      let small : target_of n num ≤ n = omega arith in
      let arrived : came (c.locals (target_of n num)) ≡ 1 =
        inv.opened i low high (ap inside here) (target_of n num) (omega arith) (omega arith) in
      record {
        first = omega arith;
        last = small;
        known = inv.stored (target_of n num) (omega arith) small (
            came-has_self (c.locals (target_of n num)) arrived
              (ground (arith, inv.roles (target_of n num) (omega arith) (omega arith))));
        alive = elim (Bool-cases (c.shared.dead (target_of n num))) [
          | inr e ↦ e
          | inl e ↦
              let mine : back (c.locals i) ≡ 1 = inv.shut (target_of n num) e i low high in
              absurd (omega (arith, mine, ap back here))
        ];
      }

  kills-MoveOf :
      (k num : ℕ)
      → c.locals i ≡ signalling k
      → MoveOf n i c.shared
          (signalling k)
          (choose_and_kill n c.shared (next_batch max_loop k) (some num))
  kills-MoveOf k num here =
      let t = target k here num in
      let (inside, legal) = next_batch-in_loop max_loop k in
      rw
        (
          get_elem?-eq-get_or c.shared.thread_selfs (target_of n num) false
              (omega (arith, inv.selfs, t.last)),
          t.known,
        )
        (either-MoveOf n i c.shared (signalling k) _ _ (c.shared.dead (target_of n num))
          (λ e. absurd (false≢true (sym t.alive ∙ e))) (λ e. kills (target_of n num) inside legal))

  body-MoveOf :
      (p : Pc) → c.locals i ≡ p → MoveOf n i c.shared p (body_step n max_loop i c.shared p)
  unfolding body_step
  body-MoveOf storing_self here =
      let room : i < length c.shared.thread_selfs =
        omega (arith, inv.selfs, in_program storing_self here refl) in
      rw (set?-eq-set c.shared.thread_selfs i true room) (store room)
  body-MoveOf installing here = install
  body-MoveOf arriving here = arrive
  body-MoveOf passing here =
      let (inside, legal) = next_batch-in_loop max_loop 0 in
      either-MoveOf n i c.shared passing _ _ (leb n c.shared.arrived)
        (λ e. pass (ground arith) inside legal) (λ e. tt)
  body-MoveOf (mixing k b q) here =
      let legal = subst IsPc here (inv.legal i) in
      let (r, e, ok) =
        mix_step-Sized i c.shared.mem q (omega (arith, in_program (mixing k b q) here refl))
          inv.sizes legal in
      rw e (after_mix-MoveOf n i max_loop c.shared k b q r ok)
  body-MoveOf (signalling k) here =
      rw
        (get_elem?-eq-get_or c.shared.mem.sig i 0
          (omega (arith, inv.sizes.sigs, in_program (signalling k) here refl)))
        (kills-MoveOf k (get_or c.shared.mem.sig i 0) here)
  body-MoveOf coming_back here = come_back
  body-MoveOf leaving here =
      either-MoveOf n i c.shared leaving _ _ (leb (2 * n) c.shared.arrived)
        (λ e. leave (ground arith)) (λ e. tt)
  body-MoveOf ended here = tt
  body-MoveOf delivering here =
      either-MoveOf n i c.shared delivering _ _ (c.shared.dead (i - n)) (λ e. tt)
        (λ e.
          deliver-MoveOf n i c.shared (i - n) (c.shared.pending (i - n)) (c.shared.frames (i - n))
            (omega arith) (inv.pends (i - n)))

  interrupted :
      (p : Pc)
      → c.locals i ≡ p
      → (o : Option Frame) → IsFrame n i o
      → MoveOf n i c.shared p (interruptible n max_loop i c.shared p o)
  interrupted p here none legal = body-MoveOf p here
  interrupted p here (some frame) (small, legal) =
      let seen : HasSizes (handler_memory c.shared) = record {
        sigs = inv.sizes2;
        cells = inv.sizes.cells;
      } in
      let (r, e, ok) =
        mix_step-Sized i (handler_memory c.shared) frame.point (omega arith) seen legal in
      rw e (handler_turn-MoveOf n i c.shared p frame.rounds frame.point r small ok)

  -- No turn goes wrong.
  pub turn-MoveOf :
      MoveOf n i c.shared (c.locals i) (signal_step n max_loop i c.shared (c.locals i))
  unfolding signal_step
  turn-MoveOf = interrupted (c.locals i) refl (c.shared.frames i) (inv.framed i)
