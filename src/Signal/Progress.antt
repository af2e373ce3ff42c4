-- ===== src/Signal/Progress.antt =====
-- How far the threads of racey-signal.c are from their end, and the moves that bring them nearer.
use mathlib.Core.Path.{subst}
use racey_suite.Prelude.{
  ℕ, zero, suc, ◌+◌, ◌-◌, ◌*◌, ◌≤◌, ◌<◌, ◌≡◌, refl, true, false, Option, none, some, get_or, set,
  get_elem?-eq-get_or, set?-eq-set, arith, ◌∙◌, ap, if◌then◌else◌, update, total, total-update,
  Option-cases, inl, inr,
}
use racey_suite.Machine.{System, moved, fault}
use racey_suite.Machine.Liveness.{CanProgress}
use racey_suite.Racey.{Mixing, fetch, Round, busy, over, mix_step}
use racey_suite.Racey.Loop.{accesses}
use racey_suite.Signal.{
  Frame, Shared, Pc, storing_self, installing, arriving, passing, mixing, signalling, coming_back,
  leaving, ended, delivering, npersig, next_inner, next_batch, after_mix, body_step, signal_step,
  interruptible, handled, handler_memory, handler_turn, next_frame, target_of, kill,
  choose_and_kill, store_self,
}
use racey_suite.Signal.Move.{IsFrame, Sized, IsPc, mix_step-Sized}
use racey_suite.Signal.Invariant.{Inv}
use racey_suite.Signal.Safety.{target, in_program}

-- What is left of a handler, and of a thread.
abbrev frame_work : Option Frame → ℕ
frame_work none = 0
frame_work (some frame) = 5 * frame.rounds + accesses frame.point

abbrev pub left : ℕ → Shared → ℕ
left n s = total frame_work n s.frames

abbrev pub work : ℕ → Pc → ℕ
work max_loop storing_self = 7 * max_loop + 7
work max_loop installing = 7 * max_loop + 6
work max_loop arriving = 7 * max_loop + 5
work max_loop passing = 7 * max_loop + 4
work max_loop (mixing i k q) = 7 * (max_loop - suc i) + accesses q + 4
work max_loop (signalling i) = 7 * (max_loop - i) + 3
work max_loop coming_back = 2
work max_loop leaving = 1
work max_loop ended = 0
work max_loop delivering = 0

accesses-pos : (q : Mixing) → 1 ≤ accesses q
accesses-pos fetch = omega arith
accesses-pos _ = omega arith

npersig-pos : (max_loop : ℕ) → 1 ≤ npersig max_loop
npersig-pos max_loop = ground arith

next_inner-work :
    (max_loop i k : ℕ) → work max_loop (next_inner max_loop i k) ≤ 7 * (max_loop - i) + 3
unfolding next_inner
next_inner-work max_loop i k = ground arith

next_batch-work : (max_loop i : ℕ) → work max_loop (next_batch max_loop i) < 7 * (max_loop - i) + 3
unfolding next_batch next_inner
next_batch-work max_loop i = ground (arith, npersig-pos max_loop)

next_frame-work : (rounds : ℕ) → frame_work (next_frame rounds) ≤ 5 * rounds
next_frame-work zero = omega arith
next_frame-work (suc rounds) = omega arith

module _ {n : ℕ} {c : System Shared Pc} (inv : Inv n c) (some_thread : 1 ≤ n) (few : n ≤ 32)
    (max_loop : ℕ) where
  abbrev pub Progress : Type 0
  Progress = CanProgress (signal_step n max_loop) (left n) (work max_loop) (2 * n) c

  module _ (i : ℕ) (low : 1 ≤ i) (high : i ≤ 2 * n) where
    by_turn :
        (p : Pc) (o : Option Frame) (s : Shared) (p' : Pc)
        → c.locals i ≡ p
        → c.shared.frames i ≡ o
        → interruptible n max_loop i c.shared p o ≡ moved s p'
        → left n s + work max_loop p' < left n c.shared + work max_loop p
        → Progress
    unfolding signal_step
    by_turn p o s p' here frame e less = record {
      thread = i;
      first = low;
      last = high;
      memory = s;
      local = p';
      moves =
          ap (λ q. interruptible n max_loop i c.shared q (c.shared.frames i)) here
          ∙ ap (interruptible n max_loop i c.shared p) frame
          ∙ e;
      less = omega (arith, less, ap (work max_loop) here);
    }

    legal_frame : (o : Option Frame) → c.shared.frames i ≡ o → IsFrame n i o
    legal_frame o e = subst (IsFrame n i) e (inv.framed i)

    frame_after :
        (frame : Frame) (o : Option Frame)
        → c.shared.frames i ≡ some frame
        → i ≤ n
        → total frame_work n (update c.shared.frames i o) + frame_work (some frame)
          ≡ left n c.shared + frame_work o
    frame_after frame o running small =
        omega
          (arith, total-update frame_work n c.shared.frames i o low small, ap frame_work running)

    -- A handler comes nearer to its end.
    handler_moves :
        (p : Pc) (frame : Frame)
        → c.locals i ≡ p
        → c.shared.frames i ≡ some frame
        → i ≤ n
        → (r : Round) → mix_step i (handler_memory c.shared) frame.point ≡ some r
        → Sized frame.point r
        → Progress
    handler_moves p frame here running small (busy mem q) e (ok, legal, less) =
        let after = some (record { rounds = frame.rounds; point = q }) in
        by_turn p (some frame) (handled c.shared mem i after) p here running
          (ap (handler_turn c.shared i p frame.rounds) e)
          (omega (arith, frame_after frame after running small))
    handler_moves p frame here running small (over mem) e ok =
        by_turn p (some frame) (handled c.shared mem i (next_frame frame.rounds)) p here running
          (ap (handler_turn c.shared i p frame.rounds) e)
          (omega (
            arith,
            frame_after frame (next_frame frame.rounds) running small,
            next_frame-work frame.rounds,
            accesses-pos frame.point,
          ))

    interrupted_moves : (frame : Frame) → c.shared.frames i ≡ some frame → Progress
    interrupted_moves frame running =
        let (small, legal) = legal_frame (some frame) running in
        let (r, e, ok) =
          mix_step-Sized i (handler_memory c.shared) frame.point (omega arith)
            (record { sigs = inv.sizes2; cells = inv.sizes.cells }) legal in
        handler_moves (c.locals i) frame refl running small r e ok

    -- What lets a thread that is not in its handler go on.
    abbrev pub Ready : Pc → Type 0
    Ready passing = n ≤ c.shared.arrived
    Ready leaving = 2 * n ≤ c.shared.arrived
    Ready ended = ⊥
    Ready delivering = ⊥
    Ready _ = Unit

    body_moves :
        (p : Pc) (s : Shared) (p' : Pc)
        → c.locals i ≡ p
        → c.shared.frames i ≡ none
        → body_step n max_loop i c.shared p ≡ moved s p'
        → left n s + work max_loop p' < left n c.shared + work max_loop p
        → Progress
    body_moves p s p' here free e less = by_turn p none s p' here free e less

    mixing_moves :
        (k b : ℕ) (q : Mixing)
        → c.locals i ≡ mixing k b q
        → c.shared.frames i ≡ none
        → (r : Round) → mix_step i c.shared.mem q ≡ some r
        → Sized q r
        → Progress
    unfolding body_step
    mixing_moves k b q here free (busy mem q') e (ok, legal, less) =
        body_moves (mixing k b q) (record c.shared { mem = mem }) (mixing k b q') here free
          (ap (after_mix max_loop c.shared k b) e) (omega arith)
    mixing_moves k b q here free (over mem) e ok =
        body_moves (mixing k b q) (record c.shared { mem = mem })
          (next_inner max_loop (suc k) (suc b)) here free (ap (after_mix max_loop c.shared k b) e)
          (omega (arith, next_inner-work max_loop (suc k) (suc b), accesses-pos q))

    signal_moves : (k : ℕ) → c.locals i ≡ signalling k → c.shared.frames i ≡ none → Progress
    unfolding body_step
    signal_moves k here free =
        let num = get_or c.shared.mem.sig i 0 in
        let t = target inv some_thread few max_loop i low high k here num in
        let small = in_program inv some_thread few max_loop i low high (signalling k) here refl in
        let next = next_batch max_loop k in
        body_moves (signalling k)
          (record c.shared { pending = update c.shared.pending (target_of n num) true }) next here
          free
          (ap (choose_and_kill n c.shared next)
              (get_elem?-eq-get_or c.shared.mem.sig i 0 (omega (arith, inv.sizes.sigs)))
            ∙ ap (kill c.shared (target_of n num) next) (
                get_elem?-eq-get_or c.shared.thread_selfs (target_of n num) false
                  (omega (arith, inv.selfs, t.last))
                ∙ ap some t.known)
            ∙ ap
                (λ b.
                  if b
                  then fault
                  else moved
                      (record c.shared { pending = update c.shared.pending (target_of n num) true })
                      next)
                t.alive)
          (omega (arith, next_batch-work max_loop k))

    ready_moves : (p : Pc) → c.locals i ≡ p → c.shared.frames i ≡ none → Ready p → Progress
    unfolding body_step
    ready_moves storing_self here free r =
        let small = in_program inv some_thread few max_loop i low high storing_self here refl in
        body_moves storing_self
          (record c.shared { thread_selfs = set c.shared.thread_selfs i true }) installing here free
          (ap (store_self c.shared)
            (set?-eq-set c.shared.thread_selfs i true (omega (arith, inv.selfs))))
          (omega arith)
    ready_moves installing here free r =
        body_moves installing (record c.shared { installed = true }) arriving here free refl
          (omega arith)
    ready_moves arriving here free r =
        body_moves arriving (record c.shared { arrived = suc c.shared.arrived }) passing here free
          refl (omega arith)
    ready_moves passing here free r =
        body_moves passing c.shared (next_batch max_loop 0) here free (ground arith)
          (omega (arith, next_batch-work max_loop 0))
    ready_moves (mixing k b q) here free r =
        let small = in_program inv some_thread few max_loop i low high (mixing k b q) here refl in
        let (round, e, ok) =
          mix_step-Sized i c.shared.mem q (omega arith) inv.sizes (subst IsPc here (inv.legal i)) in
        mixing_moves k b q here free round e ok
    ready_moves (signalling k) here free r = signal_moves k here free
    ready_moves coming_back here free r =
        body_moves coming_back (record c.shared { arrived = suc c.shared.arrived }) leaving here
          free refl (omega arith)
    ready_moves leaving here free r =
        body_moves leaving (record c.shared { dead = update c.shared.dead i true }) ended here free
          (ground arith) (omega arith)
    ready_moves ended here free r = elim r [ ]
    ready_moves delivering here free r = elim r [ ]

    -- A thread in its handler, or ready, makes a move.
    pub moves_on : Ready (c.locals i) → Progress
    moves_on r = elim (Option-cases (c.shared.frames i)) [
      | inl free ↦ ready_moves (c.locals i) refl free r
      | inr (frame, running) ↦ interrupted_moves frame running
    ]
