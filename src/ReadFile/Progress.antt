-- ===== src/ReadFile/Progress.antt =====
-- The measure by which the threads of racey-readfile come nearer to their end.
use racey_suite.Prelude.{
  ℕ, zero, suc, ℤ, pos, negsuc, Option, none, some, ◌+◌, ◌-◌, ◌≤◌, ◌<◌, ◌≡◌, refl, Bool, true,
  false, List, length, total_missing, leb, Bool-cases, inl, inr, arith,
}
use racey_suite.Outcome.{returned}
use racey_suite.Machine.{
  System, Reach, Turn, moved, waiting, halted, fault, all_ended, run_and_join,
}
use racey_suite.Machine.Liveness.{CanProgress, can_end_after, can_join_after, all_ended-eq-false}
use racey_suite.Racey.{mix}
use racey_suite.ReadFile.{
  ReadResult, Shared, Pc, starting, arriving, waits, reading, saving, ended, as_unsigned,
  start_with, next_read, after_read, end_with, thread_body, is_ended, boot,
}
use racey_suite.ReadFile.Move.{
  IsRead, is_last, started, Move, begin, arrive, go, more, stop, store, MoveOf, thread_body-MoveOf,
}
use racey_suite.ReadFile.Invariant.{Inv, Reach-Inv}

-- From call `last` on, `read` finds the end of the file or fails.
abbrev pub EndsBy : (ℕ → ReadResult) → ℕ → Type 0
EndsBy read last = (k : ℕ) → last ≤ k → is_last (read k).r ≡ true

abbrev work : Pc → ℕ
work starting = 5
work (arriving num) = 4
work (waits num) = 3
work (reading num) = 2
work (saving num) = 1
work ended = 0

-- The calls of `read` that may still find something.
abbrev left : ℕ → Shared → ℕ
left last s = last - s.reads

-- A turn that moves uses up a call or brings the thread nearer to its end.
Move-less :
    {read : ℕ → ReadResult} {n : ℕ} (last : ℕ) {s s' : Shared} {p p' : Pc}
    → EndsBy read last
    → Move read n s p s' p'
    → left last s' + work p' < left last s + work p
Move-less last ends begin = omega arith
Move-less last ends arrive = omega arith
Move-less last ends (go all) = omega arith
Move-less last {s = s} ends (more q) = ground (arith, ends s.reads)
Move-less last ends (stop q) = omega arith
Move-less last ends (store h) = omega arith

abbrev is_idle : Turn Shared Pc → Bool
is_idle waiting = true
is_idle halted = true
is_idle _ = false

abbrev is_waiting : Pc → Bool
is_waiting (waits num) = true
is_waiting _ = false

start_with-busy : (s : Shared) (o : Option ℕ) → is_idle (start_with s o) ≡ false
start_with-busy s none = refl
start_with-busy s (some num) = refl

end_with-busy : (s : Shared) (o : Option (List ℕ)) → is_idle (end_with s o) ≡ false
end_with-busy s none = refl
end_with-busy s (some sig') = refl

next_read-busy : (s : Shared) (o : Option ℕ) → is_idle (next_read s o) ≡ false
next_read-busy s none = refl
next_read-busy s (some num) = refl

after_read-busy :
    (s : Shared) (num : ℕ) (r : ℤ) (numbers : List ℕ) → is_idle (after_read s num r numbers) ≡ false
after_read-busy s num (negsuc k) numbers = refl
after_read-busy s num (pos zero) numbers = refl
after_read-busy s num (pos (suc k)) numbers = next_read-busy s _

-- A thread that is neither in the barrier nor at its end does something.
thread_body-busy :
    (read : ℕ → ReadResult) (n i : ℕ) (s : Shared) (p : Pc)
    → is_waiting p ≡ false
    → is_ended p ≡ false
    → is_idle (thread_body read n i s p) ≡ false
unfolding thread_body
thread_body-busy read n i s starting w e = start_with-busy s _
thread_body-busy read n i s (arriving num) w e = refl
thread_body-busy read n i s (waits num) w e = cc
thread_body-busy read n i s (reading num) w e =
    after_read-busy (record s { reads = s.reads + 1 }) (mix num (as_unsigned (read s.reads).r))
      (read s.reads).r (read s.reads).numbers
thread_body-busy read n i s (saving num) w e = end_with-busy s _
thread_body-busy read n i s ended w e = cc

module _ (read : ℕ → ReadResult) (n last : ℕ) (reads_ok : (k : ℕ) → IsRead (read k))
    (ends : EndsBy read last) (few : n ≤ 32) {c : System Shared Pc} (inv : Inv read n c) where
  abbrev Progress : Type 0
  Progress = CanProgress (thread_body read n) (left last) work n c

  by_turn :
      (i : ℕ)
      → 1 ≤ i
      → i ≤ n
      → (t : Turn Shared Pc) → thread_body read n i c.shared (c.locals i) ≡ t
      → MoveOf read n c.shared (c.locals i) t
      → is_idle t ≡ false
      → Progress
  by_turn i l h (moved s p) e mv busy = record {
    thread = i;
    first = l;
    last = h;
    memory = s;
    local = p;
    moves = e;
    less = Move-less last ends mv;
  }
  by_turn i l h waiting e mv busy = cc
  by_turn i l h halted e mv busy = cc
  by_turn i l h fault e mv busy = elim mv [ ]

  turn_of :
      (i : ℕ)
      → i ≤ n
      → MoveOf read n c.shared (c.locals i) (thread_body read n i c.shared (c.locals i))
  turn_of i h = thread_body-MoveOf read n reads_ok i c.shared (c.locals i) (omega arith) inv.sized

  busy_progress :
      (i : ℕ)
      → 1 ≤ i
      → i ≤ n
      → is_waiting (c.locals i) ≡ false
      → is_ended (c.locals i) ≡ false
      → Progress
  busy_progress i l h w e =
      by_turn i l h _ refl (turn_of i h) (thread_body-busy read n i c.shared (c.locals i) w e)

  -- A thread that has not arrived is neither in the barrier nor at its end.
  arriving_busy : (p : Pc) → started p ≡ 0 → (is_waiting p ≡ false) × (is_ended p ≡ false)
  arriving_busy starting e = (refl, refl)
  arriving_busy (arriving num) e = (refl, refl)
  arriving_busy _ e = cc

  waits_turn :
      (i num : ℕ)
      → c.locals i ≡ waits num
      → leb n c.shared.arrivals ≡ true
      → is_idle (thread_body read n i c.shared (c.locals i)) ≡ false
  unfolding thread_body
  waits_turn i num here all = rw (here, thread_body, all) refl

  waits_progress : (i num : ℕ) → 1 ≤ i → i ≤ n → c.locals i ≡ waits num → Progress
  waits_progress i num l h here = elim (Bool-cases (leb n c.shared.arrivals)) [
    | inl all ↦ by_turn i l h _ refl (turn_of i h) (waits_turn i num here all)
    | inr some_out ↦
        let (j, low, high, out) =
          total_missing started (λ p. ground arith) n c.locals (ground (arith, inv.counted)) in
        let (w, e) = arriving_busy (c.locals j) out in busy_progress j low high w e
  ]

  live_progress :
      (i : ℕ) → 1 ≤ i → i ≤ n → (p : Pc) → c.locals i ≡ p → is_ended p ≡ false → Progress
  live_progress i l h (waits num) here e = waits_progress i num l h here
  live_progress i l h ended here e = cc
  live_progress i l h starting here e = busy_progress i l h (rw here refl) (rw here refl)
  live_progress i l h (arriving num) here e = busy_progress i l h (rw here refl) (rw here refl)
  live_progress i l h (reading num) here e = busy_progress i l h (rw here refl) (rw here refl)
  live_progress i l h (saving num) here e = busy_progress i l h (rw here refl) (rw here refl)

  progress : all_ended is_ended n c.locals ≡ false → Progress
  progress e =
      let (i, l, h, live) = all_ended-eq-false is_ended n c.locals e in
      live_progress i l h (c.locals i) refl live

module _ (read : ℕ → ReadResult) (n last : ℕ) (sig : List ℕ) (reads_ok : (k : ℕ) → IsRead (read k))
    (ends : EndsBy read last) (few : n ≤ 32) (sized : length sig ≡ 33) where
  all_progress :
      (c : System Shared Pc)
      → Reach (thread_body read n) n (boot sig) c
      → all_ended is_ended n c.locals ≡ false
      → CanProgress (thread_body read n) (left last) work n c
  all_progress c r =
      progress read n last reads_ok ends few (Reach-Inv read n sig reads_ok few sized r)

  -- If `read` returns at most 256 and a buffer of 64 `int`, and finds the end of the file or
  -- fails from some call on, then up to 32 threads of racey-readfile, started over 33 values of
  -- `sig`, can go on from every reachable state to a state in which all of them have ended.
  readfile_no_deadlock :
      (c : System Shared Pc)
      → Reach (thread_body read n) n (boot sig) c
      → (d : System Shared Pc) × Reach (thread_body read n) n c d
        × (all_ended is_ended n d.locals ≡ true)
  readfile_no_deadlock = can_end_after (thread_body read n) is_ended (left last) work n all_progress

  pub readfile_can_join :
      (is : List ℕ) × (s : Shared) × (run_and_join (thread_body read n) is_ended n is (boot sig)
        ≡ returned s)
  readfile_can_join = can_join_after (thread_body read n) is_ended (left last) work n all_progress
