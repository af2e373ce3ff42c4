-- ===== src/Futex/Body/Move.antt =====
-- The accesses of the threads of racey-futex.c as a relation: what each does to the memory, to the
-- thread's group and to the place where the thread stands.
use racey_suite.Prelude.{
  ℕ, zero, suc, ◌+◌, ◌-◌, ◌%◌, ◌≤◌, ◌<◌, ◌≡◌, refl, inl, inr, ℤ, pos, Bool, true, false, Option,
  none, some, length, get_or, set, get_elem?, get_elem?-eq-get_or, set?-eq-set, length-set, arith,
  ltb, leb, ◌==◌, if◌then◌else◌, ◌∙◌, Bool-cases, u32,
}
use racey_suite.Machine.{Turn, moved, waiting, halted, fault}
use racey_suite.Racey.{Memory, Mixing, Round, busy, over}
use racey_suite.Signal.Move.{HasSizes, Sized, mix_step-Sized}
use racey_suite.Futex.{FutexGroup}
use racey_suite.Futex.Pick.{IsGroup, from_range}
use racey_suite.Futex.Body.Fits.{
  IsPoint, IsPc, stays, came, Fits, next_turn-Fits, schedule-Fits, next_inner-Fits, scan_from-Fits,
  behind_barrier-Fits, either_point-Fits, next_size-Fits,
}
use racey_suite.Futex.Points.{
  Queue, Shared, Vars, Point, mixing, removing, adding, spinning_owner, spinning_round, checking,
  drawing, scanning, sizing, assigning, loading, storing, waking, waiting_round, asleep_round, Pc,
  arriving, passing, reading_owner, leading, reading_round, turn, waiting_owner, asleep_owner,
  mucking, ended, same_int, plus_one, next_turn, my_turn, is_negative,
}
use racey_suite.Futex.Body.{
  with_group, woken, futex_wait, look_leader, look_live, look_scan, look_size, muck, after_mix,
  turn_step, body_step,
}

-- What one access of thread `tid`, of the group `g` at index `h`, does.
module _ (num_procs max_loop tid h : ℕ) where
  pub data Move (s : Shared) (g : FutexGroup) : Pc → Shared → Pc → Type 0 where
    arrives : Move s g arriving (record s { arrived = suc s.arrived }) passing
    passes : {p' : Pc} → num_procs ≤ s.arrived → Fits max_loop true p' → Move s g passing s p'
    goes_on : {p p' : Pc} → came p ≡ 1 → Fits max_loop (stays max_loop p) p' → Move s g p s p'
    writes :
        {p p' : Pc} (mem : Memory)
        → HasSizes mem
        → came p ≡ 1
        → Fits max_loop (stays max_loop p) p'
        → Move s g p (record s { mem = mem }) p'
    schedules :
        {p p' : Pc} (owner : ℤ) (round : ℕ)
        → came p ≡ 1
        → Fits max_loop (stays max_loop p) p'
        → Move s g p (with_group s h (record g { owner = owner; round = round })) p'
    sleeps :
        {p p' : Pc} (sleeping : ℕ → Option Queue)
        → came p ≡ 1
        → Fits max_loop (stays max_loop p) p'
        → Move s g p (record s { sleeping = sleeping }) p'
    removes :
        {i : ℕ} {v : Vars} {p' : Pc}
        → Fits max_loop false p'
        → Move s g
            (turn i v removing)
            (with_group s h (record g { threads = set g.threads tid 0 }))
            p'

  abbrev pub MoveOf : Shared → FutexGroup → Pc → Turn Shared Pc → Type 0
  MoveOf s g p (moved s' p') = Move s g p s' p'
  MoveOf s g p waiting = Unit
  MoveOf s g p halted = Unit
  MoveOf s g p fault = ⊥

  -- Both ways of a test.
  either-MoveOf :
      (s : Shared) (g : FutexGroup) (p : Pc) (t u : Turn Shared Pc) (b : Bool)
      → (b ≡ true → MoveOf s g p t)
      → (b ≡ false → MoveOf s g p u)
      → MoveOf s g p (if b then t else u)
  either-MoveOf s g p t u true yes_way no_way = yes_way refl
  either-MoveOf s g p t u false yes_way no_way = no_way refl

  module _ (s : Shared) (g : FutexGroup) (few : tid < 33) (sizes : HasSizes s.mem)
      (ok : IsGroup g) where
    woken-MoveOf :
        (spurious : Bool) (p p' : Pc) (o : Option Queue)
        → came p ≡ 1
        → Fits max_loop (stays max_loop p) p'
        → MoveOf s g p (woken spurious s tid p' o)
    woken-MoveOf spurious p p' none inside fits = goes_on inside fits
    woken-MoveOf spurious p p' (some q) inside fits =
        either-MoveOf s g p _ waiting spurious (λ e. sleeps _ inside fits) (λ e. tt)

    wait-MoveOf :
        (q : Queue) (same : Bool) (p asleep next : Pc)
        → came p ≡ 1
        → Fits max_loop (stays max_loop p) asleep
        → Fits max_loop (stays max_loop p) next
        → MoveOf s g p (futex_wait s tid q same asleep next)
    wait-MoveOf q same p asleep next inside fits fits' =
        either-MoveOf s g p _ (moved s next) same (λ e. sleeps _ inside fits)
          (λ e. goes_on inside fits')

    -- A look at an entry of `threads`.
    entry : (n : ℕ) → n < 33 → get_elem? g.threads n ≡ some (get_or g.threads n 0)
    entry n small = get_elem?-eq-get_or g.threads n 0 (omega (arith, ok.sized))

    module _ (i : ℕ) (v : Vars) (within : i ≤ max_loop) where
      live-MoveOf :
          (n k : ℕ) → n < 33 → MoveOf s g (turn i v (checking n)) (look_live s i v n (some k))
      live-MoveOf n (suc k) small =
          goes_on refl (record { legal = within; keeps = refl; inside = refl })
      live-MoveOf n zero small = elim (Bool-cases (n + 1 == 33)) [
        | inl e ↦ rw e (goes_on refl (record { legal = within; keeps = refl; inside = refl }))
        | inr e ↦
            rw e (
              goes_on refl (record { legal = (within, ground arith); keeps = refl; inside = refl }))
      ]

      scan-MoveOf : (n k : ℕ) → MoveOf s g (turn i v (scanning n)) (look_scan s g i v n (some k))
      scan-MoveOf n (suc k) = goes_on refl (record { legal = within; keeps = refl; inside = refl })
      scan-MoveOf n zero =
          goes_on refl (scan_from-Fits max_loop i within g v ((n + 1) % 33) (inl (omega arith)))

      size-MoveOf :
          (j n k : ℕ) → j < 33 → MoveOf s g (turn i v (sizing j n)) (look_size s i v j n (some k))
      size-MoveOf j n zero small = goes_on refl (next_size-Fits max_loop i within v j n small)
      size-MoveOf j n (suc k) small =
          goes_on refl (next_size-Fits max_loop i within v j (n + 1) small)

    leader-MoveOf :
        (i n k : ℕ) (owner : ℤ)
        → i < max_loop
        → n < 33
        → MoveOf s g (leading i owner n) (look_leader s tid i owner n (some k))
    leader-MoveOf i n (suc k) owner more small =
        goes_on refl (record { legal = more; keeps = refl; inside = refl })
    leader-MoveOf i n zero owner more small = elim (Bool-cases (n + 1 == 33)) [
      | inl e ↦ rw e (goes_on refl (record { legal = more; keeps = refl; inside = refl }))
      | inr e ↦
          rw e (goes_on refl (record { legal = (more, ground arith); keeps = refl; inside = refl }))
    ]

    mix-MoveOf :
        (i k : ℕ) (v : Vars) (q : Mixing) (r : Round)
        → i < max_loop
        → Sized q r
        → MoveOf s g (turn i v (mixing k q)) (after_mix max_loop s i k v (some r))
    mix-MoveOf i k v q (busy mem q') more (sized, legal, less) =
        writes mem sized refl (record { legal = (more, legal); keeps = refl; inside = refl })
    mix-MoveOf i k v q (over mem) more sized =
        writes mem sized refl (next_inner-Fits max_loop (suc i) (omega arith) (suc k) v)

    muck-MoveOf :
        (i : ℕ)
        → i < max_loop
        → MoveOf s g (mucking i) (muck max_loop tid i s (get_elem? s.mem.sig tid))
    muck-MoveOf i more =
        let room : tid < length s.mem.sig = omega (arith, sizes.sigs) in
        let num = get_or s.mem.sig tid 0 in
        rw
          (get_elem?-eq-get_or s.mem.sig tid 0 room, set?-eq-set s.mem.sig tid (u32 (num + 1)) room)
          (writes _
            (record {
              sigs = length-set s.mem.sig tid (u32 (num + 1)) ∙ sizes.sigs;
              cells = sizes.cells;
            })
            refl (goes_now i more))
      where
        goes_now : (i : ℕ) → i < max_loop → Fits max_loop true (next_turn max_loop i)
        goes_now i more =
            let left : ltb i max_loop ≡ true = ground arith in
            rw (← left) (next_turn-Fits max_loop i (omega arith))

    turn_step-MoveOf :
        (spurious : Bool) (i : ℕ) (v : Vars) (p : Point)
        → IsPoint max_loop i p
        → MoveOf s g (turn i v p) (turn_step max_loop spurious tid h s g i v p)
    unfolding turn_step
    turn_step-MoveOf spurious i v (mixing k q) (more, legal) =
        let (r, e, sized) = mix_step-Sized tid s.mem q few sizes legal in
        rw e (mix-MoveOf i k v q r more sized)
    turn_step-MoveOf spurious i v removing same =
        rw (set?-eq-set g.threads tid 0 (omega (arith, ok.sized))) (
          let past : ltb i max_loop ≡ false = ground arith in
          removes (rw (← past) (schedule-Fits max_loop i (omega arith) v)))
    turn_step-MoveOf spurious i v adding within =
        schedules (plus_one g.owner) g.round refl
          (record { legal = within; keeps = refl; inside = refl })
    turn_step-MoveOf spurious i v spinning_owner within = goes_on refl (
        either_point-Fits max_loop i within v _ (same_int g.owner (pos 0)) _ _
          (behind_barrier-Fits max_loop i within v)
          (record { legal = within; keeps = refl; inside = refl }))
    turn_step-MoveOf spurious i v spinning_round within = goes_on refl (
        either_point-Fits max_loop i within v _ (g.round == v.old_round) _ _
          (record { legal = within; keeps = refl; inside = refl })
          (behind_barrier-Fits max_loop i within v))
    turn_step-MoveOf spurious i v (checking n) (within, small) =
        rw (entry n small) (live-MoveOf i v within n (get_or g.threads n 0) small)
    turn_step-MoveOf spurious i v drawing within =
        let num = get_or s.mem.sig tid 0 in
        rw (get_elem?-eq-get_or s.mem.sig tid 0 (omega (arith, sizes.sigs))) (
          goes_on refl (
            scan_from-Fits max_loop i within g v (num % (g.stop - g.begin + 1) + g.begin)
              (from_range num g.begin g.stop ok.ordered ok.in_array)))
    turn_step-MoveOf spurious i v (scanning n) (within, small) =
        rw (entry n small) (scan-MoveOf i v within n (get_or g.threads n 0))
    turn_step-MoveOf spurious i v (sizing j n) (within, small) =
        rw (entry j small) (size-MoveOf i v within j n (get_or g.threads j 0) small)
    turn_step-MoveOf spurious i v (assigning z) within =
        schedules z g.round refl (record { legal = within; keeps = refl; inside = refl })
    turn_step-MoveOf spurious i v loading within =
        goes_on refl (record { legal = within; keeps = refl; inside = refl })
    turn_step-MoveOf spurious i v (storing r) within =
        schedules g.owner (r + 1) refl (record { legal = within; keeps = refl; inside = refl })
    turn_step-MoveOf spurious i v waking within = sleeps _ refl (next_turn-Fits max_loop i within)
    turn_step-MoveOf spurious i v waiting_round within =
        wait-MoveOf _ (g.round == v.old_round) _ _ _ refl
          (record { legal = within; keeps = refl; inside = refl })
          (next_turn-Fits max_loop i within)
    turn_step-MoveOf spurious i v asleep_round within =
        woken-MoveOf spurious _ _ (s.sleeping tid) refl (next_turn-Fits max_loop i within)

    my_turn-MoveOf :
        (i : ℕ) (owner : ℤ)
        → i < max_loop
        → MoveOf s g (reading_owner i) (moved s (my_turn tid i owner))
    my_turn-MoveOf i owner more = elim (Bool-cases (same_int owner (pos tid))) [
      | inl e ↦ rw e (goes_on refl (record { legal = more; keeps = refl; inside = refl }))
      | inr e ↦ rw e (elim (Bool-cases (is_negative owner)) [
        | inl f ↦
            rw f
              (goes_on refl (record { legal = (more, omega arith); keeps = refl; inside = refl }))
        | inr f ↦ rw f (goes_on refl (record { legal = more; keeps = refl; inside = refl }))
      ])
    ]

    -- No access goes wrong.
    pub body_step-MoveOf :
        (spurious : Bool) (p : Pc)
        → 1 ≤ max_loop
        → IsPc max_loop p
        → MoveOf s g p (body_step num_procs max_loop spurious tid h s p g)
    unfolding body_step
    body_step-MoveOf spurious arriving loops legal = arrives
    body_step-MoveOf spurious passing loops legal =
        let more : ltb 0 max_loop ≡ true = ground arith in
        either-MoveOf s g passing _ waiting (leb num_procs s.arrived)
          (λ e. passes (ground arith) (rw (← more) (next_turn-Fits max_loop 0 (omega arith))))
          (λ e. tt)
    body_step-MoveOf spurious (reading_owner i) loops legal = my_turn-MoveOf i g.owner legal
    body_step-MoveOf spurious (leading i owner n) loops (more, small) =
        rw (entry n small) (leader-MoveOf i n (get_or g.threads n 0) owner more small)
    body_step-MoveOf spurious (reading_round i owner leader) loops legal =
        goes_on refl (next_inner-Fits max_loop i (omega arith) 0 _)
    body_step-MoveOf spurious (turn i v p) loops legal = turn_step-MoveOf spurious i v p legal
    body_step-MoveOf spurious (waiting_owner i owner) loops legal =
        wait-MoveOf _ (same_int g.owner owner) _ _ _ refl
          (record { legal = legal; keeps = refl; inside = refl })
          (record { legal = legal; keeps = refl; inside = refl })
    body_step-MoveOf spurious (asleep_owner i) loops legal =
        woken-MoveOf spurious _ _ (s.sleeping tid) refl
          (record { legal = legal; keeps = refl; inside = refl })
    body_step-MoveOf spurious (mucking i) loops legal = muck-MoveOf i legal
    body_step-MoveOf spurious ended loops legal = tt
