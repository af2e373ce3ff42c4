-- ===== src/Futex/Body/Sequence.antt =====
-- The loops of `ThreadBody` of racey-futex.c, one access at a time, against the functions that they
-- come from: a thread that runs by itself computes what `groupLeader` and `groupPickNext` return.
use racey_suite.Prelude.{
  ℕ, zero, suc, ◌+◌, ◌-◌, ◌%◌, ◌<◌, ◌≡◌, refl, ℤ, pos, Bool, true, false, Option, none, some, List,
  [], ◌∷◌, length, get_or, get_elem?, get_elem?-eq-get_or, arith, ◌==◌, if◌then◌else◌, ◌∙◌, ap,
  Bool-cases, inl, inr,
}
use racey_suite.Outcome.{returned, ◌>>=◌, >>=-eq-returned, access}
use racey_suite.Machine.{moved}
use racey_suite.Futex.{
  FutexGroup, negate, some_live, group_size, group_leader, scan_threads, group_pick_next,
}
use racey_suite.Futex.Points.{
  Shared, Vars, Point, checking, drawing, scanning, sizing, assigning, Pc, leading, reading_round,
  turn, scan_from,
}
use racey_suite.Futex.Body.{look_live, look_scan, look_size, look_leader, draw, body_step}
use racey_suite.Futex.Body.Invariant.{group_at}

module _ (home : ℕ → ℕ) (n max_loop : ℕ) (spurious : Bool) (i : ℕ) (s : Shared)
    (inside : home i < length s.groups) where
  abbrev pub g : FutexGroup
  g = group_at s (home i)

  -- Accesses of thread `i` by itself, up to `r`, that leave the shared memory as it is.
  pub data StepsTo (r : Pc) : Pc → Type 0 where
    stop : {p : Pc} → p ≡ r → StepsTo r p
    step :
        {p q : Pc}
        → body_step n max_loop spurious i (home i) s p g ≡ moved s q
        → StepsTo r q
        → StepsTo r p

  StepsTo-trans : {q r p : Pc} → StepsTo q p → StepsTo r q → StepsTo r p
  StepsTo-trans {r = r} (stop e) t = rw e t
  StepsTo-trans (step e u) t = step e (StepsTo-trans u t)

  -- `ts` is what is left of `threads` from index `k` on.
  pub record IsRest (k : ℕ) (ts : List ℕ) : Type 0 where
    pub ends : k + length ts ≡ 33
    pub same : (j : ℕ) → get_or g.threads (k + j) 0 ≡ get_or ts j 0
    pub sized : length g.threads ≡ 33

  IsRest-head : (k x : ℕ) (ts : List ℕ) → IsRest k (x ∷ ts) → get_elem? g.threads k ≡ some x
  IsRest-head k x ts r =
      let here : k + 0 ≡ k = omega arith in
      get_elem?-eq-get_or g.threads k 0 (omega (arith, r.sized, r.ends))
      ∙ ap some (rw here at (r.same 0))

  IsRest-tail : (k x : ℕ) (ts : List ℕ) → IsRest k (x ∷ ts) → IsRest (k + 1) ts
  IsRest-tail k x ts r = record {
    ends = omega (arith, r.ends);
    same = λ j. let shift : k + 1 + j ≡ k + suc j = omega arith in rw shift (r.same (suc j));
    sized = r.sized;
  }

  module _ (j : ℕ) (v : Vars) where
    abbrev pub at : Point → Pc
    at p = turn j v p

    -- `groupSize`.
    size_steps :
        (ts : List ℕ) (k m size : ℕ)
        → IsRest k ts
        → m + group_size ts ≡ size
        → StepsTo
            (at (assigning (negate size)))
            (at (if k == 33 then assigning (negate m) else sizing k m))
    unfolding body_step group_size
    size_steps [] k m size r e =
        let over : (k == 33) ≡ true = ground (arith, r.ends) in
        let same : m ≡ size = omega (arith, e) in
        rw over (stop (ap (λ c. at (assigning (negate c))) same))
    size_steps (zero ∷ ts) k m size r e =
        let more : (k == 33) ≡ false = ground (arith, r.ends) in
        rw more (
          step (ap (look_size s j v k m) (IsRest-head k zero ts r))
            (size_steps ts (k + 1) m size (IsRest-tail k zero ts r) (omega (arith, e))))
    size_steps (suc x ∷ ts) k m size r e =
        let more : (k == 33) ≡ false = ground (arith, r.ends) in
        rw more (
          step (ap (look_size s j v k m) (IsRest-head k (suc x) ts r))
            (size_steps ts (k + 1) (m + 1) size (IsRest-tail k (suc x) ts r) (omega (arith, e))))

    -- The `for` of `groupPickNext`.
    check_steps :
        (ts : List ℕ) (k : ℕ)
        → IsRest k ts
        → StepsTo
            (at (if some_live ts then drawing else assigning (pos 0)))
            (at (if k == 33 then assigning (pos 0) else checking k))
    unfolding body_step some_live
    check_steps [] k r = let over : (k == 33) ≡ true = ground (arith, r.ends) in rw over (stop refl)
    check_steps (zero ∷ ts) k r =
        let more : (k == 33) ≡ false = ground (arith, r.ends) in
        rw more (
          step (ap (look_live s j v k) (IsRest-head k zero ts r))
            (check_steps ts (k + 1) (IsRest-tail k zero ts r)))
    check_steps (suc x ∷ ts) k r =
        let more : (k == 33) ≡ false = ground (arith, r.ends) in
        rw more (step (ap (look_live s j v k) (IsRest-head k (suc x) ts r)) (stop refl))

    -- Where the `while` of `groupPickNext` leads to.
    scanned : ℕ → Point
    scanned m = if m == g.stop then sizing 0 0 else assigning (pos m)

    at_entry :
        (fuel k m : ℕ) (o : Option ℕ)
        → get_elem? g.threads k ≡ o
        → (access o >>= λ t. elim t [
          | zero ↦ scan_threads fuel g ((k + 1) % 33)
          | suc x ↦ returned k
        ])
          ≡ returned m
        → (k == g.stop) ≡ false
        → (scan_threads fuel g ((k + 1) % 33) ≡ returned m
            → StepsTo (at (scanned m)) (at (scan_from g ((k + 1) % 33))))
        → StepsTo (at (scanned m)) (at (scanning k))
    unfolding body_step scanned
    at_entry fuel k m none e q apart rest = absurd (cc)
    at_entry fuel k m (some zero) e q apart rest = step (ap (look_scan s g j v k) e) (rest q)
    at_entry fuel k m (some (suc x)) e q apart rest =
        let same : k ≡ m = cc in step (ap (look_scan s g j v k) e) (stop (rw (← same, apart) refl))

    scan_steps :
        (fuel k m : ℕ)
        → scan_threads fuel g k ≡ returned m
        → StepsTo (at (scanned m)) (at (scan_from g k))
    unfolding scan_threads scanned
    scan_steps zero k m e = absurd (cc)
    scan_steps (suc fuel) k m e = elim (Bool-cases (k == g.stop)) [
      | inl behind ↦
          let found : returned k ≡ returned m = rw behind at e in
          let same : k ≡ m = cc in rw (← same, behind) (stop refl)
      | inr before ↦ rw before (
          at_entry fuel k m (get_elem? g.threads k) refl (rw before at e) before
            (λ q. scan_steps fuel ((k + 1) % 33) m q))
    ]

    chosen_steps :
        (m : ℕ) (z : ℤ)
        → IsRest 0 g.threads
        → returned (if m == g.stop then negate (group_size g.threads) else pos m) ≡ returned z
        → StepsTo (at (assigning z)) (at (scanned m))
    unfolding scanned
    chosen_steps m z all e = elim (Bool-cases (m == g.stop)) [
      | inl behind ↦
          let whole : returned (negate (group_size g.threads)) ≡ returned z = rw behind at e in
          let same : negate (group_size g.threads) ≡ z = cc in
          rw (behind, ← same) (size_steps g.threads 0 0 (group_size g.threads) all (omega arith))
      | inr before ↦
          let one : returned (pos m) ≡ returned z = rw before at e in
          let same : pos m ≡ z = cc in rw (before, ← same) (stop refl)
    ]

    -- `groupPickNext`.
    pub pick_steps :
        (num : ℕ) (z : ℤ)
        → IsRest 0 g.threads
        → get_elem? s.mem.sig i ≡ some num
        → group_pick_next num g ≡ returned z
        → StepsTo (at (assigning z)) (at (checking 0))
    unfolding body_step group_pick_next
    pick_steps num z all drawn e = elim (Bool-cases (some_live g.threads)) [
      | inr dead ↦
          let empty : returned (pos 0) ≡ returned z = rw dead at e in
          let nothing : pos 0 ≡ z = cc in
          StepsTo-trans (check_steps g.threads 0 all)
            (stop (rw dead (ap (λ y. at (assigning y)) nothing)))
      | inl live ↦
          let from = num % (g.stop - g.begin + 1) + g.begin in
          let (m, found, result) = >>=-eq-returned (scan_threads 34 g from) _ (rw live at e) in
          StepsTo-trans (check_steps g.threads 0 all) (
            rw live (
              step (ap (draw s g j v) drawn)
                (StepsTo-trans (scan_steps 34 from m found) (chosen_steps m z all result))))
    ]

  -- `groupLeader`.
  pub lead_steps :
      (o : ℤ) (j : ℕ) (ts : List ℕ) (k : ℕ)
      → IsRest k ts
      → StepsTo
          (reading_round j o (group_leader k ts == i))
          (if k == 33 then reading_round j o (0 == i) else leading j o k)
  unfolding body_step group_leader
  lead_steps o j [] k r =
      let over : (k == 33) ≡ true = ground (arith, r.ends) in rw over (stop refl)
  lead_steps o j (zero ∷ ts) k r =
      let more : (k == 33) ≡ false = ground (arith, r.ends) in
      rw more (
        step (ap (look_leader s i j o k) (IsRest-head k zero ts r))
          (lead_steps o j ts (k + 1) (IsRest-tail k zero ts r)))
  lead_steps o j (suc x ∷ ts) k r =
      let more : (k == 33) ≡ false = ground (arith, r.ends) in
      rw more (step (ap (look_leader s i j o k) (IsRest-head k (suc x) ts r)) (stop refl))
