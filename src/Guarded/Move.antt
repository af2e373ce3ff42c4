-- ===== src/Guarded/Move.antt =====
-- The turns of a thread as a relation, at the legal points of its code.
use racey_suite.Prelude.{
  ℕ, suc, ◌+◌, ◌%◌, ◌≤◌, ◌<◌, ◌≡◌, refl, Option, none, some, get_or, set, get_elem?-eq-get_or,
  set?-eq-set, update, arith, leb, Bool-cases, inl, inr,
}
use racey_suite.Machine.{Turn, moved, waiting, halted, fault}
use racey_suite.Racey.{max_elem, mix, prime1}
use racey_suite.Racey.Loop.{IsMemory}
use racey_suite.Guarded.{
  Shared, Pc, arriving, waits, fetching, locking1, reading1, unlocking1, locking2, reading2,
  storing, unlocking2, saving, ended, nlock, next_round, lock_item, unlock_item, thread_body,
}

-- The legal points: indices in bounds, values of `mix` where they are written.
abbrev pub IsPc : ℕ → Pc → Type 0
IsPc max_loop arriving = Unit
IsPc max_loop waits = Unit
IsPc max_loop (fetching i) = i < max_loop
IsPc max_loop (locking1 i num) = i < max_loop
IsPc max_loop (reading1 i index1 num) = (i < max_loop) × (index1 < max_elem)
IsPc max_loop (unlocking1 i index1 num) = i < max_loop
IsPc max_loop (locking2 i num) = i < max_loop
IsPc max_loop (reading2 i index2 num) = (i < max_loop) × (index2 < max_elem)
IsPc max_loop (storing i index2 num value) = (i < max_loop) × (index2 < max_elem)
IsPc max_loop (unlocking2 i index2 num) = (i < max_loop) × (num < prime1)
IsPc max_loop (saving i num) = (i < max_loop) × (num < prime1)
IsPc max_loop ended = Unit

-- The cell of m[] as the code reads it.
abbrev pub cell : Shared → ℕ → ℕ
cell s index = get_or s.mem.m index 0

module _ (n max_loop tid : ℕ) where
  pub data Move (s : Shared) : Pc → Shared → Pc → Type 0 where
    arrive : Move s arriving (record s { arrivals = s.arrivals + 1 }) waits
    go : n ≤ s.arrivals → Move s waits s (next_round max_loop 0)
    fetch : {i : ℕ} → Move s (fetching i) s (locking1 i (get_or s.mem.sig tid 0))
    lock1 :
        {i num : ℕ}
        → s.locks (num % max_elem % nlock) ≡ none
        → Move s
            (locking1 i num)
            (record s { locks = update s.locks (num % max_elem % nlock) (some tid) })
            (reading1 i (num % max_elem) num)
    read1 :
        {i index1 num : ℕ}
        → Move s (reading1 i index1 num) s (unlocking1 i index1 (mix num (cell s index1)))
    unlock1 :
        {i index1 num : ℕ}
        → Move s (unlocking1 i index1 num) (unlock_item s index1) (locking2 i num)
    lock2 :
        {i num : ℕ}
        → s.locks (num % max_elem % nlock) ≡ none
        → Move s
            (locking2 i num)
            (record s { locks = update s.locks (num % max_elem % nlock) (some tid) })
            (reading2 i (num % max_elem) num)
    read2 :
        {i index2 num : ℕ} → Move s (reading2 i index2 num) s (storing i index2 num (cell s index2))
    store :
        {i index2 num value : ℕ}
        → Move s
            (storing i index2 num value)
            (record s { mem = record s.mem { m = set s.mem.m index2 (mix num value) } })
            (unlocking2 i index2 (mix num value))
    unlock2 :
        {i index2 num : ℕ} → Move s (unlocking2 i index2 num) (unlock_item s index2) (saving i num)
    write :
        {i num : ℕ}
        → Move s
            (saving i num)
            (record s { mem = record s.mem { sig = set s.mem.sig tid num } })
            (next_round max_loop (suc i))

  abbrev pub MoveOf : Shared → Pc → Turn Shared Pc → Type 0
  MoveOf s p (moved s' p') = Move s p s' p'
  MoveOf s p waiting = Unit
  MoveOf s p halted = Unit
  MoveOf s p fault = ⊥

  lock1-MoveOf :
      (s : Shared) (i num : ℕ) (o : Option ℕ)
      → s.locks (num % max_elem % nlock) ≡ o
      → MoveOf s
          (locking1 i num)
          (lock_item s tid (num % max_elem) (reading1 i (num % max_elem) num) o)
  lock1-MoveOf s i num none e = lock1 e
  lock1-MoveOf s i num (some holder) e = tt

  lock2-MoveOf :
      (s : Shared) (i num : ℕ) (o : Option ℕ)
      → s.locks (num % max_elem % nlock) ≡ o
      → MoveOf s
          (locking2 i num)
          (lock_item s tid (num % max_elem) (reading2 i (num % max_elem) num) o)
  lock2-MoveOf s i num none e = lock2 e
  lock2-MoveOf s i num (some holder) e = tt

  -- At a legal point of a well-formed memory a turn is a move, a wait or the end.
  pub thread_body-MoveOf :
      (s : Shared) (p : Pc)
      → tid < 33
      → IsMemory s.mem
      → IsPc max_loop p
      → MoveOf s p (thread_body n max_loop tid s p)
  unfolding thread_body
  thread_body-MoveOf s arriving h ok legal = arrive
  thread_body-MoveOf s waits h ok legal = elim (Bool-cases (leb n s.arrivals)) [
    | inl e ↦ rw e (go (ground arith))
    | inr e ↦ rw e tt
  ]
  thread_body-MoveOf s (fetching i) h ok legal =
      rw (get_elem?-eq-get_or s.mem.sig tid 0 (omega (arith, ok.sigs))) fetch
  thread_body-MoveOf s (locking1 i num) h ok legal =
      lock1-MoveOf s i num (s.locks (num % max_elem % nlock)) refl
  thread_body-MoveOf s (reading1 i index1 num) h ok legal =
      rw (get_elem?-eq-get_or s.mem.m index1 0 (omega (arith, ok.cells))) read1
  thread_body-MoveOf s (unlocking1 i index1 num) h ok legal = unlock1
  thread_body-MoveOf s (locking2 i num) h ok legal =
      lock2-MoveOf s i num (s.locks (num % max_elem % nlock)) refl
  thread_body-MoveOf s (reading2 i index2 num) h ok legal =
      rw (get_elem?-eq-get_or s.mem.m index2 0 (omega (arith, ok.cells))) read2
  thread_body-MoveOf s (storing i index2 num value) h ok legal =
      rw (set?-eq-set s.mem.m index2 (mix num value) (omega (arith, ok.cells))) store
  thread_body-MoveOf s (unlocking2 i index2 num) h ok legal = unlock2
  thread_body-MoveOf s (saving i num) h ok legal =
      rw (set?-eq-set s.mem.sig tid num (omega (arith, ok.sigs))) write
  thread_body-MoveOf s ended h ok legal = tt
