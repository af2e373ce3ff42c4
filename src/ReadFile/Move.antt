-- ===== src/ReadFile/Move.antt =====
-- What a turn of a thread of racey-readfile may do.
use racey_suite.Prelude.{
  ℕ, zero, suc, ◌+◌, ◌/◌, ◌≤◌, ◌<◌, ◌≡◌, refl, ℤ, pos, negsuc, pos_part, Bool, true, false, some,
  List, length, get_or, get_elem?-eq-get_or, set?-eq-set, length-set, leb, Bool-cases, inl, inr,
  arith,
}
use racey_suite.Machine.{Turn, moved, waiting, halted, fault}
use racey_suite.Racey.{mix}
use racey_suite.ReadFile.{
  ReadResult, Shared, Pc, starting, arriving, waits, reading, saving, ended, mix_numbers,
  after_read, thread_body,
}

-- `read` returns at most the 256 bytes that it is asked for, and `buffer` has room for 64 `int`.
pub record IsRead (result : ReadResult) : Type 0 where
  pub few : pos_part result.r ≤ 256
  pub room : length result.numbers ≡ 64

-- The end of the file, or an error.
abbrev pub is_last : ℤ → Bool
is_last (pos zero) = true
is_last (pos (suc n)) = false
is_last (negsuc n) = true

-- In the barrier or behind it.
abbrev pub started : Pc → ℕ
started starting = 0
started (arriving num) = 0
started _ = 1

abbrev pub inside : Pc → Bool
inside starting = false
inside (arriving num) = false
inside (waits num) = false
inside _ = true

-- Behind the main loop.
abbrev pub is_through : Pc → Bool
is_through (saving num) = true
is_through ended = true
is_through _ = false

mix_numbers-total :
    (left k : ℕ) (numbers : List ℕ) (num : ℕ)
    → k + left ≤ length numbers
    → (v : ℕ) × (mix_numbers left k numbers num ≡ some v)
unfolding mix_numbers
mix_numbers-total zero k numbers num h = (num, refl)
mix_numbers-total (suc left) k numbers num h =
    rw (mix_numbers, get_elem?-eq-get_or numbers k 0 (omega arith))
      (mix_numbers-total left (k + 1) numbers (mix num (get_or numbers k 0)) (omega arith))

-- What a turn may do, for up to 32 threads.
pub data Move (read : ℕ → ReadResult) (n : ℕ) (s : Shared) : Pc → Shared → Pc → Type 0 where
  begin : {num : ℕ} → Move read n s starting s (arriving num)
  arrive :
      {num : ℕ} → Move read n s (arriving num) (record s { arrivals = s.arrivals + 1 }) (waits num)
  go : {num : ℕ} → n ≤ s.arrivals → Move read n s (waits num) s (reading num)
  more :
      {num next : ℕ}
      → is_last (read s.reads).r ≡ false
      → Move read n s (reading num) (record s { reads = s.reads + 1 }) (reading next)
  stop :
      {num next : ℕ}
      → is_last (read s.reads).r ≡ true
      → Move read n s (reading num) (record s { reads = s.reads + 1 }) (saving next)
  store :
      {num : ℕ} {sig' : List ℕ}
      → length sig' ≡ length s.sig
      → Move read n s (saving num) (record s { sig = sig' }) ended

abbrev pub MoveOf : (ℕ → ReadResult) → ℕ → Shared → Pc → Turn Shared Pc → Type 0
MoveOf read n s p (moved s' p') = Move read n s p s' p'
MoveOf read n s p waiting = Unit
MoveOf read n s p halted = Unit
MoveOf read n s p fault = ⊥

after_read-MoveOf :
    (read : ℕ → ReadResult) (n : ℕ) (s : Shared) (num next : ℕ) (r : ℤ) (numbers : List ℕ)
    → (read s.reads).r ≡ r
    → pos_part r ≤ 256
    → length numbers ≡ 64
    → MoveOf read n s (reading num) (after_read (record s { reads = s.reads + 1 }) next r numbers)
after_read-MoveOf read n s num next (negsuc k) numbers e few room = stop (rw e refl)
after_read-MoveOf read n s num next (pos zero) numbers e few room = stop (rw e refl)
after_read-MoveOf read n s num next (pos (suc k)) numbers e few room =
    let (v, q) = mix_numbers-total (suc k / 4) 0 numbers next (omega (arith, few, room)) in
    rw q (more (rw e refl))

module _ (read : ℕ → ReadResult) (n : ℕ) (reads_ok : (k : ℕ) → IsRead (read k)) where
  pub thread_body-MoveOf :
      (i : ℕ) (s : Shared) (p : Pc)
      → i < 33
      → length s.sig ≡ 33
      → MoveOf read n s p (thread_body read n i s p)
  unfolding thread_body
  thread_body-MoveOf i s starting h e = rw (get_elem?-eq-get_or s.sig i 0 (omega arith)) begin
  thread_body-MoveOf i s (arriving num) h e = arrive
  thread_body-MoveOf i s (waits num) h e = elim (Bool-cases (leb n s.arrivals)) [
    | inl all ↦ rw all (go (ground arith))
    | inr some_out ↦ rw some_out tt
  ]
  thread_body-MoveOf i s (reading num) h e =
      after_read-MoveOf read n s num _ (read s.reads).r (read s.reads).numbers refl
        (reads_ok s.reads).few (reads_ok s.reads).room
  thread_body-MoveOf i s (saving num) h e =
      rw (set?-eq-set s.sig i num (omega arith)) (store (length-set s.sig i num))
  thread_body-MoveOf i s ended h e = tt
