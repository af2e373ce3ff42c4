-- ===== src/ReadFile.antt =====
-- racey-readfile.c: the threads share a file descriptor, and with it the position in the file. Each
-- mixes what its own calls of `read` return.
pub mod Move
pub mod Invariant
pub mod Progress
pub mod Main
use racey_suite.Prelude.{
  ℕ, zero, suc, ◌+◌, ◌-◌, ◌/◌, ◌%◌, ◌^◌, ℤ, pos, negsuc, Bool, true, false, Option, none, some,
  List, [], ◌∷◌, String, get_elem?, set?, ◌==◌, leb, ltb, if◌then◌else◌, u32,
}
use racey_suite.Outcome.{Outcome, returned, exited, ◌>>=◌, ◌>>◌}
use racey_suite.Machine.{Turn, moved, waiting, halted, fault, Program, System}
use racey_suite.Racey.{Memory, mix, sig_init}
use racey_suite.Launch.{Libc, check_procs, check_loops, run_main}

-- What a call of `read` returns, and the `int` values of `buffer` behind it.
pub record ReadResult : Type 0 where
  pub r : ℤ
  pub numbers : List ℕ

-- The results of the calls on the file; `read k` is the k-th call, whichever thread makes it.
pub record FileCalls : Type 0 where
  pub descriptor : ℤ  -- what `open` returns
  pub fstat : ℤ
  pub st_size : ℤ
  pub read : ℕ → ReadResult

pub record Shared : Type 0 where
  pub sig : List ℕ
  -- the threads that have called `pthread_barrier_wait`
  pub arrivals : ℕ
  -- the calls of `read` so far
  pub reads : ℕ

-- Where a thread stands, with its variable `num`.
pub data Pc : Type 0 where
  starting : Pc  -- before `num = sig[threadId]`
  arriving : (num : ℕ) → Pc  -- before `pthread_barrier_wait`
  waits : (num : ℕ) → Pc  -- in it
  reading : (num : ℕ) → Pc  -- before `read`
  saving : (num : ℕ) → Pc  -- before `sig[threadId] = num`
  ended : Pc

-- An `int` that is passed as `unsigned`.
abbrev pub as_unsigned : ℤ → ℕ
as_unsigned (pos n) = u32 n
as_unsigned (negsuc n) = 2 ^ 32 - suc (n % 2 ^ 32)

-- `for (k = 0; k < r / sizeof(*numbers); k++) num = mix(num, numbers[k])`, with `left` values of k
-- to go; `none` is an access out of bounds.
unfoldable pub mix_numbers : ℕ → ℕ → List ℕ → ℕ → Option ℕ
mix_numbers zero k numbers num = some num
mix_numbers (suc left) k numbers num = elim (get_elem? numbers k) [
  | none ↦ none
  | some v ↦ mix_numbers left (k + 1) numbers (mix num v)
]

-- Back to the head of the loop, with the numbers mixed.
abbrev pub next_read : Shared → Option ℕ → Turn Shared Pc
next_read s none = fault
next_read s (some num) = moved s (reading num)

-- One iteration of the main loop behind the call of `read`; `num` is already mixed with `r`.
abbrev pub after_read : Shared → ℕ → ℤ → List ℕ → Turn Shared Pc
after_read s num (pos zero) numbers = moved s (saving num)
after_read s num (pos (suc n)) numbers = next_read s (mix_numbers (suc n / 4) 0 numbers num)
after_read s num (negsuc n) numbers = moved s (saving num)

abbrev pub start_with : Shared → Option ℕ → Turn Shared Pc
start_with s none = fault
start_with s (some num) = moved s (arriving num)

abbrev pub end_with : Shared → Option (List ℕ) → Turn Shared Pc
end_with s none = fault
end_with s (some sig') = moved (record s { sig = sig' }) ended

unfoldable pub thread_body : (ℕ → ReadResult) → ℕ → Program Shared Pc
unfolding mix mix_numbers
thread_body read num_procs tid s starting = start_with s (get_elem? s.sig tid)
thread_body read num_procs tid s (arriving num) =
    moved (record s { arrivals = s.arrivals + 1 }) (waits num)
thread_body read num_procs tid s (waits num) =
    if leb num_procs s.arrivals then moved s (reading num) else waiting
thread_body read num_procs tid s (reading num) =
    let result = read s.reads in
    after_read (record s { reads = s.reads + 1 }) (mix num (as_unsigned result.r)) result.r
      result.numbers
thread_body read num_procs tid s (saving num) = end_with s (set? s.sig tid num)
thread_body read num_procs tid s ended = halted

abbrev pub is_ended : Pc → Bool
is_ended ended = true
is_ended _ = false

abbrev pub boot : List ℕ → System Shared Pc
boot sig = record { shared = record { sig = sig; arrivals = 0; reads = 0 }; locals = λ i. starting }

-- A call whose negative result makes `main` print an error and return 1.
abbrev pub or_return_one : ℤ → Outcome (Unit {0})
or_return_one (pos n) = returned tt
or_return_one (negsuc n) = exited 1

-- `if (st.st_size < 2048)`.
abbrev pub large_enough : ℤ → Outcome (Unit {0})
large_enough (pos n) = if ltb n 2048 then exited 1 else returned tt
large_enough (negsuc n) = exited 1

-- NumProcs, for arguments that are all there.
unfoldable pub parse_args : (String → ℤ) → List String → Outcome ℕ
unfolding check_procs check_loops
parse_args atoi (name ∷ procs ∷ loops ∷ file ∷ rest) = do
  n ← check_procs (atoi procs)
  k ← check_loops (atoi loops)
  returned n
parse_args atoi _ = exited 1

unfoldable pub main : Libc → FileCalls → List String → List ℕ → Outcome ℕ
unfolding parse_args run_main thread_body sig_init
main libc io argv schedule = do
  n ← parse_args libc.atoi argv
  or_return_one io.descriptor
  or_return_one io.fstat
  large_enough io.st_size
  run_main (thread_body io.read n) is_ended (λ s. s.sig) (boot sig_init) libc 1 n schedule
