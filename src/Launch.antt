-- ===== src/Launch.antt =====
-- What every `main` does before and around its threads: the command line, and the calls of the C
-- library that it checks with `assert`.
pub mod Args
pub mod Main
use racey_suite.Prelude.{
  ℕ, zero, suc, ◌+◌, ℤ, pos, negsuc, Bool, ◌&&◌, List, [], ◌∷◌, String, ltb, leb, ◌==◌,
}
use racey_suite.Outcome.{Outcome, returned, exited, aborted, ◌>>=◌, ◌>>◌, assert}
use racey_suite.Machine.{Program, System, run_and_join}
use racey_suite.Racey.{Memory, sig_init, m_init, signature}

-- The results of the library calls. None of them is part of the repository.
pub record Libc : Type 0 where
  pub atoi : String → ℤ
  -- whether the k-th `malloc` of `main` succeeds
  pub malloc : ℕ → Bool
  -- the result of the k-th `pthread_mutex_init` or `pthread_barrier_init` of `main`
  pub init : ℕ → ℕ
  -- the results of `pthread_create` and `pthread_join` for `threads[i]`
  pub create : ℕ → ℕ
  pub join : ℕ → ℕ

pub record Config : Type 0 where
  pub num_procs : ℕ
  pub max_loop : ℕ

-- `assert(NumProcs > 0 && NumProcs <= 32)`.
unfoldable pub check_procs : ℤ → Outcome ℕ
check_procs (negsuc n) = aborted
check_procs (pos n) = assert (ltb 0 n && leb n 32) >> returned n

-- `assert(MaxLoop > 0)`.
unfoldable pub check_loops : ℤ → Outcome ℕ
check_loops (negsuc n) = aborted
check_loops (pos n) = assert (ltb 0 n) >> returned n

-- The arguments of `main`; the list begins with the name of the program.
unfoldable pub parse_args : (String → ℤ) → List String → Outcome Config
unfolding check_procs check_loops
parse_args atoi [] = exited 1
parse_args atoi (name ∷ []) = exited 1
parse_args atoi (name ∷ procs ∷ []) = do
  n ← check_procs (atoi procs)
  returned (record { num_procs = n; max_loop = 50000 })
parse_args atoi (name ∷ procs ∷ loops ∷ rest) = do
  n ← check_procs (atoi procs)
  k ← check_loops (atoi loops)
  returned (record { num_procs = n; max_loop = k })

-- `assert(f(i) == 0)` for `left` values of i.
unfoldable pub assert_each : (ℕ → ℕ) → ℕ → ℕ → Outcome (Unit {0})
assert_each f i zero = returned tt
assert_each f i (suc left) = assert (f i == 0) >> assert_each f (i + 1) left

-- The shared arrays when the threads are created.
unfoldable pub init_memory : Memory
unfolding sig_init m_init
init_memory = record { sig = sig_init; m = m_init }

-- `main` behind the command line: allocations, `inits` calls that set up locks or barriers,
-- creation and join of the threads, and the signature. Threads may run before all are created; a
-- failed call aborts the process whatever they did, so the checks of the creations are in front.
unfoldable pub run_main :
    {S L : Type 0}
    → Program S L
    → (L → Bool)
    → (S → List ℕ)
    → System S L
    → Libc
    → ℕ
    → ℕ
    → List ℕ
    → Outcome ℕ
unfolding run_and_join signature assert_each
run_main prog ended sigs init libc inits num_procs schedule = do
  assert (libc.malloc 0)
  assert (libc.malloc 1)
  assert_each libc.init 0 inits
  assert_each libc.create 0 num_procs
  last ← run_and_join prog ended num_procs schedule init
  assert_each libc.join 0 num_procs
  signature num_procs (sigs last)
