-- ===== src/ForkMmap.antt =====
-- racey-forkmmap.c: processes in place of threads, over an anonymous shared mapping that holds
-- `sig` and `m`. The barrier is commented out in the source, and `waiting` is set and never read.
pub mod Calls
pub mod Main
use racey_suite.Prelude.{
  ℕ, zero, suc, ◌+◌, ◌-◌, ℤ, pos, negsuc, Bool, true, false, ◌==◌, List, [], ◌∷◌, ◌++◌, String,
  get_elem?, replicate, if◌then◌else◌,
}
use racey_suite.Outcome.{Outcome, returned, exited, crashed, ◌>>=◌, ◌>>◌, access}
use racey_suite.Machine.{Program, run, run_and_join}
use racey_suite.Racey.{Memory, mix_sigs}
use racey_suite.Loop.{Loop, loop_step}
use racey_suite.Loop.Laws.{is_done}
use racey_suite.Launch.{Config, parse_args, init_memory}
use racey_suite.Free.{free_step, boot}

-- The results of the calls of `main`.
pub record ProcessCalls : Type 0 where
  pub atoi : String → ℤ
  pub calloc_succeeds : Bool
  pub mmap_succeeds : Bool
  -- what `fork` returns to the parent for process i
  pub fork : ℕ → ℤ
  -- what the k-th `wait` returns
  pub wait : ℕ → ℤ

abbrev pub int_eq : ℤ → ℤ → Bool
int_eq (pos a) (pos b) = a == b
int_eq (negsuc a) (negsuc b) = a == b
int_eq _ _ = false

-- A store through a pointer that may be null.
abbrev pub non_null : Bool → Outcome (Unit {0})
non_null true = returned tt
non_null false = crashed

-- A call whose failure makes `main` print an error and return 1.
abbrev pub or_return_one : Bool → Outcome (Unit {0})
or_return_one true = returned tt
or_return_one false = exited 1

-- The loop that forks the processes from `i` on: the ids that it stores in `pids`.
unfoldable pub fork_all : ProcessCalls → ℕ → ℕ → Outcome (List ℤ)
fork_all io i zero = returned []
fork_all io i (suc left) = elim (io.fork i) [
  | negsuc e ↦ exited 1
  | pos pid ↦ do
    non_null io.calloc_succeeds
    pids ← fork_all io (i + 1) left
    returned (pos pid ∷ pids)
]

-- `for (k = 0; ...; k++) if (pids[k] == ret) break`, with `left` values of k to go.
unfoldable pub find_pid : List ℤ → ℤ → ℕ → ℕ → Outcome (Unit {0})
find_pid pids ret k zero = returned tt
find_pid pids ret k (suc left) = do
  pid ← access (get_elem? pids k)
  let rest = find_pid pids ret (k + 1) left
  if int_eq pid ret then returned tt else rest

-- The loop of `wait` calls, each of which looks for its result in the first `count` of `pids`.
unfoldable pub wait_all : ProcessCalls → List ℤ → ℕ → ℕ → ℕ → Outcome (Unit {0})
unfolding find_pid
wait_all io pids count i zero = returned tt
wait_all io pids count i (suc left) =
    find_pid pids (io.wait i) 0 count >> wait_all io pids count (i + 1) left

unfoldable pub child_process : ℕ → Program Memory Loop
unfolding loop_step
child_process max_loop = free_step max_loop

-- `main` behind the command line. It reads SHARED->sig[0] after the turns of `early`, while the
-- processes run, and the other values after those of `schedule`, when they have ended.
unfoldable pub start_all : ProcessCalls → ℕ → ℕ → List ℕ → List ℕ → Outcome ℕ
unfolding fork_all wait_all child_process run run_and_join mix_sigs boot init_memory
start_all io num_procs max_loop early schedule = do
  or_return_one io.mmap_succeeds
  pids ← fork_all io 1 num_procs
  running ← run (child_process max_loop) num_procs early (boot init_memory max_loop)
  mix_sig ← access (get_elem? running.shared.sig 0)
  last ← run_and_join (child_process max_loop) is_done num_procs schedule running
  wait_all io (pids ++ replicate num_procs (pos 0)) (num_procs + 1) 1 num_procs
  mix_sigs (num_procs - 1) 1 mix_sig last.sig

unfoldable pub main : ProcessCalls → List String → List ℕ → List ℕ → Outcome ℕ
unfolding parse_args start_all
main io argv early schedule = do
  config ← parse_args io.atoi argv
  start_all io config.num_procs config.max_loop early schedule
