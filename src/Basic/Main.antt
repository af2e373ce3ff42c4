-- ===== src/Basic/Main.antt =====
-- What `main` of racey-basic.c comes to, and what holds while its threads run.
use racey_suite.Prelude.{ℕ, ◌≤◌, ◌<◌, ◌≡◌, ◌≢◌, refl, true, List, String, ◌∙◌, sym}
use racey_suite.Outcome.{returned, crashed}
use racey_suite.Machine.{System, Reach, all_ended}
use racey_suite.Racey.{Memory, prime1, mix_rounds}
use racey_suite.Racey.Loop.{IsMemory}
use racey_suite.Loop.{Loop}
use racey_suite.Launch.{Libc, Config}
use racey_suite.Launch.Args.{Accepts, Accepts_bounds, parse_args-ne-crashed, parse_args->>=}
use racey_suite.Launch.Main.{CallsSucceed}
use racey_suite.Gate.{Shared, Pc, inside, boot, ended}
use racey_suite.Gate.Invariant.{critical, arrived}
use racey_suite.Gate.Progress.{gate_no_deadlock}
use racey_suite.Gate.Safety.{gate_barrier, gate_exclusion, gate_alone}
use racey_suite.Gate.Main.{gate_main-ne-crashed, gate_main_one_proc, gate_main_can_return}
use racey_suite.Basic.{main, thread_body}

-- Whatever the command line, the results of the library calls and the schedule, racey-basic never
-- makes an access out of bounds.
pub basic_main-ne-crashed :
    (libc : Libc) (argv : List String) (schedule : List ℕ) → main libc argv schedule ≢ crashed
unfolding main
basic_main-ne-crashed libc argv schedule = parse_args-ne-crashed libc.atoi argv _ λ c a.
    let (low, high, loops) = Accepts_bounds a in
    gate_main-ne-crashed (λ tid i. true) c.max_loop libc c.num_procs (λ t i. refl) low high schedule

-- For every accepted command line, if the library calls succeed, there is a schedule under which
-- racey-basic ends and prints a signature, and that signature is below PRIME1.
basic_main_can_return :
    (libc : Libc) (argv : List String) (c : Config)
    → Accepts libc.atoi argv c
    → CallsSucceed libc
    → (schedule : List ℕ) × (v : ℕ) × (main libc argv schedule ≡ returned v) × (v < prime1)
unfolding main
basic_main_can_return libc argv c a ok =
    let (low, high, loops) = Accepts_bounds a in
    let (schedule, v, e, small) =
      gate_main_can_return (λ tid i. true) c.max_loop libc c.num_procs (λ t i. refl) low high ok in
    (schedule, v, parse_args->>= _ a ∙ e, small)

-- If racey-basic, with an accepted command line for which NumProcs is 1, prints a signature, it
-- is 0, whatever the thread computed.
basic_main_one_proc :
    (libc : Libc) (argv : List String) (c : Config) (schedule : List ℕ) (v : ℕ)
    → Accepts libc.atoi argv c
    → c.num_procs ≡ 1
    → main libc argv schedule ≡ returned v
    → v ≡ 0
unfolding main
basic_main_one_proc libc argv c schedule v a one e =
    let (low, high, loops) = Accepts_bounds a in
    gate_main_one_proc (λ tid i. true) c.max_loop libc c.num_procs (λ t i. refl) low high schedule v
      one (sym (parse_args->>= _ a) ∙ e)

module _ (max_loop n : ℕ) (mem : Memory) (few : n ≤ 32) (ok : IsMemory mem) {c : System Shared Pc}
    (r : Reach (thread_body max_loop) n (boot mem n) c) where
  -- In every reachable state of up to 32 threads of racey-basic, started over arrays of the right
  -- sizes with values below PRIME1, if one thread is in its main loop or behind it, every thread
  -- has decremented `startCounter`.
  pub basic_barrier :
      (i j : ℕ) (l : Loop) → c.locals i ≡ inside l → 1 ≤ j → j ≤ n → arrived (c.locals j) ≡ 1
  unfolding thread_body
  basic_barrier = gate_barrier (λ tid i. true) max_loop n mem (λ t i. refl) few ok r

  -- In every reachable state of up to 32 threads of racey-basic, started over arrays of the right
  -- sizes with values below PRIME1, at most one thread is between `pthread_mutex_lock` and
  -- `pthread_mutex_unlock`.
  pub basic_exclusion :
      (i j : ℕ) → critical (c.locals i) ≡ true → critical (c.locals j) ≡ true → i ≡ j
  unfolding thread_body
  basic_exclusion = gate_exclusion (λ tid i. true) max_loop n mem (λ t i. refl) few ok r

-- A single thread of racey-basic, started over arrays of the right sizes with values below
-- PRIME1, leaves at its end, whatever the schedule, the memory that MaxLoop rounds of the loop's
-- body read as a sequential program leave.
pub basic_alone :
    (max_loop : ℕ) (mem : Memory) {c : System Shared Pc}
    → IsMemory mem
    → Reach (thread_body max_loop) 1 (boot mem 1) c
    → ended (c.locals 1) ≡ true
    → c.shared.mem ≡ mix_rounds 1 max_loop mem
unfolding thread_body
basic_alone max_loop mem ok r e = gate_alone (λ tid i. true) max_loop mem (λ t i. refl) ok r e

-- racey-basic never gets stuck: up to 32 threads, started over arrays of the right sizes with
-- values below PRIME1, can go on from every reachable state to a state in which all of them have
-- ended.
pub basic_no_deadlock :
    (n max_loop : ℕ) (mem : Memory)
    → n ≤ 32
    → IsMemory mem
    → (c : System Shared Pc) → Reach (thread_body max_loop) n (boot mem n) c
    → (d : System Shared Pc) × Reach (thread_body max_loop) n c d
      × (all_ended ended n d.locals ≡ true)
unfolding thread_body
basic_no_deadlock n max_loop mem few ok c r =
    gate_no_deadlock (λ tid i. true) max_loop n mem (λ t i. refl) few ok c r
