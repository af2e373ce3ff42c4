-- ===== src/Futex/Main.antt =====
-- `main` of racey-futex.c, and what it comes to. The threads search for their groups before the
-- barrier, when nothing has changed `threads`; a search that fails aborts the process, whatever the
-- other threads did, so the searches stand in front of the run.
use mathlib.Core.Path.{subst}
use racey_suite.Prelude.{All, ℕ, ◌%◌, ◌≤◌, ◌<◌, ◌≡◌, ◌≢◌, refl, Bool, List, String, ◌++◌, ◌∙◌, sym}
use racey_suite.Outcome.{Outcome, returned, aborted, crashed, ◌>>=◌}
use racey_suite.Machine.{System, run}
use racey_suite.Launch.{Libc, Config, parse_args, run_main}
use racey_suite.Launch.Args.{Accepts, Accepts_bounds, parse_args-ne-crashed, parse_args->>=}
use racey_suite.Launch.Main.{Result, signs, aborts, runs_on, run_main-Result, run_main_joins}
use racey_suite.Futex.{FutexGroup, groups}
use racey_suite.Futex.Init.{IsFresh}
use racey_suite.Futex.Homes.{
  find_homes, home_of, settled, strays, initial_groups, homes-Settles, homes_stray, homes-IsStart,
}
use racey_suite.Futex.Points.{Shared, Pc}
use racey_suite.Futex.Body.{futex_step, is_ended, boot}
use racey_suite.Futex.Body.Invariant.{IsStart}
use racey_suite.Futex.Body.Hang.{Standstill, futex_hangs}
use racey_suite.Futex.Body.Safety.{Reach-Inv, futex-IsSafe}

-- `main` behind the search of the threads for their groups.
unfoldable pub run_threads : Libc → Bool → ℕ → ℕ → List ℕ → List FutexGroup → List ℕ → Outcome ℕ
unfolding run_main futex_step
run_threads libc spurious num_procs max_loop schedule gs homes =
    run_main (futex_step (home_of homes) num_procs max_loop spurious) is_ended (λ s. s.mem.sig)
      (boot gs) libc 1 num_procs schedule

unfoldable pub main : Libc → Bool → List String → List ℕ → Outcome ℕ
unfolding parse_args groups find_homes run_threads
main libc spurious argv schedule = do
  config ← parse_args libc.atoi argv
  gs ← groups config.num_procs
  homes ← find_homes gs 1 config.num_procs
  run_threads libc spurious config.num_procs config.max_loop schedule gs homes

module _ (libc : Libc) (spurious : Bool) where
  run_threads-Result :
      (n max_loop : ℕ) (gs : List FutexGroup) (hs : List ℕ)
      → 1 ≤ n
      → n ≤ 32
      → 1 ≤ max_loop
      → IsStart (home_of hs) n gs
      → (schedule : List ℕ)
      → Result
          (futex_step (home_of hs) n max_loop spurious)
          is_ended
          (λ s. s.mem.sig)
          (boot gs)
          libc
          1
          n
          (run_threads libc spurious n max_loop schedule gs hs)
  unfolding run_threads
  run_threads-Result n max_loop gs hs some_thread few loops begins schedule =
      run_main-Result (futex_step (home_of hs) n max_loop spurious) is_ended (λ s. s.mem.sig)
        (boot gs) libc 1 n
        (λ c r. futex-IsSafe (home_of hs) n max_loop spurious gs few loops begins c r)
        (λ c r. (Reach-Inv (home_of hs) n max_loop spurious gs few loops begins r).sizes.sigs)
        some_thread few schedule

  run_threads-ne-crashed :
      (n max_loop : ℕ) (gs : List FutexGroup) (hs : List ℕ)
      → 1 ≤ n
      → n ≤ 32
      → 1 ≤ max_loop
      → IsStart (home_of hs) n gs
      → (schedule : List ℕ) → run_threads libc spurious n max_loop schedule gs hs ≢ crashed
  run_threads-ne-crashed n max_loop gs hs some_thread few loops begins schedule e =
      elim (run_threads-Result n max_loop gs hs some_thread few loops begins schedule) [
        | signs c r done q ↦ cc
        | aborts q ↦ cc
        | runs_on q ↦ cc
      ]

  -- Whatever the command line, the results of the library calls, the schedule and the waits that
  -- the kernel ends by itself, racey-futex makes no access out of bounds.
  pub futex_main-ne-crashed :
      (argv : List String) (schedule : List ℕ) → main libc spurious argv schedule ≢ crashed
  unfolding main
  futex_main-ne-crashed argv schedule = parse_args-ne-crashed libc.atoi argv _ λ c a.
      let (low, high, loops) = Accepts_bounds a in
      let (gs, set_up, fresh) = initial_groups c.num_procs low high in
      elim (homes-Settles c.num_procs low high gs set_up) [
        | strays e ↦ rw (set_up, e) (λ q. cc)
        | settled hs e ↦
            rw (set_up, e)
              (run_threads-ne-crashed c.num_procs c.max_loop gs hs low high loops
                (homes-IsStart c.num_procs gs hs high set_up fresh e) schedule)
      ]

  -- On an accepted command line for which NumProcs is above 4 and no multiple of 4, racey-futex
  -- aborts, whatever the results of the library calls and the schedule.
  pub futex_main_aborts :
      (argv : List String) (c : Config)
      → Accepts libc.atoi argv c
      → 4 < c.num_procs
      → c.num_procs % 4 ≢ 0
      → (schedule : List ℕ) → main libc spurious argv schedule ≡ aborted
  unfolding main
  futex_main_aborts argv c accepted many odd schedule =
      let (low, high, loops) = Accepts_bounds accepted in
      let (gs, set_up, fresh) = initial_groups c.num_procs low high in
      parse_args->>= _ accepted
      ∙ rw (set_up, homes_stray c.num_procs low high gs set_up many odd) refl

  -- Once all threads have found their groups, `main` runs them.
  pub main_runs :
      (argv : List String) (c : Config) (gs : List FutexGroup) (hs : List ℕ)
      → Accepts libc.atoi argv c
      → groups c.num_procs ≡ returned gs
      → find_homes gs 1 c.num_procs ≡ returned hs
      → (schedule : List ℕ)
      → main libc spurious argv schedule
        ≡ run_threads libc spurious c.num_procs c.max_loop schedule gs hs
  unfolding main
  main_runs argv c gs hs accepted set_up found schedule =
      parse_args->>= _ accepted ∙ rw (set_up, found) refl

  -- If a schedule leads, on an accepted command line, to a state in which the `owner` of a group
  -- names a thread that is none of the group or has ended, while all others of the group that have
  -- not ended wait for their turn, and there are such, then however the schedule goes on,
  -- racey-futex prints no signature.
  pub futex_main_hangs :
      (argv : List String) (c : Config) (gs : List FutexGroup) (hs : List ℕ) (h p victim : ℕ)
      (schedule : List ℕ) (st : System Shared Pc)
      → Accepts libc.atoi argv c
      → groups c.num_procs ≡ returned gs
      → find_homes gs 1 c.num_procs ≡ returned hs
      → run (futex_step (home_of hs) c.num_procs c.max_loop spurious) c.num_procs schedule (boot gs)
        ≡ returned st
      → Standstill (home_of hs) c.num_procs c.max_loop h p victim st
      → (rest : List ℕ) (v : ℕ) → main libc spurious argv (schedule ++ rest) ≢ returned v
  unfolding run_threads
  futex_main_hangs argv c gs hs h p victim schedule st accepted set_up found e hangs rest v r =
      let (low, high, loops) = Accepts_bounds accepted in
      let (gs', set_up', fresh') = initial_groups c.num_procs low high in
      let same : gs' ≡ gs = cc in
      let begins =
        homes-IsStart c.num_procs gs hs high set_up (subst (All IsFresh) same fresh') found in
      let prog = futex_step (home_of hs) c.num_procs c.max_loop spurious in
      let returns : run_threads libc spurious c.num_procs c.max_loop (schedule ++ rest) gs hs
          ≡ returned v =
        sym (main_runs argv c gs hs accepted set_up found (schedule ++ rest)) ∙ r in
      let (s, joined) =
        run_main_joins prog is_ended (λ s. s.mem.sig) (boot gs) libc 1 c.num_procs
          (schedule ++ rest) returns in
      let stuck =
        futex_hangs (home_of hs) c.num_procs c.max_loop spurious gs high loops begins h p victim
          schedule st e hangs rest in
      absurd (cc)
