-- ===== src/Tests/Programs.antt =====
-- The programs, run on a command line for two threads.
use racey_suite.Prelude.{
  ℕ, ◌+◌, ◌-◌, pos, negsuc, true, ◌≤◌, ◌≡◌, ◌≢◌, refl, List, [], ◌∷◌, arith, ℕ_discrete,
}
use racey_suite.Outcome.{returned, crashed}
use racey_suite.Launch.{Config}
use racey_suite.Launch.Args.{Accepts, Accepts_bounds, without_loops, with_loops}
use racey_suite.Basic
use racey_suite.Basic.Main.{basic_main-ne-crashed}
use racey_suite.Freqsyscall
use racey_suite.Freqsyscall.Main.{main_small_loop}
use racey_suite.MmapTmpfile
use racey_suite.MmapTmpfile.{FileCalls}
use racey_suite.MmapTmpfile.Main.{mmaptmpfile_main-ne-crashed}
use racey_suite.ForkMmap
use racey_suite.ForkMmap.{ProcessCalls}
use racey_suite.ForkMmap.Main.{forkmmap_main-IsFinalSignature, IsFinalSignature}
use racey_suite.Tests.{libc_with, only_procs, with_max, two_loops, with_max-Accepts, turns}

basic_main-ne-crashed_example : Basic.main (libc_with 2) with_max (1 ∷ 2 ∷ 1 ∷ []) ≢ crashed
basic_main-ne-crashed_example = basic_main-ne-crashed (libc_with 2) with_max (1 ∷ 2 ∷ 1 ∷ [])

large_loops : (c : Config) → Accepts (libc_with 2).atoi only_procs c → 200 ≤ c.max_loop
large_loops c (without_loops name procs n e l h) = omega arith

main_small_loop_example :
    Freqsyscall.main (libc_with 2) (λ t i. true) with_max (1 ∷ 2 ∷ 1 ∷ []) ≢ returned 0
main_small_loop_example =
    main_small_loop (libc_with 2) (λ t i. true) with_max two_loops (1 ∷ 2 ∷ 1 ∷ []) 0
      with_max-Accepts (omega arith)

abbrev temporary : FileCalls
temporary = record {
  mkstemp = pos 3;
  ftruncate = 0;
  mmap_succeeds = true;
  munmap = pos 0;
  close = pos 0;
  unlink = negsuc 0;
}

mmaptmpfile_main-ne-crashed_example :
    MmapTmpfile.main (libc_with 2) temporary with_max (1 ∷ 2 ∷ 1 ∷ []) ≢ crashed
mmaptmpfile_main-ne-crashed_example =
    mmaptmpfile_main-ne-crashed (libc_with 2) temporary with_max (1 ∷ 2 ∷ 1 ∷ [])

-- Processes 101 and 102, of which the second ends first.
abbrev family : ProcessCalls
family = record {
  atoi = λ s. pos 1;
  calloc_succeeds = true;
  mmap_succeeds = true;
  fork = λ i. pos (100 + i);
  wait = λ k. pos (103 - k);
}

abbrev one_loop : Config
one_loop = record { num_procs = 1; max_loop = 1 }

one_loop-Accepts : Accepts (libc_with 1).atoi with_max one_loop
one_loop-Accepts =
    with_loops "racey" "2" "2" [] 1 1 refl (omega arith) (omega arith) refl (omega arith)

-- A thread alone is through the barrier in 6 turns, and through its iteration in 5.
basic_run : Basic.main (libc_with 1) with_max (turns 11 1 []) ≡ returned 0
unfolding Basic.main ℕ_discrete
basic_run = refl

abbrev family_turns : List ℕ
family_turns = turns 2 1 []

forkmmap_run : ForkMmap.main family with_max family_turns (turns 3 1 []) ≡ returned 0
unfolding ForkMmap.main ℕ_discrete
forkmmap_run = refl

forkmmap_main-IsFinalSignature_example : IsFinalSignature 1 1 (Accepts_bounds one_loop-Accepts).1 0
forkmmap_main-IsFinalSignature_example =
    forkmmap_main-IsFinalSignature family refl with_max one_loop one_loop-Accepts family_turns
      (turns 3 1 []) 0 forkmmap_run
