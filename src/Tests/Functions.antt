-- ===== src/Tests/Functions.antt =====
-- The functions of the programs, at concrete values.
use racey_suite.Prelude.{
  ℕ, zero, suc, ◌<◌, ◌≤◌, ◌≡◌, refl, ℤ, pos, negsuc, true, some, List, ◌∷◌, length, get_or,
  replicate, All, arith, ◌↔◌, ℕ_discrete,
}
use racey_suite.Outcome.{returned, aborted}
use racey_suite.Racey.{mix, mix_step, put, Round, signature, sig_init}
use racey_suite.Racey.Loop.{GoodRound, mix_step_keeps}
use racey_suite.Launch.{parse_args, init_memory}
use racey_suite.Launch.Args.{Accepts, parse_args_iff}
use racey_suite.Launch.Main.{init_memory-IsMemory}
use racey_suite.Futex.{FutexGroup, groups, is_live, group_pick_next, some_live}
use racey_suite.Futex.Pick.{IsGroup, Picks, zero_dead, group_pick_next-Picks}
use racey_suite.Futex.Groups.{group_of, expected_group, group_of-eq-expected_group}
use racey_suite.Futex.Init.{IsFresh, groups-IsFresh, get_or-replicate}
use racey_suite.Tests.{libc_with, only_procs, two_procs}

mix_step_keeps_example :
    (r : Round) × (mix_step 1 init_memory (put 3 5) ≡ some r) × GoodRound 1 init_memory (put 3 5) r
mix_step_keeps_example =
    mix_step_keeps 1 init_memory (put 3 5) (omega arith) init_memory-IsMemory (omega arith)

sig_init-length : length sig_init ≡ 33
unfolding sig_init
sig_init-length = refl

-- Two threads sign 1 + 0 * PRIME2.
signature_run : signature 2 sig_init ≡ returned 1
unfolding signature sig_init mix ℕ_discrete
signature_run = refl

mix_same : mix 5 7 ≡ mix 5 7
mix_same = refl

parse_args_iff_example :
    (parse_args (libc_with 2).atoi only_procs ≡ returned two_procs)
    ↔ Accepts (libc_with 2).atoi only_procs two_procs
parse_args_iff_example = parse_args_iff (libc_with 2).atoi only_procs two_procs

-- 33 threads are refused.
parse_args_33 : parse_args (libc_with 33).atoi only_procs ≡ aborted
unfolding parse_args
parse_args_33 = refl

group_of-eq-expected_group_example : group_of 6 5 ≡ expected_group 6 5
group_of-eq-expected_group_example =
    group_of-eq-expected_group 6 5 (omega arith) (omega arith) (omega arith) (omega arith)

groups-IsFresh_example : (gs : List FutexGroup) × (groups 8 ≡ returned gs) × All IsFresh gs
groups-IsFresh_example = groups-IsFresh 8 (omega arith)

-- The first group of eight threads.
abbrev pair : FutexGroup
pair = record {
  owner = negsuc 1;
  round = 0;
  threads = 0 ∷ 1 ∷ 1 ∷ replicate 30 0;
  begin = 1;
  stop = 3;
}

pair_range : (t : ℕ) → is_live (get_or pair.threads t 0) ≡ true → (1 ≤ t) × (t < 3)
pair_range zero e = absurd (zero_dead e)
pair_range (suc zero) e = omega arith
pair_range (suc (suc zero)) e = omega arith
pair_range (suc (suc (suc t))) e = absurd (zero_dead (rw (get_or-replicate 30 t) at e))

pair-IsGroup : IsGroup pair
pair-IsGroup = record {
  sized = refl;
  ordered = omega arith;
  in_array = omega arith;
  in_range = pair_range;
}

group_pick_next-Picks_example : (z : ℤ) × (group_pick_next 4 pair ≡ returned z) × Picks pair z
group_pick_next-Picks_example = group_pick_next-Picks 4 pair pair-IsGroup

-- 4 % 3 + 1 is the thread that is picked.
group_pick_next_run : group_pick_next 4 pair ≡ returned (pos 2)
unfolding group_pick_next ℕ_discrete
group_pick_next_run = refl

pair_live : some_live pair.threads ≡ true
unfolding some_live
pair_live = refl
