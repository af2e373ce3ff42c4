-- ===== src/Tests/Futexes.antt =====
-- racey-futex at concrete command lines and schedules.
use text.Mathlib.Text.{◌==◌}
use racey_suite.Prelude.{
  ℕ, zero, suc, ◌≤◌, ◌≡◌, ◌≢◌, refl, true, false, List, [], ◌∷◌, String, arith, ℕ_discrete, ℤ, pos,
  negsuc, get_or, ◌++◌, if◌then◌else◌, All, inr,
}
use racey_suite.Outcome.{returned, crashed, aborted}
use racey_suite.Machine.{System, Reach, start, run, all_ended}
use racey_suite.Machine.Laws.{run-Reach}
use mathlib.Core.Path.{subst}
use racey_suite.Launch.{Libc, Config, init_memory}
use racey_suite.Launch.Args.{Accepts, with_loops, without_loops}
use racey_suite.Futex.{FutexGroup, groups, group_pick_next}
use racey_suite.Futex.Body.Choice.{ComesTo, futex-eq-group_pick_next}
use racey_suite.Futex.Homes.{find_homes, home_of, initial_groups, homes-IsStart}
use racey_suite.Futex.Points.{Shared, Pc, turn, checking, assigning}
use racey_suite.Futex.Body.{futex_step, is_ended, boot}
use racey_suite.Futex.Body.Hang.{Idles, Standstill}
use racey_suite.Futex
use racey_suite.Futex.Main.{futex_main_hangs, futex_main-ne-crashed, futex_main_aborts}
use racey_suite.Futex.Init.{IsFresh}
use racey_suite.Futex.Solo.{groups_of, homes_for, SetUp-one, futex_main_can_return}
use racey_suite.Futex.Body.Fits.{stays}
use racey_suite.Futex.Body.Invariant.{IsStart, is_member, group_at}
use racey_suite.Futex.Body.Safety.{futex_members}
use racey_suite.Futex.Body.Solo.{futex_solo_no_deadlock}
use racey_suite.Tests.{turns, reached, libc_with, libc_with-CallsSucceed}

-- `atoi` on the arguments that are used here.
abbrev reading : Libc
reading = record (libc_with 2) { atoi = λ s. if s == "7" then pos 7 else pos 2 }

abbrev seven_loops : List String
seven_loops = "racey" ∷ "2" ∷ "7" ∷ []

abbrev seven : Config
seven = record { num_procs = 2; max_loop = 7 }

seven-Accepts : Accepts reading.atoi seven_loops seven
seven-Accepts =
    with_loops "racey" "2" "7" [] 2 7 refl (omega arith) (omega arith) refl (omega arith)

abbrev pair : List FutexGroup
pair = groups_of 2

abbrev pair_homes : List ℕ
pair_homes = homes_for 2

pair_groups : groups 2 ≡ returned pair
unfolding groups
pair_groups = refl

pair_found : find_homes pair 1 2 ≡ returned pair_homes
unfolding groups find_homes
pair_found = refl

-- A schedule of two threads that ends with `owner` 3.
abbrev to_hang : List ℕ
to_hang = turns 1 2 (
    turns 20 1 (
      turns 13 2 (
        turns 11 1 (
          turns 18 2
            (turns 19 1 (turns 29 2 (turns 60 1 (turns 7 2 (turns 11 1 (turns 11 2 []))))))))))

abbrev hung : System Shared Pc
hung = reached (run (futex_step (home_of pair_homes) 2 7 false) 2 to_hang (boot pair)) (boot pair)

run-hung : run (futex_step (home_of pair_homes) 2 7 false) 2 to_hang (boot pair) ≡ returned hung
unfolding run futex_step groups find_homes init_memory ℕ_discrete
run-hung = refl

waits_or_ended : (t : ℕ) → 1 ≤ t → t ≤ 2 → home_of pair_homes t ≡ 0 → Idles 7 3 t (hung.locals t)
unfolding run futex_step groups find_homes init_memory ℕ_discrete
waits_or_ended zero l h e = absurd (omega arith)
waits_or_ended (suc zero) l h e = omega arith
waits_or_ended (suc (suc zero)) l h e = omega arith
waits_or_ended (suc (suc (suc t))) l h e = absurd (omega arith)

hung-Standstill : Standstill (home_of pair_homes) 2 7 0 3 1 hung
unfolding run futex_step groups find_homes init_memory ℕ_discrete
hung-Standstill = record {
  owned = refl;
  idle = waits_or_ended;
  first = omega arith;
  last = omega arith;
  inside = refl;
  waits = refl;
}

pair_IsStart : IsStart (home_of pair_homes) 2 pair
pair_IsStart =
    let (gs, set_up, fresh) = initial_groups 2 (omega arith) (omega arith) in
    let same : gs ≡ pair = cc in
    homes-IsStart 2 pair pair_homes (omega arith) pair_groups (subst (All IsFresh) same fresh)
      pair_found

hung-Reach : Reach (futex_step (home_of pair_homes) 2 7 false) 2 (boot pair) hung
hung-Reach =
    run-Reach (futex_step (home_of pair_homes) 2 7 false) 2 to_hang (boot pair) hung start run-hung

futex_members_example : is_member (home_of pair_homes) hung.shared 1 ≡ stays 7 (hung.locals 1)
futex_members_example =
    futex_members (home_of pair_homes) 2 7 false pair (omega arith) (omega arith) pair_IsStart hung
      hung-Reach 1 (omega arith) (omega arith)

futex_main_hangs_example :
    Futex.Main.main reading false seven_loops (to_hang ++ 1 ∷ 2 ∷ 1 ∷ 2 ∷ []) ≢ returned 0
futex_main_hangs_example =
    futex_main_hangs reading false seven_loops seven pair pair_homes 0 3 1 to_hang hung
      seven-Accepts pair_groups pair_found run-hung hung-Standstill (1 ∷ 2 ∷ 1 ∷ 2 ∷ []) 0

futex_main-ne-crashed_example :
    Futex.Main.main reading true seven_loops (to_hang ++ 1 ∷ 2 ∷ []) ≢ crashed
futex_main-ne-crashed_example =
    futex_main-ne-crashed reading true seven_loops (to_hang ++ 1 ∷ 2 ∷ [])

abbrev six : Config
six = record { num_procs = 6; max_loop = 50000 }

six-Accepts : Accepts (libc_with 6).atoi ("racey" ∷ "6" ∷ []) six
six-Accepts = without_loops "racey" "6" 6 refl (omega arith) (omega arith)

futex_main_aborts_example :
    Futex.Main.main (libc_with 6) false ("racey" ∷ "6" ∷ []) (1 ∷ 2 ∷ []) ≡ aborted
futex_main_aborts_example =
    futex_main_aborts (libc_with 6) false ("racey" ∷ "6" ∷ []) six six-Accepts (omega arith)
      (omega arith) (1 ∷ 2 ∷ [])

-- One thread behind its first round.
abbrev alone_start : System Shared Pc
alone_start = boot (groups_of 1)

abbrev alone : System Shared Pc
alone =
    reached (run (futex_step (home_of (homes_for 1)) 1 7 false) 1 (turns 20 1 []) alone_start)
      alone_start

alone_Reach : Reach (futex_step (home_of (homes_for 1)) 1 7 false) 1 alone_start alone
unfolding run futex_step groups find_homes init_memory ℕ_discrete
alone_Reach =
    run-Reach (futex_step (home_of (homes_for 1)) 1 7 false) 1 (turns 20 1 []) alone_start alone
      start refl

futex_solo_no_deadlock_example :
    (d : System Shared Pc) × Reach (futex_step (home_of (homes_for 1)) 1 7 false) 1 alone d
    × (all_ended is_ended 1 d.locals ≡ true)
futex_solo_no_deadlock_example =
    futex_solo_no_deadlock (home_of (homes_for 1)) 1 7 false (groups_of 1) (omega arith)
      (omega arith) SetUp-one.solo alone alone_Reach

abbrev four_procs : Config
four_procs = record { num_procs = 4; max_loop = 50000 }

four_procs-Accepts : Accepts (libc_with 4).atoi ("racey" ∷ "4" ∷ []) four_procs
four_procs-Accepts = without_loops "racey" "4" 4 refl (omega arith) (omega arith)

futex_main_can_return_example :
    (schedule : List ℕ) × (v : ℕ) × (Futex.Main.main
        (libc_with 4)
        false
        ("racey" ∷ "4" ∷ [])
        schedule
      ≡ returned v)
futex_main_can_return_example =
    futex_main_can_return (libc_with 4) false ("racey" ∷ "4" ∷ []) four_procs four_procs-Accepts
      (libc_with-CallsSucceed 4) (inr refl)

two_few : 2 ≤ 32
two_few = omega arith

some_loops : 1 ≤ 7
some_loops = omega arith

first_low : 1 ≤ 1
first_low = omega arith

first_high : 1 ≤ 2
first_high = omega arith

-- Two threads, the first of which is to choose the next owner.
abbrev choosing : System Shared Pc
choosing =
    reached
      (run (futex_step (home_of pair_homes) 2 7 false) 2
        (turns 1 2 (turns 20 1 (turns 13 2 (turns 1 1 [])))) (boot pair))
      (boot pair)

choosing_Reach : Reach (futex_step (home_of pair_homes) 2 7 false) 2 (boot pair) choosing
unfolding run futex_step groups find_homes init_memory ℕ_discrete
choosing_Reach =
    run-Reach (futex_step (home_of pair_homes) 2 7 false) 2
      (turns 1 2 (turns 20 1 (turns 13 2 (turns 1 1 [])))) (boot pair) choosing start refl

choosing_pc :
    choosing.locals 1
    ≡ turn 1 (record { owner = negsuc 1; leader = true; old_round = 0 }) (checking 0)
unfolding run futex_step groups find_homes init_memory ℕ_discrete
choosing_pc = refl

futex-eq-group_pick_next_example :
    (z : ℤ) × ComesTo
      (home_of pair_homes)
      2
      7
      false
      pair
      two_few
      some_loops
      pair_IsStart
      choosing
      choosing_Reach
      1
      first_low
      first_high
      (turn 1 (record { owner = negsuc 1; leader = true; old_round = 0 }) (assigning z))
    × (group_pick_next
          (get_or choosing.shared.mem.sig 1 0)
          (group_at choosing.shared (home_of pair_homes 1))
        ≡ returned z)
futex-eq-group_pick_next_example =
    futex-eq-group_pick_next (home_of pair_homes) 2 7 false pair two_few some_loops pair_IsStart
      choosing choosing_Reach 1 first_low first_high 1
      (record { owner = negsuc 1; leader = true; old_round = 0 }) choosing_pc
