-- ===== src/Tests/Threads.antt =====
-- Reachable states of two threads, and what holds in them.
use racey_suite.Prelude.{ℕ, ◌≡◌, refl, true, some, List, [], arith, ℕ_discrete}
use racey_suite.Machine.{System, Reach, start, run, all_ended}
use racey_suite.Machine.Laws.{run-Reach}
use racey_suite.Racey.{mix_rounds, fetch}
use racey_suite.Loop.{at}
use racey_suite.Launch.{init_memory}
use racey_suite.Launch.Main.{init_memory-IsMemory}
use racey_suite.Gate
use racey_suite.Gate.Invariant.{arrived, critical}
use racey_suite.Basic
use racey_suite.Basic.Main.{basic_barrier, basic_exclusion, basic_alone, basic_no_deadlock}
use racey_suite.Guarded
use racey_suite.Guarded.Move.{cell}
use racey_suite.Guarded.Held.{inside}
use racey_suite.Guarded.Races.{touches, race_free, no_lost_update}
use racey_suite.Tests.{turns, few, reached}
use racey_suite.Guarded.Progress.{guarded_no_deadlock}

-- racey-guarded: both threads are through the barrier, and thread 1 has taken the mutex of its
-- first cell.
abbrev guarded_schedule : List ℕ
guarded_schedule = turns 1 1 (turns 1 2 (turns 3 1 []))

abbrev reading : System Guarded.Shared Guarded.Pc
reading =
    reached (run (Guarded.thread_body 2 2) 2 guarded_schedule (Guarded.boot init_memory))
      (Guarded.boot init_memory)

reading-Reach : Reach (Guarded.thread_body 2 2) 2 (Guarded.boot init_memory) reading
unfolding run Guarded.thread_body init_memory ℕ_discrete
reading-Reach =
    run-Reach (Guarded.thread_body 2 2) 2 guarded_schedule (Guarded.boot init_memory) reading start
      refl

reading_cell : touches (reading.locals 1) ≡ some 1
unfolding run Guarded.thread_body init_memory ℕ_discrete
reading_cell = refl

reading_inside : inside (reading.locals 1) ≡ true
unfolding run Guarded.thread_body init_memory ℕ_discrete
reading_inside = refl

race_free_example : ◌≡◌ {A = ℕ} 1 1
race_free_example =
    race_free 2 2 init_memory few init_memory-IsMemory reading-Reach 1 1 1 reading_cell reading_cell

-- Thread 1 is about to write the cell that it has mixed.
abbrev storing_state : System Guarded.Shared Guarded.Pc
storing_state =
    reached
      (run (Guarded.thread_body 2 2) 2 (turns 1 1 (turns 1 2 (turns 7 1 [])))
        (Guarded.boot init_memory))
      (Guarded.boot init_memory)

storing_state-Reach : Reach (Guarded.thread_body 2 2) 2 (Guarded.boot init_memory) storing_state
unfolding run Guarded.thread_body init_memory ℕ_discrete
storing_state-Reach =
    run-Reach (Guarded.thread_body 2 2) 2 (turns 1 1 (turns 1 2 (turns 7 1 [])))
      (Guarded.boot init_memory) storing_state start refl

storing_state_pc : storing_state.locals 1 ≡ Guarded.storing 0 8 100302216 7385320
unfolding run Guarded.thread_body init_memory ℕ_discrete
storing_state_pc = refl

no_lost_update_example : 7385320 ≡ cell storing_state.shared 8
no_lost_update_example =
    no_lost_update 2 2 init_memory few init_memory-IsMemory storing_state-Reach 1 0 8 100302216
      7385320 storing_state_pc

guarded_no_deadlock_example :
    (d : System Guarded.Shared Guarded.Pc) × Reach (Guarded.thread_body 2 2) 2 reading d
    × (all_ended Guarded.is_ended 2 d.locals ≡ true)
guarded_no_deadlock_example =
    guarded_no_deadlock 2 2 init_memory few init_memory-IsMemory reading reading-Reach

-- racey-basic: thread 2 has counted down and spins, and thread 1 is in the main loop.
abbrev basic_schedule : List ℕ
basic_schedule = turns 5 1 (turns 5 2 (turns 1 1 []))

abbrev basic_boot : System Gate.Shared Gate.Pc
basic_boot = Gate.boot init_memory 2

abbrev looping : System Gate.Shared Gate.Pc
looping = reached (run (Basic.thread_body 2) 2 basic_schedule basic_boot) basic_boot

looping-Reach : Reach (Basic.thread_body 2) 2 basic_boot looping
unfolding run Basic.thread_body ℕ_discrete
looping-Reach = run-Reach (Basic.thread_body 2) 2 basic_schedule basic_boot looping start refl

looping_pc : looping.locals 1 ≡ Gate.inside (at 0 fetch)
unfolding run Basic.thread_body ℕ_discrete
looping_pc = refl

basic_barrier_example : arrived (looping.locals 2) ≡ 1
basic_barrier_example =
    basic_barrier 2 2 init_memory few init_memory-IsMemory looping-Reach 1 2 (at 0 fetch) looping_pc
      (omega arith) (omega arith)

basic_no_deadlock_example :
    (d : System Gate.Shared Gate.Pc) × Reach (Basic.thread_body 2) 2 looping d
    × (all_ended Gate.ended 2 d.locals ≡ true)
basic_no_deadlock_example =
    basic_no_deadlock 2 2 init_memory few init_memory-IsMemory looping looping-Reach

-- Thread 2 is between the two calls on `threadLock`.
abbrev locked : System Gate.Shared Gate.Pc
locked = reached (run (Basic.thread_body 2) 2 (turns 1 2 (turns 1 1 [])) basic_boot) basic_boot

locked-Reach : Reach (Basic.thread_body 2) 2 basic_boot locked
unfolding run Basic.thread_body ℕ_discrete
locked-Reach =
    run-Reach (Basic.thread_body 2) 2 (turns 1 2 (turns 1 1 [])) basic_boot locked start refl

locked_critical : critical (locked.locals 2) ≡ true
unfolding run Basic.thread_body ℕ_discrete
locked_critical = refl

basic_exclusion_example : ◌≡◌ {A = ℕ} 2 2
basic_exclusion_example =
    basic_exclusion 2 2 init_memory few init_memory-IsMemory locked-Reach 2 2 locked_critical
      locked_critical

-- One thread alone, at the end of its only iteration.
abbrev alone_boot : System Gate.Shared Gate.Pc
alone_boot = Gate.boot init_memory 1

abbrev finished : System Gate.Shared Gate.Pc
finished = reached (run (Basic.thread_body 1) 1 (turns 11 1 []) alone_boot) alone_boot

finished-Reach : Reach (Basic.thread_body 1) 1 alone_boot finished
unfolding run Basic.thread_body init_memory ℕ_discrete
finished-Reach = run-Reach (Basic.thread_body 1) 1 (turns 11 1 []) alone_boot finished start refl

finished_ended : Gate.ended (finished.locals 1) ≡ true
unfolding run Basic.thread_body init_memory ℕ_discrete
finished_ended = refl

basic_alone_example : finished.shared.mem ≡ mix_rounds 1 1 init_memory
basic_alone_example = basic_alone 1 init_memory init_memory-IsMemory finished-Reach finished_ended
