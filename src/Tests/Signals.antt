-- ===== src/Tests/Signals.antt =====
-- racey-signal with one thread, which sends the signal to itself.
use racey_suite.Prelude.{
  ℕ, ◌≡◌, refl, none, some, List, [], ◌∷◌, replicate, Option, ◌↔◌, ◌==◌, if◌then◌else◌,
}
use racey_suite.Outcome.{crashed, returned}
use racey_suite.Launch.{Config}
use racey_suite.Launch.Args.{Accepts}
use racey_suite.Machine.{System, run}
use racey_suite.Signal
use racey_suite.Signal.{Shared, Pc, signal_step, boot}
use racey_suite.Signal.Main.{signal_main_crashes_iff, signal_main_can_return}
use racey_suite.Tests.{
  libc_with, two_loops, with_max, with_max-Accepts, libc_with-CallsSucceed, turns, reached,
}

abbrev other_sigs : List ℕ
other_sigs = replicate 33 7

-- The thread stores its id, installs the handler, passes the barrier and mixes once.
abbrev sending : System Shared Pc
sending = reached (run (signal_step 1 1) 2 (turns 9 1 []) (boot 1 other_sigs)) (boot 1 other_sigs)

-- Behind `sig` there is one word, 5.
abbrev one_word : ℕ → Option ℕ
one_word k = if k == 0 then some 5 else none

signal_main_crashes_iff_example :
    (Signal.main (libc_with 2) one_word with_max (1 ∷ 2 ∷ []) ≡ crashed)
    ↔ ((c : Config) × Accepts (libc_with 2).atoi with_max c × (one_word 0 ≡ none))
signal_main_crashes_iff_example =
    signal_main_crashes_iff (libc_with 2) one_word with_max (1 ∷ 2 ∷ [])

signal_main_can_return_example :
    (schedule : List ℕ) × (v : ℕ) × (Signal.main (libc_with 2) one_word with_max schedule
      ≡ returned v)
signal_main_can_return_example =
    signal_main_can_return (libc_with 2) one_word 5 with_max two_loops refl with_max-Accepts
      (libc_with-CallsSucceed 2)
