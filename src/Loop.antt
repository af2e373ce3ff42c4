-- ===== src/Loop.antt =====
-- The main loop of the threads that read and write `m` with no lock: racey-basic,
-- racey-nobarrier, racey-freqsyscall, racey-mmaptmpfile and racey-forkmmap. They differ in what
-- stands before the loop and in what follows `sig[threadId] = num` in an iteration.
pub mod Laws
use racey_suite.Prelude.{ℕ, zero, suc, Bool, Option, none, some, ltb, if◌then◌else◌}
use racey_suite.Machine.{Turn, moved, halted, fault, Program}
use racey_suite.Racey.{Memory, Mixing, fetch, Round, busy, over, mix_step}

-- In iteration `i`, or behind the loop.
pub data Loop : Type 0 where
  at : (i : ℕ) → Mixing → Loop
  done : Loop

-- The test `i < MaxLoop`.
unfoldable pub next_round : ℕ → ℕ → Loop
next_round max_loop i = if ltb i max_loop then at i fetch else done

-- `rest i` tells whether the code behind `sig[threadId] = num` in iteration `i` comes to its end.
unfoldable pub after_access : (ℕ → Bool) → ℕ → ℕ → Option Round → Turn Memory Loop
unfolding next_round
after_access rest max_loop i none = fault
after_access rest max_loop i (some (busy mem p)) = moved mem (at i p)
after_access rest max_loop i (some (over mem)) =
    if rest i then moved mem (next_round max_loop (suc i)) else fault

unfoldable pub loop_step : (ℕ → Bool) → ℕ → Program Memory Loop
unfolding after_access mix_step
loop_step rest max_loop tid mem (at i p) = after_access rest max_loop i (mix_step tid mem p)
loop_step rest max_loop tid mem done = halted
