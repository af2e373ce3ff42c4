-- ===== src/NoBarrier/Main.antt =====
-- What `main` of racey-nobarrier.c comes to.
use racey_suite.Prelude.{ℕ, ◌<◌, ◌≡◌, ◌≢◌, List, String, ◌∙◌}
use racey_suite.Outcome.{returned, crashed}
use racey_suite.Racey.{prime1}
use racey_suite.Launch.{Libc, Config}
use racey_suite.Launch.Args.{Accepts, Accepts_bounds, parse_args-ne-crashed, parse_args->>=}
use racey_suite.Launch.Main.{CallsSucceed}
use racey_suite.Free.Main.{free_main-ne-crashed, free_main_can_return}
use racey_suite.NoBarrier.{main}

-- Whatever the command line, the results of the library calls and the schedule, racey-nobarrier
-- never makes an access out of bounds.
nobarrier_main-ne-crashed :
    (libc : Libc) (argv : List String) (schedule : List ℕ) → main libc argv schedule ≢ crashed
unfolding main
nobarrier_main-ne-crashed libc argv schedule = parse_args-ne-crashed libc.atoi argv _ λ c a.
    let (low, high, loops) = Accepts_bounds a in
    free_main-ne-crashed c.max_loop libc c.num_procs low high schedule

-- For every accepted command line, if the library calls succeed, there is a schedule under which
-- racey-nobarrier ends and prints a signature, and that signature is below PRIME1.
nobarrier_main_can_return :
    (libc : Libc) (argv : List String) (c : Config)
    → Accepts libc.atoi argv c
    → CallsSucceed libc
    → (schedule : List ℕ) × (v : ℕ) × (main libc argv schedule ≡ returned v) × (v < prime1)
unfolding main
nobarrier_main_can_return libc argv c a ok =
    let (low, high, loops) = Accepts_bounds a in
    let (schedule, v, e, small) = free_main_can_return c.max_loop libc c.num_procs low high ok in
    (schedule, v, parse_args->>= _ a ∙ e, small)
