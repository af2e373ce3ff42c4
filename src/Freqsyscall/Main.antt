-- ===== src/Freqsyscall/Main.antt =====
-- What `main` of racey-freqsyscall.c comes to, with MaxLoop from 200 on and below it.
use mathlib.Core.Path.{subst}
use racey_suite.Prelude.{
  ℕ, zero, suc, ◌-◌, ◌/◌, lt→ltb, ◌≤◌, ◌<◌, ◌≡◌, ◌≢◌, refl, Bool, true, false, List, String, Option,
  none, some, ◌==◌, Bool-cases, inl, inr, ◌∙◌, sym, arith, update-all,
}
use racey_suite.Outcome.{returned, crashed}
use racey_suite.Machine.{Turn, moved, System, Step, pick, Reach}
use racey_suite.Machine.Laws.{Reach_inv, run_and_join_lem}
use racey_suite.Machine.Liveness.{all_ended-eq-true}
use racey_suite.Racey.{Memory, Round, busy, over, mix_step}
use racey_suite.Loop.{at, done, after_access}
use racey_suite.Launch.{Libc, Config, init_memory, run_main}
use racey_suite.Launch.Args.{Accepts, Accepts_bounds, parse_args-ne-crashed, parse_args->>=}
use racey_suite.Launch.Main.{run_main_joins}
use racey_suite.Gate.{
  Shared, Pc, arriving, entering, counting, testing, releasing, spinning, inside, gate_step,
  acquire, lift_loop, boot, ended,
}
use racey_suite.Gate.Main.{gate_main-ne-crashed}
use racey_suite.Freqsyscall.{main, stress_vm, thread_body}

stress_vm_passes :
    (mmap_succeeds : ℕ → ℕ → Bool)
    → ((t i : ℕ) → mmap_succeeds t i ≡ true)
    → (max_loop : ℕ) → 200 ≤ max_loop
    → (t i : ℕ) → stress_vm mmap_succeeds max_loop t i ≡ true
unfolding stress_vm
stress_vm_passes mmap_succeeds mapped max_loop h t i =
    let large : max_loop / 200 ≡ suc (max_loop / 200 - 1) = omega arith in
    rw (stress_vm, large) (ground (arith, mapped t i))

-- racey-freqsyscall makes no access and no division that C leaves undefined, under any schedule,
-- if every `mmap` succeeds and the command line, where it is accepted, gives a MaxLoop of at
-- least 200.
freqsyscall_main-ne-crashed :
    (libc : Libc) (mmap_succeeds : ℕ → ℕ → Bool) (argv : List String) (schedule : List ℕ)
    → ((t i : ℕ) → mmap_succeeds t i ≡ true)
    → ((c : Config) → Accepts libc.atoi argv c → 200 ≤ c.max_loop)
    → main libc mmap_succeeds argv schedule ≢ crashed
unfolding main
freqsyscall_main-ne-crashed libc mmap_succeeds argv schedule mapped large =
    parse_args-ne-crashed libc.atoi argv _ λ c a.
      let (low, high, loops) = Accepts_bounds a in
      gate_main-ne-crashed (stress_vm mmap_succeeds c.max_loop) c.max_loop libc c.num_procs
        (stress_vm_passes mmap_succeeds mapped c.max_loop (large c a)) low high schedule

stress_vm_fails :
    (mmap_succeeds : ℕ → ℕ → Bool) (max_loop : ℕ)
    → max_loop < 200
    → (t i : ℕ) → stress_vm mmap_succeeds max_loop t i ≡ false
unfolding stress_vm
stress_vm_fails mmap_succeeds max_loop h t i =
    let small : max_loop / 200 ≡ zero = omega arith in rw (stress_vm, small) refl

-- A turn that moves does not end the thread.
abbrev GoesOn : Turn Shared Pc → Type 0
GoesOn (moved s p) = ended p ≡ false
GoesOn _ = Unit

module _ (rest : ℕ → ℕ → Bool) (max_loop tid : ℕ) (fails : (t i : ℕ) → rest t i ≡ false)
    (some_round : 1 ≤ max_loop) where
  acquire-GoesOn : (s : Shared) (o : Option ℕ) → GoesOn (acquire s tid o)
  acquire-GoesOn s none = refl
  acquire-GoesOn s (some holder) = tt

  access-GoesOn :
      (s : Shared) (i : ℕ) (o : Option Round)
      → GoesOn (lift_loop s (after_access (rest tid) max_loop i o))
  unfolding after_access
  access-GoesOn s i none = tt
  access-GoesOn s i (some (busy mem p)) = refl
  access-GoesOn s i (some (over mem)) = rw (fails tid i) tt

  pass-GoesOn : (s : Shared) → GoesOn (gate_step rest max_loop tid s spinning)
  unfolding gate_step
  pass-GoesOn s = elim (Bool-cases (s.start_counter == 0)) [
    | inl e ↦ rw (e, lt→ltb 0 max_loop some_round) refl
    | inr e ↦ rw e refl
  ]

  gate_step-GoesOn : (s : Shared) (p : Pc) → GoesOn (gate_step rest max_loop tid s p)
  unfolding gate_step
  gate_step-GoesOn s arriving = acquire-GoesOn s s.owner
  gate_step-GoesOn s entering = refl
  gate_step-GoesOn s (counting v) = refl
  gate_step-GoesOn s testing = refl
  gate_step-GoesOn s releasing = refl
  gate_step-GoesOn s spinning = pass-GoesOn s
  gate_step-GoesOn s (inside (at i p)) = access-GoesOn s i (mix_step tid s.mem p)
  gate_step-GoesOn s (inside done) = tt

module _ (libc : Libc) (mmap_succeeds : ℕ → ℕ → Bool) (c : Config) (small : c.max_loop < 200)
    (some_round : 1 ≤ c.max_loop) where
  abbrev AllGoOn : System Shared Pc → Type 0
  AllGoOn d = (j : ℕ) → ended (d.locals j) ≡ false

  Step-AllGoOn :
      (d e : System Shared Pc)
      → Step (thread_body mmap_succeeds c.max_loop) c.num_procs d e
      → AllGoOn d
      → AllGoOn e
  unfolding thread_body
  Step-AllGoOn d e (pick i {l = p} l h moves) on =
      update-all (λ q. ended q ≡ false) d.locals i p
        (subst GoesOn moves (
          gate_step-GoesOn (stress_vm mmap_succeeds c.max_loop) c.max_loop i
            (stress_vm_fails mmap_succeeds c.max_loop small) some_round d.shared (d.locals i)))
        on

  -- No thread ever ends.
  pub freqsyscall_never_ends :
      (mem : Memory) {d : System Shared Pc}
      → Reach (thread_body mmap_succeeds c.max_loop) c.num_procs (boot mem c.num_procs) d
      → (j : ℕ) → ended (d.locals j) ≡ false
  freqsyscall_never_ends mem r =
      Reach_inv (thread_body mmap_succeeds c.max_loop) c.num_procs AllGoOn Step-AllGoOn (λ j. refl)
        r

  run_main-ne-returned :
      (schedule : List ℕ) (v : ℕ)
      → 1 ≤ c.num_procs
      → run_main
          (thread_body mmap_succeeds c.max_loop)
          ended
          (λ s. s.mem.sig)
          (boot init_memory c.num_procs)
          libc
          1
          c.num_procs
          schedule
        ≢ returned v
  run_main-ne-returned schedule v low e =
      let prog = thread_body mmap_succeeds c.max_loop in
      let (s, joined) =
        run_main_joins prog ended (λ s. s.mem.sig) (boot init_memory c.num_procs) libc 1 c.num_procs
          schedule e in
      let (d, r, all_over, same) = run_and_join_lem prog ended c.num_procs schedule _ joined in
      let over = all_ended-eq-true ended c.num_procs d.locals all_over 1 (omega arith) low in
      let on = freqsyscall_never_ends init_memory r 1 in cc

-- For an accepted command line with MaxLoop below 200, racey-freqsyscall prints a signature under
-- no schedule, since `MaxLoop/200` is 0.
pub main_small_loop :
    (libc : Libc) (mmap_succeeds : ℕ → ℕ → Bool) (argv : List String) (c : Config)
    (schedule : List ℕ) (v : ℕ)
    → Accepts libc.atoi argv c
    → c.max_loop < 200
    → main libc mmap_succeeds argv schedule ≢ returned v
unfolding main
main_small_loop libc mmap_succeeds argv c schedule v a small e =
    let (low, high, loops) = Accepts_bounds a in
    run_main-ne-returned libc mmap_succeeds c small loops schedule v low
      (sym (parse_args->>= _ a) ∙ e)
