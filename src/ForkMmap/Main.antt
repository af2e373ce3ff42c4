-- ===== src/ForkMmap/Main.antt =====
-- What `main` of racey-forkmmap.c comes to.
use racey_suite.Prelude.{
  ℕ, ◌+◌, ◌-◌, ◌≤◌, ◌≡◌, ◌≢◌, refl, inl, ℤ, pos, Bool, true, false, List, ◌++◌, String, length,
  replicate, get_or, get_elem?-eq-get_or, arith, ◌∙◌, sym, ap, if◌then◌else◌,
}
use racey_suite.Outcome.{
  returned, crashed, unfinished, ◌>>=◌, Ensures, Ensures->>=, Ensures-ne-crashed, Ensures-returned,
}
use racey_suite.Machine.{System, Reach, start, run, run_and_join, all_ended}
use racey_suite.Machine.Laws.{run_total}
use racey_suite.Racey.{Memory, mix_sigs}
use racey_suite.Racey.Signature.{signature_of, fold_sigs, mix_sigs-eq-fold_sigs}
use racey_suite.Loop.{Loop}
use racey_suite.Loop.Laws.{is_done}
use racey_suite.Launch.{Config, init_memory}
use racey_suite.Launch.Args.{Accepts, Accepts_bounds, parse_args-ne-crashed, parse_args->>=}
use racey_suite.Launch.Main.{init_memory-IsMemory}
use racey_suite.Free.{free_step, boot}
use racey_suite.Free.Invariant.{Inv, Reach-Inv, free-IsSafe}
use racey_suite.ForkMmap.{
  ProcessCalls, main, fork_all, wait_all, or_return_one, child_process, start_all,
}
use racey_suite.ForkMmap.Calls.{or_return_one-Ensures, fork_all-Ensures, wait_all_lem, padded}

module _ (n max_loop : ℕ) (few : n ≤ 32) where
  abbrev Reachable : System Memory Loop → Type 0
  Reachable c = Reach (child_process max_loop) n (boot init_memory max_loop) c

  reach-Inv : {c : System Memory Loop} → Reachable c → Inv n max_loop init_memory c
  unfolding child_process
  reach-Inv r = Reach-Inv max_loop n init_memory few init_memory-IsMemory r

  -- A run from a reachable state ends in a reachable state.
  run-Ensures :
      (schedule : List ℕ) (c : System Memory Loop)
      → Reachable c
      → Ensures Reachable (run (child_process max_loop) n schedule c)
  unfolding child_process
  run-Ensures schedule c r =
      let (d, e, q) =
        run_total (free_step max_loop) n
          (free-IsSafe max_loop n init_memory few init_memory-IsMemory) schedule c r in
      rw e q

  -- The memory of a reachable state in which all processes have ended.
  abbrev Final : Memory → Type 0
  Final mem =
      (c : System Memory Loop) × Reachable c
      × (all_ended is_done n c.locals ≡ true)
      × (c.shared ≡ mem)

  join-Ensures :
      (schedule : List ℕ) (c : System Memory Loop)
      → Reachable c
      → Ensures Final (run_and_join (child_process max_loop) is_done n schedule c)
  unfolding run_and_join
  join-Ensures schedule c r =
      Ensures->>= Reachable Final (run (child_process max_loop) n schedule c) _
        (run-Ensures schedule c r) (λ d q. finish d q (all_ended is_done n d.locals) refl)
    where
      finish :
          (d : System Memory Loop)
          → Reachable d
          → (b : Bool) → all_ended is_done n d.locals ≡ b
          → Ensures Final (if b then returned d.shared else unfinished)
      finish d q true e = (d, q, e, refl)
      finish d q false e = tt

  -- The signature over the memory that a reachable state of ended processes leaves.
  abbrev pub IsFinalSignature : ℕ → Type 0
  IsFinalSignature v = (mem : Memory) × Final mem × (v ≡ signature_of n (λ k. get_or mem.sig k 0))

  -- sig[0], read while the processes run, is still what it was at their start, and at their end.
  early-sig :
      {c : System Memory Loop} {mem : Memory}
      → Reachable c
      → Final mem
      → get_or c.shared.sig 0 0 ≡ get_or mem.sig 0 0
  early-sig r (d, q, ended, same) =
      (reach-Inv r).others 0 (inl refl)
      ∙ sym ((reach-Inv q).others 0 (inl refl))
      ∙ ap (λ s. get_or s.sig 0 0) same

  Final-length : {mem : Memory} → Final mem → length mem.sig ≡ 33
  Final-length (d, q, ended, same) = rw (← same) (reach-Inv q).memory.sigs

  mix_sigs-Ensures :
      {c : System Memory Loop} {mem : Memory}
      → 1 ≤ n
      → Reachable c
      → Final mem
      → Ensures IsFinalSignature (mix_sigs (n - 1) 1 (get_or c.shared.sig 0 0) mem.sig)
  mix_sigs-Ensures {c} {mem} l r f =
      rw
        (mix_sigs-eq-fold_sigs (n - 1) 1 (get_or c.shared.sig 0 0) mem.sig
          (omega (arith, Final-length f)))
        (mem, f, ap (λ x. fold_sigs (n - 1) 1 x (λ k. get_or mem.sig k 0)) (early-sig r f))

module _ (io : ProcessCalls) (allocated : io.calloc_succeeds ≡ true) where
  -- Behind the command line.
  run_on-Ensures :
      (n max_loop : ℕ) (few : n ≤ 32) (schedule : List ℕ) (mix_sig : ℕ) (pids : List ℤ)
      (c : System Memory Loop)
      → 1 ≤ n
      → length pids ≡ n
      → Reachable n max_loop few c
      → mix_sig ≡ get_or c.shared.sig 0 0
      → Ensures (IsFinalSignature n max_loop few) (
          run_and_join (child_process max_loop) is_done n schedule c >>= λ last.
          wait_all io (pids ++ replicate n (pos 0)) (n + 1) 1 n >>= λ u.
          mix_sigs (n - 1) 1 mix_sig last.sig)
  run_on-Ensures n max_loop few schedule mix_sig pids c l e r same = rw same (
      Ensures->>= (Final n max_loop few) (IsFinalSignature n max_loop few)
        (run_and_join (child_process max_loop) is_done n schedule c) _
        (join-Ensures n max_loop few schedule c r)
        (λ last f.
          rw (wait_all_lem io (pids ++ replicate n (pos 0)) (n + 1) 1 n (padded n pids l e))
            (mix_sigs-Ensures n max_loop few l r f)))

  -- Behind an accepted command line.
  accepted-Ensures :
      (n max_loop : ℕ) (few : n ≤ 32) (early schedule : List ℕ)
      → 1 ≤ n
      → Ensures (IsFinalSignature n max_loop few) (start_all io n max_loop early schedule)
  unfolding start_all
  accepted-Ensures n max_loop few early schedule l =
      Ensures->>= (λ u. Unit {0}) (IsFinalSignature n max_loop few) (or_return_one io.mmap_succeeds)
        _ (or_return_one-Ensures io.mmap_succeeds)
        (λ u t.
          Ensures->>= (λ pids. length pids ≡ n) (IsFinalSignature n max_loop few) (fork_all io 1 n)
            _ (fork_all-Ensures io allocated 1 n)
            (λ pids e.
              Ensures->>= (Reachable n max_loop few) (IsFinalSignature n max_loop few)
                (run (child_process max_loop) n early (boot init_memory max_loop)) _
                (run-Ensures n max_loop few early (boot init_memory max_loop) start)
                (λ c r.
                  rw
                    (get_elem?-eq-get_or c.shared.sig 0 0
                      (omega (arith, (reach-Inv n max_loop few r).memory.sigs)))
                    (run_on-Ensures n max_loop few schedule (get_or c.shared.sig 0 0) pids c l e r
                      refl))))

  -- If `calloc` succeeds, no command line, results of the other calls and schedule make
  -- racey-forkmmap access anything out of bounds.
  forkmmap_main-ne-crashed :
      (argv : List String) (early schedule : List ℕ) → main io argv early schedule ≢ crashed
  unfolding main
  forkmmap_main-ne-crashed argv early schedule = parse_args-ne-crashed io.atoi argv _ λ c a.
      let (low, high, loops) = Accepts_bounds a in
      Ensures-ne-crashed (IsFinalSignature c.num_procs c.max_loop high) _
        (accepted-Ensures c.num_procs c.max_loop high early schedule low)

  -- If `calloc` succeeds and the command line is accepted, a value that racey-forkmmap prints is
  -- the signature over the memory of a state that the processes reach, in which all of them have
  -- ended, although sig[0] is read while they run.
  pub forkmmap_main-IsFinalSignature :
      (argv : List String) (c : Config) (accepted : Accepts io.atoi argv c)
      (early schedule : List ℕ) (v : ℕ)
      → main io argv early schedule ≡ returned v
      → IsFinalSignature c.num_procs c.max_loop (Accepts_bounds accepted).1 v
  unfolding main
  forkmmap_main-IsFinalSignature argv c accepted early schedule v e =
      let (low, high, loops) = Accepts_bounds accepted in
      Ensures-returned (IsFinalSignature c.num_procs c.max_loop high) _
        (accepted-Ensures c.num_procs c.max_loop high early schedule low)
        (sym (parse_args->>= _ accepted) ∙ e)
