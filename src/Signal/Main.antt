-- ===== src/Signal/Main.antt =====
-- What `main` of racey-signal.c comes to.
use mathlib.Core.Path.{subst}
use racey_suite.Prelude.{
  ℕ, ◌*◌, ◌≤◌, ◌≡◌, ◌≢◌, ◌↔◌, refl, Option, Option-cases, none, some, List, [], ◌∷◌, String, length,
  ◌∙◌, sym, ap, Bool-cases, inl, inr,
}
use racey_suite.Outcome.{
  Outcome, returned, crashed, ◌>>=◌, ◌>>◌, assert, Ensures, Ensures->>=, Ensures-ne-crashed,
}
use racey_suite.Machine.{start, run_and_join, all_ended}
use racey_suite.Machine.Laws.{run_total}
use racey_suite.Launch.{Libc, Config, assert_each, parse_args}
use racey_suite.Launch.Args.{
  Accepts, Accepts_bounds, parse_args-ne-crashed, parse_args->>=, usage, refused, accepted,
  parse_args-Parsed,
}
use racey_suite.Launch.Main.{assert-Ensures, assert_each-Ensures}
use racey_suite.Signal.{boot, signal_step, is_ended, init_sig2, signal_signature, run_threads, main}
use racey_suite.Signal.Result.{
  IsSignalSignature, signs_both, signal-IsSafe, signal_can_join, signature_of_both,
}
use racey_suite.Launch.Main.{CallsSucceed, assert_each-eq-returned}

module _ (n max_loop : ℕ) (some_thread : 1 ≤ n) (few : n ≤ 32) (sig2 : List ℕ)
    (size : length sig2 ≡ 33) where
  abbrev Signs : ℕ → Type 0
  Signs = IsSignalSignature n max_loop some_thread few sig2 size

  joined-Ensures :
      (libc : Libc) (schedule : List ℕ)
      → Ensures Signs (
          run_and_join (signal_step n max_loop) is_ended (2 * n) schedule (boot n sig2) >>= λ last.
          assert_each libc.join 0 n >> signal_signature n last)
  unfolding run_and_join
  joined-Ensures libc schedule =
      let (c, e, r) =
        run_total (signal_step n max_loop) (2 * n)
          (signal-IsSafe n max_loop some_thread few sig2 size) schedule (boot n sig2) start in
      elim (Bool-cases (all_ended is_ended (2 * n) c.locals)) [
        | inr live ↦ rw (e, live) tt
        | inl done ↦
            rw (e, done)
              (Ensures->>= (λ u. Unit {0}) Signs (assert_each libc.join 0 n) _
                (assert_each-Ensures libc.join 0 n)
                (λ u t.
                  rw (signs_both n max_loop some_thread few sig2 size c r) (c, r, done, refl)))
      ]

-- What the rounds behind the first leave in `sig2`.
abbrev reversed : List ℕ
reversed =
    32 ∷ 31 ∷ 30 ∷ 29 ∷ 28 ∷ 27 ∷ 26 ∷ 25 ∷ 24 ∷ 23 ∷ 22 ∷ 21 ∷ 20 ∷ 19 ∷ 18 ∷ 17 ∷ 16 ∷ 15 ∷ 14
    ∷ 13 ∷ 12 ∷ 11 ∷ 10 ∷ 9 ∷ 8 ∷ 7 ∷ 6 ∷ 5 ∷ 4 ∷ 3 ∷ 2 ∷ 1 ∷ []

-- The loop that fills `sig2` reads one word behind `sig`, the first.
pub filled :
    (beyond : ℕ → Option ℕ) (v : ℕ)
    → beyond 0 ≡ some v
    → (sig2 : List ℕ) × (init_sig2 beyond 0 33 ≡ returned sig2) × (length sig2 ≡ 33)
unfolding init_sig2
filled beyond v e = (v ∷ reversed, rw e refl, refl)

fails_beyond :
    (beyond : ℕ → Option ℕ) (run_on : List ℕ → Outcome ℕ)
    → beyond 0 ≡ none
    → (init_sig2 beyond 0 33 >>= run_on) ≡ crashed
unfolding init_sig2
fails_beyond beyond run_on e = rw e refl

module _ (libc : Libc) where
  run_threads-Ensures :
      (n max_loop : ℕ) (l : 1 ≤ n) (h : n ≤ 32) (sig2 : List ℕ) (size : length sig2 ≡ 33)
      (schedule : List ℕ)
      → Ensures
          (IsSignalSignature n max_loop l h sig2 size)
          (run_threads libc n max_loop schedule sig2)
  unfolding run_threads
  run_threads-Ensures n max_loop l h sig2 size schedule =
      let Q = IsSignalSignature n max_loop l h sig2 size in
      let asserted = Ensures->>= (λ u. Unit {0}) Q in
      asserted (assert (libc.malloc 0)) _ (assert-Ensures (libc.malloc 0)) λ u0 t0.
        asserted (assert (libc.malloc 1)) _ (assert-Ensures (libc.malloc 1)) λ u1 t1.
          asserted (assert_each libc.init 0 1) _ (assert_each-Ensures libc.init 0 1) λ u2 t2.
            asserted (assert_each libc.create 0 n) _ (assert_each-Ensures libc.create 0 n)
              λ u3 t3. joined-Ensures n max_loop l h sig2 size libc schedule

  signal_main-ne-crashed :
      (beyond : ℕ → Option ℕ) (v : ℕ) (argv : List String) (schedule : List ℕ)
      → beyond 0 ≡ some v
      → main libc beyond argv schedule ≢ crashed
  unfolding main
  signal_main-ne-crashed beyond v argv schedule readable =
      parse_args-ne-crashed libc.atoi argv _ λ c a.
        let (low, high, loops) = Accepts_bounds a in
        let (sig2, e, size) = filled beyond v readable in
        subst (λ o. (o >>= λ xs. run_threads libc c.num_procs c.max_loop schedule xs) ≢ crashed)
          (sym e)
          (Ensures-ne-crashed (IsSignalSignature c.num_procs c.max_loop low high sig2 size)
            (run_threads libc c.num_procs c.max_loop schedule sig2)
            (run_threads-Ensures c.num_procs c.max_loop low high sig2 size schedule))

  -- A crash has an accepted command line.
  crash-Accepts :
      (argv : List String) (run_on : Config → Outcome ℕ)
      → (parse_args libc.atoi argv >>= run_on) ≡ crashed
      → (c : Config) × Accepts libc.atoi argv c
  crash-Accepts argv run_on e = elim (parse_args-Parsed libc.atoi argv) [
    | usage h q ↦ cc
    | refused h q ↦ cc
    | accepted c a q ↦ (c, a)
  ]

  module _ (beyond : ℕ → Option ℕ) (argv : List String) (schedule : List ℕ) where
    crash_only :
        main libc beyond argv schedule ≡ crashed
        → (c : Config) × Accepts libc.atoi argv c × (beyond 0 ≡ none)
    unfolding main
    crash_only e = elim (Option-cases (beyond 0)) [
      | inl unreadable ↦ let (c, a) = crash-Accepts argv _ e in (c, a, unreadable)
      | inr (v, readable) ↦ absurd (signal_main-ne-crashed beyond v argv schedule readable e)
    ]

    crash_at :
        (c : Config) × Accepts libc.atoi argv c × (beyond 0 ≡ none)
        → main libc beyond argv schedule ≡ crashed
    unfolding main
    crash_at (c, a, unreadable) =
        parse_args->>= _ a
        ∙ fails_beyond beyond (run_threads libc c.num_procs c.max_loop schedule) unreadable

  -- racey-signal reads the word behind `sig` on every accepted command line, which is out of bounds.
  -- It crashes if that word cannot be read, and never else: whatever the results of the library
  -- calls and the schedule, it makes no other access out of bounds, sends no signal to a thread
  -- that is not there, and gets none without a handler.
  pub signal_main_crashes_iff :
      (beyond : ℕ → Option ℕ) (argv : List String) (schedule : List ℕ)
      → (main libc beyond argv schedule ≡ crashed)
        ↔ ((c : Config) × Accepts libc.atoi argv c × (beyond 0 ≡ none))
  signal_main_crashes_iff beyond argv schedule =
      (crash_only beyond argv schedule, crash_at beyond argv schedule)

  -- With calls that succeed, `main` computes a signature when all threads have ended.
  run_threads_can_return :
      CallsSucceed libc
      → (n max_loop : ℕ) → 1 ≤ n
      → n ≤ 32
      → (sig2 : List ℕ) → length sig2 ≡ 33
      → (schedule : List ℕ) × (v : ℕ) × (run_threads libc n max_loop schedule sig2 ≡ returned v)
  unfolding run_threads
  run_threads_can_return ok n max_loop l h sig2 size =
      let (is, c, r, done, e) = signal_can_join n max_loop l h sig2 size in
      (
        is,
        signature_of_both n max_loop l h sig2 size c.shared,
        rw
            (
              ok.allocates 0,
              ok.allocates 1,
              assert_each-eq-returned libc.init ok.initialises 0 1,
              assert_each-eq-returned libc.create ok.creates 0 n,
              e,
              assert_each-eq-returned libc.join ok.joins 0 n,
            )
            (signs_both n max_loop l h sig2 size c r),
      )

  -- If the word behind `sig` can be read, the library calls succeed and the command line is
  -- accepted, then under some schedule racey-signal prints a signature.
  pub signal_main_can_return :
      (beyond : ℕ → Option ℕ) (word : ℕ) (argv : List String) (c : Config)
      → beyond 0 ≡ some word
      → Accepts libc.atoi argv c
      → CallsSucceed libc
      → (schedule : List ℕ) × (v : ℕ) × (main libc beyond argv schedule ≡ returned v)
  unfolding main
  signal_main_can_return beyond word argv c readable a ok =
      let (low, high, loops) = Accepts_bounds a in
      let (sig2, e, size) = filled beyond word readable in
      let (is, v, q) = run_threads_can_return ok c.num_procs c.max_loop low high sig2 size in
      (
        is,
        v,
        parse_args->>= _ a
            ∙ ap (λ o. o >>= λ xs. run_threads libc c.num_procs c.max_loop is xs) e
            ∙ q,
      )
