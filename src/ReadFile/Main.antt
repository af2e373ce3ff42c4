-- ===== src/ReadFile/Main.antt =====
-- What `main` of racey-readfile.c comes to.
use racey_suite.Prelude.{
  ℕ, ◌≤◌, ◌≡◌, ◌≢◌, refl, ℤ, pos, negsuc, List, [], ◌∷◌, String, length, get_or, arith, ◌∙◌, ltb,
  true, Bool-cases, inl, inr,
}
use racey_suite.Outcome.{
  returned, crashed, Ensures, Ensures->>=, Ensures-ne-crashed, Ensures-returned,
}
use racey_suite.Machine.{System, Reach, all_ended}
use racey_suite.Machine.Laws.{run_and_join_lem}
use racey_suite.Racey.{sig_init}
use racey_suite.Racey.Signature.{signature_of, signature-eq-signature_of}
use racey_suite.Launch.{Libc, check_procs, check_loops, run_main}
use racey_suite.Launch.Args.{in_range, out_of_range, check_procs-Checked, check_loops-Checked}
use racey_suite.Launch.Main.{signs, aborts, runs_on, run_main-Result, run_main_signs, CallsSucceed}
use racey_suite.ReadFile.{
  FileCalls, Shared, Pc, or_return_one, large_enough, parse_args, thread_body, is_ended, boot, main,
}
use racey_suite.ReadFile.Move.{IsRead}
use racey_suite.ReadFile.Invariant.{Reach-Inv, readfile-IsSafe}
use racey_suite.ReadFile.Progress.{EndsBy, readfile_can_join}

or_return_one-Ensures : (z : ℤ) → Ensures (λ u. Unit {0}) (or_return_one z)
or_return_one-Ensures (pos n) = tt
or_return_one-Ensures (negsuc n) = tt

large_enough-Ensures : (z : ℤ) → Ensures (λ u. Unit {0}) (large_enough z)
large_enough-Ensures (negsuc n) = tt
large_enough-Ensures (pos n) = elim (Bool-cases (ltb n 2048)) [ inl e ↦ rw e tt | inr e ↦ rw e tt ]

-- A number of threads that is accepted.
abbrev InRange : ℕ → Type 0
InRange n = (1 ≤ n) × (n ≤ 32)

check_procs-Ensures : (z : ℤ) → Ensures InRange (check_procs z)
check_procs-Ensures z = elim (check_procs-Checked z) [
  | in_range n e b q ↦ rw q b
  | out_of_range q ↦ rw q tt
]

check_loops-Ensures : (z : ℤ) → Ensures (λ k. Unit {0}) (check_loops z)
check_loops-Ensures z = elim (check_loops-Checked z) [
  | in_range n e b q ↦ rw q tt
  | out_of_range q ↦ rw q tt
]

parse_args-Ensures :
    (atoi : String → ℤ) (argv : List String) → Ensures InRange (parse_args atoi argv)
unfolding parse_args
parse_args-Ensures atoi [] = tt
parse_args-Ensures atoi (a ∷ []) = tt
parse_args-Ensures atoi (a ∷ b ∷ []) = tt
parse_args-Ensures atoi (a ∷ b ∷ c ∷ []) = tt
parse_args-Ensures atoi (name ∷ procs ∷ loops ∷ file ∷ rest) =
    Ensures->>= InRange InRange (check_procs (atoi procs)) _ (check_procs-Ensures (atoi procs))
      (λ n b.
        Ensures->>= (λ k. Unit {0}) InRange (check_loops (atoi loops)) _
          (check_loops-Ensures (atoi loops)) (λ k t. b))

module _ (libc : Libc) (io : FileCalls) (reads_ok : (k : ℕ) → IsRead (io.read k)) where
  sized : length sig_init ≡ 33
  unfolding sig_init
  sized = refl

  -- The signature over the `sig` of a reachable state in which all threads have ended.
  abbrev pub IsThreadsSignature : ℕ → Type 0
  IsThreadsSignature v =
      (n : ℕ) × InRange n
      × (c : System Shared Pc) × Reach (thread_body io.read n) n (boot sig_init) c
      × (all_ended is_ended n c.locals ≡ true)
      × (v ≡ signature_of n (λ k. get_or c.shared.sig k 0))

  run_main-Ensures :
      (n : ℕ) (schedule : List ℕ)
      → InRange n
      → Ensures IsThreadsSignature
          (run_main (thread_body io.read n) is_ended (λ s. s.sig) (boot sig_init) libc 1 n schedule)
  run_main-Ensures n schedule (low, high) =
      elim (run_main-Result (thread_body io.read n) is_ended (λ s. s.sig) (boot sig_init) libc 1 n
        (readfile-IsSafe io.read n sig_init reads_ok high sized)
        (λ c r. (Reach-Inv io.read n sig_init reads_ok high sized r).sized) low high schedule) [
          | signs c r over q ↦ rw q (n, (low, high), c, r, over, refl)
          | aborts q ↦ rw q tt
          | runs_on q ↦ rw q tt
        ]

  main-Ensures :
      (argv : List String) (schedule : List ℕ)
      → Ensures IsThreadsSignature (main libc io argv schedule)
  unfolding main
  main-Ensures argv schedule =
      Ensures->>= InRange IsThreadsSignature (parse_args libc.atoi argv) _
        (parse_args-Ensures libc.atoi argv)
        (λ n b.
          Ensures->>= (λ u. Unit {0}) IsThreadsSignature (or_return_one io.descriptor) _
            (or_return_one-Ensures io.descriptor)
            (λ u t.
              Ensures->>= (λ u. Unit {0}) IsThreadsSignature (or_return_one io.fstat) _
                (or_return_one-Ensures io.fstat)
                (λ u t.
                  Ensures->>= (λ u. Unit {0}) IsThreadsSignature (large_enough io.st_size) _
                    (large_enough-Ensures io.st_size) (λ u t. run_main-Ensures n schedule b))))

  -- If each call of `read` returns at most 256 and a buffer of 64 `int`, no command line, results
  -- of the other calls and schedule make racey-readfile access anything out of bounds.
  readfile_main-ne-crashed :
      (argv : List String) (schedule : List ℕ) → main libc io argv schedule ≢ crashed
  readfile_main-ne-crashed argv schedule =
      Ensures-ne-crashed IsThreadsSignature _ (main-Ensures argv schedule)

  -- If `read` returns at most 256 and a buffer of 64 `int` and finds the end of the file or fails
  -- from some call on, the command line gives n threads, the file opens and is large enough, and
  -- the library calls succeed, then there is a schedule under which racey-readfile ends and
  -- prints a signature.
  pub readfile_main_can_return :
      (argv : List String) (n last : ℕ)
      → EndsBy io.read last
      → parse_args libc.atoi argv ≡ returned n
      → or_return_one io.descriptor ≡ returned tt
      → or_return_one io.fstat ≡ returned tt
      → large_enough io.st_size ≡ returned tt
      → CallsSucceed libc
      → (schedule : List ℕ) × (v : ℕ) × (main libc io argv schedule ≡ returned v)
  unfolding main
  readfile_main_can_return argv n last ends parsed opens stats large ok =
      let (low, high) = Ensures-returned InRange _ (parse_args-Ensures libc.atoi argv) parsed in
      let (schedule, s, e) = readfile_can_join io.read n last sig_init reads_ok ends high sized in
      let (c, r, over, same) = run_and_join_lem (thread_body io.read n) is_ended n schedule _ e in
      let inv = Reach-Inv io.read n sig_init reads_ok high sized r in
      (
        schedule,
        signature_of n (λ k. get_or s.sig k 0),
        rw (parsed, opens, stats, large)
            (run_main_signs (thread_body io.read n) is_ended (λ s. s.sig) (boot sig_init) libc 1 n
                ok schedule s e
              ∙ signature-eq-signature_of n s.sig low (rw (← same) (omega (arith, inv.sized)))),
      )
