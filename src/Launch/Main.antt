-- ===== src/Launch/Main.antt =====
-- `main` over threads that make no access out of bounds, and what it may come to.
use racey_suite.Prelude.{
  ℕ, zero, suc, ◌+◌, ◌≤◌, ◌≡◌, refl, Bool, true, false, List, length, get_or, arith, ◌==◌,
  Bool-cases, inl, inr,
}
use racey_suite.Outcome.{
  Outcome, returned, aborted, unfinished, ◌>>=◌, ◌>>◌, assert, >>=-eq-returned, Ensures,
  Ensures->>=,
}
use racey_suite.Machine.{Program, System, Reach, start, run_and_join, all_ended}
use racey_suite.Machine.Laws.{IsSafe, run_total}
use racey_suite.Racey.{signature}
use racey_suite.Racey.Signature.{signature_of, signature-eq-signature_of}
use racey_suite.Racey.Loop.{IsMemory, init-IsMemory}
use racey_suite.Launch.{Libc, init_memory, assert_each, run_main}

-- The initial arrays are well-formed, and sig[0] is 0.
pub init_memory-IsMemory : IsMemory init_memory
unfolding init_memory
init_memory-IsMemory = init-IsMemory

pub init_memory_zero : get_or init_memory.sig 0 0 ≡ 0
unfolding init_memory
init_memory_zero = refl

-- The library calls that `main` checks all succeed.
pub record CallsSucceed (libc : Libc) : Type 0 where
  pub allocates : (k : ℕ) → libc.malloc k ≡ true
  pub initialises : (k : ℕ) → libc.init k ≡ 0
  pub creates : (i : ℕ) → libc.create i ≡ 0
  pub joins : (i : ℕ) → libc.join i ≡ 0

-- Calls that succeed pass their assertions.
pub assert_each-eq-returned :
    (f : ℕ → ℕ) → ((i : ℕ) → f i ≡ 0) → (i left : ℕ) → assert_each f i left ≡ returned tt
unfolding assert_each
assert_each-eq-returned f ok i zero = refl
assert_each-eq-returned f ok i (suc left) = rw (ok i) (assert_each-eq-returned f ok (i + 1) left)

-- An assertion does not crash.
pub assert-Ensures : (b : Bool) → Ensures (λ u. Unit {0}) (assert b)
assert-Ensures true = tt
assert-Ensures false = tt

pub assert_each-Ensures : (f : ℕ → ℕ) (i left : ℕ) → Ensures (λ u. Unit {0}) (assert_each f i left)
unfolding assert_each
assert_each-Ensures f i zero = tt
assert_each-Ensures f i (suc left) =
    Ensures->>= (λ u. Unit {0}) (λ u. Unit {0}) (assert (f i == 0)) _ (assert-Ensures (f i == 0))
      (λ u t. assert_each-Ensures f (i + 1) left)

-- An assertion lets the program go on or aborts it.
data Checks (o : Outcome (Unit {0})) : Type 0 where
  passes : o ≡ returned tt → Checks o
  fails : o ≡ aborted → Checks o

assert-Checks : (b : Bool) → Checks (assert b)
assert-Checks true = passes refl
assert-Checks false = fails refl

assert_each-Checks : (f : ℕ → ℕ) (i left : ℕ) → Checks (assert_each f i left)
unfolding assert_each
assert_each-Checks f i zero = passes refl
assert_each-Checks f i (suc left) = elim (assert-Checks (f i == 0)) [
  | passes e ↦ rw e (assert_each-Checks f (i + 1) left)
  | fails e ↦ rw e (fails refl)
]

module _ {S L : Type 0} (prog : Program S L) (ended : L → Bool) (sigs : S → List ℕ)
    (init : System S L) (libc : Libc) (inits n : ℕ) where
  -- What `main` comes to: the signature of a final state, an abort, or no end yet.
  pub data Result (o : Outcome ℕ) : Type 0 where
    signs :
        (c : System S L)
        → Reach prog n init c
        → all_ended ended n c.locals ≡ true
        → o ≡ returned (signature_of n (λ k. get_or (sigs c.shared) k 0))
        → Result o
    aborts : o ≡ aborted → Result o
    runs_on : o ≡ unfinished → Result o

  -- With calls that succeed and a schedule under which all threads end, `main` signs.
  pub run_main_signs :
      CallsSucceed libc
      → (schedule : List ℕ) (s : S) → run_and_join prog ended n schedule init ≡ returned s
      → run_main prog ended sigs init libc inits n schedule ≡ signature n (sigs s)
  unfolding run_main
  run_main_signs ok schedule s e =
      rw
        (
          ok.allocates 0,
          ok.allocates 1,
          assert_each-eq-returned libc.init ok.initialises 0 inits,
          assert_each-eq-returned libc.create ok.creates 0 n,
          e,
          assert_each-eq-returned libc.join ok.joins 0 n,
        )
        refl

  -- A signature comes from a schedule under which all threads end.
  pub run_main_joins :
      (schedule : List ℕ) {v : ℕ}
      → run_main prog ended sigs init libc inits n schedule ≡ returned v
      → (s : S) × (run_and_join prog ended n schedule init ≡ returned s)
  unfolding run_main
  run_main_joins schedule e =
      let (u1, p1, e1) = >>=-eq-returned (assert (libc.malloc 0)) _ e in
      let (u2, p2, e2) = >>=-eq-returned (assert (libc.malloc 1)) _ e1 in
      let (u3, p3, e3) = >>=-eq-returned (assert_each libc.init 0 inits) _ e2 in
      let (u4, p4, e4) = >>=-eq-returned (assert_each libc.create 0 n) _ e3 in
      let (s, p5, e5) = >>=-eq-returned (run_and_join prog ended n schedule init) _ e4 in (s, p5)

  module _ (safe : (c : System S L) → Reach prog n init c → IsSafe prog n c)
      (sized : (c : System S L) → Reach prog n init c → length (sigs c.shared) ≡ 33)
      (some_thread : 1 ≤ n) (few : n ≤ 32) where
    signature-Result :
        (c : System S L)
        → Reach prog n init c
        → all_ended ended n c.locals ≡ true
        → Result (signature n (sigs c.shared))
    signature-Result c r done =
        signs c r done
          (signature-eq-signature_of n (sigs c.shared) some_thread (omega (arith, sized c r)))

    join-Result :
        (c : System S L)
        → Reach prog n init c
        → all_ended ended n c.locals ≡ true
        → Result (assert_each libc.join 0 n >> signature n (sigs c.shared))
    join-Result c r done = elim (assert_each-Checks libc.join 0 n) [
      | passes e ↦ rw e (signature-Result c r done)
      | fails e ↦ rw e (aborts refl)
    ]

    run-Result :
        (schedule : List ℕ)
        → Result (
            run_and_join prog ended n schedule init >>= λ last.
            assert_each libc.join 0 n >> signature n (sigs last))
    unfolding run_and_join
    run-Result schedule =
        let (c, e, r) = run_total prog n safe schedule init start in
        elim (Bool-cases (all_ended ended n c.locals)) [
          | inl done ↦ rw (e, done) (join-Result c r done)
          | inr live ↦ rw (e, live) (runs_on refl)
        ]

    pub run_main-Result :
        (schedule : List ℕ) → Result (run_main prog ended sigs init libc inits n schedule)
    unfolding run_main
    run_main-Result schedule = elim (assert-Checks (libc.malloc 0)) [
      | fails e ↦ rw e (aborts refl)
      | passes e ↦ rw e (elim (assert-Checks (libc.malloc 1)) [
        | fails f ↦ rw f (aborts refl)
        | passes f ↦ rw f (elim (assert_each-Checks libc.init 0 inits) [
          | fails g ↦ rw g (aborts refl)
          | passes g ↦ rw g (elim (assert_each-Checks libc.create 0 n) [
            | fails h ↦ rw h (aborts refl)
            | passes h ↦ rw h (run-Result schedule)
          ])
        ])
      ])
    ]
