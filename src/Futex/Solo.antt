-- ===== src/Futex/Solo.antt =====
-- racey-futex.c with one or four threads, each of which is alone in its group: `main` can come to its
-- end.
use mathlib.Core.Path.{subst}
use racey_suite.Futex.Init.{IsFresh}
use racey_suite.Prelude.{
  All, ℕ, zero, suc, ◌-◌, ◌≤◌, ◌≡◌, ◌⊎◌, inl, inr, refl, Bool, false, List, [], String, get_or,
  arith, ◌∙◌, Bool-cases,
}
use racey_suite.Outcome.{Outcome, returned}
use racey_suite.Launch.{Libc, Config}
use racey_suite.Launch.Args.{Accepts, Accepts_bounds}
use racey_suite.Launch.Main.{CallsSucceed, run_main_signs}
use racey_suite.Racey.Signature.{signature_of, signature-eq-signature_of}
use racey_suite.Futex.{FutexGroup, groups, is_live}
use racey_suite.Futex.Pick.{IsGroup}
use racey_suite.Futex.Homes.{find_homes, home_of, initial_groups, homes-IsStart}
use racey_suite.Futex.Main.{main, run_threads, main_runs}
use racey_suite.Futex.Body.{futex_step, is_ended, boot}
use racey_suite.Futex.Body.Invariant.{no_group}
use racey_suite.Futex.Body.Alone.{MyOwner}
use racey_suite.Futex.Body.Forward.{IsSingle}
use racey_suite.Machine.Laws.{run_and_join_lem}
use racey_suite.Futex.Body.Safety.{Reach-Inv}
use racey_suite.Futex.Body.Solo.{IsSolo, futex_solo_can_join}

not_live-eq-zero : (x : ℕ) → is_live x ≡ false → x ≡ 0
not_live-eq-zero zero e = refl
not_live-eq-zero (suc x) e = cc

-- A group whose range is one thread.
range-IsSingle : (t : ℕ) (g : FutexGroup) → IsGroup g → g.begin ≡ t → g.stop ≡ suc t → IsSingle t g
range-IsSingle t g ok b e = record {
  begins = b;
  ends = e;
  sized = ok.sized;
  others = λ j other. elim (Bool-cases (is_live (get_or g.threads j 0))) [
    | inl live ↦ absurd (other (omega (arith, ok.in_range j live)))
    | inr gone ↦ not_live-eq-zero (get_or g.threads j 0) gone
  ];
}

-- What `main` sets up, as lists.
abbrev pub given : {A : Type 0} → Outcome (List A) → List A
given (returned xs) = xs
given _ = []

abbrev pub groups_of : ℕ → List FutexGroup
groups_of n = given (groups n)

abbrev pub homes_for : ℕ → List ℕ
homes_for n = given (find_homes (groups_of n) 1 n)

-- The set-up of the groups and the searches for `n` threads, each of which is alone.
pub record SetUp (n : ℕ) : Type 0 where
  pub set_up : groups n ≡ returned (groups_of n)
  pub found : find_homes (groups_of n) 1 n ≡ returned (homes_for n)
  pub solo : IsSolo (home_of (homes_for n)) n (groups_of n)

record LoneHome (n t : ℕ) : Type 0 where
  home : home_of (homes_for n) t ≡ t - 1
  begins : (get_or (groups_of n) (t - 1) no_group).begin ≡ t
  ends : (get_or (groups_of n) (t - 1) no_group).stop ≡ suc t
  mine : MyOwner t (get_or (groups_of n) (t - 1) no_group).owner

each-SetUp :
    (n : ℕ)
    → 1 ≤ n
    → n ≤ 32
    → groups n ≡ returned (groups_of n)
    → find_homes (groups_of n) 1 n ≡ returned (homes_for n)
    → ((t : ℕ) → 1 ≤ t → t ≤ n → LoneHome n t)
    → SetUp n
each-SetUp n low few set_up found each =
    let (gs, set_up', fresh) = initial_groups n low few in
    let same : gs ≡ groups_of n = cc in
    let start =
      homes-IsStart n (groups_of n) (homes_for n) few set_up (subst (All IsFresh) same fresh)
        found in
    record {
      set_up = set_up;
      found = found;
      solo = record {
        start = start;
        apart = λ t u a b c d e. omega (arith, e, (each t a b).home, (each u c d).home);
        single = λ t a b.
            let at = each t a b in
            range-IsSingle t _ (start.formed _ (start.homes t a b)) (rw at.home at.begins)
              (rw at.home at.ends);
        mine = λ t a b. let at = each t a b in rw at.home at.mine;
      };
    }

each_of_one : (t : ℕ) → 1 ≤ t → t ≤ 1 → LoneHome 1 t
unfolding groups find_homes
each_of_one zero l h = absurd (omega arith)
each_of_one (suc zero) l h = record { home = refl; begins = refl; ends = refl; mine = inr refl }
each_of_one (suc (suc t)) l h = absurd (omega arith)

each_of_four : (t : ℕ) → 1 ≤ t → t ≤ 4 → LoneHome 4 t
unfolding groups find_homes
each_of_four zero l h = absurd (omega arith)
each_of_four (suc zero) l h = record { home = refl; begins = refl; ends = refl; mine = inr refl }
each_of_four (suc (suc zero)) l h = record {
  home = refl;
  begins = refl;
  ends = refl;
  mine = inr refl;
}
each_of_four (suc (suc (suc zero))) l h = record {
  home = refl;
  begins = refl;
  ends = refl;
  mine = inr refl;
}
each_of_four (suc (suc (suc (suc zero)))) l h = record {
  home = refl;
  begins = refl;
  ends = refl;
  mine = inr refl;
}
each_of_four (suc (suc (suc (suc (suc t))))) l h = absurd (omega arith)

pub SetUp-one : SetUp 1
unfolding groups find_homes
SetUp-one = each-SetUp 1 (omega arith) (omega arith) refl refl each_of_one

pub SetUp-four : SetUp 4
unfolding groups find_homes
SetUp-four = each-SetUp 4 (omega arith) (omega arith) refl refl each_of_four

pub SetUp-solo : (n : ℕ) → (n ≡ 1) ⊎ (n ≡ 4) → SetUp n
SetUp-solo n (inl e) = rw e SetUp-one
SetUp-solo n (inr e) = rw e SetUp-four

module _ (libc : Libc) (spurious : Bool) where
  -- With one or four threads, an accepted command line and library calls that succeed, there is a
  -- schedule under which racey-futex ends and prints a signature.
  pub futex_main_can_return :
      (argv : List String) (c : Config)
      → Accepts libc.atoi argv c
      → CallsSucceed libc
      → (c.num_procs ≡ 1) ⊎ (c.num_procs ≡ 4)
      → (schedule : List ℕ) × (v : ℕ) × (main libc spurious argv schedule ≡ returned v)
  unfolding run_threads
  futex_main_can_return argv c accepted ok alone =
      let (low, high, loops) = Accepts_bounds accepted in
      let u = SetUp-solo c.num_procs alone in
      let (schedule, s, e) =
        futex_solo_can_join (home_of (homes_for c.num_procs)) c.num_procs c.max_loop spurious
          (groups_of c.num_procs) high loops u.solo in
      let prog = futex_step (home_of (homes_for c.num_procs)) c.num_procs c.max_loop spurious in
      let (d, r, done, same) =
        run_and_join_lem prog is_ended c.num_procs schedule (boot (groups_of c.num_procs)) e in
      let inv =
        Reach-Inv (home_of (homes_for c.num_procs)) c.num_procs c.max_loop spurious
          (groups_of c.num_procs) high loops u.solo.start r in
      (
        schedule,
        signature_of c.num_procs (λ k. get_or s.mem.sig k 0),
        main_runs libc spurious argv c (groups_of c.num_procs) (homes_for c.num_procs) accepted
              u.set_up u.found schedule
            ∙ run_main_signs prog is_ended (λ s. s.mem.sig) (boot (groups_of c.num_procs)) libc 1
                c.num_procs ok schedule s e
            ∙ signature-eq-signature_of c.num_procs s.mem.sig low
                (rw (← same) (omega (arith, inv.sizes.sigs))),
      )
