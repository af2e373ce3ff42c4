-- ===== src/Futex/Groups.antt =====
-- The groups of racey-futex.c in which the threads find themselves.
use racey_suite.Prelude.{
  ℕ, ◌+◌, ◌-◌, ◌*◌, ◌/◌, ◌%◌, ◌≤◌, ◌<◌, ◌≡◌, ◌≢◌, ◌↔◌, refl, Bool, true, false, ◌||◌, leb, ltb,
  ◌==◌, arith, if◌then◌else◌, tested_below, tested_below_lem, ap,
}
use racey_suite.Outcome.{Outcome, returned, aborted, ◌>>=◌}
use racey_suite.Futex.{groups, find_group}

-- The start of `ThreadBody` in thread `t`: its group, or a failed assertion.
abbrev pub group_of : ℕ → ℕ → Outcome ℕ
group_of num_procs t = groups num_procs >>= find_group t 0

-- All threads in the first group for up to three of them; else the threads in order, NumProcs/4
-- to a group, and no group for those that are left over.
abbrev pub expected_group : ℕ → ℕ → Outcome ℕ
expected_group num_procs t =
    if ltb num_procs 4
    then returned 0
    else if leb t (num_procs / 4 * 4)
    then returned ((t - 1) / (num_procs / 4))
    else aborted

outcome_eq : Outcome ℕ → Outcome ℕ → Bool
outcome_eq (returned a) (returned b) = a == b
outcome_eq aborted aborted = true
outcome_eq _ _ = false

outcome_eq_sound : (o p : Outcome ℕ) → outcome_eq o p ≡ true → o ≡ p
unfolding outcome_eq
outcome_eq_sound (returned a) (returned b) e = let same : a ≡ b = ground arith in ap returned same
outcome_eq_sound aborted aborted e = refl
outcome_eq_sound _ _ e = cc

-- The statement for `t + 1` among `n + 1` threads.
group_matches : ℕ → ℕ → Bool
group_matches n t =
    ltb n t || outcome_eq (group_of (n + 1) (t + 1)) (expected_group (n + 1) (t + 1))

group_table : tested_below (λ n. tested_below (λ t. group_matches n t) 32) 32 ≡ true
unfolding groups find_group tested_below group_matches outcome_eq
group_table = refl

group_matches_sound :
    (n t : ℕ)
    → t ≤ n
    → group_matches n t ≡ true
    → group_of (n + 1) (t + 1) ≡ expected_group (n + 1) (t + 1)
unfolding group_matches
group_matches_sound n t h e = outcome_eq_sound _ _ (ground arith)

-- For every NumProcs from 1 to 32 and every thread id from 1 to NumProcs, `ThreadBody` finds the
-- group that `expected_group` names, or fails its assertion where that names none: for the
-- threads that are left over when NumProcs is above 4 and no multiple of 4.
pub group_of-eq-expected_group :
    (n t : ℕ) → 1 ≤ n → n ≤ 32 → 1 ≤ t → t ≤ n → group_of n t ≡ expected_group n t
group_of-eq-expected_group n t ln hn lt ht =
    let n_up : n - 1 + 1 ≡ n = omega arith in
    let t_up : t - 1 + 1 ≡ t = omega arith in
    rw (n_up, t_up) at
      (group_matches_sound (n - 1) (t - 1) (omega arith) (
        tested_below_lem (λ b. group_matches (n - 1) b) 32 (t - 1) (omega arith)
          (tested_below_lem (λ a. tested_below (λ b. group_matches a b) 32) 32 (n - 1) (omega arith)
            group_table)))

abort_iff : (n : ℕ) → 1 ≤ n → (expected_group n n ≡ aborted) ↔ ((4 < n) × (n % 4 ≢ 0))
abort_iff n l = ground arith

-- For NumProcs from 1 to 32, the last thread of racey-futex fails its assertion exactly when
-- NumProcs is above 4 and no multiple of 4.
last_group_iff : (n : ℕ) → 1 ≤ n → n ≤ 32 → (group_of n n ≡ aborted) ↔ ((4 < n) × (n % 4 ≢ 0))
last_group_iff n l h = rw (group_of-eq-expected_group n n l h l (omega arith)) (abort_iff n l)
