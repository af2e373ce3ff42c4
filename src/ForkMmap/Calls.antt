-- ===== src/ForkMmap/Calls.antt =====
-- The loops of `main` of racey-forkmmap.c that fork and wait, and their accesses to `pids`.
use racey_suite.Prelude.{
  ℕ, zero, suc, ◌+◌, ◌≤◌, ◌≡◌, refl, inl, inr, ℤ, pos, negsuc, Bool, true, false, List, [], ◌∷◌,
  ◌++◌, length, length-append, length-replicate, replicate, get_or, get_elem?-eq-get_or, arith, ap,
  Bool-cases,
}
use racey_suite.Outcome.{Outcome, returned, exited, ◌>>=◌, Ensures, Ensures->>=}
use racey_suite.ForkMmap.{
  ProcessCalls, fork_all, find_pid, wait_all, int_eq, non_null, or_return_one,
}

non_null-Ensures : (b : Bool) → b ≡ true → Ensures (λ u. Unit {0}) (non_null b)
non_null-Ensures true e = tt
non_null-Ensures false e = cc

pub or_return_one-Ensures : (b : Bool) → Ensures (λ u. Unit {0}) (or_return_one b)
or_return_one-Ensures true = tt
or_return_one-Ensures false = tt

module _ (io : ProcessCalls) (allocated : io.calloc_succeeds ≡ true) where
  -- One `fork`, given what the processes behind it come to.
  forked :
      (left : ℕ) (others : Outcome (List ℤ)) (z : ℤ)
      → Ensures (λ pids. length pids ≡ left) others
      → Ensures
          (λ pids. length pids ≡ suc left)
          (elim z [
            | negsuc e ↦ exited 1
            | pos pid ↦
                non_null io.calloc_succeeds >>= λ u. others >>= λ pids. returned (pos pid ∷ pids)
          ])
  forked left others (negsuc e) h = tt
  forked left others (pos pid) h = rw allocated (
      Ensures->>= (λ pids. length pids ≡ left) (λ pids. length pids ≡ suc left) others _ h
        (λ pids e. ap suc e))

  -- As many process ids as processes.
  pub fork_all-Ensures : (i left : ℕ) → Ensures (λ pids. length pids ≡ left) (fork_all io i left)
  unfolding fork_all
  fork_all-Ensures i zero = refl
  fork_all-Ensures i (suc left) =
      forked left (fork_all io (i + 1) left) (io.fork i) (fork_all-Ensures (i + 1) left)

  -- If every fork succeeds, the loop comes to its end.
  pub fork_all_returns :
      (i left : ℕ)
      → ((k : ℕ) → (pid : ℕ) × (io.fork k ≡ pos pid))
      → (pids : List ℤ) × (fork_all io i left ≡ returned pids) × (length pids ≡ left)
  unfolding fork_all
  fork_all_returns i zero forks = ([], refl, refl)
  fork_all_returns i (suc left) forks =
      let (pid, e) = forks i in
      let (pids, q, size) = fork_all_returns (i + 1) left forks in
      (pos pid ∷ pids, rw (fork_all, e, allocated, q) refl, ap suc size)

-- The search reads no process id out of bounds.
find_pid_lem :
    (pids : List ℤ) (ret : ℤ) (k left : ℕ)
    → k + left ≤ length pids
    → find_pid pids ret k left ≡ returned tt
unfolding find_pid
find_pid_lem pids ret k zero h = refl
find_pid_lem pids ret k (suc left) h =
    rw (get_elem?-eq-get_or pids k (pos 0) (omega arith))
      (elim (Bool-cases (int_eq (get_or pids k (pos 0)) ret)) [
        | inl found ↦ rw found refl
        | inr other ↦ rw other (find_pid_lem pids ret (k + 1) left (omega arith))
      ])

-- Nor does the loop of `wait` calls.
pub wait_all_lem :
    (io : ProcessCalls) (pids : List ℤ) (count i left : ℕ)
    → count ≤ length pids
    → wait_all io pids count i left ≡ returned tt
unfolding wait_all
wait_all_lem io pids count i zero h = refl
wait_all_lem io pids count i (suc left) h =
    rw (find_pid_lem pids (io.wait i) 0 count (omega arith))
      (wait_all_lem io pids count (i + 1) left h)

-- `pids` has room for one more value than processes.
pub padded :
    (n : ℕ) (pids : List ℤ) → 1 ≤ n → length pids ≡ n → n + 1 ≤ length (pids ++ replicate n (pos 0))
padded n pids l e =
    omega (arith, length-append {0} pids (replicate n (pos 0)), length-replicate {0} n (pos 0), e)
