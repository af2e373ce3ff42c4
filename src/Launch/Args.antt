-- ===== src/Launch/Args.antt =====
-- Which command lines are accepted, and what the others lead to.
use mathlib.Core.Path.{subst}
use racey_suite.Prelude.{
  ℕ, ◌≤◌, ◌<◌, ◌≡◌, ◌≢◌, ◌↔◌, refl, ℤ, pos, negsuc, List, [], ◌∷◌, String, length, ltb, leb, ◌&&◌,
  arith, Bool-cases, inl, inr,
}
use racey_suite.Outcome.{Outcome, returned, exited, aborted, crashed, ◌>>=◌}
use racey_suite.Launch.{Config, check_procs, check_loops, parse_args}

-- The command lines that `main` accepts, with the configuration that each gives.
pub data Accepts (atoi : String → ℤ) : List String → Config → Type 0 where
  without_loops :
      (name procs : String) (n : ℕ)
      → atoi procs ≡ pos n
      → 1 ≤ n
      → n ≤ 32
      → Accepts atoi (name ∷ procs ∷ []) (record { num_procs = n; max_loop = 50000 })
  with_loops :
      (name procs loops : String) (rest : List String) (n k : ℕ)
      → atoi procs ≡ pos n
      → 1 ≤ n
      → n ≤ 32
      → atoi loops ≡ pos k
      → 1 ≤ k
      → Accepts atoi (name ∷ procs ∷ loops ∷ rest) (record { num_procs = n; max_loop = k })

check_procs-accepts : (z : ℤ) (n : ℕ) → z ≡ pos n → 1 ≤ n → n ≤ 32 → check_procs z ≡ returned n
unfolding check_procs
check_procs-accepts z n e l h = ground arith

check_loops-accepts : (z : ℤ) (n : ℕ) → z ≡ pos n → 1 ≤ n → check_loops z ≡ returned n
unfolding check_loops
check_loops-accepts z n e l = ground arith

-- What the checks come to: the number, or an abort of a number out of range.
pub data Checked (lo : ℕ → Type 0) (z : ℤ) (o : Outcome ℕ) : Type 0 where
  in_range : (n : ℕ) → z ≡ pos n → lo n → o ≡ returned n → Checked lo z o
  out_of_range : o ≡ aborted → Checked lo z o

pub check_procs-Checked : (z : ℤ) → Checked (λ n. (1 ≤ n) × (n ≤ 32)) z (check_procs z)
unfolding check_procs
check_procs-Checked (negsuc n) = out_of_range refl
check_procs-Checked (pos n) = elim (Bool-cases (ltb 0 n && leb n 32)) [
  | inl e ↦ rw e (in_range n refl (ground arith) refl)
  | inr e ↦ rw e (out_of_range refl)
]

pub check_loops-Checked : (z : ℤ) → Checked (λ n. 1 ≤ n) z (check_loops z)
unfolding check_loops
check_loops-Checked (negsuc n) = out_of_range refl
check_loops-Checked (pos n) = elim (Bool-cases (ltb 0 n)) [
  | inl e ↦ rw e (in_range n refl (ground arith) refl)
  | inr e ↦ rw e (out_of_range refl)
]

-- What a command line comes to.
pub data Parsed (atoi : String → ℤ) (argv : List String) (o : Outcome Config) : Type 0 where
  usage : length argv < 2 → o ≡ exited 1 → Parsed atoi argv o
  refused : 2 ≤ length argv → o ≡ aborted → Parsed atoi argv o
  accepted : (c : Config) → Accepts atoi argv c → o ≡ returned c → Parsed atoi argv o

-- Every command line has fewer than two words and prints the usage, has at least two and aborts,
-- or is accepted.
pub parse_args-Parsed :
    (atoi : String → ℤ) (argv : List String) → Parsed atoi argv (parse_args atoi argv)
unfolding parse_args
parse_args-Parsed atoi [] = usage (omega arith) refl
parse_args-Parsed atoi (name ∷ []) = usage (omega arith) refl
parse_args-Parsed atoi (name ∷ procs ∷ []) = elim (check_procs-Checked (atoi procs)) [
  | in_range n e b q ↦ accepted _ (without_loops name procs n e b.0 b.1) (rw q refl)
  | out_of_range q ↦ refused (omega arith) (rw q refl)
]
parse_args-Parsed atoi (name ∷ procs ∷ loops ∷ rest) = elim (check_procs-Checked (atoi procs)) [
  | in_range n e b q ↦ elim (check_loops-Checked (atoi loops)) [
    | in_range k e' b' q' ↦
        accepted _ (with_loops name procs loops rest n k e b.0 b.1 e' b') (rw (q, q') refl)
    | out_of_range q' ↦ refused (omega arith) (rw (q, q') refl)
  ]
  | out_of_range q ↦ refused (omega arith) (rw q refl)
]

Accepts-parse_args :
    (atoi : String → ℤ) (argv : List String) (c : Config)
    → Accepts atoi argv c
    → parse_args atoi argv ≡ returned c
unfolding parse_args
Accepts-parse_args atoi argv c (without_loops name procs n e l h) =
    rw (check_procs-accepts (atoi procs) n e l h) refl
Accepts-parse_args atoi argv c (with_loops name procs loops rest n k e l h e' l') =
    rw (check_procs-accepts (atoi procs) n e l h, check_loops-accepts (atoi loops) k e' l') refl

parse_args-Accepts :
    (atoi : String → ℤ) (argv : List String) (c : Config)
    → parse_args atoi argv ≡ returned c
    → Accepts atoi argv c
parse_args-Accepts atoi argv c e = elim (parse_args-Parsed atoi argv) [
  | usage h q ↦ cc
  | refused h q ↦ cc
  | accepted d a q ↦ let same : d ≡ c = cc in subst (Accepts atoi argv) same a
]

-- `main` goes on with a configuration exactly when NumProcs is from 1 to 32 and MaxLoop, if it is
-- given, is positive.
pub parse_args_iff :
    (atoi : String → ℤ) (argv : List String) (c : Config)
    → (parse_args atoi argv ≡ returned c) ↔ Accepts atoi argv c
parse_args_iff atoi argv c = (parse_args-Accepts atoi argv c, Accepts-parse_args atoi argv c)

-- The ranges of an accepted configuration.
pub Accepts_bounds :
    {atoi : String → ℤ} {argv : List String} {c : Config}
    → Accepts atoi argv c
    → (1 ≤ c.num_procs) × (c.num_procs ≤ 32) × (1 ≤ c.max_loop)
Accepts_bounds (without_loops name procs n e l h) = omega arith
Accepts_bounds (with_loops name procs loops rest n k e l h e' l') = omega arith

-- `main` crashes only behind an accepted command line.
pub parse_args-ne-crashed {ℓ} :
    {A : Type ℓ} (atoi : String → ℤ) (argv : List String) (run_on : Config → Outcome A)
    → ((c : Config) → Accepts atoi argv c → run_on c ≢ crashed)
    → (parse_args atoi argv >>= run_on) ≢ crashed
parse_args-ne-crashed atoi argv run_on safe = elim (parse_args-Parsed atoi argv) [
  | usage h q ↦ rw q (λ e. cc)
  | refused h q ↦ rw q (λ e. cc)
  | accepted c a q ↦ rw q (safe c a)
]

-- Behind an accepted command line `main` does the rest.
pub parse_args->>= :
    {atoi : String → ℤ} {argv : List String} {c : Config} (run_on : Config → Outcome ℕ)
    → Accepts atoi argv c
    → (parse_args atoi argv >>= run_on) ≡ run_on c
parse_args->>= {atoi} {argv} {c} run_on a = rw (Accepts-parse_args atoi argv c a) refl
