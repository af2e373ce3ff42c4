-- ===== src/Tests.antt =====
-- Concrete command lines, schedules and states, at which the theorems are applied.
mod Programs
mod Threads
mod Functions
mod Files
mod Pipes
mod Sockets
mod Signals
mod Epoll
mod Clients
mod Futexes
use racey_suite.Outcome.{Outcome, returned}
use racey_suite.Machine.{System}
use racey_suite.Prelude.{ℕ, zero, suc, ◌≤◌, ℤ, pos, true, List, [], ◌∷◌, String, refl, arith}
use racey_suite.Launch.{Libc, Config}
use racey_suite.Launch.Args.{Accepts, without_loops, with_loops}
use racey_suite.Launch.Main.{CallsSucceed}

-- Calls that succeed, and an `atoi` that reads `n` in every argument.
abbrev pub libc_with : ℕ → Libc
libc_with n = record {
  atoi = λ s. pos n;
  malloc = λ k. true;
  init = λ k. 0;
  create = λ i. 0;
  join = λ i. 0;
}

pub libc_with-CallsSucceed : (n : ℕ) → CallsSucceed (libc_with n)
libc_with-CallsSucceed n = record {
  allocates = λ k. refl;
  initialises = λ k. refl;
  creates = λ i. refl;
  joins = λ i. refl;
}

abbrev pub only_procs : List String
only_procs = "racey" ∷ "2" ∷ []

abbrev pub with_max : List String
with_max = "racey" ∷ "2" ∷ "2" ∷ []

abbrev pub two_procs : Config
two_procs = record { num_procs = 2; max_loop = 50000 }

abbrev pub two_loops : Config
two_loops = record { num_procs = 2; max_loop = 2 }

pub only_procs-Accepts : Accepts (libc_with 2).atoi only_procs two_procs
only_procs-Accepts = without_loops "racey" "2" 2 refl (omega arith) (omega arith)

pub with_max-Accepts : Accepts (libc_with 2).atoi with_max two_loops
with_max-Accepts =
    with_loops "racey" "2" "2" [] 2 2 refl (omega arith) (omega arith) refl (omega arith)

-- `k` turns of thread i, and then the others.
abbrev pub turns : ℕ → ℕ → List ℕ → List ℕ
turns zero i rest = rest
turns (suc k) i rest = i ∷ turns k i rest

pub few : 2 ≤ 32
few = omega arith

-- The state that a run returns.
abbrev pub reached : {S L : Type 0} → Outcome (System S L) → System S L → System S L
reached (returned c) other = c
reached _ other = other
