-- ===== src/TcpClient/Main.antt =====
-- What `main` of racey-tcp-client.c comes to.
use mathlib.Core.Path.{subst}
use racey_suite.Prelude.{
  ℕ, zero, suc, ◌+◌, ◌≤◌, ◌<◌, ◌≡◌, refl, ℤ, pos, List, length, String, arith, ◌⊎◌, inl, inr,
  ℕ_discrete,
}
use racey_suite.Outcome.{returned, crashed}
use racey_suite.TcpClient.{worker_num, check_argc, create_workers, join_workers, main}

module _ (create : ℕ → ℤ) (errors : (k : ℕ) → (r : ℕ) × (create k ≡ pos r)) where
  never_negative : (i left : ℕ) → create_workers create i left ≡ returned tt
  unfolding create_workers
  never_negative i zero = refl
  never_negative i (suc left) = let (r, e) = errors i in rw (e, never_negative (i + 1) left) refl

  -- All of the threads from i on exist, and the loop joins them, or one of them does not exist.
  abbrev Joined : ℕ → ℕ → Type 0
  Joined i left =
      (((k : ℕ) → i ≤ k → k < i + left → create k ≡ pos 0)
        × (join_workers create i left ≡ returned tt))
      ⊎ ((k e : ℕ) × (k < i + left)
          × (create k ≡ pos (suc e))
          × (join_workers create i left ≡ crashed))

  first_of :
      (i left : ℕ)
      → create i ≡ pos 0
      → ((k : ℕ) → i + 1 ≤ k → k < i + 1 + left → create k ≡ pos 0)
      → (k : ℕ) → i ≤ k
      → k < i + suc left
      → create k ≡ pos 0
  first_of i left is ok k low high = elim (ℕ_discrete i k) [
    | yes same ↦ subst (λ n. create n ≡ pos 0) same is
    | no other ↦ ok k (omega arith) (omega arith)
  ]

  add_thread : (i left r : ℕ) → create i ≡ pos r → Joined (i + 1) left → Joined i (suc left)
  unfolding join_workers
  add_thread i left (suc e) is rest = inr (i, e, omega arith, is, rw is refl)
  add_thread i left zero is (inr (k, e, high, fails, crash)) =
      inr (k, e, omega arith, fails, rw is crash)
  add_thread i left zero is (inl (ok, done)) = inl (first_of i left is ok, rw is done)

  joined : (i left : ℕ) → Joined i left
  unfolding join_workers
  joined i zero = inl (λ k low high. absurd (omega arith), refl)
  joined i (suc left) = let (r, is) = errors i in add_thread i left r is (joined (i + 1) left)

check_argc_lem : (n : ℕ) → 3 ≤ n → n ≤ 4 → check_argc n ≡ returned tt
check_argc_lem n low high = ground arith

-- With two or three arguments, if `pthread_create` returns no negative number, `main` returns when
-- each of the threads was created; when some creation failed, that goes unnoticed and `main` joins a
-- thread that does not exist.
pub client_main_cases :
    (create : ℕ → ℤ) (argv : List String)
    → 3 ≤ length argv
    → length argv ≤ 4
    → ((k : ℕ) → (r : ℕ) × (create k ≡ pos r))
    → (((k : ℕ) → k < worker_num → create k ≡ pos 0) × (main create argv ≡ returned tt))
      ⊎ ((k e : ℕ) × (k < worker_num) × (create k ≡ pos (suc e)) × (main create argv ≡ crashed))
unfolding main
client_main_cases create argv low high errors =
    let args = check_argc_lem (length argv) low high in
    let made = never_negative create errors 0 worker_num in
    elim (joined create errors 0 worker_num) [
      | inl (ok, done) ↦ inl (λ k h. ok k (omega arith) h, rw (args, made) done)
      | inr (k, e, h, fails, crash) ↦ inr (k, e, h, fails, rw (args, made) crash)
    ]
