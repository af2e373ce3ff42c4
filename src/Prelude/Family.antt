-- ===== src/Prelude/Family.antt =====
-- One value for each thread, as a function on the thread ids 1, 2, ..., and sums over them.
use Prim.Native.Nat.{ℕ, zero, suc, ◌+◌, ◌*◌, ◌≤◌, ◌<◌}
use mathlib.Core.Path.{subst, ◌≡◌, refl}
use mathlib.Core.Logic.{ite, if_pos, if_neg, ◌≢◌}
use native.Mathlib.Decide.{ℕ_discrete, dec_le, dec_lt}
use native.Mathlib.Omega.{arith}

abbrev pub update {ℓ} : {A : Type ℓ} → (ℕ → A) → ℕ → A → ℕ → A
update vals i v j = ite (ℕ_discrete i j) v (vals j)

module _ {ℓ} {A : Type ℓ} (weight : A → ℕ) where
  -- The sum of the weights of threads 1 to n.
  pub total : ℕ → (ℕ → A) → ℕ
  total zero vals = 0
  total (suc n) vals = total n vals + weight (vals (suc n))

  total-update_of_lt :
      (n : ℕ) (vals : ℕ → A) (i : ℕ) (v : A) → n < i → total n (update vals i v) ≡ total n vals
  unfolding total
  total-update_of_lt zero vals i v h = refl
  total-update_of_lt (suc n) vals i v h = ground (arith, total-update_of_lt n vals i v)

  -- A change of one thread's value changes the sum by that thread's weight.
  pub total-update :
      (n : ℕ) (vals : ℕ → A) (i : ℕ) (v : A)
      → 1 ≤ i
      → i ≤ n
      → total n (update vals i v) + weight (vals i) ≡ total n vals + weight v
  unfolding total
  total-update zero vals i v l h = absurd (omega arith)
  total-update (suc n) vals i v l h = elim (dec_le i n) [
    | yes below ↦ ground (arith, total-update n vals i v l below)
    | no last ↦ ground (arith, total-update_of_lt n vals i v)
  ]

  pub total-le : ((v : A) → weight v ≤ 1) → (n : ℕ) (vals : ℕ → A) → total n vals ≤ n
  unfolding total
  total-le small zero vals = omega arith
  total-le small (suc n) vals = omega (arith, small (vals (suc n)), total-le small n vals)

  pub le-total : (n : ℕ) (vals : ℕ → A) (i : ℕ) → 1 ≤ i → i ≤ n → weight (vals i) ≤ total n vals
  unfolding total
  le-total zero vals i l h = absurd (omega arith)
  le-total (suc n) vals i l h = elim (dec_le i n) [
    | yes below ↦ omega (arith, le-total n vals i l below)
    | no last ↦ ground arith
  ]

  -- Two threads that weigh at least one each make the sum at least two.
  pub two-le-total :
      (n : ℕ) (vals : ℕ → A) (i j : ℕ)
      → 1 ≤ i
      → i < j
      → j ≤ n
      → 1 ≤ weight (vals i)
      → 1 ≤ weight (vals j)
      → 2 ≤ total n vals
  unfolding total
  two-le-total zero vals i j l lt h p q = absurd (omega arith)
  two-le-total (suc n) vals i j l lt h p q = elim (dec_le j n) [
    | yes below ↦ omega (arith, two-le-total n vals i j l lt below p q)
    | no last ↦ ground (arith, le-total n vals i l)
  ]

  -- If every weight is the same, the sum is a product.
  pub total_const :
      (n : ℕ) (vals : ℕ → A) (k : ℕ)
      → ((i : ℕ) → 1 ≤ i → i ≤ n → weight (vals i) ≡ k)
      → total n vals ≡ n * k
  unfolding total
  total_const zero vals k h = omega arith
  total_const (suc n) vals k h =
      omega (arith, h (suc n), total_const n vals k (λ i l le. h i l (omega arith)))

  -- A sum of weights at most one that falls short of the count misses some thread.
  pub total_missing :
      ((v : A) → weight v ≤ 1)
      → (n : ℕ) (vals : ℕ → A) → total n vals < n
      → (i : ℕ) × (1 ≤ i) × (i ≤ n) × (weight (vals i) ≡ 0)
  unfolding total
  total_missing small zero vals h = absurd (omega arith)
  total_missing small (suc n) vals h = elim (dec_lt (total n vals) n) [
    | yes lt ↦ let (i, l, le, e) = total_missing small n vals lt in (i, l, omega arith, e)
    | no ge ↦ (suc n, omega arith, omega arith, omega arith)
  ]

  -- A sum of weights at most one that reaches the count misses none.
  pub total_full :
      ((v : A) → weight v ≤ 1)
      → (n : ℕ) (vals : ℕ → A) → total n vals ≡ n
      → (i : ℕ) → 1 ≤ i
      → i ≤ n
      → weight (vals i) ≡ 1
  unfolding total
  total_full small zero vals h i l le = absurd (omega arith)
  total_full small (suc n) vals h i l le = elim (dec_le i n) [
    | yes below ↦
        total_full small n vals (omega (arith, total-le small n vals, small (vals (suc n)))) i l
          below
    | no last ↦ ground (arith, total-le small n vals, small (vals (suc n)))
  ]

  pub total-suc : (n : ℕ) (vals : ℕ → A) → total (suc n) vals ≡ total n vals + weight (vals (suc n))
  unfolding total
  total-suc n vals = refl

  -- A sum over pairs of neighbours that weigh the same.
  pub total-pairs :
      (vals : ℕ → A) (both k : ℕ)
      → ((t : ℕ) → t < k → weight (vals (suc (2 * t))) + weight (vals (suc (suc (2 * t)))) ≡ both)
      → total (2 * k) vals ≡ k * both
  unfolding total
  total-pairs vals both zero each = omega arith
  total-pairs vals both (suc k) each =
      let twice : 2 * suc k ≡ suc (suc (2 * k)) = omega arith in
      rw twice (
        omega
          (arith, each k (omega arith), total-pairs vals both k (λ t small. each t (omega arith))))

  -- A sum that is not 0 has a thread that weighs something.
  pub total_some :
      (n : ℕ) (vals : ℕ → A)
      → 1 ≤ total n vals
      → (i : ℕ) × (1 ≤ i) × (i ≤ n) × (1 ≤ weight (vals i))
  unfolding total
  total_some zero vals positive = absurd (omega arith)
  total_some (suc n) vals positive = elim (dec_le 1 (total n vals)) [
    | yes more ↦ let (i, low, high, heavy) = total_some n vals more in (i, low, omega arith, heavy)
    | no none_else ↦ (suc n, omega arith, omega arith, omega arith)
  ]

  -- A sum in which only one thread weighs anything.
  pub total_only :
      (n : ℕ) (vals : ℕ → A) (i : ℕ)
      → 1 ≤ i
      → i ≤ n
      → ((j : ℕ) → 1 ≤ j → j ≤ n → i ≢ j → weight (vals j) ≡ 0)
      → total n vals ≡ weight (vals i)
  unfolding total
  total_only zero vals i l h others = absurd (omega arith)
  total_only (suc n) vals i l h others = elim (dec_le i n) [
    | yes below ↦ omega (
      arith,
      total_only n vals i l below (λ j a b e. others j a (omega arith) e),
      others (suc n) (omega arith) (omega arith) (λ e. absurd (omega arith)),
    )
    | no last ↦
        let same : i ≡ suc n = omega arith in
        rw same (
          omega (
            arith,
            total_const n vals 0 (λ j a b. others j a (omega arith) (λ e. absurd (omega arith))),
          ))
  ]

-- A sum of sums.
pub total-add {ℓ} :
    {A : Type ℓ} (w a b : A → ℕ)
    → ((v : A) → w v ≡ a v + b v)
    → (n : ℕ) (vals : ℕ → A) → total w n vals ≡ total a n vals + total b n vals
unfolding total
total-add w a b each zero vals = refl
total-add w a b each (suc n) vals = omega (arith, each (vals (suc n)), total-add w a b each n vals)

-- What every value has, and the new one has, every value has after an update.
pub update-all {ℓ κ} :
    {A : Type ℓ} (P : A → Type κ) (vals : ℕ → A) (i : ℕ) (v : A)
    → P v
    → ((j : ℕ) → P (vals j))
    → (j : ℕ) → P (update vals i v j)
update-all P vals i v p h j = elim (ℕ_discrete i j) [
  | yes e ↦ rw (if_pos _ e) p
  | no e ↦ rw (if_neg _ e) (h j)
]

-- The same where only the other values need to have it.
pub update-others {ℓ κ} :
    {A : Type ℓ} (P : A → Type κ) (vals : ℕ → A) (i : ℕ) (v : A)
    → P v
    → ((j : ℕ) → i ≢ j → P (vals j))
    → (j : ℕ) → P (update vals i v j)
update-others P vals i v p h j = elim (ℕ_discrete i j) [
  | yes e ↦ rw (if_pos _ e) p
  | no e ↦ rw (if_neg _ e) (h j e)
]

-- The same where what a value has depends on the thread, and its range matters.
pub update-each {ℓ κ} :
    {A : Type ℓ} (P : ℕ → A → Type κ) (f : ℕ → A) (i : ℕ) (a : A)
    → P i a
    → (j : ℕ) → P j (f j)
    → P j (update f i a j)
update-each P f i a p j old = elim (ℕ_discrete i j) [
  | yes e ↦ rw (if_pos _ e) (subst (λ k. P k a) e p)
  | no e ↦ rw (if_neg _ e) old
]
