-- ===== src/Racey/Signature.antt =====
-- The signature that `main` computes, against a fold over the values of `sig`.
use racey_suite.Prelude.{
  ℕ, zero, suc, ◌+◌, ◌-◌, ◌≤◌, ◌<◌, ◌≡◌, refl, List, length, get_or, set, get_elem?-eq-get_or,
  length-set, get_or-set_ne, arith, sym, ap, ◌∙◌,
}
use racey_suite.Outcome.{returned}
use racey_suite.Racey.{prime1, mix, mix_sigs, signature}
use racey_suite.Racey.Mix.{mix-lt}

-- The signature as a fold over the values, with no array in sight.
abbrev pub fold_sigs : ℕ → ℕ → ℕ → (ℕ → ℕ) → ℕ
fold_sigs zero i acc value = acc
fold_sigs (suc left) i acc value = fold_sigs left (i + 1) (mix (value i) acc) value

pub mix_sigs-eq-fold_sigs :
    (left i acc : ℕ) (sig : List ℕ)
    → i + left ≤ length sig
    → mix_sigs left i acc sig ≡ returned (fold_sigs left i acc (λ k. get_or sig k 0))
unfolding mix_sigs
mix_sigs-eq-fold_sigs zero i acc sig h = refl
mix_sigs-eq-fold_sigs (suc left) i acc sig h =
    rw (get_elem?-eq-get_or sig i 0 (omega arith))
      (mix_sigs-eq-fold_sigs left (i + 1) (mix (get_or sig i 0) acc) sig (omega arith))

abbrev pub signature_of : ℕ → (ℕ → ℕ) → ℕ
signature_of n value = fold_sigs (n - 1) 1 (value 0) value

-- For NumProcs from 1 up to the length of `sig`, the loop reads no `sig` out of bounds, and folds
-- `mix` over sig[1] to sig[NumProcs - 1] from sig[0].
pub signature-eq-signature_of :
    (n : ℕ) (sig : List ℕ)
    → 1 ≤ n
    → n ≤ length sig
    → signature n sig ≡ returned (signature_of n (λ k. get_or sig k 0))
unfolding signature
signature-eq-signature_of n sig l h =
    rw (get_elem?-eq-get_or sig 0 0 (omega arith))
      (mix_sigs-eq-fold_sigs (n - 1) 1 (get_or sig 0 0) sig (omega arith))

fold_sigs-ext :
    (left i acc : ℕ) (f g : ℕ → ℕ)
    → ((k : ℕ) → i ≤ k → k < i + left → f k ≡ g k)
    → fold_sigs left i acc f ≡ fold_sigs left i acc g
fold_sigs-ext zero i acc f g h = refl
fold_sigs-ext (suc left) i acc f g h =
    rw (h i (omega arith) (omega arith))
      (fold_sigs-ext left (i + 1) (mix (g i) acc) f g (λ k l lt. h k (omega arith) (omega arith)))

-- Only the first `n` values matter to a signature for n threads.
pub signature_of-ext :
    (n : ℕ) (f g : ℕ → ℕ)
    → 1 ≤ n
    → ((k : ℕ) → k < n → f k ≡ g k)
    → signature_of n f ≡ signature_of n g
signature_of-ext n f g l h =
    rw (h 0 (omega arith)) (fold_sigs-ext (n - 1) 1 (g 0) f g (λ k a b. h k (omega arith)))

-- For NumProcs from 1 up to below the length of `sig`, the signature does not depend on what the
-- last thread, whose id is NumProcs, leaves in `sig`.
signature-ignores_last :
    (n v : ℕ) (sig : List ℕ) → 1 ≤ n → n < length sig → signature n (set sig n v) ≡ signature n sig
signature-ignores_last n v sig l h =
    signature-eq-signature_of n (set sig n v) l (omega (arith, length-set {0} sig n v))
    ∙ ap returned (
        signature_of-ext n (λ k. get_or (set sig n v) k 0) (λ k. get_or sig k 0) l
          (λ k lt. get_or-set_ne sig n k v 0 (omega arith)))
    ∙ sym (signature-eq-signature_of n sig l (omega arith))

fold_sigs-lt : (left i acc : ℕ) (f : ℕ → ℕ) → acc < prime1 → fold_sigs left i acc f < prime1
fold_sigs-lt zero i acc f h = h
fold_sigs-lt (suc left) i acc f h = fold_sigs-lt left (i + 1) (mix (f i) acc) f (mix-lt (f i) acc)

pub signature_of-lt : (n : ℕ) (f : ℕ → ℕ) → f 0 < prime1 → signature_of n f < prime1
signature_of-lt n f h = fold_sigs-lt (n - 1) 1 (f 0) f h
