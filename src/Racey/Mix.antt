-- ===== src/Racey/Mix.antt =====
-- The values of `mix`, as racey-basic.c defines it, and how far it tells its arguments apart.
use racey_suite.Prelude.{ℕ, ◌+◌, ◌*◌, ◌^◌, ◌<◌, ◌≡◌, ◌∙◌, sym, ap, arith, u32}
use racey_suite.Racey.{mix, prime1, prime2}

-- Every result of `mix` is below PRIME1, so it is not negative as an `int`.
pub mix-lt : (i j : ℕ) → mix i j < prime1
unfolding mix
mix-lt i j = omega arith

-- The word whose remainder `mix` takes.
abbrev pub mix_word : ℕ → ℕ → ℕ
mix_word i j = u32 (i + u32 (j * prime2))

-- PRIME2 is odd: 3650688751 undoes the product with it.
mul_prime2_inverse : (j : ℕ) → j < 2 ^ 32 → u32 (u32 (j * prime2) * 3650688751) ≡ j
mul_prime2_inverse j h = omega arith

mul_prime2_injective :
    (j k : ℕ) → j < 2 ^ 32 → k < 2 ^ 32 → u32 (j * prime2) ≡ u32 (k * prime2) → j ≡ k
mul_prime2_injective j k hj hk e =
    sym (mul_prime2_inverse j hj) ∙ ap (λ (t : ℕ). u32 (t * 3650688751)) e ∙ mul_prime2_inverse k hk

-- The word is a bijection in each argument.
pub mix_word-injective : (i j k : ℕ) → j < 2 ^ 32 → k < 2 ^ 32 → mix_word i j ≡ mix_word i k → j ≡ k
mix_word-injective i j k hj hk e = mul_prime2_injective j k hj hk (omega arith)

-- `mix` with the same first argument tells two words apart as its second argument whenever the
-- numbers whose remainders it takes are less than PRIME1 apart.
mix-separates :
    (i j k : ℕ)
    → j < 2 ^ 32
    → k < 2 ^ 32
    → mix_word i j < mix_word i k + prime1
    → mix_word i k < mix_word i j + prime1
    → mix i j ≡ mix i k
    → j ≡ k
unfolding mix
mix-separates i j k hj hk lo hi e = mix_word-injective i j k hj hk (omega arith)

-- `mix` with the same first argument gives the same for j and for j + 34871655 whenever the
-- number whose remainder it takes for j leaves room for 19 times PRIME1 below 2 ^ 32.
mix-collides : (i j : ℕ) → mix_word i j + 19 * prime1 < 2 ^ 32 → mix i (j + 34871655) ≡ mix i j
unfolding mix
mix-collides i j h = omega arith
