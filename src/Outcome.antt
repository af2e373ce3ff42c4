-- ===== src/Outcome.antt =====
-- How a run of a program ends: by a value, by `exit`, by a failed `assert`, by an access or an
-- operation that C leaves undefined, or not yet, because the schedule that was given is used up.
use mathlib.Core.Path.{subst}
use racey_suite.Prelude.{ℕ, ◌≡◌, ◌≢◌, refl, Bool, true, false, Option, none, some}

pub data Outcome {ℓ} (A : Type ℓ) : Type ℓ where
  returned : A → Outcome A
  exited : (status : ℕ) → Outcome A
  aborted : Outcome A
  crashed : Outcome A
  unfinished : Outcome A

infixl 5 ◌>>=◌ ◌>>◌
abbrev pub ◌>>=◌ {ℓ κ} : {A : Type ℓ} {B : Type κ} → Outcome A → (A → Outcome B) → Outcome B
returned a >>= f = f a
exited k >>= f = exited k
aborted >>= f = aborted
crashed >>= f = crashed
unfinished >>= f = unfinished

abbrev pub ◌>>◌ {ℓ} : {B : Type ℓ} → Outcome (Unit {0}) → Outcome B → Outcome B
m >> k = m >>= λ _. k

-- `assert(b)`.
abbrev pub assert : Bool → Outcome (Unit {0})
assert true = returned tt
assert false = aborted

-- An access that is `none` out of bounds.
abbrev pub access {ℓ} : {A : Type ℓ} → Option A → Outcome A
access (some a) = returned a
access none = crashed

-- Inversion of a bind that returns.
pub >>=-eq-returned {ℓ κ} :
    {A : Type ℓ} {B : Type κ} (m : Outcome A) (f : A → Outcome B) {b : B}
    → (m >>= f) ≡ returned b
    → (a : A) × (m ≡ returned a) × (f a ≡ returned b)
>>=-eq-returned (returned a) f h = (a, refl, h)
>>=-eq-returned (exited k) f h = cc
>>=-eq-returned aborted f h = cc
>>=-eq-returned crashed f h = cc
>>=-eq-returned unfinished f h = cc

-- No crash, and a value that is returned has P.
abbrev pub Ensures {ℓ} : {A : Type ℓ} → (A → Type 0) → Outcome A → Type 0
Ensures P (returned a) = P a
Ensures P (exited k) = Unit {0}
Ensures P aborted = Unit {0}
Ensures P crashed = ⊥
Ensures P unfinished = Unit {0}

pub Ensures->>= {ℓ κ} :
    {A : Type ℓ} {B : Type κ} (P : A → Type 0) (Q : B → Type 0) (o : Outcome A) (f : A → Outcome B)
    → Ensures P o
    → ((a : A) → P a → Ensures Q (f a))
    → Ensures Q (o >>= f)
Ensures->>= P Q (returned a) f h k = k a h
Ensures->>= P Q (exited n) f h k = tt
Ensures->>= P Q aborted f h k = tt
Ensures->>= P Q crashed f h k = elim h [ ]
Ensures->>= P Q unfinished f h k = tt

pub Ensures-ne-crashed {ℓ} :
    {A : Type ℓ} (P : A → Type 0) (o : Outcome A) → Ensures P o → o ≢ crashed
Ensures-ne-crashed P (returned a) h = λ e. cc
Ensures-ne-crashed P (exited n) h = λ e. cc
Ensures-ne-crashed P aborted h = λ e. cc
Ensures-ne-crashed P crashed h = elim h [ ]
Ensures-ne-crashed P unfinished h = λ e. cc

pub Ensures-returned {ℓ} :
    {A : Type ℓ} (P : A → Type 0) (o : Outcome A) {a : A} → Ensures P o → o ≡ returned a → P a
Ensures-returned P o h e = subst (Ensures P) e h
