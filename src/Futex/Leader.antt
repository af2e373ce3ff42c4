-- ===== src/Futex/Leader.antt =====
-- `groupLeader` of racey-futex.c, against the threads of the group.
use mathlib.Core.Path.{subst}
use racey_suite.Prelude.{
  ℕ, zero, suc, ◌+◌, ◌≤◌, ◌≡◌, true, false, List, [], ◌∷◌, get_or, arith, Bool-cases, inl, inr,
}
use racey_suite.Futex.{is_live, some_live, group_leader}

-- The first index of `ts` whose thread is present.
pub record IsFirst (ts : List ℕ) (t : ℕ) : Type 0 where
  pub present : is_live (get_or ts t 0) ≡ true
  pub least : (j : ℕ) → is_live (get_or ts j 0) ≡ true → t ≤ j

least_later :
    (x t : ℕ) (ts : List ℕ)
    → is_live x ≡ false
    → IsFirst ts t
    → (j : ℕ) → is_live (get_or (x ∷ ts) j 0) ≡ true
    → suc t ≤ j
least_later x t ts dead first zero p = cc
least_later x t ts dead first (suc j) p = omega (arith, first.least j p)

leader_from :
    (i : ℕ) (ts : List ℕ)
    → some_live ts ≡ true
    → (t : ℕ) × (group_leader i ts ≡ i + t) × IsFirst ts t
unfolding some_live group_leader
leader_from i [] e = cc
leader_from i (x ∷ ts) e = elim (Bool-cases (is_live x)) [
  | inl live ↦ (0, rw live (omega arith), record { present = live; least = λ j p. omega arith })
  | inr dead ↦
      let (t, q, first) = leader_from (i + 1) ts (rw dead at e) in
      (
        suc t,
        rw dead (omega (arith, q)),
        record { present = first.present; least = least_later x t ts dead first },
      )
]

-- While some thread of a group is present, `groupLeader` answers a thread that is present, and no
-- thread with a smaller id is.
group_leader-IsFirst : (ts : List ℕ) → some_live ts ≡ true → IsFirst ts (group_leader 0 ts)
group_leader-IsFirst ts e =
    let (t, q, first) = leader_from 0 ts e in
    let same : t ≡ group_leader 0 ts = omega (arith, q) in subst (IsFirst ts) same first
