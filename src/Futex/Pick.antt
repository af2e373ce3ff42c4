-- ===== src/Futex/Pick.antt =====
-- `groupPickNext` of racey-futex.c: where its scan stops, and what it answers.
use native.Mathlib.Nat.{mod-lt}
use racey_suite.Prelude.{
  ℕ, zero, suc, ◌+◌, ◌-◌, ◌%◌, ◌≤◌, ◌<◌, ◌≡◌, ◌≢◌, ◌⊎◌, inl, inr, refl, ℤ, pos, true, false, List,
  [], ◌∷◌, length, get_or, get_elem?-eq-get_or, ◌==◌, arith, if◌then◌else◌, Bool-cases, ==_iff,
}
use racey_suite.Outcome.{Outcome, returned}
use racey_suite.Futex.{
  FutexGroup, negate, is_live, some_live, group_size, scan_threads, group_pick_next,
}

-- `threads` has its 33 entries, and is zero outside the range of the group.
pub record IsGroup (g : FutexGroup) : Type 0 where
  pub sized : length g.threads ≡ 33
  pub ordered : g.begin ≤ g.stop
  pub in_array : g.stop ≤ 33
  pub in_range : (t : ℕ) → is_live (get_or g.threads t 0) ≡ true → (g.begin ≤ t) × (t < g.stop)

pub zero_dead : is_live 0 ≡ true → ⊥
zero_dead e = cc

some_live-index :
    (ts : List ℕ)
    → some_live ts ≡ true
    → (t : ℕ) × (t < length ts) × (is_live (get_or ts t 0) ≡ true)
unfolding some_live
some_live-index [] e = cc
some_live-index (x ∷ ts) e = elim (Bool-cases (is_live x)) [
  | inl live ↦ (0, omega arith, live)
  | inr dead ↦ let (t, h, live) = some_live-index ts (rw dead at e) in (suc t, omega arith, live)
]

group_size-pos : (ts : List ℕ) → some_live ts ≡ true → 1 ≤ group_size ts
unfolding some_live group_size
group_size-pos [] e = cc
group_size-pos (x ∷ ts) e = ground (arith, group_size-pos ts)

-- Where the scan stops: behind the group, or at a thread that is present.
abbrev Stops : FutexGroup → ℕ → Type 0
Stops g n = (n ≡ g.stop) ⊎ ((n ≢ g.stop) × (is_live (get_or g.threads n 0) ≡ true))

-- The scan finds its end.
abbrev Finds : FutexGroup → Outcome ℕ → Type 0
Finds g o = (m : ℕ) × (o ≡ returned m) × Stops g m

-- The steps from `n` up to index `t`, around the array.
abbrev distance : ℕ → ℕ → ℕ
distance n t = (t + 33 - n) % 33

distance-next :
    (n t fuel : ℕ)
    → n < 33
    → t < 33
    → n ≢ t
    → distance n t < suc fuel
    → distance ((n + 1) % 33) t < fuel
distance-next n t fuel h k ne d = omega arith

module _ (g : FutexGroup) (ok : IsGroup g) (t : ℕ) (small : t < 33)
    (live : is_live (get_or g.threads t 0) ≡ true) where
  at_thread :
      (fuel n v : ℕ)
      → n ≢ g.stop
      → get_or g.threads n 0 ≡ v
      → (n ≢ t → Finds g (scan_threads fuel g ((n + 1) % 33)))
      → Finds g (elim v [ zero ↦ scan_threads fuel g ((n + 1) % 33) | suc k ↦ returned n ])
  at_thread fuel n zero ne e rest = rest (λ same. dead (rw same live))
    where
      dead : is_live (get_or g.threads n 0) ≡ true → ⊥
      dead p = absurd (zero_dead (rw e at p))
  at_thread fuel n (suc k) ne e rest = (n, refl, inr (ne, rw e refl))

  scan_stops :
      (fuel n : ℕ) → (n < 33) ⊎ (n ≡ g.stop) → distance n t < fuel → Finds g (scan_threads fuel g n)
  unfolding scan_threads
  scan_stops zero n h d = absurd (omega arith)
  scan_stops (suc fuel) n h d = elim (Bool-cases (n == g.stop)) [
    | inl behind ↦ (n, rw behind refl, inl (ground arith))
    | inr before ↦
        let ne : n ≢ g.stop = ground arith in
        let small_n : n < 33 = ground arith in
        rw (before, get_elem?-eq-get_or g.threads n 0 (omega (arith, ok.sized)))
          (at_thread fuel n (get_or g.threads n 0) ne refl (λ apart.
            scan_stops fuel ((n + 1) % 33) (inl (omega arith))
              (distance-next n t fuel small_n small apart d)))
  ]

-- What `groupPickNext` may answer.
pub data Picks (g : FutexGroup) (z : ℤ) : Type 0 where
  none_left : some_live g.threads ≡ false → z ≡ pos 0 → Picks g z
  one :
      (t : ℕ)
      → is_live (get_or g.threads t 0) ≡ true
      → g.begin ≤ t
      → t < g.stop
      → z ≡ pos t
      → Picks g z
  everyone : 1 ≤ group_size g.threads → z ≡ negate (group_size g.threads) → Picks g z

ne-beq : (a b : ℕ) → a ≢ b → (a == b) ≡ false
ne-beq a b h = ground arith

pub from_range :
    (num b s : ℕ) → b ≤ s → s ≤ 33 → (num % (s - b + 1) + b < 33) ⊎ (num % (s - b + 1) + b ≡ s)
from_range num b s l h =
    let small : num % (s - b + 1) < s - b + 1 = mod-lt num (omega arith) in omega arith

-- The value of the `return` behind the scan.
picked : FutexGroup → ℕ → ℤ
picked g n = if n == g.stop then negate (group_size g.threads) else pos n

picked-Picks :
    (g : FutexGroup)
    → IsGroup g
    → some_live g.threads ≡ true
    → (n : ℕ) → Stops g n
    → Picks g (picked g n)
unfolding picked
picked-Picks g ok some_one n (inl behind) =
    rw ((==_iff n g.stop).1 behind) (everyone (group_size-pos g.threads some_one) refl)
picked-Picks g ok some_one n (inr (before, live)) =
    rw (ne-beq n g.stop before) (one n live (ok.in_range n live).0 (ok.in_range n live).1 refl)

-- For a group whose threads lie in its range, `groupPickNext` ends after at most 33 steps of its
-- loop and reads no entry out of bounds. It answers 0 for an empty group; for another it answers
-- a thread that is present, or minus the number of those that are, which is then not 0.
pub group_pick_next-Picks :
    (num : ℕ) (g : FutexGroup)
    → IsGroup g
    → (z : ℤ) × (group_pick_next num g ≡ returned z) × Picks g z
unfolding group_pick_next
group_pick_next-Picks num g ok = elim (Bool-cases (some_live g.threads)) [
  | inr dead ↦ (pos 0, rw dead refl, none_left dead refl)
  | inl some_one ↦
      let (t, h, live) = some_live-index g.threads some_one in
      let (m, e, stops) =
        scan_stops g ok t (omega (arith, ok.sized)) live 34 (num % (g.stop - g.begin + 1) + g.begin)
          (from_range num g.begin g.stop ok.ordered ok.in_array) (omega arith) in
      (picked g m, unfold picked in rw (some_one, e) refl, picked-Picks g ok some_one m stops)
]
