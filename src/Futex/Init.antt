-- ===== src/Futex/Init.antt =====
-- The groups that `main` of racey-futex.c sets up, and what `groupRemoveMe` does to them.
use mathlib.Core.Bool.{false≢true}
use racey_suite.Prelude.{
  ℕ, zero, suc, ◌+◌, ◌≤◌, ◌<◌, ◌≡◌, ◌≢◌, refl, true, false, List, [], ◌∷◌, length, get_or, set,
  set?-eq-set, length-set, length-replicate, get_or-set_self, get_or-set_ne, replicate, All, leb,
  Bool-cases, inl, inr, arith, ◌∙◌, sym, ap, ℕ_discrete,
}
use racey_suite.Outcome.{returned}
use racey_suite.Futex.{
  FutexGroup, Filled, negate, is_live, group_size, fill_group, group_room, init_groups, groups,
  group_remove, nfutex,
}
use racey_suite.Futex.Pick.{IsGroup, zero_dead}

-- All threads of `ts` lie from `b` up to `k`.
abbrev Within : ℕ → ℕ → List ℕ → Type 0
Within b k ts = (t : ℕ) → is_live (get_or ts t 0) ≡ true → (b ≤ t) × (t < k)

group_size-set :
    (ts : List ℕ) (k : ℕ)
    → k < length ts
    → is_live (get_or ts k 0) ≡ false
    → group_size (set ts k 1) ≡ group_size ts + 1
unfolding group_size
group_size-set [] k h e = absurd (omega arith)
group_size-set (t ∷ ts) zero h e = ground arith
group_size-set (t ∷ ts) (suc k) h e = omega (arith, group_size-set ts k (omega arith) e)

group_size-replicate : (n : ℕ) → group_size (replicate n 0) ≡ 0
unfolding group_size
group_size-replicate zero = refl
group_size-replicate (suc n) = omega (arith, group_size-replicate n)

pub get_or-replicate : (n t : ℕ) → get_or {A = ℕ} (replicate n 0) t 0 ≡ 0
get_or-replicate zero t = refl
get_or-replicate (suc n) zero = refl
get_or-replicate (suc n) (suc t) = get_or-replicate n t

-- A group with the threads from `b` up to the next free id, and their number.
record IsFilled (b k : ℕ) (f : Filled) : Type 0 where
  sized : length f.threads ≡ 33
  after : k ≤ f.next
  in_array : f.next ≤ 33
  within : Within b f.next f.threads
  counted : f.size ≡ group_size f.threads

Within-set : (b k : ℕ) (ts : List ℕ) → b ≤ k → Within b k ts → Within b (k + 1) (set ts k 1)
Within-set b k ts h w t live = elim (ℕ_discrete k t) [
  | yes same ↦ omega arith
  | no other ↦ let (lo, hi) = w t (rw (get_or-set_ne ts k t 1 0 other) at live) in omega arith
]

fill_group-IsFilled :
    (n left b k size : ℕ) (ts : List ℕ)
    → n ≤ 32
    → b ≤ k
    → k ≤ 33
    → length ts ≡ 33
    → Within b k ts
    → size ≡ group_size ts
    → (f : Filled) × (fill_group n left k size ts ≡ returned f) × IsFilled b k f
unfolding fill_group
fill_group-IsFilled n zero b k size ts few l h sized w e = (
  record { next = k; size = size; threads = ts },
  refl,
  record { sized = sized; after = omega arith; in_array = h; within = w; counted = e },
)
fill_group-IsFilled n (suc left) b k size ts few l h sized w e = elim (Bool-cases (leb k n)) [
  | inr past ↦ (
    record { next = k; size = size; threads = ts },
    rw (fill_group, past) refl,
    record { sized = sized; after = omega arith; in_array = h; within = w; counted = e },
  )
  | inl in_count ↦
      let small : k ≤ 32 = ground arith in
      let (f, q, ok) =
        fill_group-IsFilled n left b (k + 1) (size + 1) (set ts k 1) few (omega arith) (omega arith)
          (length-set ts k 1 ∙ sized) (Within-set b k ts l w)
          (omega (arith, e, group_size-set ts k (omega arith) (not_live k ts w))) in
      (
        f,
        rw (fill_group, in_count, set?-eq-set ts k 1 (omega arith)) q,
        record {
          sized = ok.sized;
          after = omega (arith, ok.after);
          in_array = ok.in_array;
          within = ok.within;
          counted = ok.counted;
        },
      )
]
  where
    not_live : (k : ℕ) (ts : List ℕ) → Within b k ts → is_live (get_or ts k 0) ≡ false
    not_live k ts w = ground (arith, w k)

-- A group as `main` sets it up: well-formed, and with minus its size for `owner`.
pub record IsFresh (g : FutexGroup) : Type 0 where
  pub formed : IsGroup g
  pub everyone : g.owner ≡ negate (group_size g.threads)

init_groups-IsFresh :
    (n left k : ℕ)
    → n ≤ 32
    → k ≤ 33
    → (gs : List FutexGroup) × (init_groups n left k ≡ returned gs) × All IsFresh gs
unfolding init_groups
init_groups-IsFresh n zero k few h = ([], refl, tt)
init_groups-IsFresh n (suc left) k few h =
    let (f, q, ok) =
      fill_group-IsFilled n (group_room n) k k 0 (replicate 33 0) few (omega arith) h
        (length-replicate {A = ℕ} 33 0)
        (λ t live. absurd (zero_dead (rw (get_or-replicate 33 t) at live)))
        (sym (group_size-replicate 33)) in
    let (gs, r, fresh) = init_groups-IsFresh n left f.next few ok.in_array in
    (
      record { owner = negate f.size; round = 0; threads = f.threads; begin = k; stop = f.next }
          ∷ gs,
      rw (q, r) refl,
      (
        record {
          formed = record {
            sized = ok.sized;
            ordered = ok.after;
            in_array = ok.in_array;
            in_range = ok.within;
          };
          everyone = ap negate ok.counted;
        },
        fresh,
      ),
    )

-- For up to 32 threads `main` sets up the groups without a write out of bounds; the threads of
-- each group lie in its range, and its `owner` is minus their number.
pub groups-IsFresh :
    (n : ℕ) → n ≤ 32 → (gs : List FutexGroup) × (groups n ≡ returned gs) × All IsFresh gs
unfolding groups
groups-IsFresh n few = init_groups-IsFresh n nfutex 1 few (omega arith)

-- What the store of `groupRemoveMe` leaves: a well-formed group, of which the thread is no member
-- and every other thread is one as before.
pub removed-IsGroup :
    (t : ℕ) (g : FutexGroup)
    → t < 33
    → IsGroup g
    → IsGroup (record g { threads = set g.threads t 0 })
      × (is_live (get_or (set g.threads t 0) t 0) ≡ false)
removed-IsGroup t g h ok =
    let inside : t < length g.threads = omega (arith, ok.sized) in
    let gone : is_live (get_or (set g.threads t 0) t 0) ≡ false =
      rw (get_or-set_self g.threads t 0 0 inside) refl in
    (
      record {
        sized = length-set g.threads t 0 ∙ ok.sized;
        ordered = ok.ordered;
        in_array = ok.in_array;
        in_range = λ j live. elim (ℕ_discrete t j) [
          | yes same ↦ absurd (false≢true (sym gone ∙ rw (← same) at live))
          | no other ↦ ok.in_range j (rw (get_or-set_ne g.threads t j 0 0 other) at live)
        ];
      },
      gone,
    )

-- A thread with an id below 33 that leaves a well-formed group leaves a well-formed group, of
-- which it is no member and every other thread is one as before.
group_remove-IsGroup :
    (t : ℕ) (g : FutexGroup)
    → t < 33
    → IsGroup g
    → (g' : FutexGroup) × (group_remove t g ≡ returned g')
      × IsGroup g'
      × (is_live (get_or g'.threads t 0) ≡ false)
      × ((j : ℕ) → t ≢ j → get_or g'.threads j 0 ≡ get_or g.threads j 0)
unfolding group_remove
group_remove-IsGroup t g h ok =
    let (formed, gone) = removed-IsGroup t g h ok in
    (
      record g { threads = set g.threads t 0 },
      rw (set?-eq-set g.threads t 0 (omega (arith, ok.sized))) refl,
      formed,
      gone,
      λ j other. get_or-set_ne g.threads t j 0 0 other,
    )
