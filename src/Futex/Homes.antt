-- ===== src/Futex/Homes.antt =====
-- The groups in which the threads of racey-futex.c find themselves, as the state in which they start.
use racey_suite.Prelude.{
  ℕ, zero, suc, ◌+◌, ◌-◌, ◌*◌, ◌/◌, ◌%◌, ◌≤◌, ◌<◌, ◌≡◌, ◌≢◌, ◌⊎◌, inl, inr, refl, true, List, [],
  ◌∷◌, length, replicate, get_or, get_elem?-eq-get_or, arith, sym, ◌∙◌, ap, All, All-get_or_lt, ltb,
  leb, Bool-cases,
}
use racey_suite.Outcome.{Outcome, returned, aborted, ◌>>=◌, >>=-eq-returned}
use racey_suite.Futex.{
  FutexGroup, is_live, find_group, groups, init_groups, fill_group, group_room, nfutex,
}
use racey_suite.Futex.Pick.{IsGroup}
use racey_suite.Futex.Init.{IsFresh, groups-IsFresh}
use racey_suite.Futex.Groups.{expected_group, group_of-eq-expected_group}
use racey_suite.Futex.Body.Invariant.{no_group, IsStart}

-- The searches of threads `t`, `t + 1`, ..., each at the head of its `ThreadBody`.
unfoldable pub find_homes : List FutexGroup → ℕ → ℕ → Outcome (List ℕ)
unfolding find_group
find_homes gs t zero = returned []
find_homes gs t (suc left) = do
  h ← find_group t 0 gs
  hs ← find_homes gs (t + 1) left
  returned (h ∷ hs)

-- The group of thread `t`, from what `find_homes` returns for the threads from 1 on.
abbrev pub home_of : List ℕ → ℕ → ℕ
home_of hs t = get_or hs (t - 1) 0

-- What `find_group` returns is the index of a group with the thread.
record IsHome (t i h : ℕ) (gs : List FutexGroup) : Type 0 where
  behind : i ≤ h
  before : h < i + length gs
  present : is_live (get_or (get_or gs (h - i) no_group).threads t 0) ≡ true

find_group-IsHome :
    (t i : ℕ) (gs : List FutexGroup) (h : ℕ)
    → t < 33
    → All IsGroup gs
    → find_group t i gs ≡ returned h
    → IsHome t i h gs
unfolding find_group
find_group-IsHome t i [] h small ok e = absurd (cc)
find_group-IsHome t i (g ∷ gs) h small (ok, oks) e =
    here (get_or g.threads t 0) refl
      (rw (get_elem?-eq-get_or g.threads t 0 (omega (arith, ok.sized))) at e)
      (λ e'. find_group-IsHome t (i + 1) gs h small oks e')
  where
    here :
        (v : ℕ)
        → get_or g.threads t 0 ≡ v
        → elim v [ zero ↦ find_group t (i + 1) gs | suc k ↦ returned i ] ≡ returned h
        → (find_group t (i + 1) gs ≡ returned h → IsHome t (i + 1) h gs)
        → IsHome t i h (g ∷ gs)
    here zero q e rest =
        let r = rest e in
        let later : h - i ≡ suc (h - (i + 1)) = omega (arith, r.behind) in
        record {
          behind = omega (arith, r.behind);
          before = omega (arith, r.before);
          present = rw later r.present;
        }
    here (suc k) q e rest =
        let found : i ≡ h = cc in
        let none_before : h - i ≡ 0 = omega arith in
        record { behind = omega arith; before = omega arith; present = rw (none_before, q) refl }

find_homes-uncons :
    (gs : List FutexGroup) (t left : ℕ) (hs : List ℕ)
    → find_homes gs t (suc left) ≡ returned hs
    → (h : ℕ) × (rest : List ℕ) × (find_group t 0 gs ≡ returned h)
      × (find_homes gs (t + 1) left ≡ returned rest)
      × (h ∷ rest ≡ hs)
unfolding find_homes
find_homes-uncons gs t left hs e =
    let (h, found, e1) = >>=-eq-returned (find_group t 0 gs) _ e in
    let (rest, later, e2) = >>=-eq-returned (find_homes gs (t + 1) left) _ e1 in
    (h, rest, found, later, cc)

find_homes-get_or :
    (gs : List FutexGroup) (t left : ℕ) (hs : List ℕ)
    → find_homes gs t left ≡ returned hs
    → (k : ℕ) → k < left
    → find_group (t + k) 0 gs ≡ returned (get_or hs k 0)
find_homes-get_or gs t zero hs e k small = absurd (omega arith)
find_homes-get_or gs t (suc left) hs e zero small =
    let (h, rest, found, later, same) = find_homes-uncons gs t left hs e in
    let first : t + 0 ≡ t = omega arith in rw (first, ← same) found
find_homes-get_or gs t (suc left) hs e (suc k) small =
    let (h, rest, found, later, same) = find_homes-uncons gs t left hs e in
    let next : t + suc k ≡ t + 1 + k = omega arith in
    rw (next, ← same) (find_homes-get_or gs (t + 1) left rest later k (omega arith))

-- What the searches of all threads come to.
pub data Settles (o : Outcome (List ℕ)) : Type 0 where
  settled : (hs : List ℕ) → o ≡ returned hs → Settles o
  strays : o ≡ aborted → Settles o

-- What the search of one thread comes to.
abbrev pub Found : Outcome ℕ → Type 0
Found o = ((h : ℕ) × (o ≡ returned h)) ⊎ (o ≡ aborted)

find_homes-Settles :
    (gs : List FutexGroup) (t left : ℕ)
    → ((k : ℕ) → t ≤ k → k < t + left → Found (find_group k 0 gs))
    → Settles (find_homes gs t left)
unfolding find_homes
find_homes-Settles gs t zero each = settled [] refl
find_homes-Settles gs t (suc left) each = elim (each t (omega arith) (omega arith)) [
  | inr lost ↦ rw lost (strays refl)
  | inl (h, found) ↦
      elim (find_homes-Settles gs (t + 1) left (λ k a b. each k (omega arith) (omega arith))) [
        | settled hs e ↦ rw (found, e) (settled (h ∷ hs) refl)
        | strays e ↦ rw (found, e) (strays refl)
      ]
]

find_homes_all :
    (gs : List FutexGroup) (t left : ℕ)
    → ((k : ℕ) → t ≤ k → k < t + left → (h : ℕ) × (find_group k 0 gs ≡ returned h))
    → (hs : List ℕ) × (find_homes gs t left ≡ returned hs)
unfolding find_homes
find_homes_all gs t zero each = ([], refl)
find_homes_all gs t (suc left) each =
    let (h, found) = each t (omega arith) (omega arith) in
    let (hs, e) = find_homes_all gs (t + 1) left (λ k a b. each k (omega arith) (omega arith)) in
    (h ∷ hs, rw (found, e) refl)

expected-Found : (n t : ℕ) → Found (expected_group n t)
expected-Found n t = elim (Bool-cases (ltb n 4)) [
  | inl e ↦ rw e (inl (0, refl))
  | inr e ↦ elim (Bool-cases (leb t (n / 4 * 4))) [
    | inl f ↦ rw (e, f) (inl ((t - 1) / (n / 4), refl))
    | inr f ↦ rw (e, f) (inr refl)
  ]
]

module _ (n : ℕ) (some_thread : 1 ≤ n) (few : n ≤ 32) where
  -- The groups that `main` sets up.
  pub initial_groups : (gs : List FutexGroup) × (groups n ≡ returned gs) × All IsFresh gs
  initial_groups = groups-IsFresh n few

  module _ (gs : List FutexGroup) (set_up : groups n ≡ returned gs) where
    search-expected : (t : ℕ) → 1 ≤ t → t ≤ n → find_group t 0 gs ≡ expected_group n t
    search-expected t l h =
        sym (ap (λ o. o >>= λ g. find_group t 0 g) set_up)
        ∙ group_of-eq-expected_group n t some_thread few l h

    pub homes-Settles : Settles (find_homes gs 1 n)
    homes-Settles =
        find_homes-Settles gs 1 n
          λ k a b. rw (search-expected k a (omega arith)) (expected-Found n k)

    -- With up to four threads, or a multiple of four, every thread finds its group.
    pub homes_all : (n < 5) ⊎ (n % 4 ≡ 0) → (hs : List ℕ) × (find_homes gs 1 n ≡ returned hs)
    homes_all even =
        find_homes_all gs 1 n
          λ k a b. let (h, e) = found k (omega arith) in (h, search-expected k a (omega arith) ∙ e)
      where
        found : (k : ℕ) → k ≤ n → (h : ℕ) × (expected_group n k ≡ returned h)
        found k small = elim (Bool-cases (ltb n 4)) [
          | inl e ↦ (0, rw e refl)
          | inr e ↦
              let inside : leb k (n / 4 * 4) ≡ true = ground arith in
              ((k - 1) / (n / 4), rw (e, inside) refl)
        ]

    -- With more than four threads and no multiple of four, the last one finds none.
    pub homes_stray : 4 < n → n % 4 ≢ 0 → find_homes gs 1 n ≡ aborted
    homes_stray many odd = elim homes-Settles [
      | strays e ↦ e
      | settled hs e ↦
          let last : 1 + (n - 1) ≡ n = omega arith in
          let found = find_homes-get_or gs 1 n hs e (n - 1) (omega arith) in
          let none_left : expected_group n n ≡ aborted = ground arith in
          absurd
            (cc (sym (rw last at found) ∙ search-expected n some_thread (omega arith) ∙ none_left))
    ]

length-init_groups :
    (n left k : ℕ) (gs : List FutexGroup) → init_groups n left k ≡ returned gs → length gs ≡ left
unfolding init_groups
length-init_groups n zero k gs e = let same : [] ≡ gs = cc in rw (← same) refl
length-init_groups n (suc left) k gs e =
    let (f, filled, e1) = >>=-eq-returned (fill_group n (group_room n) k 0 (replicate 33 0)) _ e in
    let (rest, later, e2) = >>=-eq-returned (init_groups n left f.next) _ e1 in
    let size : length rest ≡ left = length-init_groups n left f.next rest later in
    ground (arith, size)

IsFresh-IsGroup : (gs : List FutexGroup) → All IsFresh gs → All IsGroup gs
IsFresh-IsGroup [] ok = tt
IsFresh-IsGroup (g ∷ gs) (ok, oks) = (ok.formed, IsFresh-IsGroup gs oks)

-- The state in which the threads start once all of them have found their groups.
pub homes-IsStart :
    (n : ℕ) (gs : List FutexGroup) (hs : List ℕ)
    → n ≤ 32
    → groups n ≡ returned gs
    → All IsFresh gs
    → find_homes gs 1 n ≡ returned hs
    → IsStart (home_of hs) n gs
unfolding groups
homes-IsStart n gs hs few set_up fresh e =
    let four : length gs ≡ 4 = length-init_groups n nfutex 1 gs set_up in
    let formed = IsFresh-IsGroup gs fresh in
    let place = λ (t : ℕ) (l : 1 ≤ t) (h : t ≤ n).
      find_group-IsHome t 0 gs (home_of hs t) (omega arith) formed
        (found t l (find_homes-get_or gs 1 n hs e (t - 1) (omega arith))) in
    record {
      four = four;
      formed = λ h small. All-get_or_lt IsGroup gs h no_group formed (omega (arith, four));
      homes = λ t l h. omega (arith, (place t l h).before, four);
      member = λ t l h.
          let exact : home_of hs t - 0 ≡ home_of hs t = omega arith in
          rw exact at ((place t l h).present);
    }
  where
    found :
        (t : ℕ)
        → 1 ≤ t
        → find_group (1 + (t - 1)) 0 gs ≡ returned (home_of hs t)
        → find_group t 0 gs ≡ returned (home_of hs t)
    found t l e = let same : 1 + (t - 1) ≡ t = omega arith in rw same at e
