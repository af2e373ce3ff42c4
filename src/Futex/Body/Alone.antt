-- ===== src/Futex/Body/Alone.antt =====
-- A thread of racey-futex.c that is alone in its group: it is always its turn, and each access brings
-- it nearer to its end.
use racey_suite.Prelude.{
  ℕ, suc, ◌+◌, ◌-◌, ◌*◌, ◌≤◌, ◌<◌, ◌≡◌, ◌⊎◌, inl, inr, refl, ℤ, pos, negsuc, true, false, arith,
  ltb, ◌==◌, ◌&&◌, if◌then◌else◌, ap, Bool-cases,
}
use racey_suite.Racey.{fetch}
use racey_suite.Racey.Loop.{accesses}
use racey_suite.Futex.{FutexGroup}
use racey_suite.Futex.Points.{
  Vars, Point, mixing, removing, adding, spinning_owner, spinning_round, checking, drawing,
  scanning, sizing, assigning, loading, storing, waking, waiting_round, asleep_round, Pc, arriving,
  passing, reading_owner, leading, reading_round, turn, ended, npersig, next_turn, schedule,
  executed, next_inner, scan_from, is_negative,
}
use racey_suite.Futex.Body.{next_size}

-- The two values of `owner` in a group of one: the thread, and minus one.
abbrev pub MyOwner : ℕ → ℤ → Type 0
MyOwner t z = (z ≡ pos t) ⊎ (z ≡ negsuc 0)

-- Where the thread may stand in its turn, with `owner` what the group's field holds.
abbrev pub LonePoint : ℕ → ℕ → ℤ → ℕ → ℤ → Point → Type 0
LonePoint max_loop t owner i mine (mixing k q) = (i < max_loop) × (owner ≡ mine)
LonePoint max_loop t owner i mine removing = (i ≡ max_loop) × (owner ≡ mine)
LonePoint max_loop t owner i mine adding = (i ≤ max_loop) × (owner ≡ mine) × (mine ≡ negsuc 0)
LonePoint max_loop t owner i mine spinning_owner = (i ≤ max_loop) × (owner ≡ pos 0)
LonePoint max_loop t owner i mine spinning_round = ⊥
LonePoint max_loop t owner i mine (checking n) = (i ≤ max_loop) × (n < 33) × (i < max_loop → n ≤ t)
LonePoint max_loop t owner i mine drawing = i < max_loop
LonePoint max_loop t owner i mine (scanning n) = (i < max_loop) × (n ≡ t)
LonePoint max_loop t owner i mine (sizing j n) =
    (i < max_loop) × (j < 33) × (n ≡ (if ltb t j then 1 else 0))
LonePoint max_loop t owner i mine (assigning z) = (i ≤ max_loop) × (i < max_loop → MyOwner t z)
LonePoint max_loop t owner i mine waiting_round = ⊥
LonePoint max_loop t owner i mine asleep_round = ⊥
LonePoint max_loop t owner i mine _ = (i ≤ max_loop) × (i < max_loop → MyOwner t owner)

abbrev pub Lone : ℕ → ℕ → ℤ → Pc → Type 0
Lone max_loop t owner arriving = MyOwner t owner
Lone max_loop t owner passing = MyOwner t owner
Lone max_loop t owner (reading_owner i) = (i < max_loop) × MyOwner t owner
Lone max_loop t owner (leading i mine n) =
    (i < max_loop) × (owner ≡ mine) × (mine ≡ negsuc 0) × (n ≤ t)
Lone max_loop t owner (reading_round i mine leader) =
    (i < max_loop) × (owner ≡ mine) × MyOwner t mine × (leader ≡ true)
Lone max_loop t owner (turn i v p) =
    (v.leader ≡ true) × MyOwner t v.owner × LonePoint max_loop t owner i v.owner p
Lone max_loop t owner ended = Unit
Lone max_loop t owner _ = ⊥

-- How far the thread is from its end.
abbrev pub point_work : Point → ℕ
point_work (mixing k q) = accesses q
point_work removing = 251
point_work adding = 250
point_work spinning_owner = 249
point_work (checking n) = 200 + (33 - n)
point_work drawing = 160
point_work (scanning n) = 159
point_work (sizing j n) = 120 + (33 - j)
point_work (assigning z) = 110
point_work loading = 109
point_work (storing r) = 108
point_work waking = 107
point_work _ = 0

abbrev pub work : ℕ → Pc → ℕ
work max_loop arriving = 300 * max_loop + 102
work max_loop passing = 300 * max_loop + 101
work max_loop (reading_owner i) = 300 * (max_loop - i) + 100
work max_loop (leading i owner n) = 300 * (max_loop - i) + 60 + (33 - n)
work max_loop (reading_round i owner leader) = 300 * (max_loop - i) + 40
work max_loop (turn i v p) = 300 * (max_loop - i) + point_work p
work max_loop _ = 0

-- What a step to `p'` leaves, where `bound` is above what was left before.
pub record Nearer (max_loop t : ℕ) (owner : ℤ) (bound : ℕ) (p' : Pc) : Type 0 where
  pub lone : Lone max_loop t owner p'
  pub less : work max_loop p' < bound

npersig-pos : (max_loop : ℕ) → ltb 0 (npersig max_loop) ≡ true
npersig-pos max_loop = ground arith

module _ (max_loop t i : ℕ) (owner : ℤ) (within : i ≤ max_loop) where
  -- Behind FUTEX_WAKE.
  pub next_turn-Nearer :
      (bound : ℕ)
      → (i < max_loop → MyOwner t owner)
      → 300 * (max_loop - i) + 100 < bound
      → Nearer max_loop t owner bound (next_turn max_loop i)
  next_turn-Nearer bound mine less = elim (Bool-cases (ltb i max_loop)) [
    | inl e ↦
        let more : i < max_loop = ground arith in
        rw e (record { lone = (more, mine more); less = less })
    | inr e ↦ rw e (record { lone = tt; less = omega arith })
  ]

  module _ (v : Vars) (leads : v.leader ≡ true) (mine : MyOwner t v.owner) (same : owner ≡ v.owner)
      (bound : ℕ) where
    pub schedule-Nearer :
        300 * (max_loop - i) + 250 < bound → Nearer max_loop t owner bound (schedule i v)
    schedule-Nearer far = elim mine [
      | inl e ↦
          let positive : is_negative v.owner ≡ false = ap is_negative e in
          rw positive (record {
            lone = (leads, inl e, (within, omega arith, λ m. omega arith));
            less = omega arith;
          })
      | inr e ↦
          let negative : is_negative v.owner ≡ true = ap is_negative e in
          rw negative (record { lone = (leads, inr e, (within, same, e)); less = omega arith })
    ]

    executed-Nearer :
        300 * (max_loop - i) + 251 < bound → Nearer max_loop t owner bound (executed max_loop i v)
    executed-Nearer far = elim (Bool-cases (i == max_loop)) [
      | inl e ↦ rw e (record { lone = (leads, mine, (ground arith, same)); less = far })
      | inr e ↦ rw e (schedule-Nearer (omega arith))
    ]

    pub next_inner-Nearer :
        (k : ℕ)
        → 300 * (max_loop - i) + 251 < bound
        → Nearer max_loop t owner bound (next_inner max_loop i k v)
    next_inner-Nearer k far = elim (Bool-cases (ltb k (npersig max_loop) && ltb i max_loop)) [
      | inl e ↦ rw e (record { lone = (leads, mine, (ground arith, same)); less = omega arith })
      | inr e ↦ rw e (executed-Nearer far)
    ]

  -- The first round of a turn.
  pub first_inner :
      (v : Vars) → i < max_loop → next_inner max_loop i 0 v ≡ turn i v (mixing 0 fetch)
  first_inner v more =
      let left : ltb i max_loop ≡ true = ground arith in rw (npersig-pos max_loop, left) refl

  module _ (v : Vars) (leads : v.leader ≡ true) (mine : MyOwner t v.owner) where
    -- The draw ends at the thread itself or behind it.
    pub scan_from-Nearer :
        (g : FutexGroup) (n : ℕ)
        → i < max_loop
        → g.stop ≡ suc t
        → (n ≡ t) ⊎ (n ≡ suc t)
        → Nearer max_loop t owner (300 * (max_loop - i) + 160) (turn i v (scan_from g n))
    scan_from-Nearer g n more stop (inl e) =
        let apart : (n == g.stop) ≡ false = ground arith in
        rw apart (record { lone = (leads, mine, (more, e)); less = omega arith })
    scan_from-Nearer g n more stop (inr e) =
        let at_end : (n == g.stop) ≡ true = ground arith in
        rw at_end
          (record { lone = (leads, mine, (more, omega arith, ground arith)); less = omega arith })

    -- Behind the look of `groupSize` at `threads[j]`.
    pub next_size-Nearer :
        (j n : ℕ)
        → i < max_loop
        → j < 33
        → t < 33
        → n ≡ (if ltb t (j + 1) then 1 else 0)
        → Nearer max_loop t owner
            (300 * (max_loop - i) + (120 + (33 - j)))
            (turn i v (next_size j n))
    next_size-Nearer j n more small few e = elim (Bool-cases (j + 1 == 33)) [
      | inl f ↦
          let one : n ≡ 1 = ground arith in
          rw (f, one) (record { lone = (leads, mine, (within, λ m. inr refl)); less = omega arith })
      | inr f ↦ rw f (record { lone = (leads, mine, (more, ground arith, e)); less = omega arith })
    ]
