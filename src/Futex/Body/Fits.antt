-- ===== src/Futex/Body/Fits.antt =====
-- Where a thread of racey-futex.c may stand, and what its next step leaves of that.
use racey_suite.Prelude.{
  ℕ, ◌+◌, ◌≤◌, ◌<◌, ◌≡◌, ◌⊎◌, refl, inl, inr, Bool, true, false, arith, ltb, ◌==◌, ◌&&◌,
  if◌then◌else◌, Bool-cases,
}
use racey_suite.Racey.Loop.{IsMixing}
use racey_suite.Futex.{FutexGroup}
use racey_suite.Futex.Points.{
  Vars, Point, mixing, removing, checking, scanning, sizing, Pc, arriving, passing, reading_owner,
  leading, reading_round, turn, waiting_owner, asleep_owner, mucking, ended, npersig, next_turn,
  schedule, executed, next_inner, scan_from, behind_barrier, is_negative,
}
use racey_suite.Futex.Body.{next_size}

-- A legal point of a turn in which `i` rounds are made.
abbrev pub IsPoint : ℕ → ℕ → Point → Type 0
IsPoint max_loop i (mixing k q) = (i < max_loop) × IsMixing q
IsPoint max_loop i removing = i ≡ max_loop
IsPoint max_loop i (checking n) = (i ≤ max_loop) × (n < 33)
IsPoint max_loop i (scanning n) = (i ≤ max_loop) × (n < 33)
IsPoint max_loop i (sizing j n) = (i ≤ max_loop) × (j < 33)
IsPoint max_loop i _ = i ≤ max_loop

abbrev pub IsPc : ℕ → Pc → Type 0
IsPc max_loop arriving = Unit
IsPc max_loop passing = Unit
IsPc max_loop (reading_owner i) = i < max_loop
IsPc max_loop (leading i owner n) = (i < max_loop) × (n < 33)
IsPc max_loop (reading_round i owner leader) = i < max_loop
IsPc max_loop (turn i v p) = IsPoint max_loop i p
IsPc max_loop (waiting_owner i owner) = i < max_loop
IsPc max_loop (asleep_owner i) = i < max_loop
IsPc max_loop (mucking i) = i < max_loop
IsPc max_loop ended = Unit

-- Whether a thread has rounds left or still has to leave its group.
abbrev pub stays_at : ℕ → ℕ → Point → Bool
stays_at max_loop i (mixing k q) = true
stays_at max_loop i removing = true
stays_at max_loop i _ = ltb i max_loop

abbrev pub stays : ℕ → Pc → Bool
stays max_loop (turn i v p) = stays_at max_loop i p
stays max_loop ended = false
stays max_loop _ = true

-- Whether a thread has come to the barrier.
abbrev pub came : Pc → ℕ
came arriving = 0
came _ = 1

-- What a step to `p'` leaves of the thread, where `b` says whether it stays.
pub record Fits (max_loop : ℕ) (b : Bool) (p' : Pc) : Type 0 where
  pub legal : IsPc max_loop p'
  pub keeps : stays max_loop p' ≡ b
  pub inside : came p' ≡ 1

module _ (max_loop i : ℕ) (within : i ≤ max_loop) where
  pub next_turn-Fits : Fits max_loop (ltb i max_loop) (next_turn max_loop i)
  next_turn-Fits = elim (Bool-cases (ltb i max_loop)) [
    | inl e ↦ rw e (record { legal = ground arith; keeps = refl; inside = refl })
    | inr e ↦ rw e (record { legal = tt; keeps = refl; inside = refl })
  ]

  pub schedule-Fits : (v : Vars) → Fits max_loop (ltb i max_loop) (schedule i v)
  schedule-Fits v = elim (Bool-cases (is_negative v.owner)) [
    | inl e ↦ rw e (record { legal = within; keeps = refl; inside = refl })
    | inr e ↦ rw e (record { legal = (within, omega arith); keeps = refl; inside = refl })
  ]

  executed-Fits : (v : Vars) → Fits max_loop true (executed max_loop i v)
  executed-Fits v = elim (Bool-cases (i == max_loop)) [
    | inl e ↦ rw e (record { legal = ground arith; keeps = refl; inside = refl })
    | inr e ↦ let more : ltb i max_loop ≡ true = ground arith in rw (e, ← more) (schedule-Fits v)
  ]

  pub next_inner-Fits : (k : ℕ) (v : Vars) → Fits max_loop true (next_inner max_loop i k v)
  next_inner-Fits k v = elim (Bool-cases (ltb k (npersig max_loop) && ltb i max_loop)) [
    | inl e ↦ rw e (record { legal = (ground arith, tt); keeps = refl; inside = refl })
    | inr e ↦ rw e (executed-Fits v)
  ]

  pub scan_from-Fits :
      (g : FutexGroup) (v : Vars) (n : ℕ)
      → (n < 33) ⊎ (n ≡ g.stop)
      → Fits max_loop (ltb i max_loop) (turn i v (scan_from g n))
  scan_from-Fits g v n h = elim (Bool-cases (n == g.stop)) [
    | inl e ↦ rw e (record { legal = (within, omega arith); keeps = refl; inside = refl })
    | inr e ↦ rw e (record { legal = (within, ground arith); keeps = refl; inside = refl })
  ]

  pub behind_barrier-Fits :
      (v : Vars) → Fits max_loop (ltb i max_loop) (turn i v (behind_barrier v))
  behind_barrier-Fits v = elim (Bool-cases v.leader) [
    | inl e ↦ rw e (record { legal = (within, omega arith); keeps = refl; inside = refl })
    | inr e ↦ rw e (record { legal = within; keeps = refl; inside = refl })
  ]

  pub either_point-Fits :
      (v : Vars) (b c : Bool) (p q : Point)
      → Fits max_loop b (turn i v p)
      → Fits max_loop b (turn i v q)
      → Fits max_loop b (turn i v (if c then p else q))
  either_point-Fits v b true p q f f' = f
  either_point-Fits v b false p q f f' = f'

  pub next_size-Fits :
      (v : Vars) (j n : ℕ) → j < 33 → Fits max_loop (ltb i max_loop) (turn i v (next_size j n))
  next_size-Fits v j n h = elim (Bool-cases (j + 1 == 33)) [
    | inl e ↦ rw e (record { legal = within; keeps = refl; inside = refl })
    | inr e ↦ rw e (record { legal = (within, ground arith); keeps = refl; inside = refl })
  ]
