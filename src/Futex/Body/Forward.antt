-- ===== src/Futex/Body/Forward.antt =====
-- Every access of a thread of racey-futex.c that is alone in its group brings it nearer to its end.
use mathlib.Core.Bool.{false≢true}
use mathlib.Core.Path.{subst}
use racey_suite.Prelude.{
  ℕ, zero, suc, ◌+◌, ◌-◌, ◌%◌, ◌≤◌, ◌<◌, ◌≡◌, ◌≢◌, ◌⊎◌, inl, inr, refl, pos, Bool, true, false,
  some, length, get_or, set, get_elem?, get_elem?-eq-get_or, set?-eq-set, get_or-set_self, arith,
  ltb, ◌==◌, if◌then◌else◌, ◌∙◌, sym, ap, Bool-cases, ℕ_discrete,
}
use racey_suite.Machine.{Turn, moved, waiting, halted, fault}
use racey_suite.Racey.{Mixing, fetch, Round, busy, over}
use racey_suite.Racey.Loop.{accesses}
use racey_suite.Signal.Move.{HasSizes, Sized, mix_step-Sized}
use racey_suite.Futex.{FutexGroup, is_live}
use racey_suite.Futex.Points.{
  Shared, Vars, Point, mixing, removing, adding, spinning_owner, spinning_round, checking, drawing,
  scanning, sizing, assigning, loading, storing, waking, waiting_round, asleep_round, Pc, passing,
  turn, same_int, behind_barrier, plus_one,
}
use racey_suite.Futex.Body.{
  is_ended, with_group, look_live, look_scan, look_size, after_mix, turn_step,
}
use racey_suite.Futex.Body.Fits.{IsPoint, stays_at}
use racey_suite.Futex.Body.Invariant.{no_group, group_at}
use racey_suite.Futex.Body.Alone.{
  MyOwner, LonePoint, work, Nearer, next_turn-Nearer, schedule-Nearer, next_inner-Nearer,
  scan_from-Nearer, next_size-Nearer,
}

-- A group whose one thread is `t`, present or not.
pub record IsSingle (t : ℕ) (g : FutexGroup) : Type 0 where
  pub begins : g.begin ≡ t
  pub ends : g.stop ≡ suc t
  pub sized : length g.threads ≡ 33
  pub others : (j : ℕ) → t ≢ j → get_or g.threads j 0 ≡ 0

accesses-pos : (q : Mixing) → 1 ≤ accesses q
accesses-pos fetch = omega arith
accesses-pos _ = omega arith

module _ (n max_loop t h : ℕ) (s : Shared) (low : 1 ≤ t) (few : t < 33) (sizes : HasSizes s.mem)
    (single : IsSingle t (group_at s h)) (room : h < length s.groups) where
  abbrev pub g : FutexGroup
  g = group_at s h

  -- What a turn of the thread at `p` leaves.
  abbrev pub Forward : Pc → Turn Shared Pc → Type 0
  Forward p (moved s' p') = Nearer max_loop t (group_at s' h).owner (work max_loop p) p'
  Forward p waiting = (p ≡ passing) × (s.arrived < n)
  Forward p halted = is_ended p ≡ true
  Forward p fault = ⊥

  pub entry : (k : ℕ) → k < 33 → get_elem? g.threads k ≡ some (get_or g.threads k 0)
  entry k small = get_elem?-eq-get_or g.threads k 0 (omega (arith, single.sized))

  -- A step that stores to the group.
  new_group :
      (bound : ℕ) (p' : Pc) (f : FutexGroup)
      → Nearer max_loop t f.owner bound p'
      → Nearer max_loop t (group_at (with_group s h f) h).owner bound p'
  new_group bound p' f near =
      subst (λ o. Nearer max_loop t o bound p')
        (sym (ap (λ f. f.owner) (get_or-set_self s.groups h f no_group room))) near

  module _ (i : ℕ) (v : Vars) (leads : v.leader ≡ true) (mine : MyOwner t v.owner) where
    module _ (member : is_live (get_or g.threads t 0) ≡ ltb i max_loop) where
      -- Only the thread itself is present, and that only while it has rounds left.
      absent : (k : ℕ) → get_or g.threads k 0 ≡ 0 → i < max_loop → t ≢ k
      absent k e more same =
          let left : ltb i max_loop ≡ true = ground arith in
          let gone : is_live (get_or g.threads t 0) ≡ false = rw (same, e) refl in
          false≢true (sym gone ∙ member ∙ left)

      present : (k x : ℕ) → get_or g.threads k 0 ≡ suc x → (t ≡ k) × (i < max_loop)
      present k x e = elim (ℕ_discrete t k) [
        | no other ↦ absurd (cc (single.others k other))
        | yes same ↦
            let live : is_live (get_or g.threads t 0) ≡ true = rw (same, e) refl in
            let left : ltb i max_loop ≡ true = sym member ∙ live in (same, ground arith)
      ]

      live-Forward :
          (k x : ℕ)
          → get_or g.threads k 0 ≡ x
          → (i ≤ max_loop) × (k < 33) × (i < max_loop → k ≤ t)
          → Forward (turn i v (checking k)) (look_live s i v k (some x))
      live-Forward k zero e (within, small, before) =
          let step : i < max_loop → k + 1 ≤ t =
            λ m. let apart : t ≢ k = absent k e m in let l : k ≤ t = before m in omega arith in
          elim (Bool-cases (k + 1 == 33)) [
            | inl f ↦ rw f (record {
              lone = (leads, mine, (within, λ m. absurd (ground (arith, step m))));
              less = omega arith;
            })
            | inr f ↦
                rw f (record {
                  lone = (leads, mine, (within, ground arith, step));
                  less = ground arith;
                })
          ]
      live-Forward k (suc x) e (within, small, before) = record {
        lone = (leads, mine, (present k x e).1);
        less = omega arith;
      }

      scan-Forward :
          (x : ℕ)
          → get_or g.threads t 0 ≡ x
          → i < max_loop
          → Forward (turn i v (scanning t)) (look_scan s g i v t (some x))
      scan-Forward zero e more = absurd (absent t e more refl)
      scan-Forward (suc x) e more = record {
        lone = (leads, mine, (omega arith, λ m. inl refl));
        less = omega arith;
      }

      size-Forward :
          (j m x : ℕ)
          → get_or g.threads j 0 ≡ x
          → i < max_loop
          → j < 33
          → m ≡ (if ltb t j then 1 else 0)
          → Forward (turn i v (sizing j m)) (look_size s i v j m (some x))
      size-Forward j m zero e more small counted =
          next_size-Nearer max_loop t i g.owner (omega arith) v leads mine j m more small few
            (ground (arith, absent j e more))
      size-Forward j m (suc x) e more small counted =
          next_size-Nearer max_loop t i g.owner (omega arith) v leads mine j (m + 1) more small few
            (ground (arith, present j x e))

  mix-Forward :
      (i k : ℕ) (v : Vars) (q : Mixing) (r : Round)
      → v.leader ≡ true
      → MyOwner t v.owner
      → i < max_loop
      → g.owner ≡ v.owner
      → Sized q r
      → Forward (turn i v (mixing k q)) (after_mix max_loop s i k v (some r))
  mix-Forward i k v q (busy mem q') leads mine more same (ok, legal, less) = record {
    lone = (leads, mine, (more, same));
    less = omega arith;
  }
  mix-Forward i k v q (over mem) leads mine more same ok =
      next_inner-Nearer max_loop t (suc i) g.owner (omega arith) v leads mine same _ (suc k)
        (omega (arith, accesses-pos q))

  -- The draw from a range of two.
  drawn :
      (num stop begin : ℕ)
      → stop ≡ suc t
      → begin ≡ t
      → (num % (stop - begin + 1) + begin ≡ t) ⊎ (num % (stop - begin + 1) + begin ≡ suc t)
  drawn num stop begin e f = let two : stop - begin + 1 ≡ 2 = omega arith in rw two (omega arith)

  pub turn-Forward :
      (spurious : Bool) (i : ℕ) (v : Vars) (p : Point)
      → IsPoint max_loop i p
      → is_live (get_or g.threads t 0) ≡ stays_at max_loop i p
      → v.leader ≡ true
      → MyOwner t v.owner
      → LonePoint max_loop t g.owner i v.owner p
      → Forward (turn i v p) (turn_step max_loop spurious t h s g i v p)
  unfolding turn_step
  turn-Forward spurious i v (mixing k q) legal member leads mine (more, same) =
      let (r, e, ok) = mix_step-Sized t s.mem q few sizes legal.1 in
      rw e (mix-Forward i k v q r leads mine more same ok)
  turn-Forward spurious i v removing legal member leads mine (last, same) =
      rw (set?-eq-set g.threads t 0 (omega (arith, single.sized))) (
        new_group _ _ (record g { threads = set g.threads t 0 })
          (schedule-Nearer max_loop t i g.owner (omega arith) v leads mine same _ (omega arith)))
  turn-Forward spurious i v adding legal member leads mine (within, same, e) =
      let zero_now : plus_one g.owner ≡ pos 0 = ap plus_one (same ∙ e) in
      new_group _ _ (record g { owner = plus_one g.owner })
        (record { lone = (leads, mine, (within, zero_now)); less = omega arith })
  turn-Forward spurious i v spinning_owner legal member leads mine (within, e) =
      let opened : same_int g.owner (pos 0) ≡ true = ap (λ z. same_int z (pos 0)) e in
      let first : behind_barrier v ≡ checking 0 =
        ap (λ (b : Bool). if b then checking 0 else waiting_round) leads in
      rw opened (
        subst
          (λ q. Nearer max_loop t g.owner (work max_loop (turn i v spinning_owner)) (turn i v q))
          (sym first)
          (record {
            lone = (leads, mine, (within, omega arith, λ m. omega arith));
            less = omega arith;
          }))
  turn-Forward spurious i v (checking k) legal member leads mine at =
      rw (entry k at.1) (live-Forward i v leads mine member k (get_or g.threads k 0) refl at)
  turn-Forward spurious i v drawing legal member leads mine more =
      let num = get_or s.mem.sig t 0 in
      rw (get_elem?-eq-get_or s.mem.sig t 0 (omega (arith, sizes.sigs))) (
        scan_from-Nearer max_loop t i g.owner (omega arith) v leads mine g _ more single.ends
          (drawn num g.stop g.begin single.ends single.begins))
  turn-Forward spurious i v (scanning k) legal member leads mine (more, e) =
      rw (e, entry t few) (scan-Forward i v leads mine member (get_or g.threads t 0) refl more)
  turn-Forward spurious i v (sizing j m) legal member leads mine (more, small, counted) =
      rw (entry j small)
        (size-Forward i v leads mine member j m (get_or g.threads j 0) refl more small counted)
  turn-Forward spurious i v (assigning z) legal member leads mine (within, ok) =
      new_group _ _ (record g { owner = z })
        (record { lone = (leads, mine, (within, ok)); less = omega arith })
  turn-Forward spurious i v loading legal member leads mine (within, ok) = record {
    lone = (leads, mine, (within, ok));
    less = omega arith;
  }
  turn-Forward spurious i v (storing r) legal member leads mine (within, ok) =
      new_group _ _ (record g { round = r + 1 })
        (record { lone = (leads, mine, (within, ok)); less = omega arith })
  turn-Forward spurious i v waking legal member leads mine (within, ok) =
      next_turn-Nearer max_loop t i g.owner within _ ok (omega arith)
  turn-Forward spurious i v spinning_round legal member leads mine at = elim at [ ]
  turn-Forward spurious i v waiting_round legal member leads mine at = elim at [ ]
  turn-Forward spurious i v asleep_round legal member leads mine at = elim at [ ]
