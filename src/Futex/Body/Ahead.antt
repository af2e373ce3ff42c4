-- ===== src/Futex/Body/Ahead.antt =====
-- Every access of a thread of racey-futex.c that is alone in its group brings it nearer to its end,
-- between its turns as well.
use mathlib.Core.Bool.{false≢true}
use racey_suite.Prelude.{
  ℕ, zero, suc, ◌+◌, ◌≤◌, ◌<◌, ◌≡◌, ◌≢◌, inl, inr, refl, ℤ, pos, negsuc, Bool, true, false, some,
  length, get_or, arith, ==_iff, leb, ◌==◌, ◌∙◌, sym, ap, Bool-cases, ℕ_discrete,
}
use racey_suite.Machine.{Turn, moved}
use racey_suite.Signal.Move.{HasSizes}
use racey_suite.Futex.{FutexGroup, is_live}
use racey_suite.Futex.Points.{
  Shared, Pc, arriving, passing, reading_owner, leading, reading_round, turn, waiting_owner,
  asleep_owner, mucking, ended, is_negative, my_turn, same_int,
}
use racey_suite.Futex.Body.{look_leader, body_step}
use racey_suite.Futex.Body.Fits.{IsPc, stays}
use racey_suite.Futex.Body.Invariant.{group_at}
use racey_suite.Futex.Body.Alone.{MyOwner, Lone, next_turn-Nearer, first_inner}
use racey_suite.Futex.Body.Forward.{IsSingle, Forward, entry, turn-Forward}

module _ (n max_loop t h : ℕ) (s : Shared) (low : 1 ≤ t) (few : t < 33) (sizes : HasSizes s.mem)
    (single : IsSingle t (group_at s h)) (room : h < length s.groups) where
  abbrev g : FutexGroup
  g = group_at s h

  abbrev Forwards : Pc → Turn Shared Pc → Type 0
  Forwards = Forward n max_loop t h s low few sizes single room

  my_turn-Forward :
      (i : ℕ)
      → i < max_loop
      → MyOwner t g.owner
      → Forwards (reading_owner i) (moved s (my_turn t i g.owner))
  my_turn-Forward i more (inl e) =
      let same : same_int g.owner (pos t) ≡ true =
        ap (λ z. same_int z (pos t)) e ∙ (==_iff t t).1 refl in
      rw same (record { lone = (more, refl, inl e, refl); less = omega arith })
  my_turn-Forward i more (inr e) =
      let other : same_int g.owner (pos t) ≡ false = ap (λ z. same_int z (pos t)) e in
      let negative : is_negative g.owner ≡ true = ap is_negative e in
      rw (other, negative) (record { lone = (more, refl, e, omega arith); less = omega arith })

  leader-Forward :
      (i k x : ℕ) (mine : ℤ)
      → get_or g.threads k 0 ≡ x
      → is_live (get_or g.threads t 0) ≡ true
      → (i < max_loop) × (g.owner ≡ mine) × (mine ≡ negsuc 0) × (k ≤ t)
      → Forwards (leading i mine k) (look_leader s t i mine k (some x))
  leader-Forward i k zero mine e live (more, same, alone, before) =
      let apart : t ≢ k = λ q. false≢true (sym (rw (q, e) refl) ∙ live) in
      let on : (k + 1 == 33) ≡ false = ground arith in
      rw on (record { lone = (more, same, alone, omega arith); less = omega arith })
  leader-Forward i k (suc x) mine e live (more, same, alone, before) = elim (ℕ_discrete t k) [
    | no other ↦ absurd (cc (single.others k other))
    | yes it ↦ record {
      lone = (more, same, inr alone, (==_iff k t).1 (sym it));
      less = omega arith;
    }
  ]

  pub body-Forward :
      (spurious : Bool) (p : Pc)
      → 1 ≤ max_loop
      → IsPc max_loop p
      → is_live (get_or g.threads t 0) ≡ stays max_loop p
      → Lone max_loop t g.owner p
      → Forwards p (body_step n max_loop spurious t h s p g)
  unfolding body_step
  body-Forward spurious arriving loops legal member mine = record {
    lone = mine;
    less = omega arith;
  }
  body-Forward spurious passing loops legal member mine = elim (Bool-cases (leb n s.arrived)) [
    | inl e ↦ rw e (next_turn-Nearer max_loop t 0 g.owner (omega arith) _ (λ m. mine) (omega arith))
    | inr e ↦ rw e (refl, ground arith)
  ]
  body-Forward spurious (reading_owner i) loops legal member (more, mine) =
      my_turn-Forward i more mine
  body-Forward spurious (leading i mine k) loops legal member at =
      rw (entry n max_loop t h s low few sizes single room k legal.1)
        (leader-Forward i k (get_or g.threads k 0) mine refl member at)
  body-Forward spurious (reading_round i mine leader) loops legal member (more, same, ok, leads) =
      rw (first_inner max_loop t i g.owner (omega arith) _ more)
        (record { lone = (leads, ok, (more, same)); less = omega arith })
  body-Forward spurious (turn i v p) loops legal member (leads, mine, at) =
      turn-Forward n max_loop t h s low few sizes single room spurious i v p legal member leads mine
        at
  body-Forward spurious ended loops legal member at = refl
  body-Forward spurious (waiting_owner i owner) loops legal member at = elim at [ ]
  body-Forward spurious (asleep_owner i) loops legal member at = elim at [ ]
  body-Forward spurious (mucking i) loops legal member at = elim at [ ]
