-- ===== src/Futex/Body/Invariant.antt =====
-- What holds of the threads of racey-futex.c between two accesses, and that every access keeps it.
use racey_suite.Prelude.{
  ℕ, ◌+◌, ◌≤◌, ◌<◌, ◌≡◌, ◌≢◌, refl, Bool, true, false, List, [], length, get_or, set, pos,
  get_or-set_self, get_or-set_ne, length-set, arith, ◌∙◌, sym, ap, set-each, update, update-all,
  update-each, total, total-update, ℕ_discrete,
}
use racey_suite.Machine.{System}
use racey_suite.Signal.Move.{HasSizes}
use mathlib.Core.Logic.{if_pos, if_neg}
use racey_suite.Futex.{FutexGroup, is_live}
use racey_suite.Futex.Pick.{IsGroup}
use racey_suite.Futex.Init.{removed-IsGroup}
use racey_suite.Futex.Points.{Shared, Pc}
use racey_suite.Futex.Body.{with_group}
use racey_suite.Futex.Body.Fits.{IsPc, stays, came}
use racey_suite.Futex.Body.Move.{Move, arrives, passes, goes_on, writes, schedules, sleeps, removes}

-- What `get_or` gives for an index that is no group's.
abbrev pub no_group : FutexGroup
no_group = record { owner = pos 0; round = 0; threads = []; begin = 0; stop = 0 }

abbrev pub group_at : Shared → ℕ → FutexGroup
group_at s h = get_or s.groups h no_group

-- Whether thread `t` is present in its group.
abbrev pub is_member : (ℕ → ℕ) → Shared → ℕ → Bool
is_member home s t = is_live (get_or (group_at s (home t)).threads t 0)

pub record Inv (home : ℕ → ℕ) (n max_loop : ℕ) (c : System Shared Pc) : Type 0 where
  pub sizes : HasSizes c.shared.mem
  pub four : length c.shared.groups ≡ 4
  pub formed : (h : ℕ) → h < 4 → IsGroup (group_at c.shared h)
  pub counted : c.shared.arrived ≡ total came n c.locals
  pub legal : (t : ℕ) → IsPc max_loop (c.locals t)
  pub member : (t : ℕ) → 1 ≤ t → t ≤ n → is_member home c.shared t ≡ stays max_loop (c.locals t)

-- The groups with which the threads start: each finds itself in the one that is its home.
pub record IsStart (home : ℕ → ℕ) (n : ℕ) (gs : List FutexGroup) : Type 0 where
  pub four : length gs ≡ 4
  pub formed : (h : ℕ) → h < 4 → IsGroup (get_or gs h no_group)
  pub homes : (t : ℕ) → 1 ≤ t → t ≤ n → home t < 4
  pub member :
      (t : ℕ) → 1 ≤ t → t ≤ n → is_live (get_or (get_or gs (home t) no_group).threads t 0) ≡ true

module _ {home : ℕ → ℕ} {n max_loop : ℕ} {c : System Shared Pc} (inv : Inv home n max_loop c)
    (few : n ≤ 32) (homes : (t : ℕ) → 1 ≤ t → t ≤ n → home t < 4) (i : ℕ) (low : 1 ≤ i)
    (high : i ≤ n) where
  open inv use {sizes, four, formed, counted, legal, member}

  abbrev mine : FutexGroup
  mine = group_at c.shared (home i)

  abbrev is_member_of : ℕ → ℕ → Bool
  is_member_of h t = is_live (get_or (group_at c.shared h).threads t 0)

  abbrev Moves : Pc → Shared → Pc → Type 0
  Moves p s p' = Move n max_loop i (home i) c.shared mine p s p'

  room : home i < length c.shared.groups
  room = omega (arith, four, homes i low high)

  -- A change of the thread's own group.
  regroup {κ} :
      (P : ℕ → FutexGroup → Type κ) (g : FutexGroup)
      → P (home i) g
      → (h : ℕ) → (home i ≢ h → P h (group_at c.shared h))
      → P h (group_at (with_group c.shared (home i) g) h)
  regroup P g = set-each P c.shared.groups (home i) g no_group room

  Move-sizes : {p p' : Pc} {s : Shared} → Moves p s p' → HasSizes s.mem
  Move-sizes (writes mem ok inside fits) = ok
  Move-sizes _ = sizes

  Move-four : {p p' : Pc} {s : Shared} → Moves p s p' → length s.groups ≡ 4
  Move-four (schedules owner round inside fits) =
      length-set c.shared.groups (home i) (record mine { owner = owner; round = round }) ∙ four
  Move-four (removes fits) =
      length-set c.shared.groups (home i) (record mine { threads = set mine.threads i 0 }) ∙ four
  Move-four _ = four

  Move-formed : {p p' : Pc} {s : Shared} → Moves p s p' → (h : ℕ) → h < 4 → IsGroup (group_at s h)
  Move-formed (schedules owner round inside fits) h small =
      let ok = formed (home i) (homes i low high) in
      regroup (λ h g. IsGroup g) (record mine { owner = owner; round = round })
        (record {
          sized = ok.sized;
          ordered = ok.ordered;
          in_array = ok.in_array;
          in_range = ok.in_range;
        })
        h (λ e. formed h small)
  Move-formed (removes fits) h small =
      regroup (λ h g. IsGroup g) (record mine { threads = set mine.threads i 0 })
        (removed-IsGroup i mine (omega arith) (formed (home i) (homes i low high))).0 h
        (λ e. formed h small)
  Move-formed arrives h small = formed h small
  Move-formed (passes ready fits) h small = formed h small
  Move-formed (goes_on inside fits) h small = formed h small
  Move-formed (writes mem ok inside fits) h small = formed h small
  Move-formed (sleeps f inside fits) h small = formed h small

  Move-came :
      {p p' : Pc} {s : Shared} → Moves p s p' → s.arrived + came p ≡ c.shared.arrived + came p'
  Move-came arrives = omega arith
  Move-came (passes h fits) = omega (arith, fits.inside)
  Move-came (goes_on inside fits) = omega (arith, inside, fits.inside)
  Move-came (writes mem ok inside fits) = omega (arith, inside, fits.inside)
  Move-came (schedules owner round inside fits) = omega (arith, inside, fits.inside)
  Move-came (sleeps f inside fits) = omega (arith, inside, fits.inside)
  Move-came (removes fits) = omega (arith, fits.inside)

  Move-legal : {p p' : Pc} {s : Shared} → Moves p s p' → IsPc max_loop p'
  Move-legal arrives = tt
  Move-legal (passes h fits) = fits.legal
  Move-legal (goes_on inside fits) = fits.legal
  Move-legal (writes mem ok inside fits) = fits.legal
  Move-legal (schedules owner round inside fits) = fits.legal
  Move-legal (sleeps f inside fits) = fits.legal
  Move-legal (removes fits) = fits.legal

  -- Where the groups stay as they are, only the thread itself changes.
  keeps_member :
      (p p' : Pc)
      → c.locals i ≡ p
      → stays max_loop p' ≡ stays max_loop p
      → (t : ℕ) → 1 ≤ t
      → t ≤ n
      → is_member home c.shared t ≡ stays max_loop (update c.locals i p' t)
  keeps_member p p' here same t l h =
      update-each (λ k q. is_member home c.shared k ≡ stays max_loop q) c.locals i p'
        (member i low high ∙ ap (stays max_loop) here ∙ sym same) t (member t l h)

  -- The members of a group are those that its `threads` names.
  Move-member :
      {p p' : Pc} {s : Shared}
      → Moves p s p'
      → c.locals i ≡ p
      → (t : ℕ) → 1 ≤ t
      → t ≤ n
      → is_member home s t ≡ stays max_loop (update c.locals i p' t)
  Move-member arrives here t l h = keeps_member _ _ here refl t l h
  Move-member (passes {p'} ready fits) here t l h = keeps_member _ p' here fits.keeps t l h
  Move-member (goes_on {p' = p'} inside fits) here t l h = keeps_member _ p' here fits.keeps t l h
  Move-member (writes {p' = p'} mem ok inside fits) here t l h =
      keeps_member _ p' here fits.keeps t l h
  Move-member (sleeps {p' = p'} f inside fits) here t l h = keeps_member _ p' here fits.keeps t l h
  Move-member (schedules {p' = p'} owner round inside fits) here t l h =
      regroup (λ h g. is_live (get_or g.threads t 0) ≡ is_member_of h t)
        (record mine { owner = owner; round = round }) refl (home t) (λ e. refl)
      ∙ keeps_member _ p' here fits.keeps t l h
  Move-member (removes {p' = p'} fits) here t l h = elim (ℕ_discrete i t) [
    | yes same ↦ rw (if_pos _ same, ← same) (gone ∙ sym fits.keeps)
    | no other ↦ rw (if_neg _ other) (
        regroup (λ h g. is_live (get_or g.threads t 0) ≡ is_member_of h t)
          (record mine { threads = set mine.threads i 0 })
          (ap is_live (get_or-set_ne mine.threads i t 0 0 other)) (home t) (λ e. refl)
        ∙ member t l h)
  ]
    where
      gone :
          is_member home
            (with_group c.shared (home i) (record mine { threads = set mine.threads i 0 }))
            i
          ≡ false
      gone =
          rw
            (get_or-set_self c.shared.groups (home i)
              (record mine { threads = set mine.threads i 0 }) no_group room)
            (removed-IsGroup i mine (omega arith) (formed (home i) (homes i low high))).1

  pub Move-Inv :
      {p p' : Pc} {s : Shared}
      → Moves p s p'
      → c.locals i ≡ p
      → Inv home n max_loop (record { shared = s; locals = update c.locals i p' })
  Move-Inv {p} {p'} mv here = record {
    sizes = Move-sizes mv;
    four = Move-four mv;
    formed = Move-formed mv;
    counted =
        omega
          (arith, counted, Move-came mv, total-update came n c.locals i p' low high, ap came here);
    legal = update-all (IsPc max_loop) c.locals i p' (Move-legal mv) legal;
    member = Move-member mv here;
  }
