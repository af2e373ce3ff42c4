-- ===== src/Signal/Keeps.antt =====
-- Every move of the threads of racey-signal.c keeps the invariant.
use mathlib.Core.Path.{subst}
use racey_suite.Prelude.{
  ℕ, ◌+◌, ◌*◌, ◌≤◌, ◌≡◌, refl, true, false, length, get_or, set, get_or-set_self, get_or-set_ne,
  length-set, arith, ◌∙◌, sym, ap, update, update-all, update-each, total, total-update, ℕ_discrete,
}
use racey_suite.Machine.{System}
use racey_suite.Signal.{Shared, Pc}
use racey_suite.Signal.Move.{
  HasSizes, IsPc, IsFrame, Move, store, install, pass, mixes, kills, leave, handle, deliver_to,
}
use racey_suite.Signal.Invariant.{
  Inv, in_loop-InLoop, kernel, came, back, inside, has_self, has_handler, is_gone, role_of,
  all_came, all_back,
}

module _ {n : ℕ} {c : System Shared Pc} (inv : Inv n c) (few : n ≤ 32) (i : ℕ) (low : 1 ≤ i)
    (high : i ≤ 2 * n) where
  open inv use {
    sizes, sizes2, selfs, counted, kernels, roles, legal, opened, stored, setup, pends, shut, gone,
    framed,
  }

  sum_after :
      (w : Pc → ℕ) (p p' : Pc)
      → c.locals i ≡ p
      → total w (2 * n) (update c.locals i p') + w p ≡ total w (2 * n) c.locals + w p'
  sum_after w p p' here = omega (arith, total-update w (2 * n) c.locals i p' low high, ap w here)

  -- Thread `i` goes from `p` to `p'`.
  record Mover (p p' : Pc) : Type 0 where
    here : c.locals i ≡ p
    came_sum :
        total came (2 * n) (update c.locals i p') + came p ≡ total came (2 * n) c.locals + came p'
    back_sum :
        total back (2 * n) (update c.locals i p') + back p ≡ total back (2 * n) c.locals + back p'

  mover : (p p' : Pc) → c.locals i ≡ p → Mover p p'
  mover p p' here = record {
    here = here;
    came_sum = sum_after came p p' here;
    back_sum = sum_after back p p' here;
  }

  -- The kernel stays the kernel.
  same_kernel : {p p' : Pc} {s : Shared} → Move n i c.shared p s p' → kernel p' ≡ kernel p
  same_kernel (pass {p'} h e q) = (in_loop-InLoop p' e).kernel
  same_kernel (mixes {p' = p'} ok e q) = (in_loop-InLoop p' e).kernel
  same_kernel (kills {p' = p'} t e q) = (in_loop-InLoop p' e).kernel
  same_kernel (store h) = refl
  same_kernel _ = refl

  Move-counted :
      {p p' : Pc} {s : Shared}
      → Move n i c.shared p s p'
      → Mover p p'
      → s.arrived + 2 * n
        ≡ total came (2 * n) (update c.locals i p') + total back (2 * n) (update c.locals i p')
  Move-counted (pass {p'} h e q) f =
      let l = in_loop-InLoop p' e in omega (arith, counted, f.came_sum, f.back_sum, l.came, l.back)
  Move-counted (mixes {p' = p'} ok e q) f =
      let l = in_loop-InLoop p' e in omega (arith, counted, f.came_sum, f.back_sum, l.came, l.back)
  Move-counted (kills {p' = p'} t e q) f =
      let l = in_loop-InLoop p' e in omega (arith, counted, f.came_sum, f.back_sum, l.came, l.back)
  Move-counted _ f = omega (arith, counted, f.came_sum, f.back_sum)

  Move-kernels :
      {p p' : Pc} {s : Shared}
      → Move n i c.shared p s p'
      → Mover p p'
      → total kernel (2 * n) (update c.locals i p') ≡ n
  Move-kernels {p} {p'} mv f = omega (arith, kernels, sum_after kernel p p' f.here, same_kernel mv)

  Move-roles :
      {p p' : Pc} {s : Shared}
      → Move n i c.shared p s p'
      → Mover p p'
      → (j : ℕ) → 1 ≤ j
      → j ≤ 2 * n
      → kernel (update c.locals i p' j) ≡ role_of n j
  Move-roles {p} {p'} mv f j l h =
      update-each (λ k q. kernel q ≡ role_of n k) c.locals i p'
        (same_kernel mv ∙ sym (ap kernel f.here) ∙ roles i low high) j (roles j l h)

  all_open :
      (k : ℕ)
      → 1 ≤ k
      → k ≤ 2 * n
      → (j : ℕ) → 1 ≤ j
      → j ≤ 2 * n
      → inside (c.locals k) ≡ true
      → came (c.locals j) ≡ 1
  all_open k a b j l r e = opened k a b e j l r

  Move-opened :
      {p p' : Pc} {s : Shared}
      → Move n i c.shared p s p'
      → Mover p p'
      → (k : ℕ) → 1 ≤ k
      → k ≤ 2 * n
      → inside (update c.locals i p' k) ≡ true
      → (j : ℕ) → 1 ≤ j
      → j ≤ 2 * n
      → came (update c.locals i p' j) ≡ 1
  Move-opened (pass {p'} h e q) f k a b d j l r =
      ground (arith, all_came inv h j l r, in_loop-InLoop p' e)
  Move-opened (mixes {p' = p'} ok e q) f k a b d j l r =
      ground (arith, opened i low high (rw f.here refl) j l r, in_loop-InLoop p' e)
  Move-opened (kills {p' = p'} t e q) f k a b d j l r =
      ground (arith, opened i low high (rw f.here refl) j l r, in_loop-InLoop p' e)
  Move-opened _ f k a b d j l r =
      ground
        (arith, all_open k a b j l r, all_open k a b i low high, all_open i low high j l r, f.here)

  Move-stored :
      {p p' : Pc} {s : Shared}
      → Move n i c.shared p s p'
      → Mover p p'
      → (j : ℕ) → 1 ≤ j
      → j ≤ n
      → has_self (update c.locals i p' j) ≡ true
      → get_or s.thread_selfs j false ≡ true
  Move-stored (store h) f j l r e = elim (ℕ_discrete i j) [
    | yes here ↦
        subst (λ k. get_or (set c.shared.thread_selfs i true) k false ≡ true) here
          (get_or-set_self c.shared.thread_selfs i true false h)
    | no other ↦
        get_or-set_ne c.shared.thread_selfs i j true false other ∙ stored j l r (ground arith)
  ]
  Move-stored (pass {p'} h d q) f j l r e = ground (arith, stored j l r, f.here)
  Move-stored (mixes {p' = p'} ok d q) f j l r e = ground (arith, stored j l r, f.here)
  Move-stored (kills {p' = p'} t d q) f j l r e = ground (arith, stored j l r, f.here)
  Move-stored _ f j l r e = ground (arith, stored j l r, f.here)

  Move-setup :
      {p p' : Pc} {s : Shared}
      → Move n i c.shared p s p'
      → Mover p p'
      → (j : ℕ) → has_handler (update c.locals i p' j) ≡ true
      → s.installed ≡ true
  Move-setup install f j e = refl
  Move-setup _ f j e = ground (arith, setup j, setup i, f.here)

  Move-pends :
      {p p' : Pc} {s : Shared}
      → Move n i c.shared p s p'
      → Mover p p'
      → (t : ℕ) → s.pending t ≡ true
      → s.installed ≡ true
  Move-pends install f t e = refl
  Move-pends (kills {p' = p'} target d q) f t e = setup i (rw f.here refl)
  Move-pends (deliver_to u small) f t e = ground (arith, pends t)
  Move-pends _ f t e = pends t e

  Move-shut :
      {p p' : Pc} {s : Shared}
      → Move n i c.shared p s p'
      → Mover p p'
      → (t : ℕ) → s.dead t ≡ true
      → (j : ℕ) → 1 ≤ j
      → j ≤ 2 * n
      → back (update c.locals i p' j) ≡ 1
  Move-shut (leave h) f t e j l r = ground (arith, all_back inv h j l r)
  Move-shut (pass {p'} h d q) f t e j l r =
      ground (arith, shut t e j l r, shut t e i low high, f.here)
  Move-shut (mixes {p' = p'} ok d q) f t e j l r =
      ground (arith, shut t e j l r, shut t e i low high, f.here)
  Move-shut (kills {p' = p'} u d q) f t e j l r =
      ground (arith, shut t e j l r, shut t e i low high, f.here)
  Move-shut _ f t e j l r = ground (arith, shut t e j l r, shut t e i low high, f.here)

  Move-gone :
      {p p' : Pc} {s : Shared}
      → Move n i c.shared p s p'
      → Mover p p'
      → (t : ℕ) → is_gone (update c.locals i p' t) ≡ true
      → s.dead t ≡ true
  Move-gone (leave h) f t e = ground (arith, gone t)
  Move-gone (pass {p'} h d q) f t e = ground (arith, gone t, (in_loop-InLoop p' d).live)
  Move-gone (mixes {p' = p'} ok d q) f t e = ground (arith, gone t, (in_loop-InLoop p' d).live)
  Move-gone (kills {p' = p'} u d q) f t e = ground (arith, gone t, (in_loop-InLoop p' d).live)
  Move-gone _ f t e = ground (arith, gone t, gone i, f.here)

  Move-IsPc : {p p' : Pc} {s : Shared} → Move n i c.shared p s p' → IsPc p → IsPc p'
  Move-IsPc (pass h e q) old = q
  Move-IsPc (mixes ok e q) old = q
  Move-IsPc (kills t e q) old = q
  Move-IsPc (handle mem frame ok q) old = old
  Move-IsPc _ old = tt

  Move-HasSizes : {p p' : Pc} {s : Shared} → Move n i c.shared p s p' → HasSizes s.mem
  Move-HasSizes (mixes ok e q) = ok
  Move-HasSizes (handle mem frame ok q) = record { sigs = sizes.sigs; cells = ok.cells }
  Move-HasSizes _ = sizes

  Move-sizes2 : {p p' : Pc} {s : Shared} → Move n i c.shared p s p' → length s.sig2 ≡ 33
  Move-sizes2 (handle mem frame ok q) = ok.sigs
  Move-sizes2 _ = sizes2

  Move-selfs : {p p' : Pc} {s : Shared} → Move n i c.shared p s p' → length s.thread_selfs ≡ 33
  Move-selfs (store h) = length-set c.shared.thread_selfs i true ∙ selfs
  Move-selfs _ = selfs

  Move-IsFrame :
      {p p' : Pc} {s : Shared} → Move n i c.shared p s p' → (t : ℕ) → IsFrame n t (s.frames t)
  Move-IsFrame (handle mem frame ok q) t =
      update-each (IsFrame n) c.shared.frames i frame q t (framed t)
  Move-IsFrame (deliver_to u small) t =
      update-each (IsFrame n) c.shared.frames u _ (small, tt) t (framed t)
  Move-IsFrame _ t = framed t

  -- A move of thread `i` keeps the invariant.
  pub Move-Inv :
      {s : Shared} {p' : Pc}
      → Move n i c.shared (c.locals i) s p'
      → Inv n (record { shared = s; locals = update c.locals i p' })
  Move-Inv {p'} mv =
      let f = mover (c.locals i) p' refl in
      record {
        sizes = Move-HasSizes mv;
        sizes2 = Move-sizes2 mv;
        selfs = Move-selfs mv;
        counted = Move-counted mv f;
        kernels = Move-kernels mv f;
        roles = Move-roles mv f;
        legal = update-all IsPc c.locals i p' (Move-IsPc mv (legal i)) legal;
        opened = Move-opened mv f;
        stored = Move-stored mv f;
        setup = Move-setup mv f;
        pends = Move-pends mv f;
        shut = Move-shut mv f;
        gone = Move-gone mv f;
        framed = Move-IsFrame mv;
      }
