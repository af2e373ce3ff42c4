-- ===== src/Signal/Invariant.antt =====
-- The invariant of the threads of racey-signal.c: how many have come to the barrier, who has stored
-- its `pthread_self()`, and which handlers run.
use racey_suite.Prelude.{
  ℕ, ◌+◌, ◌*◌, ◌≤◌, ◌≡◌, Bool, true, false, length, get_or, arith, leb, if◌then◌else◌, total,
  total-le, total_full, total_some, total-add, dec_le,
}
use racey_suite.Machine.{System}
use racey_suite.Signal.{
  Shared, Pc, storing_self, installing, arriving, passing, leaving, ended, delivering,
}
use racey_suite.Signal.Move.{HasSizes, IsPc, IsFrame, in_loop}

-- The kernel.
abbrev pub kernel : Pc → ℕ
kernel delivering = 1
kernel _ = 0

-- Whether a thread has come to the barrier once, and twice; the kernel counts as one that has.
abbrev pub came : Pc → ℕ
came storing_self = 0
came installing = 0
came arriving = 0
came _ = 1

abbrev pub back : Pc → ℕ
back leaving = 1
back ended = 1
back delivering = 1
back _ = 0

-- The same without the kernel.
abbrev pub returned_to : Pc → ℕ
returned_to leaving = 1
returned_to ended = 1
returned_to _ = 0

-- Behind the first barrier.
abbrev pub inside : Pc → Bool
inside passing = false
inside storing_self = false
inside installing = false
inside arriving = false
inside delivering = false
inside _ = true

-- Behind the store of `threadSelfs[threadId]`, and behind `sigaction`.
abbrev pub has_self : Pc → Bool
has_self storing_self = false
has_self delivering = false
has_self _ = true

abbrev pub has_handler : Pc → Bool
has_handler storing_self = false
has_handler installing = false
has_handler delivering = false
has_handler _ = true

abbrev pub is_gone : Pc → Bool
is_gone ended = true
is_gone _ = false

abbrev pub role_of : ℕ → ℕ → ℕ
role_of n tid = if leb tid n then 0 else 1

pub record Inv (n : ℕ) (c : System Shared Pc) : Type 0 where
  pub sizes : HasSizes c.shared.mem
  pub sizes2 : length c.shared.sig2 ≡ 33
  pub selfs : length c.shared.thread_selfs ≡ 33
  pub counted : c.shared.arrived + 2 * n ≡ total came (2 * n) c.locals + total back (2 * n) c.locals
  pub kernels : total kernel (2 * n) c.locals ≡ n
  pub roles : (i : ℕ) → 1 ≤ i → i ≤ 2 * n → kernel (c.locals i) ≡ role_of n i
  pub legal : (i : ℕ) → IsPc (c.locals i)
  pub opened :
      (i : ℕ)
      → 1 ≤ i
      → i ≤ 2 * n
      → inside (c.locals i) ≡ true
      → (j : ℕ) → 1 ≤ j
      → j ≤ 2 * n
      → came (c.locals j) ≡ 1
  pub stored :
      (i : ℕ)
      → 1 ≤ i
      → i ≤ n
      → has_self (c.locals i) ≡ true
      → get_or c.shared.thread_selfs i false ≡ true
  pub setup : (i : ℕ) → has_handler (c.locals i) ≡ true → c.shared.installed ≡ true
  pub pends : (t : ℕ) → c.shared.pending t ≡ true → c.shared.installed ≡ true
  pub shut : (t : ℕ) → c.shared.dead t ≡ true → (j : ℕ) → 1 ≤ j → j ≤ 2 * n → back (c.locals j) ≡ 1
  pub gone : (t : ℕ) → is_gone (c.locals t) ≡ true → c.shared.dead t ≡ true
  pub framed : (t : ℕ) → IsFrame n t (c.shared.frames t)

pub record InLoop (p : Pc) : Type 0 where
  pub came : came p ≡ 1
  pub back : back p ≡ 0
  pub kernel : kernel p ≡ 0
  pub inside : inside p ≡ true
  pub self : has_self p ≡ true
  pub live : is_gone p ≡ false

pub in_loop-InLoop : (p : Pc) → in_loop p ≡ true → InLoop p
in_loop-InLoop p e = record {
  came = ground arith;
  back = ground arith;
  kernel = ground arith;
  inside = ground arith;
  self = ground arith;
  live = ground arith;
}

came-inside : (p : Pc) → inside p ≡ true → came p ≡ 1
came-inside p e = ground arith

returned-inside : (p : Pc) → 1 ≤ returned_to p → inside p ≡ true
returned-inside p e = ground arith

module _ {n : ℕ} {c : System Shared Pc} (inv : Inv n c) where
  open inv use {counted, kernels, opened}

  -- When NumProcs threads have come to the barrier, all have.
  pub all_came : n ≤ c.shared.arrived → (j : ℕ) → 1 ≤ j → j ≤ 2 * n → came (c.locals j) ≡ 1
  all_came h j l k = elim (dec_le 1 (total returned_to (2 * n) c.locals)) [
    | yes more ↦
        let (i, a, b, w) = total_some returned_to (2 * n) c.locals more in
        opened i a b (returned-inside (c.locals i) w) j l k
    | no none_yet ↦
        total_full came (λ p. ground arith) (2 * n) c.locals
          (omega (
            arith,
            counted,
            kernels,
            total-le came (λ p. ground arith) (2 * n) c.locals,
            total-add back returned_to kernel (λ p. ground arith) (2 * n) c.locals,
          ))
          j l k
  ]

  -- When they have come twice as often, all have come back.
  pub all_back : 2 * n ≤ c.shared.arrived → (j : ℕ) → 1 ≤ j → j ≤ 2 * n → back (c.locals j) ≡ 1
  all_back h =
      total_full back (λ p. ground arith) (2 * n) c.locals
        (omega (
          arith,
          counted,
          total-le came (λ p. ground arith) (2 * n) c.locals,
          total-le back (λ p. ground arith) (2 * n) c.locals,
        ))
