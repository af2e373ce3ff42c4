-- ===== src/Racey/Loop.antt =====
-- Well-formed memories, the legal points of the loop's body of the programs' `ThreadBody`, and what
-- one access does to them.
use racey_suite.Prelude.{
  ℕ, ◌%◌, ◌<◌, ◌≡◌, ◌≢◌, refl, some, length, get_or, set, get_elem?-eq-get_or, set?-eq-set,
  length-set, get_or-set_ne, length-tabulate, All, All-set, All-tabulate, arith, sym, ◌∙◌,
}
use racey_suite.Racey.{
  max_elem, prime1, mix, Memory, sig_init, m_init, Mixing, fetch, first, second, put, save, Round,
  busy, over, mix_step, mix_round, first_all, second_all, put_all, save_all,
}
use racey_suite.Racey.Mix.{mix-lt}

-- The sizes of the two arrays, and values that `mix` or the initialisers produce.
pub record IsMemory (mem : Memory) : Type 0 where
  pub sigs : length mem.sig ≡ 33
  pub cells : length mem.m ≡ max_elem
  pub small_sig : All (λ x. x < prime1) mem.sig
  pub small_m : All (λ x. x < prime1) mem.m

abbrev pub IsMixing : Mixing → Type 0
IsMixing fetch = Unit
IsMixing (first num) = Unit
IsMixing (second num) = Unit
IsMixing (put index2 num) = (index2 < max_elem) × (num < prime1)
IsMixing (save num) = num < prime1

-- `after` is well-formed, and has every `sig` of `before` but that of `tid`.
pub record Keeps (tid : ℕ) (before after : Memory) : Type 0 where
  pub formed : IsMemory after
  pub others : (j : ℕ) → j ≢ tid → get_or after.sig j 0 ≡ get_or before.sig j 0

-- The memory that the thread would leave if it finished its round alone.
abbrev pub completed : ℕ → Memory → Mixing → Memory
completed tid mem fetch = mix_round tid mem
completed tid mem (first num) = first_all tid mem num
completed tid mem (second num) = second_all tid mem num
completed tid mem (put index2 num) = put_all tid mem index2 num
completed tid mem (save num) = save_all tid mem num

-- The accesses that are left of the round.
abbrev pub accesses : Mixing → ℕ
accesses fetch = 5
accesses (first num) = 4
accesses (second num) = 3
accesses (put index2 num) = 2
accesses (save num) = 1

abbrev pub GoodRound : ℕ → Memory → Mixing → Round → Type 0
GoodRound tid mem p (busy after q) =
    Keeps tid mem after
    × IsMixing q
    × (completed tid after q ≡ completed tid mem p)
    × (accesses q < accesses p)
GoodRound tid mem p (over after) = Keeps tid mem after × (after ≡ completed tid mem p)

unchanged : (tid : ℕ) (mem : Memory) → IsMemory mem → Keeps tid mem mem
unchanged tid mem ok = record { formed = ok; others = λ j ne. refl }

-- In a well-formed memory, an access of thread `tid`, below 33, at a legal point of the loop's
-- body is in bounds, leaves a legal point, a well-formed memory and the `sig` of the other
-- threads, and does not change what the thread would leave if it finished its round alone.
pub mix_step_keeps :
    (tid : ℕ) (mem : Memory) (p : Mixing)
    → tid < 33
    → IsMemory mem
    → IsMixing p
    → (r : Round) × (mix_step tid mem p ≡ some r) × GoodRound tid mem p r
unfolding mix_step
mix_step_keeps tid mem fetch h ok q = (
  busy mem (first (get_or mem.sig tid 0)),
  rw (get_elem?-eq-get_or mem.sig tid 0 (omega (arith, ok.sigs))) refl,
  (unchanged tid mem ok, tt, unfold mix_round in refl, omega arith),
)
mix_step_keeps tid mem (first num) h ok q = (
  busy mem (second (mix num (get_or mem.m (num % max_elem) 0))),
  rw (get_elem?-eq-get_or mem.m (num % max_elem) 0 (omega (arith, ok.cells))) refl,
  (unchanged tid mem ok, tt, refl, omega arith),
)
mix_step_keeps tid mem (second num) h ok q = (
  busy mem (put (num % max_elem) (mix num (get_or mem.m (num % max_elem) 0))),
  rw (get_elem?-eq-get_or mem.m (num % max_elem) 0 (omega (arith, ok.cells))) refl,
  (unchanged tid mem ok, (omega arith, mix-lt num _), refl, omega arith),
)
mix_step_keeps tid mem (put index2 num) h ok q = (
  busy (record mem { m = set mem.m index2 num }) (save num),
  rw (set?-eq-set mem.m index2 num (omega (arith, ok.cells))) refl,
  (
    record {
      formed = record {
        sigs = ok.sigs;
        cells = length-set mem.m index2 num ∙ ok.cells;
        small_sig = ok.small_sig;
        small_m = All-set (λ x. x < prime1) mem.m index2 num ok.small_m q.1;
      };
      others = λ j ne. refl;
    },
    q.1,
    refl,
    omega arith,
  ),
)
mix_step_keeps tid mem (save num) h ok q = (
  over (record mem { sig = set mem.sig tid num }),
  rw (set?-eq-set mem.sig tid num (omega (arith, ok.sigs))) refl,
  (
    record {
      formed = record {
        sigs = length-set mem.sig tid num ∙ ok.sigs;
        cells = ok.cells;
        small_sig = All-set (λ x. x < prime1) mem.sig tid num ok.small_sig q;
        small_m = ok.small_m;
      };
      others = λ j ne. get_or-set_ne mem.sig tid j num 0 (λ e. ne (sym e));
    },
    refl,
  ),
)

-- The initial arrays are well-formed.
pub init-IsMemory : IsMemory (record { sig = sig_init; m = m_init })
unfolding sig_init
init-IsMemory = record {
  sigs = refl;
  cells = unfold m_init in length-tabulate (λ i. mix i i) 0 max_elem;
  small_sig = omega arith;
  small_m =
      unfold m_init in All-tabulate (λ x. x < prime1) (λ i. mix i i) (λ i. mix-lt i i) 0 max_elem;
}
