-- ===== src/Racey.antt =====
-- What all programs of the suite share: `mix`, the arrays `sig` and `m`, the body of the main
-- loop, one access to shared memory at a time, and the signature that `main` computes at the end.
-- Values are 32-bit patterns: `m[i].value` is an `int`, but is only passed to `mix`, which takes
-- `unsigned`.
pub mod Mix
pub mod Loop
pub mod Signature
use racey_suite.Prelude.{
  ℕ, zero, suc, ◌+◌, ◌-◌, ◌*◌, ◌%◌, ◌^◌, List, Option, none, some, get_elem?, get_or, set?, set,
  tabulate, u32,
}
use racey_suite.Outcome.{Outcome, returned, ◌>>=◌, access}
use mathlib.Core.Option

abbrev pub max_elem : ℕ
max_elem = 64

abbrev pub prime1 : ℕ
prime1 = 103072243

abbrev pub prime2 : ℕ
prime2 = 103995407

-- Both operations on `unsigned` wrap.
unfoldable pub mix : ℕ → ℕ → ℕ
mix i j = u32 (i + u32 (j * prime2)) % prime1

-- `sig` and `m` (of which only the member `value` is used).
pub record Memory : Type 0 where
  pub sig : List ℕ
  pub m : List ℕ

unfoldable pub sig_init : List ℕ
sig_init = tabulate (λ i. i) 0 33

-- `for(i = 0; i < MAX_ELEM; i++) m[i].value = mix(i,i)`.
unfoldable pub m_init : List ℕ
unfolding mix
m_init = tabulate (λ i. mix i i) 0 max_elem

-- Where a thread stands in the body of the main loop, with its variables `num` and `index2`.
pub data Mixing : Type 0 where
  fetch : Mixing  -- before `num = sig[threadId]`
  first : (num : ℕ) → Mixing  -- before `num = mix(num, m[index1].value)`
  second : (num : ℕ) → Mixing  -- before `num = mix(num, m[index2].value)`
  put : (index2 num : ℕ) → Mixing  -- before `m[index2].value = num`
  save : (num : ℕ) → Mixing  -- before `sig[threadId] = num`

pub data Round : Type 0 where
  busy : Memory → Mixing → Round
  over : Memory → Round

-- One access of the body of the main loop; `none` is an access out of bounds.
unfoldable pub mix_step : ℕ → Memory → Mixing → Option Round
mix_step tid mem fetch = Option.map (λ num. busy mem (first num)) (get_elem? mem.sig tid)
mix_step tid mem (first num) =
    let index1 = num % max_elem in
    Option.map (λ v. busy mem (second (mix num v))) (get_elem? mem.m index1)
mix_step tid mem (second num) =
    let index2 = num % max_elem in
    Option.map (λ v. busy mem (put index2 (mix num v))) (get_elem? mem.m index2)
mix_step tid mem (put index2 num) =
    Option.map (λ m'. busy (record mem { m = m' }) (save num)) (set? mem.m index2 num)
mix_step tid mem (save num) =
    Option.map (λ sig'. over (record mem { sig = sig' })) (set? mem.sig tid num)

-- The accesses that are left of a round when no other thread comes between: from the last one up
-- to the whole body of the main loop, `mix_round`.
abbrev pub save_all : ℕ → Memory → ℕ → Memory
save_all tid mem num = record mem { sig = set mem.sig tid num }

abbrev pub put_all : ℕ → Memory → ℕ → ℕ → Memory
put_all tid mem index2 num = save_all tid (record mem { m = set mem.m index2 num }) num

abbrev pub second_all : ℕ → Memory → ℕ → Memory
second_all tid mem num =
    let index2 = num % max_elem in put_all tid mem index2 (mix num (get_or mem.m index2 0))

abbrev pub first_all : ℕ → Memory → ℕ → Memory
first_all tid mem num =
    let index1 = num % max_elem in second_all tid mem (mix num (get_or mem.m index1 0))

unfoldable pub mix_round : ℕ → Memory → Memory
mix_round tid mem = first_all tid mem (get_or mem.sig tid 0)

-- The main loop of thread `tid` with no other thread in between.
unfoldable pub mix_rounds : ℕ → ℕ → Memory → Memory
mix_rounds tid zero mem = mem
mix_rounds tid (suc left) mem = mix_rounds tid left (mix_round tid mem)

-- `for(i = 1; i < NumProcs; i++) mix_sig = mix(sig[i], mix_sig)`, with `left` rounds to go.
unfoldable pub mix_sigs : ℕ → ℕ → ℕ → List ℕ → Outcome ℕ
mix_sigs zero i mix_sig sig = returned mix_sig
mix_sigs (suc left) i mix_sig sig = do
  v ← access (get_elem? sig i)
  mix_sigs left (i + 1) (mix v mix_sig) sig

unfoldable pub signature : ℕ → List ℕ → Outcome ℕ
unfolding mix_sigs
signature num_procs sig = do v ← access (get_elem? sig 0); mix_sigs (num_procs - 1) 1 v sig
