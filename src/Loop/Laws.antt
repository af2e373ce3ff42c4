-- ===== src/Loop/Laws.antt =====
-- The legal points of the main loop, and what a turn of a thread does to the memory there.
use racey_suite.Prelude.{
  ℕ, suc, ◌+◌, ◌-◌, ◌*◌, ◌≤◌, ◌<◌, ◌≡◌, refl, Bool, true, false, some, ltb, arith, ap, ◌∙◌,
  Bool-cases, inl, inr,
}
use racey_suite.Machine.{moved}
use racey_suite.Racey.{Memory, Mixing, fetch, Round, busy, over, mix_step, mix_rounds}
use racey_suite.Racey.Loop.{
  IsMemory, IsMixing, Keeps, completed, accesses, GoodRound, mix_step_keeps,
}
use racey_suite.Loop.{Loop, at, done, next_round, after_access, loop_step}

-- A legal point of the loop.
abbrev pub IsLoop : ℕ → Loop → Type 0
IsLoop max_loop (at i p) = (i < max_loop) × IsMixing p
IsLoop max_loop done = Unit

-- The accesses that are left of the loop.
abbrev pub loop_work : ℕ → Loop → ℕ
loop_work max_loop (at i p) = 5 * (max_loop - suc i) + accesses p
loop_work max_loop done = 0

-- The memory that the thread would leave if it went on alone to the end of its loop.
abbrev pub loop_result : ℕ → ℕ → Memory → Loop → Memory
loop_result max_loop tid mem (at i p) = mix_rounds tid (max_loop - suc i) (completed tid mem p)
loop_result max_loop tid mem done = mem

abbrev pub is_done : Loop → Bool
is_done (at i p) = false
is_done done = true

accesses-pos : (p : Mixing) → 1 ≤ accesses p
accesses-pos fetch = omega arith
accesses-pos _ = omega arith

pub next_round-IsLoop : (max_loop i : ℕ) → IsLoop max_loop (next_round max_loop i)
unfolding next_round
next_round-IsLoop max_loop i = ground arith

pub work-next_round :
    (max_loop i : ℕ) → loop_work max_loop (next_round max_loop i) ≡ 5 * (max_loop - i)
unfolding next_round
work-next_round max_loop i = ground arith

pub next_round_result :
    (max_loop tid i : ℕ) (mem : Memory)
    → loop_result max_loop tid mem (next_round max_loop i) ≡ mix_rounds tid (max_loop - i) mem
unfolding next_round mix_rounds
next_round_result max_loop tid i mem = elim (Bool-cases (ltb i max_loop)) [
  | inl below ↦
      let more : max_loop - i ≡ suc (max_loop - suc i) = ground arith in rw (below, more) refl
  | inr last ↦ let none_left : max_loop - i ≡ 0 = ground arith in rw (last, none_left) refl
]

module _ (rest : ℕ → Bool) (max_loop tid : ℕ) (total_rest : (i : ℕ) → rest i ≡ true)
    (in_range : tid < 33) where
  -- What a turn in the loop does.
  pub record Advance (mem : Memory) (l : Loop) : Type 0 where
    pub memory : Memory
    pub local : Loop
    pub moves : loop_step rest max_loop tid mem l ≡ moved memory local
    pub keeps : Keeps tid mem memory
    pub legal : IsLoop max_loop local
    pub less : loop_work max_loop local < loop_work max_loop l
    pub same_result : loop_result max_loop tid memory local ≡ loop_result max_loop tid mem l

  access_advances :
      (mem : Memory) (i : ℕ) (p : Mixing)
      → i < max_loop
      → (r : Round) → mix_step tid mem p ≡ some r
      → GoodRound tid mem p r
      → Advance mem (at i p)
  unfolding loop_step
  access_advances mem i p h (busy after q) e (kept, legal, same, less) = record {
    memory = after;
    local = at i q;
    moves = ap (after_access rest max_loop i) e;
    keeps = kept;
    legal = (h, legal);
    less = omega arith;
    same_result = ap (mix_rounds tid (max_loop - suc i)) same;
  }
  access_advances mem i p h (over after) e (kept, same) = record {
    memory = after;
    local = next_round max_loop (suc i);
    moves = ap (after_access rest max_loop i) e ∙ rw (total_rest i) refl;
    keeps = kept;
    legal = next_round-IsLoop max_loop (suc i);
    less = omega (arith, work-next_round max_loop (suc i), accesses-pos p);
    same_result =
        next_round_result max_loop tid (suc i) after ∙ ap (mix_rounds tid (max_loop - suc i)) same;
  }

  pub loop_advances :
      (mem : Memory) (l : Loop)
      → IsMemory mem
      → IsLoop max_loop l
      → is_done l ≡ false
      → Advance mem l
  loop_advances mem (at i p) ok legal e =
      let (r, q, good) = mix_step_keeps tid mem p in_range ok legal.1 in
      access_advances mem i p legal.0 r q good
  loop_advances mem done ok legal e = cc
