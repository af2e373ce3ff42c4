-- ===== src/Gate/Move.antt =====
-- The turns of a thread as a relation: what they need and what they change.
use racey_suite.Prelude.{
  ℕ, ◌<◌, ◌≡◌, ◌≢◌, refl, Bool, true, false, Option, none, some, ◌==◌, decrement, arith, Bool-cases,
  inl, inr,
}
use racey_suite.Machine.{Turn, moved, waiting, halted, fault}
use racey_suite.Racey.{Memory}
use racey_suite.Racey.Loop.{IsMemory, Keeps}
use racey_suite.Loop.{Loop, done, next_round, loop_step}
use racey_suite.Loop.Laws.{IsLoop, is_done, loop_work, loop_result, loop_advances}
use racey_suite.Gate.{
  Shared, Pc, arriving, entering, counting, testing, releasing, spinning, inside, gate_step,
  acquire, lift_loop,
}

-- A legal point of the code.
abbrev pub IsPc : ℕ → Pc → Type 0
IsPc max_loop (inside l) = IsLoop max_loop l
IsPc max_loop _ = Unit

module _ (max_loop tid : ℕ) where
  pub data Move (s : Shared) : Pc → Shared → Pc → Type 0 where
    take : s.owner ≡ none → Move s arriving (record s { owner = some tid }) entering
    read : Move s entering s (counting s.start_counter)
    write :
        {counter : ℕ}
        → Move s (counting counter) (record s { start_counter = decrement counter }) testing
    test : Move s testing s releasing
    leave : Move s releasing (record s { owner = none }) spinning
    spin : s.start_counter ≢ 0 → Move s spinning s spinning
    pass : s.start_counter ≡ 0 → Move s spinning s (inside (next_round max_loop 0))
    mixes :
        {l l' : Loop} {after : Memory}
        → is_done l ≡ false
        → Keeps tid s.mem after
        → IsLoop max_loop l'
        → loop_work max_loop l' < loop_work max_loop l
        → loop_result max_loop tid after l' ≡ loop_result max_loop tid s.mem l
        → Move s (inside l) (record s { mem = after }) (inside l')

  abbrev pub MoveOf : Shared → Pc → Turn Shared Pc → Type 0
  MoveOf s p (moved s' p') = Move s p s' p'
  MoveOf s p waiting = Unit
  MoveOf s p halted = Unit
  MoveOf s p fault = ⊥

  acquire-MoveOf : (s : Shared) (o : Option ℕ) → s.owner ≡ o → MoveOf s arriving (acquire s tid o)
  acquire-MoveOf s none e = take e
  acquire-MoveOf s (some holder) e = tt

module _ (rest : ℕ → ℕ → Bool) (max_loop tid : ℕ) (total_rest : (i : ℕ) → rest tid i ≡ true)
    (in_range : tid < 33) where
  lift_loop-MoveOf :
      (s : Shared) (l : Loop) (b : Bool)
      → is_done l ≡ b
      → IsMemory s.mem
      → IsLoop max_loop l
      → MoveOf max_loop tid s (inside l) (lift_loop s (loop_step (rest tid) max_loop tid s.mem l))
  lift_loop-MoveOf s l false e ok legal =
      let a = loop_advances (rest tid) max_loop tid total_rest in_range s.mem l ok legal e in
      rw a.moves (mixes e a.keeps a.legal a.less a.same_result)
  lift_loop-MoveOf s done true e ok legal = unfold loop_step in tt
  lift_loop-MoveOf s (Loop.at i p) true e ok legal = cc

  -- At a legal point of a well-formed memory a turn is a move, a wait or the end.
  pub gate_step-MoveOf :
      (s : Shared) (p : Pc)
      → IsMemory s.mem
      → IsPc max_loop p
      → MoveOf max_loop tid s p (gate_step rest max_loop tid s p)
  unfolding gate_step
  gate_step-MoveOf s arriving ok legal = acquire-MoveOf max_loop tid s s.owner refl
  gate_step-MoveOf s entering ok legal = read
  gate_step-MoveOf s (counting counter) ok legal = write
  gate_step-MoveOf s testing ok legal = test
  gate_step-MoveOf s releasing ok legal = leave
  gate_step-MoveOf s spinning ok legal = elim (Bool-cases (s.start_counter == 0)) [
    | inl e ↦ rw e (pass (ground arith))
    | inr e ↦ rw e (spin (ground arith))
  ]
  gate_step-MoveOf s (inside l) ok legal = lift_loop-MoveOf s l (is_done l) refl ok legal
