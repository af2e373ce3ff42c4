-- ===== src/Pipe/Result.antt =====
-- What the threads over pipes leave behind: all values read, one result of each reader, and the
-- signature over the results.
use racey_suite.Prelude.{
  ℕ, zero, ℤ, pos, suc, ◌+◌, ◌-◌, ◌*◌, ◌≤◌, ◌<◌, ◌≡◌, refl, true, List, [], ◌∷◌, length, get_or,
  arith, ap, ◌∙◌, sym, Bool-cases, inl, inr,
}
use racey_suite.Outcome.{Outcome, returned, unfinished, ◌>>=◌}
use racey_suite.Machine.{System, Reach, start, run_and_join, all_ended}
use racey_suite.Machine.Laws.{run_total, run_and_join_lem}
use racey_suite.Machine.Liveness.{can_end_after, can_join_after, all_ended-eq-true}
use racey_suite.Racey.{mix}
use racey_suite.Pipe.{
  Kind, Shared, Pc, ended, pipe_step, boot, is_ended, collect, receive, open_pipes, pipe_signature,
}
use racey_suite.Pipe.Role.{reader_of, is_past, sent}
use racey_suite.Pipe.Invariant.{Reach-Inv, pipe-IsSafe}
use racey_suite.Pipe.Progress.{work, left}
use racey_suite.Pipe.Live.{goes_on}

-- The signature as a fold over the results of the readers.
abbrev pub fold_outputs : ℕ → ℕ → ℕ → (ℕ → ℕ) → ℕ
fold_outputs zero i acc value = acc
fold_outputs (suc left) i acc value = fold_outputs left (i + 1) (mix 4 (mix (value i) acc)) value

receive_one :
    (kind : Kind) (output : List ℕ)
    → length output ≡ 1
    → receive kind output ≡ returned (get_or output 0 0)
receive_one kind [] e = absurd (omega (arith, e))
receive_one kind (num ∷ rest) e = refl

collect_lem :
    (kind : Kind) (outputs : ℕ → List ℕ) (left i acc : ℕ)
    → ((k : ℕ) → i ≤ k → k < i + left → length (outputs k) ≡ 1)
    → collect kind outputs left i acc
      ≡ returned (fold_outputs left i acc (λ k. get_or (outputs k) 0 0))
unfolding collect
collect_lem kind outputs zero i acc h = refl
collect_lem kind outputs (suc left) i acc h =
    rw (receive_one kind (outputs i) (h i (omega arith) (omega arith)))
      (collect_lem kind outputs left (i + 1) _ (λ k l lt. h k (omega arith) (omega arith)))

pub open_pipes_lem :
    (pipe : ℕ → ℤ) (i left : ℕ)
    → ((k : ℕ) → (r : ℕ) × (pipe k ≡ pos r))
    → open_pipes pipe i left ≡ returned tt
unfolding open_pipes
open_pipes_lem pipe i zero opens = refl
open_pipes_lem pipe i (suc left) opens =
    let (r, e) = opens (2 * i - 1) in
    let (q, f) = opens (2 * i) in rw (e, f) (open_pipes_lem pipe (i + 1) left opens)

ended-sent : (p : Pc) → is_ended p ≡ true → sent p ≡ 1
ended-sent ended e = refl
ended-sent p e = ground arith

module _ (kind : Kind) (capacity n max_loop : ℕ) where
  abbrev pub Reachable : System Shared Pc → Type 0
  Reachable c = Reach (pipe_step kind capacity n max_loop) (suc (2 * n)) (boot kind n) c

  -- The signature over the results in a state in which all have ended.
  abbrev pub IsPipeSignature : ℕ → Type 0
  IsPipeSignature v =
      (c : System Shared Pc) × Reachable c
      × (all_ended is_ended (suc (2 * n)) c.locals ≡ true)
      × (v ≡ fold_outputs (n - 1) 1 0 (λ t. get_or (c.shared.outputs t) 0 0))

  -- What a run of the threads and the signature come to.
  pub data PipeResult (o : Outcome ℕ) : Type 0 where
    prints : (v : ℕ) → IsPipeSignature v → o ≡ returned v → PipeResult o
    runs_on : o ≡ unfinished → PipeResult o

module _ (kind : Kind) (capacity n max_loop : ℕ) (some_pipe : 1 ≤ n) (few : n ≤ 32) where
  -- With 1 to 32 pipes, a reader that is behind its main loop has left nothing in its pipe, and no
  -- writer is running that could still write to it.
  pub pipe_drained :
      (c : System Shared Pc)
      → Reachable kind capacity n max_loop c
      → (t : ℕ) → 1 ≤ t
      → t ≤ n
      → is_past (c.locals (reader_of t)) ≡ true
      → (c.shared.writers ≡ 0) × (c.shared.inputs t ≡ [])
  pipe_drained c r t l h past =
      (Reach-Inv kind capacity n max_loop some_pipe few r).drained t l h past

  delivered_one :
      (c : System Shared Pc)
      → Reachable kind capacity n max_loop c
      → all_ended is_ended (suc (2 * n)) c.locals ≡ true
      → (t : ℕ) → 1 ≤ t
      → t ≤ n
      → length (c.shared.outputs t) ≡ 1
  delivered_one c r done t l h =
      (Reach-Inv kind capacity n max_loop some_pipe few r).delivered t l h
      ∙ ended-sent (c.locals (reader_of t)) (
          all_ended-eq-true is_ended (suc (2 * n)) c.locals done (reader_of t) (omega arith)
            (omega arith))

  -- When all have ended, every pipe is empty, each reader has sent one result, and `main` reads
  -- them all.
  pub signature_lem :
      (c : System Shared Pc)
      → Reachable kind capacity n max_loop c
      → all_ended is_ended (suc (2 * n)) c.locals ≡ true
      → pipe_signature kind n c.shared
        ≡ returned (fold_outputs (n - 1) 1 0 (λ t. get_or (c.shared.outputs t) 0 0))
  unfolding pipe_signature
  signature_lem c r done =
      collect_lem kind c.shared.outputs (n - 1) 1 0
        (λ t l h. delivered_one c r done t l (omega arith))

  pub run-PipeResult :
      (schedule : List ℕ)
      → PipeResult kind capacity n max_loop (
          run_and_join
            (pipe_step kind capacity n max_loop)
            is_ended
            (suc (2 * n))
            schedule
            (boot kind n)
          >>= λ last. pipe_signature kind n last)
  unfolding run_and_join
  run-PipeResult schedule =
      let (c, e, r) =
        run_total (pipe_step kind capacity n max_loop) (suc (2 * n))
          (pipe-IsSafe kind capacity n max_loop some_pipe few) schedule (boot kind n) start in
      elim (Bool-cases (all_ended is_ended (suc (2 * n)) c.locals)) [
        | inl done ↦ rw (e, done) (prints _ (c, r, done, refl) (signature_lem c r done))
        | inr live ↦ rw (e, live) (runs_on refl)
      ]

  module _ (room : 16 ≤ capacity) where
    -- With 1 to 32 pipes, each of which has room for the 16 values of one write, the readers, the
    -- writers and `main` can come to their end from every state that they reach.
    pub pipe_no_deadlock :
        (c : System Shared Pc)
        → Reachable kind capacity n max_loop c
        → (d : System Shared Pc) × Reach (pipe_step kind capacity n max_loop) (suc (2 * n)) c d
          × (all_ended is_ended (suc (2 * n)) d.locals ≡ true)
    pipe_no_deadlock c r =
        can_end_after (pipe_step kind capacity n max_loop) is_ended (left n) (work max_loop)
          (suc (2 * n))
          (λ d q. goes_on some_pipe few room (Reach-Inv kind capacity n max_loop some_pipe few q)) c
          r

    -- So some schedule gives a signature.
    pub run_can_return :
        (schedule : List ℕ) × (v : ℕ) × ((run_and_join
              (pipe_step kind capacity n max_loop)
              is_ended
              (suc (2 * n))
              schedule
              (boot kind n)
            >>= λ last. pipe_signature kind n last)
          ≡ returned v)
    run_can_return =
        let (is, s, e) =
          can_join_after (pipe_step kind capacity n max_loop) is_ended (left n) (work max_loop)
            (suc (2 * n))
            (λ d q.
              goes_on some_pipe few room (Reach-Inv kind capacity n max_loop some_pipe few q)) in
        let (c, r, done, same) =
          run_and_join_lem (pipe_step kind capacity n max_loop) is_ended (suc (2 * n)) is
            (boot kind n) e in
        (
          is,
          fold_outputs (n - 1) 1 0 (λ t. get_or (c.shared.outputs t) 0 0),
          rw e (ap (pipe_signature kind n) (sym same) ∙ signature_lem c r done),
        )
