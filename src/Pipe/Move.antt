-- ===== src/Pipe/Move.antt =====
-- What a turn of a thread over pipes may do.
use racey_suite.Prelude.{
  ℕ, zero, suc, ◌+◌, ◌-◌, ◌≤◌, ◌<◌, ◌≡◌, refl, Bool, true, false, some, List, [], ◌∷◌, ◌++◌, length,
  get_elem?-eq-get_or, arith, ap, leb, if◌then◌else◌, update, Bool-cases, inl, inr,
}
use racey_suite.Machine.{Turn, moved, waiting, halted, fault}
use racey_suite.Racey.{sig_init}
use racey_suite.Pipe.{
  Kind, forked, cloned, Shared, Pc, reader_starts, closing, reading, sending, writer_starts,
  writing, leaving, main_closes, ended, fill_buffer, take_values, at_end, read_turn, next_write,
  target_of, write_turn, reader_begins, main_may_close, pipe_of, pipe_step,
}
use racey_suite.Pipe.Role.{IsRole}

pub length-fill_buffer : (left k num : ℕ) → length (fill_buffer left k num).0 ≡ left
unfolding fill_buffer
length-fill_buffer zero k num = refl
length-fill_buffer (suc left) k num = ap suc (length-fill_buffer left (k + 1) _)

-- `read` hands over what it takes from the pipe.
pub length-take_values :
    (count : ℕ) (pipe : List ℕ)
    → length (take_values count pipe).0 + length (take_values count pipe).1 ≡ length pipe
unfolding take_values
length-take_values zero pipe = omega arith
length-take_values (suc count) [] = refl
length-take_values (suc count) (v ∷ pipe) = omega (arith, length-take_values count pipe)

-- The moves; `i` is the thread.
pub data Move (kind : Kind) (n max_loop i : ℕ) (s : Shared) : Pc → Shared → Pc → Type 0 where
  begin_process : {num : ℕ} → kind ≡ forked → Move kind n max_loop i s reader_starts s (closing num)
  begin_thread : {num : ℕ} → kind ≡ cloned → Move kind n max_loop i s reader_starts s (reading num)
  close :
      {num : ℕ}
      → Move kind n max_loop i s (closing num) (record s { copies = s.copies - 1 }) (reading num)
  finish :
      {num next : ℕ}
      → s.inputs (pipe_of i) ≡ []
      → at_end kind s ≡ true
      → Move kind n max_loop i s (reading num) s (sending next)
  take :
      {num next : ℕ} (rest : List ℕ)
      → length rest < length (s.inputs (pipe_of i))
      → Move kind n max_loop i s
          (reading num)
          (record s { inputs = update s.inputs (pipe_of i) rest })
          (reading next)
  send :
      (num : ℕ)
      → Move kind n max_loop i s
          (sending num)
          (record s { outputs = update s.outputs (pipe_of i) (s.outputs (pipe_of i) ++ num ∷ []) })
          ended
  begin_writer : (num : ℕ) → Move kind n max_loop i s writer_starts s (next_write max_loop 0 num)
  put :
      {a num : ℕ} (next t : ℕ) (values : List ℕ)
      → 1 ≤ t
      → t ≤ n
      → length values ≡ 16
      → Move kind n max_loop i s
          (writing a num)
          (record s { inputs = update s.inputs t (s.inputs t ++ values) })
          (next_write max_loop (suc a) next)
  leave : Move kind n max_loop i s leaving (record s { writers = s.writers - 1 }) ended
  main_close :
      main_may_close kind s ≡ true
      → Move kind n max_loop i s main_closes (record s { main_open = false }) ended

abbrev pub MoveOf : Kind → ℕ → ℕ → ℕ → Shared → Pc → Turn Shared Pc → Type 0
MoveOf kind n max_loop i s p (moved s' p') = Move kind n max_loop i s p s' p'
MoveOf kind n max_loop i s p waiting = Unit
MoveOf kind n max_loop i s p halted = Unit
MoveOf kind n max_loop i s p fault = ⊥

sig_init-length : length sig_init ≡ 33
unfolding sig_init
sig_init-length = refl

module _ (kind : Kind) (capacity n max_loop i : ℕ) (some_pipe : 1 ≤ n) (few : n ≤ 32)
    (s : Shared) where
  begin-MoveOf :
      (kind' : Kind) (num : ℕ)
      → kind ≡ kind'
      → MoveOf kind n max_loop i s reader_starts (reader_begins kind' s (some num))
  begin-MoveOf forked num e = begin_process e
  begin-MoveOf cloned num e = begin_thread e

  read-MoveOf :
      (num : ℕ) (pipe : List ℕ) (closed : Bool)
      → s.inputs (pipe_of i) ≡ pipe
      → at_end kind s ≡ closed
      → MoveOf kind n max_loop i s (reading num) (read_turn s (pipe_of i) num pipe closed)
  read-MoveOf num [] true e q = finish e q
  read-MoveOf num [] false e q = tt
  read-MoveOf num (v ∷ pipe) closed e q =
      take (take_values 32 (v ∷ pipe)).1
        (unfold take_values in omega (arith, ap length e, length-take_values 31 pipe))

  write-MoveOf :
      (a num last t : ℕ) (values : List ℕ)
      → 1 ≤ t
      → t ≤ n
      → length values ≡ 16
      → MoveOf kind n max_loop i s (writing a num) (write_turn capacity max_loop s t a last values)
  write-MoveOf a num last t values l h e =
      elim (Bool-cases (leb (length (s.inputs t) + length values) capacity)) [
        | inl room ↦ rw room (put _ t values l h e)
        | inr full ↦ rw full tt
      ]

  close-MoveOf :
      (b : Bool)
      → main_may_close kind s ≡ b
      → MoveOf kind n max_loop i s main_closes
          (if b then moved (record s { main_open = false }) ended else waiting)
  close-MoveOf true e = main_close e
  close-MoveOf false e = tt

  pub pipe_step-MoveOf :
      (p : Pc)
      → IsRole n max_loop i p
      → MoveOf kind n max_loop i s p (pipe_step kind capacity n max_loop i s p)
  unfolding pipe_step
  pipe_step-MoveOf reader_starts role =
      rw (get_elem?-eq-get_or sig_init (pipe_of i) 0 (omega (arith, sig_init-length)))
        (begin-MoveOf kind _ refl)
  pipe_step-MoveOf (closing num) role = close
  pipe_step-MoveOf (reading num) role = read-MoveOf num _ _ refl refl
  pipe_step-MoveOf (sending num) role = send num
  pipe_step-MoveOf writer_starts role =
      rw (get_elem?-eq-get_or sig_init (pipe_of i) 0 (omega (arith, sig_init-length)))
        (begin_writer _)
  pipe_step-MoveOf (writing a num) role =
      write-MoveOf a num (fill_buffer 16 0 num).1 (target_of n (fill_buffer 16 0 num).1)
        (fill_buffer 16 0 num).0 (omega arith) (grind arith) (length-fill_buffer 16 0 num)
  pipe_step-MoveOf leaving role = leave
  pipe_step-MoveOf main_closes role = close-MoveOf _ refl
  pipe_step-MoveOf ended role = tt
