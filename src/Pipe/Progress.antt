-- ===== src/Pipe/Progress.antt =====
-- The measure by which the threads over pipes come nearer to their end, and which of them can make
-- a move: the reader of a full pipe, a thread that holds a write end, or `main`.
use racey_suite.Prelude.{
  ℕ, suc, ◌+◌, ◌-◌, ◌*◌, ◌≤◌, ◌<◌, ◌≡◌, refl, Bool, true, false, Option, none, some, List, [], ◌∷◌,
  ◌++◌, length, length-append, arith, total, total-update, ◌⊎◌,
}
use racey_suite.Machine.{Turn, waiting, halted}
use racey_suite.Pipe.{
  Kind, forked, cloned, Shared, Pc, reader_starts, closing, reading, sending, writer_starts,
  writing, leaving, main_closes, ended, at_end, next_write, main_may_close, pipe_of, pipe_step,
  read_turn, write_turn, reader_begins, writer_begins, target_of, fill_buffer,
}
use racey_suite.Pipe.Role.{IsRole}
use racey_suite.Pipe.Move.{
  Move, begin_process, begin_thread, close, finish, take, send, begin_writer, put, leave,
  main_close, length-fill_buffer,
}

abbrev pub work : ℕ → Pc → ℕ
work max_loop reader_starts = 4
work max_loop (closing num) = 3
work max_loop (reading num) = 2
work max_loop (sending num) = 1
work max_loop writer_starts = 17 * max_loop + 2
work max_loop (writing i num) = 17 * (max_loop - i) + 1
work max_loop leaving = 1
work max_loop main_closes = 1
work max_loop ended = 0

-- The values in the pipes.
abbrev pub left : ℕ → Shared → ℕ
left n s = total length n s.inputs

next_write-work :
    (max_loop i num : ℕ) → work max_loop (next_write max_loop i num) ≡ 17 * (max_loop - i) + 1
unfolding next_write
next_write-work max_loop i num = ground arith

-- A turn that moves takes values from a pipe, or brings the thread nearer to its end by more than
-- it puts into one.
pub Move-less :
    {kind : Kind} {n max_loop i : ℕ} {s s' : Shared} {p p' : Pc}
    → IsRole n max_loop i p
    → 1 ≤ i
    → Move kind n max_loop i s p s' p'
    → left n s' + work max_loop p' < left n s + work max_loop p
Move-less role lo (begin_process e) = omega arith
Move-less role lo (begin_thread e) = omega arith
Move-less role lo close = omega arith
Move-less role lo (finish e q) = omega arith
Move-less {n = n} {i = i} {s = s} role lo (take rest e) =
    omega (arith, total-update length n s.inputs (pipe_of i) rest (omega arith) (omega arith))
Move-less role lo (send num) = omega arith
Move-less {max_loop = m} role lo (begin_writer num) = omega (arith, next_write-work m 0 num)
Move-less {n = n} {max_loop = m} {s = s} role lo (put {a} next t values l h e) = omega (
  arith,
  next_write-work m (suc a) next,
  length-append {0} (s.inputs t) values,
  total-update length n s.inputs t (s.inputs t ++ values) l h,
)
Move-less role lo leave = omega arith
Move-less role lo (main_close e) = omega arith

abbrev pub is_idle : Turn Shared Pc → Bool
is_idle waiting = true
is_idle halted = true
is_idle _ = false

reader-busy : (kind : Kind) (s : Shared) (o : Option ℕ) → is_idle (reader_begins kind s o) ≡ false
reader-busy kind s none = refl
reader-busy forked s (some num) = refl
reader-busy cloned s (some num) = refl

writer-busy :
    (max_loop : ℕ) (s : Shared) (o : Option ℕ) → is_idle (writer_begins max_loop s o) ≡ false
writer-busy max_loop s none = refl
writer-busy max_loop s (some num) = refl

read-busy :
    (s : Shared) (t num : ℕ) (pipe : List ℕ) (closed : Bool)
    → (1 ≤ length pipe) ⊎ (closed ≡ true)
    → is_idle (read_turn s t num pipe closed) ≡ false
read-busy s t num [] true h = refl
read-busy s t num [] false h = ground arith
read-busy s t num (v ∷ pipe) closed h = refl

write-busy :
    (capacity max_loop : ℕ) (s : Shared) (t i num : ℕ) (values : List ℕ)
    → length (s.inputs t) + length values ≤ capacity
    → is_idle (write_turn capacity max_loop s t i num values) ≡ false
write-busy capacity max_loop s t i num values h = ground arith

-- What lets a thread make its move.
abbrev pub Ready : Kind → ℕ → ℕ → ℕ → Shared → Pc → Type 0
Ready kind capacity n tid s (reading num) =
    (1 ≤ length (s.inputs (pipe_of tid))) ⊎ (at_end kind s ≡ true)
Ready kind capacity n tid s (writing i num) =
    length (s.inputs (target_of n (fill_buffer 16 0 num).1)) + 16 ≤ capacity
Ready kind capacity n tid s main_closes = main_may_close kind s ≡ true
Ready kind capacity n tid s ended = ⊥
Ready kind capacity n tid s _ = Unit

pub pipe_step-busy :
    (kind : Kind) (capacity n max_loop tid : ℕ) (s : Shared) (p : Pc)
    → Ready kind capacity n tid s p
    → is_idle (pipe_step kind capacity n max_loop tid s p) ≡ false
unfolding pipe_step
pipe_step-busy kind capacity n max_loop tid s reader_starts r = reader-busy kind s _
pipe_step-busy kind capacity n max_loop tid s (closing num) r = refl
pipe_step-busy kind capacity n max_loop tid s (reading num) r = read-busy s _ _ _ _ r
pipe_step-busy kind capacity n max_loop tid s (sending num) r = refl
pipe_step-busy kind capacity n max_loop tid s writer_starts r = writer-busy max_loop s _
pipe_step-busy kind capacity n max_loop tid s (writing i num) r =
    write-busy capacity max_loop s (target_of n (fill_buffer 16 0 num).1) i _
      (fill_buffer 16 0 num).0 (omega (arith, length-fill_buffer 16 0 num))
pipe_step-busy kind capacity n max_loop tid s leaving r = refl
pipe_step-busy kind capacity n max_loop tid s main_closes r = rw r refl
pipe_step-busy kind capacity n max_loop tid s ended r = elim r [ ]
