-- ===== src/Pipe.antt =====
-- The readers and writers of racey-forkpipe.c and racey-clonepipe.c, and what their `main` does
-- while they run. Thread 2 t - 1 is reader t, thread 2 t is writer t, and thread 2 NumProcs + 1 is
-- `main`. The system calls 318 and 319 of racey-forkpipe.c are taken to leave the state alone. The
-- values in a pipe are the `int` that were written to it and not yet read.
pub mod Role
pub mod Move
pub mod Effect
pub mod Invariant
pub mod Progress
pub mod Live
pub mod Result
use racey_suite.Prelude.{
  ℕ, zero, suc, ℤ, pos, negsuc, ◌+◌, ◌-◌, ◌*◌, ◌/◌, ◌%◌, Bool, true, false, ◌&&◌, Option, none,
  some, List, [], ◌∷◌, ◌++◌, length, get_elem?, ◌==◌, leb, ltb, if◌then◌else◌, update,
}
use racey_suite.Machine.{Turn, moved, waiting, halted, fault, Program, System}
use racey_suite.Outcome.{Outcome, returned, exited, unfinished, ◌>>=◌, ◌>>◌, access}
use racey_suite.Racey.{mix, prime1, prime2, sig_init}

-- The two programs: processes that inherit the pipes, and threads that share them.
pub data Kind : Type 0 where
  forked : Kind
  cloned : Kind

pub record Shared : Type 0 where
  -- what is in `inputs[t]` and in `output[t]`
  pub inputs : ℕ → List ℕ
  pub outputs : ℕ → List ℕ
  -- the writers that have not ended, and with them, in racey-forkpipe, their write ends
  pub writers : ℕ
  -- the readers of racey-forkpipe that have not closed their write ends
  pub copies : ℕ
  -- whether `main` has not closed its write ends of `inputs`
  pub main_open : Bool

-- Where a thread stands, with its variables `num` and `i`.
pub data Pc : Type 0 where
  reader_starts : Pc  -- before `num = sig[threadId]`
  closing : (num : ℕ) → Pc  -- before the unused pipes are closed
  reading : (num : ℕ) → Pc  -- before `read`
  sending : (num : ℕ) → Pc  -- before `write` to `output[threadId]`
  writer_starts : Pc  -- before `num = sig[threadId]`
  writing : (i num : ℕ) → Pc  -- before iteration `i`
  leaving : Pc  -- behind the main loop of a writer
  main_closes : Pc  -- before `main` closes its write ends
  ended : Pc

-- The loop that fills `buffer` from `k` on, with `left` values to go: the values, and `num`.
unfoldable pub fill_buffer : ℕ → ℕ → ℕ → List ℕ × ℕ
fill_buffer zero k num = ([], num)
fill_buffer (suc left) k num =
    let next = mix (mix num (k * prime1)) (prime2 / (k + 1)) in
    let (values, last) = fill_buffer left (k + 1) next in (next ∷ values, last)

-- `read` of at most `count` values: those, and what stays in the pipe.
unfoldable pub take_values : ℕ → List ℕ → List ℕ × List ℕ
take_values zero pipe = ([], pipe)
take_values (suc count) [] = ([], [])
take_values (suc count) (v ∷ pipe) =
    let (values, rest) = take_values count pipe in (v ∷ values, rest)

-- `for (k = 0; k < r / sizeof(*numbers); k++) num = mix(num, numbers[k])`.
unfoldable pub mix_all : List ℕ → ℕ → ℕ
mix_all [] num = num
mix_all (v ∷ numbers) num = mix_all numbers (mix num v)

-- Whether no write end of `inputs` is open.
abbrev pub at_end : Kind → Shared → Bool
at_end forked s = if s.main_open then false else s.writers == 0 && s.copies == 0
at_end cloned s = if s.main_open then false else true

-- The main loop of a reader around one `read`, from a pipe that holds `pipe`: `buffer` has room for
-- 32 values of 4 bytes, and `read` waits at an empty pipe while a write end is open.
abbrev pub read_turn : Shared → ℕ → ℕ → List ℕ → Bool → Turn Shared Pc
read_turn s t num [] true = moved s (sending (mix num 0))
read_turn s t num [] false = waiting
read_turn s t num (v ∷ pipe) closed =
    let (values, rest) = take_values 32 (v ∷ pipe) in
    moved (record s { inputs = update s.inputs t rest })
      (reading (mix_all values (mix num (4 * length values))))

-- The test `i < MaxLoop`.
unfoldable pub next_write : ℕ → ℕ → ℕ → Pc
next_write max_loop i num = if ltb i max_loop then writing i num else leaving

-- The pipe that a writer chooses.
abbrev pub target_of : ℕ → ℕ → ℕ
target_of num_procs num = num % num_procs + 1

-- The `write` of the 64 bytes of `buffer`, which waits until the pipe has room for them all.
abbrev pub write_turn : ℕ → ℕ → Shared → ℕ → ℕ → ℕ → List ℕ → Turn Shared Pc
write_turn capacity max_loop s t i num values =
    if leb (length (s.inputs t) + length values) capacity
    then moved (record s { inputs = update s.inputs t (s.inputs t ++ values) })
        (next_write max_loop (suc i) (mix num (4 * length values)))
    else waiting

-- What follows `num = sig[threadId]` in a reader; only processes have pipes of their own to close.
abbrev pub reader_begins : Kind → Shared → Option ℕ → Turn Shared Pc
reader_begins kind s none = fault
reader_begins forked s (some num) = moved s (closing num)
reader_begins cloned s (some num) = moved s (reading num)

abbrev pub writer_begins : ℕ → Shared → Option ℕ → Turn Shared Pc
writer_begins max_loop s none = fault
writer_begins max_loop s (some num) = moved s (next_write max_loop 0 num)

-- `main` of racey-forkpipe closes its ends at once, that of racey-clonepipe when it has joined the
-- writers.
abbrev pub main_may_close : Kind → Shared → Bool
main_may_close forked s = true
main_may_close cloned s = s.writers == 0

-- The thread's number for itself, `(i+1)/2`.
abbrev pub pipe_of : ℕ → ℕ
pipe_of tid = (tid + 1) / 2

unfoldable pub pipe_step : Kind → ℕ → ℕ → ℕ → Program Shared Pc
unfolding mix fill_buffer take_values mix_all next_write sig_init
pipe_step kind capacity num_procs max_loop tid s reader_starts =
    reader_begins kind s (get_elem? sig_init (pipe_of tid))
pipe_step kind capacity num_procs max_loop tid s (closing num) =
    moved (record s { copies = s.copies - 1 }) (reading num)
pipe_step kind capacity num_procs max_loop tid s (reading num) =
    read_turn s (pipe_of tid) num (s.inputs (pipe_of tid)) (at_end kind s)
pipe_step kind capacity num_procs max_loop tid s (sending num) =
    moved
      (record s { outputs = update s.outputs (pipe_of tid) (s.outputs (pipe_of tid) ++ num ∷ []) })
      ended
pipe_step kind capacity num_procs max_loop tid s writer_starts =
    writer_begins max_loop s (get_elem? sig_init (pipe_of tid))
pipe_step kind capacity num_procs max_loop tid s (writing i num) =
    let (values, last) = fill_buffer 16 0 num in
    write_turn capacity max_loop s (target_of num_procs last) i last values
pipe_step kind capacity num_procs max_loop tid s leaving =
    moved (record s { writers = s.writers - 1 }) ended
pipe_step kind capacity num_procs max_loop tid s main_closes =
    if main_may_close kind s then moved (record s { main_open = false }) ended else waiting
pipe_step kind capacity num_procs max_loop tid s ended = halted

abbrev pub is_ended : Pc → Bool
is_ended ended = true
is_ended _ = false

-- Where thread `tid` begins.
abbrev pub first_pc : ℕ → ℕ → Pc
first_pc num_procs tid =
    if ltb (2 * num_procs) tid
    then main_closes
    else if tid % 2 == 1
    then reader_starts
    else writer_starts

abbrev pub boot : Kind → ℕ → System Shared Pc
boot kind num_procs = record {
  shared = record {
    inputs = λ t. [];
    outputs = λ t. [];
    writers = num_procs;
    copies = elim kind [ forked ↦ num_procs | cloned ↦ 0 ];
    main_open = true;
  };
  locals = first_pc num_procs;
}

-- A `pipe` call, whose failure makes `main` return 1.
abbrev pub open_pipe : ℤ → Outcome (Unit {0})
open_pipe (pos r) = returned tt
open_pipe (negsuc r) = exited 1

-- The loop that opens the pipes from `i` on, by two calls each.
unfoldable pub open_pipes : (ℕ → ℤ) → ℕ → ℕ → Outcome (Unit {0})
open_pipes pipe i zero = returned tt
open_pipes pipe i (suc left) = do
  open_pipe (pipe (2 * i - 1))
  open_pipe (pipe (2 * i))
  open_pipes pipe (i + 1) left

-- `read` of one `int` from an output pipe when the readers have ended: at an empty pipe it returns
-- 0, and `main` returns 1, unless `main` has the write end open itself.
abbrev pub receive : Kind → List ℕ → Outcome ℕ
receive kind (num ∷ rest) = returned num
receive forked [] = exited 1
receive cloned [] = unfinished

-- `for(i = 1; i < NumProcs; i++)` over the output pipes, with `left` rounds to go.
unfoldable pub collect : Kind → (ℕ → List ℕ) → ℕ → ℕ → ℕ → Outcome ℕ
unfolding mix
collect kind outputs zero i mix_sig = returned mix_sig
collect kind outputs (suc left) i mix_sig = do
  num ← receive kind (outputs i)
  collect kind outputs left (i + 1) (mix 4 (mix num mix_sig))

unfoldable pub pipe_signature : Kind → ℕ → Shared → Outcome ℕ
unfolding collect sig_init
pipe_signature kind num_procs s = do
  mix_sig ← access (get_elem? sig_init 0)
  collect kind s.outputs (num_procs - 1) 1 mix_sig
