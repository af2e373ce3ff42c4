-- ===== src/Pipe/Effect.antt =====
-- What one move over pipes does to the counts of write ends, to the pipes, and to the points at
-- which a thread may stand.
use racey_suite.Prelude.{
  ℕ, suc, ◌+◌, ◌≤◌, ◌≡◌, ◌≢◌, true, false, [], ◌∷◌, length, length-append, arith,
}
use racey_suite.Pipe.{Kind, cloned, Shared, Pc, writer_starts, at_end, next_write, main_may_close}
use racey_suite.Pipe.Role.{IsRole, writes, copies_of, opens, bit, reader_of, is_past, sent}
use racey_suite.Pipe.Move.{
  Move, begin_process, begin_thread, close, finish, take, send, begin_writer, put, leave,
  main_close,
}

next_write-writes : (max_loop i num : ℕ) → writes (next_write max_loop i num) ≡ 1
unfolding next_write
next_write-writes max_loop i num = ground arith

next_write-copies :
    (kind : Kind) (max_loop i num : ℕ) → copies_of kind (next_write max_loop i num) ≡ 0
unfolding next_write
next_write-copies kind max_loop i num = ground arith

next_write-opens : (max_loop i num : ℕ) → opens (next_write max_loop i num) ≡ 0
unfolding next_write
next_write-opens max_loop i num = ground arith

-- What a move does to the counts.
pub record Counts (kind : Kind) (s : Shared) (p : Pc) (s' : Shared) (p' : Pc) : Type 0 where
  pub writers : s'.writers + writes p ≡ s.writers + writes p'
  pub copies : s'.copies + copies_of kind p ≡ s.copies + copies_of kind p'
  pub open_ends : bit s'.main_open + opens p ≡ bit s.main_open + opens p'

pub Move-Counts :
    {kind : Kind} {n max_loop i : ℕ} {s s' : Shared} {p p' : Pc}
    → writes p ≤ s.writers
    → copies_of kind p ≤ s.copies
    → opens p ≤ bit s.main_open
    → Move kind n max_loop i s p s' p'
    → Counts kind s p s' p'
Move-Counts {kind} w c o (begin_process e) = ground arith
Move-Counts {kind} w c o (begin_thread e) = ground arith
Move-Counts {kind} w c o close = ground arith
Move-Counts {kind} w c o (finish e q) = ground arith
Move-Counts {kind} w c o (take rest e) = ground arith
Move-Counts {kind} w c o (send num) = ground arith
Move-Counts {kind} {max_loop = m} w c o (begin_writer num) =
    ground
      (arith, next_write-writes m 0 num, next_write-copies kind m 0 num, next_write-opens m 0 num)
Move-Counts {kind} {max_loop = m} w c o (put {a} next t values l h e) = ground (
  arith,
  next_write-writes m (suc a) next,
  next_write-copies kind m (suc a) next,
  next_write-opens m (suc a) next,
)
Move-Counts {kind} w c o leave = ground arith
Move-Counts {kind} w c o (main_close e) = ground arith

-- What a move does to the pipes of reader t, which thread `i` is or is not.
pub record Pipes (kind : Kind) (i : ℕ) (s : Shared) (p : Pc) (s' : Shared) (p' : Pc) (t : ℕ)
    : Type 0 where
  pub fewer : s'.writers ≤ s.writers
  pub stays_empty : s.writers ≡ 0 → reader_of t ≢ i → s.inputs t ≡ [] → s'.inputs t ≡ []
  pub ends : is_past p' ≡ true → reader_of t ≡ i → (s'.writers ≡ 0) × (s'.inputs t ≡ [])
  pub untouched : reader_of t ≢ i → s'.outputs t ≡ s.outputs t
  pub sends : reader_of t ≡ i → length (s'.outputs t) + sent p ≡ length (s.outputs t) + sent p'

next_write-not_past : (max_loop i num : ℕ) → is_past (next_write max_loop i num) ≡ false
unfolding next_write
next_write-not_past max_loop i num = ground arith

next_write-sent : (max_loop i num : ℕ) → sent (next_write max_loop i num) ≡ 0
unfolding next_write
next_write-sent max_loop i num = ground arith

pub Move-Pipes :
    {kind : Kind} {n max_loop i : ℕ} {s s' : Shared} {p p' : Pc} (t : ℕ)
    → 1 ≤ t
    → t ≤ n
    → IsRole n max_loop i p
    → writes p ≤ s.writers
    → (at_end kind s ≡ true → s.writers ≡ 0)
    → (reader_of t ≡ i → is_past p ≡ true → (s.writers ≡ 0) × (s.inputs t ≡ []))
    → Move kind n max_loop i s p s' p'
    → Pipes kind i s p s' p' t
Move-Pipes t lo hi role w end past (begin_process e) = ground arith
Move-Pipes t lo hi role w end past (begin_thread e) = ground arith
Move-Pipes t lo hi role w end past close = ground arith
Move-Pipes t lo hi role w end past (finish e q) = ground arith
Move-Pipes t lo hi role w end past (take rest e) = ground arith
Move-Pipes {s = s} t lo hi role w end past (send num) =
    ground (arith, length-append {0} (s.outputs t) (num ∷ []))
Move-Pipes {max_loop = m} t lo hi role w end past (begin_writer num) =
    ground (arith, next_write-not_past m 0 num, next_write-sent m 0 num)
Move-Pipes {max_loop = m} t lo hi role w end past (put {a} next u values l h e) =
    ground (arith, next_write-not_past m (suc a) next, next_write-sent m (suc a) next)
Move-Pipes t lo hi role w end past leave = ground arith
Move-Pipes t lo hi role w end past (main_close e) = ground arith

next_write-IsRole :
    (n max_loop i a num : ℕ)
    → IsRole n max_loop i writer_starts
    → IsRole n max_loop i (next_write max_loop a num)
unfolding next_write
next_write-IsRole n max_loop i a num role = ground arith

pub Move-IsRole :
    {kind : Kind} {n max_loop i : ℕ} {s s' : Shared} {p p' : Pc}
    → IsRole n max_loop i p
    → Move kind n max_loop i s p s' p'
    → IsRole n max_loop i p'
Move-IsRole role (begin_process e) = role
Move-IsRole role (begin_thread e) = role
Move-IsRole role close = role
Move-IsRole role (finish e q) = role
Move-IsRole role (take rest e) = role
Move-IsRole role (send num) = tt
Move-IsRole {n = n} {max_loop = m} {i = i} role (begin_writer num) =
    next_write-IsRole n m i 0 num role
Move-IsRole {n = n} {max_loop = m} {i = i} role (put {a} next u values l h e) =
    next_write-IsRole n m i (suc a) next role.0
Move-IsRole role leave = tt
Move-IsRole role (main_close e) = tt

pub Move-closed :
    {kind : Kind} {n max_loop i : ℕ} {s s' : Shared} {p p' : Pc}
    → (kind ≡ cloned → s.main_open ≡ false → s.writers ≡ 0)
    → Move kind n max_loop i s p s' p'
    → kind ≡ cloned
    → s'.main_open ≡ false
    → s'.writers ≡ 0
Move-closed h (begin_process e) k o = h k o
Move-closed h (begin_thread e) k o = h k o
Move-closed h close k o = h k o
Move-closed h (finish e q) k o = h k o
Move-closed h (take rest e) k o = h k o
Move-closed h (send num) k o = h k o
Move-closed h (begin_writer num) k o = h k o
Move-closed h (put next u values l hi e) k o = h k o
Move-closed h leave k o = omega (arith, h k o)
Move-closed {s = s} h (main_close e) k o =
    let clear : main_may_close cloned s ≡ true = rw k at e in ground arith
