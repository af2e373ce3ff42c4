-- ===== src/Pipe/Role.antt =====
-- The parts that the threads over pipes play, and how many of them hold a write end.
use racey_suite.Prelude.{
  ℕ, suc, ◌+◌, ◌-◌, ◌*◌, ◌%◌, ◌≤◌, ◌<◌, ◌≡◌, refl, Bool, true, false, total, total-pairs, total-suc,
  arith, ap,
}
use racey_suite.Pipe.{
  Kind, forked, cloned, Pc, reader_starts, closing, reading, sending, writer_starts, writing,
  leaving, main_closes, ended, first_pc,
}

-- A writer that has not ended.
abbrev pub writes : Pc → ℕ
writes writer_starts = 1
writes (writing i num) = 1
writes leaving = 1
writes _ = 0

-- A reader that has write ends to close.
abbrev pub copies_of : Kind → Pc → ℕ
copies_of kind (closing num) = 1
copies_of forked reader_starts = 1
copies_of kind _ = 0

-- `main` before it closes its write ends.
abbrev pub opens : Pc → ℕ
opens main_closes = 1
opens _ = 0

abbrev pub bit : Bool → ℕ
bit true = 1
bit false = 0

-- The thread that reads `inputs[t]`.
abbrev pub reader_of : ℕ → ℕ
reader_of t = 2 * t - 1

abbrev IsReader : ℕ → ℕ → Type 0
IsReader n tid = (tid % 2 ≡ 1) × (tid ≤ 2 * n)

abbrev IsWriter : ℕ → ℕ → Type 0
IsWriter n tid = (tid % 2 ≡ 0) × (1 ≤ tid) × (tid ≤ 2 * n)

-- The points at which thread `tid` may stand.
abbrev pub IsRole : ℕ → ℕ → ℕ → Pc → Type 0
IsRole n max_loop tid reader_starts = IsReader n tid
IsRole n max_loop tid (closing num) = IsReader n tid
IsRole n max_loop tid (reading num) = IsReader n tid
IsRole n max_loop tid (sending num) = IsReader n tid
IsRole n max_loop tid writer_starts = IsWriter n tid
IsRole n max_loop tid (writing i num) = IsWriter n tid × (i < max_loop)
IsRole n max_loop tid leaving = IsWriter n tid
IsRole n max_loop tid main_closes = tid ≡ suc (2 * n)
IsRole n max_loop tid ended = Unit

-- A reader behind its main loop, or a thread at its end.
abbrev pub is_past : Pc → Bool
is_past (sending num) = true
is_past ended = true
is_past _ = false

-- The values that a reader has sent.
abbrev pub sent : Pc → ℕ
sent ended = 1
sent _ = 0

module _ (n : ℕ) where
  -- How the threads begin.
  first_reader : (t : ℕ) → t < n → first_pc n (suc (2 * t)) ≡ reader_starts
  first_reader t h = ground arith

  first_writer : (t : ℕ) → t < n → first_pc n (suc (suc (2 * t))) ≡ writer_starts
  first_writer t h = ground arith

  first_main : first_pc n (suc (2 * n)) ≡ main_closes
  first_main = ground arith

  total-first :
      (w : Pc → ℕ) (a : ℕ)
      → w reader_starts + w writer_starts ≡ a
      → total w (suc (2 * n)) (first_pc n) ≡ n * a + w main_closes
  total-first w a h = omega (
    arith,
    total-suc w (2 * n) (first_pc n),
    total-pairs w (first_pc n) a n (λ t lt. rw (first_reader t lt, first_writer t lt) h),
    ap w first_main,
  )

  pub writes-first : total writes (suc (2 * n)) (first_pc n) ≡ n
  writes-first = omega (arith, total-first writes 1 refl)

  pub copies-first : total (copies_of forked) (suc (2 * n)) (first_pc n) ≡ n
  copies-first = omega (arith, total-first (copies_of forked) 1 refl)

  pub copies-none : total (copies_of cloned) (suc (2 * n)) (first_pc n) ≡ 0
  copies-none = omega (arith, total-first (copies_of cloned) 0 refl)

  pub opens-first : total opens (suc (2 * n)) (first_pc n) ≡ 1
  opens-first = omega (arith, total-first opens 0 refl)

  pub first-IsRole :
      (max_loop tid : ℕ) → 1 ≤ tid → tid ≤ suc (2 * n) → IsRole n max_loop tid (first_pc n tid)
  first-IsRole max_loop tid low high = ground arith

  pub first-not_past : (tid : ℕ) → is_past (first_pc n tid) ≡ false
  first-not_past tid = ground arith

  pub first-not_sent : (tid : ℕ) → sent (first_pc n tid) ≡ 0
  first-not_sent tid = ground arith
