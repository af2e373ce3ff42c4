-- ===== src/Prelude/Words.antt =====
-- 32-bit words as bit patterns below 2 ^ 32: `unsigned`, and `int` read as its pattern.
use Prim.Native.Nat.{ℕ, ◌+◌, ◌-◌, ◌%◌, ◌^◌}

abbrev pub u32 : ℕ → ℕ
u32 n = n % 2 ^ 32

-- `x--` on a pattern; 2 ^ 32 is added first since `-` stops at 0.
abbrev pub decrement : ℕ → ℕ
decrement x = (x + 2 ^ 32 - 1) % 2 ^ 32
