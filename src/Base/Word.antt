-- ===== src/Base/Word.antt =====
-- Machine words: `uint32_t` and `uint8_t` values as numbers with their wrap-around, and the
-- `DIV_ROUND_UP` macro of code/kernel/inc/math.h.
use Prim.Native.Nat.{ℕ, ◌+◌, ◌-◌, ◌/◌, ◌%◌, ◌^◌}

-- The value of an expression of type `uint32_t`.
abbrev pub u32 : ℕ → ℕ
u32 n = n % 2 ^ 32

abbrev pub u8 : ℕ → ℕ
u8 n = n % 256

-- `a - b` on `uint32_t`, for operands below 2 ^ 32.
abbrev pub sub32 : ℕ → ℕ → ℕ
sub32 a b = (a + 2 ^ 32 - b) % 2 ^ 32

-- `DIV_ROUND_UP(X, STEP)` on `uint32_t` operands.
unfoldable pub div_round_up : ℕ → ℕ → ℕ
div_round_up x step = (x + step + 2 ^ 32 - 1) % 2 ^ 32 / step
