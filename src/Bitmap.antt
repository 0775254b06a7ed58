-- ===== src/Bitmap.antt =====
-- code/kernel/src/bitmap.c: the bit array behind the memory pools, one bit for each page.
-- `bits` is the memory from the address of the backing storage on, a byte for each offset, so that
-- an access past `len` is an access to the bytes that follow. An `int` result of -1 is `none`.
pub mod Bits
pub mod Search
pub mod Acquire
pub mod Release
pub mod Reference
mod Tests
use k_os.Base.{
  ℕ, zero, suc, ◌+◌, ◌-◌, ◌*◌, ◌/◌, ◌%◌, ◌^◌, ◌≤◌, ◌<◌, ◌≡◌, Bool, true, false, not, ◌&&◌, ◌||◌,
  Option, none, some, ltb, ◌==◌, if◌then◌else◌, update, bit_and,
}
use k_os.Base.Bits.{bit_test, bit_set, bit_clear}
use k_os.Base.Word.{u32, sub32}

-- `struct bitmap`
pub record Bitmap : Type 0 where
  pub len : ℕ
  pub bits : ℕ → ℕ

-- `bitmap_init`: binds the storage, and clears nothing.
unfoldable pub bitmap_init : (storage : ℕ → ℕ) → ℕ → Bitmap
bitmap_init storage len = record { len = len; bits = storage }

-- `memset` of the storage, `n` bytes from its start.
fill_zero : (ℕ → ℕ) → ℕ → ℕ → ℕ
fill_zero m zero = m
fill_zero m (suc n) = update (fill_zero m n) n 0

unfoldable pub bitmap_reset : Bitmap → Bitmap
unfolding fill_zero
bitmap_reset b = record b { bits = fill_zero b.bits b.len }

unfoldable pub bitmap_set : Bitmap → ℕ → Bool → Bitmap
bitmap_set b idx value =
    let byte_idx = idx / 8 in
    let bit_idx = idx % 8 in
    if value
    then record b { bits = update b.bits byte_idx (bit_set (b.bits byte_idx) bit_idx) }
    else record b { bits = update b.bits byte_idx (bit_clear (b.bits byte_idx) bit_idx) }

unfoldable pub bitmap_check : Bitmap → ℕ → Bool
bitmap_check b idx = bit_test (b.bits (idx / 8)) (idx % 8)

-- The first loop: skips the bytes that are 0xff. The byte is read before the bound is tested.
unfoldable pub byte_search : ℕ → Bitmap → ℕ → ℕ
byte_search zero b byte_idx = byte_idx
byte_search (suc fuel) b byte_idx =
    let next = byte_search fuel b (byte_idx + 1) in
    if (b.bits byte_idx == 255) && ltb byte_idx b.len then next else byte_idx

-- The second loop: the first clear bit of a byte. The mask is cut to `uint8_t`.
unfoldable pub bit_search : ℕ → ℕ → ℕ → ℕ
bit_search zero byte bit_idx = bit_idx
bit_search (suc fuel) byte bit_idx =
    let next = bit_search fuel byte (bit_idx + 1) in
    if bit_and (2 ^ bit_idx % 256) byte == 0 then bit_idx else next

-- The third loop: counts clear bits in a row until there are `cnt`.
unfoldable pub run_search : ℕ → Bitmap → (cnt total idx free_cnt : ℕ) → Option ℕ
run_search zero b cnt total idx free_cnt = none
run_search (suc fuel) b cnt total idx free_cnt =
    let now = (if bitmap_check b idx then 0 else free_cnt + 1) in
    let next = run_search fuel b cnt total (idx + 1) now in
    if ltb idx total then if now == cnt then some (u32 (sub32 idx now + 1)) else next else none

-- The last loop: sets `cnt` bits from `idx` on.
unfoldable pub set_run : ℕ → Bitmap → ℕ → Bitmap
set_run zero b idx = b
set_run (suc cnt) b idx = set_run cnt (bitmap_set b idx true) (idx + 1)

unfoldable pub bitmap_acquire : Bitmap → ℕ → Option ℕ × Bitmap
bitmap_acquire b cnt =
    let byte_idx = byte_search (b.len + 1) b 0 in
    let free_idx = byte_idx * 8 + bit_search 9 (b.bits byte_idx) 0 in
    let total = u32 (b.len * 8) in
    let found = run_search (total + 1) b cnt total (free_idx + 1) 1 in
    if byte_idx == b.len
    then (none, b)
    else if cnt == 1
    then (some free_idx, bitmap_set b free_idx true)
    else (found, elim found [ none ↦ b | some idx ↦ set_run cnt b idx ])

-- `none` is the failed assertion, a kernel panic.
unfoldable pub bitmap_release : Bitmap → ℕ → ℕ → Option Bitmap
bitmap_release b idx zero = some b
bitmap_release b idx (suc cnt) =
    let rest = bitmap_release (bitmap_set b idx false) (idx + 1) cnt in
    if bitmap_check b idx then rest else none
