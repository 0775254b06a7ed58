-- ===== src/Bitmap/Bits.antt =====
-- What one call of `bitmap_set`, and a run of them, does to every bit of a bitmap.
use k_os.Base.{
  ℕ, zero, suc, ◌+◌, ◌*◌, ◌/◌, ◌%◌, ◌^◌, ◌<◌, ◌≡◌, refl, Bool, true, false, ◌&&◌, ◌||◌, ltb, leb,
  ◌==◌, if◌then◌else◌, arith,
}
use k_os.Base.Bits.{bit_test-bit_set, bit_test-bit_clear, bit_test_zero, bit_set-lt, bit_clear-lt}
use k_os.Bitmap.{Bitmap, fill_zero, bitmap_reset, bitmap_set, bitmap_check, set_run}

-- Every place of the storage holds a byte, and the number of bits is a valid `int`.
pub record IsBitmap (b : Bitmap) : Type 0 where
  pub bytes : (i : ℕ) → b.bits i < 256
  pub small : b.len * 8 < 2 ^ 31

-- `from ≤ j < from + cnt`
abbrev pub in_run : (from cnt j : ℕ) → Bool
in_run from cnt j = leb from j && ltb j (from + cnt)

bitmap_set-bytes :
    (b : Bitmap) (i : ℕ) (v : Bool)
    → ((k : ℕ) → b.bits k < 256)
    → (k : ℕ) → (bitmap_set b i v).bits k < 256
unfolding bitmap_set
bitmap_set-bytes b i true h k =
    ground (arith, h k, bit_set-lt (b.bits (i / 8)) (i % 8) (h (i / 8)) (omega arith))
bitmap_set-bytes b i false h k =
    ground (arith, h k, bit_clear-lt (b.bits (i / 8)) (i % 8) (h (i / 8)) (omega arith))

pub bitmap_set-len : (b : Bitmap) (i : ℕ) (v : Bool) → (bitmap_set b i v).len ≡ b.len
unfolding bitmap_set
bitmap_set-len b i true = refl
bitmap_set-len b i false = refl

pub bitmap_set-IsBitmap : (b : Bitmap) (i : ℕ) (v : Bool) → IsBitmap b → IsBitmap (bitmap_set b i v)
bitmap_set-IsBitmap b i v h = record {
  bytes = bitmap_set-bytes b i v h.bytes;
  small = omega (arith, bitmap_set-len b i v, h.small);
}

-- A write changes the bit that it names, and no other bit, also of the same byte.
pub check-set :
    (b : Bitmap) (i : ℕ) (v : Bool) (j : ℕ)
    → IsBitmap b
    → bitmap_check (bitmap_set b i v) j ≡ (if i == j then v else bitmap_check b j)
unfolding bitmap_set bitmap_check
check-set b i true j h = ground (
  arith,
  bit_test-bit_set (b.bits (i / 8)) (i % 8) (j % 8) (h.bytes (i / 8)) (omega arith) (omega arith),
)
check-set b i false j h = ground (
  arith,
  bit_test-bit_clear (b.bits (i / 8)) (i % 8) (j % 8) (h.bytes (i / 8)) (omega arith) (omega arith),
)

pub set_run-IsBitmap : (b : Bitmap) (cnt from : ℕ) → IsBitmap b → IsBitmap (set_run cnt b from)
unfolding set_run
set_run-IsBitmap b zero from h = h
set_run-IsBitmap b (suc cnt) from h =
    set_run-IsBitmap (bitmap_set b from true) cnt (from + 1) (bitmap_set-IsBitmap b from true h)

pub set_run-len : (b : Bitmap) (cnt from : ℕ) → (set_run cnt b from).len ≡ b.len
unfolding set_run
set_run-len b zero from = refl
set_run-len b (suc cnt) from =
    omega (arith, set_run-len (bitmap_set b from true) cnt (from + 1), bitmap_set-len b from true)

pub check-set_run :
    (b : Bitmap) (cnt from j : ℕ)
    → IsBitmap b
    → bitmap_check (set_run cnt b from) j ≡ (in_run from cnt j || bitmap_check b j)
unfolding set_run
check-set_run b zero from j h = ground arith
check-set_run b (suc cnt) from j h = ground (
  arith,
  check-set_run (bitmap_set b from true) cnt (from + 1) j (bitmap_set-IsBitmap b from true h),
  check-set b from true j h,
)

fill_zero_lem : (m : ℕ → ℕ) (n i : ℕ) → fill_zero m n i ≡ (if ltb i n then 0 else m i)
unfolding fill_zero
fill_zero_lem m zero i = ground arith
fill_zero_lem m (suc n) i = ground (arith, fill_zero_lem m n i)

-- After `bitmap_reset` every bit of the bitmap is clear, and the bytes behind it are unchanged.
pub reset-clear :
    (b : Bitmap) (j : ℕ)
    → bitmap_check (bitmap_reset b) j ≡ (if ltb (j / 8) b.len then false else bitmap_check b j)
unfolding bitmap_reset bitmap_check
reset-clear b j =
    ground (arith, fill_zero_lem b.bits b.len (j / 8), bit_test_zero (j % 8) (omega arith))

pub reset-len : (b : Bitmap) → (bitmap_reset b).len ≡ b.len
unfolding bitmap_reset
reset-len b = refl

pub reset-IsBitmap : (b : Bitmap) → IsBitmap b → IsBitmap (bitmap_reset b)
unfolding bitmap_reset
reset-IsBitmap b h = record {
  bytes = λ i. ground (arith, fill_zero_lem b.bits b.len i, h.bytes i);
  small = h.small;
}

pub reset_inside :
    (b : Bitmap) (j : ℕ) → j < (bitmap_reset b).len * 8 → bitmap_check (bitmap_reset b) j ≡ false
reset_inside b j lt = ground (arith, reset-clear b j, reset-len b)
