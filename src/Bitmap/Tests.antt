-- ===== src/Bitmap/Tests.antt =====
-- Runs of code/kernel/src/bitmap.c on small bitmaps, and its theorems at these.
use k_os.Base.{ℕ, ◌+◌, ◌*◌, ◌<◌, ◌≡◌, refl, true, false, none, some, update, arith, ◌≤◌, dec_lt}
use k_os.Base.Bits.{bit_test}
use k_os.Bitmap.{
  Bitmap, bitmap_set, bitmap_check, bitmap_acquire, bitmap_release, byte_search, bit_search,
  run_search,
}
use k_os.Bitmap.Bits.{IsBitmap, check-set}
use k_os.Bitmap.Search.{FirstFit}
use k_os.Bitmap.Acquire.{AcquireEffect, acquire-FirstFit, acquire-AcquireEffect}
use k_os.Bitmap.Reference.{first_fit, acquire-first_fit}
use k_os.Bitmap.Release.{release-acquire}

-- 1111_1111 1101_0001 0000_0000, lowest bit first within a byte.
abbrev sample : Bitmap
sample = record { len = 3; bits = update (update (λ i. 0) 0 0xff) 1 0x8b }

sample-IsBitmap : IsBitmap sample
sample-IsBitmap = record { bytes = λ i. ground arith; small = omega arith }

first_free : (bitmap_acquire sample 1).0 ≡ some 10
unfolding bitmap_acquire byte_search bit_search
first_free = refl

first_three : (bitmap_acquire sample 3).0 ≡ some 12
unfolding bitmap_acquire byte_search bit_search run_search bitmap_check bit_test
first_three = refl

too_many : (bitmap_acquire sample 9).0 ≡ none
unfolding bitmap_acquire byte_search bit_search run_search bitmap_check bit_test
too_many = refl

check-set_example : bitmap_check (bitmap_set sample 9 false) 8 ≡ bitmap_check sample 8
check-set_example = check-set sample 9 false 8 sample-IsBitmap

acquire-FirstFit_example : FirstFit sample 3 (sample.len * 8) (bitmap_acquire sample 3).0
acquire-FirstFit_example = acquire-FirstFit sample 3 sample-IsBitmap (omega arith)

acquire-AcquireEffect_example :
    AcquireEffect sample 3 (bitmap_acquire sample 3).0 (bitmap_acquire sample 3).1
acquire-AcquireEffect_example = acquire-AcquireEffect sample 3 sample-IsBitmap

low_byte_used : (j : ℕ) → 0 ≤ j → j < 0 + 2 → bitmap_check sample j ≡ true
unfolding bitmap_check bit_test
low_byte_used j le lt = elim (dec_lt j 1) [
  | yes p ↦ let e : j ≡ 0 = omega arith in rw e bit_0
  | no p ↦ let e : j ≡ 1 = omega arith in rw e bit_1
]
  where
    bit_0 : bitmap_check sample 0 ≡ true
    bit_0 = refl

    bit_1 : bitmap_check sample 1 ≡ true
    bit_1 = refl

bit_10_free : bitmap_check sample 10 ≡ false
unfolding bitmap_check bit_test
bit_10_free = refl

release-acquire_example :
    (b' : Bitmap) × (bitmap_release (bitmap_acquire sample 3).1 12 3 ≡ some b')
    × ((j : ℕ) → bitmap_check b' j ≡ bitmap_check sample j)
release-acquire_example = release-acquire sample 3 12 sample-IsBitmap (omega arith) first_three

acquire-first_fit_example : bitmap_acquire sample 3 ≡ first_fit sample 3
acquire-first_fit_example = acquire-first_fit sample 3 sample-IsBitmap (omega arith)
