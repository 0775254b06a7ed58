-- ===== src/Base/Bits.antt =====
-- The bits of a byte under the three updates that the bitmap makes, checked over all bytes.
use Prim.Native.Nat.{ℕ, zero, suc, ◌-◌, ◌%◌, ◌^◌, ◌<◌, bit_and, bit_or}
use mathlib.Core.Path.{◌≡◌, refl}
use mathlib.Core.Bool.{Bool, true, false, not, ◌&&◌, ◌||◌}
use native.Mathlib.Omega.{arith}
use mathlib.Core.Logic.{◌≢◌, inl, inr}
use k_os.Base.Tests.{◌==◌, ltb, Bool-cases}

-- `b & (1 << i)` as a condition.
unfoldable pub bit_test : ℕ → ℕ → Bool
bit_test b i = not (bit_and b (2 ^ i) == 0)

-- `b | (1 << i)`
unfoldable pub bit_set : ℕ → ℕ → ℕ
bit_set b i = bit_or b (2 ^ i)

-- `b & ~(1 << i)` on a byte.
unfoldable pub bit_clear : ℕ → ℕ → ℕ
bit_clear b i = bit_and b (255 - 2 ^ i)

-- A test at every number below a bound.
unfoldable pub every : (bound : ℕ) → (ℕ → Bool) → Bool
every zero test = true
every (suc top) test = elim (test top) [ true ↦ every top test | false ↦ false ]

pub every_at :
    (bound : ℕ) (test : ℕ → Bool) (k : ℕ) → k < bound → every bound test ≡ true → test k ≡ true
unfolding every
every_at zero test k below passed = elim below [ ]
every_at (suc top) test k below passed = ground (arith, every_at top test k)

same : Bool → Bool → Bool
same true b = b
same false b = not b

same→eq : (a b : Bool) → same a b ≡ true → a ≡ b
unfolding same
same→eq a b h = ground arith

set_table :
    every 256 (λ b. every 8 (λ i.
      every 8 (λ j. same (bit_test (bit_set b i) j) ((i == j) || bit_test b j))
      && ltb (bit_set b i) 256))
    ≡ true
unfolding every same bit_test bit_set
set_table = refl

clear_table :
    every 256 (λ b. every 8 (λ i.
      every 8 (λ j. same (bit_test (bit_clear b i) j) (not (i == j) && bit_test b j))
      && ltb (bit_clear b i) 256))
    ≡ true
unfolding every same bit_test bit_clear
clear_table = refl

full_table :
    every 256 (λ b. same (b == 255) (
      bit_test b 0
      && bit_test b 1
      && bit_test b 2
      && bit_test b 3
      && bit_test b 4
      && bit_test b 5
      && bit_test b 6
      && bit_test b 7))
    ≡ true
unfolding every same bit_test
full_table = refl

set_entry :
    (b i : ℕ)
    → b < 256
    → i < 8
    → (every 8 (λ j. same (bit_test (bit_set b i) j) ((i == j) || bit_test b j)) ≡ true)
      × (ltb (bit_set b i) 256 ≡ true)
set_entry b i hb hi = ground (arith, every_at 8 _ i hi (every_at 256 _ b hb set_table))

clear_entry :
    (b i : ℕ)
    → b < 256
    → i < 8
    → (every 8 (λ j. same (bit_test (bit_clear b i) j) (not (i == j) && bit_test b j)) ≡ true)
      × (ltb (bit_clear b i) 256 ≡ true)
clear_entry b i hb hi = ground (arith, every_at 8 _ i hi (every_at 256 _ b hb clear_table))

pub bit_test-bit_set :
    (b i j : ℕ) → b < 256 → i < 8 → j < 8 → bit_test (bit_set b i) j ≡ ((i == j) || bit_test b j)
bit_test-bit_set b i j hb hi hj = same→eq _ _ (every_at 8 _ j hj (set_entry b i hb hi).0)

pub bit_test-bit_clear :
    (b i j : ℕ)
    → b < 256
    → i < 8
    → j < 8
    → bit_test (bit_clear b i) j ≡ (not (i == j) && bit_test b j)
bit_test-bit_clear b i j hb hi hj = same→eq _ _ (every_at 8 _ j hj (clear_entry b i hb hi).0)

pub bit_set-lt : (b i : ℕ) → b < 256 → i < 8 → bit_set b i < 256
bit_set-lt b i hb hi = ground (arith, set_entry b i hb hi)

pub bit_clear-lt : (b i : ℕ) → b < 256 → i < 8 → bit_clear b i < 256
bit_clear-lt b i hb hi = ground (arith, clear_entry b i hb hi)

full_entry :
    (b : ℕ)
    → b < 256
    → (b == 255) ≡ (
        bit_test b 0
        && bit_test b 1
        && bit_test b 2
        && bit_test b 3
        && bit_test b 4
        && bit_test b 5
        && bit_test b 6
        && bit_test b 7)
full_entry b hb = same→eq _ _ (every_at 256 _ b hb full_table)

-- Every bit of the byte 0xff is set.
pub bit_test_full : (i : ℕ) → i < 8 → bit_test 255 i ≡ true
unfolding every bit_test
bit_test_full i h = every_at 8 (bit_test 255) i h table
  where
    table : every 8 (bit_test 255) ≡ true
    table = refl

pub bit_test_zero : (i : ℕ) → i < 8 → bit_test 0 i ≡ false
unfolding every bit_test
bit_test_zero i h = ground (arith, every_at 8 (λ k. not (bit_test 0 k)) i h table)
  where
    table : every 8 (λ k. not (bit_test 0 k)) ≡ true
    table = refl

-- A byte other than 0xff has a clear bit.
pub clear_bit : (b : ℕ) → b < 256 → b ≢ 255 → (i : ℕ) × (i < 8) × (bit_test b i ≡ false)
clear_bit b hb ne = elim (Bool-cases (bit_test b 0)) [
  | inr c ↦ (0, omega arith, c)
  | inl c0 ↦ elim (Bool-cases (bit_test b 1)) [
    | inr c ↦ (1, omega arith, c)
    | inl c1 ↦ elim (Bool-cases (bit_test b 2)) [
      | inr c ↦ (2, omega arith, c)
      | inl c2 ↦ elim (Bool-cases (bit_test b 3)) [
        | inr c ↦ (3, omega arith, c)
        | inl c3 ↦ elim (Bool-cases (bit_test b 4)) [
          | inr c ↦ (4, omega arith, c)
          | inl c4 ↦ elim (Bool-cases (bit_test b 5)) [
            | inr c ↦ (5, omega arith, c)
            | inl c5 ↦ elim (Bool-cases (bit_test b 6)) [
              | inr c ↦ (6, omega arith, c)
              | inl c6 ↦ elim (Bool-cases (bit_test b 7)) [
                | inr c ↦ (7, omega arith, c)
                | inl c7 ↦ absurd (ground (arith, full_entry b hb))
              ]
            ]
          ]
        ]
      ]
    ]
  ]
]

-- The test of the second loop of `bitmap_acquire`, whose mask is cut to a byte.
mask_table :
    every 256 (λ b. every 8 (λ i. same (bit_and (2 ^ i % 256) b == 0) (not (bit_test b i)))) ≡ true
unfolding every same bit_test
mask_table = refl

pub mask_test : (b i : ℕ) → b < 256 → i < 8 → (bit_and (2 ^ i % 256) b == 0) ≡ not (bit_test b i)
mask_test b i hb hi = same→eq _ _ (every_at 8 _ i hi (every_at 256 _ b hb mask_table))
