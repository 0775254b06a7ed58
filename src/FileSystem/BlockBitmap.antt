-- ===== src/FileSystem/BlockBitmap.antt =====
-- The block bitmap that `fs_format` writes: which blocks it says are free.
use k_os.Base.{
  ℕ, zero, suc, ◌+◌, ◌-◌, ◌*◌, ◌/◌, ◌%◌, ◌≤◌, ◌<◌, ◌≡◌, ◌≢◌, arith, refl, Bool, not, ◌&&◌, ◌||◌,
  ◌==◌, ltb, leb, if◌then◌else◌, update, Bool-cases, inl, inr, ◌∙◌, ap,
}
use k_os.Base.Bits.{
  bit_test, bit_clear, bit_test-bit_clear, bit_clear-lt, bit_test_full, bit_test_zero, bit_set,
  bit_test-bit_set,
}
use k_os.CString.{Memory, memset}
use k_os.CString.Copy.{memset_lem}
use k_os.FileSystem.{clear_bits, tail_filled}

clear_bits_other :
    (left : ℕ) (buf : Memory) (byte idx a : ℕ) → a ≢ byte → clear_bits left buf byte idx a ≡ buf a
unfolding clear_bits
clear_bits_other zero buf byte idx a ne = refl
clear_bits_other (suc left) buf byte idx a ne =
    clear_bits_other left _ byte (idx + 1) a ne ∙ ground arith

clear_bits_at :
    (left : ℕ) (buf : Memory) (byte idx j : ℕ)
    → idx + left ≤ 8
    → buf byte < 256
    → j < 8
    → bit_test (clear_bits left buf byte idx byte) j
      ≡ (bit_test (buf byte) j && not (leb idx j && ltb j (idx + left)))
unfolding clear_bits
clear_bits_at zero buf byte idx j fits small lt = ground arith
clear_bits_at (suc left) buf byte idx j fits small lt =
    let cleared = bit_clear (buf byte) idx in
    let here : update buf byte cleared byte ≡ cleared = ground arith in
    let below : update buf byte cleared byte < 256 =
      rw here (bit_clear-lt (buf byte) idx small (omega arith)) in
    let rest =
      clear_bits_at left (update buf byte cleared) byte (idx + 1) j (omega arith) below lt in
    let one = bit_test-bit_clear (buf byte) idx j small (omega arith) lt in
    rest ∙ rw (here, one) (ground arith)

-- Whether block `i` is marked as used.
unfoldable pub marked : Memory → ℕ → Bool
marked buf i = bit_test (buf (i / 8)) (i % 8)

-- The bytes before the last one's bits are cleared.
filled_lem :
    (garbage : Memory) (size n a : ℕ)
    → (n / 8 / 512 + 1) * 512 ≤ size
    → 8 ≤ n
    → a < size
    → memset (update (memset garbage 0 0 size) 0 1) (n / 8) 0xFF (512 - n / 8 % 512) a ≡ (
        if ltb a (n / 8)
        then if a == 0 then 1 else 0
        else if ltb a ((n / 8 / 512 + 1) * 512)
        then 255
        else 0)
filled_lem garbage size n a room big lt =
    memset_lem (update (memset garbage 0 0 size) 0 1) (n / 8) 0xFF (512 - n / 8 % 512) a
    ∙ ground (arith, memset_lem garbage 0 0 size a)

bit_test_one : (j : ℕ) → j < 8 → bit_test 1 j ≡ (j == 0)
unfolding bit_set
bit_test_one j h =
    let e : bit_test 1 j ≡ ((0 == j) || bit_test 0 j) =
      bit_test-bit_set 0 0 j (omega arith) (omega arith) h in
    ground (arith, e, bit_test_zero j h)

-- The byte with the boundary: the bits up to it are clear.
last_lem :
    (buf : Memory) (byte last i : ℕ)
    → buf byte ≡ 255
    → i / 8 ≡ byte
    → last < 8
    → bit_test (clear_bits (last + 1) buf byte 0 (i / 8)) (i % 8) ≡ ltb last (i % 8)
last_lem buf byte last i full here small =
    let below : buf byte < 256 = omega arith in
    rw here (
      clear_bits_at (last + 1) buf byte 0 (i % 8) (omega arith) below (omega arith)
      ∙ rw (full, bit_test_full (i % 8) (omega arith)) (ground arith))

-- Every other byte is as before.
other_lem :
    (buf : Memory) (byte last i v : ℕ)
    → buf (i / 8) ≡ v
    → i / 8 ≢ byte
    → bit_test (clear_bits (last + 1) buf byte 0 (i / 8)) (i % 8) ≡ bit_test v (i % 8)
other_lem buf byte last i v e ne =
    ap (λ b. bit_test b (i % 8)) (clear_bits_other (last + 1) buf byte 0 (i / 8) ne ∙ e)

value_lem :
    (n i : ℕ)
    → 8 ≤ n
    → i / 8 ≢ n / 8
    → bit_test
        (if ltb (i / 8) (n / 8)
          then if i / 8 == 0 then 1 else 0
          else if ltb (i / 8) ((n / 8 / 512 + 1) * 512)
          then 255
          else 0)
        (i % 8)
      ≡ ((i == 0) || ltb n i && ltb i ((n / 8 / 512 + 1) * 4096))
value_lem n i big ne = ground (
  arith,
  bit_test_one (i % 8) (omega arith),
  bit_test_zero (i % 8) (omega arith),
  bit_test_full (i % 8) (omega arith),
)

pub tail_filled-marked :
    (garbage : Memory) (size blk_cnt i : ℕ)
    → (blk_cnt / 8 / 512 + 1) * 512 ≤ size
    → 8 ≤ blk_cnt
    → i < size * 8
    → marked (tail_filled (memset garbage 0 0 size) blk_cnt) i
      ≡ ((i == 0) || ltb blk_cnt i && ltb i ((blk_cnt / 8 / 512 + 1) * 4096))
unfolding tail_filled marked
tail_filled-marked garbage size n i room big lt =
    let value = filled_lem garbage size n (i / 8) room big (omega arith) in
    let buf = memset (update (memset garbage 0 0 size) 0 1) (n / 8) 0xFF (512 - n / 8 % 512) in
    elim (Bool-cases (i / 8 == n / 8)) [
      | inl same ↦
          let here : i / 8 ≡ n / 8 = ground (arith, same) in
          last_lem buf (n / 8) (n % 8) i
            (filled_lem garbage size n (n / 8) room big (omega arith) ∙ ground arith) here
            (omega arith)
          ∙ ground arith
      | inr other ↦
          let away : i / 8 ≢ n / 8 = ground (arith, other) in
          other_lem buf (n / 8) (n % 8) i _ value away ∙ value_lem n i big away
    ]
