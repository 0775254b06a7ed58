-- ===== src/Bitmap/Acquire.antt =====
-- `bitmap_acquire`: first fit, and its effect on every bit.
use k_os.Base.{
  ℕ, ◌+◌, ◌*◌, ◌/◌, ◌%◌, ◌≤◌, ◌<◌, ◌≡◌, refl, Bool, true, false, ◌||◌, Option, none, some, ◌==◌,
  arith, inl, inr, dec_lt, Bool-cases,
}
use k_os.Base.Bits.{bit_test_full, clear_bit}
use k_os.Base.Word.{u32}
use k_os.Bitmap.{Bitmap, bitmap_check, bitmap_set, byte_search, bit_search, set_run, bitmap_acquire}
use k_os.Bitmap.Bits.{
  IsBitmap, in_run, bitmap_set-len, bitmap_set-IsBitmap, check-set, set_run-IsBitmap, set_run-len,
  check-set_run,
}
use k_os.Bitmap.Search.{FirstFit, Scanning, byte_search_lem, bit_search_lem, run_search-FirstFit}

-- The bits that an answer of `bitmap_acquire` stands for.
abbrev pub taken : Option ℕ → (cnt j : ℕ) → Bool
taken none cnt j = false
taken (some k) cnt j = in_run k cnt j

module _ (b : Bitmap) (h : IsBitmap b) where
  abbrev first_byte : ℕ
  first_byte = byte_search (b.len + 1) b 0

  abbrev first_bit : ℕ
  first_bit = first_byte * 8 + bit_search 9 (b.bits first_byte) 0

  full_byte : (j : ℕ) → b.bits (j / 8) ≡ 255 → bitmap_check b j ≡ true
  unfolding bitmap_check
  full_byte j e = rw e (bit_test_full (j % 8) (omega arith))

  bytes_before : (j : ℕ) → j / 8 < first_byte → bitmap_check b j ≡ true
  bytes_before j lt =
      full_byte j
        ((byte_search_lem (b.len + 1) b 0 (omega arith) (omega arith)).3 (j / 8) (omega arith) lt)

  -- Unless every byte is full, `free_idx` is the first clear bit.
  record FirstClear (idx : ℕ) : Type 0 where
    inside : idx < b.len * 8
    clear : bitmap_check b idx ≡ false
    before : (j : ℕ) → j < idx → bitmap_check b j ≡ true

  first_bit-FirstClear : first_byte < b.len → FirstClear first_bit
  unfolding bitmap_check
  first_bit-FirstClear lt =
      let scan = byte_search_lem (b.len + 1) b 0 (omega arith) (omega arith) in
      let (c, hc, clear) = clear_bit (b.bits first_byte) (h.bytes first_byte) (scan.2 lt) in
      let bit =
        bit_search_lem 9 (b.bits first_byte) 0 c (h.bytes first_byte) (omega arith) hc clear
          (omega arith) in
      let div : first_bit / 8 ≡ first_byte = omega (arith, bit.1) in
      let rem : first_bit % 8 ≡ bit_search 9 (b.bits first_byte) 0 = omega (arith, bit.1) in
      record {
        inside = omega (arith, bit.1);
        clear = rw (div, rem) bit.2;
        before = λ j lt'. elim (dec_lt (j / 8) first_byte) [
          | yes low ↦ bytes_before j low
          | no same ↦
              let e : j / 8 ≡ first_byte = omega (arith, bit.1) in
              rw e (bit.3 (j % 8) (omega arith) (omega arith))
        ];
      }

  Scanning-start : (cnt f : ℕ) → 1 < cnt → FirstClear f → Scanning b cnt (b.len * 8) (f + 1) 1
  Scanning-start cnt f many first = record {
    short = many;
    below = omega (arith, first.inside);
    back = omega arith;
    free = λ j le lt. let e : j ≡ f = omega arith in rw e first.clear;
    edge = λ pos. first.before _ (omega arith);
    blocked = λ k le. (k, omega arith, omega arith, first.before k (omega arith));
  }

  full-FirstFit : (cnt : ℕ) → 1 ≤ cnt → first_byte ≡ b.len → FirstFit b cnt (b.len * 8) none
  full-FirstFit cnt pos e = λ k le. (k, omega arith, omega arith, bytes_before k (omega arith))

  one-FirstFit : (f : ℕ) → FirstClear f → FirstFit b 1 (b.len * 8) (some f)
  one-FirstFit f first = (
    omega (arith, first.inside),
    λ j le lt. let e : j ≡ f = omega arith in rw e first.clear,
    λ k' lt. (k', omega arith, omega arith, first.before k' lt),
  )

-- `bitmap_acquire` of at least one bit returns the lowest index at which `cnt` clear bits in a row
-- lie within the bitmap, and -1 exactly when every run of `cnt` bits within it holds a set bit.
pub acquire-FirstFit :
    (b : Bitmap) (cnt : ℕ)
    → IsBitmap b
    → 1 ≤ cnt
    → FirstFit b cnt (b.len * 8) (bitmap_acquire b cnt).0
unfolding bitmap_acquire
acquire-FirstFit b cnt h pos = elim (Bool-cases (first_byte b h == b.len)) [
  | inl full ↦ rw full (full-FirstFit b h cnt pos (ground arith))
  | inr room ↦
      let scan = byte_search_lem (b.len + 1) b 0 (omega arith) (omega arith) in
      let first = first_bit-FirstClear b h (ground arith) in
      elim (Bool-cases (cnt == 1)) [
        | inl one ↦ let e : cnt ≡ 1 = ground arith in rw (room, e) (one-FirstFit b h _ first)
        | inr many ↦
            let e : u32 (b.len * 8) ≡ b.len * 8 = omega (arith, h.small) in
            rw (room, many, e)
              (run_search-FirstFit b cnt (b.len * 8) (b.len * 8 + 1) _ 1 h.small (omega arith)
                (Scanning-start b h cnt _ (ground arith) first))
      ]
]

-- What `bitmap_acquire` leaves behind for the answer `r`.
pub record AcquireEffect (b : Bitmap) (cnt : ℕ) (r : Option ℕ) (b' : Bitmap) : Type 0 where
  pub valid : IsBitmap b'
  pub same_len : b'.len ≡ b.len
  pub bits : (j : ℕ) → bitmap_check b' j ≡ (taken r cnt j || bitmap_check b j)

none-AcquireEffect : (b : Bitmap) (cnt : ℕ) → IsBitmap b → AcquireEffect b cnt none b
none-AcquireEffect b cnt h = record { valid = h; same_len = refl; bits = λ j. refl }

one-AcquireEffect :
    (b : Bitmap) (k : ℕ) → IsBitmap b → AcquireEffect b 1 (some k) (bitmap_set b k true)
one-AcquireEffect b k h = record {
  valid = bitmap_set-IsBitmap b k true h;
  same_len = bitmap_set-len b k true;
  bits = λ j. ground (arith, check-set b k true j h);
}

run-AcquireEffect :
    (b : Bitmap) (cnt : ℕ) (r : Option ℕ)
    → IsBitmap b
    → AcquireEffect b cnt r (elim r [ none ↦ b | some idx ↦ set_run cnt b idx ])
run-AcquireEffect b cnt none h = none-AcquireEffect b cnt h
run-AcquireEffect b cnt (some k) h = record {
  valid = set_run-IsBitmap b cnt k h;
  same_len = set_run-len b cnt k;
  bits = λ j. check-set_run b cnt k j h;
}

-- `bitmap_acquire` sets the bits of the run that it returns and changes no other bit, none when it
-- returns -1; the bitmap stays well formed and keeps its length.
pub acquire-AcquireEffect :
    (b : Bitmap) (cnt : ℕ)
    → IsBitmap b
    → AcquireEffect b cnt (bitmap_acquire b cnt).0 (bitmap_acquire b cnt).1
unfolding bitmap_acquire
acquire-AcquireEffect b cnt h = elim (Bool-cases (first_byte b h == b.len)) [
  | inl full ↦ rw full (none-AcquireEffect b cnt h)
  | inr room ↦ elim (Bool-cases (cnt == 1)) [
    | inl one ↦ let e : cnt ≡ 1 = ground arith in rw (room, e) (one-AcquireEffect b _ h)
    | inr many ↦ rw (room, many) (run-AcquireEffect b cnt _ h)
  ]
]
