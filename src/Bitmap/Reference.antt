-- ===== src/Bitmap/Reference.antt =====
-- `bitmap_acquire` against a search that tries one place after the other.
use k_os.Base.{
  ℕ, zero, suc, ◌+◌, ◌-◌, ◌*◌, ◌≤◌, ◌<◌, ◌≡◌, refl, Bool, true, false, not, ◌&&◌, ◌==◌, Option,
  none, some, if◌then◌else◌, arith, ap, ◌∙◌, sym, dec_lt, Bool-cases, inl, inr,
}
use k_os.Bitmap.{Bitmap, bitmap_check, bitmap_acquire, set_run, byte_search, bit_search}
use k_os.Bitmap.Bits.{IsBitmap}
use k_os.Bitmap.Search.{Free, Blocked, FirstFit}
use k_os.Bitmap.Acquire.{acquire-FirstFit}

-- Whether the `cnt` bits from `k` on are clear.
unfoldable pub is_free_run : (cnt : ℕ) → Bitmap → (k : ℕ) → Bool
is_free_run zero b k = true
is_free_run (suc cnt) b k = not (bitmap_check b k) && is_free_run cnt b (k + 1)

-- The first of the `left` places from `k` on at which `cnt` bits are clear.
unfoldable pub find_run : (left : ℕ) → Bitmap → (cnt k : ℕ) → Option ℕ
find_run zero b cnt k = none
find_run (suc left) b cnt k =
    let rest = find_run left b cnt (k + 1) in if is_free_run cnt b k then some k else rest

-- The bitmap with the run at that place set.
unfoldable pub claimed : Bitmap → (cnt : ℕ) → Option ℕ → Bitmap
claimed b cnt none = b
claimed b cnt (some k) = set_run cnt b k

-- Tries every place at which `cnt` bits lie within the bitmap, and claims the first that fits.
unfoldable pub first_fit : Bitmap → (cnt : ℕ) → Option ℕ × Bitmap
first_fit b cnt = let found = find_run (b.len * 8 + 1 - cnt) b cnt 0 in (found, claimed b cnt found)

Free-zero : (b : Bitmap) (k : ℕ) → Free b 0 k
Free-zero b k = λ j le lt. absurd (omega arith)

clear_lem : (cnt : ℕ) (b : Bitmap) (k : ℕ) → is_free_run cnt b k ≡ true → Free b cnt k
unfolding is_free_run
clear_lem zero b k fits = Free-zero b k
clear_lem (suc cnt) b k fits = λ j le lt. elim (dec_lt k j) [
  | yes above ↦ clear_lem cnt b (k + 1) (ground (arith, fits)) j (omega arith) (omega arith)
  | no here ↦ let e : j ≡ k = omega arith in rw e (ground (arith, fits))
]

occupied_lem : (cnt : ℕ) (b : Bitmap) (k : ℕ) → is_free_run cnt b k ≡ false → Blocked b cnt k
unfolding is_free_run
occupied_lem zero b k clash = absurd (ground (arith, clash))
occupied_lem (suc cnt) b k clash = elim (Bool-cases (bitmap_check b k)) [
  | inl used ↦ (k, omega arith, omega arith, used)
  | inr unused ↦
      let r = occupied_lem cnt b (k + 1) (ground (arith, clash, unused)) in
      (r.0, omega (arith, r.1), omega (arith, r.2), r.3)
]

find_run-FirstFit :
    (left : ℕ) (b : Bitmap) (cnt total k : ℕ)
    → 1 ≤ cnt
    → left + k ≡ total + 1 - cnt
    → ((k' : ℕ) → k' < k → Blocked b cnt k')
    → FirstFit b cnt total (find_run left b cnt k)
unfolding find_run
find_run-FirstFit zero b cnt total k pos end before = λ k' le. before k' (omega arith)
find_run-FirstFit (suc left) b cnt total k pos end before =
    elim (Bool-cases (is_free_run cnt b k)) [
      | inl fits ↦ rw fits (omega arith, clear_lem cnt b k fits, before)
      | inr clash ↦
          let here = occupied_lem cnt b k clash in
          rw clash (
            find_run-FirstFit left b cnt total (k + 1) pos (omega arith) (λ k' lt.
              elim (dec_lt k' k) [
                | yes old ↦ before k' old
                | no new ↦ let e : k' ≡ k = omega arith in rw e here
              ]))
    ]

Free-Blocked : (b : Bitmap) (cnt k : ℕ) → Free b cnt k → Blocked b cnt k → true ≡ false
Free-Blocked b cnt k free blocked = sym blocked.3 ∙ free blocked.0 blocked.1 blocked.2

-- There is one answer.
FirstFit-unique :
    (b : Bitmap) (cnt total : ℕ) (r r' : Option ℕ)
    → FirstFit b cnt total r
    → FirstFit b cnt total r'
    → r ≡ r'
FirstFit-unique b cnt total none none f f' = refl
FirstFit-unique b cnt total none (some k) f f' =
    absurd (ground (arith, Free-Blocked b cnt k f'.1 (f k f'.0)))
FirstFit-unique b cnt total (some k) none f f' =
    absurd (ground (arith, Free-Blocked b cnt k f.1 (f' k f.0)))
FirstFit-unique b cnt total (some k) (some k') f f' = elim (dec_lt k k') [
  | yes below ↦ absurd (ground (arith, Free-Blocked b cnt k f.1 (f'.2 k below)))
  | no up ↦ elim (dec_lt k' k) [
    | yes above ↦ absurd (ground (arith, Free-Blocked b cnt k' f'.1 (f.2 k' above)))
    | no same ↦ ap some (omega arith)
  ]
]

-- The bitmap that `bitmap_acquire` leaves, by its answer.
acquire-bits :
    (b : Bitmap) (cnt : ℕ) → (bitmap_acquire b cnt).1 ≡ claimed b cnt (bitmap_acquire b cnt).0
unfolding bitmap_acquire set_run claimed
acquire-bits b cnt = elim (Bool-cases (byte_search (b.len + 1) b 0 == b.len)) [
  | inl full ↦ rw full refl
  | inr room ↦ elim (Bool-cases (cnt == 1)) [
    | inl one ↦
        let e : 1 ≡ cnt = ground (arith, one) in
        let byte_idx = byte_search (b.len + 1) b 0 in
        let free_idx = byte_idx * 8 + bit_search 9 (b.bits byte_idx) 0 in
        rw (room, one) (ap (λ n. set_run n b free_idx) e)
    | inr many ↦ rw (room, many) refl
  ]
]

-- For a request of one bit or more `bitmap_acquire`, with its search by bytes and bits, gives the
-- same answer and leaves the same bitmap as trying one place after the other.
pub acquire-first_fit :
    (b : Bitmap) (cnt : ℕ) → IsBitmap b → 1 ≤ cnt → bitmap_acquire b cnt ≡ first_fit b cnt
unfolding first_fit
acquire-first_fit b cnt h pos =
    let same = FirstFit-unique b cnt (b.len * 8) _ _ (acquire-FirstFit b cnt h pos) (
      find_run-FirstFit (b.len * 8 + 1 - cnt) b cnt (b.len * 8) 0 pos (omega arith)
        (λ k' lt. absurd (omega arith))) in
    ap (λ x. ((bitmap_acquire b cnt).0, x)) (acquire-bits b cnt)
    ∙ ap (λ r. (r, claimed b cnt r)) same
