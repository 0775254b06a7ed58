-- ===== src/Memory/Pool/Laws.antt =====
-- What the pools hand out and take back, in terms of the bits of their bitmaps.
use k_os.Base.{
  ℕ, ◌+◌, ◌*◌, ◌/◌, ◌%◌, ◌^◌, ◌≤◌, ◌<◌, ◌≡◌, ◌≢◌, refl, Bool, true, false, not, ◌&&◌, ◌||◌, ◌⊎◌,
  inl, inr, Option, none, some, ◌==◌, arith, subst, sym, ap, ◌∙◌,
}
use k_os.Base.Word.{u32, sub32}
use k_os.Bitmap.{Bitmap, bitmap_check, bitmap_acquire, bitmap_release}
use k_os.Bitmap.Bits.{IsBitmap}
use k_os.Bitmap.Search.{Blocked, FirstFit}
use k_os.Bitmap.Acquire.{AcquireEffect, acquire-FirstFit, acquire-AcquireEffect}
use k_os.Bitmap.Release.{release-ReleaseEffect}
use k_os.Memory.Pool.{PPool, VPool, pg_size, palloc, pfree}

-- The units of a pool: page `idx` from `start` on.
abbrev pub unit_addr : (start idx : ℕ) → ℕ
unit_addr start idx = start + idx * pg_size

-- Frames from an aligned address on, all of them below 2 ^ 32.
pub record IsPPool (pp : PPool) : Type 0 where
  pub bitmap : IsBitmap pp.paddr_bitmap
  pub aligned : pp.paddr_start % pg_size ≡ 0
  pub positive : 0 < pp.paddr_start
  pub fits : pp.paddr_start + pp.paddr_bitmap.len * 8 * pg_size ≤ 2 ^ 32

-- Pages from an aligned address on. The bitmap may reach past the last address.
pub record IsVPool (vp : VPool) : Type 0 where
  pub bitmap : IsBitmap vp.vaddr_bitmap
  pub aligned : vp.vaddr_start % pg_size ≡ 0
  pub positive : 0 < vp.vaddr_start

abbrev pub frame_used : PPool → ℕ → Bool
frame_used pp idx = bitmap_check pp.paddr_bitmap idx

abbrev pub page_used : VPool → ℕ → Bool
page_used vp idx = bitmap_check vp.vaddr_bitmap idx

-- `palloc` took the frame `idx`.
pub record Palloc (pp : PPool) (idx : ℕ) (paddr : ℕ) (pp' : PPool) : Type 0 where
  pub address : paddr ≡ unit_addr pp.paddr_start idx
  pub inside : idx < pp.paddr_bitmap.len * 8
  pub was_free : frame_used pp idx ≡ false
  pub lowest : (j : ℕ) → j < idx → frame_used pp j ≡ true
  pub now : (j : ℕ) → frame_used pp' j ≡ ((j == idx) || frame_used pp j)
  pub same_start : pp'.paddr_start ≡ pp.paddr_start
  pub same_len : pp'.paddr_bitmap.len ≡ pp.paddr_bitmap.len
  pub valid : IsPPool pp'

-- `palloc` found every frame in use.
pub record Full (pp : PPool) (paddr : ℕ) (pp' : PPool) : Type 0 where
  pub is_null : paddr ≡ 0
  pub used : (j : ℕ) → j < pp.paddr_bitmap.len * 8 → frame_used pp j ≡ true
  pub now : (j : ℕ) → frame_used pp' j ≡ frame_used pp j
  pub same_start : pp'.paddr_start ≡ pp.paddr_start
  pub same_len : pp'.paddr_bitmap.len ≡ pp.paddr_bitmap.len
  pub valid : IsPPool pp'

abbrev pool_with : PPool → Bitmap → PPool
pool_with pp b = record pp { paddr_bitmap = b }

Blocked-one : (b : Bitmap) (j : ℕ) → Blocked b 1 j → bitmap_check b j ≡ true
Blocked-one b j (k, le, lt, used) = let e : j ≡ k = omega arith in rw e used

IsPPool-effect :
    (pp : PPool) (b' : Bitmap)
    → IsPPool pp
    → IsBitmap b'
    → b'.len ≡ pp.paddr_bitmap.len
    → IsPPool (pool_with pp b')
IsPPool-effect pp b' r h e = record {
  bitmap = h;
  aligned = r.aligned;
  positive = r.positive;
  fits = rw e r.fits;
}

Palloc-some :
    (pp : PPool) (idx : ℕ) (b : Bitmap)
    → IsPPool pp
    → FirstFit pp.paddr_bitmap 1 (pp.paddr_bitmap.len * 8) (some idx)
    → AcquireEffect pp.paddr_bitmap 1 (some idx) b
    → Palloc pp idx (u32 (pp.paddr_start + idx * pg_size)) (pool_with pp b)
Palloc-some pp idx b v fit eff = record {
  address = omega (arith, fit.0, v.fits);
  inside = omega (arith, fit.0);
  was_free = fit.1 idx (omega arith) (omega arith);
  lowest = λ j lt. Blocked-one pp.paddr_bitmap j (fit.2 j lt);
  now = λ j. ground (arith, eff.bits j);
  same_start = refl;
  same_len = eff.same_len;
  valid = IsPPool-effect pp b v eff.valid eff.same_len;
}

Full-none :
    (pp : PPool) (b : Bitmap)
    → IsPPool pp
    → FirstFit pp.paddr_bitmap 1 (pp.paddr_bitmap.len * 8) none
    → AcquireEffect pp.paddr_bitmap 1 none b
    → Full pp 0 (pool_with pp b)
Full-none pp b v fit eff = record {
  is_null = refl;
  used = λ j lt. Blocked-one pp.paddr_bitmap j (fit j (omega arith));
  now = eff.bits;
  same_start = refl;
  same_len = eff.same_len;
  valid = IsPPool-effect pp b v eff.valid eff.same_len;
}

-- `palloc` takes the lowest free frame, returns its address and marks it and no other; from a full
-- pool it returns NULL and marks nothing.
pub palloc_lem :
    (pp : PPool)
    → IsPPool pp
    → ((idx : ℕ) × Palloc pp idx (palloc pp).0 (palloc pp).1) ⊎ Full pp (palloc pp).0 (palloc pp).1
unfolding palloc
palloc_lem pp v =
    go _ (acquire-FirstFit b 1 v.bitmap (omega arith)) (acquire-AcquireEffect b 1 v.bitmap)
  where
    b : Bitmap
    b = pp.paddr_bitmap

    answer : Option ℕ → Bitmap → ℕ × PPool
    answer r c = elim r [
      | none ↦ (0, pool_with pp c)
      | some idx ↦ (u32 (pp.paddr_start + idx * pg_size), pool_with pp c)
    ]

    go :
        (r : Option ℕ)
        → FirstFit b 1 (b.len * 8) r
        → AcquireEffect b 1 r (bitmap_acquire b 1).1
        → ((idx : ℕ) × Palloc pp idx
              (answer r (bitmap_acquire b 1).1).0
              (answer r (bitmap_acquire b 1).1).1)
          ⊎ Full pp (answer r (bitmap_acquire b 1).1).0 (answer r (bitmap_acquire b 1).1).1
    go none fit eff = inr (Full-none pp _ v fit eff)
    go (some idx) fit eff = inl (idx, Palloc-some pp idx _ v fit eff)

pub Palloc-positive : {pp pp' : PPool} {idx p : ℕ} → IsPPool pp → Palloc pp idx p pp' → 0 < p
Palloc-positive v f = omega (arith, v.positive, f.address)

-- The bit number that the code computes from an address of a pool.
pub unit_index :
    (start idx : ℕ)
    → unit_addr start idx < 2 ^ 32
    → sub32 (unit_addr start idx) start / pg_size ≡ idx
unit_index start idx lt = omega arith

after_release : PPool → Option Bitmap → Option PPool
after_release pp r = elim r [ none ↦ none | some b ↦ some (pool_with pp b) ]

pfree-release :
    (pp : PPool) (idx : ℕ) {b : Bitmap}
    → IsPPool pp
    → idx < pp.paddr_bitmap.len * 8
    → bitmap_release pp.paddr_bitmap idx 1 ≡ some b
    → pfree pp (unit_addr pp.paddr_start idx) ≡ some (pool_with pp b)
unfolding pfree after_release
pfree-release pp idx v lt e =
    ap (λ i. after_release pp (bitmap_release pp.paddr_bitmap i 1))
      (unit_index pp.paddr_start idx (omega (arith, v.fits)))
    ∙ ap (after_release pp) e

-- Frame `idx` is given back.
pub record Pfree (pp : PPool) (idx : ℕ) (pp' : PPool) : Type 0 where
  pub valid : IsPPool pp'
  pub same_start : pp'.paddr_start ≡ pp.paddr_start
  pub same_len : pp'.paddr_bitmap.len ≡ pp.paddr_bitmap.len
  pub now : (j : ℕ) → frame_used pp' j ≡ (not (j == idx) && frame_used pp j)

pub pfree-Pfree :
    (pp : PPool) (idx : ℕ)
    → IsPPool pp
    → idx < pp.paddr_bitmap.len * 8
    → frame_used pp idx ≡ true
    → (pp' : PPool) × (pfree pp (unit_addr pp.paddr_start idx) ≡ some pp') × Pfree pp idx pp'
pfree-Pfree pp idx v lt used =
    let r =
      release-ReleaseEffect pp.paddr_bitmap idx 1 v.bitmap
        (λ j le lt'. let e : j ≡ idx = omega arith in rw e used) in
    let eff = r.2 in
    (
      pool_with pp r.0,
      pfree-release pp idx v lt r.1,
      record {
        valid = IsPPool-effect pp r.0 v eff.valid eff.same_len;
        same_start = refl;
        same_len = eff.same_len;
        now = λ j. ground (arith, eff.bits j);
      },
    )

-- `pfree` of a frame in use marks it free and leaves every other frame as it is.
pub pfree_lem :
    (pp : PPool) (idx : ℕ)
    → IsPPool pp
    → idx < pp.paddr_bitmap.len * 8
    → frame_used pp idx ≡ true
    → (pp' : PPool) × (pfree pp (unit_addr pp.paddr_start idx) ≡ some pp')
      × IsPPool pp'
      × ((j : ℕ) → frame_used pp' j ≡ (not (j == idx) && frame_used pp j))
pfree_lem pp idx v lt used = let r = pfree-Pfree pp idx v lt used in (r.0, r.1, r.2.valid, r.2.now)

pfree-Palloc :
    (pp : PPool) (idx : ℕ)
    → Palloc pp idx (palloc pp).0 (palloc pp).1
    → (pp' : PPool) × (pfree (palloc pp).1 (palloc pp).0 ≡ some pp')
      × ((j : ℕ) → frame_used pp' j ≡ frame_used pp j)
pfree-Palloc pp idx f =
    let r =
      pfree_lem (palloc pp).1 idx f.valid (omega (arith, f.inside, f.same_len))
        (ground (arith, f.now idx)) in
    let same : (palloc pp).0 ≡ unit_addr (palloc pp).1.paddr_start idx =
      omega (arith, f.address, f.same_start) in
    (
      r.0,
      subst (λ a. pfree (palloc pp).1 a ≡ some r.0) (sym same) r.1,
      λ j. let unset = f.was_free in ground (arith, f.now j, r.3 j),
    )

-- `pfree` of an address that `palloc` returned, other than NULL, succeeds and restores the state of
-- every frame.
pub pfree-palloc :
    (pp : PPool)
    → IsPPool pp
    → (palloc pp).0 ≢ 0
    → (pp' : PPool) × (pfree (palloc pp).1 (palloc pp).0 ≡ some pp')
      × ((j : ℕ) → frame_used pp' j ≡ frame_used pp j)
pfree-palloc pp v ne = elim (palloc_lem pp v) [
  | inl (idx, f) ↦ pfree-Palloc pp idx f
  | inr full ↦ absurd (ne full.is_null)
]
