-- ===== src/Memory/Pool/Vaddr.antt =====
-- `vaddr_acquire` and `vaddr_release`: both ways to ask for virtual pages.
use k_os.Base.{
  ℕ, zero, suc, ◌+◌, ◌*◌, ◌^◌, ◌≤◌, ◌<◌, ◌≡◌, refl, Bool, true, false, not, ◌&&◌, ◌||◌, ◌⊎◌, inl,
  inr, Option, none, some, ◌==◌, if◌then◌else◌, arith, ap, ◌∙◌, ==_ne,
}
use k_os.Base.Word.{u32}
use k_os.Bitmap.{Bitmap, bitmap_check, bitmap_set, set_run, bitmap_acquire, bitmap_release}
use k_os.Bitmap.Bits.{
  IsBitmap, in_run, bitmap_set-IsBitmap, check-set, check-set_run, set_run-len, set_run-IsBitmap,
}
use k_os.Bitmap.Search.{Blocked, Free, FirstFit}
use k_os.Bitmap.Acquire.{AcquireEffect, acquire-FirstFit, acquire-AcquireEffect}
use k_os.Bitmap.Release.{release-ReleaseEffect}
use k_os.Memory.Pool.{VPool, pg_size, claim_fixed, vaddr_acquire, vaddr_release}
use k_os.Memory.Pool.Laws.{IsVPool, unit_addr, unit_index, page_used}

abbrev pages_with : VPool → Bitmap → VPool
pages_with vp b = record vp { vaddr_bitmap = b }

-- The pages from number `idx` on were free, and they alone are now in use.
pub record Claimed (vp : VPool) (cnt idx : ℕ) (vaddr : ℕ) (vp' : VPool) : Type 0 where
  pub address : vaddr ≡ u32 (unit_addr vp.vaddr_start idx)
  pub inside : idx + cnt ≤ vp.vaddr_bitmap.len * 8
  pub was_free : Free vp.vaddr_bitmap cnt idx
  pub now : (j : ℕ) → page_used vp' j ≡ (in_run idx cnt j || page_used vp j)
  pub same_start : vp'.vaddr_start ≡ vp.vaddr_start
  pub same_len : vp'.vaddr_bitmap.len ≡ vp.vaddr_bitmap.len
  pub valid : IsVPool vp'

-- Nothing was handed out: NULL, no run of pages is free, and no page changed.
pub record Refused (vp : VPool) (cnt : ℕ) (vaddr : ℕ) (vp' : VPool) : Type 0 where
  pub is_null : vaddr ≡ 0
  pub no_room : FirstFit vp.vaddr_bitmap cnt (vp.vaddr_bitmap.len * 8) none
  pub now : (j : ℕ) → page_used vp' j ≡ page_used vp j
  pub valid : IsVPool vp'

IsVPool-pages_with : (vp : VPool) (b : Bitmap) → IsVPool vp → IsBitmap b → IsVPool (pages_with vp b)
IsVPool-pages_with vp b v h = record { bitmap = h; aligned = v.aligned; positive = v.positive }

answer : VPool → Option ℕ → Bitmap → ℕ × VPool
answer vp r c = elim r [
  | none ↦ (0, pages_with vp c)
  | some idx ↦ (u32 (vp.vaddr_start + idx * pg_size), pages_with vp c)
]

answer_lem :
    (vp : VPool) (cnt : ℕ) (r : Option ℕ) (b : Bitmap)
    → IsVPool vp
    → 1 ≤ cnt
    → FirstFit vp.vaddr_bitmap cnt (vp.vaddr_bitmap.len * 8) r
    → AcquireEffect vp.vaddr_bitmap cnt r b
    → ((idx : ℕ) × Claimed vp cnt idx (answer vp r b).0 (answer vp r b).1
        × ((k : ℕ) → k < idx → Blocked vp.vaddr_bitmap cnt k))
      ⊎ Refused vp cnt (answer vp r b).0 (answer vp r b).1
unfolding answer
answer_lem vp cnt none b v pos fit eff = inr (record {
  is_null = refl;
  no_room = fit;
  now = eff.bits;
  valid = IsVPool-pages_with vp b v eff.valid;
})
answer_lem vp cnt (some idx) b v pos fit eff = inl (
  idx,
  record {
    address = refl;
    inside = fit.0;
    was_free = fit.1;
    now = eff.bits;
    same_start = refl;
    same_len = eff.same_len;
    valid = IsVPool-pages_with vp b v eff.valid;
  },
  fit.2,
)

-- Asked for any address, `vaddr_acquire` claims the lowest free run of pages, or returns NULL when
-- there is none and changes nothing.
pub acquire_any :
    (vp : VPool) (cnt : ℕ)
    → IsVPool vp
    → 1 ≤ cnt
    → ((idx : ℕ) × Claimed vp cnt idx (vaddr_acquire vp 0 cnt).0 (vaddr_acquire vp 0 cnt).1
        × ((k : ℕ) → k < idx → Blocked vp.vaddr_bitmap cnt k))
      ⊎ Refused vp cnt (vaddr_acquire vp 0 cnt).0 (vaddr_acquire vp 0 cnt).1
unfolding vaddr_acquire answer
acquire_any vp cnt v pos =
    answer_lem vp cnt (bitmap_acquire vp.vaddr_bitmap cnt).0 (bitmap_acquire vp.vaddr_bitmap cnt).1
      v pos (acquire-FirstFit vp.vaddr_bitmap cnt v.bitmap pos)
      (acquire-AcquireEffect vp.vaddr_bitmap cnt v.bitmap)

-- The loop over a fixed range: through free bits it sets them all.
claim-Free :
    (b : Bitmap) (idx cnt : ℕ)
    → IsBitmap b
    → Free b cnt idx
    → claim_fixed b idx cnt ≡ (true, set_run cnt b idx)
unfolding claim_fixed set_run
claim-Free b idx zero h free = refl
claim-Free b idx (suc cnt) h free = rw (free idx (omega arith) (omega arith)) (
    claim-Free (bitmap_set b idx true) (idx + 1) cnt (bitmap_set-IsBitmap b idx true h)
      (λ j le lt. ground (arith, check-set b idx true j h, free j)))

-- At the first set bit it stops, with the bits before that set.
claim_conflict :
    (b : Bitmap) (idx before cnt : ℕ)
    → IsBitmap b
    → before < cnt
    → Free b before idx
    → bitmap_check b (idx + before) ≡ true
    → claim_fixed b idx cnt ≡ (false, set_run before b idx)
unfolding claim_fixed set_run
claim_conflict b idx before zero h lt free used = absurd (omega arith)
claim_conflict b idx zero (suc cnt) h lt free used =
    let e : idx + 0 ≡ idx = omega arith in rw (rw e at used)
claim_conflict b idx (suc before) (suc cnt) h lt free used =
    let e : idx + 1 + before ≡ idx + suc before = omega arith in
    rw (free idx (omega arith) (omega arith)) (
      claim_conflict (bitmap_set b idx true) (idx + 1) before cnt (bitmap_set-IsBitmap b idx true h)
        (omega arith) (λ j le lt'. ground (arith, check-set b idx true j h, free j))
        (rw e (ground (arith, check-set b idx true (idx + suc before) h))))

module _ (vp : VPool) (cnt idx : ℕ) (v : IsVPool vp) (inside : idx + cnt ≤ vp.vaddr_bitmap.len * 8)
    (below : unit_addr vp.vaddr_start idx < 2 ^ 32) where
  abbrev fixed_addr : ℕ
  fixed_addr = unit_addr vp.vaddr_start idx

  fixed-claim :
      (claimed : Bool) (b : Bitmap)
      → claim_fixed vp.vaddr_bitmap idx cnt ≡ (claimed, b)
      → vaddr_acquire vp fixed_addr cnt ≡ (if claimed then fixed_addr else 0, pages_with vp b)
  unfolding vaddr_acquire
  fixed-claim claimed b e =
      let index = unit_index vp.vaddr_start idx below in
      let not_null : (fixed_addr == 0) ≡ false = ==_ne _ _ (omega (arith, v.positive)) in
      rw (not_null, index, e)

  -- Asked for a fixed range of the pool that is free, `vaddr_acquire` claims exactly that range.
  pub acquire_fixed :
      Free vp.vaddr_bitmap cnt idx
      → Claimed vp cnt idx (vaddr_acquire vp fixed_addr cnt).0 (vaddr_acquire vp fixed_addr cnt).1
  acquire_fixed free =
      rw (fixed-claim true _ (claim-Free vp.vaddr_bitmap idx cnt v.bitmap free)) (record {
        address = omega arith;
        inside = inside;
        was_free = free;
        now = λ j. check-set_run vp.vaddr_bitmap cnt idx j v.bitmap;
        same_start = refl;
        same_len = set_run-len vp.vaddr_bitmap cnt idx;
        valid = IsVPool-pages_with vp _ v (set_run-IsBitmap vp.vaddr_bitmap cnt idx v.bitmap);
      })

  -- Asked for a fixed range whose first page in use is its page number `before`, `vaddr_acquire`
  -- returns NULL, and yet leaves the free pages before that one marked as used.
  pub fixed_conflict_leaks :
      (before : ℕ)
      → before < cnt
      → Free vp.vaddr_bitmap before idx
      → page_used vp (idx + before) ≡ true
      → ((vaddr_acquire vp fixed_addr cnt).0 ≡ 0)
        × ((j : ℕ)
            → page_used (vaddr_acquire vp fixed_addr cnt).1 j
              ≡ (in_run idx before j || page_used vp j))
  fixed_conflict_leaks before lt free used =
      rw (fixed-claim false _ (claim_conflict vp.vaddr_bitmap idx before cnt v.bitmap lt free used))
        (refl, λ j. check-set_run vp.vaddr_bitmap before idx j v.bitmap)

after_release : VPool → Option Bitmap → Option VPool
after_release vp r = elim r [ none ↦ none | some b ↦ some (pages_with vp b) ]

-- `vaddr_release` of pages in use frees them and no others.
pub release_pages :
    (vp : VPool) (cnt idx : ℕ)
    → IsVPool vp
    → unit_addr vp.vaddr_start idx < 2 ^ 32
    → ((j : ℕ) → idx ≤ j → j < idx + cnt → page_used vp j ≡ true)
    → (vp' : VPool) × (vaddr_release vp (unit_addr vp.vaddr_start idx) cnt ≡ some vp')
      × IsVPool vp'
      × ((j : ℕ) → page_used vp' j ≡ (not (in_run idx cnt j) && page_used vp j))
unfolding vaddr_release after_release
release_pages vp cnt idx v below used =
    let r = release-ReleaseEffect vp.vaddr_bitmap idx cnt v.bitmap used in
    let eff = r.2 in
    (
      pages_with vp r.0,
      ap (λ i. after_release vp (bitmap_release vp.vaddr_bitmap i cnt))
            (unit_index vp.vaddr_start idx below)
          ∙ ap (after_release vp) r.1,
      IsVPool-pages_with vp r.0 v eff.valid,
      eff.bits,
    )
