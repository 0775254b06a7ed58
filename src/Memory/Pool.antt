-- ===== src/Memory/Pool.antt =====
-- code/kernel/src/memory.c: physical frames and virtual pages handed out from bitmaps
-- (`palloc`, `pfree`, `vaddr_acquire`, `vaddr_release`). An address of 0 is NULL.
-- The mutex of a pool is not part of it: a call here is what runs between lock and unlock.
pub mod Laws
pub mod Vaddr
use k_os.Base.{
  ℕ, zero, suc, ◌+◌, ◌*◌, ◌/◌, Bool, true, false, Option, none, some, ◌==◌, if◌then◌else◌,
}
use k_os.Base.Word.{u32, sub32}
use k_os.Bitmap.{Bitmap, bitmap_set, bitmap_check, bitmap_acquire, bitmap_release}

abbrev pub pg_size : ℕ
pg_size = 4096

-- `struct p_pool`
pub record PPool : Type 0 where
  pub paddr_start : ℕ
  pub size : ℕ
  pub paddr_bitmap : Bitmap

-- `struct v_pool`
pub record VPool : Type 0 where
  pub vaddr_start : ℕ
  pub vaddr_bitmap : Bitmap

-- The fixed-address branch: checks and sets the bits one after another, and stops at a set bit
-- with the earlier ones set.
unfoldable pub claim_fixed : Bitmap → (btmp_idx pg_cnt : ℕ) → Bool × Bitmap
claim_fixed b btmp_idx zero = (true, b)
claim_fixed b btmp_idx (suc left) =
    let rest = claim_fixed (bitmap_set b btmp_idx true) (btmp_idx + 1) left in
    if bitmap_check b btmp_idx then (false, b) else rest

unfoldable pub vaddr_acquire : VPool → (vaddr pg_cnt : ℕ) → ℕ × VPool
vaddr_acquire vp vaddr pg_cnt =
    let (found, b) = bitmap_acquire vp.vaddr_bitmap pg_cnt in
    let (claimed, c) = claim_fixed vp.vaddr_bitmap (sub32 vaddr vp.vaddr_start / pg_size) pg_cnt in
    if vaddr == 0
    then elim found [
      | none ↦ (0, record vp { vaddr_bitmap = b })
      | some idx ↦ (u32 (vp.vaddr_start + idx * pg_size), record vp { vaddr_bitmap = b })
    ]
    else (if claimed then vaddr else 0, record vp { vaddr_bitmap = c })

-- `none` is the failed assertion of `bitmap_release`.
unfoldable pub vaddr_release : VPool → (vaddr pg_cnt : ℕ) → Option VPool
vaddr_release vp vaddr pg_cnt =
    elim (bitmap_release vp.vaddr_bitmap (sub32 vaddr vp.vaddr_start / pg_size) pg_cnt) [
      | none ↦ none
      | some b ↦ some (record vp { vaddr_bitmap = b })
    ]

unfoldable pub palloc : PPool → ℕ × PPool
palloc pp =
    let (found, b) = bitmap_acquire pp.paddr_bitmap 1 in
    elim found [
      | none ↦ (0, record pp { paddr_bitmap = b })
      | some idx ↦ (u32 (pp.paddr_start + idx * pg_size), record pp { paddr_bitmap = b })
    ]

unfoldable pub pfree : PPool → ℕ → Option PPool
pfree pp paddr = elim (bitmap_release pp.paddr_bitmap (sub32 paddr pp.paddr_start / pg_size) 1) [
  | none ↦ none
  | some b ↦ some (record pp { paddr_bitmap = b })
]
