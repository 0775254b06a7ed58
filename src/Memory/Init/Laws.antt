-- ===== src/Memory/Init/Laws.antt =====
-- `pool_init`: the pools that it sets up.
use k_os.Base.{ℕ, ◌+◌, ◌-◌, ◌*◌, ◌/◌, ◌^◌, ◌≤◌, ◌<◌, ◌≡◌, false, arith, ltb, if◌then◌else◌}
use k_os.Base.Word.{u32}
use k_os.Bitmap.{bitmap_init, bitmap_reset}
use k_os.Bitmap.Bits.{IsBitmap, reset-IsBitmap, reset_inside}
use k_os.Memory.Pool.{PPool, pg_size}
use k_os.Memory.Pool.Laws.{IsPPool, frame_used, page_used, unit_addr}
use k_os.Memory.PageTable.{Words}
use k_os.Memory.Pages.{Kernel}
use k_os.Memory.Pages.Acquire.{IsKernel}
use k_os.Memory.Init.{
  pool_init, kernel_free_pages, user_free_pages, paddr_bitmap_base, k_vaddr_bitmap_base, used_mem,
}

abbrev pub frames_end : PPool → ℕ
frames_end pp = unit_addr pp.paddr_start (pp.paddr_bitmap.len * 8)

module _ (storage : ℕ → ℕ → ℕ) (words : Words) (total : ℕ) (bytes : (a i : ℕ) → storage a i < 256)
    (least : used_mem ≤ total) (word : total < 2 ^ 32) where
  abbrev k : Kernel
  k = pool_init storage words total

  sizes :
      (kernel_free_pages total + user_free_pages total ≤ (total - used_mem) / pg_size)
      × (kernel_free_pages total ≤ 0x40000)
  sizes = ground arith

  kernel-IsBitmap : IsBitmap (bitmap_init (storage paddr_bitmap_base) (kernel_free_pages total / 8))
  unfolding bitmap_init
  kernel-IsBitmap = record { bytes = bytes _; small = omega (arith, sizes) }

  user-IsBitmap : IsBitmap (
      bitmap_init
        (storage (paddr_bitmap_base + kernel_free_pages total / 8))
        (user_free_pages total / 8))
  unfolding bitmap_init
  user-IsBitmap = record { bytes = bytes _; small = omega (arith, sizes) }

  pages-IsBitmap : IsBitmap (bitmap_init (storage k_vaddr_bitmap_base) 0x8000)
  unfolding bitmap_init
  pages-IsBitmap = record { bytes = bytes _; small = omega arith }

  -- After `pool_init`, on a machine with 2 MB of memory at least, all three pools are well formed.
  pub pool_init-IsKernel : IsKernel k × IsPPool k.u_p_pool
  unfolding pool_init bitmap_init bitmap_reset
  pool_init-IsKernel = (
    record {
      frames = record {
        bitmap = reset-IsBitmap _ kernel-IsBitmap;
        aligned = omega arith;
        positive = omega arith;
        fits = omega (arith, sizes);
      };
      pages = record {
        bitmap = reset-IsBitmap _ pages-IsBitmap;
        aligned = omega arith;
        positive = omega arith;
      };
    },
    record {
      bitmap = reset-IsBitmap _ user-IsBitmap;
      aligned = omega (arith, sizes);
      positive = omega (arith, sizes);
      fits = omega (arith, sizes);
    },
  )

  -- The frames of the kernel pool lie behind the reserved memory, those of the user pool behind
  -- them, and all of them within the memory that there is; the two physical bitmaps fit into the
  -- space before the virtual bitmap.
  pub pool_init_disjoint :
      (used_mem ≤ k.k_p_pool.paddr_start)
      × (frames_end k.k_p_pool ≤ k.u_p_pool.paddr_start)
      × (frames_end k.u_p_pool ≤ total)
      × (paddr_bitmap_base + k.k_p_pool.paddr_bitmap.len + k.u_p_pool.paddr_bitmap.len
          ≤ k_vaddr_bitmap_base)
  unfolding pool_init bitmap_init bitmap_reset
  pool_init_disjoint =
      (omega arith, omega (arith, sizes), omega (arith, sizes), omega (arith, sizes))

  -- After `pool_init` no frame and no page of a pool is in use.
  pub pool_init_free :
      (j : ℕ)
      → (j < k.k_p_pool.paddr_bitmap.len * 8 → frame_used k.k_p_pool j ≡ false)
        × (j < k.u_p_pool.paddr_bitmap.len * 8 → frame_used k.u_p_pool j ≡ false)
        × (j < k.k_v_pool.vaddr_bitmap.len * 8 → page_used k.k_v_pool j ≡ false)
  unfolding pool_init
  pool_init_free j =
      (λ lt. reset_inside _ j lt, λ lt. reset_inside _ j lt, λ lt. reset_inside _ j lt)

  -- The virtual pool reaches past the last address: its page numbers from 0x3ff00 on stand, after
  -- the wrap-around of 32 bits, for addresses in the first megabyte, and those from 0x3fb00 to
  -- there for the page tables themselves.
  pub v_pool_overruns :
      (j : ℕ)
      → 0x3fb00 ≤ j
      → j < 0x40000
      → (j < k.k_v_pool.vaddr_bitmap.len * 8)
        × (u32 (unit_addr k.k_v_pool.vaddr_start j) ≡ (
            if ltb j 0x3ff00
            then 0xffc00000 + (j - 0x3fb00) * pg_size
            else (j - 0x3ff00) * pg_size))
  unfolding pool_init bitmap_init bitmap_reset
  v_pool_overruns j ge lt = (omega arith, ground arith)
