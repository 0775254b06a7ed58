-- ===== src/Memory/Init.antt =====
-- code/kernel/src/memory.c: `pool_init`.
pub mod Laws
use k_os.Base.{ℕ, ◌+◌, ◌-◌, ◌*◌, ◌/◌, ◌^◌, ltb, if◌then◌else◌}
use k_os.Base.Word.{u32, sub32}
use k_os.Bitmap.{Bitmap, bitmap_init, bitmap_reset}
use k_os.Memory.Pool.{PPool, VPool, pg_size}
use k_os.Memory.PageTable.{Words}
use k_os.Memory.Pages.{Kernel}

abbrev pub paddr_bitmap_base : ℕ
paddr_bitmap_base = 0xC0076000

abbrev pub k_vaddr_bitmap_base : ℕ
k_vaddr_bitmap_base = 0xC0096000

abbrev pub k_heap_start : ℕ
k_heap_start = 0xC0100000

abbrev pub used_mem : ℕ
used_mem = pg_size * 256 + 0x100000

abbrev pub all_free_pages : ℕ → ℕ
all_free_pages mem_total_size = sub32 mem_total_size used_mem / pg_size

-- Half of the free pages, at most 1 GB.
abbrev pub kernel_free_pages : ℕ → ℕ
kernel_free_pages mem_total_size =
    let half = all_free_pages mem_total_size / 2 in if ltb 0x40000 half then 0x40000 else half

abbrev pub user_free_pages : ℕ → ℕ
user_free_pages mem_total_size = all_free_pages mem_total_size - kernel_free_pages mem_total_size

-- `storage` gives the bytes in memory from an address on, where the bitmaps are put.
unfoldable pub pool_init : (storage : ℕ → ℕ → ℕ) → Words → (mem_total_size : ℕ) → Kernel
pool_init storage words mem_total_size =
    let kernel_pages = kernel_free_pages mem_total_size in
    let user_pages = user_free_pages mem_total_size in
    let kbm_length = kernel_pages / 8 in
    let ubm_length = user_pages / 8 in
    record {
      k_p_pool = record {
        paddr_start = used_mem;
        size = u32 (kernel_pages * pg_size);
        paddr_bitmap = bitmap_reset (bitmap_init (storage paddr_bitmap_base) kbm_length);
      };
      u_p_pool = record {
        paddr_start = u32 (used_mem + kernel_pages * pg_size);
        size = u32 (user_pages * pg_size);
        paddr_bitmap =
            bitmap_reset (bitmap_init (storage (paddr_bitmap_base + kbm_length)) ubm_length);
      };
      k_v_pool = record {
        vaddr_start = k_heap_start;
        vaddr_bitmap = bitmap_reset (bitmap_init (storage k_vaddr_bitmap_base) 0x8000);
      };
      words = words;
    }
