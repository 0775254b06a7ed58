-- ===== src/Memory/Tests.antt =====
-- Runs of code/kernel/src/memory.c on pools of eight frames and eight pages, and its theorems there.
use k_os.Base.{
  ℕ, ◌+◌, ◌*◌, ◌/◌, ◌%◌, ◌≤◌, ◌<◌, ◌≡◌, refl, Bool, true, false, ◌||◌, some, update, arith, dec_lt,
}
use k_os.Base.Bits.{bit_test, bit_set, bit_clear, bit_test_full}
use k_os.Base.Word.{u32}
use k_os.Bitmap.{
  bitmap_set, bitmap_check, bitmap_acquire, byte_search, bit_search, run_search, set_run,
}
use k_os.Bitmap.Bits.{in_run}
use k_os.Bitmap.Search.{Free}
use k_os.Memory.Pool.{PPool, VPool, vaddr_acquire, palloc, pfree, claim_fixed}
use k_os.Memory.Pool.Laws.{IsPPool, IsVPool, unit_addr, frame_used, page_used, pfree-palloc}
use k_os.Memory.Pool.Vaddr.{Claimed}
use k_os.Memory.PageTable.{Words, pde_ptr, pte_ptr, page_table_add}
use k_os.Memory.Pages.{Kernel, page_acquire, map_pages}
use k_os.Memory.Pages.Laws.{MapsRange}
use k_os.Memory.Pages.{page_release}
use k_os.Memory.Pages.Laws.{page_at}
use k_os.Memory.PageTable.{is_present}
use k_os.Memory.Pages.RoundTrip.{page_release-page_acquire}
use k_os.Memory.Pages.Acquire.{
  IsKernel, HasRoom, claimed_kernel, page_acquire_lem, page_acquire_leaks,
}
use k_os.Memory.Init.{pool_init, used_mem, paddr_bitmap_base, k_vaddr_bitmap_base}
use k_os.Memory.Init.Laws.{frames_end, pool_init_disjoint, v_pool_overruns}

-- Frame 0 is in use.
abbrev frames : PPool
frames = record {
  paddr_start = 0x200000;
  size = 0x8000;
  paddr_bitmap = record { len = 1; bits = update (λ i. 0) 0 0x01 };
}

abbrev no_frames : PPool
no_frames = record {
  paddr_start = 0x200000;
  size = 0x8000;
  paddr_bitmap = record { len = 1; bits = update (λ i. 0) 0 0xff };
}

-- Pages 0 and 2 are in use.
abbrev pages : VPool
pages = record {
  vaddr_start = 0xC0100000;
  vaddr_bitmap = record { len = 1; bits = update (λ i. 0) 0 0x05 };
}

abbrev kernel : Kernel
kernel = record { k_p_pool = frames; u_p_pool = frames; k_v_pool = pages; words = λ a. 0 }

frames-IsPPool : IsPPool frames
frames-IsPPool = record {
  bitmap = record { bytes = λ i. ground arith; small = omega arith };
  aligned = refl;
  positive = omega arith;
  fits = omega arith;
}

no_frames-IsPPool : IsPPool no_frames
no_frames-IsPPool = record {
  bitmap = record { bytes = λ i. ground arith; small = omega arith };
  aligned = refl;
  positive = omega arith;
  fits = omega arith;
}

pages-IsVPool : IsVPool pages
pages-IsVPool = record {
  bitmap = record { bytes = λ i. ground arith; small = omega arith };
  aligned = refl;
  positive = omega arith;
}

kernel-IsKernel : IsKernel kernel
kernel-IsKernel = record { frames = frames-IsPPool; pages = pages-IsVPool }

takes_frame_1 : (palloc frames).0 ≡ 0x201000
unfolding palloc bitmap_acquire byte_search bit_search
takes_frame_1 = refl

pfree-palloc_example :
    (pp' : PPool) × (pfree (palloc frames).1 (palloc frames).0 ≡ some pp')
    × ((j : ℕ) → frame_used pp' j ≡ frame_used frames j)
pfree-palloc_example = pfree-palloc frames frames-IsPPool (rw takes_frame_1 (omega arith))

page_check : ℕ → Bool
unfolding bitmap_check bit_test
page_check j = bitmap_check pages.vaddr_bitmap j

Free-from_3 : Free pages.vaddr_bitmap 2 3
unfolding bitmap_check bit_test
Free-from_3 j le lt = elim (dec_lt j 4) [
  | yes p ↦ let e : j ≡ 3 = omega arith in rw e page_3
  | no p ↦ let e : j ≡ 4 = omega arith in rw e page_4
]
  where
    page_3 : bitmap_check pages.vaddr_bitmap 3 ≡ false
    page_3 = refl

    page_4 : bitmap_check pages.vaddr_bitmap 4 ≡ false
    page_4 = refl

Free-page_1 : Free pages.vaddr_bitmap 1 1
unfolding bitmap_check bit_test
Free-page_1 j le lt = let e : j ≡ 1 = omega arith in rw e page_1
  where
    page_1 : bitmap_check pages.vaddr_bitmap 1 ≡ false
    page_1 = refl

page_2_used : page_used pages (1 + 1) ≡ true
unfolding bitmap_check bit_test
page_2_used = refl

kernel-HasRoom : HasRoom kernel 2 3
kernel-HasRoom = record { inside = omega arith; below = omega arith; free = Free-from_3 }

takes_pages_3_and_4 : (page_acquire kernel 0 2).0 ≡ 0xC0103000
unfolding page_acquire vaddr_acquire map_pages palloc page_table_add pde_ptr pte_ptr bitmap_acquire
    byte_search bit_search run_search set_run bitmap_set bitmap_check bit_test bit_set bit_clear
    claim_fixed
takes_pages_3_and_4 = refl

page_acquire_lem_example :
    (idx : ℕ) × Claimed pages 2 idx (page_acquire kernel 0 2).0 (page_acquire kernel 0 2).1.k_v_pool
    × MapsRange (claimed_kernel kernel 2) (page_acquire kernel 0 2).0 2 (page_acquire kernel 0 2).1
page_acquire_lem_example =
    page_acquire_lem kernel 2 3 kernel-IsKernel (omega arith) kernel-HasRoom
      (rw takes_pages_3_and_4 (omega arith))

page_release-page_acquire_example :
    (k' : Kernel) × (page_release (page_acquire kernel 0 2).1 (page_acquire kernel 0 2).0 2
      ≡ some k')
    × ((j : ℕ) → page_used k'.k_v_pool j ≡ page_used pages j)
    × ((i : ℕ)
        → i < 2
        → is_present (k'.words (pte_ptr (page_at (page_acquire kernel 0 2).0 i))) ≡ false)
    × ((j : ℕ) → frame_used kernel.k_p_pool j ≡ true → frame_used k'.k_p_pool j ≡ true)
page_release-page_acquire_example =
    page_release-page_acquire kernel 2 3 kernel-IsKernel (omega arith) kernel-HasRoom
      (rw takes_pages_3_and_4 (omega arith))

abbrev full_kernel : Kernel
full_kernel = record kernel { k_p_pool = no_frames }

all_frames_used : (j : ℕ) → j < no_frames.paddr_bitmap.len * 8 → frame_used no_frames j ≡ true
unfolding bitmap_check
all_frames_used j lt = let e : j / 8 ≡ 0 = omega arith in rw e (bit_test_full (j % 8) (omega arith))

page_acquire_leaks_example :
    ((page_acquire full_kernel 0 2).0 ≡ 0)
    × (idx : ℕ) × (idx ≤ 3)
    × Free pages.vaddr_bitmap 2 idx
    × ((j : ℕ)
        → page_used (page_acquire full_kernel 0 2).1.k_v_pool j
          ≡ (in_run idx 2 j || page_used pages j))
page_acquire_leaks_example =
    page_acquire_leaks full_kernel 2 3
      (record { frames = no_frames-IsPPool; pages = pages-IsVPool }) (omega arith)
      (record { inside = omega arith; below = omega arith; free = Free-from_3 }) all_frames_used

abbrev mapped_words : Words
mapped_words = (page_table_add (λ a. 0) frames 0xC0103000 0x201000).0

-- 32 MB of memory, all zero.
abbrev blank : ℕ → ℕ → ℕ
blank a i = 0

abbrev booted : Kernel
booted = pool_init blank (λ a. 0) 0x2000000

pool_init_disjoint_example :
    (used_mem ≤ booted.k_p_pool.paddr_start)
    × (frames_end booted.k_p_pool ≤ booted.u_p_pool.paddr_start)
    × (frames_end booted.u_p_pool ≤ 0x2000000)
    × (paddr_bitmap_base + booted.k_p_pool.paddr_bitmap.len + booted.u_p_pool.paddr_bitmap.len
        ≤ k_vaddr_bitmap_base)
pool_init_disjoint_example =
    pool_init_disjoint blank (λ a. 0) 0x2000000 (λ a i. omega arith) (omega arith) (omega arith)

v_pool_overruns_example :
    (0x3ff05 < booted.k_v_pool.vaddr_bitmap.len * 8)
    × (u32 (unit_addr booted.k_v_pool.vaddr_start 0x3ff05) ≡ 0x5000)
v_pool_overruns_example =
    v_pool_overruns blank (λ a. 0) 0x2000000 (λ a i. omega arith) (omega arith) (omega arith)
      0x3ff05 (omega arith) (omega arith)
