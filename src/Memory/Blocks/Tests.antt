-- ===== src/Memory/Blocks/Tests.antt =====
-- Runs of the block heap, and its theorems on pools of eight frames and eight pages.
use k_os.Base.{
  ℕ, ◌+◌, ◌-◌, ◌*◌, ◌/◌, ◌^◌, ◌≤◌, ◌<◌, ◌≡◌, refl, true, false, none, some, List, [], ◌∷◌, ◌++◌,
  update, arith, ap,
}
use k_os.Base.Bits.{bit_test, bit_set, bit_clear}
use k_os.Base.Word.{div_round_up}
use k_os.Bitmap.{
  bitmap_set, bitmap_check, bitmap_acquire, bitmap_release, byte_search, bit_search, run_search,
  set_run,
}
use k_os.Bitmap.Search.{Free}
use k_os.LinkedList.Links.{has, nodes, IsList}
use k_os.LinkedList.Ops.{initialised}
use k_os.Memory.Pool.{PPool, pg_size, vaddr_acquire, vaddr_release, palloc, pfree, claim_fixed}
use k_os.Memory.Pool.Laws.{page_used, IsPPool, IsVPool}
use k_os.Memory.Pages.Acquire.{HasRoom}
use k_os.Memory.PageTable.{
  is_present, pde_ptr, pte_ptr, addr_v2p, page_table_add, page_table_remove,
}
use k_os.Memory.Pages.{Kernel, page_acquire, page_release, map_pages, unmap_pages}
use k_os.Memory.Blocks.{
  MemBlockDesc, BlockHeap, arena_size, mem_block_cnt, desc_at, free_list, inside, size_class,
  page_cnt_of, mem_release, sys_malloc, sys_free,
}
use k_os.Memory.Blocks.Sizes.{HasSizes, IsArena}
use k_os.Memory.Blocks.Refill.{block_addr}
use k_os.Memory.Blocks.Malloc.{sys_free-sys_malloc, sys_malloc_wraps, sys_free_unmapped}

-- Frame 0 is in use, and pages 0 and 2.
abbrev kernel : Kernel
kernel =
    let frames : PPool = record {
      paddr_start = 0x200000;
      size = 0x8000;
      paddr_bitmap = record { len = 1; bits = update (λ i. 0) 0 0x01 };
    } in
    record {
      k_p_pool = frames;
      u_p_pool = frames;
      k_v_pool = record {
        vaddr_start = 0xC0100000;
        vaddr_bitmap = record { len = 1; bits = update (λ i. 0) 0 0x05 };
      };
      words = λ a. 0;
    }

-- The descriptors stand at 0x8000; the list of the last class is empty.
abbrev class_of : ℕ → MemBlockDesc
class_of idx = record { block_size = 16 * 2 ^ idx; blocks_per_arena = 4084 / (16 * 2 ^ idx) }

abbrev heap : BlockHeap
heap = record {
  kernel = kernel;
  arenas = λ a. record { p_mem_block = 0; cnt = 0; is_page_cnt = false };
  descs = λ d. class_of ((d - 0x8000) / 48);
  links = initialised (λ a. record { prev = 0; next = 0 }) (free_list (desc_at 0x8000 6));
}

heap-HasSizes : HasSizes heap 0x8000
heap-HasSizes idx below =
    let same : (0x8000 + idx * 48 - 0x8000) / 48 ≡ idx = omega arith in
    (ap (λ i. 16 * 2 ^ i) same, ap (λ i. 4084 / (16 * 2 ^ i)) same)

-- The page that a request for one page gets, and for two.
one_page :
    (k : Kernel) × (page_acquire kernel 0 1 ≡ (0xC0101000, k))
    × (k' : Kernel) × (page_release k 0xC0101000 1 ≡ some k')
unfolding page_acquire vaddr_acquire map_pages palloc page_table_add pde_ptr pte_ptr bitmap_acquire
    byte_search bit_search run_search set_run bitmap_set bitmap_check bit_test bit_set bit_clear
    claim_fixed page_release unmap_pages vaddr_release pfree bitmap_release addr_v2p
    page_table_remove
one_page = (_, refl, _, refl)

two_pages :
    (k : Kernel) × (page_acquire kernel 0 2 ≡ (0xC0103000, k))
    × (k' : Kernel) × (page_release k 0xC0103000 2 ≡ some k')
unfolding page_acquire vaddr_acquire map_pages palloc page_table_add pde_ptr pte_ptr bitmap_acquire
    byte_search bit_search run_search set_run bitmap_set bitmap_check bit_test bit_set bit_clear
    claim_fixed page_release unmap_pages vaddr_release pfree bitmap_release addr_v2p
    page_table_remove
two_pages = (_, refl, _, refl)

asks_two : page_cnt_of 5000 ≡ 2
unfolding div_round_up
asks_two = refl

sys_free-sys_malloc_example :
    (5012 ≤ page_cnt_of 5000 * pg_size)
    × (page_cnt_of 5000 * pg_size < 5000 + arena_size + pg_size)
    × (between after : BlockHeap) × (sys_malloc heap 0x8000 5000
        ≡ some (0xC0103000 + arena_size, between))
    × (sys_free between (0xC0103000 + arena_size) ≡ some after)
    × (after.kernel ≡ two_pages.2)
sys_free-sys_malloc_example =
    sys_free-sys_malloc heap 0x8000 5000 0xC0103000 two_pages.0 two_pages.2 (omega arith)
      (omega arith) (rw asks_two two_pages.1) refl (omega arith) (omega arith)
      (rw asks_two two_pages.3)

sys_malloc_wraps_example :
    (after : BlockHeap) × (sys_malloc heap 0x8000 0xfffffff8
      ≡ some (0xC0101000 + arena_size, after))
    × (after.arenas 0xC0101000 ≡ record { p_mem_block = 0; cnt = 1; is_page_cnt = true })
sys_malloc_wraps_example =
    sys_malloc_wraps heap 0x8000 0xfffffff8 0xC0101000 one_page.0 (omega arith) (omega arith)
      one_page.1 refl (omega arith) (omega arith)

last_class : size_class mem_block_cnt heap 0x8000 1000 0 ≡ 6
unfolding size_class
last_class = refl

last-IsArena : IsArena (heap.descs (desc_at 0x8000 6)) 0xC0101000 1024 3
last-IsArena = record {
  aligned = refl;
  below = omega arith;
  positive = omega arith;
  block_size = refl;
  fits = omega arith;
  room = omega arith;
}

nothing_free : IsList heap.links (free_list (desc_at 0x8000 6)) []
unfolding initialised
nothing_free = record { linked = (refl, refl); distinct = (refl, (refl, tt)); not_null = refl }

sentinels_low :
    (x : ℕ)
    → has x (nodes (free_list (desc_at 0x8000 6)) []) ≡ true
    → inside 0xC0101000 pg_size x ≡ false
sentinels_low x h = ground (arith, h)

frames-IsPPool : IsPPool kernel.k_p_pool
frames-IsPPool = record {
  bitmap = record { bytes = λ i. ground arith; small = omega arith };
  aligned = refl;
  positive = omega arith;
  fits = omega arith;
}

pages-IsVPool : IsVPool kernel.k_v_pool
pages-IsVPool = record {
  bitmap = record { bytes = λ i. ground arith; small = omega arith };
  aligned = refl;
  positive = omega arith;
}

page_3-Free : Free kernel.k_v_pool.vaddr_bitmap 1 3
unfolding bitmap_check bit_test
page_3-Free j le lt = let e : j ≡ 3 = omega arith in rw e page_3
  where
    page_3 : bitmap_check kernel.k_v_pool.vaddr_bitmap 3 ≡ false
    page_3 = refl

kernel-HasRoom : HasRoom kernel 1 3
kernel-HasRoom = record { inside = omega arith; below = omega arith; free = page_3-Free }

sys_free_unmapped_example :
    (between after : BlockHeap) × (sys_malloc heap 0x8000 1000
      ≡ some (0xC0101000 + arena_size, between))
    × (mem_release between (0xC0101000 + arena_size) ≡ some after)
    × IsList after.links (free_list (desc_at 0x8000 6)) []
    × ((j : ℕ) → page_used after.kernel.k_v_pool j ≡ page_used kernel.k_v_pool j)
    × (is_present (after.kernel.words (pte_ptr 0xC0101000)) ≡ false)
    × (sys_free between (0xC0101000 + arena_size) ≡ none)
sys_free_unmapped_example =
    sys_free_unmapped heap 0x8000 1000 6 1024 2 0xC0101000 3 one_page.0 (omega arith) last_class
      (record { frames = frames-IsPPool; pages = pages-IsVPool }) kernel-HasRoom one_page.1
      (omega arith) last-IsArena refl nothing_free sentinels_low

-- Two free blocks of the arena at 0xC0101000, around one of another arena.
abbrev other_two : List ℕ
other_two = 0xC010240C ∷ 0xC010100C ∷ []

abbrev used_heap : BlockHeap
used_heap = record {
  kernel = one_page.0;
  arenas = λ a. record { p_mem_block = desc_at 0x8000 6; cnt = 2; is_page_cnt = false };
  descs = heap.descs;
  links =
      update
        (update
          (update
            (update
              (update (λ a. record { prev = 0; next = 0 }) 0x8128
                (record { prev = 0; next = 0xC010180C }))
              0xC010180C (record { prev = 0x8128; next = 0xC010240C }))
            0xC010240C (record { prev = 0xC010180C; next = 0xC010100C }))
          0xC010100C (record { prev = 0xC010240C; next = 0x8130 }))
        0x8130 (record { prev = 0xC010100C; next = 0 });
}

used-IsList : IsList used_heap.links (free_list (desc_at 0x8000 6)) (0xC010180C ∷ other_two)
used-IsList = record {
  linked = (refl, refl, (refl, refl, (refl, refl, (refl, refl))));
  distinct = ground arith;
  not_null = refl;
}

all_free :
    (j : ℕ)
    → j < 3
    → has (block_addr 0xC0101000 1024 j) ((0xC010180C ∷ other_two) ++ 0xC010140C ∷ []) ≡ true
all_free j below = ground (arith, below)
