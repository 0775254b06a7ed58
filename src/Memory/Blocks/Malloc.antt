-- ===== src/Memory/Blocks/Malloc.antt =====
-- `sys_malloc` and `sys_free` of code/kernel/src/memory.c: which class or how many pages a request
-- gets, and what freeing it does.
use k_os.Base.{
  ℕ, suc, ◌+◌, ◌*◌, ◌/◌, ◌%◌, ◌^◌, ◌≤◌, ◌<◌, ◌≡◌, ◌≢◌, refl, true, false, none, some, ==_refl,
  ==_ne, [], ltb, update, arith, ap, ◌∙◌, sym, subst,
}
use k_os.Base.Word.{u32, div_round_up}
use k_os.LinkedList.{null}
use k_os.LinkedList.Links.{has, nodes, IsList}
use k_os.Memory.Pool.{pg_size}
use k_os.Memory.Pool.Laws.{page_used}
use k_os.Memory.PageTable.{pte_ptr, is_present}
use k_os.Memory.Pages.{Kernel, page_acquire, page_release}
use k_os.Memory.Pages.Laws.{page_at}
use k_os.Memory.Pages.Acquire.{IsKernel, HasRoom}
use k_os.Memory.Pages.RoundTrip.{page_release-page_acquire}
use k_os.Memory.Blocks.{
  Arena, BlockHeap, arena_size, mem_block_cnt, desc_at, free_list, inside, block2arena, memset_zero,
  size_class, page_cnt_of, malloc_pages, release_page, mem_acquire, mem_release, sys_malloc,
  sys_free, read_header,
}
use k_os.Memory.Blocks.Sizes.{HasSizes, FirstFit, IsArena, sizes-FirstFit}
use k_os.Memory.Blocks.Refill.{block_addr}
use k_os.Memory.Blocks.Acquire.{block2arena-first}
use k_os.Memory.Blocks.RoundTrip.{mem_release-mem_acquire}

-- With the sizes that `mem_block_init` sets, a request of up to 1024 bytes gets a block of the
-- first class that is large enough; there is one.
pub sys_malloc-FirstFit :
    (h : BlockHeap) (k_mem_block size : ℕ)
    → HasSizes h k_mem_block
    → size ≤ 1024
    → (idx : ℕ) × (idx < mem_block_cnt)
      × FirstFit h k_mem_block size 0 idx
      × (sys_malloc h k_mem_block size ≡ mem_acquire h k_mem_block idx)
unfolding sys_malloc
sys_malloc-FirstFit h k_mem_block size sizes small =
    let found = sizes-FirstFit h k_mem_block size sizes small in
    let few : ltb 1024 size ≡ false = ground (arith, small) in
    (size_class mem_block_cnt h k_mem_block size 0, found.0, found.1, rw few refl)

-- As many pages as the request and the header need, unless the sum wraps around.
page_cnt-bounds :
    (size : ℕ)
    → 1024 < size
    → size + arena_size + pg_size ≤ 2 ^ 32
    → (size + arena_size ≤ page_cnt_of size * pg_size)
      × (page_cnt_of size * pg_size < size + arena_size + pg_size)
      × (page_cnt_of size * pg_size < 2 ^ 32)
unfolding div_round_up
page_cnt-bounds size large small =
    (omega (arith, large, small), omega (arith, large, small), omega (arith, large, small))

-- A header in front of the pages.
abbrev large_header : (cnt : ℕ) → Arena
large_header cnt = record { p_mem_block = 0; cnt = cnt; is_page_cnt = true }

module _ (h : BlockHeap) (k_mem_block size cnt a : ℕ) (k : Kernel) (large : 1024 < size)
    (pages : page_cnt_of size ≡ cnt) (page : page_acquire h.kernel 0 cnt ≡ (a, k))
    (aligned : a % 2 ^ 12 ≡ 0) (below : a < 2 ^ 32) (ne : a ≢ null) where
  abbrev large_block : BlockHeap
  large_block =
      let clean = memset_zero (record h { kernel = k }) a (u32 (cnt * pg_size)) in
      record clean { arenas = update clean.arenas a (large_header cnt) }

  malloc_large : sys_malloc h k_mem_block size ≡ some (a + arena_size, large_block)
  unfolding sys_malloc malloc_pages
  malloc_large =
      let many : ltb 1024 size ≡ true = ground (arith, large) in
      let at : u32 (a + arena_size) ≡ a + arena_size = omega (arith, aligned, below) in
      rw (many, malloc_pages, pages, page, ==_ne a null ne, at) refl

  free_large :
      (k' : Kernel)
      → page_release k a cnt ≡ some k'
      → sys_free large_block (a + arena_size) ≡ some (record large_block { kernel = k' })
  unfolding sys_free block2arena memset_zero
  free_large k' back =
      let at : (a + arena_size) / 2 ^ 12 * 2 ^ 12 ≡ a = omega (arith, aligned) in
      rw (sys_free, block2arena, at, ==_refl a, release_page, back) refl

-- A request above 1024 bytes, where pages are free and the sums do not wrap around: `sys_malloc`
-- returns the address behind a header in front of as many pages as hold header and request, less
-- than one page more; and `sys_free` of that address releases just these pages.
pub sys_free-sys_malloc :
    (h : BlockHeap) (k_mem_block size a : ℕ) (k k' : Kernel)
    → 1024 < size
    → size + arena_size + pg_size ≤ 2 ^ 32
    → page_acquire h.kernel 0 (page_cnt_of size) ≡ (a, k)
    → a % 2 ^ 12 ≡ 0
    → a < 2 ^ 32
    → a ≢ null
    → page_release k a (page_cnt_of size) ≡ some k'
    → (size + arena_size ≤ page_cnt_of size * pg_size)
      × (page_cnt_of size * pg_size < size + arena_size + pg_size)
      × (between after : BlockHeap) × (sys_malloc h k_mem_block size
          ≡ some (a + arena_size, between))
      × (sys_free between (a + arena_size) ≡ some after)
      × (after.kernel ≡ k')
sys_free-sys_malloc h k_mem_block size a k k' large small page aligned below ne back =
    let cnt = page_cnt_of size in
    let bounds = page_cnt-bounds size large small in
    let block = large_block h k_mem_block size cnt a k large refl page aligned below ne in
    (
      bounds.0,
      bounds.1,
      block,
      record block { kernel = k' },
      malloc_large h k_mem_block size cnt a k large refl page aligned below ne,
      free_large h k_mem_block size cnt a k large refl page aligned below ne k' back,
      refl,
    )

-- A request of 2 ^ 32 - 11 bytes or more: the sum with the size of the header wraps around, and
-- `sys_malloc` answers with a single page.
pub sys_malloc_wraps :
    (h : BlockHeap) (k_mem_block size a : ℕ) (k : Kernel)
    → 2 ^ 32 ≤ size + 11
    → size < 2 ^ 32
    → page_acquire h.kernel 0 1 ≡ (a, k)
    → a % 2 ^ 12 ≡ 0
    → a < 2 ^ 32
    → a ≢ null
    → (after : BlockHeap) × (sys_malloc h k_mem_block size ≡ some (a + arena_size, after))
      × (after.arenas a ≡ record { p_mem_block = 0; cnt = 1; is_page_cnt = true })
unfolding div_round_up
sys_malloc_wraps h k_mem_block size a k huge below_word page aligned below ne =
    let large : 1024 < size = omega (arith, huge) in
    let one : page_cnt_of size ≡ 1 = omega (arith, huge, below_word) in
    (
      large_block h k_mem_block size 1 a k large one page aligned below ne,
      malloc_large h k_mem_block size 1 a k large one page aligned below ne,
      rw (==_refl a) refl,
    )

small_malloc :
    (h : BlockHeap) (k_mem_block size idx : ℕ)
    → size ≤ 1024
    → size_class mem_block_cnt h k_mem_block size 0 ≡ idx
    → sys_malloc h k_mem_block size ≡ mem_acquire h k_mem_block idx
unfolding sys_malloc
small_malloc h k_mem_block size idx small class =
    let few : ltb 1024 size ≡ false = ground (arith, small) in rw (sys_malloc, few, class) refl

read_header-gone :
    (h : BlockHeap) (a : ℕ)
    → is_present (h.kernel.words (pte_ptr a)) ≡ false
    → read_header h a ≡ none
unfolding read_header
read_header-gone h a gone = rw gone refl

-- `sys_free` of a block goes by the header of its arena, which it reads again at the end.
free_block :
    (h after : BlockHeap) (vaddr a : ℕ)
    → block2arena vaddr ≡ a
    → (h.arenas a).is_page_cnt ≡ false
    → mem_release h vaddr ≡ some after
    → is_present (after.kernel.words (pte_ptr a)) ≡ false
    → sys_free h vaddr ≡ none
unfolding sys_free
free_block h after vaddr a at block release gone =
    let unmapped : read_header after (block2arena vaddr) ≡ none =
      subst (λ x. read_header after x ≡ none) (sym at) (read_header-gone after a gone) in
    let header : (h.arenas (block2arena vaddr)).is_page_cnt ≡ false =
      subst (λ x. (h.arenas x).is_page_cnt ≡ false) (sym at) block in
    rw (sys_free, header, release) unmapped

-- What `page_release` makes of the page that `page_acquire` has returned.
released :
    (k taken : Kernel) (a m : ℕ)
    → IsKernel k
    → HasRoom k 1 m
    → page_acquire k 0 1 ≡ (a, taken)
    → a ≢ 0
    → (k' : Kernel) × (page_release taken a 1 ≡ some k')
      × ((j : ℕ) → page_used k'.k_v_pool j ≡ page_used k.k_v_pool j)
      × (is_present (k'.words (pte_ptr (page_at a 0))) ≡ false)
released k taken a m is room page ne =
    let r =
      page_release-page_acquire k 1 m is (omega arith) room
        (subst (λ x. x ≢ 0) (sym (ap (λ t. t.0) page)) ne) in
    let both =
      subst
        (λ (t : ℕ × Kernel).
          (page_release t.1 t.0 1 ≡ some r.0)
          × (is_present (r.0.words (pte_ptr (page_at t.0 0))) ≡ false))
        page (r.1, r.3 0 (omega arith)) in
    (r.0, both.0, r.2, both.1)

-- A request of up to 1024 bytes of a class without free blocks, where a page is free: `sys_malloc`
-- returns the first block of a new arena. When that block is freed next, `mem_release` leaves the free
-- list empty and the virtual pages in use that were in use before, and the arena's page is no longer
-- mapped; so `sys_free`, which then unlocks the mutex that it finds through the arena's header, reads a
-- page that is not present. The sentinels of the free list lie outside the page.
pub sys_free_unmapped :
    (h : BlockHeap) (k_mem_block size idx block_size left a m : ℕ) (k : Kernel)
    → size ≤ 1024
    → size_class mem_block_cnt h k_mem_block size 0 ≡ idx
    → IsKernel h.kernel
    → HasRoom h.kernel 1 m
    → page_acquire h.kernel 0 1 ≡ (a, k)
    → k_mem_block ≢ null
    → IsArena (h.descs (desc_at k_mem_block idx)) a block_size (suc left)
    → (h.descs (desc_at k_mem_block idx)).blocks_per_arena ≡ suc left
    → IsList h.links (free_list (desc_at k_mem_block idx)) []
    → ((x : ℕ)
        → has x (nodes (free_list (desc_at k_mem_block idx)) []) ≡ true
        → inside a pg_size x ≡ false)
    → (between after : BlockHeap) × (sys_malloc h k_mem_block size ≡ some (a + arena_size, between))
      × (mem_release between (a + arena_size) ≡ some after)
      × IsList after.links (free_list (desc_at k_mem_block idx)) []
      × ((j : ℕ) → page_used after.kernel.k_v_pool j ≡ page_used h.kernel.k_v_pool j)
      × (is_present (after.kernel.words (pte_ptr a)) ≡ false)
      × (sys_free between (a + arena_size) ≡ none)
sys_free_unmapped h k_mem_block size idx block_size left a m k small class is room page ne arena
      split_in free away =
    let r = released h.kernel k a m is room page (omega (arith, arena.positive)) in
    let trip =
      mem_release-mem_acquire h k_mem_block idx block_size left a k r.0 page r.1 ne arena split_in
        free away in
    let first : block_addr a block_size 0 ≡ a + arena_size = omega arith in
    let at : page_at a 0 ≡ a = omega (arith, arena.below) in
    let gone : is_present (trip.1.kernel.words (pte_ptr a)) ≡ false =
      subst (λ kernel. is_present (kernel.words (pte_ptr a)) ≡ false) (sym trip.5)
        (subst (λ x. is_present (r.0.words (pte_ptr x)) ≡ false) at r.3) in
    let freed = subst (λ b. mem_release trip.0 b ≡ some trip.1) first trip.3 in
    (
      trip.0,
      trip.1,
      small_malloc h k_mem_block size idx small class
          ∙ subst (λ b. mem_acquire h k_mem_block idx ≡ some (b, trip.0)) first trip.2,
      freed,
      trip.4,
      λ j. ap (λ kernel. page_used kernel.k_v_pool j) trip.5 ∙ r.2 j,
      gone,
      free_block trip.0 trip.1 (a + arena_size) a
          (subst (λ b. block2arena b ≡ a) first (block2arena-first a block_size (suc left) arena))
          trip.6 freed gone,
    )
