-- ===== src/Memory/Blocks.antt =====
-- code/kernel/src/memory.c: the block heap (`mem_acquire`, `mem_release`, `sys_malloc`, `sys_free`,
-- `mem_block_init`), on the pages of Memory/Pages and the lists of LinkedList. The memory is seen as
-- the code reads it: a header at the start of an arena, two links at a free block. What the users
-- of the blocks write there is not modelled. `none` is a failed assertion, a fault at NULL, or in
-- `sys_free` the read of a page that is not mapped. No lock is contended, so that locking and unlocking
-- one leaves it as it was.
pub mod Sizes
pub mod Refill
pub mod Acquire
pub mod Release
pub mod RoundTrip
pub mod Malloc
mod Tests
use k_os.Base.{
  ℕ, zero, suc, ◌+◌, ◌-◌, ◌*◌, ◌/◌, ◌^◌, Bool, true, false, ◌&&◌, Option, none, some, ◌==◌, ltb,
  leb, if◌then◌else◌, update,
}
use k_os.Base.Word.{u32, sub32, div_round_up}
use k_os.LinkedList.{Heap, null, list_init, list_append, list_empty, list_pop, list_remove}
use k_os.Memory.Pool.{pg_size}
use k_os.Memory.PageTable.{pte_ptr, is_present}
use k_os.Memory.Pages.{Kernel, page_acquire, page_release}
use k_os.Memory.Init.{pool_init}

-- `struct arena`
pub record Arena : Type 0 where
  pub p_mem_block : ℕ
  pub cnt : ℕ
  pub is_page_cnt : Bool

-- `struct mem_block_desc`, less its list and its lock.
pub record MemBlockDesc : Type 0 where
  pub block_size : ℕ
  pub blocks_per_arena : ℕ

-- Arenas and descriptors stand at addresses.
pub record BlockHeap : Type 0 where
  pub kernel : Kernel
  pub arenas : ℕ → Arena
  pub descs : ℕ → MemBlockDesc
  pub links : Heap

-- `sizeof(struct arena)`
abbrev pub arena_size : ℕ
arena_size = 12

abbrev pub mem_block_cnt : ℕ
mem_block_cnt = 7

-- `&mblock[idx]`: a descriptor has 48 bytes, its list begins at the ninth.
abbrev pub desc_at : (mblock idx : ℕ) → ℕ
desc_at mblock idx = mblock + idx * 48

abbrev pub free_list : ℕ → ℕ
free_list desc = desc + 8

abbrev pub inside : (from size addr : ℕ) → Bool
inside from size addr = leb from addr && ltb addr (from + size)

-- `memset(from, 0, size)`, on what the memory holds at an address.
unfoldable pub wiped : {A : Type 0} → A → (from size : ℕ) → (ℕ → A) → ℕ → A
wiped nothing from size memory addr = if inside from size addr then nothing else memory addr

unfoldable pub memset_zero : BlockHeap → (from size : ℕ) → BlockHeap
memset_zero h from size = record h {
  arenas = wiped (record { p_mem_block = 0; cnt = 0; is_page_cnt = false }) from size h.arenas;
  links = wiped (record { prev = 0; next = 0 }) from size h.links;
}

unfoldable pub arena2block : BlockHeap → (a idx : ℕ) → ℕ
arena2block h a idx = u32 (a + arena_size + idx * (h.descs (h.arenas a).p_mem_block).block_size)

unfoldable pub block2arena : ℕ → ℕ
block2arena b = b / 2 ^ 12 * 2 ^ 12

-- The loop of `mem_acquire`, with the rounds that are left.
unfoldable pub split_arena : (left : ℕ) → BlockHeap → (a idx : ℕ) → Option BlockHeap
split_arena zero h a idx = some h
split_arena (suc left) h a idx =
    elim (list_append (free_list (h.arenas a).p_mem_block) (arena2block h a idx) h.links) [
      | none ↦ none
      | some (done, links) ↦ split_arena left (record h { links = links }) a (idx + 1)
    ]

-- A new arena for an empty list; false if there is no page.
unfoldable pub refill : BlockHeap → (desc : ℕ) → Option (Bool × BlockHeap)
refill h desc =
    let (a, k) = page_acquire h.kernel 0 1 in
    let clean = memset_zero (record h { kernel = k }) a pg_size in
    let header : Arena = record {
      p_mem_block = desc;
      cnt = (h.descs desc).blocks_per_arena;
      is_page_cnt = false;
    } in
    if a == 0
    then some (false, record h { kernel = k })
    else elim (split_arena (h.descs desc).blocks_per_arena
        (record clean { arenas = update clean.arenas a header }) a 0) [
          | none ↦ none
          | some full ↦ some (true, full)
        ]

abbrev pub with_cnt : BlockHeap → (a cnt : ℕ) → BlockHeap
with_cnt h a cnt = record h { arenas = update h.arenas a (record (h.arenas a) { cnt = cnt }) }

-- The second half of `mem_acquire`.
unfoldable pub take_block : BlockHeap → (desc : ℕ) → Option (ℕ × BlockHeap)
take_block h desc = elim (list_pop (free_list desc) h.links) [
  | none ↦ none
  | some (b, links) ↦
      let clean = memset_zero (record h { links = links }) b (h.descs desc).block_size in
      let a = block2arena b in
      if b == null then none else some (b, with_cnt clean a (sub32 (clean.arenas a).cnt 1))
]

-- An answer of 0 is NULL.
unfoldable pub mem_acquire : BlockHeap → (mblock mblock_idx : ℕ) → Option (ℕ × BlockHeap)
mem_acquire h mblock mblock_idx =
    let desc = desc_at mblock mblock_idx in
    elim (list_empty (free_list desc) h.links) [
      | none ↦ none
      | some (true, links) ↦ elim (refill h desc) [
        | none ↦ none
        | some (false, h') ↦ some (0, h')
        | some (true, h') ↦ take_block h' desc
      ]
      | some (false, links) ↦ take_block h desc
    ]

-- The loop of `mem_release`, with the rounds that are left.
unfoldable pub unlink_blocks : (left : ℕ) → BlockHeap → (a idx : ℕ) → Option BlockHeap
unlink_blocks zero h a idx = some h
unlink_blocks (suc left) h a idx = elim (list_remove (arena2block h a idx) h.links) [
  | none ↦ none
  | some (done, links) ↦ unlink_blocks left (record h { links = links }) a (idx + 1)
]

abbrev pub release_page : BlockHeap → (a cnt : ℕ) → Option BlockHeap
release_page h a cnt = elim (page_release h.kernel a cnt) [
  | none ↦ none
  | some k ↦ some (record h { kernel = k })
]

-- Once every block of an arena is free.
unfoldable pub drop_arena : BlockHeap → (a : ℕ) → Option BlockHeap
drop_arena h a = elim (unlink_blocks (h.descs (h.arenas a).p_mem_block).blocks_per_arena h a 0) [
  | none ↦ none
  | some h' ↦ release_page h' a 1
]

unfoldable pub mem_release : BlockHeap → (vaddr : ℕ) → Option BlockHeap
mem_release h vaddr =
    let a = block2arena vaddr in
    let desc = (h.arenas a).p_mem_block in
    elim (list_append (free_list desc) vaddr h.links) [
      | none ↦ none
      | some (done, links) ↦
          let h' = with_cnt (record h { links = links }) a (u32 ((h.arenas a).cnt + 1)) in
          if desc == null
          then none
          else if (h'.arenas a).cnt == (h.descs desc).blocks_per_arena
          then drop_arena h' a
          else some h'
    ]

-- The loop of `sys_malloc`, with the rounds that are left.
unfoldable pub size_class : (left : ℕ) → BlockHeap → (mblock size idx : ℕ) → ℕ
size_class zero h mblock size idx = idx
size_class (suc left) h mblock size idx =
    let rest = size_class left h mblock size (idx + 1) in
    if leb size (h.descs (desc_at mblock idx)).block_size then idx else rest

abbrev pub page_cnt_of : (size : ℕ) → ℕ
page_cnt_of size = div_round_up (u32 (size + arena_size)) pg_size

-- `sys_malloc` for sizes above 1024.
unfoldable pub malloc_pages : BlockHeap → (size : ℕ) → ℕ × BlockHeap
malloc_pages h size =
    let page_cnt = page_cnt_of size in
    let (a, k) = page_acquire h.kernel 0 page_cnt in
    let clean = memset_zero (record h { kernel = k }) a (u32 (page_cnt * pg_size)) in
    let header : Arena = record { p_mem_block = 0; cnt = page_cnt; is_page_cnt = true } in
    if a == 0
    then (0, record h { kernel = k })
    else (u32 (a + arena_size), record clean { arenas = update clean.arenas a header })

unfoldable pub sys_malloc : BlockHeap → (k_mem_block size : ℕ) → Option (ℕ × BlockHeap)
sys_malloc h k_mem_block size =
    if ltb 1024 size
    then some (malloc_pages h size)
    else mem_acquire h k_mem_block (size_class mem_block_cnt h k_mem_block size 0)

-- `mutex_unlock(&a->p_mem_block->mlock)` after the block is released: it reads the header of the arena,
-- whose page must still be mapped.
unfoldable pub read_header : BlockHeap → (a : ℕ) → Option BlockHeap
read_header h a = if is_present (h.kernel.words (pte_ptr a)) then some h else none

unfoldable pub sys_free : BlockHeap → (vaddr : ℕ) → Option BlockHeap
sys_free h vaddr =
    let a = block2arena vaddr in
    let released : Option BlockHeap = elim (mem_release h vaddr) [
      | none ↦ none
      | some h' ↦ read_header h' a
    ] in
    if (h.arenas a).is_page_cnt then release_page h a (h.arenas a).cnt else released

-- The loop of `mem_block_init`, with the rounds that are left.
unfoldable pub init_classes :
    (left : ℕ) → BlockHeap → (p_mem_block idx block_size : ℕ) → Option BlockHeap
init_classes zero h p_mem_block idx block_size = some h
init_classes (suc left) h p_mem_block idx block_size =
    let desc = desc_at p_mem_block idx in
    let sizes : MemBlockDesc = record {
      block_size = block_size;
      blocks_per_arena = (pg_size - arena_size) / block_size;
    } in
    elim (list_init (free_list desc) h.links) [
      | none ↦ none
      | some (done, links) ↦
          init_classes left (record h { descs = update h.descs desc sizes; links = links })
            p_mem_block (idx + 1) (u32 (block_size * 2))
    ]

unfoldable pub mem_block_init : BlockHeap → (p_mem_block : ℕ) → Option BlockHeap
mem_block_init h p_mem_block = init_classes mem_block_cnt h p_mem_block 0 16

-- `mem_init`, with the size of the memory that the boot loader has stored and `storage` as in
-- `pool_init`.
unfoldable pub mem_init :
    (storage : ℕ → ℕ → ℕ)
    → (mem_total_size : ℕ) → (h : BlockHeap) → (k_mem_block : ℕ) → Option BlockHeap
mem_init storage mem_total_size h k_mem_block =
    mem_block_init (record h { kernel = pool_init storage h.kernel.words mem_total_size })
      k_mem_block
