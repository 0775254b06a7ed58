-- ===== src/Memory/Blocks/Acquire.antt =====
-- `mem_acquire` of code/kernel/src/memory.c: a block from the free list, which an empty one first
-- gets from a new page.
use k_os.Base.{
  ℕ, zero, suc, ◌+◌, ◌*◌, ◌-◌, ◌^◌, ◌≤◌, ◌<◌, ◌≡◌, inl, inr, refl, true, false, some, ◌==◌, ==_refl,
  List, [], ◌∷◌, arith, ap, Bool-cases, ◌∙◌,
}
use k_os.Base.Word.{sub32}
use k_os.LinkedList.{Heap, null, list_pop}
use k_os.LinkedList.Links.{has, nodes, IsList, has-append}
use k_os.LinkedList.Ops.{empty_iff, pop-cons}
use k_os.Memory.Pool.{pg_size}
use k_os.Memory.Pages.{Kernel, page_acquire}
use k_os.Memory.Blocks.{
  Arena, MemBlockDesc, BlockHeap, arena_size, desc_at, free_list, inside, wiped, memset_zero,
  block2arena, refill, take_block, with_cnt, mem_acquire,
}
use k_os.Memory.Blocks.Sizes.{mul_below, IsArena}
use k_os.Memory.Blocks.Refill.{
  block_addr, blocks_from, wiped-IsList, with_page, with_page-header, refill_lem,
}

-- The block that `take_block` returns, and what it leaves.
pub record Taken (h : BlockHeap) (desc b a : ℕ) (bs : List ℕ) : Type 0 where
  pub after : BlockHeap
  pub result : take_block h desc ≡ some (b, after)
  pub list : IsList after.links (free_list desc) bs
  pub header : after.arenas a ≡ record (h.arenas a) { cnt = (h.arenas a).cnt - 1 }
  pub same_kernel : after.kernel ≡ h.kernel
  pub same_descs : after.descs ≡ h.descs

abbrev taken : BlockHeap → (g : Heap) → (b size a : ℕ) → BlockHeap
taken h g b size a =
    let clean = memset_zero (record h { links = g }) b size in
    with_cnt clean a (sub32 (clean.arenas a).cnt 1)

take-step :
    (h : BlockHeap) (desc b a size : ℕ) (g : Heap)
    → list_pop (free_list desc) h.links ≡ some (b, g)
    → (b == null) ≡ false
    → block2arena b ≡ a
    → (h.descs desc).block_size ≡ size
    → take_block h desc ≡ some (b, taken h g b size a)
unfolding take_block
take-step h desc b a size g pop ne at same = rw (take_block, pop, ne, at, same) refl

-- The header of the arena stays clear of the block.
taken-header :
    (h : BlockHeap) (g : Heap) (b size a : ℕ)
    → a < b
    → 0 < (h.arenas a).cnt
    → (h.arenas a).cnt < 2 ^ 32
    → (taken h g b size a).arenas a ≡ record (h.arenas a) { cnt = (h.arenas a).cnt - 1 }
unfolding memset_zero wiped
taken-header h g b size a below pos small =
    let out : inside b size a ≡ false = ground (arith, below) in
    let one : sub32 (h.arenas a).cnt 1 ≡ (h.arenas a).cnt - 1 = omega (arith, pos, small) in
    rw (==_refl a, out, one) refl

take_lem :
    (h : BlockHeap) (desc size b a : ℕ) (bs : List ℕ)
    → IsList h.links (free_list desc) (b ∷ bs)
    → (h.descs desc).block_size ≡ size
    → block2arena b ≡ a
    → a < b
    → ((x : ℕ) → has x (nodes (free_list desc) bs) ≡ true → inside b size x ≡ false)
    → 0 < (h.arenas a).cnt
    → (h.arenas a).cnt < 2 ^ 32
    → Taken h desc b a bs
unfolding memset_zero
take_lem h desc size b a bs is same at below away pos small =
    let popped = pop-cons h.links (free_list desc) b bs is in
    record {
      after = taken h popped.after b size a;
      result = take-step h desc b a size popped.after popped.result (ground (arith, below)) at same;
      list = wiped-IsList popped.after (free_list desc) b size bs popped.holds away;
      header = taken-header h popped.after b size a below pos small;
      same_kernel = refl;
      same_descs = refl;
    }

-- With a block in the free list, `mem_acquire` returns the first one: the list loses it, the header
-- of its arena counts one less, and the pages stay as they are. The class has blocks of `size`
-- bytes, the other free blocks lie outside the first one, and its arena counts it.
pub mem_acquire-Taken :
    (h : BlockHeap) (mblock mblock_idx size b a : ℕ) (bs : List ℕ)
    → IsList h.links (free_list (desc_at mblock mblock_idx)) (b ∷ bs)
    → (h.descs (desc_at mblock mblock_idx)).block_size ≡ size
    → block2arena b ≡ a
    → a < b
    → ((x : ℕ)
        → has x (nodes (free_list (desc_at mblock mblock_idx)) bs) ≡ true
        → inside b size x ≡ false)
    → 0 < (h.arenas a).cnt
    → (h.arenas a).cnt < 2 ^ 32
    → (mem_acquire h mblock mblock_idx ≡ take_block h (desc_at mblock mblock_idx))
      × Taken h (desc_at mblock mblock_idx) b a bs
unfolding mem_acquire
mem_acquire-Taken h mblock mblock_idx size b a bs is same at below away pos small = (
  rw (mem_acquire, empty_iff h.links (free_list (desc_at mblock mblock_idx)) (b ∷ bs) is) refl,
  take_lem h (desc_at mblock mblock_idx) size b a bs is same at below away pos small,
)

pub blocks-has :
    (left a size idx x : ℕ)
    → has x (blocks_from left a size idx) ≡ true
    → (j : ℕ) × (idx ≤ j) × (j < idx + left) × (x ≡ block_addr a size j)
blocks-has zero a size idx x h = absurd (ground (arith, h))
blocks-has (suc left) a size idx x h = elim (Bool-cases (x == block_addr a size idx)) [
  | inl e ↦ (idx, omega arith, omega arith, ground (arith, e))
  | inr e ↦
      let rest = blocks-has left a size (idx + 1) x (ground (arith, h, e)) in
      (rest.0, omega (arith, rest.1), omega (arith, rest.2), rest.3)
]

-- The first block of an arena lies apart from the others, and from the sentinels of its list.
first-apart :
    (l a size left x : ℕ)
    → arena_size + suc left * size ≤ pg_size
    → ((y : ℕ) → has y (nodes l []) ≡ true → inside a pg_size y ≡ false)
    → has x (nodes l (blocks_from left a size 1)) ≡ true
    → inside (block_addr a size 0) size x ≡ false
first-apart l a size left x fits away h = elim (Bool-cases (has x (nodes l []))) [
  | inl e ↦ let m = mul_below 0 (suc left) size (omega arith) in ground (arith, away x e, m, fits)
  | inr e ↦
      let found =
        blocks-has left a size 1 x
          (ground (arith, h, e, has-append x (blocks_from left a size 1) ((l + 8) ∷ []))) in
      let m = mul_below 0 found.0 size (omega (arith, found.1)) in ground (arith, found.3, m)
]

pub le_mul : (n m : ℕ) → 0 < m → n ≤ n * m
le_mul n m pos = grind arith

one_less :
    (desc left : ℕ)
    → ◌≡◌ {A = Arena}
        (record { p_mem_block = desc; cnt = suc left - 1; is_page_cnt = false })
        (record { p_mem_block = desc; cnt = left; is_page_cnt = false })
one_less desc left =
    ap (λ n. record { p_mem_block = desc; cnt = n; is_page_cnt = false }) (omega arith)

pub block2arena-first :
    (a size cnt : ℕ) {desc : MemBlockDesc}
    → IsArena desc a size cnt
    → block2arena (block_addr a size 0) ≡ a
unfolding block2arena
block2arena-first a size cnt arena = omega (arith, arena.aligned)

fresh-step :
    (h : BlockHeap) (mblock mblock_idx : ℕ) (h' : BlockHeap)
    → IsList h.links (free_list (desc_at mblock mblock_idx)) []
    → refill h (desc_at mblock mblock_idx) ≡ some (true, h')
    → mem_acquire h mblock mblock_idx ≡ take_block h' (desc_at mblock mblock_idx)
unfolding mem_acquire
fresh-step h mblock mblock_idx h' is filled =
    rw (mem_acquire, empty_iff h.links (free_list (desc_at mblock mblock_idx)) [] is, filled) refl

-- With an empty free list and a free page, `mem_acquire` splits that page into blocks and returns
-- the first one: the free list holds the others in order, the header names the class and counts
-- them, and the kernel has one page less. The sentinels of the free list lie outside the page.
pub mem_acquire-fresh :
    (h : BlockHeap) (mblock mblock_idx size left a : ℕ) (k : Kernel)
    → page_acquire h.kernel 0 1 ≡ (a, k)
    → IsArena (h.descs (desc_at mblock mblock_idx)) a size (suc left)
    → (h.descs (desc_at mblock mblock_idx)).blocks_per_arena ≡ suc left
    → IsList h.links (free_list (desc_at mblock mblock_idx)) []
    → ((x : ℕ)
        → has x (nodes (free_list (desc_at mblock mblock_idx)) []) ≡ true
        → inside a pg_size x ≡ false)
    → (after : BlockHeap) × (mem_acquire h mblock mblock_idx ≡ some (block_addr a size 0, after))
      × IsList after.links (free_list (desc_at mblock mblock_idx)) (blocks_from left a size 1)
      × (after.arenas a
          ≡ record { p_mem_block = desc_at mblock mblock_idx; cnt = left; is_page_cnt = false })
      × (after.kernel ≡ k)
      × (after.descs ≡ h.descs)
unfolding memset_zero
mem_acquire-fresh h mblock mblock_idx size left a k page arena split_in is away =
    let desc = desc_at mblock mblock_idx in
    let filled = refill_lem h desc size (suc left) a k page arena split_in is away in
    let h' = record (with_page h desc size (suc left) a k page arena split_in is away) {
      links = filled.0;
    } in
    let head = with_page-header h desc size (suc left) a k page arena split_in is away in
    let counted : (h'.arenas a).cnt ≡ suc left = ap (λ (x : Arena). x.cnt) head in
    let many = le_mul (suc left) size (omega (arith, arena.room)) in
    let block = block2arena-first a size (suc left) arena in
    let got =
      take_lem h' desc size (block_addr a size 0) a (blocks_from left a size 1) filled.2
        arena.block_size block (omega arith)
        (λ x i. first-apart (free_list desc) a size left x arena.fits away i)
        (omega (arith, counted)) (omega (arith, counted, many, arena.fits)) in
    (
      got.after,
      fresh-step h mblock mblock_idx h' is filled.1 ∙ got.result,
      got.list,
      got.header ∙ ap (λ (x : Arena). record x { cnt = x.cnt - 1 }) head ∙ one_less desc left,
      got.same_kernel,
      got.same_descs,
    )
