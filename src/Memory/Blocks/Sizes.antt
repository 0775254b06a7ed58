-- ===== src/Memory/Blocks/Sizes.antt =====
-- The seven sizes of blocks of code/kernel/src/memory.c: `mem_block_init` sets them, `sys_malloc`
-- looks for one, and the blocks of an arena stand where `block2arena` finds their arena again.
use k_os.Base.{
  ℕ, zero, suc, ◌+◌, ◌*◌, ◌-◌, ◌/◌, ◌%◌, ◌^◌, ◌≤◌, ◌<◌, ◌≡◌, ◌≢◌, inl, inr, refl, false, some, ◌==◌,
  ==_iff, [], leb, update, arith, ap, Bool-cases, subst, dec_lt, ◌∙◌,
}
use k_os.Base.Bits.{every, every_at}
use k_os.Base.Word.{u32}
use k_os.LinkedList.Links.{IsList}
use k_os.LinkedList.Ops.{initialised, init-ok}
use k_os.Memory.Pool.{pg_size}
use k_os.Memory.Blocks.{
  MemBlockDesc, BlockHeap, arena_size, mem_block_cnt, desc_at, free_list, arena2block, block2arena,
  size_class, init_classes, mem_block_init,
}

-- The sizes double from 16 on, and as many blocks as fit behind the header make an arena.
abbrev pub HasSizes : BlockHeap → (mblock : ℕ) → Type 0
HasSizes h mblock =
    (idx : ℕ)
    → idx < mem_block_cnt
    → ((h.descs (desc_at mblock idx)).block_size ≡ 16 * 2 ^ idx)
      × ((h.descs (desc_at mblock idx)).blocks_per_arena ≡ (pg_size - arena_size) / (16 * 2 ^ idx))

pub mul_below : (idx cnt size : ℕ) → idx < cnt → idx * size + size ≤ cnt * size
mul_below idx cnt size below = grind arith

-- The arena at `a`, with `cnt` blocks of `size` bytes as its descriptor says.
pub record IsArena (desc : MemBlockDesc) (a size cnt : ℕ) : Type 0 where
  pub aligned : a % 2 ^ 12 ≡ 0
  pub below : a < 2 ^ 32
  pub positive : 0 < a
  pub block_size : desc.block_size ≡ size
  pub fits : arena_size + cnt * size ≤ pg_size
  pub room : 8 ≤ size

-- A block of an arena lies inside its page, and `block2arena` leads from it to the header.
pub block2arena-arena2block :
    (h : BlockHeap) (a size cnt idx : ℕ)
    → IsArena (h.descs (h.arenas a).p_mem_block) a size cnt
    → idx < cnt
    → (arena2block h a idx ≡ a + arena_size + idx * size) × (block2arena (arena2block h a idx) ≡ a)
unfolding arena2block block2arena
block2arena-arena2block h a size cnt idx is inside =
    let m = mul_below idx cnt size inside in
    let same = is.block_size in
    let at : arena2block h a idx ≡ a + arena_size + idx * size =
      rw same (omega (arith, m, is.fits, is.aligned, is.below, is.room)) in
    (at, ap block2arena at ∙ omega (arith, m, is.fits, is.aligned, is.room))

-- The first class from `from` on that is large enough.
abbrev pub FirstFit : BlockHeap → (mblock size from found : ℕ) → Type 0
FirstFit h mblock size from found =
    (size ≤ (h.descs (desc_at mblock found)).block_size)
    × ((idx : ℕ) → from ≤ idx → idx < found → (h.descs (desc_at mblock idx)).block_size < size)

module _ (h : BlockHeap) (mblock size last : ℕ)
    (fits : size ≤ (h.descs (desc_at mblock last)).block_size) where
  smaller_is_other :
      (idx : ℕ)
      → idx ≤ last
      → leb size (h.descs (desc_at mblock idx)).block_size ≡ false
      → idx < last
  smaller_is_other idx le e = elim (dec_lt idx last) [
    | yes less ↦ less
    | no more ↦
        let same : idx ≡ last = omega (arith, le, more) in
        absurd (ground (arith, e, ap (λ i. (h.descs (desc_at mblock i)).block_size) same, fits))
  ]

  pub size_class-FirstFit :
      (left idx : ℕ)
      → idx ≤ last
      → last < idx + left
      → (size_class left h mblock size idx ≤ last)
        × FirstFit h mblock size idx (size_class left h mblock size idx)
  unfolding size_class
  size_class-FirstFit zero idx le lt = absurd (omega arith)
  size_class-FirstFit (suc left) idx le lt =
      elim (Bool-cases (leb size (h.descs (desc_at mblock idx)).block_size)) [
        | inl e ↦ rw e (le, (ground (arith, e), λ j low high. absurd (omega (arith, low, high))))
        | inr e ↦
            let more = smaller_is_other idx le e in
            let rest = size_class-FirstFit left (idx + 1) (omega arith) (omega arith) in
            rw e (
              rest.0,
              (
                rest.1.0,
                λ j low high. elim (dec_lt idx j) [
                  | yes above ↦ rest.1.1 j (omega arith) high
                  | no equal ↦
                      let same : idx ≡ j = omega (arith, low, equal) in
                      subst (λ i. (h.descs (desc_at mblock i)).block_size < size) same
                        (ground (arith, e))
                ],
              ),
            )
      ]

-- `sys_malloc` finds a class for every size up to 1024, and every class before it is too small.
pub sizes-FirstFit :
    (h : BlockHeap) (mblock size : ℕ)
    → HasSizes h mblock
    → size ≤ 1024
    → (size_class mem_block_cnt h mblock size 0 < mem_block_cnt)
      × FirstFit h mblock size 0 (size_class mem_block_cnt h mblock size 0)
sizes-FirstFit h mblock size sizes small =
    let found =
      size_class-FirstFit h mblock size 6 (omega (arith, (sizes 6 (omega arith)).0)) 7 0
        (omega arith) (omega arith) in
    (omega (arith, found.0), found.1)

-- What `mem_block_init` makes of a class: its sizes and no free block.
pub record Ready (h : BlockHeap) (mblock idx : ℕ) : Type 0 where
  pub sizes : h.descs (desc_at mblock idx) ≡ record {
    block_size = 16 * 2 ^ idx;
    blocks_per_arena = (pg_size - arena_size) / (16 * 2 ^ idx);
  }
  pub empty : IsList h.links (free_list (desc_at mblock idx)) []

doubled : (idx : ℕ) → idx < 7 → u32 (16 * 2 ^ idx * 2) ≡ 16 * 2 ^ (idx + 1)
unfolding every
doubled idx below =
    (==_iff _ _).0 (every_at 7 (λ i. u32 (16 * 2 ^ i * 2) == 16 * 2 ^ (i + 1)) idx below refl)

module _ (h : BlockHeap) (mblock idx : ℕ) (ne : mblock ≢ 0) where
  -- The heap after one round.
  abbrev round : BlockHeap
  round = record h {
    descs = update h.descs (desc_at mblock idx) (record {
      block_size = 16 * 2 ^ idx;
      blocks_per_arena = (pg_size - arena_size) / (16 * 2 ^ idx);
    });
    links = initialised h.links (free_list (desc_at mblock idx));
  }

  round-Ready : Ready round mblock idx
  unfolding initialised
  round-Ready = record {
    sizes = ground arith;
    empty = record { linked = ground arith; distinct = ground arith; not_null = ground arith };
  }

  round_earlier : (j : ℕ) → j < idx → Ready h mblock j → Ready round mblock j
  unfolding initialised
  round_earlier j less r = record {
    sizes = ground (arith, r.sizes);
    empty = record {
      linked = (ground (arith, r.empty.linked.0), ground (arith, r.empty.linked.1));
      distinct = r.empty.distinct;
      not_null = r.empty.not_null;
    };
  }

next_round :
    (left : ℕ) (h : BlockHeap) (mblock idx : ℕ) (ne : mblock ≢ 0)
    → idx < 7
    → init_classes (suc left) h mblock idx (16 * 2 ^ idx)
      ≡ init_classes left (round h mblock idx ne) mblock (idx + 1) (16 * 2 ^ (idx + 1))
unfolding init_classes
next_round left h mblock idx ne below =
    rw (init_classes, init-ok h.links (free_list (desc_at mblock idx)) (omega arith))
      (ap (λ size. init_classes left (round h mblock idx ne) mblock (idx + 1) size)
        (doubled idx below))

init_classes-Ready :
    (left : ℕ) (h : BlockHeap) (mblock idx : ℕ)
    → idx + left ≡ mem_block_cnt
    → mblock ≢ 0
    → ((j : ℕ) → j < idx → Ready h mblock j)
    → (after : BlockHeap) × (init_classes left h mblock idx (16 * 2 ^ idx) ≡ some after)
      × ((j : ℕ) → j < mem_block_cnt → Ready after mblock j)
unfolding init_classes
init_classes-Ready zero h mblock idx all ne before = (h, refl, λ j below. before j (omega arith))
init_classes-Ready (suc left) h mblock idx all ne before =
    let rest =
      init_classes-Ready left (round h mblock idx ne) mblock (idx + 1) (omega arith) ne (λ j below.
        elim (dec_lt j idx) [
          | yes less ↦ round_earlier h mblock idx ne j less (before j less)
          | no more ↦
              let same : idx ≡ j = omega arith in
              subst (λ k. Ready (round h mblock idx ne) mblock k) same (round-Ready h mblock idx ne)
        ]) in
    (rest.0, next_round left h mblock idx ne (omega arith) ∙ rest.1, rest.2)

-- `mem_block_init` at any address but NULL ends, and each of the seven classes then has its size,
-- its number of blocks and an empty free list.
pub mem_block_init-Ready :
    (h : BlockHeap) (p_mem_block : ℕ)
    → p_mem_block ≢ 0
    → (after : BlockHeap) × (mem_block_init h p_mem_block ≡ some after)
      × ((idx : ℕ) → idx < mem_block_cnt → Ready after p_mem_block idx)
unfolding mem_block_init
mem_block_init-Ready h p_mem_block ne =
    init_classes-Ready mem_block_cnt h p_mem_block 0 refl ne (λ j below. absurd (omega arith))
