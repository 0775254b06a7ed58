-- ===== src/Memory/Blocks/RoundTrip.antt =====
-- `mem_acquire` and `mem_release` of code/kernel/src/memory.c undo each other on a fresh arena.
use k_os.Base.{
  ℕ, zero, suc, ◌+◌, ◌≤◌, ◌<◌, ◌≡◌, ◌≢◌, refl, true, false, some, ◌==◌, ==_refl, List, [], ◌∷◌,
  ◌++◌, arith, ap, Bool-cases, inl, inr, subst, ◌∙◌, sym,
}
use k_os.LinkedList.{null}
use k_os.LinkedList.Links.{has, nodes, IsList, has-append}
use k_os.Memory.Pool.{pg_size}
use k_os.Memory.Pages.{Kernel, page_acquire, page_release}
use k_os.Memory.Blocks.{Arena, BlockHeap, desc_at, free_list, inside, mem_acquire, mem_release}
use k_os.Memory.Blocks.Sizes.{IsArena}
use k_os.Memory.Blocks.Refill.{block_addr, blocks_from, next_apart}
use k_os.Memory.Blocks.Acquire.{blocks-has, le_mul, block2arena-first, mem_acquire-fresh}
use k_os.Memory.Blocks.Release.{without, minus, mem_release-last}

without-last : (e : ℕ) (xs : List ℕ) → has e xs ≡ false → without e (xs ++ e ∷ []) ≡ xs
without-last e [] h = rw (==_refl e) refl
without-last e (x ∷ xs) h =
    let ne : (e == x) ≡ false = ground (arith, h) in
    rw ne (ap (λ t. x ∷ t) (without-last e xs (ground (arith, h))))

minus_self : (es : List ℕ) → minus es es ≡ []
minus_self [] = refl
minus_self (e ∷ es) = rw (==_refl e) (minus_self es)

in_blocks :
    (left a size idx j : ℕ)
    → idx ≤ j
    → j < idx + left
    → has (block_addr a size j) (blocks_from left a size idx) ≡ true
in_blocks zero a size idx j low high = absurd (omega arith)
in_blocks (suc left) a size idx j low high = elim (Bool-cases (idx == j)) [
  | inl e ↦
      let same : idx ≡ j = ground (arith, e) in
      subst (λ i. has (block_addr a size i) (blocks_from (suc left) a size idx) ≡ true) same
        (rw (==_refl (block_addr a size idx)) refl)
  | inr e ↦ ground (arith, in_blocks left a size (idx + 1) j (ground (arith, e, low)) (omega arith))
]

module _ (a size left : ℕ) (room : 8 ≤ size) where
  first-not-blocks : has (block_addr a size 0) (blocks_from left a size 1) ≡ false
  first-not-blocks = elim (Bool-cases (has (block_addr a size 0) (blocks_from left a size 1))) [
    | inr e ↦ e
    | inl e ↦
        let found = blocks-has left a size 1 (block_addr a size 0) e in
        absurd (next_apart a size 0 found.0 (omega (arith, found.1)) room (sym found.3))
  ]

  -- All blocks of the arena, taken out of the list in which the first one stands last.
  minus-blocks :
      minus
        (blocks_from (suc left) a size 0)
        (blocks_from left a size 1 ++ block_addr a size 0 ∷ [])
      ≡ []
  minus-blocks =
      rw (minus, without-last (block_addr a size 0) (blocks_from left a size 1) first-not-blocks)
        (minus_self (blocks_from left a size 1))

  in-rotated :
      (j : ℕ)
      → j < suc left
      → has (block_addr a size j) (blocks_from left a size 1 ++ block_addr a size 0 ∷ []) ≡ true
  in-rotated zero below = ground (
    arith,
    has-append (block_addr a size 0) (blocks_from left a size 1) (block_addr a size 0 ∷ []),
    ==_refl (block_addr a size 0),
  )
  in-rotated (suc j) below = ground (
    arith,
    has-append (block_addr a size (suc j)) (blocks_from left a size 1) (block_addr a size 0 ∷ []),
    in_blocks left a size 1 (suc j) (omega arith) (omega arith),
  )

first-not-nodes :
    (l a size left : ℕ)
    → 8 ≤ size
    → has (block_addr a size 0) (nodes l []) ≡ false
    → has (block_addr a size 0) (nodes l (blocks_from left a size 1)) ≡ false
first-not-nodes l a size left room out = ground (
  arith,
  has-append (block_addr a size 0) (blocks_from left a size 1) ((l + 8) ∷ []),
  first-not-blocks a size left room,
  out,
)

first-away :
    (l a size left : ℕ)
    → 12 + left < pg_size
    → ((x : ℕ) → has x (nodes l []) ≡ true → inside a pg_size x ≡ false)
    → has (block_addr a size 0) (nodes l []) ≡ false
first-away l a size left room away = elim (Bool-cases (has (block_addr a size 0) (nodes l []))) [
  | inr e ↦ e
  | inl e ↦ absurd (ground (arith, away (block_addr a size 0) e))
]

-- With an empty free list and a free page: when the block that `mem_acquire` returns is released at
-- once, the free list is empty again, and the page that `mem_acquire` took from the pools is
-- released. Between the two the header marks an arena of blocks. The sentinels of the free list lie
-- outside the page.
pub mem_release-mem_acquire :
    (h : BlockHeap) (mblock mblock_idx size left a : ℕ) (k k' : Kernel)
    → page_acquire h.kernel 0 1 ≡ (a, k)
    → page_release k a 1 ≡ some k'
    → mblock ≢ null
    → IsArena (h.descs (desc_at mblock mblock_idx)) a size (suc left)
    → (h.descs (desc_at mblock mblock_idx)).blocks_per_arena ≡ suc left
    → IsList h.links (free_list (desc_at mblock mblock_idx)) []
    → ((x : ℕ)
        → has x (nodes (free_list (desc_at mblock mblock_idx)) []) ≡ true
        → inside a pg_size x ≡ false)
    → (between after : BlockHeap) × (mem_acquire h mblock mblock_idx
        ≡ some (block_addr a size 0, between))
      × (mem_release between (block_addr a size 0) ≡ some after)
      × IsList after.links (free_list (desc_at mblock mblock_idx)) []
      × (after.kernel ≡ k')
      × ((between.arenas a).is_page_cnt ≡ false)
mem_release-mem_acquire h mblock mblock_idx size left a k k' page back ne arena split_in is away =
    let desc = desc_at mblock mblock_idx in
    let l = free_list desc in
    let got = mem_acquire-fresh h mblock mblock_idx size left a k page arena split_in is away in
    let many = le_mul (suc left) size (omega (arith, arena.room)) in
    let counted : (got.0.arenas a).cnt ≡ left = ap (λ (x : Arena). x.cnt) got.3 in
    let end =
      mem_release-last got.0 (block_addr a size 0) a desc (suc left) (blocks_from left a size 1)
        (block2arena-first a size (suc left) arena) (ap (λ (x : Arena). x.p_mem_block) got.3)
        (ap (λ d. (d desc).blocks_per_arena) got.5 ∙ split_in) got.2
        (first-not-nodes l a size left arena.room
          (first-away l a size left (omega (arith, many, arena.fits)) away))
        (omega (arith, arena.positive)) (omega (arith, ne))
        (omega (arith, counted, many, arena.fits)) size k'
        (subst (λ d. IsArena (d desc) a size (suc left)) (sym got.5) arena) (omega (arith, counted))
        (in-rotated a size left arena.room)
        (subst (λ kernel. page_release kernel a 1 ≡ some k') (sym got.4) back) in
    (
      got.0,
      end.0,
      got.1,
      end.1,
      subst (λ xs. IsList end.0.links l xs) (minus-blocks a size left arena.room) end.2,
      end.3,
      ap (λ (x : Arena). x.is_page_cnt) got.3,
    )
