-- ===== src/Memory/Blocks/Release.antt =====
-- `mem_release` of code/kernel/src/memory.c: a block goes back to the free list, and the last block
-- of an arena takes all the others out with it.
use k_os.Base.{
  ℕ, zero, suc, ◌+◌, ◌^◌, ◌≤◌, ◌<◌, ◌≡◌, ◌≢◌, refl, Bool, true, false, some, ◌==◌, ==_refl, ==_ne,
  ==_iff, List, [], ◌∷◌, ◌++◌, if◌then◌else◌, arith, ap, Bool-cases, inl, inr, subst, ◌∙◌, sym,
}
use k_os.Base.Word.{u32}
use k_os.LinkedList.{Heap, null, list_append, list_remove}
use k_os.LinkedList.Links.{has, nodes, IsList}
use k_os.LinkedList.Ops.{append-snoc, remove-delete}
use k_os.Memory.Pages.{Kernel, page_release}
use k_os.Memory.Blocks.{
  BlockHeap, free_list, arena2block, block2arena, with_cnt, unlink_blocks, release_page, drop_arena,
  mem_release,
}
use k_os.Memory.Blocks.Sizes.{IsArena, block2arena-arena2block}
use k_os.Memory.Blocks.Refill.{block_addr, blocks_from, next_apart}

abbrev pub without : (e : ℕ) → List ℕ → List ℕ
without e [] = []
without e (x ∷ xs) = if e == x then xs else x ∷ without e xs

abbrev pub minus : (es : List ℕ) → List ℕ → List ℕ
minus [] xs = xs
minus (e ∷ es) xs = minus es (without e xs)

around :
    (e : ℕ) (zs : List ℕ)
    → has e zs ≡ true
    → (xs ys : List ℕ) × (zs ≡ xs ++ e ∷ ys) × (without e zs ≡ xs ++ ys)
around e [] h = absurd (ground (arith, h))
around e (z ∷ zs) h = elim (Bool-cases (e == z)) [
  | inl f ↦ ([], zs, ap (λ x. x ∷ zs) (ground (arith, f)), rw f refl)
  | inr f ↦
      let rest = around e zs (ground (arith, h, f)) in
      (z ∷ rest.0, rest.1, ap (λ t. z ∷ t) rest.2, rw f (ap (λ t. z ∷ t) rest.3))
]

without-has : (e x : ℕ) (zs : List ℕ) → has x zs ≡ true → x ≢ e → has x (without e zs) ≡ true
without-has e x [] h ne = h
without-has e x (z ∷ zs) h ne = ground (arith, without-has e x zs, h, ne)

unlink-step :
    (left : ℕ) (h : BlockHeap) (a idx e : ℕ) (g : Heap)
    → arena2block h a idx ≡ e
    → list_remove e h.links ≡ some (tt, g)
    → unlink_blocks (suc left) h a idx ≡ unlink_blocks left (record h { links = g }) a (idx + 1)
unfolding unlink_blocks
unlink-step left h a idx e g at cut = rw (unlink_blocks, at, cut) refl

-- The loop of `mem_release` takes the blocks out one by one, wherever they stand in the list.
unlink-minus :
    (left : ℕ) (h : BlockHeap) (l a size cnt idx : ℕ) (zs : List ℕ)
    → IsArena (h.descs (h.arenas a).p_mem_block) a size cnt
    → idx + left ≤ cnt
    → IsList h.links l zs
    → ((j : ℕ) → idx ≤ j → j < cnt → has (block_addr a size j) zs ≡ true)
    → (after : Heap) × (unlink_blocks left h a idx ≡ some (record h { links = after }))
      × IsList after l (minus (blocks_from left a size idx) zs)
unfolding unlink_blocks
unlink-minus zero h l a size cnt idx zs arena fits is all = (h.links, refl, is)
unlink-minus (suc left) h l a size cnt idx zs arena fits is all =
    let e = block_addr a size idx in
    let at : arena2block h a idx ≡ e =
      (block2arena-arena2block h a size cnt idx arena (omega arith)).0 in
    let place = around e zs (all idx (omega arith) (omega arith)) in
    let cut =
      remove-delete h.links l e place.0 place.1 (subst (λ t. IsList h.links l t) place.2 is) in
    let rest =
      unlink-minus left (record h { links = cut.after }) l a size cnt (idx + 1) (without e zs) arena
        (omega arith) (subst (λ t. IsList cut.after l t) (sym place.3) cut.holds)
        (λ j low high.
          without-has e (block_addr a size j) zs (all j (omega arith) high)
            (next_apart a size idx j low arena.room)) in
    (rest.0, unlink-step left h a idx e cut.after at cut.result ∙ rest.1, rest.2)

module _ (h : BlockHeap) (vaddr a desc per_arena : ℕ) (xs : List ℕ) (at : block2arena vaddr ≡ a)
    (class : (h.arenas a).p_mem_block ≡ desc)
    (split_in : (h.descs desc).blocks_per_arena ≡ per_arena)
    (is : IsList h.links (free_list desc) xs) (away : has vaddr (nodes (free_list desc) xs) ≡ false)
    (ne : vaddr ≢ null) (ne_desc : desc ≢ null) (small : (h.arenas a).cnt + 1 < 2 ^ 32) where
  -- The block is in the list again, and its arena counts it.
  abbrev put_back : Heap → BlockHeap
  put_back g = with_cnt (record h { links = g }) a ((h.arenas a).cnt + 1)

  release-step :
      (g : Heap) (last : Bool)
      → list_append (free_list desc) vaddr h.links ≡ some (tt, g)
      → ((h.arenas a).cnt + 1 == per_arena) ≡ last
      → mem_release h vaddr ≡ (if last then drop_arena (put_back g) a else some (put_back g))
  unfolding mem_release
  release-step g last put full =
      let add : u32 ((h.arenas a).cnt + 1) ≡ (h.arenas a).cnt + 1 = omega (arith, small) in
      rw
        (
          mem_release,
          at,
          class,
          put,
          at,
          class,
          ==_ne desc null ne_desc,
          ==_refl a,
          add,
          split_in,
          full,
        )
        refl

  put-IsList :
      (g : Heap) × (list_append (free_list desc) vaddr h.links ≡ some (tt, g))
      × IsList g (free_list desc) (xs ++ vaddr ∷ [])
  put-IsList =
      let put = append-snoc h.links (free_list desc) vaddr xs is away ne in
      (put.after, put.result, put.holds)

  -- A block whose arena has other blocks in use goes to the end of the free list, the header counts
  -- one more, and the pages stay as they are.
  pub mem_release-Freed :
      (h.arenas a).cnt + 1 ≢ per_arena
      → (after : BlockHeap) × (mem_release h vaddr ≡ some after)
        × IsList after.links (free_list desc) (xs ++ vaddr ∷ [])
        × (after.arenas a ≡ record (h.arenas a) { cnt = (h.arenas a).cnt + 1 })
        × (after.kernel ≡ h.kernel)
  mem_release-Freed more = (
    put_back put-IsList.0,
    release-step put-IsList.0 false put-IsList.1 (==_ne _ _ more),
    put-IsList.2,
    rw (==_refl a) refl,
    refl,
  )

  put_back-class : (g : Heap) → ((put_back g).arenas a).p_mem_block ≡ desc
  put_back-class g = rw (==_refl a) class

  full_iff : (h.arenas a).cnt + 1 ≡ per_arena → ((h.arenas a).cnt + 1 == per_arena) ≡ true
  full_iff full = (==_iff _ _).1 full

  drop-step :
      (g cut : Heap) (k : Kernel)
      → unlink_blocks per_arena (put_back g) a 0 ≡ some (record (put_back g) { links = cut })
      → page_release h.kernel a 1 ≡ some k
      → drop_arena (put_back g) a ≡ some (record (put_back g) { links = cut; kernel = k })
  unfolding drop_arena
  drop-step g cut k unlinked page =
      rw (drop_arena, put_back-class g, split_in, unlinked, release_page, page) refl

  -- The last block of an arena: every block of it leaves the free list, which keeps the others in
  -- order, and the page goes back to the pools.
  pub mem_release-last :
      (size : ℕ) (k : Kernel)
      → IsArena (h.descs desc) a size per_arena
      → (h.arenas a).cnt + 1 ≡ per_arena
      → ((j : ℕ) → j < per_arena → has (block_addr a size j) (xs ++ vaddr ∷ []) ≡ true)
      → page_release h.kernel a 1 ≡ some k
      → (after : BlockHeap) × (mem_release h vaddr ≡ some after)
        × IsList after.links
            (free_list desc)
            (minus (blocks_from per_arena a size 0) (xs ++ vaddr ∷ []))
        × (after.kernel ≡ k)
  mem_release-last size k arena full all page =
      let put = put-IsList in
      let cut =
        unlink-minus per_arena (put_back put.0) (free_list desc) a size per_arena 0
          (xs ++ vaddr ∷ [])
          (subst (λ d. IsArena (h.descs d) a size per_arena) (sym (put_back-class put.0)) arena)
          (omega arith) put.2 (λ j low high. all j high) in
      (
        record (put_back put.0) { links = cut.0; kernel = k },
        release-step put.0 true put.1 (full_iff full) ∙ drop-step put.0 cut.0 k cut.1 page,
        cut.2,
        refl,
      )
