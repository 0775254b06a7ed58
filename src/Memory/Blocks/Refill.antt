-- ===== src/Memory/Blocks/Refill.antt =====
-- A new arena in `mem_acquire` of code/kernel/src/memory.c: its page, its header and its blocks.
use mathlib.Core.List.{append_assoc, append-nil}
use k_os.Base.{
  ℕ, zero, suc, ◌+◌, ◌*◌, ◌≤◌, ◌<◌, ◌≡◌, ◌≢◌, inl, inr, refl, true, false, some, ==_refl, ==_ne,
  List, [], ◌∷◌, ◌++◌, update, arith, ap, Bool-cases, subst, ◌∙◌, sym,
}
use k_os.LinkedList.{Heap, list_append}
use k_os.LinkedList.Links.{has, nodes, IsList, Linked-frame, has-append}
use k_os.LinkedList.Ops.{append-snoc}
use k_os.Memory.Pool.{pg_size}
use k_os.Memory.Pages.{Kernel, page_acquire}
use k_os.Memory.Blocks.{
  Arena, BlockHeap, arena_size, free_list, inside, wiped, memset_zero, arena2block, split_arena,
  refill,
}
use k_os.Memory.Blocks.Sizes.{mul_below, IsArena, block2arena-arena2block}

-- Where a block of an arena stands.
abbrev pub block_addr : (a size idx : ℕ) → ℕ
block_addr a size idx = a + arena_size + idx * size

abbrev pub blocks_from : (left a size idx : ℕ) → List ℕ
blocks_from zero a size idx = []
blocks_from (suc left) a size idx = block_addr a size idx ∷ blocks_from left a size (idx + 1)

fresh-snoc :
    (l e x : ℕ) (xs : List ℕ)
    → has x (nodes l xs) ≡ false
    → x ≢ e
    → has x (nodes l (xs ++ e ∷ [])) ≡ false
fresh-snoc l e x xs away other = ground (
  arith,
  has-append x (xs ++ e ∷ []) ((l + 8) ∷ []),
  has-append x xs (e ∷ []),
  has-append x xs ((l + 8) ∷ []),
)

pub next_apart :
    (a size idx j : ℕ) → idx + 1 ≤ j → 8 ≤ size → block_addr a size j ≢ block_addr a size idx
next_apart a size idx j low room =
    let m = mul_below idx j size (omega (arith, low)) in omega (arith, m, room)

split-step :
    (left : ℕ) (h : BlockHeap) (a idx e : ℕ) (g : Heap)
    → arena2block h a idx ≡ e
    → list_append (free_list (h.arenas a).p_mem_block) e h.links ≡ some (tt, g)
    → split_arena (suc left) h a idx ≡ split_arena left (record h { links = g }) a (idx + 1)
unfolding split_arena
split-step left h a idx e g at put = rw (split_arena, at, put) refl

split-blocks :
    (left : ℕ) (h : BlockHeap) (a size cnt idx : ℕ) (xs : List ℕ)
    → IsArena (h.descs (h.arenas a).p_mem_block) a size cnt
    → idx + left ≤ cnt
    → IsList h.links (free_list (h.arenas a).p_mem_block) xs
    → ((j : ℕ)
        → idx ≤ j
        → j < cnt
        → has (block_addr a size j) (nodes (free_list (h.arenas a).p_mem_block) xs) ≡ false)
    → (after : Heap) × (split_arena left h a idx ≡ some (record h { links = after }))
      × IsList after (free_list (h.arenas a).p_mem_block) (xs ++ blocks_from left a size idx)
unfolding split_arena
split-blocks zero h a size cnt idx xs arena fits is fresh = (
  h.links,
  refl,
  subst (λ t. IsList h.links (free_list (h.arenas a).p_mem_block) t) (sym (append-nil xs)) is,
)
split-blocks (suc left) h a size cnt idx xs arena fits is fresh =
    let l = free_list (h.arenas a).p_mem_block in
    let e = block_addr a size idx in
    let at : arena2block h a idx ≡ e =
      (block2arena-arena2block h a size cnt idx arena (omega arith)).0 in
    let put =
      append-snoc h.links l e xs is (fresh idx (omega arith) (omega arith))
        (omega (arith, arena.positive)) in
    let rest =
      split-blocks left (record h { links = put.after }) a size cnt (idx + 1) (xs ++ e ∷ []) arena
        (omega arith) put.holds
        (λ j low high.
          fresh-snoc l e (block_addr a size j) xs (fresh j (omega arith) high)
            (next_apart a size idx j low arena.room)) in
    (
      rest.0,
      split-step left h a idx e put.after at put.result ∙ rest.1,
      subst (λ t. IsList rest.0 l t) (append_assoc xs (e ∷ []) (blocks_from left a size (idx + 1)))
          rest.2,
    )

-- A list keeps its elements when the memory elsewhere is set to zero.
pub wiped-IsList :
    (g : Heap) (l from size : ℕ) (xs : List ℕ)
    → IsList g l xs
    → ((x : ℕ) → has x (nodes l xs) ≡ true → inside from size x ≡ false)
    → IsList (wiped (record { prev = 0; next = 0 }) from size g) l xs
unfolding wiped
wiped-IsList g l from size xs is away = record {
  linked =
      Linked-frame g _ l (l + 8) xs is.linked
        (λ a i. rw (away a (ground (arith, has-append a xs ((l + 8) ∷ []), i))) refl)
        (λ a i. rw (away a (ground (arith, i))) refl);
  distinct = is.distinct;
  not_null = is.not_null;
}

module _ (h : BlockHeap) (desc size cnt a : ℕ) (k : Kernel)
    (page : page_acquire h.kernel 0 1 ≡ (a, k)) (arena : IsArena (h.descs desc) a size cnt)
    (split_in : (h.descs desc).blocks_per_arena ≡ cnt) (is : IsList h.links (free_list desc) [])
    (away : (x : ℕ) → has x (nodes (free_list desc) []) ≡ true → inside a pg_size x ≡ false) where
  -- The heap before the loop, and after it with the links it made.
  abbrev pub header_of : Arena
  header_of = record { p_mem_block = desc; cnt = cnt; is_page_cnt = false }

  abbrev pub with_page : BlockHeap
  with_page =
      let clean = memset_zero (record h { kernel = k }) a pg_size in
      record clean { arenas = update clean.arenas a header_of }

  pub with_page-header : with_page.arenas a ≡ header_of
  with_page-header = rw (==_refl a) refl

  blocks-fresh :
      (j : ℕ) → 0 ≤ j → j < cnt → has (block_addr a size j) (nodes (free_list desc) []) ≡ false
  blocks-fresh j low high =
      elim (Bool-cases (has (block_addr a size j) (nodes (free_list desc) []))) [
        | inr e ↦ e
        | inl e ↦
            let m = mul_below j cnt size high in
            let out = away (block_addr a size j) e in absurd (ground (arith, out, m, arena.fits))
      ]

  header-desc : (with_page.arenas a).p_mem_block ≡ desc
  header-desc = ap (λ (header : Arena). header.p_mem_block) with_page-header

  refill-step :
      (full : BlockHeap)
      → split_arena cnt with_page a 0 ≡ some full
      → refill h desc ≡ some (true, full)
  unfolding refill
  refill-step full split =
      rw (refill, page, split_in, ==_ne a 0 (omega (arith, arena.positive)), split) refl

  -- `refill` leaves the blocks of the new arena in the free list, in order.
  pub refill_lem :
      (g : Heap) × (refill h desc ≡ some (true, record with_page { links = g }))
      × IsList g (free_list desc) (blocks_from cnt a size 0)
  unfolding memset_zero
  refill_lem =
      let full =
        split-blocks cnt with_page a size cnt 0 []
          (subst (λ d. IsArena (h.descs d) a size cnt) (sym header-desc) arena) (omega arith)
          (subst (λ d. IsList with_page.links (free_list d) []) (sym header-desc)
            (wiped-IsList h.links (free_list desc) a pg_size [] is away))
          (subst
            (λ d.
              (j : ℕ)
              → 0 ≤ j
              → j < cnt
              → has (block_addr a size j) (nodes (free_list d) []) ≡ false)
            (sym header-desc) blocks-fresh) in
      (
        full.0,
        refill-step _ full.1,
        subst (λ d. IsList full.0 (free_list d) (blocks_from cnt a size 0)) header-desc full.2,
      )
