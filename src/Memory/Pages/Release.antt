-- ===== src/Memory/Pages/Release.antt =====
-- `page_release` of pages that are mapped.
use k_os.Base.{
  ℕ, zero, suc, ◌+◌, ◌*◌, ◌<◌, ◌≤◌, ◌≡◌, ◌≢◌, refl, true, false, not, ◌&&◌, some, arith, ap, ◌∙◌,
  sym, subst,
}
use k_os.Base.Word.{u32}
use k_os.Bitmap.Bits.{in_run}
use k_os.Memory.Pool.{PPool, pg_size, pfree, vaddr_release}
use k_os.Memory.Pool.Laws.{IsPPool, frame_used, page_used, unit_addr, IsVPool, Pfree, pfree-Pfree}
use k_os.Memory.Pool.Vaddr.{release_pages}
use k_os.Memory.PageTable.{pte_ptr, addr_v2p, is_present, page_table_remove}
use k_os.Memory.PageTable.Laws.{remove_lem, Mapped, remove_other, pte_ptr_iff}
use k_os.Memory.Pages.{Kernel, unmap_pages, page_release}
use k_os.Memory.Pages.Laws.{page_at, IsRegion}

-- The pages from `v` on are mapped, each to a frame in use of its own.
pub record HoldsRange (k : Kernel) (v cnt : ℕ) (frame : ℕ → ℕ) : Type 0 where
  pub pool : IsPPool k.k_p_pool
  pub mapped : (i : ℕ) → i < cnt → Mapped k.words (page_at v i)
  pub leads :
      (i : ℕ)
      → i < cnt
      → addr_v2p k.words (page_at v i) ≡ unit_addr k.k_p_pool.paddr_start (frame i)
  pub used : (i : ℕ) → i < cnt → frame_used k.k_p_pool (frame i) ≡ true
  pub inside : (i : ℕ) → i < cnt → frame i < k.k_p_pool.paddr_bitmap.len * 8
  pub own : (i j : ℕ) → i < j → j < cnt → frame i ≢ frame j

-- These frames are free and the pages' table entries not present; no other frame and no other word
-- of the tables has changed.
pub record Unmaps (k : Kernel) (v cnt : ℕ) (frame : ℕ → ℕ) (k' : Kernel) : Type 0 where
  pub freed : (i : ℕ) → i < cnt → frame_used k'.k_p_pool (frame i) ≡ false
  pub kept :
      (j : ℕ)
      → ((i : ℕ) → i < cnt → j ≢ frame i)
      → frame_used k'.k_p_pool j ≡ frame_used k.k_p_pool j
  pub unmapped : (i : ℕ) → i < cnt → is_present (k'.words (pte_ptr (page_at v i))) ≡ false
  pub entries : (w : ℕ) → ((i : ℕ) → i < cnt → w ≢ pte_ptr (page_at v i)) → k'.words w ≡ k.words w
  pub same_pages : k'.k_v_pool ≡ k.k_v_pool

module _ (k : Kernel) (v left : ℕ) (frame : ℕ → ℕ) (region : IsRegion v (suc left))
    (holds : HoldsRange k v (suc left) frame) (pp : PPool)
    (gave : Pfree k.k_p_pool (frame 0) pp) where
  one_less : Kernel
  one_less = record k { k_p_pool = pp; words = page_table_remove k.words v }

  next_page : (i : ℕ) → page_at (v + pg_size) i ≡ page_at v (suc i)
  next_page i = omega arith

  page-moved :
      (i : ℕ)
      → i < left
      → Mapped (page_table_remove k.words v) (page_at (v + pg_size) i)
        × (addr_v2p (page_table_remove k.words v) (page_at (v + pg_size) i)
            ≡ addr_v2p k.words (page_at (v + pg_size) i))
  page-moved i lt =
      remove_other k.words v (page_at (v + pg_size) i) (omega (arith, region.ordinary))
        (omega (arith, region.ordinary, lt)) (omega (arith, region.aligned))
        (subst (Mapped k.words) (sym (next_page i)) (holds.mapped (suc i) (omega arith)))

  rest-HoldsRange : HoldsRange one_less (v + pg_size) left (λ i. frame (suc i))
  unfolding one_less
  rest-HoldsRange = record {
    pool = gave.valid;
    mapped = λ i lt. (page-moved i lt).0;
    leads = λ i lt.
        (page-moved i lt).1
        ∙ ap (addr_v2p k.words) (next_page i)
        ∙ holds.leads (suc i) (omega arith)
        ∙ ap (λ s. unit_addr s (frame (suc i))) (sym gave.same_start);
    used = λ i lt.
        let ne = holds.own 0 (suc i) (omega arith) (omega arith) in
        ground (arith, gave.now (frame (suc i)), holds.used (suc i) (omega arith), ne);
    inside = λ i lt. omega (arith, holds.inside (suc i) (omega arith), gave.same_len);
    own = λ i j lt lt'. holds.own (suc i) (suc j) (omega arith) (omega arith);
  }

  -- The table entries that the other rounds write are not that of this page.
  own_entry : (i : ℕ) → i < left → pte_ptr v ≢ pte_ptr (page_at (v + pg_size) i)
  own_entry i lt e =
      let same =
        pte_ptr_iff v (page_at (v + pg_size) i) (omega (arith, region.ordinary))
          (omega (arith, region.ordinary, lt)) e in
      omega (arith, region.aligned, same)

  module _ (k' : Kernel) (rest : Unmaps one_less (v + pg_size) left (λ i. frame (suc i)) k') where
    freed-suc : (i : ℕ) → i < suc left → frame_used k'.k_p_pool (frame i) ≡ false
    unfolding one_less
    freed-suc zero lt =
        rest.kept (frame 0) (λ i below. holds.own 0 (suc i) (omega arith) (omega arith))
        ∙ ground (arith, gave.now (frame 0))
    freed-suc (suc i) lt = rest.freed i (omega arith)

    unmapped-suc : (i : ℕ) → i < suc left → is_present (k'.words (pte_ptr (page_at v i))) ≡ false
    unfolding one_less
    unmapped-suc zero lt =
        let e : page_at v 0 ≡ v = omega arith in
        rw e (ap is_present (rest.entries (pte_ptr v) own_entry) ∙ remove_lem k.words v)
    unmapped-suc (suc i) lt =
        subst (λ a. is_present (k'.words (pte_ptr a)) ≡ false) (next_page i)
          (rest.unmapped i (omega arith))

    entries-suc :
        (w : ℕ) → ((i : ℕ) → i < suc left → w ≢ pte_ptr (page_at v i)) → k'.words w ≡ k.words w
    unfolding one_less page_table_remove
    entries-suc w away =
        let e : page_at v 0 ≡ v = omega arith in
        let ne : w ≢ pte_ptr v = subst (λ a. w ≢ pte_ptr a) e (away 0 (omega arith)) in
        rest.entries w
          (λ i lt. subst (λ a. w ≢ pte_ptr a) (sym (next_page i)) (away (suc i) (omega arith)))
        ∙ ground (arith, ne)

    Unmaps-suc : Unmaps k v (suc left) frame k'
    unfolding one_less
    Unmaps-suc = record {
      freed = freed-suc;
      kept = λ j away.
          let ne = away 0 (omega arith) in
          rest.kept j (λ i lt. away (suc i) (omega arith)) ∙ ground (arith, gave.now j, ne);
      unmapped = unmapped-suc;
      entries = entries-suc;
      same_pages = rest.same_pages;
    }

unmap-step :
    (left : ℕ) (k k' : Kernel) (v : ℕ) (pp : PPool)
    → pfree k.k_p_pool (addr_v2p k.words v) ≡ some pp
    → u32 (v + pg_size) ≡ v + pg_size
    → unmap_pages left
        (record k { k_p_pool = pp; words = page_table_remove k.words v })
        (v + pg_size)
      ≡ some k'
    → unmap_pages (suc left) k v ≡ some k'
unfolding unmap_pages
unmap-step left k k' v pp freed small rest = rw (unmap_pages, freed, small) rest

unmap_pages-Unmaps :
    (cnt : ℕ) (k : Kernel) (v : ℕ) (frame : ℕ → ℕ)
    → IsRegion v cnt
    → HoldsRange k v cnt frame
    → (k' : Kernel) × (unmap_pages cnt k v ≡ some k') × Unmaps k v cnt frame k'
unfolding unmap_pages one_less
unmap_pages-Unmaps zero k v frame region holds = (
  k,
  refl,
  record {
    freed = λ i lt. absurd (omega arith);
    kept = λ j away. refl;
    unmapped = λ i lt. absurd (omega arith);
    entries = λ w away. refl;
    same_pages = refl;
  },
)
unmap_pages-Unmaps (suc left) k v frame region holds =
    let e : page_at v 0 ≡ v = omega arith in
    let small : u32 (v + pg_size) ≡ v + pg_size = omega (arith, region.ordinary) in
    let gave =
      pfree-Pfree k.k_p_pool (frame 0) holds.pool (holds.inside 0 (omega arith))
        (holds.used 0 (omega arith)) in
    let leads : addr_v2p k.words v ≡ unit_addr k.k_p_pool.paddr_start (frame 0) =
      ap (addr_v2p k.words) (sym e) ∙ holds.leads 0 (omega arith) in
    let freed = ap (pfree k.k_p_pool) leads ∙ gave.1 in
    let rest =
      unmap_pages-Unmaps left (one_less k v left frame region holds gave.0 gave.2) (v + pg_size)
        (λ i. frame (suc i))
        (record {
          aligned = omega (arith, region.aligned);
          ordinary = omega (arith, region.ordinary);
        })
        (rest-HoldsRange k v left frame region holds gave.0 gave.2) in
    (
      rest.0,
      unmap-step left k rest.0 v gave.0 freed small rest.1,
      Unmaps-suc k v left frame region holds gave.0 gave.2 rest.0 rest.2,
    )

-- `page_release` of pages that are mapped to frames of their own and marked as in use, from page
-- number `idx` of the kernel's virtual pages on, succeeds: the frames and the virtual pages are free
-- again, the table entries of the pages are not present, and every other frame, page and table entry
-- is as it was.
pub page_release-Unmaps :
    (k : Kernel) (idx cnt : ℕ) (frame : ℕ → ℕ)
    → IsVPool k.k_v_pool
    → IsRegion (unit_addr k.k_v_pool.vaddr_start idx) cnt
    → 1 ≤ cnt
    → HoldsRange k (unit_addr k.k_v_pool.vaddr_start idx) cnt frame
    → ((j : ℕ) → idx ≤ j → j < idx + cnt → page_used k.k_v_pool j ≡ true)
    → (k' : Kernel) × (page_release k (unit_addr k.k_v_pool.vaddr_start idx) cnt ≡ some k')
      × ((i : ℕ) → i < cnt → frame_used k'.k_p_pool (frame i) ≡ false)
      × ((j : ℕ)
          → ((i : ℕ) → i < cnt → j ≢ frame i)
          → frame_used k'.k_p_pool j ≡ frame_used k.k_p_pool j)
      × ((j : ℕ) → page_used k'.k_v_pool j ≡ (not (in_run idx cnt j) && page_used k.k_v_pool j))
      × ((i : ℕ)
          → i < cnt
          → is_present (k'.words (pte_ptr (page_at (unit_addr k.k_v_pool.vaddr_start idx) i)))
            ≡ false)
      × ((w : ℕ)
          → ((i : ℕ) → i < cnt → w ≢ pte_ptr (page_at (unit_addr k.k_v_pool.vaddr_start idx) i))
          → k'.words w ≡ k.words w)
unfolding page_release
page_release-Unmaps k idx cnt frame pages region some_pages holds used =
    let v = unit_addr k.k_v_pool.vaddr_start idx in
    let un = unmap_pages-Unmaps cnt k v frame region holds in
    let rel =
      release_pages k.k_v_pool cnt idx pages (omega (arith, region.ordinary, some_pages)) used in
    let vp = ap (λ p. vaddr_release p v cnt) un.2.same_pages ∙ rel.1 in
    (
      record un.0 { k_v_pool = rel.0 },
      rw (page_release, un.1, vp) refl,
      un.2.freed,
      un.2.kept,
      rel.3,
      un.2.unmapped,
      un.2.entries,
    )
