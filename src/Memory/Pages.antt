-- ===== src/Memory/Pages.antt =====
-- code/kernel/src/memory.c: whole pages (`page_acquire`, `page_release`, `page_malloc`,
-- `page_free`). The pools that the callers pass are always the kernel's.
pub mod Laws
pub mod Acquire
pub mod Release
pub mod RoundTrip
use k_os.Base.{ℕ, zero, suc, ◌+◌, ◌*◌, Bool, true, false, Option, none, some, ◌==◌, if◌then◌else◌}
use k_os.Base.Word.{u32}
use k_os.Memory.Pool.{PPool, VPool, pg_size, vaddr_acquire, vaddr_release, palloc, pfree}
use k_os.Memory.PageTable.{Words, addr_v2p, page_table_add, page_table_remove}

-- The globals `k_p_pool`, `u_p_pool` and `k_v_pool`, and the memory that holds the page tables.
pub record Kernel : Type 0 where
  pub k_p_pool : PPool
  pub u_p_pool : PPool
  pub k_v_pool : VPool
  pub words : Words

-- Frame by frame from `vaddr_idx` on; false if a frame is missing, with the pages before it mapped.
unfoldable pub map_pages : ℕ → Kernel → (vaddr_idx : ℕ) → Bool × Kernel
map_pages zero k vaddr_idx = (true, k)
map_pages (suc left) k vaddr_idx =
    let (paddr, pp) = palloc k.k_p_pool in
    let (w, pp') = page_table_add k.words pp vaddr_idx paddr in
    let rest =
      map_pages left (record k { k_p_pool = pp'; words = w }) (u32 (vaddr_idx + pg_size)) in
    if paddr == 0 then (false, record k { k_p_pool = pp }) else rest

unfoldable pub page_acquire : Kernel → (vaddr pg_cnt : ℕ) → ℕ × Kernel
page_acquire k vaddr pg_cnt =
    let (vaddr_ret, vp) = vaddr_acquire k.k_v_pool vaddr pg_cnt in
    let k' = record k { k_v_pool = vp } in
    let (mapped, k'') = map_pages pg_cnt k' vaddr_ret in
    if vaddr_ret == 0 then (0, k') else (if mapped then vaddr_ret else 0, k'')

-- `none` is a failed assertion: a frame or a page that is not in use.
unfoldable pub unmap_pages : ℕ → Kernel → (vaddr_idx : ℕ) → Option Kernel
unmap_pages zero k vaddr_idx = some k
unmap_pages (suc left) k vaddr_idx = elim (pfree k.k_p_pool (addr_v2p k.words vaddr_idx)) [
  | none ↦ none
  | some pp ↦
      unmap_pages left (record k { k_p_pool = pp; words = page_table_remove k.words vaddr_idx })
        (u32 (vaddr_idx + pg_size))
]

unfoldable pub page_release : Kernel → (vaddr pg_cnt : ℕ) → Option Kernel
page_release k vaddr pg_cnt = elim (unmap_pages pg_cnt k vaddr) [
  | none ↦ none
  | some k' ↦ elim (vaddr_release k'.k_v_pool vaddr pg_cnt) [
    | none ↦ none
    | some vp ↦ some (record k' { k_v_pool = vp })
  ]
]

-- `enum pool_flags`, and any other value of the argument.
pub data PoolFlags : Type 0 where
  pf_kernel pf_user invalid : PoolFlags

unfoldable pub page_malloc : PoolFlags → Kernel → (vaddr pg_cnt : ℕ) → ℕ × Kernel
page_malloc pf_kernel k vaddr pg_cnt = page_acquire k vaddr pg_cnt
page_malloc pf_user k vaddr pg_cnt = (0, k)
page_malloc invalid k vaddr pg_cnt = (0, k)

unfoldable pub page_free : PoolFlags → Kernel → (vaddr pg_cnt : ℕ) → Option Kernel
page_free pf_kernel k vaddr pg_cnt = page_release k vaddr pg_cnt
page_free pf_user k vaddr pg_cnt = some k
page_free invalid k vaddr pg_cnt = some k
