-- ===== src/Memory/PageTable.antt =====
-- code/kernel/src/memory.c: page tables through the recursive mapping (`pde_ptr`, `pte_ptr`,
-- `addr_v2p`, `page_table_add`, `page_table_remove`). `words` is the 32-bit word at each virtual
-- address. Masks of address bits are written as division and remainder. The translation buffer of
-- the processor (`invlpg`) is not modelled: what is not present in the tables is not mapped.
pub mod Laws
use k_os.Base.{ℕ, ◌+◌, ◌-◌, ◌*◌, ◌/◌, ◌%◌, ◌^◌, Bool, ◌&&◌, ◌==◌, ltb, leb, if◌then◌else◌, update}
use k_os.Base.Word.{u32}
use k_os.Memory.Pool.{PPool, pg_size, palloc}

abbrev pub Words : Type 0
Words = ℕ → ℕ

-- `PDE_IDX(addr)` and `PTE_IDX(addr)`
abbrev pub pde_idx : ℕ → ℕ
pde_idx addr = addr / 2 ^ 22 % 2 ^ 10

abbrev pub pte_idx : ℕ → ℕ
pte_idx addr = addr / 2 ^ 12 % 2 ^ 10

unfoldable pub pde_ptr : ℕ → ℕ
pde_ptr vaddr = u32 (0xfffff000 + pde_idx vaddr * 4)

unfoldable pub pte_ptr : ℕ → ℕ
pte_ptr vaddr = u32 (0xffc00000 + pde_idx vaddr * 2 ^ 22 / 2 ^ 10 + pte_idx vaddr * 4)

-- `(*pte & 0xfffff000) + (vaddr & 0xfff)`
unfoldable pub addr_v2p : Words → ℕ → ℕ
addr_v2p words vaddr = u32 (words (pte_ptr vaddr) / 2 ^ 12 * 2 ^ 12 + vaddr % 2 ^ 12)

-- `x | PG_US_U | PG_RW_W | PG_P_1`, the low three bits set.
abbrev pub present_flags : ℕ → ℕ
present_flags x = x / 8 * 8 + 7

abbrev pub is_present : ℕ → Bool
is_present entry = entry % 2 == 1

-- `memset(page, 0, PG_SIZE)`
abbrev pub zero_page : Words → ℕ → Words
zero_page words page a = if leb page a && ltb a (page + pg_size) then 0 else words a

-- A missing page table is taken from the kernel pool, whose answer is not tested.
unfoldable pub page_table_add : Words → PPool → (vaddr paddr : ℕ) → Words × PPool
page_table_add words k_p_pool vaddr paddr =
    let pde = pde_ptr vaddr in
    let pte = pte_ptr vaddr in
    let (pt_paddr, k_p_pool') = palloc k_p_pool in
    if is_present (words pde) then (update words pte (present_flags paddr), k_p_pool) else (
      update (zero_page (update words pde (present_flags pt_paddr)) (pte / 2 ^ 12 * 2 ^ 12)) pte
          (present_flags paddr),
      k_p_pool',
    )

unfoldable pub page_table_remove : Words → ℕ → Words
page_table_remove words vaddr = let pte = pte_ptr vaddr in update words pte (words pte / 2 * 2)
