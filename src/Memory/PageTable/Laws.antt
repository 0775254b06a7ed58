-- ===== src/Memory/PageTable/Laws.antt =====
-- Page-table entries: where they stand, and what adding or removing one does to the others.
use k_os.Base.{ℕ, ◌+◌, ◌*◌, ◌/◌, ◌%◌, ◌^◌, ◌<◌, ◌≡◌, ◌≢◌, true, false, arith, Bool-cases, inl, inr}
use k_os.Memory.Pool.{PPool, pg_size}
use k_os.Memory.PageTable.{
  Words, pde_ptr, pte_ptr, addr_v2p, is_present, page_table_add, page_table_remove,
}

-- A virtual address below the 4 MB through which the tables themselves are reached.
abbrev pub Ordinary : ℕ → Type 0
Ordinary v = v < 0xffc00000

pub record Mapped (words : Words) (vaddr : ℕ) : Type 0 where
  pub pde : is_present (words (pde_ptr vaddr)) ≡ true
  pub pte : is_present (words (pte_ptr vaddr)) ≡ true

-- Two ordinary addresses have the same table entry exactly if they lie in the same page.
pub pte_ptr_iff :
    (a b : ℕ) → Ordinary a → Ordinary b → pte_ptr a ≡ pte_ptr b → a / 2 ^ 12 ≡ b / 2 ^ 12
unfolding pte_ptr
pte_ptr_iff a b ha hb e = omega arith

pub pde_ptr-ne-pte_ptr : (a b : ℕ) → Ordinary b → pde_ptr a ≢ pte_ptr b
unfolding pte_ptr pde_ptr
pde_ptr-ne-pte_ptr a b hb e = omega arith

pub pde_outside_table :
    (a b : ℕ) → Ordinary b → pte_ptr b / 2 ^ 12 * 2 ^ 12 + pg_size < pde_ptr a + 1
unfolding pte_ptr pde_ptr
pde_outside_table a b hb = omega arith

-- Entries in one table belong to one directory entry.
pub pde_ptr_of_table :
    (a b : ℕ)
    → Ordinary a
    → Ordinary b
    → pte_ptr a / 2 ^ 12 ≡ pte_ptr b / 2 ^ 12
    → pde_ptr a ≡ pde_ptr b
unfolding pte_ptr pde_ptr
pde_ptr_of_table a b ha hb e = omega arith

-- After `page_table_add` the address leads to the frame, and it is mapped.
pub add_v2p :
    (words : Words) (pp : PPool) (v p : ℕ)
    → Ordinary v
    → p % 2 ^ 12 ≡ 0
    → p < 2 ^ 32
    → addr_v2p (page_table_add words pp v p).0 v ≡ p + v % 2 ^ 12
unfolding page_table_add addr_v2p
add_v2p words pp v p hv al lt = elim (Bool-cases (is_present (words (pde_ptr v)))) [
  | inl there ↦ rw there (ground arith)
  | inr new ↦ rw new (ground arith)
]

pub add-Mapped :
    (words : Words) (pp : PPool) (v p : ℕ) → Ordinary v → Mapped (page_table_add words pp v p).0 v
unfolding page_table_add
add-Mapped words pp v p hv =
    let ne = pde_ptr-ne-pte_ptr v v hv in
    let far = pde_outside_table v v hv in
    elim (Bool-cases (is_present (words (pde_ptr v)))) [
      | inl there ↦ rw there (record { pde = ground arith; pte = ground arith })
      | inr new ↦ rw new (record { pde = ground arith; pte = ground arith })
    ]

-- `page_table_add` leaves every other mapped page as it is.
pub add_other :
    (words : Words) (pp : PPool) (v p a : ℕ)
    → Ordinary v
    → Ordinary a
    → v / 2 ^ 12 ≢ a / 2 ^ 12
    → Mapped words a
    → Mapped (page_table_add words pp v p).0 a
      × (addr_v2p (page_table_add words pp v p).0 a ≡ addr_v2p words a)
unfolding page_table_add addr_v2p
add_other words pp v p a hv ha ne m =
    let apart : pte_ptr v ≢ pte_ptr a = (λ e. ne (pte_ptr_iff v a hv ha e)) in
    let k = pde_ptr-ne-pte_ptr v a ha in
    let k' = pde_ptr-ne-pte_ptr a v hv in
    let far = pde_outside_table a v hv in
    let pde = m.pde in
    let pte = m.pte in
    elim (Bool-cases (is_present (words (pde_ptr v)))) [
      | inl there ↦ rw there (record { pde = ground arith; pte = ground arith }, ground arith)
      | inr new ↦
          let table : pte_ptr v / 2 ^ 12 ≢ pte_ptr a / 2 ^ 12 =
            (λ e. let same = pde_ptr_of_table v a hv ha e in ground arith) in
          rw new (record { pde = ground arith; pte = ground arith }, ground arith)
    ]

-- `page_table_remove` unmaps the page of the address, and leaves every other page as it is.
pub remove_lem :
    (words : Words) (v : ℕ) → is_present (page_table_remove words v (pte_ptr v)) ≡ false
unfolding page_table_remove
remove_lem words v = ground arith

pub remove_other :
    (words : Words) (v a : ℕ)
    → Ordinary v
    → Ordinary a
    → v / 2 ^ 12 ≢ a / 2 ^ 12
    → Mapped words a
    → Mapped (page_table_remove words v) a
      × (addr_v2p (page_table_remove words v) a ≡ addr_v2p words a)
unfolding page_table_remove addr_v2p
remove_other words v a hv ha ne m =
    let apart : pte_ptr v ≢ pte_ptr a = (λ e. ne (pte_ptr_iff v a hv ha e)) in
    let k' = pde_ptr-ne-pte_ptr a v hv in
    let pde = m.pde in
    let pte = m.pte in (record { pde = ground arith; pte = ground arith }, ground arith)
