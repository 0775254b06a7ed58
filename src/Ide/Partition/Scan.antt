-- ===== src/Ide/Partition/Scan.antt =====
-- The scan of a disk with primary partitions and a chain of logical ones.
use mathlib.Core.List.{append_assoc, append-nil}
use k_os.Base.{
  ℕ, zero, suc, ◌+◌, ◌<◌, ◌≡◌, ◌≢◌, refl, true, false, ◌==◌, Option, some, if◌then◌else◌, List, [],
  ◌∷◌, ◌++◌, length, arith, ◌∙◌, ap, sym, ==_ne, inl, inr, ◌⊎◌,
}
use k_os.Base.Word.{u32}
use k_os.Ide.Partition.{
  PtnTable, Ptn, Found, Sector, record_ptn, scan_entry, scan_entries, ide_get_partition,
}

abbrev pub IsData : PtnTable → Type 0
IsData e = (e.type ≢ 0) × (e.type ≢ 0x05)

-- A logical partition: where its table is, counted from the extended partition, and the first entry
-- of that table.
pub record Logical : Type 0 where
  pub offset : ℕ
  pub entry : PtnTable

-- The second entry of a table: the link to the next one, or none at the end.
abbrev pub Link : PtnTable → List Logical → Type 0
Link e [] = e.type ≡ 0
Link e (x ∷ xs) = (e.type ≡ 0x05) × (e.start_lba ≡ x.offset)

-- The tables of the logical partitions `xs` are on the disk, each linked to the next.
abbrev pub Chain : (ℕ → Sector) → (base : ℕ) → List Logical → Type 0
Chain disk base [] = Unit
Chain disk base (x ∷ xs) =
    (disk (u32 (base + x.offset)) 0 ≡ x.entry × IsData x.entry)
    × Link (disk (u32 (base + x.offset)) 1) xs
    × ((disk (u32 (base + x.offset)) 2).type ≡ 0)
    × ((disk (u32 (base + x.offset)) 3).type ≡ 0)
    × Chain disk base xs

-- The logical partitions as they are listed, numbered from `nr` on.
unfoldable pub logical_ptns : (base nr : ℕ) → List Logical → List Ptn
logical_ptns base nr [] = []
logical_ptns base nr (x ∷ xs) =
    record {
      number = nr;
      start_lba = u32 (base + x.offset + x.entry.start_lba);
      sec_cnt = x.entry.sec_cnt;
    }
    ∷ logical_ptns base (nr + 1) xs

entry_unused :
    (scan : (base offset : ℕ) → Found → Option Found) (base offset idx : ℕ) (e : PtnTable)
    (s : Found)
    → e.type ≡ 0
    → scan_entry scan base offset idx e s ≡ some s
unfolding scan_entry
entry_unused scan base offset idx e s h = ground (arith, h)

entry_data :
    (scan : (base offset : ℕ) → Found → Option Found) (base offset idx : ℕ) (e : PtnTable)
    (s : Found)
    → IsData e
    → scan_entry scan base offset idx e s ≡ some (record_ptn base offset idx e s)
unfolding scan_entry
entry_data scan base offset idx e s h =
    let a : (e.type == 0) ≡ false = ==_ne _ _ h.0 in
    let b : (e.type == 0x05) ≡ false = ==_ne _ _ h.1 in rw (a, b) refl

-- A link to the next table, from one that is not the first.
entry_link :
    (scan : (base offset : ℕ) → Found → Option Found) (base offset idx : ℕ) (e : PtnTable)
    (s : Found)
    → base ≢ 0
    → e.type ≡ 0x05
    → scan_entry scan base offset idx e s ≡ scan base e.start_lba s
unfolding scan_entry
entry_link scan base offset idx e s ne h = ground (arith, h)

-- The extended partition of the first table.
entry_extended :
    (scan : (base offset : ℕ) → Found → Option Found) (offset idx : ℕ) (e : PtnTable) (s : Found)
    → e.type ≡ 0x05
    → scan_entry scan 0 offset idx e s ≡ scan e.start_lba 0 (record s { ptn_nr = 5 })
unfolding scan_entry
entry_extended scan offset idx e s h = ground (arith, h)

-- The four entries of a table, one after the other.
four_entries :
    (scan : (base offset : ℕ) → Found → Option Found) (sector : Sector) (base offset : ℕ)
    (s₀ s₁ s₂ s₃ s₄ : Found)
    → scan_entry scan base offset 0 (sector 0) s₀ ≡ some s₁
    → scan_entry scan base offset 1 (sector 1) s₁ ≡ some s₂
    → scan_entry scan base offset 2 (sector 2) s₂ ≡ some s₃
    → scan_entry scan base offset 3 (sector 3) s₃ ≡ some s₄
    → scan_entries 4 scan sector base offset 0 s₀ ≡ some s₄
unfolding scan_entries
four_entries scan sector base offset s₀ s₁ s₂ s₃ s₄ e₀ e₁ e₂ e₃ =
    rw (e₀, e₁, e₂, e₃, scan_entries) refl

-- What the first entry of a logical partition's table leaves.
abbrev listed : (base nr : ℕ) → List Ptn → Logical → Found
listed base nr list x = record {
  ptn_nr = nr + 1;
  ptn_list =
      list
      ++ record {
        number = nr;
        start_lba = u32 (base + x.offset + x.entry.start_lba);
        sec_cnt = x.entry.sec_cnt;
      }
        ∷ [];
}

first_lem :
    (scan : (base offset : ℕ) → Found → Option Found) (disk : ℕ → Sector) (base nr : ℕ)
    (list : List Ptn) (x : Logical)
    → base ≢ 0
    → disk (u32 (base + x.offset)) 0 ≡ x.entry
    → IsData x.entry
    → scan_entry scan base x.offset 0
        (disk (u32 (base + x.offset)) 0)
        (record { ptn_nr = nr; ptn_list = list })
      ≡ some (listed base nr list x)
first_lem scan disk base nr list x ne e d =
    let z : (base == 0) ≡ false = ==_ne _ _ ne in
    rw e (entry_data scan base x.offset 0 x.entry _ d ∙ rw z refl)

-- The scan of a chain lists its partitions in order.
chain_lem :
    (fuel : ℕ) (disk : ℕ → Sector) (base nr : ℕ) (list : List Ptn) (x : Logical) (xs : List Logical)
    → base ≢ 0
    → Chain disk base (x ∷ xs)
    → length xs < fuel
    → ide_get_partition fuel disk base x.offset (record { ptn_nr = nr; ptn_list = list })
      ≡ some (record {
        ptn_nr = nr + length (x ∷ xs);
        ptn_list = list ++ logical_ptns base nr (x ∷ xs);
      })
unfolding ide_get_partition scan_entries logical_ptns
chain_lem zero disk base nr list x xs ne c enough = absurd (omega arith)
chain_lem (suc fuel) disk base nr list x [] ne c enough =
    let scan = ide_get_partition fuel disk in
    let s₁ = listed base nr list x in
    four_entries scan (disk (u32 (base + x.offset))) base x.offset _ s₁ s₁ s₁ s₁
      (first_lem scan disk base nr list x ne c.0.0 c.0.1)
      (entry_unused scan base x.offset 1 _ s₁ c.1) (entry_unused scan base x.offset 2 _ s₁ c.2)
      (entry_unused scan base x.offset 3 _ s₁ c.3)
chain_lem (suc fuel) disk base nr list x (y ∷ ys) ne c enough =
    let scan = ide_get_partition fuel disk in
    let s₁ = listed base nr list x in
    let rest = chain_lem fuel disk base (nr + 1) s₁.ptn_list y ys ne c.4 (omega arith) in
    let s₂ : Found = record {
      ptn_nr = nr + 1 + length (y ∷ ys);
      ptn_list = s₁.ptn_list ++ logical_ptns base (nr + 1) (y ∷ ys);
    } in
    let count : nr + 1 + length (y ∷ ys) ≡ nr + length (x ∷ y ∷ ys) = omega arith in
    let link : scan_entry scan base x.offset 1 (disk (u32 (base + x.offset)) 1) s₁ ≡ some s₂ =
      entry_link scan base x.offset 1 _ s₁ ne c.1.0 ∙ ap (λ o. scan base o s₁) c.1.1 ∙ rest in
    four_entries scan (disk (u32 (base + x.offset))) base x.offset _ s₁ s₂ s₂ s₂
      (first_lem scan disk base nr list x ne c.0.0 c.0.1) link
      (entry_unused scan base x.offset 2 _ s₂ c.2) (entry_unused scan base x.offset 3 _ s₂ c.3)
    ∙ ap some (λ i. record {
      ptn_nr = count i;
      ptn_list =
          append_assoc list (logical_ptns base nr (x ∷ [])) (logical_ptns base (nr + 1) (y ∷ ys)) i;
    })

abbrev pub IsPrimary : PtnTable → Type 0
IsPrimary e = (e.type ≡ 0) ⊎ IsData e

-- What an entry of the first table is listed as.
abbrev pub primary_ptn : (idx : ℕ) → PtnTable → List Ptn
primary_ptn idx e =
    if e.type == 0
    then []
    else record { number = idx + 1; start_lba = u32 e.start_lba; sec_cnt = e.sec_cnt } ∷ []

entry_primary :
    (scan : (base offset : ℕ) → Found → Option Found) (idx nr : ℕ) (e : PtnTable) (list : List Ptn)
    → IsPrimary e
    → scan_entry scan 0 0 idx e (record { ptn_nr = nr; ptn_list = list })
      ≡ some (record { ptn_nr = nr; ptn_list = list ++ primary_ptn idx e })
entry_primary scan idx nr e list (inl unused) =
    let z : (e.type == 0) ≡ true = ground arith in
    entry_unused scan 0 0 idx e _ unused ∙ rw (z, append-nil list) refl
entry_primary scan idx nr e list (inr d) =
    let z : (e.type == 0) ≡ false = ==_ne _ _ d.0 in
    let o : 0 + e.start_lba ≡ e.start_lba = omega arith in
    entry_data scan 0 0 idx e _ d ∙ rw (z, o) refl

-- On a disk whose first table has unused entries or primary partitions in its first three entries
-- and an extended partition in the fourth, whose chain of logical partitions ends, the scan ends
-- within that many steps; it appends the primary partitions, numbered by their entries, and then the
-- logical ones, numbered from 5 on, all with their addresses on the disk.
pub partitions_lem :
    (fuel : ℕ) (disk : ℕ → Sector) (nr : ℕ) (list : List Ptn) (x : Logical) (xs : List Logical)
    → IsPrimary (disk 0 0)
    → IsPrimary (disk 0 1)
    → IsPrimary (disk 0 2)
    → (disk 0 3).type ≡ 0x05
    → (disk 0 3).start_lba ≢ 0
    → x.offset ≡ 0
    → Chain disk ((disk 0 3).start_lba) (x ∷ xs)
    → length xs < fuel
    → ide_get_partition (suc fuel) disk 0 0 (record { ptn_nr = nr; ptn_list = list })
      ≡ some (record {
        ptn_nr = 5 + length (x ∷ xs);
        ptn_list =
            (((list ++ primary_ptn 0 (disk 0 0)) ++ primary_ptn 1 (disk 0 1))
              ++ primary_ptn 2 (disk 0 2))
            ++ logical_ptns ((disk 0 3).start_lba) 5 (x ∷ xs);
      })
unfolding ide_get_partition
partitions_lem fuel disk nr list x xs p₀ p₁ p₂ ext ne here c enough =
    let scan = ide_get_partition fuel disk in
    let base = (disk 0 3).start_lba in
    let l₁ = list ++ primary_ptn 0 (disk 0 0) in
    let l₂ = l₁ ++ primary_ptn 1 (disk 0 1) in
    let l₃ = l₂ ++ primary_ptn 2 (disk 0 2) in
    four_entries scan (disk 0) 0 0 _ (record { ptn_nr = nr; ptn_list = l₁ })
      (record { ptn_nr = nr; ptn_list = l₂ }) (record { ptn_nr = nr; ptn_list = l₃ }) _
      (entry_primary scan 0 nr (disk 0 0) list p₀) (entry_primary scan 1 nr (disk 0 1) l₁ p₁)
      (entry_primary scan 2 nr (disk 0 2) l₂ p₂)
      (entry_extended scan 0 3 (disk 0 3) _ ext
        ∙ ap (λ o. scan base o (record { ptn_nr = 5; ptn_list = l₃ })) (sym here)
        ∙ chain_lem fuel disk base 5 l₃ x xs ne c enough)
