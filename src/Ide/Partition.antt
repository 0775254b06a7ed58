-- ===== src/Ide/Partition.antt =====
-- code/kernel/src/ide.c: `ide_get_partition`, the scan of partition tables. `disk lba` is the sector at
-- `lba` as its four table entries. A chain of tables may have no end, so the recursion takes fuel.
pub mod Scan
use k_os.Base.{
  ℕ, zero, suc, ◌+◌, ◌%◌, ◌^◌, ◌==◌, Option, none, some, if◌then◌else◌, List, [], ◌∷◌, ◌++◌,
}
use k_os.Base.Word.{u32}

-- `struct ptn_table`, of which the scan reads these.
pub record PtnTable : Type 0 where
  pub type : ℕ
  pub start_lba : ℕ
  pub sec_cnt : ℕ

-- A partition that is found: the number in its name, and where it is.
pub record Ptn : Type 0 where
  pub number : ℕ
  pub start_lba : ℕ
  pub sec_cnt : ℕ

-- `ptn_list` in order, and the number of the next logical partition.
pub record Found : Type 0 where
  pub ptn_nr : ℕ
  pub ptn_list : List Ptn

abbrev pub Sector : Type 0
Sector = ℕ → PtnTable

abbrev pub record_ptn : (base offset idx : ℕ) → PtnTable → Found → Found
record_ptn base offset idx e s = record {
  ptn_nr = if base == 0 then s.ptn_nr else s.ptn_nr + 1;
  ptn_list =
      s.ptn_list
      ++ record {
        number = if base == 0 then idx + 1 else s.ptn_nr;
        start_lba = u32 (base + offset + e.start_lba);
        sec_cnt = e.sec_cnt;
      }
        ∷ [];
}

-- One entry: unused, an extended partition, or a partition. `scan` is the recursive call.
unfoldable pub scan_entry :
    (scan : (base offset : ℕ) → Found → Option Found)
    → (base offset idx : ℕ) → PtnTable
    → Found
    → Option Found
scan_entry scan base offset idx e s =
    if e.type == 0
    then some s
    else if e.type == 0x05
    then (if base == 0
        then scan e.start_lba 0 (record s { ptn_nr = 5 })
        else scan base e.start_lba s)
    else some (record_ptn base offset idx e s)

unfoldable pub scan_entries :
    (left : ℕ)
    → (scan : (base offset : ℕ) → Found → Option Found) → Sector
    → (base offset idx : ℕ) → Found
    → Option Found
scan_entries zero scan sector base offset idx s = some s
scan_entries (suc left) scan sector base offset idx s =
    elim (scan_entry scan base offset idx (sector idx) s) [
      | none ↦ none
      | some s' ↦ scan_entries left scan sector base offset (idx + 1) s'
    ]

unfoldable pub ide_get_partition :
    ℕ → (disk : ℕ → Sector) → (base offset : ℕ) → Found → Option Found
ide_get_partition zero disk base offset s = none
ide_get_partition (suc fuel) disk base offset s =
    scan_entries 4 (ide_get_partition fuel disk) (disk (u32 (base + offset))) base offset 0 s
