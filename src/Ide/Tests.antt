-- ===== src/Ide/Tests.antt =====
-- Runs of the disk driver, and its theorems at a drive and a disk.
use k_os.Base.{
  ℕ, ◌<◌, ◌≡◌, ◌≢◌, inl, inr, refl, ◌==◌, some, if◌then◌else◌, List, [], ◌∷◌, ◌++◌, arith,
}
use k_os.Ide.{Answer, IdeHd, drive_set, cmd_read_sec, cmd_write_sec, ide_read, ide_write}
use k_os.Ide.Ports.{last_written, IsDrive}
use k_os.Ide.Transfers.{MovesAll, read-Covers, write-Covers}
use k_os.Ide.Partition.{PtnTable, Sector, ide_get_partition, scan_entries, scan_entry}
use k_os.Ide.Partition.Scan.{IsData, Logical, Chain, primary_ptn, logical_ptns, partitions_lem}

abbrev slave : IdeHd
slave = record { port_base = 0x1F0; dev_nr = 1 }

-- The drive register reads back, and data is there while a command is the last but polls.
abbrev answer : Answer
answer t port = if port == drive_set slave then last_written (drive_set slave) t else 0x08

slave-IsDrive : IsDrive 1 answer slave
slave-IsDrive = record {
  reads_back = λ t. refl;
  gets_ready = λ cmd t asked. (0, omega arith, refl);
}

-- 300 sectors, so two chunks.
read-Covers_example :
    MovesAll slave
      (ide_read 301 1 answer slave 0x1234567 0x10000 300 [])
      cmd_read_sec
      0x1234567
      0x10000
      300
      []
read-Covers_example =
    read-Covers 301 1 answer slave 0x1234567 0x10000 300 [] slave-IsDrive (omega arith)
      (omega arith)

write-Covers_example :
    MovesAll slave
      (ide_write 301 1 answer slave 0x1234567 0x10000 300 [])
      cmd_write_sec
      0x1234567
      0x10000
      300
      []
write-Covers_example =
    write-Covers 301 1 answer slave 0x1234567 0x10000 300 [] slave-IsDrive (omega arith)
      (omega arith)

abbrev entry : (type start_lba sec_cnt : ℕ) → PtnTable
entry type start_lba sec_cnt = record { type = type; start_lba = start_lba; sec_cnt = sec_cnt }

-- A primary partition, and an extended one at 5000 with logical ones whose tables are at 5000 and
-- 7000.
abbrev disk : ℕ → Sector
disk lba idx =
    if lba == 0
    then if idx == 0
      then entry 0x83 2048 1000
      else if idx == 3
      then entry 0x05 5000 4000
      else entry 0 0 0
    else if lba == 5000
    then if idx == 0
      then entry 0x83 63 1000
      else if idx == 1
      then entry 0x05 2000 1000
      else entry 0 0 0
    else if idx == 0
    then entry 0x83 63 900
    else entry 0 0 0

abbrev logicals : List Logical
logicals = record { offset = 2000; entry = entry 0x83 63 900 } ∷ []

abbrev first_logical : Logical
first_logical = record { offset = 0; entry = entry 0x83 63 1000 }

scan_run :
    ide_get_partition 9 disk 0 0 (record { ptn_nr = 0; ptn_list = [] })
    ≡ some (record {
      ptn_nr = 7;
      ptn_list =
          record { number = 1; start_lba = 2048; sec_cnt = 1000 }
          ∷ record { number = 5; start_lba = 5063; sec_cnt = 1000 }
          ∷ record { number = 6; start_lba = 7063; sec_cnt = 900 }
          ∷ [];
    })
unfolding ide_get_partition scan_entries scan_entry
scan_run = refl

ne : (a b : ℕ) → b < a → a ≢ b
ne a b lt e = omega arith

entry-IsData : (start_lba sec_cnt : ℕ) → IsData (entry 0x83 start_lba sec_cnt)
entry-IsData start_lba sec_cnt = (ne 0x83 0 (omega arith), ne 0x83 0x05 (omega arith))

Chain-here : Chain disk 5000 (first_logical ∷ logicals)
Chain-here = (
  (refl, entry-IsData 63 1000),
  (refl, refl),
  refl,
  refl,
  ((refl, entry-IsData 63 900), refl, refl, refl, tt),
)

partitions_lem_example :
    ide_get_partition 3 disk 0 0 (record { ptn_nr = 0; ptn_list = [] })
    ≡ some (record {
      ptn_nr = 7;
      ptn_list =
          ((([] ++ primary_ptn 0 (disk 0 0)) ++ primary_ptn 1 (disk 0 1))
            ++ primary_ptn 2 (disk 0 2))
          ++ logical_ptns 5000 5 (first_logical ∷ logicals);
    })
partitions_lem_example =
    partitions_lem 2 disk 0 [] first_logical logicals (inr (entry-IsData 2048 1000)) (inl refl)
      (inl refl) refl (ne 5000 0 (omega arith)) refl Chain-here (omega arith)
