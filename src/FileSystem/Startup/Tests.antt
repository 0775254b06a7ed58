-- ===== src/FileSystem/Startup/Tests.antt =====
-- The theorems on the start of the file system at concrete partitions.
use k_os.Base.{ℕ, ◌+◌, ◌*◌, ◌≡◌, refl, true, some, none, inl, inr, List, [], ◌∷◌, replicate, arith}
use k_os.CString.{Memory}
use k_os.Lock.{mutex_init}
use k_os.FileSystem.{init_super_block}
use k_os.FileSystem.RootDir.Mount.{has_room}
use k_os.FileSystem.Disk.{Disk}
use k_os.FileSystem.Disk.Format.{Fits, format_disk}
use k_os.FileSystem.Startup.{BitmapAt, MountPtn, Buffers, FsState, seeded_root, fs_mount, fs_init}
use k_os.FileSystem.Startup.Mounted.{read_super-format}
use k_os.FileSystem.Startup.Bitmaps.{fs_mount-misreads}
use k_os.FileSystem.Startup.Full.{fs_init-full}

abbrev no_bitmap : BitmapAt
no_bitmap = record { len = 0; bits = 0 }

-- As `ide_get_partition` leaves a partition.
abbrev new_ptn : (name start_lba sec_cnt : ℕ) → MountPtn
new_ptn name start_lba sec_cnt = record {
  name = name ∷ [];
  ptn = record { start_lba = start_lba; sec_cnt = sec_cnt };
  inode_base = 0;
  inode_cnt = 0;
  inode_btmp_lba = 0;
  inode_btmp = no_bitmap;
  inode_table_lba = 0;
  blk_btmp_lba = 0;
  blk_btmp = no_bitmap;
  blk_lba = 0;
  open_inodes = [];
  mlock = mutex_init;
}

abbrev sda_1 : MountPtn
sda_1 = new_ptn b'a' 2048 20000

abbrev sda_2 : MountPtn
sda_2 = new_ptn b'b' 30000 40000

abbrev zeros : Memory
zeros a = 0

abbrev sixes : Memory
sixes a = 6

abbrev bufs : ℕ → Buffers
bufs idx = record {
  stack = zeros;
  garbage = some sixes;
  inode_bits = 4096 + idx * 8192;
  blk_bits = 8192 + idx * 8192;
}

abbrev empty_disk : Disk
empty_disk sector o = 0

abbrev boot : FsState
boot = record { disk = empty_disk; memory = sixes; root_dir = seeded_root; inode_max = 0 }

sda_1-Fits : Fits sda_1.ptn
sda_1-Fits = record { room = omega arith; below_4gb = omega arith; in_reach = omega arith }

room : has_room seeded_root.entries ≡ true
unfolding has_room
room = refl

abbrev formatted : FsState
formatted = record boot { disk = format_disk zeros sixes sda_1.ptn empty_disk }

fs_mount-misreads_example :
    (p' : MountPtn) × (s' : FsState) × (fs_mount (bufs 0) sda_1 formatted ≡ some (p', s'))
    × (p'.inode_btmp.bits ≡ 4096)
    × (s'.memory (4096 + 3) ≡ 6)
    × (s'.memory (0 + 3) ≡ formatted.disk (init_super_block sda_1.ptn).inode_btmp_lba 3)
unfolding init_super_block
fs_mount-misreads_example =
    fs_mount-misreads (bufs 0) sda_1 formatted (init_super_block sda_1.ptn) 3
      (read_super-format zeros sixes sda_1.ptn empty_disk sda_1-Fits) refl (omega arith) room
      (inl (omega arith)) (inr (omega arith)) (inr (omega arith)) (omega arith)

abbrev nine : List MountPtn
nine = replicate 9 sda_1

fs_init-full_example : fs_init 0x9000 bufs nine boot ≡ none
fs_init-full_example = fs_init-full 0x9000 bufs nine boot (omega arith)
