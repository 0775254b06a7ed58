-- ===== src/FileSystem/Startup.antt =====
-- code/kernel/src/fs.c: `root_dir_init`, `fs_mount` and `fs_init`. The answers of `sys_malloc` are
-- parameters: the addresses of the two bitmaps, and what is in the buffer that `fs_format` gets, if any,
-- and on its stack. The buffer with the super block is its own, apart from the rest of the memory; that
-- there is one, and one for the root directory's inode, is taken for granted.
pub mod Mounted
pub mod Bitmaps
pub mod FormatAll
pub mod Safety
pub mod Entries
pub mod Full
mod Tests
use k_os.Base.{
  ℕ, zero, suc, ◌+◌, ◌-◌, ◌*◌, ◌%◌, ◌^◌, ◌==◌, Option, none, some, if◌then◌else◌, List, [], ◌∷◌,
  ◌++◌, replicate,
}
use k_os.Base.Word.{u32}
use k_os.CString.{Memory, memset}
use k_os.Lock.{System, mutex_init}
use k_os.FileSystem.{IdePtn, SuperBlock, fs_magic, sector_size, block_size, fs_format}
use k_os.FileSystem.RootDir.{Dirent, RootDir, ft_dir, ft_unknown, assign_inodes, mount_dir}
use k_os.FileSystem.Disk.{Disk, disk_read, load_super, write_all}

-- `struct bitmap`, with the address of its bits.
pub record BitmapAt : Type 0 where
  pub len : ℕ
  pub bits : ℕ

-- `struct ide_ptn` on one disk; `open_inodes` are the inode numbers of that list.
pub record MountPtn : Type 0 where
  pub name : List ℕ
  pub ptn : IdePtn
  pub inode_base : ℕ
  pub inode_cnt : ℕ
  pub inode_btmp_lba : ℕ
  pub inode_btmp : BitmapAt
  pub inode_table_lba : ℕ
  pub blk_btmp_lba : ℕ
  pub blk_btmp : BitmapAt
  pub blk_lba : ℕ
  pub open_inodes : List ℕ
  pub mlock : System (Option ℕ)

-- What `sys_malloc` and the stack give while a partition is set up.
pub record Buffers : Type 0 where
  pub stack : Memory
  pub garbage : Option Memory
  pub inode_bits : ℕ
  pub blk_bits : ℕ

-- `inode_max` is the static variable of `fs_mount`.
pub record FsState : Type 0 where
  pub disk : Disk
  pub memory : Memory
  pub root_dir : RootDir
  pub inode_max : ℕ

-- The root directory with its first two entries.
abbrev pub seeded_root : RootDir
seeded_root = record {
  entries =
      record { i_no = 0; filename = b'.' ∷ []; f_type = ft_dir }
      ∷ record { i_no = 0; filename = b'.' ∷ b'.' ∷ []; f_type = ft_dir }
      ∷ replicate 8 (record { i_no = 0; filename = []; f_type = ft_unknown });
  i_size = 48;
}

-- `root_blk` holds 10 entries of 24 bytes; `memset` clears a block of 4096 bytes from its start, so also
-- what the memory holds behind it.
unfoldable pub root_dir_init : (root_blk : ℕ) → FsState → FsState
root_dir_init root_blk s = record s {
  memory = memset s.memory (root_blk + 240) 0 (block_size - 240);
  root_dir = seeded_root;
}

unfoldable pub read_super : Disk → IdePtn → SuperBlock
read_super disk ptn = load_super (disk_read disk (u32 (ptn.start_lba + 1)) (λ a. 0) 0 1)

-- The partition as the mount leaves it, all but its range of inode numbers.
unfoldable pub mount_ptn : Buffers → SuperBlock → MountPtn → MountPtn
mount_ptn b sb p = record p {
  inode_cnt = sb.inode_cnt;
  inode_btmp_lba = sb.inode_btmp_lba;
  inode_btmp = record { len = u32 (sb.inode_btmp_sec * sector_size); bits = b.inode_bits };
  inode_table_lba = sb.inode_table_lba;
  blk_btmp_lba = sb.blk_btmp_lba;
  blk_btmp = record { len = u32 (sb.blk_btmp_sec * sector_size); bits = b.blk_bits };
  blk_lba = sb.blk_lba;
  open_inodes = [];
  mlock = mutex_init;
}

-- The two reads: the first, of the inode bitmap, is to where the block bitmap was before.
unfoldable pub mount_reads : Buffers → SuperBlock → MountPtn → Disk → Memory → Memory
mount_reads b sb p disk m =
    let m₁ = disk_read disk sb.inode_btmp_lba m p.blk_btmp.bits sb.inode_btmp_sec in
    disk_read disk sb.blk_btmp_lba m₁ b.blk_bits sb.blk_btmp_sec

-- The mount with the super block that was read; `none` is the failed assertion of a full root
-- directory.
unfoldable pub mount_with : Buffers → SuperBlock → MountPtn → FsState → Option (MountPtn × FsState)
mount_with b sb p s =
    let memory = mount_reads b sb p s.disk s.memory in
    let (inode_base, inode_max) = assign_inodes p.inode_base sb.inode_cnt s.inode_max in
    elim (mount_dir p.name inode_base s.root_dir) [
      | none ↦ none
      | some root_dir ↦ some (
        record (mount_ptn b sb p) { inode_base = inode_base },
        record { disk = s.disk; memory = memory; root_dir = root_dir; inode_max = inode_max },
      )
    ]

unfoldable pub fs_mount : Buffers → MountPtn → FsState → Option (MountPtn × FsState)
fs_mount b p s = mount_with b (read_super s.disk p.ptn) p s

-- `if (FS_MAGIC != sb_buf->magic) fs_format(ptn);`
unfoldable pub ensure_format : Buffers → IdePtn → Disk → Option Disk
ensure_format b ptn disk =
    let formatted : Option Disk = elim (fs_format ptn b.garbage) [
      | none ↦ none
      | some writes ↦ some (write_all b.stack writes disk)
    ] in
    if (read_super disk ptn).magic == fs_magic then some disk else formatted

-- The loop over the partition list; partition number `idx` gets the buffers of that number.
unfoldable pub mount_all :
    (buffers : ℕ → Buffers) → (idx : ℕ) → List MountPtn → FsState → Option (List MountPtn × FsState)
mount_all buffers idx [] s = some ([], s)
mount_all buffers idx (p ∷ ps) s = elim (ensure_format (buffers idx) p.ptn s.disk) [
  | none ↦ none
  | some disk ↦ elim (fs_mount (buffers idx) p (record s { disk = disk })) [
    | none ↦ none
    | some (p', s') ↦ elim (mount_all buffers (idx + 1) ps s') [
      | none ↦ none
      | some (ps', s'') ↦ some (p' ∷ ps', s'')
    ]
  ]
]

unfoldable pub fs_init :
    (root_blk : ℕ)
    → (buffers : ℕ → Buffers) → (ptn_list : List MountPtn) → FsState
    → Option (List MountPtn × FsState)
fs_init root_blk buffers ptn_list s = mount_all buffers 0 ptn_list (root_dir_init root_blk s)
