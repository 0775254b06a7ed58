-- ===== src/FileSystem/Startup/Mounted.antt =====
-- What `fs_mount` finds on a partition that `fs_format` wrote, and where it puts it.
use k_os.Base.{
  ℕ, ◌+◌, ◌-◌, ◌*◌, ◌/◌, ◌%◌, ◌^◌, ◌≤◌, ◌<◌, ◌≡◌, ◌⊎◌, inl, inr, true, some, List, [], ◌∷◌, arith,
  refl, ◌∙◌, ap, Bool-cases,
}
use k_os.Base.Word.{u32, div_round_up}
use k_os.CString.{Memory}
use k_os.FileSystem.{IdePtn, SuperBlock, init_super_block}
use k_os.FileSystem.RootDir.{Dirent, ft_dir, is_unknown, mount_entry, mount_dir, assign_inodes}
use k_os.FileSystem.RootDir.Mount.{has_room}
use k_os.FileSystem.Disk.{Disk, disk_read, load_word, load_super, store_super}
use k_os.FileSystem.Disk.Words.{IsSuperBlock, load_super-store_super}
use k_os.FileSystem.Disk.Format.{Fits, format_disk, format-super}
use k_os.FileSystem.Startup.{
  MountPtn, Buffers, FsState, read_super, mount_ptn, mount_reads, mount_with, fs_mount,
}

pub disk_read-in :
    (disk : Disk) (lba : ℕ) (m : Memory) (dst cnt a : ℕ)
    → lba < 2 ^ 28
    → cnt ≤ 256
    → a < cnt * 512
    → disk_read disk lba m dst cnt (dst + a) ≡ disk (lba + a / 512) (a % 512)
unfolding disk_read
disk_read-in disk lba m dst cnt a reach short lt =
    let e : dst + a - dst ≡ a = omega arith in
    let f : lba % 2 ^ 28 + a / 512 % 256 ≡ lba + a / 512 = omega arith in rw (e, f) (ground arith)

pub disk_read-out :
    (disk : Disk) (lba : ℕ) (m : Memory) (dst cnt a : ℕ)
    → (a < dst) ⊎ (dst + cnt * 512 ≤ a)
    → disk_read disk lba m dst cnt a ≡ m a
unfolding disk_read
disk_read-out disk lba m dst cnt a away = ground arith

load_word-cong :
    (m m' : Memory)
    → ((a : ℕ) → a < 512 → m a ≡ m' a)
    → (p : ℕ) → p + 4 ≤ 512
    → load_word m p ≡ load_word m' p
unfolding load_word
load_word-cong m m' same p fits =
    rw
      (
        same p (omega arith),
        same (p + 1) (omega arith),
        same (p + 2) (omega arith),
        same (p + 3) (omega arith),
      )
      refl

-- Two sectors with the same bytes hold the same super block.
load_super-cong : (m m' : Memory) → ((a : ℕ) → a < 512 → m a ≡ m' a) → load_super m ≡ load_super m'
unfolding load_super
load_super-cong m m' same =
    let word : (p : ℕ) → p + 4 ≤ 512 → load_word m p ≡ load_word m' p = load_word-cong m m' same in
    rw
      (
        word 0 (omega arith),
        word 4 (omega arith),
        word 8 (omega arith),
        word 12 (omega arith),
        word 16 (omega arith),
        word 20 (omega arith),
        word 24 (omega arith),
        word 28 (omega arith),
        word 32 (omega arith),
        word 36 (omega arith),
      )
      refl

-- The super block is read from the sector behind the first of the partition.
pub read_super-sector :
    (disk : Disk) (ptn : IdePtn) (m : Memory)
    → ptn.start_lba + 1 < 2 ^ 28
    → ((a : ℕ) → a < 512 → disk (ptn.start_lba + 1) a ≡ m a)
    → read_super disk ptn ≡ load_super m
unfolding read_super
read_super-sector disk ptn m reach same = load_super-cong _ m (λ a lt.
    let e : u32 (ptn.start_lba + 1) ≡ ptn.start_lba + 1 = omega arith in
    let z : 0 + a ≡ a = omega arith in
    let f : ptn.start_lba + 1 + a / 512 ≡ ptn.start_lba + 1 = omega arith in
    let g : a % 512 ≡ a = omega arith in
    let got =
      rw z at
        (disk_read-in disk (ptn.start_lba + 1) (λ b. 0) 0 1 a reach (omega arith) (omega arith)) in
    rw (e, got, f, g) (same a lt))

init_super_block-IsSuperBlock : (ptn : IdePtn) → Fits ptn → IsSuperBlock (init_super_block ptn)
unfolding init_super_block div_round_up
init_super_block-IsSuperBlock ptn fits = record {
  magic_small = omega arith;
  inode_cnt_small = omega arith;
  inode_btmp_lba_small = omega arith;
  inode_btmp_sec_small = omega arith;
  inode_table_lba_small = omega arith;
  inode_table_sec_small = omega arith;
  blk_cnt_small = omega (arith, fits.below_4gb);
  blk_btmp_lba_small = omega arith;
  blk_btmp_sec_small = omega (arith, fits.below_4gb);
  blk_lba_small = omega arith;
}

-- The super block that `fs_format` writes is the one that is read back.
pub read_super-format :
    (stack garbage : Memory) (ptn : IdePtn) (disk : Disk)
    → Fits ptn
    → read_super (format_disk stack garbage ptn disk) ptn ≡ init_super_block ptn
read_super-format stack garbage ptn disk fits =
    read_super-sector _ ptn (store_super stack (init_super_block ptn))
      (omega (arith, fits.room, fits.in_reach)) (λ a lt. format-super stack garbage ptn disk a fits)
    ∙ load_super-store_super stack (init_super_block ptn) (init_super_block-IsSuperBlock ptn fits)

mount_entry-room :
    (name : List ℕ) (base : ℕ) (ds : List Dirent)
    → has_room ds ≡ true
    → (ds' : List Dirent) × (mount_entry name base ds ≡ some ds')
unfolding mount_entry has_room
mount_entry-room name base [] room = absurd (ground (arith, room))
mount_entry-room name base (d ∷ ds) room = elim (Bool-cases (is_unknown d.f_type)) [
  | inl free ↦ (record { i_no = base; filename = name; f_type = ft_dir } ∷ ds, rw free refl)
  | inr used ↦
      let r = mount_entry-room name base ds (rw used at room) in (d ∷ r.0, rw (used, r.1) refl)
]

-- A mount of the partition with the super block `sb` that succeeds.
pub record Mounts (b : Buffers) (p : MountPtn) (s : FsState) (sb : SuperBlock) : Type 0 where
  pub ptn : MountPtn
  pub state : FsState
  pub mount_eq : fs_mount b p s ≡ some (ptn, state)
  pub ptn_eq : ptn ≡ record (mount_ptn b sb p) {
    inode_base = (assign_inodes p.inode_base sb.inode_cnt s.inode_max).0;
  }
  pub name_eq : ptn.name ≡ p.name
  pub base_eq : ptn.inode_base ≡ (assign_inodes p.inode_base sb.inode_cnt s.inode_max).0
  pub cnt_eq : ptn.inode_cnt ≡ sb.inode_cnt
  pub disk_eq : state.disk ≡ s.disk
  pub memory_eq : state.memory ≡ mount_reads b sb p s.disk s.memory
  pub inode_max_eq : state.inode_max ≡ (assign_inodes p.inode_base sb.inode_cnt s.inode_max).1
  pub entries_eq :
      mount_entry p.name ptn.inode_base s.root_dir.entries ≡ some state.root_dir.entries

pub fs_mount-Mounts :
    (b : Buffers) (p : MountPtn) (s : FsState) (sb : SuperBlock)
    → read_super s.disk p.ptn ≡ sb
    → has_room s.root_dir.entries ≡ true
    → Mounts b p s sb
unfolding fs_mount mount_with mount_dir mount_ptn
fs_mount-Mounts b p s sb reads room =
    let (base, max) = assign_inodes p.inode_base sb.inode_cnt s.inode_max in
    let r = mount_entry-room p.name base s.root_dir.entries room in
    record {
      ptn = record (mount_ptn b sb p) { inode_base = base };
      state = record {
        disk = s.disk;
        memory = mount_reads b sb p s.disk s.memory;
        root_dir = record { entries = r.0; i_size = u32 (s.root_dir.i_size + 24) };
        inode_max = max;
      };
      mount_eq = ap (λ x. mount_with b x p s) reads ∙ rw (mount_with, mount_dir, r.1) refl;
      ptn_eq = refl;
      name_eq = refl;
      base_eq = refl;
      cnt_eq = refl;
      disk_eq = refl;
      memory_eq = refl;
      inode_max_eq = refl;
      entries_eq = r.1;
    }
