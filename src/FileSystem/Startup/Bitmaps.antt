-- ===== src/FileSystem/Startup/Bitmaps.antt =====
-- The two bitmaps of a partition that is mounted.
use k_os.Base.{
  ℕ, ◌+◌, ◌*◌, ◌/◌, ◌%◌, ◌^◌, ◌<◌, ◌≡◌, Bool, true, ◌||◌, ◌&&◌, ◌==◌, ltb, some, arith, refl, ◌∙◌,
}
use k_os.CString.Copy.{Apart}
use k_os.FileSystem.{IdePtn, SuperBlock, init_super_block}
use k_os.FileSystem.RootDir.Mount.{has_room}
use k_os.FileSystem.Disk.{Disk, disk_read}
use k_os.FileSystem.Startup.{
  MountPtn, Buffers, FsState, read_super, mount_ptn, mount_reads, fs_mount,
}
use k_os.FileSystem.Startup.Mounted.{fs_mount-Mounts, disk_read-in, disk_read-out}

-- What the block bitmap of the format says of block `i`.
abbrev pub expected_mark : IdePtn → (i : ℕ) → Bool
expected_mark ptn i =
    let cnt = (init_super_block ptn).blk_cnt in
    (i == 0) || ltb cnt i && ltb i ((cnt / 8 / 512 + 1) * 4096)

-- A formatted partition `ptn`, mounted: the areas are those of its super block.
pub record IsMounted (ptn : IdePtn) (p : MountPtn) : Type 0 where
  pub inode_cnt_ok : p.inode_cnt ≡ (init_super_block ptn).inode_cnt
  pub inode_btmp_ok : p.inode_btmp_lba ≡ (init_super_block ptn).inode_btmp_lba
  pub inode_table_ok : p.inode_table_lba ≡ (init_super_block ptn).inode_table_lba
  pub blk_btmp_ok : p.blk_btmp_lba ≡ (init_super_block ptn).blk_btmp_lba
  pub blk_btmp_len : p.blk_btmp.len ≡ (init_super_block ptn).blk_btmp_sec * 512
  pub blk_ok : p.blk_lba ≡ (init_super_block ptn).blk_lba

-- A mount with an inode bitmap of one sector puts it where the partition's block bitmap was before
-- (at the address 0 for a new partition), and leaves the buffer for the inode bitmap as it was, when
-- that buffer, the new block bitmap and the old one are apart from one another.
pub fs_mount-misreads :
    (b : Buffers) (p : MountPtn) (s : FsState) (sb : SuperBlock) (a : ℕ)
    → read_super s.disk p.ptn ≡ sb
    → sb.inode_btmp_sec ≡ 1
    → sb.inode_btmp_lba < 2 ^ 28
    → has_room s.root_dir.entries ≡ true
    → Apart p.blk_btmp.bits 512 b.inode_bits 512
    → Apart b.blk_bits (sb.blk_btmp_sec * 512) b.inode_bits 512
    → Apart b.blk_bits (sb.blk_btmp_sec * 512) p.blk_btmp.bits 512
    → a < 512
    → (p' : MountPtn) × (s' : FsState) × (fs_mount b p s ≡ some (p', s'))
      × (p'.inode_btmp.bits ≡ b.inode_bits)
      × (s'.memory (b.inode_bits + a) ≡ s.memory (b.inode_bits + a))
      × (s'.memory (p.blk_btmp.bits + a) ≡ s.disk sb.inode_btmp_lba a)
unfolding mount_reads mount_ptn
fs_mount-misreads b p s sb a reads one reach room apart₁ apart₂ apart₃ lt =
    let r = fs_mount-Mounts b p s sb reads room in
    let e : sb.inode_btmp_lba + a / 512 ≡ sb.inode_btmp_lba = omega arith in
    let f : a % 512 ≡ a = omega arith in
    let m₁ = disk_read s.disk sb.inode_btmp_lba s.memory p.blk_btmp.bits sb.inode_btmp_sec in
    (
      r.ptn,
      r.state,
      r.mount_eq,
      rw r.ptn_eq refl,
      rw r.memory_eq (
          disk_read-out s.disk sb.blk_btmp_lba m₁ b.blk_bits sb.blk_btmp_sec (b.inode_bits + a)
            (ground arith)
          ∙ disk_read-out s.disk sb.inode_btmp_lba s.memory p.blk_btmp.bits sb.inode_btmp_sec
              (b.inode_bits + a) (ground arith)),
      rw r.memory_eq (
          disk_read-out s.disk sb.blk_btmp_lba m₁ b.blk_bits sb.blk_btmp_sec (p.blk_btmp.bits + a)
            (ground arith)
          ∙ disk_read-in s.disk sb.inode_btmp_lba s.memory p.blk_btmp.bits sb.inode_btmp_sec a reach
              (ground arith) (ground arith)
          ∙ rw (e, f) refl),
    )
