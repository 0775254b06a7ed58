-- ===== src/FileSystem/Disk/Format.antt =====
-- The disk after `fs_format`.
use k_os.Base.{
  ℕ, ◌+◌, ◌-◌, ◌*◌, ◌/◌, ◌%◌, ◌^◌, ◌≤◌, ◌<◌, ◌≡◌, ◌⊎◌, true, some, leb, arith, refl, ◌∙◌,
}
use k_os.Base.Word.{u32, div_round_up}
use k_os.CString.{Memory, memset}
use k_os.FileSystem.{
  IdePtn, SuperBlock, init_super_block, last_byte, last_size, buf_size, inode_table, tail_filled,
  block_bitmap, format_writes, fs_format,
}
use k_os.FileSystem.Disk.{Disk, disk_write, content_bytes, write_all, store_super}

-- A partition smaller than 4 GB, with room for a block at least, that a 28-bit address can reach.
pub record Fits (ptn : IdePtn) : Type 0 where
  pub room : 524 ≤ ptn.sec_cnt
  pub below_4gb : ptn.sec_cnt < 2 ^ 23
  pub in_reach : ptn.start_lba + ptn.sec_cnt < 2 ^ 28

-- The block bitmap that `fs_format` writes, in its buffer.
unfoldable pub format_blocks : (garbage : Memory) → IdePtn → Memory
format_blocks garbage ptn =
    tail_filled (memset (inode_table ptn garbage) 0 0 (buf_size ptn)) (init_super_block ptn).blk_cnt

-- The disk that `fs_format` leaves where it stays within its buffer.
unfoldable pub format_disk : (stack garbage : Memory) → IdePtn → Disk → Disk
format_disk stack garbage ptn disk =
    write_all stack (format_writes ptn garbage (format_blocks garbage ptn)) disk

-- The tail of the block bitmap lies within the buffer.
abbrev pub TailFits : IdePtn → Type 0
TailFits ptn =
    last_byte (init_super_block ptn).blk_cnt + last_size (init_super_block ptn).blk_cnt
    ≤ buf_size ptn

-- Then `fs_format` goes through.
pub fs_format-writes :
    (ptn : IdePtn) (garbage : Memory)
    → TailFits ptn
    → fs_format ptn (some garbage) ≡ some (format_writes ptn garbage (format_blocks garbage ptn))
unfolding fs_format block_bitmap format_blocks
fs_format-writes ptn garbage fits =
    let cnt = (init_super_block ptn).blk_cnt in
    let within : leb (last_byte cnt + last_size cnt) (buf_size ptn) ≡ true = ground (arith, fits) in
    rw (fs_format, block_bitmap, within) refl

disk_write-other :
    (disk : Disk) (lba : ℕ) (src : Memory) (cnt s o : ℕ)
    → lba < 2 ^ 28
    → (s < lba) ⊎ (lba + cnt ≤ s)
    → disk_write disk lba src cnt s o ≡ disk s o
unfolding disk_write
disk_write-other disk lba src cnt s o reach away = ground arith

disk_write-at :
    (disk : Disk) (lba : ℕ) (src : Memory) (cnt j o : ℕ)
    → lba < 2 ^ 28
    → j < cnt
    → cnt ≤ 256
    → disk_write disk lba src cnt (lba + j) o ≡ src (j * 512 + o)
unfolding disk_write
disk_write-at disk lba src cnt j o reach lt short =
    let e : lba + j - lba % 2 ^ 28 ≡ j = omega arith in
    let one : (cnt - 1 - j) / 256 ≡ 0 = omega arith in rw (e, one) (ground arith)

-- Where the areas are, with all that the frame lemmas ask of their bounds.
pub record Areas (ptn : IdePtn) (sb : SuperBlock) : Type 0 where
  pub super_at : u32 (ptn.start_lba + 1) ≡ ptn.start_lba + 1
  pub inode_btmp_at : sb.inode_btmp_lba ≡ ptn.start_lba + 2
  pub inode_btmp_one : sb.inode_btmp_sec ≡ 1
  pub inode_table_at : sb.inode_table_lba ≡ ptn.start_lba + 3
  pub blk_btmp_at : sb.blk_btmp_lba ≡ ptn.start_lba + 515
  pub blk_at : sb.blk_lba ≡ ptn.start_lba + 515 + sb.blk_btmp_sec
  pub blk_btmp_some : 1 ≤ sb.blk_btmp_sec
  pub blk_btmp_short : sb.blk_btmp_sec ≤ 256
  pub blk_within : sb.blk_lba + 1 ≤ ptn.start_lba + ptn.sec_cnt

pub areas : (ptn : IdePtn) → Fits ptn → Areas ptn (init_super_block ptn)
unfolding init_super_block div_round_up
areas ptn fits = record {
  super_at = omega (arith, fits.room, fits.in_reach);
  inode_btmp_at = omega (arith, fits.room, fits.in_reach);
  inode_btmp_one = refl;
  inode_table_at = omega (arith, fits.room, fits.in_reach);
  blk_btmp_at = omega (arith, fits.room, fits.in_reach);
  blk_at = omega (arith, fits.room, fits.in_reach);
  blk_btmp_some = omega (arith, fits.room, fits.below_4gb);
  blk_btmp_short = omega (arith, fits.room, fits.below_4gb);
  blk_within = omega (arith, fits.room, fits.below_4gb, fits.in_reach);
}

-- The five writes, one after the other, with any contents of the last four.
five_writes :
    (stack : Memory)
    → IdePtn
    → SuperBlock
    → (inode_bitmap inode_table blocks root : Memory) → Disk
    → Disk
five_writes stack ptn sb inode_bitmap inode_table blocks root disk =
    let d₁ = disk_write disk (u32 (ptn.start_lba + 1)) (store_super stack sb) 1 in
    let d₂ = disk_write d₁ sb.inode_btmp_lba inode_bitmap sb.inode_btmp_sec in
    let d₃ = disk_write d₂ sb.inode_table_lba inode_table 1 in
    let d₄ = disk_write d₃ sb.blk_btmp_lba blocks sb.blk_btmp_sec in disk_write d₄ sb.blk_lba root 1

module _ (stack : Memory) (ptn : IdePtn) (sb : SuperBlock) (fits : Fits ptn) (ar : Areas ptn sb)
    (inode_bitmap inode_table blocks root : Memory) (disk : Disk) where
  after : Disk
  after = five_writes stack ptn sb inode_bitmap inode_table blocks root disk

  -- Only the first write concerns a sector outside of the areas behind the super block.
  after-first :
      (s o : ℕ)
      → (s < ptn.start_lba + 2) ⊎ (ptn.start_lba + ptn.sec_cnt ≤ s)
      → after s o ≡ disk_write disk (u32 (ptn.start_lba + 1)) (store_super stack sb) 1 s o
  unfolding after five_writes
  after-first s o away =
      disk_write-other _ sb.blk_lba root 1 s o (ground arith) (ground arith)
      ∙ disk_write-other _ sb.blk_btmp_lba blocks sb.blk_btmp_sec s o (ground arith) (ground arith)
      ∙ disk_write-other _ sb.inode_table_lba inode_table 1 s o (ground arith) (ground arith)
      ∙ disk_write-other _ sb.inode_btmp_lba inode_bitmap sb.inode_btmp_sec s o (ground arith)
          (ground arith)

  after-outside :
      (s o : ℕ) → (s < ptn.start_lba + 1) ⊎ (ptn.start_lba + ptn.sec_cnt ≤ s) → after s o ≡ disk s o
  after-outside s o away =
      after-first s o (ground arith)
      ∙ disk_write-other disk (u32 (ptn.start_lba + 1)) (store_super stack sb) 1 s o (ground arith)
          (ground arith)

  after-super : (o : ℕ) → after (ptn.start_lba + 1) o ≡ store_super stack sb o
  unfolding disk_write
  after-super o = after-first (ptn.start_lba + 1) o (ground arith) ∙ rw ar.super_at (ground arith)

  after-blocks :
      (j o : ℕ) → j < sb.blk_btmp_sec → after (sb.blk_btmp_lba + j) o ≡ blocks (j * 512 + o)
  unfolding after five_writes
  after-blocks j o lt =
      disk_write-other _ sb.blk_lba root 1 (sb.blk_btmp_lba + j) o (ground arith) (ground arith)
      ∙ disk_write-at _ sb.blk_btmp_lba blocks sb.blk_btmp_sec j o (ground arith) lt (ground arith)

-- Outside of the partition a format changes no sector.
pub format-outside :
    (stack garbage : Memory) (ptn : IdePtn) (disk : Disk) (s o : ℕ)
    → Fits ptn
    → (s < ptn.start_lba + 1) ⊎ (ptn.start_lba + ptn.sec_cnt ≤ s)
    → format_disk stack garbage ptn disk s o ≡ disk s o
unfolding after five_writes format_disk format_writes write_all content_bytes
format-outside stack garbage ptn disk s o fits away =
    after-outside stack ptn (init_super_block ptn) fits (areas ptn fits) _ _ _ _ disk s o away

pub format-super :
    (stack garbage : Memory) (ptn : IdePtn) (disk : Disk) (o : ℕ)
    → Fits ptn
    → format_disk stack garbage ptn disk (ptn.start_lba + 1) o
      ≡ store_super stack (init_super_block ptn) o
unfolding after five_writes format_disk format_writes write_all content_bytes
format-super stack garbage ptn disk o fits =
    after-super stack ptn (init_super_block ptn) fits (areas ptn fits) _ _ _ _ disk o

pub format-blocks :
    (stack garbage : Memory) (ptn : IdePtn) (disk : Disk) (j o : ℕ)
    → Fits ptn
    → j < (init_super_block ptn).blk_btmp_sec
    → format_disk stack garbage ptn disk ((init_super_block ptn).blk_btmp_lba + j) o
      ≡ format_blocks garbage ptn (j * 512 + o)
unfolding after five_writes format_disk format_writes write_all content_bytes format_blocks
format-blocks stack garbage ptn disk j o fits lt =
    after-blocks stack ptn (init_super_block ptn) fits (areas ptn fits) _ _ _ _ disk j o lt
