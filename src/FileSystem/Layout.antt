-- ===== src/FileSystem/Layout.antt =====
-- The areas that `fs_format` lays out.
use k_os.Base.{ℕ, ◌+◌, ◌*◌, ◌^◌, ◌≤◌, ◌<◌, ◌≡◌, refl, false, none, some, leb, arith}
use k_os.Base.Word.{div_round_up}
use k_os.CString.{Memory}
use k_os.FileSystem.{
  IdePtn, SuperBlock, init_super_block, last_byte, last_size, buf_size, block_bitmap, fs_format,
}

-- The areas follow one another without a gap, from the boot sector and the super block to the
-- blocks of eight sectors, which end within the partition and leave less than a block of it over.
pub record IsLayout (ptn : IdePtn) (sb : SuperBlock) : Type 0 where
  pub inode_btmp : sb.inode_btmp_lba ≡ ptn.start_lba + 2
  pub inode_table : sb.inode_table_lba ≡ sb.inode_btmp_lba + sb.inode_btmp_sec
  pub blk_btmp : sb.blk_btmp_lba ≡ sb.inode_table_lba + sb.inode_table_sec
  pub blk : sb.blk_lba ≡ sb.blk_btmp_lba + sb.blk_btmp_sec
  pub within : sb.blk_lba + sb.blk_cnt * 8 ≤ ptn.start_lba + ptn.sec_cnt
  pub filled : ptn.start_lba + ptn.sec_cnt < sb.blk_lba + (sb.blk_cnt + 1) * 8
  pub bit_for_each : sb.blk_cnt ≤ sb.blk_btmp_sec * 4096
  pub inode_for_each : sb.inode_cnt ≤ sb.inode_table_sec * 8

fs_format-overrun :
    (ptn : IdePtn) (garbage : Memory)
    → last_byte (init_super_block ptn).blk_cnt ≡ buf_size ptn
    → fs_format ptn (some garbage) ≡ none
unfolding fs_format block_bitmap
fs_format-overrun ptn garbage at =
    let cnt = (init_super_block ptn).blk_cnt in
    let out : leb (last_byte cnt + last_size cnt) (buf_size ptn) ≡ false = ground (arith, at) in
    rw (fs_format, block_bitmap, out) refl

-- For a partition below the address 2 ^ 32, smaller than 4 GB and with room for one block at least,
-- the super block of `fs_format` describes a layout of the whole partition.
pub init_super_block-IsLayout :
    (ptn : IdePtn)
    → 524 ≤ ptn.sec_cnt
    → ptn.sec_cnt < 2 ^ 23
    → ptn.start_lba + ptn.sec_cnt < 2 ^ 32
    → IsLayout ptn (init_super_block ptn)
unfolding init_super_block div_round_up
init_super_block-IsLayout ptn room small fits = record {
  inode_btmp = omega arith;
  inode_table = omega arith;
  blk_btmp = omega arith;
  blk = omega arith;
  within = omega arith;
  filled = omega arith;
  bit_for_each = omega arith;
  inode_for_each = omega arith;
}

-- Where the sectors left for blocks are `k` times 32768 and `r` more, with `k` up to `r` and `r`
-- below 8, the byte from which `fs_format` fills the tail of the block bitmap is the first one behind
-- its buffer, whatever that holds; so `fs_format` writes behind the buffer.
pub tail_overruns :
    (ptn : IdePtn) (k r : ℕ) (garbage : Memory)
    → 1 ≤ k
    → k ≤ r
    → r < 8
    → ptn.sec_cnt ≡ 515 + k * 32768 + r
    → (last_byte (init_super_block ptn).blk_cnt ≡ buf_size ptn)
      × (fs_format ptn (some garbage) ≡ none)
unfolding init_super_block div_round_up
tail_overruns ptn k r garbage lo le hi e =
    let at : last_byte (init_super_block ptn).blk_cnt ≡ buf_size ptn = omega arith in
    (at, fs_format-overrun ptn garbage at)
