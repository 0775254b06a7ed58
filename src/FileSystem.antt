-- ===== src/FileSystem.antt =====
-- code/kernel/src/fs.c: `fs_format`. What it puts on the disk is the list of its `ide_write`
-- calls, in order. The buffer of `sys_malloc` is a memory of its own, from its start on, which holds
-- `garbage` at first. `none` is a write outside of that buffer: at NULL where `sys_malloc` has none, or
-- behind its end.
pub mod RootDir
pub mod Layout
pub mod BlockBitmap
pub mod Disk
pub mod Startup
mod Tests
use k_os.Base.{
  ℕ, zero, suc, ◌+◌, ◌-◌, ◌*◌, ◌/◌, ◌%◌, ◌^◌, Option, none, some, leb, if◌then◌else◌, List, [], ◌∷◌,
  update,
}
use k_os.Base.Bits.{bit_clear}
use k_os.Base.Word.{u8, u32, sub32, div_round_up}
use k_os.CString.{Memory, memset}

abbrev pub fs_magic : ℕ
fs_magic = 0x19890604

abbrev pub sector_size : ℕ
sector_size = 512

abbrev pub inode_cnt_max : ℕ
inode_cnt_max = sector_size * 8

-- `SECTOR_SIZE / sizeof(struct inode_hd)`
abbrev pub inode_per_sec : ℕ
inode_per_sec = sector_size / 60

abbrev pub block_size : ℕ
block_size = 4096

-- What `fs_format` reads of `struct ide_ptn`.
pub record IdePtn : Type 0 where
  pub start_lba : ℕ
  pub sec_cnt : ℕ

pub record SuperBlock : Type 0 where
  pub magic : ℕ
  pub inode_cnt : ℕ
  pub inode_btmp_lba : ℕ
  pub inode_btmp_sec : ℕ
  pub inode_table_lba : ℕ
  pub inode_table_sec : ℕ
  pub blk_cnt : ℕ
  pub blk_btmp_lba : ℕ
  pub blk_btmp_sec : ℕ
  pub blk_lba : ℕ

-- A sector's worth of super block, or the bytes of the buffer.
pub data Content : Type 0 where
  super_block : SuperBlock → Content
  bytes : Memory → Content

-- A call of `ide_write` on the partition's disk.
pub record IdeWrite : Type 0 where
  pub lba : ℕ
  pub content : Content
  pub cnt : ℕ

unfoldable pub init_super_block : IdePtn → SuperBlock
init_super_block ptn =
    let inode_btmp_lba = u32 (ptn.start_lba + 2) in
    let inode_table_lba = u32 (inode_btmp_lba + 1) in
    let inode_table_sec = inode_cnt_max / inode_per_sec in
    let used_sec = 2 + 1 + inode_table_sec in
    let free_sec = sub32 ptn.sec_cnt used_sec in
    let blk_btmp_lba = u32 (inode_table_lba + inode_table_sec) in
    let blk_btmp_sec = div_round_up (u32 (free_sec * sector_size) / block_size) (sector_size * 8) in
    record {
      magic = fs_magic;
      inode_cnt = inode_cnt_max;
      inode_btmp_lba = inode_btmp_lba;
      inode_btmp_sec = 1;
      inode_table_lba = inode_table_lba;
      inode_table_sec = inode_table_sec;
      blk_cnt = u32 (sub32 free_sec blk_btmp_sec * sector_size) / block_size;
      blk_btmp_lba = blk_btmp_lba;
      blk_btmp_sec = blk_btmp_sec;
      blk_lba = u32 (blk_btmp_lba + blk_btmp_sec);
    }

-- A `uint32_t` of a struct in the buffer, low byte first.
abbrev pub store_word : Memory → (p w : ℕ) → Memory
store_word m p w =
    update (update (update (update m p (u8 w)) (p + 1) (u8 (w / 2 ^ 8))) (p + 2) (u8 (w / 2 ^ 16)))
      (p + 3) (u8 (w / 2 ^ 24))

-- `while (idx <= last_bit) buf[last_byte] &= ~(1 << idx), idx++;` for `left` rounds.
unfoldable pub clear_bits : (left : ℕ) → Memory → (last_byte idx : ℕ) → Memory
clear_bits zero buf last_byte idx = buf
clear_bits (suc left) buf last_byte idx =
    clear_bits left (update buf last_byte (bit_clear (buf last_byte) idx)) last_byte (idx + 1)

abbrev pub last_byte : (blk_cnt : ℕ) → ℕ
last_byte blk_cnt = blk_cnt / 8

abbrev pub last_size : (blk_cnt : ℕ) → ℕ
last_size blk_cnt = sector_size - last_byte blk_cnt % sector_size

-- The block bitmap in a zeroed buffer: bit 0 for the root directory, the tail filled up.
unfoldable pub tail_filled : Memory → (blk_cnt : ℕ) → Memory
tail_filled buf blk_cnt =
    let last_bit = blk_cnt % 8 in
    clear_bits (last_bit + 1)
      (memset (update buf 0 0x01) (last_byte blk_cnt) 0xFF (last_size blk_cnt)) (last_byte blk_cnt)
      0

-- The same in a buffer of `buf_size` bytes, where `memset(&buf[last_byte], 0xFF, last_size)` and the
-- loop behind it stay within the buffer.
unfoldable pub block_bitmap : (buf_size : ℕ) → Memory → (blk_cnt : ℕ) → Option Memory
block_bitmap buf_size buf blk_cnt =
    if leb (last_byte blk_cnt + last_size blk_cnt) buf_size
    then some (tail_filled buf blk_cnt)
    else none

-- `i_no`, `i_size` and `i_block[0]` of `struct inode_hd`; a directory entry takes 24 bytes.
unfoldable pub root_inode : Memory → (blk_lba : ℕ) → Memory
root_inode buf blk_lba = store_word (store_word (store_word buf 0 0) 4 (24 * 2)) 8 blk_lba

-- "." and "..", each an `i_no`, 16 bytes of name and the type, which is 2 for a directory.
unfoldable pub root_entries : Memory → Memory
root_entries buf =
    let dot = store_word (store_word (update buf 4 b'.') 0 0) 20 2 in
    store_word (store_word (update (update dot 28 b'.') 29 b'.') 24 0) 44 2

abbrev pub buf_size : IdePtn → ℕ
buf_size ptn = u32 ((init_super_block ptn).blk_btmp_sec * sector_size)

-- The buffer with the inode bitmap, and then with the inode table.
abbrev pub inode_bitmap : IdePtn → (garbage : Memory) → Memory
inode_bitmap ptn garbage = update (memset garbage 0 0 (buf_size ptn)) 0 0x01

abbrev pub inode_table : IdePtn → (garbage : Memory) → Memory
inode_table ptn garbage =
    root_inode (memset (inode_bitmap ptn garbage) 0 0 (buf_size ptn)) (init_super_block ptn).blk_lba

-- The writes, with the block bitmap in the buffer.
unfoldable pub format_writes : IdePtn → (garbage blocks : Memory) → List IdeWrite
format_writes ptn garbage blocks =
    let sb = init_super_block ptn in
    let root = root_entries (memset blocks 0 0 (buf_size ptn)) in
    record { lba = u32 (ptn.start_lba + 1); content = super_block sb; cnt = 1 }
    ∷ record {
      lba = sb.inode_btmp_lba;
      content = bytes (inode_bitmap ptn garbage);
      cnt = sb.inode_btmp_sec;
    }
    ∷ record { lba = sb.inode_table_lba; content = bytes (inode_table ptn garbage); cnt = 1 }
    ∷ record { lba = sb.blk_btmp_lba; content = bytes blocks; cnt = sb.blk_btmp_sec }
    ∷ record { lba = sb.blk_lba; content = bytes root; cnt = 1 }
    ∷ []

-- `buf` is what `sys_malloc` answers: NULL, or a buffer with its bytes.
unfoldable pub fs_format : IdePtn → (buf : Option Memory) → Option (List IdeWrite)
fs_format ptn none = none
fs_format ptn (some garbage) =
    elim (block_bitmap (buf_size ptn) (memset (inode_table ptn garbage) 0 0 (buf_size ptn))
      (init_super_block ptn).blk_cnt) [
        | none ↦ none
        | some blocks ↦ some (format_writes ptn garbage blocks)
      ]
