-- ===== src/FileSystem/Disk.antt =====
-- code/kernel/src/fs.c: `struct super_block` as the bytes of its sector, and what the calls of
-- `ide_read` and `ide_write` in `fs_format`, `fs_mount` and `fs_init` move. A disk is its sectors of 512
-- bytes. Every chunk of 256 sectors of a transfer is sent to the same 28-bit disk address, so of a
-- longer write the last chunk stays, and a longer read repeats the first 256 sectors.
pub mod Words
pub mod Format
use k_os.Base.{ℕ, ◌+◌, ◌-◌, ◌*◌, ◌/◌, ◌%◌, ◌^◌, ◌&&◌, ltb, leb, if◌then◌else◌, List, [], ◌∷◌}
use k_os.CString.{Memory}
use k_os.FileSystem.{SuperBlock, Content, super_block, bytes, IdeWrite, store_word}

abbrev pub Disk : Type 0
Disk = (sector offset : ℕ) → ℕ

-- `ide_write`: sector `j` of the transfer gets its bytes from the last chunk that has one for it.
unfoldable pub disk_write : Disk → (lba : ℕ) → (src : Memory) → (cnt : ℕ) → Disk
disk_write disk lba src cnt sector offset =
    let first = lba % 2 ^ 28 in
    let j = sector - first in
    if leb first sector && ltb j 256 && ltb j cnt
    then src ((j + (cnt - 1 - j) / 256 * 256) * 512 + offset)
    else disk sector offset

-- `ide_read` to the address `dst`.
unfoldable pub disk_read : Disk → (lba : ℕ) → Memory → (dst cnt : ℕ) → Memory
disk_read disk lba m dst cnt a =
    if leb dst a && ltb a (dst + cnt * 512)
    then disk (lba % 2 ^ 28 + (a - dst) / 512 % 256) ((a - dst) % 512)
    else m a

-- A `uint32_t` in the buffer, low byte first.
unfoldable pub load_word : Memory → (p : ℕ) → ℕ
load_word m p = m p + m (p + 1) * 2 ^ 8 + m (p + 2) * 2 ^ 16 + m (p + 3) * 2 ^ 24

unfoldable pub store_words : Memory → (p : ℕ) → List ℕ → Memory
store_words m p [] = m
store_words m p (w ∷ ws) = store_words (store_word m p w) (p + 4) ws

-- The words of `struct super_block` in their order, before its `pad`.
abbrev pub super_words : SuperBlock → List ℕ
super_words sb =
    sb.magic ∷ sb.inode_cnt ∷ sb.inode_btmp_lba ∷ sb.inode_btmp_sec ∷ sb.inode_table_lba
    ∷ sb.inode_table_sec ∷ sb.blk_cnt ∷ sb.blk_btmp_lba ∷ sb.blk_btmp_sec ∷ sb.blk_lba ∷ []

-- The bytes of a `struct super_block`; its `pad` is what `stack` holds.
unfoldable pub store_super : (stack : Memory) → SuperBlock → Memory
store_super stack sb = store_words stack 0 (super_words sb)

unfoldable pub load_super : Memory → SuperBlock
load_super m = record {
  magic = load_word m 0;
  inode_cnt = load_word m 4;
  inode_btmp_lba = load_word m 8;
  inode_btmp_sec = load_word m 12;
  inode_table_lba = load_word m 16;
  inode_table_sec = load_word m 20;
  blk_cnt = load_word m 24;
  blk_btmp_lba = load_word m 28;
  blk_btmp_sec = load_word m 32;
  blk_lba = load_word m 36;
}

unfoldable pub content_bytes : (stack : Memory) → Content → Memory
content_bytes stack (super_block sb) = store_super stack sb
content_bytes stack (bytes m) = m

-- The disk after a list of `ide_write` calls.
unfoldable pub write_all : (stack : Memory) → List IdeWrite → Disk → Disk
write_all stack [] disk = disk
write_all stack (w ∷ ws) disk =
    write_all stack ws (disk_write disk w.lba (content_bytes stack w.content) w.cnt)
