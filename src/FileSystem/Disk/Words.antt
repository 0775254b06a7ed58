-- ===== src/FileSystem/Disk/Words.antt =====
-- Words in a buffer, and the super block in its sector.
use k_os.Base.{
  ℕ, zero, suc, ◌+◌, ◌*◌, ◌^◌, ◌<◌, ◌≡◌, refl, some, List, [], ◌∷◌, arith, get_elem?, ◌∙◌,
}
use mathlib.Core.Option.{some-injective}
use k_os.CString.{Memory}
use k_os.FileSystem.{SuperBlock, store_word}
use k_os.FileSystem.Disk.{load_word, store_words, super_words, store_super, load_super}

load_word-store_word : (m : Memory) (p w : ℕ) → w < 2 ^ 32 → load_word (store_word m p w) p ≡ w
unfolding load_word
load_word-store_word m p w small = ground arith

store_words-below : (ws : List ℕ) (m : Memory) (p a : ℕ) → a < p → store_words m p ws a ≡ m a
unfolding store_words
store_words-below [] m p a lt = refl
store_words-below (w ∷ ws) m p a lt =
    store_words-below ws (store_word m p w) (p + 4) a (omega arith) ∙ ground arith

-- The word number `i` of those stored.
load_word-store_words :
    (ws : List ℕ) (m : Memory) (p i w : ℕ)
    → get_elem? ws i ≡ some w
    → w < 2 ^ 32
    → load_word (store_words m p ws) (p + 4 * i) ≡ w
unfolding load_word store_words
load_word-store_words [] m p i w at small = absurd (ground (arith, at))
load_word-store_words (x ∷ ws) m p zero w at small =
    let m' = store_word m p x in
    let keeps : (a : ℕ) → a < p + 4 → store_words m' (p + 4) ws a ≡ m' a =
      store_words-below ws m' (p + 4) in
    let same : x ≡ w = some-injective x w at in
    rw
      (
        keeps (p + 4 * 0) (omega arith),
        keeps (p + 4 * 0 + 1) (omega arith),
        keeps (p + 4 * 0 + 2) (omega arith),
        keeps (p + 4 * 0 + 3) (omega arith),
      )
      (ground arith)
load_word-store_words (x ∷ ws) m p (suc i) w at small =
    let e : p + 4 * suc i ≡ p + 4 + 4 * i = omega arith in
    rw e (load_word-store_words ws (store_word m p x) (p + 4) i w at small)

-- The fields are values of type `uint32_t`.
pub record IsSuperBlock (sb : SuperBlock) : Type 0 where
  pub magic_small : sb.magic < 2 ^ 32
  pub inode_cnt_small : sb.inode_cnt < 2 ^ 32
  pub inode_btmp_lba_small : sb.inode_btmp_lba < 2 ^ 32
  pub inode_btmp_sec_small : sb.inode_btmp_sec < 2 ^ 32
  pub inode_table_lba_small : sb.inode_table_lba < 2 ^ 32
  pub inode_table_sec_small : sb.inode_table_sec < 2 ^ 32
  pub blk_cnt_small : sb.blk_cnt < 2 ^ 32
  pub blk_btmp_lba_small : sb.blk_btmp_lba < 2 ^ 32
  pub blk_btmp_sec_small : sb.blk_btmp_sec < 2 ^ 32
  pub blk_lba_small : sb.blk_lba < 2 ^ 32

-- A super block that is stored in a sector is loaded from it again.
pub load_super-store_super :
    (stack : Memory) (sb : SuperBlock) → IsSuperBlock sb → load_super (store_super stack sb) ≡ sb
unfolding load_super store_super
load_super-store_super stack sb is =
    let ws = super_words sb in
    let at : (i w : ℕ)
        → get_elem? ws i ≡ some w
        → w < 2 ^ 32
        → load_word (store_words stack 0 ws) (0 + 4 * i) ≡ w =
      λ i w e s. load_word-store_words ws stack 0 i w e s in
    rw
      (
        at 0 sb.magic refl is.magic_small,
        at 1 sb.inode_cnt refl is.inode_cnt_small,
        at 2 sb.inode_btmp_lba refl is.inode_btmp_lba_small,
        at 3 sb.inode_btmp_sec refl is.inode_btmp_sec_small,
        at 4 sb.inode_table_lba refl is.inode_table_lba_small,
        at 5 sb.inode_table_sec refl is.inode_table_sec_small,
        at 6 sb.blk_cnt refl is.blk_cnt_small,
        at 7 sb.blk_btmp_lba refl is.blk_btmp_lba_small,
        at 8 sb.blk_btmp_sec refl is.blk_btmp_sec_small,
        at 9 sb.blk_lba refl is.blk_lba_small,
      )
      refl
