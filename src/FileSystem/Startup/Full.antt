-- ===== src/FileSystem/Startup/Full.antt =====
-- `fs_init` with more partitions than the root directory has entries for.
use mathlib.Core.List.{append_assoc, append-nil}
use k_os.Base.{
  ℕ, zero, suc, ◌+◌, ◌<◌, ◌≡◌, refl, none, some, inl, inr, Option-cases, List, [], ◌∷◌, ◌++◌,
  replicate, length, Each, each_nil, each_cons, Each-append, arith, ◌∙◌, sym, subst,
}
use k_os.FileSystem.{SuperBlock}
use k_os.FileSystem.Disk.{Disk}
use k_os.FileSystem.RootDir.{Dirent, mount_dir, assign_inodes}
use k_os.FileSystem.Startup.{
  MountPtn, Buffers, FsState, read_super, ensure_format, fs_mount, mount_with, mount_all, fs_init,
  root_dir_init,
}
use k_os.FileSystem.Startup.Entries.{
  blank, dot_entries, IsUsed, entry_of, mount_entry-full, has_room-used, Mounts-entries,
}
use k_os.FileSystem.Startup.Mounted.{Mounts, fs_mount-Mounts}

fs_mount-full :
    (b : Buffers) (p : MountPtn) (s : FsState)
    → Each IsUsed s.root_dir.entries
    → fs_mount b p s ≡ none
unfolding fs_mount mount_with mount_dir
fs_mount-full b p s all =
    let sb = read_super s.disk p.ptn in
    let base = (assign_inodes p.inode_base sb.inode_cnt s.inode_max).0 in
    rw (mount_with, mount_dir, mount_entry-full p.name base s.root_dir.entries all) refl

-- The loop stops where a partition cannot be formatted, where a mount fails, and where one behind it
-- does.
module _ (buffers : ℕ → Buffers) (idx : ℕ) (p : MountPtn) (ps : List MountPtn) (s : FsState) where
  mount_all-unformatted :
      ensure_format (buffers idx) p.ptn s.disk ≡ none → mount_all buffers idx (p ∷ ps) s ≡ none
  unfolding mount_all
  mount_all-unformatted fails = rw (mount_all, fails) refl

  mount_all-stops :
      (disk : Disk)
      → ensure_format (buffers idx) p.ptn s.disk ≡ some disk
      → fs_mount (buffers idx) p (record s { disk = disk }) ≡ none
      → mount_all buffers idx (p ∷ ps) s ≡ none
  unfolding mount_all
  mount_all-stops disk format fails = rw (mount_all, format, mount_all, fails) refl

  mount_all-later :
      (disk : Disk) (sb : SuperBlock) (r : Mounts (buffers idx) p (record s { disk = disk }) sb)
      → ensure_format (buffers idx) p.ptn s.disk ≡ some disk
      → mount_all buffers (idx + 1) ps r.state ≡ none
      → mount_all buffers idx (p ∷ ps) s ≡ none
  unfolding mount_all
  mount_all-later disk sb r format fails = rw (mount_all, format, mount_all, r.mount_eq, fails) refl

mount_all-full :
    (buffers : ℕ → Buffers) (idx : ℕ) (ps : List MountPtn) (s : FsState) (used : List Dirent)
    (k : ℕ)
    → Each IsUsed used
    → s.root_dir.entries ≡ used ++ replicate k blank
    → k < length ps
    → mount_all buffers idx ps s ≡ none
mount_all-full buffers idx [] s used k all at more = absurd (omega (arith, more))
mount_all-full buffers idx (p ∷ ps) s used zero all at more =
    elim (Option-cases (ensure_format (buffers idx) p.ptn s.disk)) [
      | inl fails ↦ mount_all-unformatted buffers idx p ps s fails
      | inr (disk, format) ↦
          mount_all-stops buffers idx p ps s disk format
            (fs_mount-full (buffers idx) p _ (subst (Each IsUsed) (sym (at ∙ append-nil used)) all))
    ]
mount_all-full buffers idx (p ∷ ps) s used (suc k) all at more =
    elim (Option-cases (ensure_format (buffers idx) p.ptn s.disk)) [
      | inl fails ↦ mount_all-unformatted buffers idx p ps s fails
      | inr (disk, format) ↦
          let b = buffers idx in
          let s₁ : FsState = record s { disk = disk } in
          let sb = read_super disk p.ptn in
          let r = fs_mount-Mounts b p s₁ sb refl (rw at (has_room-used used _)) in
          mount_all-later buffers idx p ps s disk sb r format (
            mount_all-full buffers (idx + 1) ps r.state (used ++ entry_of r.ptn ∷ []) k
              (Each-append _ _ all (each_cons refl each_nil))
              (Mounts-entries b p s₁ sb used (replicate k blank) r all at
                ∙ sym (append_assoc used (entry_of r.ptn ∷ []) (replicate k blank)))
              (omega (arith, more)))
    ]

-- With more than 8 partitions `fs_init` does not go through: the root directory has 10 entries, so the
-- assertion of `fs_mount` fails, if no `fs_format` before leaves its buffer.
pub fs_init-full :
    (root_blk : ℕ) (buffers : ℕ → Buffers) (ps : List MountPtn) (s : FsState)
    → 8 < length ps
    → fs_init root_blk buffers ps s ≡ none
unfolding fs_init root_dir_init
fs_init-full root_blk buffers ps s more =
    mount_all-full buffers 0 ps (root_dir_init root_blk s) dot_entries 8
      (each_cons refl (each_cons refl each_nil)) refl more
